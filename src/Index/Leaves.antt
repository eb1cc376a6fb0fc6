-- ===== src/Index/Leaves.antt =====
-- The leaves from one page on, and a scan along them.
use db_smw.Common.{
  ℕ, zero, suc, ◌+◌, ◌<◌, ◌≡◌, refl, sym, ap, ◌∙◌, ◌≢◌, true, false, not, ◌&&◌, if◌then◌else◌, ltb,
  ◌==◌, none, some, List, [], ◌∷◌, ◌++◌, arith, if_pos, if_neg,
}
use mathlib.Core.List.{append-nil}
use db_smw.Common.Int.{ℤ, ℤ_discrete}
use db_smw.Common.Partial.{◌>>=◌}
use db_smw.Transaction.{Rid}
use db_smw.Index.Compare.{less, ix_compare}
use db_smw.Index.Node.{IxNode}
use db_smw.Index.Search.{IsOrdered}
use db_smw.Index.Tree.{IxFile}
use db_smw.Index.Scan.{iid, same_iid, leaf_end, get_rid, advance, next, scan_all}

-- Every key of leaf `p` is less than every key of the leaves `ps`.
abbrev pub IsBelow : IxFile → ℤ → List ℤ → Type 0
IsBelow f p [] = Unit
IsBelow f p (q ∷ ps) =
    ((i j : ℕ)
      → i < (f.pages p).num_key
      → j < (f.pages q).num_key
      → ix_compare f.file_hdr.cols ((f.pages p).keys i) ((f.pages q).keys j) ≡ less)
    × IsBelow f p ps

-- From leaf `p` on there are the leaves `ps`, in this order, up to the last leaf; all but the last
-- have a key, and the keys ascend from leaf to leaf.
abbrev pub IsChain : IxFile → ℤ → List ℤ → Type 0
IsChain f p [] =
    ((f.pages p).is_leaf ≡ true) × (IsOrdered f.file_hdr (f.pages p) × (p ≡ f.file_hdr.last_leaf))
IsChain f p (q ∷ ps) =
    ((f.pages p).is_leaf ≡ true)
    × (IsOrdered f.file_hdr (f.pages p)
        × ((p ≢ f.file_hdr.last_leaf)
            × ((0 < (f.pages p).num_key)
                × (((f.pages p).next_leaf ≡ q) × (IsBelow f p (q ∷ ps) × IsChain f q ps)))))

-- the rids of `count` slots from `i` on
unfoldable pub rids_from : IxNode → ℕ → ℕ → List Rid
rids_from n i zero = []
rids_from n i (suc count) = n.rids i ∷ rids_from n (suc i) count

unfoldable pub all_rids : IxFile → List ℤ → List Rid
unfolding rids_from
all_rids f [] = []
all_rids f (p ∷ ps) = rids_from (f.pages p) 0 (f.pages p).num_key ++ all_rids f ps

unfoldable pub entry_count : IxFile → List ℤ → ℕ
entry_count f [] = 0
entry_count f (p ∷ ps) = (f.pages p).num_key + entry_count f ps

same_iid-slots : (p : ℤ) (i j : ℕ) → same_iid (iid p i) (iid p j) ≡ (i == j)
unfolding same_iid
same_iid-slots p i j = if_pos (ℤ_discrete p p) refl _ _

same_iid-pages : (p q : ℤ) (i j : ℕ) → p ≢ q → same_iid (iid p i) (iid q j) ≡ false
unfolding same_iid
same_iid-pages p q i j ne = if_neg (ℤ_discrete p q) ne _ _

module _ (f : IxFile) (p : ℤ) (leaf : (f.pages p).is_leaf ≡ true) (i : ℕ)
    (lt : i < (f.pages p).num_key) (running : same_iid (iid p i) (leaf_end f) ≡ false) where
  get_rid-some : get_rid f (iid p i) ≡ some ((f.pages p).rids i)
  unfolding get_rid
  get_rid-some =
      let t : ltb i (f.pages p).num_key ≡ true = ground arith in
      ap (λ b. if b then some ((f.pages p).rids i) else none) t

  allowed :
      (not (same_iid (iid p i) (leaf_end f)) && ((f.pages p).is_leaf && ltb i (f.pages p).num_key))
      ≡ true
  allowed = ground arith

  next-some : next f (leaf_end f) (iid p i) ≡ some (advance f (iid p i))
  unfolding next
  next-some = ap (λ b. if b then some (advance f (iid p i)) else none) allowed

  scan_all-step :
      (fuel : ℕ)
      → scan_all (suc fuel) f (leaf_end f) (iid p i) ≡ (
          scan_all fuel f (leaf_end f) (advance f (iid p i)) >>= λ rs.
          some ((f.pages p).rids i ∷ rs))
  unfolding scan_all
  scan_all-step fuel =
      ap
        (λ b.
          if b
          then some []
          else get_rid f (iid p i) >>= λ r. next f (leaf_end f) (iid p i) >>= λ y.
              scan_all fuel f (leaf_end f) y >>= λ rs. some (r ∷ rs))
        running
      ∙ ap
          (λ o. o >>= λ r. next f (leaf_end f) (iid p i) >>= λ y.
            scan_all fuel f (leaf_end f) y >>= λ rs. some (r ∷ rs))
          get_rid-some
      ∙ ap (λ o. o >>= λ y. scan_all fuel f (leaf_end f) y >>= λ rs. some ((f.pages p).rids i ∷ rs))
          next-some

module _ (f : IxFile) (p : ℤ) (last : p ≡ f.file_hdr.last_leaf) where
  leaf_end-last : leaf_end f ≡ iid p (f.pages p).num_key
  unfolding leaf_end
  leaf_end-last = ap (λ q. iid q (f.pages q).num_key) (sym last)

  is_end-last : (i : ℕ) → same_iid (iid p i) (leaf_end f) ≡ (i == (f.pages p).num_key)
  is_end-last i = ap (same_iid (iid p i)) leaf_end-last ∙ same_iid-slots p i (f.pages p).num_key

  advance-last : (i : ℕ) → advance f (iid p i) ≡ iid p (suc i)
  advance-last i =
      ap
        (λ b.
          if not b && (suc i == (f.pages p).num_key)
          then iid (f.pages p).next_leaf 0
          else iid p (suc i))
        (if_pos (ℤ_discrete p f.file_hdr.last_leaf) last true false)

module _ (f : IxFile) (p : ℤ) (others : p ≢ f.file_hdr.last_leaf) where
  is_end-others : (i : ℕ) → same_iid (iid p i) (leaf_end f) ≡ false
  unfolding leaf_end
  is_end-others i = same_iid-pages p f.file_hdr.last_leaf i _ others

  advance-others :
      (i : ℕ)
      → advance f (iid p i)
        ≡ (if suc i == (f.pages p).num_key then iid (f.pages p).next_leaf 0 else iid p (suc i))
  advance-others i =
      ap
        (λ b.
          if not b && (suc i == (f.pages p).num_key)
          then iid (f.pages p).next_leaf 0
          else iid p (suc i))
        (if_neg (ℤ_discrete p f.file_hdr.last_leaf) others true false)

-- To the end of the last leaf.
scan_all-last :
    (f : IxFile) (p : ℤ) (fuel i count : ℕ)
    → (f.pages p).is_leaf ≡ true
    → p ≡ f.file_hdr.last_leaf
    → i + count ≡ (f.pages p).num_key
    → count < fuel
    → scan_all fuel f (leaf_end f) (iid p i) ≡ some (rids_from (f.pages p) i count)
unfolding scan_all rids_from
scan_all-last f p zero i count leaf last e lt = absurd (omega arith)
scan_all-last f p (suc fuel) i zero leaf last e lt =
    let ended : (i == (f.pages p).num_key) ≡ true = ground arith in
    ap
      (λ b.
        if b
        then some []
        else get_rid f (iid p i) >>= λ r. next f (leaf_end f) (iid p i) >>= λ y.
            scan_all fuel f (leaf_end f) y >>= λ rs. some (r ∷ rs))
      (is_end-last f p last i ∙ ended)
scan_all-last f p (suc fuel) i (suc count) leaf last e lt =
    let going : (i == (f.pages p).num_key) ≡ false = ground arith in
    scan_all-step f p leaf i (omega arith) (is_end-last f p last i ∙ going) fuel
    ∙ ap (λ x. scan_all fuel f (leaf_end f) x >>= λ rs. some ((f.pages p).rids i ∷ rs))
        (advance-last f p last i)
    ∙ ap (λ o. o >>= λ rs. some ((f.pages p).rids i ∷ rs))
        (scan_all-last f p fuel (suc i) count leaf last (omega arith) (omega arith))

-- Through a leaf that is not the last, where the scan from the next leaf on returns `rest`.
scan_all-others :
    (f : IxFile) (p : ℤ) (rest : List Rid) (enough fuel i count : ℕ)
    → (f.pages p).is_leaf ≡ true
    → p ≢ f.file_hdr.last_leaf
    → ((fuel : ℕ)
        → enough < fuel
        → scan_all fuel f (leaf_end f) (iid (f.pages p).next_leaf 0) ≡ some rest)
    → i + suc count ≡ (f.pages p).num_key
    → suc count + enough < fuel
    → scan_all fuel f (leaf_end f) (iid p i) ≡ some (rids_from (f.pages p) i (suc count) ++ rest)
unfolding rids_from
scan_all-others f p rest enough zero i count leaf others onward e lt = absurd (omega arith)
scan_all-others f p rest enough (suc fuel) i zero leaf others onward e lt =
    let turn : (suc i == (f.pages p).num_key) ≡ true = ground arith in
    scan_all-step f p leaf i (omega arith) (is_end-others f p others i) fuel
    ∙ ap (λ x. scan_all fuel f (leaf_end f) x >>= λ rs. some ((f.pages p).rids i ∷ rs))
        (advance-others f p others i
          ∙ ap (λ b. if b then iid (f.pages p).next_leaf 0 else iid p (suc i)) turn)
    ∙ ap (λ o. o >>= λ rs. some ((f.pages p).rids i ∷ rs)) (onward fuel (omega arith))
scan_all-others f p rest enough (suc fuel) i (suc count) leaf others onward e lt =
    let stay : (suc i == (f.pages p).num_key) ≡ false = ground arith in
    scan_all-step f p leaf i (omega arith) (is_end-others f p others i) fuel
    ∙ ap (λ x. scan_all fuel f (leaf_end f) x >>= λ rs. some ((f.pages p).rids i ∷ rs))
        (advance-others f p others i
          ∙ ap (λ b. if b then iid (f.pages p).next_leaf 0 else iid p (suc i)) stay)
    ∙ ap (λ o. o >>= λ rs. some ((f.pages p).rids i ∷ rs))
        (scan_all-others f p rest enough fuel (suc i) count leaf others onward (omega arith)
          (omega arith))

-- A start in a leaf that has a leaf behind it has a slot.
abbrev pub HasSlot : List ℤ → ℕ → Type 0
HasSlot [] count = Unit
HasSlot (q ∷ ps) count = 0 < count

IsChain-HasSlot :
    (f : IxFile) (p : ℤ) (ps : List ℤ) → IsChain f p ps → HasSlot ps (f.pages p).num_key
IsChain-HasSlot f p [] c = tt
IsChain-HasSlot f p (q ∷ ps) c = c.1.1.1.0

-- A scan from slot `i` of leaf `p` on.
pub scan_all-chain :
    (f : IxFile) (p : ℤ) (ps : List ℤ) (fuel i count : ℕ)
    → IsChain f p ps
    → HasSlot ps count
    → i + count ≡ (f.pages p).num_key
    → count + entry_count f ps < fuel
    → scan_all fuel f (leaf_end f) (iid p i) ≡ some (rids_from (f.pages p) i count ++ all_rids f ps)
unfolding all_rids entry_count
scan_all-chain f p [] fuel i count c s e lt =
    scan_all-last f p fuel i count c.0 c.1.1 e (omega arith) ∙ ap some (sym (append-nil _))
scan_all-chain f p (q ∷ ps) fuel i zero c s e lt = absurd (omega arith)
scan_all-chain f p (q ∷ ps) fuel i (suc count) c s e lt =
    let rest = c.1.1.1.1 in
    scan_all-others f p (all_rids f (q ∷ ps)) (entry_count f (q ∷ ps)) fuel i count c.0 c.1.1.0
      (λ more h.
        ap (λ x. scan_all more f (leaf_end f) (iid x 0)) rest.0
        ∙ scan_all-chain f q ps more 0 (f.pages q).num_key rest.1.1
            (IsChain-HasSlot f q ps rest.1.1) (omega arith) h)
      e lt
