-- ===== src/Index/Range.antt =====
-- A scan from a lower bound on returns the entries that are not less than the key.
use db_smw.Common.{
  ℕ, zero, suc, ◌+◌, ◌-◌, ◌≤◌, ◌<◌, ◌≡◌, refl, sym, ap, ◌∙◌, ◌≢◌, inl, inr, Bool, true, false, not,
  ◌&&◌, if◌then◌else◌, ◌==◌, some, List, [], ◌∷◌, ◌++◌, arith, if_pos, if_neg, ℕ_discrete,
  Bool-cases, length,
}
use db_smw.Common.Int.{ℤ, ℤ_discrete}
use db_smw.Transaction.{Rid}
use db_smw.Index.{IxFileHdr}
use db_smw.Index.Compare.{Key, Comparison, less, equal, greater, ix_compare}
use db_smw.Index.Order.{IsKey, ix_compare-less_trans}
use db_smw.Index.Node.{IxNode, is_less, compare_at, lower_bound}
use db_smw.Index.Search.{Splits, IsOrdered, lower_bound-Splits}
use db_smw.Index.Tree.{IxFile}
use db_smw.Index.Scan.{Iid, iid, is_last, leaf_end, scan_all, bound_from}
use db_smw.Index.Leaves.{
  IsBelow, IsChain, rids_from, all_rids, entry_count, HasSlot, scan_all-chain,
}

-- The rids of the slots from `i` on, of `count`, whose key is not less than `key`.
pub rids_not_less : IxFileHdr → Key → IxNode → ℕ → ℕ → List Rid
rids_not_less h key n i zero = []
rids_not_less h key n i (suc count) =
    let rest = rids_not_less h key n (suc i) count in
    if is_less (compare_at h n key i) then rest else n.rids i ∷ rest

pub all_not_less : IxFile → Key → List ℤ → List Rid
unfolding rids_not_less
all_not_less f key [] = []
all_not_less f key (p ∷ ps) =
    let n = f.pages p in rids_not_less f.file_hdr key n 0 n.num_key ++ all_not_less f key ps

rids_not_less-all :
    (h : IxFileHdr) (key : Key) (n : IxNode) (i count : ℕ)
    → ((j : ℕ) → i ≤ j → j < i + count → is_less (compare_at h n key j) ≡ false)
    → rids_not_less h key n i count ≡ rids_from n i count
unfolding rids_not_less rids_from
rids_not_less-all h key n i zero keep = refl
rids_not_less-all h key n i (suc count) keep =
    ap
      (λ b.
        if b
        then rids_not_less h key n (suc i) count
        else n.rids i ∷ rids_not_less h key n (suc i) count)
      (keep i (omega arith) (omega arith))
    ∙ ap (λ rs. n.rids i ∷ rs)
        (rids_not_less-all h key n (suc i) count (λ j le lt. keep j (omega arith) (omega arith)))

rids_not_less-Splits :
    (h : IxFileHdr) (key : Key) (n : IxNode) (r i count left : ℕ)
    → Splits (λ j. is_less (compare_at h n key j)) n.num_key r
    → i + count ≡ n.num_key
    → i ≤ r
    → r + left ≡ n.num_key
    → rids_not_less h key n i count ≡ rids_from n r left
unfolding rids_not_less rids_from
rids_not_less-Splits h key n r i zero left s e le f =
    let none_left : 0 ≡ left = omega (arith, s.inside) in ap (rids_from n r) none_left
rids_not_less-Splits h key n r i (suc count) left s e le f = elim (ℕ_discrete i r) [
  | yes at ↦
      let same : suc count ≡ left = omega (arith, at) in
      rids_not_less-all h key n i (suc count)
        (λ j ge lt. s.behind j (omega (arith, at)) (omega arith))
      ∙ ap (rids_from n i) same
      ∙ ap (λ j. rids_from n j left) at
  | no ne ↦
      ap
        (λ b.
          if b
          then rids_not_less h key n (suc i) count
          else n.rids i ∷ rids_not_less h key n (suc i) count)
        (s.before i (omega (arith, ne)))
      ∙ rids_not_less-Splits h key n r (suc i) count left s (omega arith) (omega (arith, ne)) f
]

not_less : (x : Comparison) → x ≢ less → is_less x ≡ false
not_less less h = absurd (h refl)
not_less equal h = refl
not_less greater h = refl

-- Behind a leaf `p` that has a key not less than `key`, all keys are so.
module _ (f : IxFile) (key : Key) (p : ℤ) (i : ℕ) (k : IsKey f.file_hdr.cols key)
    (ord : IsOrdered f.file_hdr (f.pages p)) (lt : i < (f.pages p).num_key)
    (least : is_less (compare_at f.file_hdr (f.pages p) key i) ≡ false) where
  slot_behind :
      (q : ℤ) (j : ℕ)
      → IsOrdered f.file_hdr (f.pages q)
      → j < (f.pages q).num_key
      → ix_compare f.file_hdr.cols ((f.pages p).keys i) ((f.pages q).keys j) ≡ less
      → is_less (compare_at f.file_hdr (f.pages q) key j) ≡ false
  slot_behind q j o fits below = not_less (compare_at f.file_hdr (f.pages q) key j) (λ l. cc (
    least,
    ix_compare-less_trans f.file_hdr.cols ((f.pages p).keys i) ((f.pages q).keys j) (ord.valid i lt)
        (o.valid j fits) key k below (λ g. cc (g, l)),
  ))

  leaf_behind :
      (q : ℤ) (ps : List ℤ)
      → IsOrdered f.file_hdr (f.pages q)
      → IsBelow f p (q ∷ ps)
      → rids_not_less f.file_hdr key (f.pages q) 0 (f.pages q).num_key
        ≡ rids_from (f.pages q) 0 (f.pages q).num_key
  leaf_behind q ps o below =
      rids_not_less-all f.file_hdr key (f.pages q) 0 (f.pages q).num_key
        (λ j ge fits. slot_behind q j o (omega arith) (below.0 i j lt (omega arith)))

  leaves_behind :
      (q : ℤ) (ps : List ℤ)
      → IsBelow f p (q ∷ ps)
      → IsChain f q ps
      → all_not_less f key (q ∷ ps) ≡ all_rids f (q ∷ ps)
  unfolding all_not_less all_rids
  leaves_behind q [] below c = ap (λ rs. rs ++ []) (leaf_behind q [] c.1.0 below)
  leaves_behind q (s ∷ ss) below c =
      ap (λ rs. rs ++ all_not_less f key (s ∷ ss)) (leaf_behind q (s ∷ ss) c.1.0 below)
      ∙ ap (λ rs. rids_from (f.pages q) 0 (f.pages q).num_key ++ rs)
          (leaves_behind s ss below.1 c.1.1.1.1.1.1)

stop : {A : Type 0} (b : Bool) (x y : A) → (if b && not true then x else y) ≡ y
stop true x y = refl
stop false x y = refl

module _ (f : IxFile) (key : Key) (k : IsKey f.file_hdr.cols key) where
  abbrev lb : ℤ → ℕ
  lb p = lower_bound f.file_hdr (f.pages p) key

  own_part :
      (p : ℤ) (left : ℕ)
      → IsOrdered f.file_hdr (f.pages p)
      → lb p + left ≡ (f.pages p).num_key
      → rids_not_less f.file_hdr key (f.pages p) 0 (f.pages p).num_key
        ≡ rids_from (f.pages p) (lb p) left
  own_part p left o e =
      rids_not_less-Splits f.file_hdr key (f.pages p) (lb p) 0 (f.pages p).num_key left
        (lower_bound-Splits f.file_hdr (f.pages p) key o k) (omega arith) (omega arith) e

  fits : (p : ℤ) → IsOrdered f.file_hdr (f.pages p) → lb p ≤ (f.pages p).num_key
  fits p o = (lower_bound-Splits f.file_hdr (f.pages p) key o k).inside

  -- The scan from the lower bound in leaf `p`, where all entries behind `p` are wanted.
  scan_here :
      (p : ℤ) (ps : List ℤ) (rounds left : ℕ)
      → IsChain f p ps
      → IsOrdered f.file_hdr (f.pages p)
      → HasSlot ps left
      → lb p + left ≡ (f.pages p).num_key
      → entry_count f (p ∷ ps) < rounds
      → all_not_less f key ps ≡ all_rids f ps
      → scan_all rounds f (leaf_end f) (iid p (lb p)) ≡ some (all_not_less f key (p ∷ ps))
  unfolding all_not_less entry_count
  scan_here p ps rounds left c o s e more behind =
      scan_all-chain f p ps rounds (lb p) left c s e (omega arith)
      ∙ ap some (
          ap (λ rs. rs ++ all_rids f ps) (sym (own_part p left o e))
          ∙ ap (λ rs. rids_not_less f.file_hdr key (f.pages p) 0 (f.pages p).num_key ++ rs)
              (sym behind))

  -- From leaf `p` on, whose leaves up to the last are the chain, with keys that ascend within and
  -- across leaves, for a key of the file: with more rounds than leaves and more than entries, the loop
  -- of lower_bound ends at a place from which a scan up to leaf_end returns, in order, the rids of
  -- exactly the entries whose key is not less than the key.
  pub scan_all-bound_from :
      (p : ℤ) (ps : List ℤ) (fuel rounds : ℕ)
      → IsChain f p ps
      → length ps < fuel
      → entry_count f (p ∷ ps) < rounds
      → (x : Iid) × (bound_from fuel (λ n. lower_bound f.file_hdr n key) f p ≡ some x)
        × (scan_all rounds f (leaf_end f) x ≡ some (all_not_less f key (p ∷ ps)))
  unfolding bound_from all_not_less entry_count all_rids rids_from
  scan_all-bound_from p ps zero rounds c lt more = absurd (omega arith)
  scan_all-bound_from p [] (suc fuel) rounds c lt more = (
    iid p (lb p),
    ap
          (λ b.
            if (lb p == (f.pages p).num_key) && not b
            then bound_from fuel (λ n. lower_bound f.file_hdr n key) f (f.pages p).next_leaf
            else some (iid p (lb p)))
          (if_pos (ℤ_discrete p f.file_hdr.last_leaf) c.1.1 true false)
        ∙ stop (lb p == (f.pages p).num_key) _ _,
    scan_here p [] rounds ((f.pages p).num_key - lb p) c c.1.0 tt (omega (arith, fits p c.1.0)) more
        refl,
  )
  scan_all-bound_from p (q ∷ ps) (suc fuel) rounds c lt more =
      let rest = c.1.1.1.1 in
      let place = iid p (lb p) in
      let on = bound_from fuel (λ n. lower_bound f.file_hdr n key) f (f.pages p).next_leaf in
      let another : is_last f p ≡ false =
        if_neg (ℤ_discrete p f.file_hdr.last_leaf) c.1.1.0 true false in
      elim (Bool-cases (lb p == (f.pages p).num_key)) [
        | inl full ↦
            let (x, e, s) =
              scan_all-bound_from q ps fuel rounds rest.1.1 (omega arith) (omega arith) in
            (
              x,
              ap (λ b. if (lb p == (f.pages p).num_key) && not b then on else some place) another
                  ∙ ap (λ b. if b && true then on else some place) full
                  ∙ ap (bound_from fuel (λ n. lower_bound f.file_hdr n key) f) rest.0
                  ∙ e,
              s
                  ∙ ap some (
                      ap (λ rs. rs ++ all_not_less f key (q ∷ ps))
                        (sym (own_part p 0 c.1.0 (ground arith)))),
            )
        | inr part ↦
            let inside : lb p < (f.pages p).num_key = ground (arith, fits p c.1.0) in
            (
              place,
              ap (λ b. if (lb p == (f.pages p).num_key) && not b then on else some place) another
                  ∙ ap (λ b. if b && true then on else some place) part,
              scan_here p (q ∷ ps) rounds ((f.pages p).num_key - lb p) c c.1.0
                  (omega (arith, inside)) (omega (arith, inside)) more
                  (leaves_behind f key p (lb p) k c.1.0 inside
                    ((lower_bound-Splits f.file_hdr (f.pages p) key c.1.0 k).behind (lb p)
                      (omega arith) inside)
                    q ps rest.1.0 rest.1.1),
            )
      ]
