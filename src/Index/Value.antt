-- ===== src/Index/Value.antt =====
-- `get_value` finds what the leaves of a search tree have.
use db_smw.Common.{
  ℕ, zero, suc, ◌-◌, ◌<◌, ◌≡◌, refl, ap, ◌∙◌, ◌≢◌, true, false, if◌then◌else◌, dec_lt, Option, none,
  some, arith, subst, if_neg,
}
use db_smw.Common.Int.{ℤ, ℤ_discrete}
use db_smw.Transaction.{Rid}
use db_smw.Index.{ix_no_page}
use db_smw.Index.Compare.{Comparison, less, equal, greater, Key}
use db_smw.Index.Order.{IsKey}
use db_smw.Index.Node.{
  IxNode, compare_at, is_less_or_equal, upper_bound, internal_lookup, leaf_lookup, value_at,
}
use db_smw.Index.Search.{IsOrdered, upper_bound-Splits}
use db_smw.Index.Found.{Found, leaf_lookup-Found}
use db_smw.Index.Tree.{IxFile, leaf_at, descend, find_leaf_page, value_from, get_value}

-- A leaf below page `p`, `height` levels down, has the key with that rid.
abbrev pub Has : IxFile → ℕ → ℤ → Key → Rid → Type 0
Has f zero p q r = Found f.file_hdr (f.pages p) q (some r)
Has f (suc height) p q r =
    let node = f.pages p in
    (i : ℕ) × (i < node.num_key) × Has f height (value_at f.file_hdr node i) q r

-- Keys below child `i` are not less than the `i`-th key, but for the first child, and less than the
-- next.
abbrev pub Separates : IxFile → ℕ → IxNode → Type 0
Separates f height node =
    (i : ℕ) (q : Key) (r : Rid)
    → i < node.num_key
    → IsKey f.file_hdr.cols q
    → Has f height (value_at f.file_hdr node i) q r
    → (0 < i → compare_at f.file_hdr node q i ≢ greater)
      × (suc i < node.num_key → compare_at f.file_hdr node q (suc i) ≡ greater)

-- A search tree: its leaves are `height` levels down.
abbrev pub IsTree : IxFile → ℕ → ℤ → Type 0
IsTree f zero p = ((f.pages p).is_leaf ≡ true) × IsOrdered f.file_hdr (f.pages p)
IsTree f (suc height) p =
    let node = f.pages p in
    (node.is_leaf ≡ false)
    × (IsOrdered f.file_hdr node
        × ((0 < node.num_key)
            × (Separates f height node
                × ((i : ℕ) → i < node.num_key → IsTree f height (value_at f.file_hdr node i)))))

-- The rid that the leaves have for the key, or none of them has the key.
abbrev pub Answers : IxFile → ℕ → ℤ → Key → Option Rid → Type 0
Answers f height p q (some r) = Has f height p q r
Answers f height p q none = (r : Rid) → ¬ Has f height p q r

Found-Answers :
    (f : IxFile) (p : ℤ) (q : Key) (o : Option Rid)
    → Found f.file_hdr (f.pages p) q o
    → Answers f zero p q o
Found-Answers f p q (some r) h = h
Found-Answers f p q none h = λ r (i, lt, e, g). h i lt e

not_less_or_equal : (c : Comparison) → is_less_or_equal c ≡ false → c ≡ greater
not_less_or_equal less e = cc
not_less_or_equal equal e = cc
not_less_or_equal greater e = refl

module _ (f : IxFile) (height : ℕ) (p : ℤ) (q : Key) (k : IsKey f.file_hdr.cols q)
    (t : IsTree f (suc height) p) where
  abbrev chosen : ℕ
  chosen = upper_bound f.file_hdr (f.pages p) q - 1

  chosen_fits : chosen < (f.pages p).num_key
  chosen_fits = omega (arith, (upper_bound-Splits f.file_hdr (f.pages p) q t.1.0 k).inside, t.1.1.0)

  -- Only the child that internal_lookup chooses can have the key.
  only_chosen :
      (i : ℕ) (r : Rid)
      → i < (f.pages p).num_key
      → Has f height (value_at f.file_hdr (f.pages p) i) q r
      → i ≡ chosen
  only_chosen i r lt has =
      let splits = upper_bound-Splits f.file_hdr (f.pages p) q t.1.0 k in
      let (from_below, to_above) = t.1.1.1.0 i q r lt k has in
      elim (dec_lt i chosen) [
        | yes l ↦
            absurd (cc (splits.before (suc i) (omega arith), to_above (omega (arith, chosen_fits))))
        | no n1 ↦ elim (dec_lt chosen i) [
          | yes l ↦
              absurd
                (from_below (omega arith) (not_less_or_equal _ (splits.behind i (omega arith) lt)))
          | no n2 ↦ omega (arith, n1, n2)
        ]
      ]

  from_chosen :
      (o : Option Rid)
      → Answers f height (value_at f.file_hdr (f.pages p) chosen) q o
      → Answers f (suc height) p q o
  from_chosen (some r) a = (chosen, chosen_fits, a)
  from_chosen none a = λ r (i, lt, has). a r (
      subst (λ j. Has f height (value_at f.file_hdr (f.pages p) j) q r) (only_chosen i r lt has)
        has)

-- The descent from page `p` ends at a leaf, whose lookup answers for the whole tree.
descend-Answers :
    (f : IxFile) (height fuel : ℕ) (p : ℤ) (q : Key)
    → IsKey f.file_hdr.cols q
    → IsTree f height p
    → height < fuel
    → (o : Option Rid) × (value_from f q (descend fuel false q f p) ≡ some o)
      × Answers f height p q o
unfolding descend internal_lookup
descend-Answers f height zero p q k t lt = absurd (omega arith)
descend-Answers f zero (suc fuel) p q k t lt = (
  leaf_lookup f.file_hdr (f.pages p) q,
  ap
      (λ b. value_from f q (
        if b then leaf_at p else descend fuel false q f (internal_lookup f.file_hdr (f.pages p) q)))
      t.0,
  Found-Answers f p q _ (leaf_lookup-Found f.file_hdr (f.pages p) q t.1 k),
)
descend-Answers f (suc height) (suc fuel) p q k t lt =
    let (o, e, a) =
      descend-Answers f height fuel (value_at f.file_hdr (f.pages p) (chosen f height p q k t)) q k
        (t.1.1.1.1 _ (chosen_fits f height p q k t)) (omega arith) in
    (
      o,
      ap
            (λ b. value_from f q (
              if b
              then leaf_at p
              else descend fuel false q f (internal_lookup f.file_hdr (f.pages p) q)))
            t.0
          ∙ e,
      from_chosen f height p q k t o a,
    )

-- On a file whose root is the root of a search tree, for a key of the file: with more rounds than the
-- tree has inner levels get_value returns; what it finds is a rid that a leaf of the tree has for the
-- key, and if it finds nothing, no leaf of the tree has the key.
pub get_value-Answers :
    (f : IxFile) (height fuel : ℕ) (q : Key)
    → f.file_hdr.root_page ≢ ix_no_page
    → IsKey f.file_hdr.cols q
    → IsTree f height f.file_hdr.root_page
    → height < fuel
    → (o : Option Rid) × (get_value fuel q f ≡ some o) × Answers f height f.file_hdr.root_page q o
unfolding get_value find_leaf_page
get_value-Answers f height fuel q root k t lt =
    let (o, e, a) = descend-Answers f height fuel f.file_hdr.root_page q k t lt in
    (o, rw (if_neg (ℤ_discrete f.file_hdr.root_page ix_no_page) root true false) e, a)
