-- ===== src/Index/Found.antt =====
-- What a search for a key in a node finds.
use db_smw.Common.{
  ℕ, ◌≤◌, ◌<◌, ◌≡◌, refl, sym, ap, ◌∙◌, ◌≢◌, inl, inr, true, false, Bool-cases, ℕ_discrete, dec_lt,
  Option, none, some, arith, subst,
}
use db_smw.Transaction.{Rid}
use db_smw.Index.{IxFileHdr}
use db_smw.Index.Compare.{Comparison, less, equal, greater, Key, ix_compare}
use db_smw.Index.Order.{IsKey, flip, ix_compare-flip, ix_compare-less_trans}
use db_smw.Index.Node.{IxNode, is_less, is_equal, compare_at, holds_at, lower_bound, leaf_lookup}
use db_smw.Index.Search.{IsOrdered, is_less-eq, lower_bound-Splits}

-- A slot of the node whose key compares equal with the key asked for has the rid; or no slot has
-- such a key.
abbrev pub Found : IxFileHdr → IxNode → Key → Option Rid → Type 0
Found h n q (some r) =
    (i : ℕ) × (i < n.num_key) × (ix_compare h.cols (n.keys i) q ≡ equal) × (n.rids i ≡ r)
Found h n q none = (i : ℕ) → i < n.num_key → ix_compare h.cols (n.keys i) q ≢ equal

is_equal-eq : (c : Comparison) → is_equal c ≡ true → c ≡ equal
is_equal-eq less e = cc
is_equal-eq equal e = refl
is_equal-eq greater e = cc

not_less : (c : Comparison) → is_less c ≡ false → is_equal c ≡ false → c ≡ greater
not_less less e f = cc
not_less equal e f = cc
not_less greater e f = refl

pub holds_at-true :
    (h : IxFileHdr) (n : IxNode) (q : Key) (i : ℕ)
    → holds_at h n q i ≡ true
    → (i < n.num_key) × (ix_compare h.cols (n.keys i) q ≡ equal)
holds_at-true h n q i e = (ground arith, is_equal-eq _ (ground arith))

holds_at-false :
    (h : IxFileHdr) (n : IxNode) (q : Key) (i : ℕ)
    → holds_at h n q i ≡ false
    → i < n.num_key
    → is_equal (compare_at h n q i) ≡ false
holds_at-false h n q i e lt = ground arith

module _ (h : IxFileHdr) (n : IxNode) (q : Key) (ord : IsOrdered h n) (k : IsKey h.cols q) where
  -- The keys before the lower bound are less; where the key there is not equal, all from it on are
  -- greater.
  pub lower_bound-less : (i : ℕ) → i < lower_bound h n q → compare_at h n q i ≡ less
  lower_bound-less i lt = is_less-eq _ ((lower_bound-Splits h n q ord k).before i lt)

  greater_at :
      (i : ℕ)
      → holds_at h n q i ≡ false
      → lower_bound h n q ≤ i
      → i < n.num_key
      → compare_at h n q i ≡ greater
  greater_at i miss le lt =
      not_less _ ((lower_bound-Splits h n q ord k).behind i le lt) (holds_at-false h n q i miss lt)

  greater_behind :
      (i j : ℕ)
      → i < j
      → j < n.num_key
      → compare_at h n q i ≡ greater
      → compare_at h n q j ≡ greater
  greater_behind i j lt fits g =
      let vi = ord.valid i (omega arith) in
      let vj = ord.valid j fits in
      let below =
        ix_compare-less_trans h.cols q (n.keys i) k vi (n.keys j) vj
          (ix_compare-flip h.cols (n.keys i) q vi k ∙ ap flip g)
          (λ e. cc (e, ord.ascending i j lt fits)) in
      ix_compare-flip h.cols q (n.keys j) k vj ∙ ap flip below

  pub lower_bound-greater :
      holds_at h n q (lower_bound h n q) ≡ false
      → (i : ℕ) → lower_bound h n q ≤ i
      → i < n.num_key
      → compare_at h n q i ≡ greater
  lower_bound-greater miss i le lt = elim (ℕ_discrete (lower_bound h n q) i) [
    | yes e ↦ greater_at i (subst (λ r. holds_at h n q r ≡ false) e miss) le lt
    | no ne ↦
        greater_behind (lower_bound h n q) i (omega (arith, ne)) lt
          (greater_at (lower_bound h n q) miss (omega arith) (omega arith))
  ]

  pub leaf_lookup-Found : Found h n q (leaf_lookup h n q)
  unfolding leaf_lookup
  leaf_lookup-Found = elim (Bool-cases (holds_at h n q (lower_bound h n q))) [
    | inl hit ↦
        let (lt, e) = holds_at-true h n q (lower_bound h n q) hit in
        rw hit (lower_bound h n q, lt, e, refl)
    | inr miss ↦ rw miss (λ i lt e. elim (dec_lt i (lower_bound h n q)) [
      | yes l ↦ cc (e, lower_bound-less i l)
      | no ge ↦ cc (e, lower_bound-greater miss i (omega (arith, ge)) lt)
    ])
  ]

  found_slot :
      (i j : ℕ)
      → i < n.num_key
      → j < n.num_key
      → compare_at h n q i ≡ equal
      → compare_at h n q j ≡ equal
      → i < j
      → ⊥
  found_slot i j li lj e f lt = cc (
    e,
    ix_compare-less_trans h.cols (n.keys i) (n.keys j) (ord.valid i li) (ord.valid j lj) q k
        (ord.ascending i j lt lj) (λ g. cc (f, g)),
  )

  pub found_same :
      (i j : ℕ)
      → i < n.num_key
      → j < n.num_key
      → compare_at h n q i ≡ equal
      → compare_at h n q j ≡ equal
      → i ≡ j
  found_same i j li lj e g = elim (dec_lt i j) [
    | yes l ↦ absurd (found_slot i j li lj e g l)
    | no n1 ↦ elim (dec_lt j i) [
      | yes l ↦ absurd (found_slot j i lj li g e l)
      | no n2 ↦ omega (arith, n1, n2)
    ]
  ]

  -- On a node whose keys ascend there is one answer.
  pub Found-unique : (o p : Option Rid) → Found h n q o → Found h n q p → o ≡ p
  Found-unique none none u v = refl
  Found-unique none (some r) u (i, lt, e, f) = absurd (u i lt e)
  Found-unique (some r) none (i, lt, e, f) v = absurd (v i lt e)
  Found-unique (some r) (some s) (i, li, e, f) (j, lj, g, w) =
      ap some (sym f ∙ ap n.rids (found_same i j li lj e g) ∙ w)

  pub leaf_lookup-eq : (o : Option Rid) → Found h n q o → leaf_lookup h n q ≡ o
  leaf_lookup-eq o = Found-unique (leaf_lookup h n q) o leaf_lookup-Found
