-- ===== src/Index/Halves.antt =====
-- A node cut into a lower and an upper half: the first key of the upper half separates them.
use db_smw.Common.{
  ℕ, ◌+◌, ◌-◌, ◌≤◌, ◌<◌, ◌≡◌, sym, ap, ◌∙◌, ◌≢◌, ℕ_discrete, dec_lt, Option, none, some, arith,
  subst,
}
use db_smw.Transaction.{Rid}
use db_smw.Index.{IxFileHdr}
use db_smw.Index.Compare.{less, equal, greater, Key, ix_compare}
use db_smw.Index.Order.{
  IsKey, ix_compare-flip, ix_compare_refl, ix_compare-less_trans, ix_compare-trans_less,
}
use db_smw.Index.Node.{IxNode, compare_at, leaf_lookup}
use db_smw.Index.Search.{IsOrdered}
use db_smw.Index.Found.{Found, leaf_lookup-Found, leaf_lookup-eq}

-- `low` has the first `m` pairs of `n`, and `high` the others, in order.
pub record Halves (n low high : IxNode) (m : ℕ) : Type 0 where
  pub low_size : low.num_key ≡ m
  pub sizes : m + high.num_key ≡ n.num_key
  pub low_keys : (i : ℕ) → i < m → low.keys i ≡ n.keys i
  pub low_rids : (i : ℕ) → i < m → low.rids i ≡ n.rids i
  pub high_keys : (i : ℕ) → i < high.num_key → high.keys i ≡ n.keys (m + i)
  pub high_rids : (i : ℕ) → i < high.num_key → high.rids i ≡ n.rids (m + i)

module _ (h : IxFileHdr) (n low high : IxNode) (m : ℕ) (cut : Halves n low high m)
    (ord : IsOrdered h n) where
  pub low-IsOrdered : IsOrdered h low
  low-IsOrdered = record {
    valid = λ i lt.
        subst (IsKey h.cols) (sym (cut.low_keys i (omega (arith, cut.low_size))))
          (ord.valid i (omega (arith, cut.low_size, cut.sizes)));
    ascending = λ i j lt fits. cc (
      cut.low_keys i (omega (arith, cut.low_size)),
      cut.low_keys j (omega (arith, cut.low_size)),
      ord.ascending i j lt (omega (arith, cut.low_size, cut.sizes)),
    );
  }

  pub high-IsOrdered : IsOrdered h high
  high-IsOrdered = record {
    valid = λ i lt.
        subst (IsKey h.cols) (sym (cut.high_keys i lt))
          (ord.valid (m + i) (omega (arith, cut.sizes)));
    ascending = λ i j lt fits. cc (
      cut.high_keys i (omega arith),
      cut.high_keys j fits,
      ord.ascending (m + i) (m + j) (omega arith) (omega (arith, cut.sizes)),
    );
  }

  ascends : (i j : ℕ) → i ≤ j → j < n.num_key → ix_compare h.cols (n.keys i) (n.keys j) ≢ greater
  ascends i j le lt g = elim (ℕ_discrete i j) [
    | yes e ↦
        let same = ix_compare_refl h.cols (n.keys j) (ord.valid j lt) in
        cc (g, ap (λ x. ix_compare h.cols (n.keys x) (n.keys j)) e, same)
    | no ne ↦ cc (g, ord.ascending i j (omega (arith, ne)) lt)
  ]

  module _ (q : Key) (k : IsKey h.cols q) (some_high : 0 < high.num_key) where
    first : high.keys 0 ≡ n.keys m
    first = cut.high_keys 0 some_high ∙ ap n.keys (omega arith)

    -- Slots of `n` whose key is `q`, on either side of the separator `n.keys m`.
    upper_slot :
        (i : ℕ)
        → i < n.num_key
        → compare_at h n q i ≡ equal
        → ix_compare h.cols q (n.keys m) ≡ less
        → i < m
    upper_slot i lt e l = elim (dec_lt i m) [
      | yes s ↦ s
      | no ge ↦
          let vi = ord.valid i lt in
          let below =
            ix_compare-less_trans h.cols q (n.keys m) k (ord.valid m (omega (arith, cut.sizes)))
              (n.keys i) vi l (ascends m i (omega (arith, ge)) lt) in
          cc (e, below, ix_compare-flip h.cols q (n.keys i) k vi)
    ]

    lower_slot :
        (i : ℕ)
        → i < n.num_key
        → compare_at h n q i ≡ equal
        → ix_compare h.cols q (n.keys m) ≢ less
        → m ≤ i
    lower_slot i lt e l = elim (dec_lt i m) [
      | yes s ↦
          let vi = ord.valid i lt in
          absurd (
            l (
              ix_compare-trans_less h.cols q (n.keys i) k vi (n.keys m)
                (ord.valid m (omega (arith, cut.sizes)))
                (λ g. cc (g, e, ix_compare-flip h.cols (n.keys i) q vi k))
                (ord.ascending i m s (omega (arith, cut.sizes)))))
      | no ge ↦ omega (arith, ge)
    ]

    low-Found :
        ix_compare h.cols q (n.keys m) ≡ less → (o : Option Rid) → Found h n q o → Found h low q o
    low-Found l none f = λ i lt e.
        f i (omega (arith, cut.low_size, cut.sizes))
          (cc (e, cut.low_keys i (omega (arith, cut.low_size))))
    low-Found l (some r) (i, lt, e, g) =
        let s = upper_slot i lt e l in
        (
          i,
          omega (arith, cut.low_size),
          ap (λ x. ix_compare h.cols x q) (cut.low_keys i s) ∙ e,
          cut.low_rids i s ∙ g,
        )

    -- A slot of the upper half.
    in_high :
        (o : Rid) (i j : ℕ)
        → m + j ≡ i
        → i < n.num_key
        → compare_at h n q i ≡ equal
        → n.rids i ≡ o
        → Found h high q (some o)
    in_high o i j at lt e g =
        let fits : j < high.num_key = omega (arith, cut.sizes) in
        (
          j,
          fits,
          ap (λ x. ix_compare h.cols x q) (cut.high_keys j fits ∙ ap n.keys at) ∙ e,
          cut.high_rids j fits ∙ ap n.rids at ∙ g,
        )

    high-Found :
        ix_compare h.cols q (n.keys m) ≢ less → (o : Option Rid) → Found h n q o → Found h high q o
    high-Found l none f =
        λ i lt e. f (m + i) (omega (arith, cut.sizes)) (cc (e, cut.high_keys i lt))
    high-Found l (some r) (i, lt, e, g) =
        in_high r i (i - m) (omega (arith, lower_slot i lt e l)) lt e g

    -- The key is looked up below the separator in the lower half, and from it on in the upper half.
    pub leaf_lookup-low :
        ix_compare h.cols q (high.keys 0) ≡ less → leaf_lookup h low q ≡ leaf_lookup h n q
    leaf_lookup-low l = leaf_lookup-eq h low q low-IsOrdered k (leaf_lookup h n q) (
        low-Found (subst (λ x. ix_compare h.cols q x ≡ less) first l) (leaf_lookup h n q)
          (leaf_lookup-Found h n q ord k))

    pub leaf_lookup-high :
        ix_compare h.cols q (high.keys 0) ≢ less → leaf_lookup h high q ≡ leaf_lookup h n q
    leaf_lookup-high l = leaf_lookup-eq h high q high-IsOrdered k (leaf_lookup h n q) (
        high-Found (subst (λ x. ix_compare h.cols q x ≢ less) first l) (leaf_lookup h n q)
          (leaf_lookup-Found h n q ord k))
