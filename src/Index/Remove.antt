-- ===== src/Index/Remove.antt =====
-- The removal of a pair from a node, as the removal from a finite map.
use db_smw.Common.{
  ℕ, suc, ◌-◌, ◌≤◌, ◌<◌, ◌≡◌, refl, sym, ap, ◌∙◌, ◌≢◌, ◌⊎◌, inl, inr, true, false, ltb, Bool-cases,
  dec_lt, Option, none, some, arith, subst,
}
use db_smw.Transaction.{Rid}
use db_smw.Index.{IxFileHdr}
use db_smw.Index.Compare.{equal, Key, ix_compare}
use db_smw.Index.Order.{IsKey, ix_compare-equal_both}
use db_smw.Index.Node.{
  IxNode, compare_at, holds_at, lower_bound, leaf_lookup, close_up, erase_pair, remove,
}
use db_smw.Index.Search.{IsOrdered}
use db_smw.Index.Found.{Found, leaf_lookup-Found, leaf_lookup-eq, found_same, holds_at-true}

-- What a removal of `key` makes of node `n`: the keys ascend, the key is not found, every other key
-- is found as before, and there is a pair less if there was one with the key.
pub record Removed (h : IxFileHdr) (key : Key) (n m : IxNode) : Type 0 where
  pub ordered : IsOrdered h m
  pub at_key : leaf_lookup h m key ≡ none
  pub elsewhere :
      (q : Key)
      → IsKey h.cols q
      → ix_compare h.cols key q ≢ equal
      → leaf_lookup h m q ≡ leaf_lookup h n q
  pub shrunk :
      ((leaf_lookup h n key ≢ none) × (suc m.num_key ≡ n.num_key))
      ⊎ ((leaf_lookup h n key ≡ none) × (m.num_key ≡ n.num_key))

-- An array before and after the element at `p` is taken out.
module _ {ℓ} {A : Type ℓ} (p size : ℕ) (old : ℕ → A) (j : ℕ) where
  close_up-below : j < p → close_up p size old j ≡ old j
  close_up-below lt = ground arith

  close_up-above : p ≤ j → suc j < size → close_up p size old j ≡ old (suc j)
  close_up-above le lt = ground arith

module _ (h : IxFileHdr) (n : IxNode) (key : Key) (ord : IsOrdered h n) (k : IsKey h.cols key) where
  -- The node after the removal of the pair at the lower bound.
  abbrev without : IxNode
  without =
      let p = lower_bound h n key in
      record n {
        keys = close_up p n.num_key n.keys;
        rids = close_up p n.num_key n.rids;
        num_key = n.num_key - 1;
      }

  -- The slot from which slot `j` of that node is.
  record From (j i : ℕ) : Type 0 where
    same_key : without.keys j ≡ n.keys i
    same_rid : without.rids j ≡ n.rids i
    source : ((j < lower_bound h n key) × (i ≡ j)) ⊎ ((lower_bound h n key ≤ j) × (i ≡ suc j))

  from : (j : ℕ) → suc j < n.num_key → (i : ℕ) × From j i
  from j lt = elim (dec_lt j (lower_bound h n key)) [
    | yes l ↦ (
      j,
      record {
        same_key = close_up-below (lower_bound h n key) n.num_key n.keys j l;
        same_rid = close_up-below (lower_bound h n key) n.num_key n.rids j l;
        source = inl (l, refl);
      },
    )
    | no ge ↦ (
      suc j,
      record {
        same_key = close_up-above (lower_bound h n key) n.num_key n.keys j (omega (arith, ge)) lt;
        same_rid = close_up-above (lower_bound h n key) n.num_key n.rids j (omega (arith, ge)) lt;
        source = inr (omega (arith, ge), refl);
      },
    )
  ]

  module _ (hit : holds_at h n key (lower_bound h n key) ≡ true) where
    without-IsOrdered : IsOrdered h without
    without-IsOrdered = record {
      valid = λ j lt.
          let (i, s) = from j (omega arith) in
          subst (IsKey h.cols) (sym s.same_key) (ord.valid i (ground arith));
      ascending = λ a b lt fits.
          let (i, s) = from a (omega arith) in
          let (j, t) = from b (omega arith) in
          cc (s.same_key, t.same_key, ord.ascending i j (ground arith) (ground arith));
    }

    at_bound : compare_at h n key (lower_bound h n key) ≡ equal
    at_bound = (holds_at-true h n key (lower_bound h n key) hit).1

    without-Found : Found h without key none
    without-Found j lt e =
        let (i, s) = from j (omega arith) in
        let (fits, at) = holds_at-true h n key (lower_bound h n key) hit in
        let i_fits : i < n.num_key = ground arith in
        let same =
          found_same h n key ord k i (lower_bound h n key) i_fits fits (cc (e, s.same_key)) at in
        ground (arith, same)

    module _ (q : Key) (valid : IsKey h.cols q) (other : ix_compare h.cols key q ≢ equal) where
      -- the slot of another key is not the one taken out
      not_at_bound : (i : ℕ) → i < n.num_key → compare_at h n q i ≡ equal → lower_bound h n key ≢ i
      not_at_bound i lt e same =
          let (fits, at) = holds_at-true h n key (lower_bound h n key) hit in
          other (
            ix_compare-equal_both h.cols (n.keys i) key (ord.valid i lt) k q valid
              (subst (λ x. compare_at h n key x ≡ equal) same at) e)

      moved :
          {r : Rid} (i j : ℕ)
          → suc j ≡ i
          → lower_bound h n key ≤ j
          → i < n.num_key
          → ix_compare h.cols (n.keys i) q ≡ equal
          → n.rids i ≡ r
          → Found h without q (some r)
      moved i j up le lt e f = (
        j,
        omega arith,
        ap (λ x. ix_compare h.cols x q)
              (close_up-above (lower_bound h n key) n.num_key n.keys j le (omega arith)
                ∙ ap n.keys up)
            ∙ e,
        close_up-above (lower_bound h n key) n.num_key n.rids j le (omega arith) ∙ ap n.rids up ∙ f,
      )

      without-elsewhere : (o : Option Rid) → Found h n q o → Found h without q o
      without-elsewhere none f =
          λ j lt e. let (i, s) = from j (omega arith) in f i (ground arith) (cc (e, s.same_key))
      without-elsewhere (some r) (i, lt, e, f) =
          let away = not_at_bound i lt e in
          elim (dec_lt i (lower_bound h n key)) [
            | yes l ↦ (
              i,
              ground (arith, holds_at-true h n key (lower_bound h n key) hit),
              ap (λ x. ix_compare h.cols x q)
                    (close_up-below (lower_bound h n key) n.num_key n.keys i l)
                  ∙ e,
              close_up-below (lower_bound h n key) n.num_key n.rids i l ∙ f,
            )
            | no ge ↦ moved i (i - 1) (omega (arith, ge, away)) (omega (arith, ge, away)) lt e f
          ]

    without-Removed : Removed h key n without
    unfolding leaf_lookup
    without-Removed = record {
      ordered = without-IsOrdered;
      at_key = leaf_lookup-eq h without key without-IsOrdered k none without-Found;
      elsewhere = λ q valid other.
          leaf_lookup-eq h without q without-IsOrdered valid (leaf_lookup h n q) (
            without-elsewhere q valid other (leaf_lookup h n q)
              (leaf_lookup-Found h n q ord valid));
      shrunk =
          inl (
            rw hit (λ e. cc e),
            omega (arith, (holds_at-true h n key (lower_bound h n key) hit).0),
          );
    }

  same-Removed : holds_at h n key (lower_bound h n key) ≡ false → Removed h key n n
  unfolding leaf_lookup
  same-Removed miss = record {
    ordered = ord;
    at_key = rw miss refl;
    elsewhere = λ q valid other. refl;
    shrunk = inr (rw miss refl, refl);
  }

  -- On a node whose keys ascend strictly, for a key of the file: remove returns a node whose keys
  -- ascend strictly, in which the key is not found, every key that does not compare equal is found as
  -- before, and there is a pair less exactly if the key was there.
  pub remove-Removed : (m : IxNode) × (remove h key n ≡ some m) × Removed h key n m
  unfolding remove erase_pair
  remove-Removed = elim (Bool-cases (holds_at h n key (lower_bound h n key))) [
    | inl hit ↦
        let fits : ltb (lower_bound h n key) n.num_key ≡ true =
          ground (arith, holds_at-true h n key (lower_bound h n key) hit) in
        (without, rw (hit, fits) refl, without-Removed hit)
    | inr miss ↦ (n, rw miss refl, same-Removed miss)
  ]
