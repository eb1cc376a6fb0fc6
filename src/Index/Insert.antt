-- ===== src/Index/Insert.antt =====
-- The insertion of a pair into a node, as the insertion into a finite map.
use db_smw.Common.{
  ℕ, suc, ◌+◌, ◌-◌, ◌≤◌, ◌<◌, ◌≡◌, refl, sym, ap, ◌∙◌, ◌≢◌, ◌⊎◌, inl, inr, true, false, leb, ◌&&◌,
  Bool-cases, ℕ_discrete, dec_lt, Option, none, some, arith, subst,
}
use db_smw.Transaction.{Rid}
use db_smw.Index.{IxFileHdr}
use db_smw.Index.Compare.{less, equal, Key, ix_compare}
use db_smw.Index.Order.{IsKey, flip, ix_compare-flip, ix_compare_refl}
use db_smw.Index.Node.{
  IxNode, holds_at, lower_bound, leaf_lookup, get_max_size, spread, insert_pairs, insert_pair,
  insert,
}
use db_smw.Index.Search.{IsOrdered, lower_bound-Splits}
use db_smw.Index.Found.{
  Found, lower_bound-less, lower_bound-greater, leaf_lookup-Found, leaf_lookup-eq,
}

abbrev pub or_else : Option Rid → Rid → Rid
or_else none v = v
or_else (some r) v = r

-- What an insertion of `key` with `v` makes of node `n`: the keys ascend, the key asked for has its
-- old rid or else `v`, every other key is found as before, and there is a pair more if there was none.
pub record Inserted (h : IxFileHdr) (key : Key) (v : Rid) (n m : IxNode) : Type 0 where
  pub ordered : IsOrdered h m
  pub at_key : leaf_lookup h m key ≡ some (or_else (leaf_lookup h n key) v)
  pub elsewhere :
      (q : Key)
      → IsKey h.cols q
      → ix_compare h.cols key q ≢ equal
      → leaf_lookup h m q ≡ leaf_lookup h n q
  pub grown :
      ((leaf_lookup h n key ≢ none) × (m.num_key ≡ n.num_key))
      ⊎ ((leaf_lookup h n key ≡ none) × (m.num_key ≡ suc n.num_key))
  pub same_kind : m.is_leaf ≡ n.is_leaf
  pub same_parent : m.parent ≡ n.parent
  pub same_next : m.next_leaf ≡ n.next_leaf

-- An array before and after an element is put in at `p`.
module _ {ℓ} {A : Type ℓ} (p size : ℕ) (a : A) (old : ℕ → A) (j : ℕ) where
  spread-below : j < p → spread p 1 size (λ _. a) old j ≡ old j
  spread-below lt = ground arith

  spread-at : p ≡ j → spread p 1 size (λ _. a) old j ≡ a
  spread-at e = ground arith

  spread-above : (i : ℕ) → suc i ≡ j → p ≤ i → i < size → spread p 1 size (λ _. a) old j ≡ old i
  spread-above i e le lt = ground arith

module _ (h : IxFileHdr) (n : IxNode) (key : Key) (v : Rid) (ord : IsOrdered h n)
    (k : IsKey h.cols key) where
  -- The node after the insertion of a key that it does not have.
  abbrev with_pair : IxNode
  with_pair =
      let p = lower_bound h n key in
      record n {
        keys = spread p 1 n.num_key (λ _. key) n.keys;
        rids = spread p 1 n.num_key (λ _. v) n.rids;
        num_key = n.num_key + 1;
      }

  -- A slot of that node: before the new pair, the new pair, or moved up from slot `i`.
  record Kept (j : ℕ) : Type 0 where
    before : j < lower_bound h n key
    same_key : with_pair.keys j ≡ n.keys j
    same_rid : with_pair.rids j ≡ n.rids j

  record New (j : ℕ) : Type 0 where
    here : lower_bound h n key ≡ j
    its_key : with_pair.keys j ≡ key
    its_rid : with_pair.rids j ≡ v

  record Moved (j i : ℕ) : Type 0 where
    up : suc i ≡ j
    behind : lower_bound h n key ≤ i
    same_key : with_pair.keys j ≡ n.keys i
    same_rid : with_pair.rids j ≡ n.rids i

  slot : (j : ℕ) → j < n.num_key + 1 → Kept j ⊎ (New j ⊎ ((i : ℕ) × Moved j i))
  slot j lt = elim (dec_lt j (lower_bound h n key)) [
    | yes l ↦ inl (record {
      before = l;
      same_key = spread-below (lower_bound h n key) n.num_key key n.keys j l;
      same_rid = spread-below (lower_bound h n key) n.num_key v n.rids j l;
    })
    | no ge ↦ elim (ℕ_discrete (lower_bound h n key) j) [
      | yes e ↦ inr (
          inl (record {
            here = e;
            its_key = spread-at (lower_bound h n key) n.num_key key n.keys j e;
            its_rid = spread-at (lower_bound h n key) n.num_key v n.rids j e;
          }))
      | no ne ↦ inr (
          inr
            (j - 1, moved j (j - 1) (omega (arith, ge, ne)) (omega (arith, ge, ne)) (omega arith)))
    ]
  ]
    where
      moved : (j i : ℕ) → suc i ≡ j → lower_bound h n key ≤ i → i < n.num_key → Moved j i
      moved j i e le lt = record {
        up = e;
        behind = le;
        same_key = spread-above (lower_bound h n key) n.num_key key n.keys j i e le lt;
        same_rid = spread-above (lower_bound h n key) n.num_key v n.rids j i e le lt;
      }

  bound_fits : lower_bound h n key ≤ n.num_key
  bound_fits = (lower_bound-Splits h n key ord k).inside

  module _ (miss : holds_at h n key (lower_bound h n key) ≡ false) where
    with_pair-valid : (j : ℕ) → j < n.num_key + 1 → IsKey h.cols (with_pair.keys j)
    with_pair-valid j lt = elim (slot j lt) [
      | inl s ↦ subst (IsKey h.cols) (sym s.same_key) (ord.valid j (omega (arith, bound_fits)))
      | inr (inl s) ↦ subst (IsKey h.cols) (sym s.its_key) k
      | inr (inr (i, s)) ↦ subst (IsKey h.cols) (sym s.same_key) (ord.valid i (omega arith))
    ]

    new_less :
        (i : ℕ) → lower_bound h n key ≤ i → i < n.num_key → ix_compare h.cols key (n.keys i) ≡ less
    new_less i le lt =
        ix_compare-flip h.cols (n.keys i) key (ord.valid i lt) k
        ∙ ap flip (lower_bound-greater h n key ord k miss i le lt)

    with_pair-ascending :
        (i j : ℕ)
        → i < j
        → j < n.num_key + 1
        → ix_compare h.cols (with_pair.keys i) (with_pair.keys j) ≡ less
    with_pair-ascending i j lt fits = elim (slot i (omega arith)) [
      | inl s ↦ elim (slot j fits) [
        | inl t ↦ cc (s.same_key, t.same_key, ord.ascending i j lt (omega (arith, bound_fits)))
        | inr (inl t) ↦ cc (s.same_key, t.its_key, lower_bound-less h n key ord k i s.before)
        | inr (inr (b, t)) ↦
            cc (s.same_key, t.same_key, ord.ascending i b (omega (arith)) (omega (arith)))
      ]
      | inr (inl s) ↦ elim (slot j fits) [
        | inl t ↦ absurd (omega arith)
        | inr (inl t) ↦ absurd (omega arith)
        | inr (inr (b, t)) ↦ cc (s.its_key, t.same_key, new_less b t.behind (omega arith))
      ]
      | inr (inr (a, s)) ↦ elim (slot j fits) [
        | inl t ↦ absurd (omega arith)
        | inr (inl t) ↦ absurd (omega arith)
        | inr (inr (b, t)) ↦
            cc (s.same_key, t.same_key, ord.ascending a b (omega arith) (omega arith))
      ]
    ]

    with_pair-IsOrdered : IsOrdered h with_pair
    with_pair-IsOrdered = record { valid = with_pair-valid; ascending = with_pair-ascending }

    key_equal : ix_compare h.cols key key ≡ equal
    key_equal = ix_compare_refl h.cols key k

    with_pair-Found : Found h with_pair key (some v)
    with_pair-Found = (
      lower_bound h n key,
      omega (arith, bound_fits),
      ap (λ x. ix_compare h.cols x key)
            (spread-at (lower_bound h n key) n.num_key key n.keys _ refl)
          ∙ key_equal,
      spread-at (lower_bound h n key) n.num_key v n.rids _ refl,
    )

    module _ (q : Key) (other : ix_compare h.cols key q ≢ equal) where
      with_pair-elsewhere : (o : Option Rid) → Found h n q o → Found h with_pair q o
      with_pair-elsewhere none f = λ j lt e. elim (slot j lt) [
        | inl s ↦ f j (omega (arith, bound_fits)) (cc (e, s.same_key))
        | inr (inl s) ↦ other (cc (e, s.its_key))
        | inr (inr (i, s)) ↦ f i (omega arith) (cc (e, s.same_key))
      ]
      with_pair-elsewhere (some r) (i, lt, e, f) = elim (dec_lt i (lower_bound h n key)) [
        | yes l ↦ (
          i,
          omega arith,
          ap (λ x. ix_compare h.cols x q)
                (spread-below (lower_bound h n key) n.num_key key n.keys i l)
              ∙ e,
          spread-below (lower_bound h n key) n.num_key v n.rids i l ∙ f,
        )
        | no ge ↦ (
          suc i,
          omega arith,
          ap (λ x. ix_compare h.cols x q)
                (spread-above (lower_bound h n key) n.num_key key n.keys (suc i) i refl
                  (omega (arith, ge)) lt)
              ∙ e,
          spread-above (lower_bound h n key) n.num_key v n.rids (suc i) i refl (omega (arith, ge))
                lt
              ∙ f,
        )
      ]

    lookup-none : leaf_lookup h n key ≡ none
    unfolding leaf_lookup
    lookup-none = rw miss refl

    with_pair-Inserted : Inserted h key v n with_pair
    with_pair-Inserted = record {
      ordered = with_pair-IsOrdered;
      at_key =
          leaf_lookup-eq h with_pair key with_pair-IsOrdered k (some v) with_pair-Found
          ∙ ap (λ o. some (or_else o v)) (sym lookup-none);
      elsewhere = λ q valid other.
          leaf_lookup-eq h with_pair q with_pair-IsOrdered valid (leaf_lookup h n q)
            (with_pair-elsewhere q other (leaf_lookup h n q) (leaf_lookup-Found h n q ord valid));
      grown = inr (lookup-none, omega arith);
      same_kind = refl;
      same_parent = refl;
      same_next = refl;
    }

  same-Inserted : holds_at h n key (lower_bound h n key) ≡ true → Inserted h key v n n
  unfolding leaf_lookup
  same-Inserted hit = record {
    ordered = ord;
    at_key = rw hit refl;
    elsewhere = λ q valid other. refl;
    grown = inl (rw hit (λ e. cc e), refl);
    same_kind = refl;
    same_parent = refl;
    same_next = refl;
  }

  -- On a node with room for a pair whose keys ascend strictly, for a key of the file: insert returns
  -- a node whose keys ascend strictly, in which the key has the rid that it had, or else the new one,
  -- every key that does not compare equal is found as before, and there is a pair more exactly if the
  -- key was not there.
  pub insert-Inserted :
      n.num_key < get_max_size h → (m : IxNode) × (insert h key v n ≡ some m) × Inserted h key v n m
  unfolding insert insert_pair insert_pairs
  insert-Inserted room =
      let fits : (leb (lower_bound h n key) n.num_key && leb (n.num_key + 1) (get_max_size h))
          ≡ true =
        ground (arith, bound_fits) in
      elim (Bool-cases (holds_at h n key (lower_bound h n key))) [
        | inl hit ↦ (n, rw hit refl, same-Inserted hit)
        | inr miss ↦ (with_pair, rw (miss, fits) refl, with_pair-Inserted miss)
      ]
