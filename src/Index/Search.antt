-- ===== src/Index/Search.antt =====
-- The binary searches of a node agree with a search from the first key on.
use db_smw.Common.{
  ℕ, zero, suc, ◌+◌, ◌/◌, ◌≤◌, ◌<◌, ◌≡◌, refl, ◌≢◌, inl, inr, Bool, true, false, if◌then◌else◌, ltb,
  Bool-cases, arith, ℕ_discrete, ap, sym, subst,
}
use db_smw.Index.{IxFileHdr}
use db_smw.Index.Compare.{Comparison, less, equal, greater, Key, ix_compare}
use db_smw.Index.Order.{IsKey, ix_compare-less_trans}
use db_smw.Index.Node.{
  IxNode, is_less, is_less_or_equal, bound_loop, compare_at, lower_bound, upper_bound,
}

-- The first index from `i` on at which the test fails, of `count`.
pub first_failing : (ℕ → Bool) → ℕ → ℕ → ℕ
first_failing test zero i = i
first_failing test (suc count) i =
    let rest = first_failing test count (suc i) in if test i then rest else i

-- The test holds before `r` and fails from `r` on.
pub record Splits (test : ℕ → Bool) (n r : ℕ) : Type 0 where
  pub inside : r ≤ n
  pub before : (i : ℕ) → i < r → test i ≡ true
  pub behind : (i : ℕ) → r ≤ i → i < n → test i ≡ false

abbrev IsDownward : (ℕ → Bool) → ℕ → Type 0
IsDownward test n = (i j : ℕ) → i ≤ j → j < n → test j ≡ true → test i ≡ true

module _ (test : ℕ → Bool) (n : ℕ) (down : IsDownward test n) where
  bound_loop-Splits :
      (fuel l r : ℕ)
      → l ≤ r
      → r ≤ l + fuel
      → r ≤ n
      → ((i : ℕ) → i < l → test i ≡ true)
      → ((i : ℕ) → r ≤ i → i < n → test i ≡ false)
      → Splits test n (bound_loop test fuel l r)
  unfolding bound_loop
  bound_loop-Splits zero l r le enough fits before behind = record {
    inside = omega arith;
    before = before;
    behind = λ i h lt. behind i (omega arith) lt;
  }
  bound_loop-Splits (suc fuel) l r le enough fits before behind = elim (Bool-cases (ltb l r)) [
    | inl lt ↦ elim (Bool-cases (test ((l + r) / 2))) [
      | inl t ↦
          rw (lt, t)
            (bound_loop-Splits fuel (suc ((l + r) / 2)) r (ground arith) (ground arith) fits
              (λ i h. down i ((l + r) / 2) (omega arith) (ground arith) t) behind)
      | inr f ↦
          rw (lt, f)
            (bound_loop-Splits fuel l ((l + r) / 2) (ground arith) (ground arith) (ground arith)
              before
              (λ i h k. elim (Bool-cases (test i)) [
                | inl t ↦ absurd (cc (f, down ((l + r) / 2) i h k t))
                | inr e ↦ e
              ]))
    ]
    | inr ge ↦ rw ge (record {
      inside = ground arith;
      before = before;
      behind = λ i h lt. behind i (ground arith) lt;
    })
  ]

first_failing-Splits :
    (test : ℕ → Bool) (n r count i : ℕ)
    → Splits test n r
    → i + count ≡ n
    → i ≤ r
    → first_failing test count i ≡ r
unfolding first_failing
first_failing-Splits test n r zero i s e le = omega (arith, s.inside)
first_failing-Splits test n r (suc count) i s e le =
    ground (arith, s.before i, s.behind i, first_failing-Splits test n r count (suc i) s)

-- A node's keys are keys, and each is less than those behind it.
pub record IsOrdered (h : IxFileHdr) (n : IxNode) : Type 0 where
  pub valid : (i : ℕ) → i < n.num_key → IsKey h.cols (n.keys i)
  pub ascending : (i j : ℕ) → i < j → j < n.num_key → ix_compare h.cols (n.keys i) (n.keys j) ≡ less

pub is_less-eq : (c : Comparison) → is_less c ≡ true → c ≡ less
is_less-eq less e = refl
is_less-eq equal e = cc
is_less-eq greater e = cc

is_less_or_equal-eq : (c : Comparison) → is_less_or_equal c ≡ true → c ≢ greater
is_less_or_equal-eq less e h = cc
is_less_or_equal-eq equal e h = cc
is_less_or_equal-eq greater e h = cc

module _ (h : IxFileHdr) (n : IxNode) (key : Key) (ord : IsOrdered h n) (k : IsKey h.cols key) where
  module _ (i j : ℕ) (lt : i < j) (fits : j < n.num_key) where
    before_less : is_less (compare_at h n key j) ≡ true → compare_at h n key i ≡ less
    before_less t =
        ix_compare-less_trans h.cols (n.keys i) (n.keys j) (ord.valid i (omega arith))
          (ord.valid j fits) key k (ord.ascending i j lt fits)
          (λ g. cc (g, is_less-eq (compare_at h n key j) t))

    before_less_or_equal :
        is_less_or_equal (compare_at h n key j) ≡ true → compare_at h n key i ≡ less
    before_less_or_equal t =
        ix_compare-less_trans h.cols (n.keys i) (n.keys j) (ord.valid i (omega arith))
          (ord.valid j fits) key k (ord.ascending i j lt fits)
          (is_less_or_equal-eq (compare_at h n key j) t)

  less_down : IsDownward (λ i. is_less (compare_at h n key i)) n.num_key
  less_down i j le lt t = elim (ℕ_discrete i j) [
    | yes e ↦ subst (λ m. is_less (compare_at h n key m) ≡ true) (sym e) t
    | no ne ↦ ap is_less (before_less i j (omega (arith, ne)) lt t)
  ]

  less_or_equal_down : IsDownward (λ i. is_less_or_equal (compare_at h n key i)) n.num_key
  less_or_equal_down i j le lt t = elim (ℕ_discrete i j) [
    | yes e ↦ subst (λ m. is_less_or_equal (compare_at h n key m) ≡ true) (sym e) t
    | no ne ↦ ap is_less_or_equal (before_less_or_equal i j (omega (arith, ne)) lt t)
  ]

  pub lower_bound-Splits :
      Splits (λ i. is_less (compare_at h n key i)) n.num_key (lower_bound h n key)
  unfolding lower_bound
  lower_bound-Splits =
      bound_loop-Splits (λ i. is_less (compare_at h n key i)) n.num_key less_down n.num_key 0
        n.num_key (omega arith) (omega arith) (omega arith) (λ i l. absurd (omega arith))
        (λ i l g. absurd (omega arith))

  pub upper_bound-Splits :
      Splits (λ i. is_less_or_equal (compare_at h n key i)) n.num_key (upper_bound h n key)
  unfolding upper_bound
  upper_bound-Splits =
      bound_loop-Splits (λ i. is_less_or_equal (compare_at h n key i)) n.num_key less_or_equal_down
        n.num_key 0 n.num_key (omega arith) (omega arith) (omega arith)
        (λ i l. absurd (omega arith)) (λ i l g. absurd (omega arith))

  -- On a node whose keys ascend strictly, for a key of the file (no float is a NaN, strings have
  -- their bytes): lower_bound returns the first slot whose key is not less than the target, and
  -- upper_bound the first whose key is greater, as a search from slot 0 on finds them; each is the
  -- number of keys where there is no such slot.
  pub bounds-first_failing :
      (lower_bound h n key ≡ first_failing (λ i. is_less (compare_at h n key i)) n.num_key 0)
      × (upper_bound h n key
          ≡ first_failing (λ i. is_less_or_equal (compare_at h n key i)) n.num_key 0)
  bounds-first_failing = (
    sym (
        first_failing-Splits _ n.num_key _ n.num_key 0 lower_bound-Splits (omega arith)
          (omega arith)),
    sym (
        first_failing-Splits _ n.num_key _ n.num_key 0 upper_bound-Splits (omega arith)
          (omega arith)),
  )
