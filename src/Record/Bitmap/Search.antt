-- ===== src/Record/Bitmap/Search.antt =====
-- What `next_bit` finds.
use Prim.Native.Nat.{zero, suc}
use db_smw.Common.{
  ℕ, ◌+◌, ◌-◌, ◌<◌, ◌≤◌, ◌≡◌, refl, subst, Bool, true, false, not, ltb, Option, none, some, arith,
  inl, inr, ◌⊎◌, Bool-cases, ℕ_discrete,
}
use db_smw.Common.Int.{ℤ, pos, negsuc}
use db_smw.Record.Bitmap.{Bytes, is_set, same_bit, next_bit_from, next_bit}

-- r is the first position from `start` on with that bit, below `max_n`, or `max_n` if there is none.
pub record IsNext (bit : Bool) (bm : Bytes) (max_n start r : ℕ) : Type 0 where
  pub none_between : (i : ℕ) → start ≤ i → i < r → is_set bm i ≡ not bit
  pub found : (r ≡ max_n) ⊎ ((start ≤ r) × (r < max_n) × (is_set bm r ≡ bit))

same_bit-true : (a b : Bool) → same_bit a b ≡ true → b ≡ a
same_bit-true a b h = ground arith

same_bit-false : (a b : Bool) → same_bit a b ≡ false → b ≡ not a
same_bit-false a b h = ground arith

next_bit_from-IsNext :
    (bit : Bool) (bm : Bytes) (count start : ℕ)
    → IsNext bit bm (start + count) start (next_bit_from bit bm count start)
unfolding next_bit_from
next_bit_from-IsNext bit bm zero start = record {
  none_between = λ i le lt. absurd (omega arith);
  found = inl (omega arith);
}
next_bit_from-IsNext bit bm (suc count) start = elim (Bool-cases (same_bit bit (is_set bm start))) [
  | inl hit ↦
      rw (next_bit_from, hit)
        (record {
          none_between = λ i le lt. absurd (omega arith);
          found = inr (omega arith, omega arith, same_bit-true bit _ hit);
        })
  | inr miss ↦
      let ih = next_bit_from-IsNext bit bm count (suc start) in
      rw (next_bit_from, miss)
        (record {
          none_between = λ i le lt. elim (ℕ_discrete start i) [
            | yes e ↦ subst (λ k. is_set bm k ≡ not bit) e (same_bit-false bit _ miss)
            | no ne ↦ ih.none_between i (omega arith) lt
          ];
          found = elim ih.found [
            | inl e ↦ inl (omega (arith, e))
            | inr (le, lt, h) ↦ inr (omega (arith, le), omega (arith, lt), h)
          ];
        })
]

-- What a call with `curr` returns: from -1 on, the first position after it.
abbrev pub NextAfter : Bool → Bytes → ℕ → ℤ → Option ℕ → Type 0
NextAfter bit bm max_n (pos curr) o = (r : ℕ) × (o ≡ some r) × IsNext bit bm max_n (suc curr) r
NextAfter bit bm max_n (negsuc zero) o = (r : ℕ) × (o ≡ some r) × IsNext bit bm max_n 0 r
NextAfter bit bm max_n (negsuc (suc n)) o = o ≡ none

next_bit_from-to :
    (bit : Bool) (bm : Bytes) (count start max_n : ℕ)
    → start + count ≡ max_n
    → IsNext bit bm max_n start (next_bit_from bit bm count start)
next_bit_from-to bit bm count start max_n e =
    subst (λ k. IsNext bit bm k start (next_bit_from bit bm count start)) e
      (next_bit_from-IsNext bit bm count start)

-- `next_bit`, for `curr` from -1 on, returns the least position after `curr` and below `max_n` whose bit
-- is the one asked for, or `max_n` if there is none; below -1 it has no value.
pub next_bit-NextAfter :
    (bit : Bool) (bm : Bytes) (max_n : ℕ) (curr : ℤ)
    → NextAfter bit bm max_n curr (next_bit bit bm max_n curr)
unfolding next_bit
next_bit-NextAfter bit bm max_n (pos curr) = elim (Bool-cases (ltb (suc curr) max_n)) [
  | inl e ↦ rw e (
    next_bit_from bit bm (max_n - suc curr) (suc curr),
    refl,
    next_bit_from-to bit bm (max_n - suc curr) (suc curr) max_n (ground arith),
  )
  | inr e ↦
      let past : max_n ≤ suc curr = ground arith in
      rw e
        (max_n, refl, record { none_between = λ i le lt. absurd (omega arith); found = inl refl })
]
next_bit-NextAfter bit bm max_n (negsuc zero) =
    (next_bit_from bit bm max_n 0, refl, next_bit_from-to bit bm max_n 0 max_n (omega arith))
next_bit-NextAfter bit bm max_n (negsuc (suc n)) = refl
