-- ===== src/Record/Bitmap/Bits.antt =====
-- What the bitmap's calls do, bit by bit.
use Prim.Native.Nat.{bit_and, bit_or, zero, suc}
use db_smw.Common.{
  ℕ, ◌-◌, ◌*◌, ◌/◌, ◌%◌, ◌^◌, ◌<◌, ◌≡◌, ◌≢◌, refl, sym, ap, ◌∙◌, Bool, true, false, not, ◌&&◌,
  if◌then◌else◌, ◌==◌, ltb, update, ℕ_discrete, if_pos, if_neg, arith,
}
use db_smw.Record.Bitmap.{Bytes, init, get_bucket, get_bit, set, reset, is_set, same_bit}

all_below : ℕ → (ℕ → Bool) → Bool
all_below zero p = true
all_below (suc n) p = p n && all_below n p

all_below_lem : (n : ℕ) (p : ℕ → Bool) (k : ℕ) → all_below n p ≡ true → k < n → p k ≡ true
unfolding all_below
all_below_lem zero p k h lt = absurd (omega arith)
all_below_lem (suc n) p k h lt = ground (arith, all_below_lem n p k)

-- a bit of a byte
abbrev bit_of : ℕ → ℕ → Bool
bit_of b s = not (bit_and b (128 / 2 ^ s) == 0)

abbrev set_right : ℕ → ℕ → ℕ → Bool
set_right r s b = same_bit (bit_of (bit_or b (128 / 2 ^ r)) s) (if r == s then true else bit_of b s)

abbrev reset_right : ℕ → ℕ → ℕ → Bool
reset_right r s b =
    same_bit (bit_of (bit_and b (255 - 128 / 2 ^ r)) s) (if r == s then false else bit_of b s)

-- Every byte and every two of its bits.
set_table : all_below 8 (λ r. all_below 8 (λ s. all_below 256 (set_right r s))) ≡ true
unfolding all_below
set_table = refl

reset_table : all_below 8 (λ r. all_below 8 (λ s. all_below 256 (reset_right r s))) ≡ true
unfolding all_below
reset_table = refl

same_bit_lem : (a b : Bool) → same_bit a b ≡ true → a ≡ b
same_bit_lem a b h = ground arith

table_lem :
    (f : ℕ → ℕ → ℕ → Bool) (r s b : ℕ)
    → all_below 8 (λ r. all_below 8 (λ s. all_below 256 (f r s))) ≡ true
    → r < 8
    → s < 8
    → b < 256
    → f r s b ≡ true
table_lem f r s b h hr hs hb =
    all_below_lem 256 (f r s) b
      (all_below_lem 8 (λ s. all_below 256 (f r s)) s
        (all_below_lem 8 (λ r. all_below 8 (λ s. all_below 256 (f r s))) r h hr) hs)
      hb

same_place : (i j : ℕ) → i / 8 ≡ j / 8 → (i % 8 == j % 8) ≡ (i == j)
same_place i j e = ground arith

-- one bit of a byte that was written, and a byte that was not
module _ (bm : Bytes) (i j v : ℕ) (c : Bool) where
  here_lem :
      i / 8 ≡ j / 8
      → bit_of v (j % 8) ≡ (if i % 8 == j % 8 then c else bit_of (bm (i / 8)) (j % 8))
      → bit_of (update bm (i / 8) v (j / 8)) (j % 8)
        ≡ (if i == j then c else bit_of (bm (j / 8)) (j % 8))
  here_lem e h =
      ap (λ w. bit_of w (j % 8)) (if_pos (ℕ_discrete (i / 8) (j / 8)) e _ _)
      ∙ h
      ∙ ap (λ (t : Bool). if t then c else bit_of (bm (i / 8)) (j % 8)) (same_place i j e)
      ∙ ap (λ (t : ℕ). if i == j then c else bit_of (bm t) (j % 8)) e

  away_lem :
      i / 8 ≢ j / 8
      → bit_of (update bm (i / 8) v (j / 8)) (j % 8)
        ≡ (if i == j then c else bit_of (bm (j / 8)) (j % 8))
  away_lem ne =
      let differ : (i == j) ≡ false = ground arith in
      ap (λ w. bit_of w (j % 8)) (if_neg (ℕ_discrete (i / 8) (j / 8)) ne _ _)
      ∙ ap (λ (t : Bool). if t then c else bit_of (bm (j / 8)) (j % 8)) (sym differ)

-- Where the byte of position i is a byte: after `set` the bit at i is 1 and every other bit is as it
-- was; after `reset` the bit at i is 0 and every other bit is as it was.
pub is_set-set-reset :
    (bm : Bytes) (i j : ℕ)
    → bm (get_bucket i) < 256
    → (is_set (set bm i) j ≡ (if i == j then true else is_set bm j))
      × (is_set (reset bm i) j ≡ (if i == j then false else is_set bm j))
unfolding is_set set reset get_bucket get_bit
is_set-set-reset bm i j small = elim (ℕ_discrete (i / 8) (j / 8)) [
  | yes e ↦ (
    here_lem bm i j _ true e (
        same_bit_lem _ _ (
          table_lem set_right (i % 8) (j % 8) (bm (i / 8)) set_table (omega arith) (omega arith)
            small)),
    here_lem bm i j _ false e (
        same_bit_lem _ _ (
          table_lem reset_right (i % 8) (j % 8) (bm (i / 8)) reset_table (omega arith) (omega arith)
            small)),
  )
  | no ne ↦ (away_lem bm i j _ true ne, away_lem bm i j _ false ne)
]

zero_table : all_below 8 (λ s. not (bit_of 0 s)) ≡ true
unfolding all_below
zero_table = refl

-- `init` clears every bit of its bytes.
pub is_set-init : (bm : Bytes) (size j : ℕ) → j < 8 * size → is_set (init bm size) j ≡ false
unfolding is_set init get_bucket get_bit
is_set-init bm size j lt =
    let inside : ltb (j / 8) size ≡ true = ground arith in
    let unset = all_below_lem 8 (λ s. not (bit_of 0 s)) (j % 8) zero_table (omega arith) in
    rw inside (ground (arith, unset))
