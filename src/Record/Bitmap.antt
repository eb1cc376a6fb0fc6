-- ===== src/Record/Bitmap.antt =====
-- record/bitmap.h: the bitmap of a page, most significant bit first. `bm` gives the byte at each offset.
-- A position is not negative, but for the `curr` of `next_bit`, which may be -1.
pub mod Bits
pub mod Search
mod Tests
use Prim.Native.Nat.{bit_and, bit_or, zero, suc}
use db_smw.Common.{
  ℕ, ◌+◌, ◌-◌, ◌/◌, ◌%◌, ◌^◌, Bool, true, false, not, if◌then◌else◌, ◌==◌, ltb, update, Option,
  none, some,
}
use db_smw.Common.Int.{ℤ, pos, negsuc}

abbrev pub Bytes : Type 0
Bytes = ℕ → ℕ

abbrev pub bitmap_width : ℕ
bitmap_width = 8

abbrev pub bitmap_highest_bit : ℕ
bitmap_highest_bit = 128

unfoldable pub get_bucket : ℕ → ℕ
get_bucket p = p / bitmap_width

-- a shift to the right
unfoldable pub get_bit : ℕ → ℕ
get_bit p = bitmap_highest_bit / 2 ^ (p % bitmap_width)

abbrev zeroed : ℕ → Bytes → ℕ → ℕ
zeroed size bm i = if ltb i size then 0 else bm i

unfoldable pub init : Bytes → ℕ → Bytes
init bm size = zeroed size bm

unfoldable pub set : Bytes → ℕ → Bytes
unfolding get_bucket get_bit
set bm p = update bm (get_bucket p) (bit_or (bm (get_bucket p)) (get_bit p))

-- `~` on a byte
unfoldable pub reset : Bytes → ℕ → Bytes
unfolding get_bucket get_bit
reset bm p = update bm (get_bucket p) (bit_and (bm (get_bucket p)) (255 - get_bit p))

unfoldable pub is_set : Bytes → ℕ → Bool
unfolding get_bucket get_bit
is_set bm p = not (bit_and (bm (get_bucket p)) (get_bit p) == 0)

abbrev pub same_bit : Bool → Bool → Bool
same_bit true b = b
same_bit false b = not b

-- the loop from `i`, with `count` rounds before `max_n`
unfoldable pub next_bit_from : Bool → Bytes → ℕ → ℕ → ℕ
unfolding is_set
next_bit_from bit bm zero i = i
next_bit_from bit bm (suc count) i =
    let rest = next_bit_from bit bm count (suc i) in if same_bit bit (is_set bm i) then i else rest

-- below -1 the source shifts by a negative count, which has no value
unfoldable pub next_bit : Bool → Bytes → ℕ → ℤ → Option ℕ
unfolding next_bit_from
next_bit bit bm max_n (pos curr) =
    some
      (if ltb (suc curr) max_n then next_bit_from bit bm (max_n - suc curr) (suc curr) else max_n)
next_bit bit bm max_n (negsuc zero) = some (next_bit_from bit bm max_n 0)
next_bit bit bm max_n (negsuc (suc n)) = none

unfoldable pub first_bit : Bool → Bytes → ℕ → Option ℕ
unfolding next_bit
first_bit bit bm max_n = next_bit bit bm max_n (negsuc 0)
