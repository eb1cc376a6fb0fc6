-- ===== src/Record/Bitmap/Tests.antt =====
-- The bitmap on small inputs.
use db_smw.Common.{◌≡◌, refl, ◌<◌, true, false, some, if◌then◌else◌, ◌==◌, arith}
use db_smw.Common.Int.{pos}
use db_smw.Record.Bitmap.{Bytes, get_bucket, get_bit, set, reset, is_set, next_bit, next_bit_from}
use db_smw.Record.Bitmap.Bits.{is_set-set-reset}
use db_smw.Record.Bitmap.Search.{NextAfter, next_bit-NextAfter}

-- 0b10100000 in each byte
abbrev some_bits : Bytes
some_bits = λ i. 160

small : some_bits (get_bucket 9) < 256
unfolding get_bucket
small = omega arith

is_set-set-reset_example :
    (is_set (set some_bits 9) 10 ≡ (if 9 == 10 then true else is_set some_bits 10))
    × (is_set (reset some_bits 9) 10 ≡ (if 9 == 10 then false else is_set some_bits 10))
is_set-set-reset_example = is_set-set-reset some_bits 9 10 small

next_result : next_bit true some_bits 16 (pos 2) ≡ some 8
unfolding next_bit next_bit_from is_set get_bucket get_bit
next_result = refl

next_bit-NextAfter_example :
    NextAfter true some_bits 16 (pos 2) (next_bit true some_bits 16 (pos 2))
next_bit-NextAfter_example = next_bit-NextAfter true some_bits 16 (pos 2)
