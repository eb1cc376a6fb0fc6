-- ===== src/Common/Words.antt =====
-- Integers of a fixed width as bytes, the lowest first, as on the machines that the server runs on.
use Prim.Native.Nat.{ℕ, zero, suc, ◌+◌, ◌-◌, ◌*◌, ◌/◌, ◌%◌, ◌^◌, ◌<◌}
use mathlib.Core.Path.{◌≡◌, refl}
use mathlib.Core.List.{List, [], ◌∷◌}
use native.Mathlib.Omega.{arith}
use db_smw.Common.Tests.{ltb, if◌then◌else◌}
use db_smw.Common.Lists.{length}
use db_smw.Common.Int.{ℤ, pos, negsuc}

unfoldable pub bytes : ℕ → ℕ → List ℕ
bytes zero w = []
bytes (suc k) w = w % 256 ∷ bytes k (w / 256)

unfoldable pub from_bytes : List ℕ → ℕ
from_bytes [] = 0
from_bytes (b ∷ bs) = b + 256 * from_bytes bs

-- 256 ^ k
abbrev pub range : ℕ → ℕ
range zero = 1
range (suc k) = 256 * range k

pub length-bytes : (k w : ℕ) → length (bytes k w) ≡ k
unfolding bytes
length-bytes zero w = refl
length-bytes (suc k) w = omega (arith, length-bytes k (w / 256))

pub from_bytes-bytes : (k w : ℕ) → w < range k → from_bytes (bytes k w) ≡ w
unfolding bytes from_bytes
from_bytes-bytes zero w lt = omega arith
from_bytes-bytes (suc k) w lt = omega (arith, from_bytes-bytes k (w / 256) (omega arith))

-- an `int` as its bit pattern
unfoldable pub word32 : ℤ → ℕ
word32 (pos n) = n % 2 ^ 32
word32 (negsuc n) = 2 ^ 32 - 1 - n % 2 ^ 32

unfoldable pub signed32 : ℕ → ℤ
signed32 w = if ltb w (2 ^ 31) then pos w else negsuc (2 ^ 32 - 1 - w)

abbrev pub IsInt : ℤ → Type 0
IsInt (pos n) = n < 2 ^ 31
IsInt (negsuc n) = n < 2 ^ 31

pub signed32-word32 : (z : ℤ) → IsInt z → signed32 (word32 z) ≡ z
unfolding signed32 word32
signed32-word32 (pos n) h = ground arith
signed32-word32 (negsuc n) h = ground arith

pub word32-lt : (z : ℤ) → IsInt z → word32 z < range 4
unfolding word32
word32-lt (pos n) h = omega arith
word32-lt (negsuc n) h = omega arith

-- an `int` in memory
unfoldable pub int_bytes : ℤ → List ℕ
unfolding bytes word32
int_bytes z = bytes 4 (word32 z)

unfoldable pub int_of : List ℕ → ℤ
unfolding from_bytes signed32
int_of bs = signed32 (from_bytes bs)

pub int_of-int_bytes : (z : ℤ) → IsInt z → int_of (int_bytes z) ≡ z
unfolding int_of int_bytes
int_of-int_bytes z h = rw (from_bytes-bytes 4 (word32 z) (word32-lt z h)) (signed32-word32 z h)

pub length-int_bytes : (z : ℤ) → length (int_bytes z) ≡ 4
unfolding int_bytes
length-int_bytes z = length-bytes 4 (word32 z)
