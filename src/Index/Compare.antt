-- ===== src/Index/Compare.antt =====
-- index/ix_index_handle.h: `ix_compare`, the order of the keys of an index. A key is the bytes of its
-- columns, one after another. Only the sign of the `int` that the source returns is used.
use db_smw.Common.{
  ℕ, zero, suc, ◌-◌, ◌%◌, ◌^◌, Bool, false, if◌then◌else◌, ltb, ◌==◌, Option, none, some, List, [],
  ◌∷◌,
}
use db_smw.Common.Int.{ℤ, pos, negsuc, ltb_ℤ}
use db_smw.Common.Words.{from_bytes, int_of}
use db_smw.Index.{type_int, type_float, type_bigint, type_string, type_datetime, IxCol}

pub data Comparison : Type 0 where
  less equal greater : Comparison

abbrev pub Key : Type 0
Key = List ℕ

abbrev pub take : ℕ → List ℕ → List ℕ
take zero xs = []
take (suc n) [] = []
take (suc n) (x ∷ xs) = x ∷ take n xs

abbrev pub drop : ℕ → List ℕ → List ℕ
drop zero xs = xs
drop (suc n) [] = []
drop (suc n) (x ∷ xs) = drop n xs

-- (ia < ib) ? -1 : ((ia > ib) ? 1 : 0)
unfoldable pub compare_ℤ : ℤ → ℤ → Comparison
compare_ℤ a b = if ltb_ℤ a b then less else if ltb_ℤ b a then greater else equal

-- *(int64_t *)
unfoldable pub int64_of : List ℕ → ℤ
unfolding from_bytes
int64_of bs = let w = from_bytes bs in if ltb w (2 ^ 63) then pos w else negsuc (2 ^ 64 - 1 - w)

-- A float's place among the floats, from its sign and the rest of its bits; a NaN has none. Both
-- zeros have the same place.
unfoldable pub float_place : ℕ → Option ℤ
float_place w =
    let rest = w % 2 ^ 31 in
    if ltb (2 ^ 31 - 2 ^ 23) rest
    then none
    else if ltb w (2 ^ 31)
    then some (pos rest)
    else if rest == 0
    then some (pos 0)
    else some (negsuc (rest - 1))

-- `<` of floats
unfoldable pub float_lt : Option ℤ → Option ℤ → Bool
float_lt (some a) (some b) = ltb_ℤ a b
float_lt _ _ = false

-- (fa < fb) ? -1 : ((fa > fb) ? 1 : 0)
unfoldable pub compare_float : Option ℤ → Option ℤ → Comparison
unfolding float_lt
compare_float a b = if float_lt a b then less else if float_lt b a then greater else equal

-- The first comparison, unless it is 0.
abbrev pub then_by : Comparison → Comparison → Comparison
then_by equal c = c
then_by d c = d

-- memcmp, on keys that have the `n` bytes
unfoldable pub memcmp : ℕ → List ℕ → List ℕ → Comparison
unfolding compare_ℤ
memcmp (suc n) (x ∷ a) (y ∷ b) = then_by (compare_ℤ (pos x) (pos y)) (memcmp n a b)
memcmp _ _ _ = equal

-- ix_compare(a, b, type, col_len)
unfoldable pub ix_compare_col : IxCol → Key → Key → Comparison
unfolding compare_ℤ int_of int64_of float_place compare_float memcmp from_bytes
ix_compare_col c a b = elim c.col_type [
  | type_int ↦ compare_ℤ (int_of (take 4 a)) (int_of (take 4 b))
  | type_float ↦
      compare_float (float_place (from_bytes (take 4 a))) (float_place (from_bytes (take 4 b)))
  | type_bigint ↦ compare_ℤ (int64_of (take 8 a)) (int64_of (take 8 b))
  | type_string ↦ memcmp c.col_len a b
  | type_datetime ↦ compare_ℤ (int64_of (take 8 a)) (int64_of (take 8 b))
]

-- ix_compare(a, b, col_types, col_lens), from the column on that the keys begin with
unfoldable pub ix_compare : List IxCol → Key → Key → Comparison
unfolding ix_compare_col
ix_compare [] a b = equal
ix_compare (c ∷ cs) a b =
    then_by (ix_compare_col c a b) (ix_compare cs (drop c.col_len a) (drop c.col_len b))
