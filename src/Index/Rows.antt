-- ===== src/Index/Rows.antt =====
-- `ix_compare` of the bytes of rows of integers and strings, against the order of the rows themselves.
use db_smw.Common.{
  ℕ, zero, suc, ◌<◌, ◌≡◌, refl, sym, ap, ◌∙◌, subst, inl, inr, List, [], ◌∷◌, ◌++◌, map, length,
  arith, Bool-cases, ltb,
}
use db_smw.Common.Int.{ℤ, pos, negsuc}
use db_smw.Common.Words.{IsInt, int_bytes, int_of, int_of-int_bytes, length-int_bytes}
use db_smw.Index.{type_int, type_string, IxCol}
use db_smw.Index.Compare.{
  Comparison, less, equal, greater, Key, take, drop, compare_ℤ, then_by, memcmp, ix_compare_col,
  ix_compare,
}

-- an `int` column, and a column of characters
pub data Field : Type 0 where
  int_field : ℤ → Field
  string_field : List ℕ → Field

abbrev pub col_of : Field → IxCol
col_of (int_field z) = record { col_type = type_int; col_len = 4 }
col_of (string_field s) = record { col_type = type_string; col_len = length s }

abbrev pub field_bytes : Field → List ℕ
field_bytes (int_field z) = int_bytes z
field_bytes (string_field s) = s

abbrev pub row_bytes : List Field → Key
row_bytes [] = []
row_bytes (f ∷ fs) = field_bytes f ++ row_bytes fs

-- Every integer is in the range of `int`.
abbrev pub IsRow : List Field → Type 0
IsRow [] = Unit
IsRow (int_field z ∷ fs) = IsInt z × IsRow fs
IsRow (string_field s ∷ fs) = IsRow fs

-- The order of the integers.
abbrev pub Below : ℤ → ℤ → Type 0
Below (pos a) (pos b) = a < b
Below (pos a) (negsuc b) = ⊥
Below (negsuc a) (pos b) = Unit
Below (negsuc a) (negsuc b) = b < a

-- The first byte that differs is the smaller one.
pub data StringLess : List ℕ → List ℕ → Type 0 where
  byte_less : (x y : ℕ) (s t : List ℕ) → x < y → StringLess (x ∷ s) (y ∷ t)
  byte_same : (x : ℕ) (s t : List ℕ) → StringLess s t → StringLess (x ∷ s) (x ∷ t)

abbrev pub FieldLess : Field → Field → Type 0
FieldLess (int_field a) (int_field b) = Below a b
FieldLess (string_field s) (string_field t) = StringLess s t
FieldLess _ _ = ⊥

-- The first field that differs is the smaller one.
pub data RowLess : List Field → List Field → Type 0 where
  field_less : (f g : Field) (fs gs : List Field) → FieldLess f g → RowLess (f ∷ fs) (g ∷ gs)
  field_same : (f : Field) (fs gs : List Field) → RowLess fs gs → RowLess (f ∷ fs) (f ∷ gs)

-- What each result of a comparison means, for things of a type with an order.
abbrev pub Ordered : {A : Type 0} → (A → A → Type 0) → A → A → Comparison → Type 0
Ordered Less a b less = Less a b
Ordered Less a b equal = a ≡ b
Ordered Less a b greater = Less b a

compare_ℤ-Ordered : (a b : ℤ) → Ordered Below a b (compare_ℤ a b)
unfolding compare_ℤ
compare_ℤ-Ordered (pos a) (pos b) = elim (Bool-cases (ltb a b)) [
  | inl e ↦ rw e (ground (arith, e))
  | inr e ↦ elim (Bool-cases (ltb b a)) [
    | inl h ↦ rw (e, h) (ground (arith, h))
    | inr h ↦ let same : a ≡ b = ground (arith, e, h) in rw (e, h) (ap (λ (n : ℕ). pos n) same)
  ]
]
compare_ℤ-Ordered (pos a) (negsuc b) = tt
compare_ℤ-Ordered (negsuc a) (pos b) = tt
compare_ℤ-Ordered (negsuc a) (negsuc b) = elim (Bool-cases (ltb b a)) [
  | inl e ↦ rw e (ground (arith, e))
  | inr e ↦ elim (Bool-cases (ltb a b)) [
    | inl h ↦ rw (e, h) (ground (arith, h))
    | inr h ↦ let same : a ≡ b = ground (arith, e, h) in rw (e, h) (ap (λ (n : ℕ). negsuc n) same)
  ]
]

byte_then :
    (x y : ℕ) (s t : List ℕ) (c d : Comparison)
    → Ordered Below (pos x) (pos y) c
    → Ordered StringLess s t d
    → Ordered StringLess (x ∷ s) (y ∷ t) (then_by c d)
byte_then x y s t less d h k = byte_less x y s t h
byte_then x y s t greater d h k = byte_less y x t s h
byte_then x y s t equal d h k = after d k
  where
    same : x ≡ y
    same = cc h

    after : (d : Comparison) → Ordered StringLess s t d → Ordered StringLess (x ∷ s) (y ∷ t) d
    after less l = subst (λ z. StringLess (x ∷ s) (z ∷ t)) same (byte_same x s t l)
    after greater l = subst (λ z. StringLess (z ∷ t) (x ∷ s)) same (byte_same x t s l)
    after equal e = cc (same, e)

memcmp-Ordered :
    (s t p q : List ℕ)
    → length s ≡ length t
    → Ordered StringLess s t (memcmp (length s) (s ++ p) (t ++ q))
unfolding memcmp
memcmp-Ordered [] [] p q e = refl
memcmp-Ordered [] (y ∷ t) p q e = absurd (omega (arith, e))
memcmp-Ordered (x ∷ s) [] p q e = absurd (omega (arith, e))
memcmp-Ordered (x ∷ s) (y ∷ t) p q e =
    byte_then x y s t (compare_ℤ (pos x) (pos y)) (memcmp (length s) (s ++ p) (t ++ q))
      (compare_ℤ-Ordered (pos x) (pos y)) (memcmp-Ordered s t p q (omega (arith, e)))

field_then :
    (f g : Field) (fs gs : List Field) (c d : Comparison)
    → Ordered FieldLess f g c
    → Ordered RowLess fs gs d
    → Ordered RowLess (f ∷ fs) (g ∷ gs) (then_by c d)
field_then f g fs gs less d h k = field_less f g fs gs h
field_then f g fs gs greater d h k = field_less g f gs fs h
field_then f g fs gs equal less h k =
    subst (λ z. RowLess (f ∷ fs) (z ∷ gs)) h (field_same f fs gs k)
field_then f g fs gs equal greater h k =
    subst (λ z. RowLess (z ∷ gs) (f ∷ fs)) h (field_same f gs fs k)
field_then f g fs gs equal equal h k = cc (h, k)

take-append : (n : ℕ) (s p : List ℕ) → length s ≡ n → take n (s ++ p) ≡ s
take-append zero [] p e = refl
take-append zero (x ∷ s) p e = absurd (omega (arith, e))
take-append (suc n) [] p e = absurd (omega (arith, e))
take-append (suc n) (x ∷ s) p e = ap (λ l. x ∷ l) (take-append n s p (omega (arith, e)))

drop-append : (n : ℕ) (s p : List ℕ) → length s ≡ n → drop n (s ++ p) ≡ p
drop-append zero [] p e = refl
drop-append zero (x ∷ s) p e = absurd (omega (arith, e))
drop-append (suc n) [] p e = absurd (omega (arith, e))
drop-append (suc n) (x ∷ s) p e = drop-append n s p (omega (arith, e))

int_at : (z : ℤ) (p : List ℕ) → IsInt z → int_of (take 4 (int_bytes z ++ p)) ≡ z
int_at z p h = ap int_of (take-append 4 (int_bytes z) p (length-int_bytes z)) ∙ int_of-int_bytes z h

int_then :
    (a b : ℤ) (c : Comparison)
    → Ordered Below a b c
    → Ordered FieldLess (int_field a) (int_field b) c
int_then a b less h = h
int_then a b greater h = h
int_then a b equal h = ap int_field h

string_then :
    (s t : List ℕ) (c : Comparison)
    → Ordered StringLess s t c
    → Ordered FieldLess (string_field s) (string_field t) c
string_then s t less h = h
string_then s t greater h = h
string_then s t equal h = ap string_field h

-- For two rows of `int` and character columns of the same types and lengths, with integers in range:
-- `ix_compare` of their bytes gives less, equal or greater exactly as the first row comes before the
-- second, is the second, or comes behind it, where the first field that differs decides, an integer by
-- its value and a string by its first byte that differs.
pub ix_compare-Ordered :
    (fs gs : List Field)
    → IsRow fs
    → IsRow gs
    → map col_of fs ≡ map col_of gs
    → Ordered RowLess fs gs (ix_compare (map col_of fs) (row_bytes fs) (row_bytes gs))
unfolding ix_compare ix_compare_col
ix_compare-Ordered [] [] hf hg e = refl
ix_compare-Ordered [] (g ∷ gs) hf hg e = absurd (cc e)
ix_compare-Ordered (f ∷ fs) [] hf hg e = absurd (cc e)
ix_compare-Ordered (int_field a ∷ fs) (int_field b ∷ gs) (ha, hf) (hb, hg) e =
    rw
      (
        int_at a (row_bytes fs) ha,
        int_at b (row_bytes gs) hb,
        drop-append 4 (int_bytes a) (row_bytes fs) (length-int_bytes a),
        drop-append 4 (int_bytes b) (row_bytes gs) (length-int_bytes b),
      )
      (field_then (int_field a) (int_field b) fs gs (compare_ℤ a b) _
        (int_then a b (compare_ℤ a b) (compare_ℤ-Ordered a b))
        (ix_compare-Ordered fs gs hf hg (cc e)))
ix_compare-Ordered (int_field a ∷ fs) (string_field t ∷ gs) hf hg e = absurd (cc e)
ix_compare-Ordered (string_field s ∷ fs) (int_field b ∷ gs) hf hg e = absurd (cc e)
ix_compare-Ordered (string_field s ∷ fs) (string_field t ∷ gs) hf hg e =
    let same : length s ≡ length t = cc e in
    rw
      (
        drop-append (length s) s (row_bytes fs) refl,
        drop-append (length s) t (row_bytes gs) (sym same),
      )
      (field_then (string_field s) (string_field t) fs gs
        (memcmp (length s) (s ++ row_bytes fs) (t ++ row_bytes gs)) _
        (string_then s t _ (memcmp-Ordered s t (row_bytes fs) (row_bytes gs) same))
        (ix_compare-Ordered fs gs hf hg (cc e)))
