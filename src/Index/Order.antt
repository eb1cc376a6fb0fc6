-- ===== src/Index/Order.antt =====
-- `ix_compare` is a strict order on keys without NaNs: the order of words of integers.
use db_smw.Common.{
  ℕ, zero, suc, ◌≤◌, ◌≡◌, refl, sym, ap, ◌∙◌, ◌≢◌, Option, none, some, List, [], ◌∷◌, ◌++◌, map,
  length, arith,
}
use db_smw.Common.Int.{ℤ, pos}
use db_smw.Common.Words.{int_of, from_bytes}
use db_smw.Index.{ColType, type_int, type_float, type_bigint, type_string, type_datetime, IxCol}
use db_smw.Index.Compare.{
  Comparison, less, equal, greater, Key, take, drop, compare_ℤ, int64_of, float_place, float_lt,
  compare_float, then_by, memcmp, ix_compare_col, ix_compare,
}

-- the order of words, where all words compared have one length
abbrev pub lex : List ℤ → List ℤ → Comparison
lex [] [] = equal
lex [] (y ∷ ys) = less
lex (x ∷ xs) [] = greater
lex (x ∷ xs) (y ∷ ys) = then_by (compare_ℤ x y) (lex xs ys)

abbrev pub flip : Comparison → Comparison
flip less = greater
flip equal = equal
flip greater = less

compare_ℤ-flip : (x y : ℤ) → compare_ℤ y x ≡ flip (compare_ℤ x y)
unfolding compare_ℤ
compare_ℤ-flip x y = ground arith

compare_ℤ-equal : (x y : ℤ) → compare_ℤ x y ≡ equal → x ≡ y
unfolding compare_ℤ
compare_ℤ-equal x y e = ground arith

compare_ℤ_refl : (x : ℤ) → compare_ℤ x x ≡ equal
unfolding compare_ℤ
compare_ℤ_refl x = ground arith

compare_ℤ-less : (x y z : ℤ) → compare_ℤ x y ≡ less → compare_ℤ y z ≡ less → compare_ℤ x z ≡ less
unfolding compare_ℤ
compare_ℤ-less x y z e h = ground arith

lex-flip : (a b : List ℤ) → lex b a ≡ flip (lex a b)
lex-flip [] [] = refl
lex-flip [] (y ∷ ys) = refl
lex-flip (x ∷ xs) [] = refl
lex-flip (x ∷ xs) (y ∷ ys) = ground (arith, compare_ℤ-flip x y, lex-flip xs ys)

pub lex-equal : (a b : List ℤ) → lex a b ≡ equal → a ≡ b
lex-equal [] [] e = refl
lex-equal [] (y ∷ ys) e = cc
lex-equal (x ∷ xs) [] e = cc
lex-equal (x ∷ xs) (y ∷ ys) e = ground (arith, compare_ℤ-equal x y, lex-equal xs ys)

pub lex_refl : (a : List ℤ) → lex a a ≡ equal
lex_refl [] = refl
lex_refl (x ∷ xs) = rw (compare_ℤ_refl x) (lex_refl xs)

lex-less : (a b c : List ℤ) → lex a b ≡ less → lex b c ≡ less → lex a c ≡ less
lex-less [] b [] e h = ground (arith, lex-flip [] b)
lex-less [] b (z ∷ zs) e h = refl
lex-less (x ∷ xs) [] c e h = cc
lex-less (x ∷ xs) (y ∷ ys) [] e h = cc
lex-less (x ∷ xs) (y ∷ ys) (z ∷ zs) e h =
    ground
      (arith, compare_ℤ-less x y z, compare_ℤ-equal x y, compare_ℤ-equal y z, lex-less xs ys zs)

lex-append :
    (a b p q : List ℤ) → length a ≡ length b → lex (a ++ p) (b ++ q) ≡ then_by (lex a b) (lex p q)
lex-append [] [] p q e = refl
lex-append [] (y ∷ ys) p q e = absurd (omega (arith, e))
lex-append (x ∷ xs) [] p q e = absurd (omega (arith, e))
lex-append (x ∷ xs) (y ∷ ys) p q e = ground (arith, lex-append xs ys p q (omega (arith, e)))

abbrev pub float_word : Option ℤ → List ℤ
float_word none = []
float_word (some z) = z ∷ []

-- A column as a word of integers: a number is one integer, a string its bytes.
unfoldable pub col_word : IxCol → Key → List ℤ
unfolding float_place from_bytes int_of int64_of
col_word c k = elim c.col_type [
  | type_int ↦ int_of (take 4 k) ∷ []
  | type_float ↦ float_word (float_place (from_bytes (take 4 k)))
  | type_bigint ↦ int64_of (take 8 k) ∷ []
  | type_string ↦ map pos (take c.col_len k)
  | type_datetime ↦ int64_of (take 8 k) ∷ []
]

unfoldable pub key_word : List IxCol → Key → List ℤ
unfolding col_word
key_word [] k = []
key_word (c ∷ cs) k = col_word c k ++ key_word cs (drop c.col_len k)

-- A float is a number, and a string has its bytes.
abbrev pub IsCol : ColType → ℕ → Key → Type 0
IsCol type_float n k = float_place (from_bytes (take 4 k)) ≢ none
IsCol type_string n k = n ≤ length k
IsCol type_int n k = Unit
IsCol type_bigint n k = Unit
IsCol type_datetime n k = Unit

abbrev pub IsKey : List IxCol → Key → Type 0
IsKey [] k = Unit
IsKey (c ∷ cs) k = IsCol c.col_type c.col_len k × IsKey cs (drop c.col_len k)

memcmp-lex :
    (n : ℕ) (a b : Key)
    → n ≤ length a
    → n ≤ length b
    → (memcmp n a b ≡ lex (map pos (take n a)) (map pos (take n b)))
      × (length (map pos (take n a)) ≡ length (map pos (take n b)))
unfolding memcmp
memcmp-lex zero a b h k = (refl, refl)
memcmp-lex (suc n) [] b h k = absurd (omega arith)
memcmp-lex (suc n) (x ∷ a) [] h k = absurd (omega arith)
memcmp-lex (suc n) (x ∷ a) (y ∷ b) h k =
    let ih = memcmp-lex n a b (omega arith) (omega arith) in (rw ih.0 refl, omega (arith, ih.1))

single : (x y : ℤ) → compare_ℤ x y ≡ lex (x ∷ []) (y ∷ [])
single x y = ground arith

float-lex :
    (x y : Option ℤ)
    → x ≢ none
    → y ≢ none
    → (compare_float x y ≡ lex (float_word x) (float_word y))
      × (length (float_word x) ≡ length (float_word y))
unfolding compare_float float_lt compare_ℤ
float-lex none y h k = absurd (h refl)
float-lex (some x) none h k = absurd (k refl)
float-lex (some x) (some y) h k = (single x y, refl)

col-lex :
    (t : ColType) (n : ℕ) (a b : Key)
    → IsCol t n a
    → IsCol t n b
    → let c : IxCol = record { col_type = t; col_len = n } in
      (ix_compare_col c a b ≡ lex (col_word c a) (col_word c b))
      × (length (col_word c a) ≡ length (col_word c b))
unfolding ix_compare_col col_word
col-lex type_int n a b h k = (single (int_of (take 4 a)) (int_of (take 4 b)), refl)
col-lex type_float n a b h k = float-lex _ _ h k
col-lex type_bigint n a b h k = (single (int64_of (take 8 a)) (int64_of (take 8 b)), refl)
col-lex type_string n a b h k = memcmp-lex n a b h k
col-lex type_datetime n a b h k = (single (int64_of (take 8 a)) (int64_of (take 8 b)), refl)

-- For any columns: on keys in which every float is a number and every string has its bytes,
-- ix_compare is the order of the keys' words of integers, column by column.
pub ix_compare-lex :
    (cols : List IxCol) (a b : Key)
    → IsKey cols a
    → IsKey cols b
    → ix_compare cols a b ≡ lex (key_word cols a) (key_word cols b)
unfolding ix_compare key_word
ix_compare-lex [] a b h k = refl
ix_compare-lex (c ∷ cs) a b h k =
    let first = col-lex c.col_type c.col_len a b h.0 k.0 in
    let rest = ix_compare-lex cs (drop c.col_len a) (drop c.col_len b) h.1 k.1 in
    cc (first.0, rest, lex-append (col_word c a) (col_word c b) _ _ first.1)

pub ix_compare_refl : (cols : List IxCol) (a : Key) → IsKey cols a → ix_compare cols a a ≡ equal
ix_compare_refl cols a h = ix_compare-lex cols a a h h ∙ lex_refl (key_word cols a)

module _ (cols : List IxCol) (a b : Key) (ha : IsKey cols a) (hb : IsKey cols b) where
  pub ix_compare-flip : ix_compare cols b a ≡ flip (ix_compare cols a b)
  ix_compare-flip = cc (
    ix_compare-lex cols a b ha hb,
    ix_compare-lex cols b a hb ha,
    lex-flip (key_word cols a) (key_word cols b),
  )

  pub key_word-equal : ix_compare cols a b ≡ equal → key_word cols a ≡ key_word cols b
  key_word-equal e = lex-equal _ _ (sym (ix_compare-lex cols a b ha hb) ∙ e)

  module _ (c : Key) (hc : IsKey cols c) where
    pub ix_compare-less_trans :
        ix_compare cols a b ≡ less → ix_compare cols b c ≢ greater → ix_compare cols a c ≡ less
    ix_compare-less_trans e h = ground (
      arith,
      ix_compare-lex cols a b ha hb,
      ix_compare-lex cols b c hb hc,
      ix_compare-lex cols a c ha hc,
      lex-equal (key_word cols b) (key_word cols c),
      lex-less (key_word cols a) (key_word cols b) (key_word cols c),
    )

    pub ix_compare-trans_less :
        ix_compare cols a b ≢ greater → ix_compare cols b c ≡ less → ix_compare cols a c ≡ less
    ix_compare-trans_less h e = ground (
      arith,
      ix_compare-lex cols a b ha hb,
      ix_compare-lex cols b c hb hc,
      ix_compare-lex cols a c ha hc,
      lex-equal (key_word cols a) (key_word cols b),
      lex-less (key_word cols a) (key_word cols b) (key_word cols c),
    )

    pub ix_compare-equal_both :
        ix_compare cols a b ≡ equal → ix_compare cols a c ≡ equal → ix_compare cols b c ≡ equal
    ix_compare-equal_both e h =
        ix_compare-lex cols b c hb hc
        ∙ ap (λ w. lex w (key_word cols c)) (sym (key_word-equal e))
        ∙ sym (ix_compare-lex cols a c ha hc)
        ∙ h
