-- ===== src/DateTime/Read.antt =====
-- A text that passes the tests of `parse_datetime` is the text of the numbers that are read in it.
use db_smw.Common.{
  ℕ, zero, suc, ◌+◌, ◌-◌, ◌*◌, ◌/◌, ◌<◌, ◌≤◌, ◌≡◌, refl, sym, ap, ◌∙◌, Bool, true, false, ◌&&◌,
  if◌then◌else◌, ◌==◌, List, [], ◌∷◌, length, arith, ℕ_discrete, subst,
}
use db_smw.DateTime.{
  is_separator_place, digit, char_at, is_digit, all_digits, has_separators, well_formed,
  read_fields,
}
use db_smw.DateTime.Fields.{both, same_number}
use db_smw.DateTime.Print.{text}

one_character :
    (separator d rest : Bool)
    → (if separator then rest else d && rest) ≡ true
    → (rest ≡ true) × (separator ≡ false → d ≡ true)
one_character true d rest e = (e, λ f. absurd (cc f))
one_character false true rest e = (e, λ f. refl)
one_character false false rest e = absurd (cc e)

is_digit-at :
    (count i j : ℕ) (s : List ℕ)
    → all_digits count i s ≡ true
    → i ≤ j
    → j < i + count
    → is_separator_place j ≡ false
    → is_digit (char_at s j) ≡ true
unfolding all_digits
is_digit-at zero i j s e le lt place = absurd (omega arith)
is_digit-at (suc count) i j s e le lt place = elim (ℕ_discrete i j) [
  | yes same ↦
      subst (λ k. is_digit (char_at s k) ≡ true) same
        ((one_character _ _ _ e).1 (subst (λ k. is_separator_place k ≡ false) (sym same) place))
  | no ne ↦
      is_digit-at count (suc i) j s (one_character _ _ _ e).0 (omega (arith, ne)) (omega arith)
        place
]

chars_from : ℕ → ℕ → List ℕ → List ℕ
chars_from i zero s = []
chars_from i (suc n) s = char_at s i ∷ chars_from (suc i) n s

chars_from-suc : (i n c : ℕ) (s : List ℕ) → chars_from (suc i) n (c ∷ s) ≡ chars_from i n s
unfolding chars_from
chars_from-suc i zero c s = refl
chars_from-suc i (suc n) c s = ap (λ r. char_at s i ∷ r) (chars_from-suc (suc i) n c s)

chars_from-all : (n : ℕ) (s : List ℕ) → length s ≡ n → chars_from 0 n s ≡ s
unfolding chars_from
chars_from-all zero [] e = refl
chars_from-all zero (c ∷ s) e = absurd (omega (arith, e))
chars_from-all (suc n) [] e = absurd (omega (arith, e))
chars_from-all (suc n) (c ∷ s) e =
    ap (λ r. c ∷ r) (chars_from-suc 0 n c s ∙ chars_from-all n s (omega (arith, e)))

-- A character that is a digit, by its number.
is_digit-bounds : (c : ℕ) → is_digit c ≡ true → (48 ≤ c) × (c ≤ 57)
is_digit-bounds c e = ground arith

IsDigit : ℕ → Type 0
IsDigit c = (48 ≤ c) × (c ≤ 57)

two_digits-read :
    (a b : ℕ)
    → IsDigit a
    → IsDigit b
    → let n = (a - 48) * 10 + (b - 48) in (digit (n / 10) ≡ a) × (digit n ≡ b)
unfolding IsDigit
two_digits-read a b h k = (omega arith, omega arith)

four_digits-read :
    (a b c d : ℕ)
    → IsDigit a
    → IsDigit b
    → IsDigit c
    → IsDigit d
    → let n = ((a - 48) * 10 + (b - 48)) * 100 + ((c - 48) * 10 + (d - 48)) in
      (digit (n / 1000) ≡ a) × ((digit (n / 100) ≡ b) × ((digit (n / 10) ≡ c) × (digit n ≡ d)))
unfolding IsDigit
four_digits-read a b c d h k l m = (omega arith, (omega arith, (omega arith, omega arith)))

module _ (s : List ℕ) (wf : well_formed s ≡ true) where
  record Shape : Type 0 where
    long_enough : length s ≡ 19
    first : char_at s 4 ≡ 45
    second : char_at s 7 ≡ 45
    third : char_at s 10 ≡ 32
    fourth : char_at s 13 ≡ 58
    fifth : char_at s 16 ≡ 58
    digits : all_digits 19 0 s ≡ true

  well_formed-Shape : Shape
  unfolding well_formed has_separators
  well_formed-Shape =
      let (l, r) = both (length s == 19) _ wf in
      let (seps, ds) = both _ _ r in
      let (s4, q4) = both (char_at s 4 == 45) _ seps in
      let (s7, q7) = both (char_at s 7 == 45) _ q4 in
      let (s10, q10) = both (char_at s 10 == 32) _ q7 in
      let (s13, s16) = both (char_at s 13 == 58) (char_at s 16 == 58) q10 in
      record {
        long_enough = same_number (length s) 19 l;
        first = same_number (char_at s 4) 45 s4;
        second = same_number (char_at s 7) 45 s7;
        third = same_number (char_at s 10) 32 s10;
        fourth = same_number (char_at s 13) 58 s13;
        fifth = same_number (char_at s 16) 58 s16;
        digits = ds;
      }

  at : (j : ℕ) → j < 19 → is_separator_place j ≡ false → IsDigit (char_at s j)
  unfolding IsDigit
  at j lt place =
      is_digit-bounds (char_at s j)
        (is_digit-at 19 0 j s well_formed-Shape.digits (omega arith) lt place)

  pub text-read_fields : text (read_fields s) ≡ s
  unfolding read_fields chars_from
  text-read_fields =
      let shape = well_formed-Shape in
      let all = chars_from-all 19 s shape.long_enough in
      let y =
        four_digits-read (char_at s 0) (char_at s 1) (char_at s 2) (char_at s 3)
          (at 0 (omega arith) refl) (at 1 (omega arith) refl) (at 2 (omega arith) refl)
          (at 3 (omega arith) refl) in
      let mo =
        two_digits-read (char_at s 5) (char_at s 6) (at 5 (omega arith) refl)
          (at 6 (omega arith) refl) in
      let d =
        two_digits-read (char_at s 8) (char_at s 9) (at 8 (omega arith) refl)
          (at 9 (omega arith) refl) in
      let ho =
        two_digits-read (char_at s 11) (char_at s 12) (at 11 (omega arith) refl)
          (at 12 (omega arith) refl) in
      let mi =
        two_digits-read (char_at s 14) (char_at s 15) (at 14 (omega arith) refl)
          (at 15 (omega arith) refl) in
      let sec =
        two_digits-read (char_at s 17) (char_at s 18) (at 17 (omega arith) refl)
          (at 18 (omega arith) refl) in
      cc (
        y.0,
        y.1.0,
        y.1.1.0,
        y.1.1.1,
        mo.0,
        mo.1,
        d.0,
        d.1,
        ho.0,
        ho.1,
        mi.0,
        mi.1,
        sec.0,
        sec.1,
        sym shape.first,
        sym shape.second,
        sym shape.third,
        sym shape.fourth,
        sym shape.fifth,
      )
      ∙ all
