-- ===== src/DateTime/Packed.antt =====
-- The fields of a packed value do not overlap.
use Prim.Native.Nat.{bit_or, bit_or-bitwise, digits, max, zero, suc}
use db_smw.Common.{ℕ, ◌+◌, ◌*◌, ◌/◌, ◌%◌, ◌^◌, ◌<◌, ◌≤◌, ◌≡◌, refl, ap, ◌∙◌, arith}
use db_smw.DateTime.{DateTime, pack_datetime, unpack_datetime}

abbrev or_digits : ℕ → ℕ → ℕ → ℕ
or_digits n a b = digits (λ b. b) max n a b

or_digits_fuel : (n m a b : ℕ) → a ≤ n → a ≤ m → or_digits n a b ≡ or_digits m a b
or_digits_fuel zero zero a b p q = refl
or_digits_fuel zero (suc m) zero b p q = refl
or_digits_fuel zero (suc m) (suc a) b p q = absurd (omega arith)
or_digits_fuel (suc n) zero zero b p q = refl
or_digits_fuel (suc n) zero (suc a) b p q = absurd (omega arith)
or_digits_fuel (suc n) (suc m) zero b p q = refl
or_digits_fuel (suc n) (suc m) (suc a) b p q =
    omega (arith, or_digits_fuel n m (suc a / 2) (b / 2) (omega arith) (omega arith))

-- The lowest digit, and the others.
bit_or_step : (a b : ℕ) → bit_or a b ≡ bit_or (a / 2) (b / 2) * 2 + max (a % 2) (b % 2)
bit_or_step zero b = omega (arith, bit_or-bitwise 0 b, bit_or-bitwise 0 (b / 2))
bit_or_step (suc a) b = omega (
  arith,
  bit_or-bitwise (suc a) b,
  bit_or-bitwise (suc a / 2) (b / 2),
  or_digits_fuel a (suc a / 2) (suc a / 2) (b / 2) (omega arith) (omega arith),
)

-- a << k, and 1 << k
abbrev shift : ℕ → ℕ → ℕ
shift zero a = a
shift (suc k) a = 2 * shift k a

bit_or-zero_fuel : (n a : ℕ) → a ≤ n → bit_or a 0 ≡ a
bit_or-zero_fuel n zero h = refl
bit_or-zero_fuel zero (suc a) h = absurd (omega arith)
bit_or-zero_fuel (suc n) (suc a) h =
    omega (arith, bit_or_step (suc a) 0, bit_or-zero_fuel n (suc a / 2) (omega arith))

bit_or-shift : (k a b : ℕ) → b < shift k 1 → bit_or (shift k a) b ≡ shift k a + b
bit_or-shift zero a b lt =
    let none_set : b ≡ 0 = omega arith in
    ap (bit_or a) none_set ∙ bit_or-zero_fuel a a (omega arith) ∙ omega (arith, none_set)
bit_or-shift (suc k) a b lt =
    let half : 2 * shift k a / 2 ≡ shift k a = omega arith in
    omega (
      arith,
      bit_or_step (2 * shift k a) b,
      ap (λ x. bit_or x (b / 2)) half,
      bit_or-shift k a (b / 2) (omega arith),
    )

-- Every field has its own bytes.
pub record IsPacked (t : DateTime) : Type 0 where
  pub year_fits : t.year < 2 ^ 16
  pub month_fits : t.month < 2 ^ 8
  pub day_fits : t.day < 2 ^ 8
  pub hour_fits : t.hour < 2 ^ 8
  pub minute_fits : t.minute < 2 ^ 8
  pub second_fits : t.second < 2 ^ 8

-- A field below the bits of what is there, which is `t` so far.
or_at : (k t a x b : ℕ) → t ≡ a → a ≡ shift k x → b < shift k 1 → bit_or t b ≡ a + b
or_at k t a x b e f lt = ap (λ y. bit_or y b) (e ∙ f) ∙ omega (arith, bit_or-shift k x b lt, f)

module _ (t : DateTime) (h : IsPacked t) where
  abbrev sum1 : ℕ
  sum1 = t.year * 2 ^ 48 + t.month * 2 ^ 40

  abbrev sum2 : ℕ
  sum2 = sum1 + t.day * 2 ^ 32

  abbrev sum3 : ℕ
  sum3 = sum2 + t.hour * 2 ^ 24

  abbrev sum4 : ℕ
  sum4 = sum3 + t.minute * 2 ^ 16

  abbrev sum5 : ℕ
  sum5 = sum4 + t.second * 2 ^ 8

  pack_datetime-sum : pack_datetime t ≡ sum5
  unfolding pack_datetime
  pack_datetime-sum =
      let e1 =
        or_at 48 (t.year * 2 ^ 48) (t.year * 2 ^ 48) t.year (t.month * 2 ^ 40) refl (omega arith)
          (omega arith) in
      let e2 =
        or_at 40 _ sum1 (t.year * 256 + t.month) (t.day * 2 ^ 32) e1 (omega arith) (omega arith) in
      let e3 =
        or_at 32 _ sum2 ((t.year * 256 + t.month) * 256 + t.day) (t.hour * 2 ^ 24) e2 (omega arith)
          (omega arith) in
      let e4 =
        or_at 24 _ sum3 (((t.year * 256 + t.month) * 256 + t.day) * 256 + t.hour)
          (t.minute * 2 ^ 16) e3 (omega arith) (omega arith) in
      or_at 16 _ sum4 ((((t.year * 256 + t.month) * 256 + t.day) * 256 + t.hour) * 256 + t.minute)
        (t.second * 2 ^ 8) e4 (omega arith) (omega arith)

  pub unpack_datetime-pack_datetime : unpack_datetime (pack_datetime t) ≡ t
  unfolding unpack_datetime
  unpack_datetime-pack_datetime =
      let y : pack_datetime t / 2 ^ 48 % 2 ^ 16 ≡ t.year = omega (arith, pack_datetime-sum) in
      let mo : pack_datetime t / 2 ^ 40 % 2 ^ 8 ≡ t.month = omega (arith, pack_datetime-sum) in
      let d : pack_datetime t / 2 ^ 32 % 2 ^ 8 ≡ t.day = omega (arith, pack_datetime-sum) in
      let ho : pack_datetime t / 2 ^ 24 % 2 ^ 8 ≡ t.hour = omega (arith, pack_datetime-sum) in
      let mi : pack_datetime t / 2 ^ 16 % 2 ^ 8 ≡ t.minute = omega (arith, pack_datetime-sum) in
      let s : pack_datetime t / 2 ^ 8 % 2 ^ 8 ≡ t.second = omega (arith, pack_datetime-sum) in
      cc (y, mo, d, ho, mi, s)
