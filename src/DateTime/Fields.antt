-- ===== src/DateTime/Fields.antt =====
-- The numbers of a date and time, and the tests that `parse_datetime` makes on them.
use db_smw.Common.{
  ℕ, suc, ◌*◌, ◌/◌, ◌%◌, ◌≤◌, ◌≡◌, ◌≢◌, ◌⊎◌, inl, inr, sym, subst, ℕ_discrete, Bool-cases, refl,
  Bool, true, false, ◌&&◌, leb, ◌==◌, arith,
}
use db_smw.DateTime.{DateTime, in_range, days_in_month, is_leap_year}
use db_smw.DateTime.Packed.{IsPacked}

days_in_month-small : (y m : ℕ) → days_in_month y m ≤ 31
unfolding days_in_month is_leap_year
days_in_month-small y m = ground arith

-- What a valid date and time's numbers are bounded by.
pub record IsSmall (t : DateTime) : Type 0 where
  pub years : t.year ≤ 9999
  pub months : t.month ≤ 12
  pub day_bound : t.day ≤ 31
  pub hours : t.hour ≤ 23
  pub minutes : t.minute ≤ 59
  pub seconds : t.second ≤ 59

pub in_range-IsSmall : (t : DateTime) → in_range t ≡ true → IsSmall t
unfolding in_range
in_range-IsSmall t e = record {
  years = ground arith;
  months = ground arith;
  day_bound = ground (arith, days_in_month-small t.year t.month);
  hours = ground arith;
  minutes = ground arith;
  seconds = ground arith;
}

pub IsSmall-IsPacked : (t : DateTime) → IsSmall t → IsPacked t
IsSmall-IsPacked t h = record {
  year_fits = omega arith;
  month_fits = omega arith;
  day_fits = omega arith;
  hour_fits = omega arith;
  minute_fits = omega arith;
  second_fits = omega arith;
}

pub both : (a b : Bool) → (a && b) ≡ true → (a ≡ true) × (b ≡ true)
both true b e = (refl, e)
both false b e = absurd (cc e)

pub same_number : (n m : ℕ) → (n == m) ≡ true → n ≡ m
same_number n m e = ground arith

-- The rule of the Gregorian calendar: every fourth year, but of the full centuries only every fourth.
abbrev pub IsLeap : ℕ → Type 0
IsLeap y = ((k : ℕ) × (y ≡ 4 * k) × ((c : ℕ) → y ≢ 100 * c)) ⊎ ((k : ℕ) × (y ≡ 400 * k))

-- The last day of a month.
pub data LastDay (y : ℕ) : ℕ → ℕ → Type 0 where
  january : LastDay y 1 31
  february : ¬ IsLeap y → LastDay y 2 28
  february_leap : IsLeap y → LastDay y 2 29
  march : LastDay y 3 31
  april : LastDay y 4 30
  may : LastDay y 5 31
  june : LastDay y 6 30
  july : LastDay y 7 31
  august : LastDay y 8 31
  september : LastDay y 9 30
  october : LastDay y 10 31
  november : LastDay y 11 30
  december : LastDay y 12 31

-- A date of the Gregorian calendar in a year of four digits, and a time of day.
abbrev pub IsDate : DateTime → Type 0
IsDate t =
    ((1000 ≤ t.year) × (t.year ≤ 9999))
    × (((last : ℕ) × LastDay t.year t.month last × (1 ≤ t.day) × (t.day ≤ last))
        × ((t.hour ≤ 23) × ((t.minute ≤ 59) × (t.second ≤ 59))))

IsLeap-sound : (y : ℕ) → is_leap_year y ≡ true → IsLeap y
unfolding is_leap_year
IsLeap-sound y e = elim (ℕ_discrete (y % 400) 0) [
  | yes z ↦ inr (y / 400, omega (arith, z))
  | no ne ↦ inl (y / 4, ground (arith, ne, e), λ c same. ground (arith, ne, e, same))
]

IsLeap-complete : (y : ℕ) → IsLeap y → is_leap_year y ≡ true
unfolding is_leap_year
IsLeap-complete y (inr (k, e)) = let z : y % 400 ≡ 0 = omega (arith, e) in ground (arith, z)
IsLeap-complete y (inl (k, e, no_century)) =
    let four : y % 4 ≡ 0 = omega (arith, e) in
    let hundred : y % 100 ≢ 0 = λ z. no_century (y / 100) (omega (arith, z)) in
    ground (arith, four, hundred)

IsLeap-none : (y : ℕ) → ¬ IsLeap y → is_leap_year y ≡ false
IsLeap-none y h = elim (Bool-cases (is_leap_year y)) [
  | inl e ↦ absurd (h (IsLeap-sound y e))
  | inr e ↦ e
]

-- `days_in_month` is the last day.
LastDay-days_in_month : (y m last : ℕ) → LastDay y m last → days_in_month y m ≡ last
unfolding days_in_month
LastDay-days_in_month y _ _ january = refl
LastDay-days_in_month y _ _ (february h) = rw (IsLeap-none y h) refl
LastDay-days_in_month y _ _ (february_leap h) = rw (IsLeap-complete y h) refl
LastDay-days_in_month y _ _ march = refl
LastDay-days_in_month y _ _ april = refl
LastDay-days_in_month y _ _ may = refl
LastDay-days_in_month y _ _ june = refl
LastDay-days_in_month y _ _ july = refl
LastDay-days_in_month y _ _ august = refl
LastDay-days_in_month y _ _ september = refl
LastDay-days_in_month y _ _ october = refl
LastDay-days_in_month y _ _ november = refl
LastDay-days_in_month y _ _ december = refl

february_last : (y : ℕ) → LastDay y 2 (days_in_month y 2)
unfolding days_in_month
february_last y = elim (Bool-cases (is_leap_year y)) [
  | inl e ↦ rw e (february_leap (IsLeap-sound y e))
  | inr e ↦ rw e (february (λ h. cc (IsLeap-complete y h, e)))
]

-- One number more.
up_to :
    (P : ℕ → Type 0) (k : ℕ)
    → ((m : ℕ) → 1 ≤ m → m ≤ k → P m)
    → P (suc k)
    → (m : ℕ) → 1 ≤ m
    → m ≤ suc k
    → P m
up_to P k below here m ge le = elim (ℕ_discrete m (suc k)) [
  | yes e ↦ subst P (sym e) here
  | no ne ↦ below m ge (omega (arith, ne, le))
]

last_day : (y m : ℕ) → 1 ≤ m → m ≤ 12 → LastDay y m (days_in_month y m)
unfolding days_in_month
last_day y =
    let P = λ (m : ℕ). LastDay y m (days_in_month y m) in
    let first = up_to P 0 (λ m ge le. absurd (omega (arith, ge, le))) january in
    let to_march = up_to P 2 (up_to P 1 first (february_last y)) march in
    let to_june = up_to P 5 (up_to P 4 (up_to P 3 to_march april) may) june in
    let to_september = up_to P 8 (up_to P 7 (up_to P 6 to_june july) august) september in
    up_to P 11 (up_to P 10 (up_to P 9 to_september october) november) december

-- A month that has a last day is one of the twelve.
LastDay-month : (y m last : ℕ) → LastDay y m last → (1 ≤ m) × (m ≤ 12)
LastDay-month y _ _ january = (omega arith, omega arith)
LastDay-month y _ _ (february h) = (omega arith, omega arith)
LastDay-month y _ _ (february_leap h) = (omega arith, omega arith)
LastDay-month y _ _ march = (omega arith, omega arith)
LastDay-month y _ _ april = (omega arith, omega arith)
LastDay-month y _ _ may = (omega arith, omega arith)
LastDay-month y _ _ june = (omega arith, omega arith)
LastDay-month y _ _ july = (omega arith, omega arith)
LastDay-month y _ _ august = (omega arith, omega arith)
LastDay-month y _ _ september = (omega arith, omega arith)
LastDay-month y _ _ october = (omega arith, omega arith)
LastDay-month y _ _ november = (omega arith, omega arith)
LastDay-month y _ _ december = (omega arith, omega arith)

leb-le : (a b : ℕ) → leb a b ≡ true → a ≤ b
leb-le a b e = ground arith

le-leb : (a b : ℕ) → a ≤ b → leb a b ≡ true
le-leb a b le = ground arith

pub in_range-IsDate : (t : DateTime) → in_range t ≡ true → IsDate t
unfolding in_range
in_range-IsDate t e =
    let (y, e1) = both (leb 1000 t.year && leb t.year 9999) _ e in
    let (m, e2) = both (leb 1 t.month && leb t.month 12) _ e1 in
    let (d, e3) = both (leb 1 t.day && leb t.day (days_in_month t.year t.month)) _ e2 in
    let (h, e4) = both (leb t.hour 23) _ e3 in
    let (mi, sec) = both (leb t.minute 59) (leb t.second 59) e4 in
    let (from, to) = range 1 t.month 12 m in
    let (ge, le) = range 1 t.day (days_in_month t.year t.month) d in
    (
      range 1000 t.year 9999 y,
      (
        (days_in_month t.year t.month, last_day t.year t.month from to, ge, le),
        (leb-le t.hour 23 h, (leb-le t.minute 59 mi, leb-le t.second 59 sec)),
      ),
    )
  where
    range : (a b c : ℕ) → (leb a b && leb b c) ≡ true → (a ≤ b) × (b ≤ c)
    range a b c e = let (l, r) = both (leb a b) (leb b c) e in (leb-le a b l, leb-le b c r)

pub IsDate-in_range : (t : DateTime) → IsDate t → in_range t ≡ true
unfolding in_range
IsDate-in_range t ((y, y9), ((last, is_last, d, d_last), (h, (mi, sec)))) =
    let (m, m12) = LastDay-month t.year t.month last is_last in
    let same = LastDay-days_in_month t.year t.month last is_last in
    let dm : t.day ≤ days_in_month t.year t.month = omega (arith, same, d_last) in
    rw
      (
        le-leb 1000 t.year y,
        le-leb t.year 9999 y9,
        le-leb 1 t.month m,
        le-leb t.month 12 m12,
        le-leb 1 t.day d,
        le-leb t.day (days_in_month t.year t.month) dm,
        le-leb t.hour 23 h,
        le-leb t.minute 59 mi,
        le-leb t.second 59 sec,
      )
      refl
