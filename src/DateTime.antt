-- ===== src/DateTime.antt =====
-- common/datetime_util.h: dates and times as text and as packed 64-bit values. A packed value stands
-- for its bit pattern, a text is the list of its character codes, and `none` is InvalidDateTimeError.
pub mod Packed
pub mod Fields
pub mod Print
pub mod Read
pub mod Text
mod Tests
use Prim.Native.Nat.{bit_or}
use db_smw.Common.{
  ℕ, zero, suc, ◌+◌, ◌-◌, ◌*◌, ◌/◌, ◌%◌, ◌^◌, Bool, true, false, not, ◌&&◌, ◌||◌, if◌then◌else◌,
  ltb, leb, ◌==◌, Option, none, some, List, [], ◌∷◌, ◌++◌, length,
}

pub record DateTime : Type 0 where
  pub year : ℕ
  pub month : ℕ
  pub day : ℕ
  pub hour : ℕ
  pub minute : ℕ
  pub second : ℕ

unfoldable pub is_leap_year : ℕ → Bool
is_leap_year y = ((y % 4 == 0) && not (y % 100 == 0)) || (y % 400 == 0)

-- the table of `days_in_month`; past its end there is no value
abbrev pub days : ℕ → ℕ
days m =
    if m == 2
    then 28
    else if (m == 4) || ((m == 6) || ((m == 9) || (m == 11)))
    then 30
    else if m == 0
    then 0
    else 31

unfoldable pub days_in_month : ℕ → ℕ → ℕ
unfolding is_leap_year
days_in_month y m = if (m == 2) && is_leap_year y then 29 else days m

unfoldable pub pack_datetime : DateTime → ℕ
pack_datetime t =
    let s1 = bit_or (t.year * 2 ^ 48) (t.month * 2 ^ 40) in
    let s2 = bit_or s1 (t.day * 2 ^ 32) in
    let s3 = bit_or s2 (t.hour * 2 ^ 24) in
    bit_or (bit_or s3 (t.minute * 2 ^ 16)) (t.second * 2 ^ 8)

-- `& 0xFF` keeps the lowest byte, `& 0xFFFF` the lowest two.
unfoldable pub unpack_datetime : ℕ → DateTime
unpack_datetime v = record {
  year = v / 2 ^ 48 % 2 ^ 16;
  month = v / 2 ^ 40 % 2 ^ 8;
  day = v / 2 ^ 32 % 2 ^ 8;
  hour = v / 2 ^ 24 % 2 ^ 8;
  minute = v / 2 ^ 16 % 2 ^ 8;
  second = v / 2 ^ 8 % 2 ^ 8;
}

-- the character of a digit
abbrev pub digit : ℕ → ℕ
digit d = 48 + d % 10

-- `%02d`, of a number below 1000
unfoldable pub two_digits : ℕ → List ℕ
two_digits n =
    if ltb n 100
    then digit (n / 10) ∷ digit n ∷ []
    else digit (n / 100) ∷ digit (n / 10) ∷ digit n ∷ []

-- `%04d`, of a number below 100000
unfoldable pub four_digits : ℕ → List ℕ
four_digits n =
    let low = digit (n / 1000) ∷ digit (n / 100) ∷ digit (n / 10) ∷ digit n ∷ [] in
    if ltb n 10000 then low else digit (n / 10000) ∷ low

-- "%04d-%02d-%02d %02d:%02d:%02d"; at most 25 characters, for a buffer of 32
unfoldable pub print_datetime : DateTime → List ℕ
unfolding two_digits four_digits
print_datetime t =
    four_digits t.year
    ++ (45 ∷ two_digits t.month
        ++ (45 ∷ two_digits t.day
            ++ (32 ∷ two_digits t.hour
                ++ (58 ∷ two_digits t.minute ++ (58 ∷ two_digits t.second)))))

unfoldable pub format_datetime : ℕ → List ℕ
unfolding unpack_datetime print_datetime
format_datetime v = print_datetime (unpack_datetime v)

-- s[i]; every use is below the size
abbrev pub char_at : List ℕ → ℕ → ℕ
char_at [] i = 0
char_at (c ∷ s) zero = c
char_at (c ∷ s) (suc i) = char_at s i

abbrev pub is_digit : ℕ → Bool
is_digit c = leb 48 c && leb c 57

abbrev pub is_separator_place : ℕ → Bool
is_separator_place i = (i == 4) || ((i == 7) || ((i == 10) || ((i == 13) || (i == 16))))

-- the loop over the characters from `i` on, with `count` to go
unfoldable pub all_digits : ℕ → ℕ → List ℕ → Bool
all_digits zero i s = true
all_digits (suc count) i s =
    let rest = all_digits count (suc i) s in
    if is_separator_place i then rest else is_digit (char_at s i) && rest

unfoldable pub has_separators : List ℕ → Bool
has_separators s =
    (char_at s 4 == 45)
    && ((char_at s 7 == 45)
        && ((char_at s 10 == 32) && ((char_at s 13 == 58) && (char_at s 16 == 58))))

-- the tests before the numbers are read
unfoldable pub well_formed : List ℕ → Bool
unfolding all_digits has_separators
well_formed s = (length s == 19) && (has_separators s && all_digits 19 0 s)

-- std::stoi(s.substr(i, 2)) and std::stoi(s.substr(i, 4)), of digits
abbrev pub two_at : List ℕ → ℕ → ℕ
two_at s i = (char_at s i - 48) * 10 + (char_at s (suc i) - 48)

abbrev pub four_at : List ℕ → ℕ → ℕ
four_at s i = two_at s i * 100 + two_at s (suc (suc i))

unfoldable pub read_fields : List ℕ → DateTime
read_fields s = record {
  year = four_at s 0;
  month = two_at s 5;
  day = two_at s 8;
  hour = two_at s 11;
  minute = two_at s 14;
  second = two_at s 17;
}

-- the tests on the numbers; none of them is negative
unfoldable pub in_range : DateTime → Bool
unfolding days_in_month
in_range t =
    (leb 1000 t.year && leb t.year 9999)
    && ((leb 1 t.month && leb t.month 12)
        && ((leb 1 t.day && leb t.day (days_in_month t.year t.month))
            && (leb t.hour 23 && (leb t.minute 59 && leb t.second 59))))

unfoldable pub parse_datetime : List ℕ → Option ℕ
unfolding well_formed read_fields in_range pack_datetime
parse_datetime s =
    if well_formed s
    then (if in_range (read_fields s) then some (pack_datetime (read_fields s)) else none)
    else none
