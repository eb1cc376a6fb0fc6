-- ===== src/DateTime/Print.antt =====
-- The text of a valid date and time, and what `parse_datetime` reads in it.
use db_smw.Common.{ℕ, ◌/◌, ◌<◌, ◌≡◌, refl, ap, ◌∙◌, Bool, true, ◌&&◌, List, [], ◌∷◌, arith}
use db_smw.DateTime.{
  DateTime, pack_datetime, digit, two_digits, four_digits, print_datetime, format_datetime,
  is_digit, all_digits, has_separators, well_formed, two_at, four_at, read_fields,
}
use db_smw.DateTime.Packed.{unpack_datetime-pack_datetime}
use db_smw.DateTime.Fields.{IsSmall, IsSmall-IsPacked}

two_digits-short : (n : ℕ) → n < 100 → two_digits n ≡ digit (n / 10) ∷ digit n ∷ []
unfolding two_digits
two_digits-short n lt = ground arith

four_digits-short :
    (n : ℕ)
    → n < 10000
    → four_digits n ≡ digit (n / 1000) ∷ digit (n / 100) ∷ digit (n / 10) ∷ digit n ∷ []
unfolding four_digits
four_digits-short n lt = ground arith

-- The text of a valid date and time, written out.
abbrev pub text : DateTime → List ℕ
text t =
    digit (t.year / 1000)
    ∷ digit (t.year / 100)
    ∷ digit (t.year / 10)
    ∷ digit t.year
    ∷ 45
    ∷ digit (t.month / 10)
    ∷ digit t.month
    ∷ 45
    ∷ digit (t.day / 10)
    ∷ digit t.day
    ∷ 32
    ∷ digit (t.hour / 10)
    ∷ digit t.hour
    ∷ 58
    ∷ digit (t.minute / 10)
    ∷ digit t.minute
    ∷ 58
    ∷ digit (t.second / 10)
    ∷ digit t.second
    ∷ []

print_datetime-text : (t : DateTime) → IsSmall t → print_datetime t ≡ text t
unfolding print_datetime
print_datetime-text t h =
    let y = four_digits-short t.year (omega arith) in
    let mo = two_digits-short t.month (omega arith) in
    let d = two_digits-short t.day (omega arith) in
    let ho = two_digits-short t.hour (omega arith) in
    let mi = two_digits-short t.minute (omega arith) in
    let s = two_digits-short t.second (omega arith) in cc (y, mo, d, ho, mi, s)

is_digit-digit : (d : ℕ) → is_digit (digit d) ≡ true
is_digit-digit d = ground arith

pub well_formed-text : (t : DateTime) → well_formed (text t) ≡ true
unfolding well_formed has_separators all_digits
well_formed-text t = one_more (t.year / 1000) (
    one_more (t.year / 100) (
      one_more (t.year / 10) (
        one_more t.year (
          one_more (t.month / 10) (
            one_more t.month (
              one_more (t.day / 10) (
                one_more t.day (
                  one_more (t.hour / 10) (
                    one_more t.hour (
                      one_more (t.minute / 10) (
                        one_more t.minute
                          (one_more (t.second / 10) (one_more t.second refl)))))))))))))
  where
    one_more : (d : ℕ) {rest : Bool} → rest ≡ true → (is_digit (digit d) && rest) ≡ true
    one_more d e = ground (arith, is_digit-digit d, e)

pub read_fields-text : (t : DateTime) → IsSmall t → read_fields (text t) ≡ t
unfolding read_fields
read_fields-text t h =
    let y : four_at (text t) 0 ≡ t.year = omega arith in
    let mo : two_at (text t) 5 ≡ t.month = omega arith in
    let d : two_at (text t) 8 ≡ t.day = omega arith in
    let ho : two_at (text t) 11 ≡ t.hour = omega arith in
    let mi : two_at (text t) 14 ≡ t.minute = omega arith in
    let s : two_at (text t) 17 ≡ t.second = omega arith in cc (y, mo, d, ho, mi, s)

pub format-pack : (t : DateTime) → IsSmall t → format_datetime (pack_datetime t) ≡ text t
unfolding format_datetime
format-pack t h =
    ap print_datetime (unpack_datetime-pack_datetime t (IsSmall-IsPacked t h))
    ∙ print_datetime-text t h
