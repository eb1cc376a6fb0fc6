-- ===== src/DateTime/Tests.antt =====
-- Runs on concrete texts and values.
use db_smw.Common.{ℕ, ◌≡◌, ◌↔◌, refl, none, some, List, [], ◌∷◌}
use db_smw.DateTime.{DateTime, pack_datetime, format_datetime, parse_datetime}
use db_smw.DateTime.Fields.{IsDate}
use db_smw.DateTime.Text.{parse_datetime-format_datetime}

-- "2024-02-29 23:59:59"
abbrev leap_day : List ℕ
leap_day =
    50 ∷ 48 ∷ 50 ∷ 52 ∷ 45 ∷ 48 ∷ 50 ∷ 45 ∷ 50 ∷ 57 ∷ 32 ∷ 50 ∷ 51 ∷ 58 ∷ 53 ∷ 57 ∷ 58 ∷ 53 ∷ 57
    ∷ []

-- "2023-02-29 23:59:59"
abbrev no_leap_day : List ℕ
no_leap_day =
    50 ∷ 48 ∷ 50 ∷ 51 ∷ 45 ∷ 48 ∷ 50 ∷ 45 ∷ 50 ∷ 57 ∷ 32 ∷ 50 ∷ 51 ∷ 58 ∷ 53 ∷ 57 ∷ 58 ∷ 53 ∷ 57
    ∷ []

abbrev leap_day_fields : DateTime
leap_day_fields = record { year = 2024; month = 2; day = 29; hour = 23; minute = 59; second = 59 }

parse_run : parse_datetime leap_day ≡ some (pack_datetime leap_day_fields)
unfolding parse_datetime
parse_run = refl

format_run : format_datetime (pack_datetime leap_day_fields) ≡ leap_day
unfolding format_datetime pack_datetime
format_run = refl

no_leap_day_run : parse_datetime no_leap_day ≡ none
unfolding parse_datetime
no_leap_day_run = refl

parse_datetime-format_datetime_example : (parse_datetime leap_day ≡ some 569707676829432576) ↔ (
    (t : DateTime) × (IsDate t
      × ((569707676829432576 ≡ pack_datetime t) × (leap_day ≡ format_datetime 569707676829432576))))
parse_datetime-format_datetime_example = parse_datetime-format_datetime leap_day 569707676829432576
