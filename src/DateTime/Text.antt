-- ===== src/DateTime/Text.antt =====
-- `parse_datetime` accepts exactly the texts that `format_datetime` makes of valid dates and times.
use db_smw.Common.{
  ℕ, ◌≡◌, refl, sym, ap, ◌∙◌, ◌↔◌, Bool, true, false, if◌then◌else◌, none, some, List, arith,
}
use db_smw.DateTime.{
  DateTime, pack_datetime, format_datetime, well_formed, read_fields, in_range, parse_datetime,
}
use db_smw.DateTime.Fields.{in_range-IsSmall, IsDate, in_range-IsDate, IsDate-in_range}
use db_smw.DateTime.Print.{text, well_formed-text, read_fields-text, format-pack}
use db_smw.DateTime.Read.{text-read_fields}

tested :
    (a b : Bool) (x v : ℕ)
    → (if a then (if b then some x else none) else none) ≡ some v
    → (a ≡ true) × ((b ≡ true) × (x ≡ v))
tested true true x v e = (refl, (refl, ground (arith, e)))
tested true false x v e = absurd (cc e)
tested false b x v e = absurd (cc e)

passed :
    (a b : Bool) (x : ℕ)
    → a ≡ true
    → b ≡ true
    → (if a then (if b then some x else none) else none) ≡ some x
passed true true x e f = refl
passed true false x e f = absurd (cc f)
passed false b x e f = absurd (cc e)

parse_sound :
    (s : List ℕ) (v : ℕ)
    → parse_datetime s ≡ some v
    → (t : DateTime) × (IsDate t × ((v ≡ pack_datetime t) × (s ≡ format_datetime v)))
unfolding parse_datetime
parse_sound s v e =
    let t = read_fields s in
    let (wf, (ok, same)) = tested (well_formed s) (in_range t) (pack_datetime t) v e in
    (
      t,
      (
        in_range-IsDate t ok,
        (
          sym same,
          sym (text-read_fields s wf)
              ∙ sym (format-pack t (in_range-IsSmall t ok))
              ∙ ap format_datetime same,
        ),
      ),
    )

parse-text : (t : DateTime) → IsDate t → parse_datetime (text t) ≡ some (pack_datetime t)
unfolding parse_datetime
parse-text t d =
    let ok = IsDate-in_range t d in
    let same = read_fields-text t (in_range-IsSmall t ok) in
    passed (well_formed (text t)) (in_range (read_fields (text t)))
      (pack_datetime (read_fields (text t))) (well_formed-text t) (ap in_range same ∙ ok)
    ∙ ap (λ u. some (pack_datetime u)) same

parse_complete :
    (s : List ℕ) (v : ℕ) (t : DateTime)
    → IsDate t
    → v ≡ pack_datetime t
    → s ≡ format_datetime v
    → parse_datetime s ≡ some v
parse_complete s v t d packed written =
    let small = in_range-IsSmall t (IsDate-in_range t d) in
    ap parse_datetime (written ∙ ap format_datetime packed ∙ format-pack t small)
    ∙ parse-text t d
    ∙ ap some (sym packed)

-- For every text and every value: parse_datetime reads the text as the value exactly if the value is
-- the packed form of a date of the Gregorian calendar with a year from 1000 to 9999 and a time of day,
-- and the text is what format_datetime makes of the value.
pub parse_datetime-format_datetime :
    (s : List ℕ) (v : ℕ)
    → (parse_datetime s ≡ some v)
      ↔ ((t : DateTime) × (IsDate t × ((v ≡ pack_datetime t) × (s ≡ format_datetime v))))
parse_datetime-format_datetime s v =
    (parse_sound s v, λ (t, (d, (packed, written))). parse_complete s v t d packed written)
