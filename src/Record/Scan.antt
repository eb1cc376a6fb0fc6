-- ===== src/Record/Scan.antt =====
-- record/rm_scan.cpp: the scan of the records of a file. A shift by a negative count, which has no value,
-- is `overrun`.
use db_smw.Common.{
  ℕ, zero, suc, ◌-◌, ◌≤◌, ◌<◌, ◌≡◌, ◌⊎◌, inl, inr, refl, ap, ◌∙◌, Bool, true, false, if◌then◌else◌,
  ltb, ite, Option, none, some, arith,
}
use db_smw.Common.Int.{ℤ, pos, negsuc, minus_one, ℤ_discrete}
use db_smw.Transaction.{Rid}
use db_smw.Record.Bitmap.{is_set, first_bit, next_bit}
use db_smw.Record.Bitmap.Search.{next_bit-NextAfter}
use db_smw.Record.File.{
  RmFile, Answer, value, page_not_exist, lock_refused, write_failed, overrun, slot_rid,
}

abbrev pub rm_first_record_page : ℕ
rm_first_record_page = 1

abbrev pub end_rid : Rid
end_rid = record { page_no = minus_one; slot_no = minus_one }

-- the result of the bit's search on page `n`; `rest` is the loop from the next page on
abbrev pub found_on : ℕ → RmFile → Option ℕ → Answer Rid → Answer Rid
found_on n f none rest = overrun
found_on n f (some i) rest =
    if ltb i f.file_hdr.num_records_per_page then value (slot_rid n i) f else rest

-- the loop of the constructor from page `n`, with `count` pages to go
unfoldable pub scan_start : ℕ → ℕ → RmFile → Answer Rid
unfolding first_bit
scan_start zero n f = value end_rid f
scan_start (suc count) n f =
    let rest = scan_start count (suc n) f in
    found_on n f (first_bit true (f.pages n).bitmap f.file_hdr.num_records_per_page) rest

-- RmScan::RmScan
unfoldable pub new_scan : RmFile → Answer Rid
unfolding scan_start
new_scan f = scan_start (f.file_hdr.num_pages - rm_first_record_page) rm_first_record_page f

-- the loop of `next`: from the second page on `slot_no - 1` is -2
unfoldable pub scan_next : ℕ → ℕ → ℤ → RmFile → Answer Rid
unfolding next_bit
scan_next zero n curr f = value end_rid f
scan_next (suc count) n curr f =
    let rest = scan_next count (suc n) (negsuc 1) f in
    found_on n f (next_bit true (f.pages n).bitmap f.file_hdr.num_records_per_page curr) rest

-- RmScan::next; at the end the page number is -1, for which `fetch_page_handle` throws
unfoldable pub next : Rid → RmFile → Answer Rid
unfolding scan_next
next rid f = elim rid.page_no [
  | pos n ↦ scan_next (f.file_hdr.num_pages - n) n rid.slot_no f
  | negsuc n ↦ page_not_exist f
]

unfoldable pub is_end : Rid → Bool
unfolding ℤ_discrete
is_end rid =
    ite (ℤ_discrete rid.page_no minus_one) (ite (ℤ_discrete rid.slot_no minus_one) true false) false

-- No record from page `n` on, before page `p` and before slot `i` of it.
abbrev pub Skipped : RmFile → ℕ → ℕ → ℕ → Type 0
Skipped f n p i =
    (m j : ℕ)
    → n ≤ m
    → j < f.file_hdr.num_records_per_page
    → (m < p) ⊎ ((m ≡ p) × (j < i))
    → is_set (f.pages m).bitmap j ≡ false

-- The first record of the pages from `n` to `last`, or the end, where they have none.
abbrev pub FirstFrom : RmFile → ℕ → ℕ → Answer Rid → Type 0
FirstFrom f n last (value r g) =
    (g ≡ f)
    × (((r ≡ end_rid) × Skipped f n last 0)
        ⊎ ((p : ℕ) × (i : ℕ) × (r ≡ slot_rid p i)
            × (p < last)
            × (i < f.file_hdr.num_records_per_page)
            × (is_set (f.pages p).bitmap i ≡ true)
            × Skipped f n p i))
FirstFrom f n last (page_not_exist g) = ⊥
FirstFrom f n last (lock_refused g) = ⊥
FirstFrom f n last (write_failed g) = ⊥
FirstFrom f n last overrun = ⊥

two_left : (a n : ℕ) → suc n < a → (c : ℕ) × (a - n ≡ suc (suc c))
two_left a n lt = (a - n - 2, omega (arith, lt))

-- Where a page that is not the last has no record behind slot `i`, `next` shifts by a negative count.
pub next-overrun :
    (f : RmFile) (n i : ℕ)
    → suc n < f.file_hdr.num_pages
    → ((j : ℕ) → i < j → j < f.file_hdr.num_records_per_page → is_set (f.pages n).bitmap j ≡ false)
    → next (slot_rid n i) f ≡ overrun
unfolding next scan_next
next-overrun f n i lt no_more =
    let max_n = f.file_hdr.num_records_per_page in
    let (c, left) = two_left f.file_hdr.num_pages n lt in
    let (r, same, found) = next_bit-NextAfter true (f.pages n).bitmap max_n (pos i) in
    let past : r ≡ max_n = elim found.found [
      | inl over ↦ over
      | inr (ge, less, set) ↦ absurd (ground (arith, no_more r ge less, set))
    ] in
    let over : ltb r max_n ≡ false = ground (arith, past) in
    ap (λ k. scan_next k n (pos i) f) left
    ∙ ap (λ o. found_on n f o (scan_next (suc c) (suc n) (negsuc 1) f)) same
    ∙ rw over refl
