-- ===== src/Record/Overrun.antt =====
-- A page that `insert_record` at a rid has filled stays the first of the free pages.
use db_smw.Common.{
  ℕ, ◌<◌, ◌≡◌, ◌≢◌, inl, inr, refl, sym, ap, ◌∙◌, Bool, true, false, List, arith, ltb, Option, some,
  if_pos, if_neg, ℕ_discrete,
}
use db_smw.Common.Int.{pos, minus_one, ℤ_discrete}
use db_smw.Transaction.{Rid}
use db_smw.Record.Bitmap.{Bytes, is_set, first_bit}
use db_smw.Record.Bitmap.Search.{next_bit-NextAfter}
use db_smw.Record.File.{
  RmFileHdr, RmFile, RmPage, value, overrun, slot_rid, put_page, fetch_page_handle,
  create_page_handle, on_page, fill_slot, insert_slot, insert_into, insert_on, insert_record,
  insert_record_at,
}
use db_smw.Record.Contents.{fetch_page_handle_lem, IsBitmaps, with_slot_lem, set_lem}

no_free :
    (bm : Bytes) (max_n : ℕ)
    → ((j : ℕ) → j < max_n → is_set bm j ≡ true)
    → first_bit false bm max_n ≡ some max_n
unfolding first_bit
no_free bm max_n full =
    let (r, same, next) = next_bit-NextAfter false bm max_n minus_one in
    elim next.found [
      | inl last ↦ same ∙ ap some last
      | inr (start, lt, unset) ↦ absurd (ground (arith, full r lt, unset))
    ]

pub insert_record-full :
    (put_hdr : RmFile → Option RmFileHdr) (may_lock : Rid → Bool) (f : RmFile) (n : ℕ)
    (buf : List ℕ)
    → f.file_hdr.first_free_page_no ≡ pos n
    → n < f.file_hdr.num_pages
    → ((j : ℕ) → j < f.file_hdr.num_records_per_page → is_set (f.pages n).bitmap j ≡ true)
    → may_lock (slot_rid n f.file_hdr.num_records_per_page) ≡ true
    → insert_record put_hdr may_lock buf f ≡ overrun
unfolding insert_record insert_on insert_into insert_slot create_page_handle
insert_record-full put_hdr may_lock f n buf e n_in full granted =
    let first = f.file_hdr.first_free_page_no in
    let max_n = f.file_hdr.num_records_per_page in
    let other : first ≢ minus_one = λ x. ground (arith, sym e ∙ x) in
    let past : ltb max_n max_n ≡ false = ground arith in
    ap (insert_on put_hdr may_lock buf) (
      if_neg (ℤ_discrete first minus_one) other _ _
      ∙ ap (on_page f) (ap (λ z. fetch_page_handle z f) e ∙ fetch_page_handle_lem f n n_in))
    ∙ ap (insert_slot put_hdr may_lock n buf f) (no_free (f.pages n).bitmap max_n full)
    ∙ rw (granted, past) refl

-- On a file whose first free page has one free slot: after `insert_record` at that slot's rid, as the
-- undoing of a deletion calls it, the next `insert_record` whose lock is granted writes behind the slots.
pub insert_record-insert_record_at :
    (put_hdr : RmFile → Option RmFileHdr) (may_lock : Rid → Bool) (f : RmFile) (n i : ℕ)
    (buf next_buf : List ℕ)
    → IsBitmaps f
    → f.file_hdr.first_free_page_no ≡ pos n
    → n < f.file_hdr.num_pages
    → i < f.file_hdr.num_records_per_page
    → ((j : ℕ) → j < f.file_hdr.num_records_per_page → j ≢ i → is_set (f.pages n).bitmap j ≡ true)
    → may_lock (slot_rid n f.file_hdr.num_records_per_page) ≡ true
    → (g : RmFile) × (insert_record_at (slot_rid n i) buf f ≡ value tt g)
      × (insert_record put_hdr may_lock next_buf g ≡ overrun)
unfolding insert_record_at fill_slot
insert_record-insert_record_at put_hdr may_lock f n i buf next_buf bytes e n_in i_in others
      granted =
    let filled = fill_slot f.file_hdr i buf (f.pages n) in
    let g = put_page n filled f in
    let same = if_pos (ℕ_discrete n n) refl filled (f.pages n) in
    let full = λ (j : ℕ) (lt : j < f.file_hdr.num_records_per_page).
      ap (λ (p : RmPage). is_set p.bitmap j) same
      ∙ set_lem f n i bytes j
      ∙ ground (arith, others j lt) in
    (
      g,
      with_slot_lem n i f _ n_in i_in,
      insert_record-full put_hdr may_lock g n next_buf e n_in full granted,
    )
