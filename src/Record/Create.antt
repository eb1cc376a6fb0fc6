-- ===== src/Record/Create.antt =====
-- record/rm_manager.h: the header that `RmManager::create_file` computes, and the layout of a page.
use db_smw.Common.{
  ℕ, ◌+◌, ◌-◌, ◌*◌, ◌/◌, ◌≤◌, ◌<◌, ◌≡◌, ◌⊎◌, inl, inr, refl, sym, subst, ◌||◌, if◌then◌else◌, ltb,
  Option, none, some, arith, Bool-cases,
}
use db_smw.Common.Int.{ℤ, pos, negsuc, minus_one}
use db_smw.Storage.Disk.{page_size}
use db_smw.Record.Bitmap.{bitmap_width}
use db_smw.Record.File.{RmFileHdr}

abbrev pub rm_max_record_size : ℕ
rm_max_record_size = 512

-- sizeof(RmFileHdr): five fields of type `int`
abbrev pub sizeof_file_hdr : ℕ
sizeof_file_hdr = 20

-- `none` is InvalidRecordSizeError
unfoldable pub create_file_hdr : ℤ → Option RmFileHdr
create_file_hdr (negsuc below) = none
create_file_hdr (pos record_size) =
    let n =
      (bitmap_width * (page_size - 1 - sizeof_file_hdr) + 1) / (1 + record_size * bitmap_width) in
    if ltb record_size 1 || ltb rm_max_record_size record_size
    then none
    else some (record {
      record_size = record_size;
      num_pages = 1;
      num_records_per_page = n;
      first_free_page_no = minus_one;
      bitmap_size = (n + bitmap_width - 1) / bitmap_width;
    })

-- the bytes before `page_hdr`, which is two fields of type `int`
abbrev pub offset_page_hdr : ℕ
offset_page_hdr = 4

abbrev pub sizeof_page_hdr : ℕ
sizeof_page_hdr = 8

-- Where the last slot ends, as the constructor of `RmPageHandle` lays a page out.
abbrev pub slots_end : RmFileHdr → ℕ
slots_end hdr =
    offset_page_hdr + sizeof_page_hdr + hdr.bitmap_size + hdr.num_records_per_page * hdr.record_size

abbrev pub Sized : ℤ → Option RmFileHdr → Type 0
Sized (negsuc below) none = Unit
Sized (negsuc below) (some hdr) = ⊥
Sized (pos record_size) none = (record_size < 1) ⊎ (rm_max_record_size < record_size)
Sized (pos record_size) (some hdr) =
    ((1 ≤ record_size) × (record_size ≤ rm_max_record_size))
    × (hdr.record_size ≡ record_size)
    × (0 < hdr.num_records_per_page)
    × (hdr.num_records_per_page ≤ bitmap_width * hdr.bitmap_size)
    × (slots_end hdr ≤ page_size)

fits_lem : (r n : ℕ) → n * (1 + r * 8) ≤ 32601 → 12 + (n + 8 - 1) / 8 + n * r ≤ 4096
fits_lem r n le = grind (arith, le)

div_le : (a d : ℕ) → 0 < d → a / d * d ≤ a
div_le a d lt = grind (arith, lt)

div_pos : (a d : ℕ) → 0 < d → d ≤ a → 0 < a / d
div_pos a d lt le = grind (arith, lt, le)

sized_lem :
    (r n : ℕ)
    → 1 ≤ r
    → r ≤ 512
    → n ≡ 32601 / (1 + r * 8)
    → (0 < n) × (n ≤ 8 * ((n + 8 - 1) / 8)) × (12 + (n + 8 - 1) / 8 + n * r ≤ 4096)
sized_lem r n ge le e =
    let covered = div_le 32601 (1 + r * 8) (omega arith) in
    let some_slots = div_pos 32601 (1 + r * 8) (omega arith) (omega (arith, le)) in
    (
      omega (arith, e, some_slots),
      omega arith,
      fits_lem r n (subst (λ k. k * (1 + r * 8) ≤ 32601) (sym e) covered),
    )

-- For every record size: if it is from 1 to RM_MAX_RECORD_SIZE, the header that `create_file` writes has at least one
-- slot in a page, its bitmap has a bit for each slot, and header, bitmap and slots end within the page;
-- for any other size, negative ones included, the call throws.
pub create_file_hdr-Sized : (record_size : ℤ) → Sized record_size (create_file_hdr record_size)
unfolding create_file_hdr
create_file_hdr-Sized (negsuc below) = tt
create_file_hdr-Sized (pos record_size) =
    let n =
      (bitmap_width * (page_size - 1 - sizeof_file_hdr) + 1) / (1 + record_size * bitmap_width) in
    elim (Bool-cases (ltb record_size 1 || ltb rm_max_record_size record_size)) [
      | inl e ↦ rw e (ground (arith, e))
      | inr e ↦
          let (some_slots, covered, fits) =
            sized_lem record_size n (ground (arith, e)) (ground (arith, e)) refl in
          rw e ((ground (arith, e), ground (arith, e)), refl, some_slots, covered, fits)
    ]
