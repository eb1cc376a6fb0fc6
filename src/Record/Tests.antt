-- ===== src/Record/Tests.antt =====
-- A file of records of two bytes, whose page 1 has a record in its first slot.
use db_smw.Common.{
  ℕ, ◌<◌, ◌≡◌, ◌≢◌, inr, refl, subst, Bool, true, false, [], ◌∷◌, Option, none, some, arith,
}
use db_smw.Common.Int.{pos, minus_one}
use db_smw.Transaction.{Rid}
use db_smw.Record.Bitmap.{is_set, get_bucket, get_bit}
use db_smw.Record.File.{
  RmFileHdr, RmFile, value, overrun, slot_rid, get_record, insert_record, insert_record_at,
  delete_record, update_record,
}
use db_smw.Record.Contents.{After}
use db_smw.Record.Calls.{
  Deleted, insert_record_at-After, delete_record-Deleted, update_record-After,
}
use db_smw.Record.Reread.{get_record-update_record}
use db_smw.Record.Insert.{IsFile, Inserted, insert_record-Inserted}
use db_smw.Record.Create.{Sized, create_file_hdr, create_file_hdr-Sized}
use db_smw.Record.Scan.{next, next-overrun}
use db_smw.Record.Overrun.{insert_record-insert_record_at}

-- a file with so many slots in a page, of which the first is taken
abbrev small_file : ℕ → RmFile
small_file slots = record {
  file_hdr = record {
    record_size = 2;
    num_pages = 2;
    num_records_per_page = slots;
    first_free_page_no = pos 1;
    bitmap_size = 1;
  };
  stored_hdr = record {
    record_size = 2;
    num_pages = 2;
    num_records_per_page = slots;
    first_free_page_no = pos 1;
    bitmap_size = 1;
  };
  pages = λ n. record {
    next_free_page_no = minus_one;
    num_records = pos 1;
    bitmap = λ k. 128;
    slots = λ k. 7;
  };
  next_page_no = 2;
}

abbrev allow_all : Rid → Bool
allow_all rid = true

abbrev disk_works : RmFile → Option RmFileHdr
disk_works f = none

small_file-IsFile : IsFile (small_file 8)
unfolding is_set get_bucket get_bit
small_file-IsFile = record {
  bytes = λ n k. omega arith;
  covered = omega arith;
  some_slots = omega arith;
  fresh = refl;
  free =
      inr (
        1,
        refl,
        record { in_file = omega arith; slot = 1; in_page = omega arith; is_free = refl },
      );
}

insert_record-Inserted_example :
    Inserted disk_works allow_all
      (small_file 8)
      (3 ∷ 4 ∷ [])
      (insert_record disk_works allow_all (3 ∷ 4 ∷ []) (small_file 8))
insert_record-Inserted_example =
    insert_record-Inserted disk_works allow_all (3 ∷ 4 ∷ []) (small_file 8) small_file-IsFile refl

insert_record_at-After_example :
    After true
      (small_file 8)
      1
      5
      (some (3 ∷ 4 ∷ []))
      (insert_record_at (slot_rid 1 5) (3 ∷ 4 ∷ []) (small_file 8))
insert_record_at-After_example =
    insert_record_at-After (small_file 8) 1 5 (λ n k. omega arith) (omega arith) (omega arith)
      (3 ∷ 4 ∷ []) refl

delete_record-Deleted_example :
    Deleted disk_works true
      (small_file 8)
      1
      0
      (delete_record disk_works allow_all (slot_rid 1 0) (small_file 8))
delete_record-Deleted_example =
    delete_record-Deleted (small_file 8) 1 0 (λ n k. omega arith) (omega arith) (omega arith)
      disk_works allow_all

update_record-After_example :
    After true
      (small_file 8)
      1
      0
      (some (3 ∷ 4 ∷ []))
      (update_record allow_all (slot_rid 1 0) (3 ∷ 4 ∷ []) (small_file 8))
unfolding is_set get_bucket get_bit
update_record-After_example =
    update_record-After (small_file 8) 1 0 (λ n k. omega arith) (omega arith) (omega arith)
      allow_all (3 ∷ 4 ∷ []) refl refl

get_record-update_record_example :
    (g : RmFile) × (update_record allow_all (slot_rid 1 0) (3 ∷ 4 ∷ []) (small_file 8) ≡ value tt g)
    × (get_record allow_all (slot_rid 1 0) g ≡ value (3 ∷ 4 ∷ []) g)
    × (get_record allow_all (slot_rid 1 1) g ≡ value (7 ∷ 7 ∷ []) g)
unfolding get_record
get_record-update_record_example =
    get_record-update_record allow_all (small_file 8) 1 0 1 1 (3 ∷ 4 ∷ []) (7 ∷ 7 ∷ [])
      (omega arith) (omega arith) (omega arith) (omega arith) (inr (λ e. omega (arith, e))) refl
      refl refl

-- every bit of two but the second
first_set : (j : ℕ) → j < 2 → j ≢ 1 → is_set (λ k. 128) j ≡ true
unfolding is_set get_bucket get_bit
first_set j lt ne =
    let zeroth : 0 ≡ j = ground (arith, lt, ne) in
    subst (λ k. is_set (λ b. 128) k ≡ true) zeroth refl

insert_record-insert_record_at_example :
    (g : RmFile) × (insert_record_at (slot_rid 1 1) (3 ∷ 4 ∷ []) (small_file 2) ≡ value tt g)
    × (insert_record disk_works allow_all (5 ∷ 6 ∷ []) g ≡ overrun)
insert_record-insert_record_at_example =
    insert_record-insert_record_at disk_works allow_all (small_file 2) 1 1 (3 ∷ 4 ∷ []) (5 ∷ 6 ∷ [])
      (λ n k. omega arith) refl (omega arith) (omega arith) first_set refl

create_file_hdr-Sized_example : Sized (pos 100) (create_file_hdr (pos 100))
create_file_hdr-Sized_example = create_file_hdr-Sized (pos 100)

-- two slots to a page, and one page more
abbrev three_pages : RmFile
three_pages = record (small_file 2) { file_hdr = record (small_file 2).file_hdr { num_pages = 3 } }

second_free : (j : ℕ) → 0 < j → j < 2 → is_set (λ k. 128) j ≡ false
unfolding is_set get_bucket get_bit
second_free j ge lt =
    let second : 1 ≡ j = omega (arith, ge, lt) in
    subst (λ k. is_set (λ b. 128) k ≡ false) second refl

next-overrun_example : next (slot_rid 1 0) three_pages ≡ overrun
next-overrun_example = next-overrun three_pages 1 0 (omega arith) second_free
