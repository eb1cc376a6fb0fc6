-- ===== src/Record/File.antt =====
-- record/rm_file_handle.cpp: a file of records of one size. The pages are those that the buffer pool
-- brings: a page that it cannot bring is left out, and so are the pins. The lock manager's answer to a
-- request for a record is the parameter `may_lock`; what the disk makes of a write of the file's header
-- is the parameter `put_hdr`: `none` if every byte is written, else what a short write leaves on the page.
use db_smw.Common.{
  ℕ, suc, ◌*◌, Bool, false, List, if◌then◌else◌, ite, ltb, update, Option, none, some,
}
use db_smw.Common.Int.{ℤ, pos, negsuc, minus_one, suc_ℤ, pred_ℤ, ℤ_discrete}
use db_smw.Common.Memory.{Memory, read_at, write_at}
use db_smw.Transaction.{Rid}
use db_smw.Record.Bitmap.{Bytes, init, set, reset, is_set, first_bit}

pub record RmFileHdr : Type 0 where
  pub record_size : ℕ
  pub num_pages : ℕ
  pub num_records_per_page : ℕ
  pub first_free_page_no : ℤ
  pub bitmap_size : ℕ

-- `RmPageHdr`, the bitmap and the slots of a page
pub record RmPage : Type 0 where
  pub next_free_page_no : ℤ
  pub num_records : ℤ
  pub bitmap : Bytes
  pub slots : Memory

pub record RmFile : Type 0 where
  pub file_hdr : RmFileHdr
  -- page RM_FILE_HDR_PAGE on the disk
  pub stored_hdr : RmFileHdr
  pub pages : ℕ → RmPage
  -- what `allocate_page` gives next
  pub next_page_no : ℕ

-- How a call ends; `write_failed` is the InternalError of `write_page`, `overrun` is an access outside of
-- the slots of a page.
pub data Answer (A : Type 0) : Type 0 where
  value : A → RmFile → Answer A
  page_not_exist lock_refused write_failed : RmFile → Answer A
  overrun : Answer A

abbrev pub slot_rid : ℕ → ℕ → Rid
slot_rid page_no slot_no = record { page_no = pos page_no; slot_no = pos slot_no }

abbrev pub put_page : ℕ → RmPage → RmFile → RmFile
put_page n page f = record f { pages = update f.pages n page }

-- the number of the page, where the file has it
unfoldable pub fetch_page_handle : ℤ → RmFile → Option ℕ
fetch_page_handle (negsuc n) f = none
fetch_page_handle (pos n) f = if ltb n f.file_hdr.num_pages then some n else none

-- A page with no records, which is the first of the free pages of the file.
unfoldable pub with_new_page : RmFile → RmFile
unfolding init
with_new_page f =
    let n = f.next_page_no in
    let page = f.pages n in
    record f {
      file_hdr = record f.file_hdr {
        num_pages = suc f.file_hdr.num_pages;
        first_free_page_no = pos n;
      };
      pages = update f.pages n (record page {
        next_free_page_no = minus_one;
        num_records = pos 0;
        bitmap = init page.bitmap f.file_hdr.bitmap_size;
      });
      next_page_no = suc n;
    }

abbrev pub on_page : RmFile → Option ℕ → Answer ℕ
on_page f none = page_not_exist f
on_page f (some n) = value n f

module _ (put_hdr : RmFile → Option RmFileHdr) where
  -- disk_manager_->write_page(fd_, RM_FILE_HDR_PAGE, ...) as the last step of a call
  unfoldable pub write_hdr : {A : Type 0} → A → RmFile → Answer A
  write_hdr a f = elim (put_hdr f) [
    | none ↦ value a (record f { stored_hdr = f.file_hdr })
    | some torn ↦ write_failed (record f { stored_hdr = torn })
  ]

  unfoldable pub create_new_page_handle : RmFile → Answer ℕ
  unfolding write_hdr with_new_page
  create_new_page_handle f = write_hdr f.next_page_no (with_new_page f)

  unfoldable pub create_page_handle : RmFile → Answer ℕ
  unfolding create_new_page_handle fetch_page_handle ℤ_discrete
  create_page_handle f =
      ite (ℤ_discrete f.file_hdr.first_free_page_no minus_one) (create_new_page_handle f)
        (on_page f (fetch_page_handle f.file_hdr.first_free_page_no f))

  -- the page that has become free again is the first of the free pages
  unfoldable pub release_page_handle : ℕ → RmFile → Answer Unit
  unfolding write_hdr
  release_page_handle n f =
      let linked =
        put_page n (record (f.pages n) { next_free_page_no = f.file_hdr.first_free_page_no }) f in
      write_hdr tt (record linked { file_hdr = record f.file_hdr { first_free_page_no = pos n } })

  -- a page that is full is no longer the first of the free pages
  unfoldable pub leave_full : Rid → ℕ → RmFile → Answer Rid
  unfolding write_hdr ℤ_discrete
  leave_full rid n f =
      ite (ℤ_discrete (f.pages n).num_records (pos f.file_hdr.num_records_per_page))
        (write_hdr rid (record f {
          file_hdr = record f.file_hdr { first_free_page_no = (f.pages n).next_free_page_no };
        }))
        (value rid f)

  -- `delete_record` on its page
  unfoldable pub erase_slot : ℕ → ℕ → RmFile → Answer Unit
  unfolding reset release_page_handle ℤ_discrete
  erase_slot n i f =
      let page = f.pages n in
      let less = pred_ℤ page.num_records in
      let f1 = put_page n (record page { bitmap = reset page.bitmap i; num_records = less }) f in
      ite (ℤ_discrete less (pred_ℤ (pos f.file_hdr.num_records_per_page)))
        (release_page_handle n f1) (value tt f1)

-- memcpy(get_slot(slot_no), buf, record_size)
unfoldable pub write_slot : RmFileHdr → ℕ → List ℕ → RmPage → RmPage
unfolding write_at
write_slot hdr slot_no buf page = record page {
  slots = write_at (slot_no * hdr.record_size) buf page.slots;
}

unfoldable pub read_slot : RmFileHdr → ℕ → RmPage → List ℕ
unfolding read_at
read_slot hdr slot_no page = read_at (slot_no * hdr.record_size) hdr.record_size page.slots

-- the slot, its bit, and the number of records
unfoldable pub fill_slot : RmFileHdr → ℕ → List ℕ → RmPage → RmPage
unfolding write_slot set
fill_slot hdr slot_no buf page = record (write_slot hdr slot_no buf page) {
  bitmap = set page.bitmap slot_no;
  num_records = suc_ℤ page.num_records;
}

-- a slot that the pages of the file have
unfoldable pub slot_in : RmFile → ℤ → Option ℕ
slot_in f (negsuc n) = none
slot_in f (pos n) = if ltb n f.file_hdr.num_records_per_page then some n else none

-- `fetch_page_handle` and `get_slot` for a rid, then the rest of the call
unfoldable pub with_slot : {A : Type 0} → Rid → RmFile → (ℕ → ℕ → Answer A) → Answer A
unfolding fetch_page_handle slot_in
with_slot rid f next = elim (fetch_page_handle rid.page_no f) [
  | none ↦ page_not_exist f
  | some n ↦ elim (slot_in f rid.slot_no) [ none ↦ overrun | some i ↦ next n i ]
]

-- without a lock: for the recovery and the undoing of a deletion
unfoldable pub insert_record_at : Rid → List ℕ → RmFile → Answer Unit
unfolding with_slot fill_slot
insert_record_at rid buf f =
    with_slot rid f (λ n i. value tt (put_page n (fill_slot f.file_hdr i buf (f.pages n)) f))

unfoldable pub is_record : Rid → RmFile → Answer Bool
unfolding with_slot is_set
is_record rid f = with_slot rid f (λ n i. value (is_set (f.pages n).bitmap i) f)

module _ (may_lock : Rid → Bool) where
  unfoldable pub get_record : Rid → RmFile → Answer (List ℕ)
  unfolding with_slot read_slot
  get_record rid f =
      if may_lock rid
      then with_slot rid f (λ n i. value (read_slot f.file_hdr i (f.pages n)) f)
      else lock_refused f

  unfoldable pub update_record : Rid → List ℕ → RmFile → Answer Unit
  unfolding with_slot write_slot
  update_record rid buf f =
      if may_lock rid
      then with_slot rid f
          (λ n i. value tt (put_page n (write_slot f.file_hdr i buf (f.pages n)) f))
      else lock_refused f

module _ (put_hdr : RmFile → Option RmFileHdr) (may_lock : Rid → Bool) where
  -- `insert_record` with the result of `first_bit`; after the last position there is no slot
  unfoldable pub insert_slot : ℕ → List ℕ → RmFile → Option ℕ → Answer Rid
  unfolding fill_slot leave_full
  insert_slot n buf f none = overrun
  insert_slot n buf f (some i) =
      if may_lock (slot_rid n i)
      then if ltb i f.file_hdr.num_records_per_page
        then leave_full put_hdr (slot_rid n i) n
            (put_page n (fill_slot f.file_hdr i buf (f.pages n)) f)
        else overrun
      else lock_refused f

  -- `insert_record` on the page of `create_page_handle`
  unfoldable pub insert_into : ℕ → List ℕ → RmFile → Answer Rid
  unfolding first_bit insert_slot
  insert_into n buf f =
      insert_slot n buf f (first_bit false (f.pages n).bitmap f.file_hdr.num_records_per_page)

  unfoldable pub insert_on : List ℕ → Answer ℕ → Answer Rid
  unfolding insert_into
  insert_on buf (value n f) = insert_into n buf f
  insert_on buf (page_not_exist f) = page_not_exist f
  insert_on buf (lock_refused f) = lock_refused f
  insert_on buf (write_failed f) = write_failed f
  insert_on buf overrun = overrun

  unfoldable pub insert_record : List ℕ → RmFile → Answer Rid
  unfolding create_page_handle insert_on
  insert_record buf f = insert_on buf (create_page_handle put_hdr f)

  unfoldable pub delete_record : Rid → RmFile → Answer Unit
  unfolding with_slot erase_slot
  delete_record rid f =
      if may_lock rid then with_slot rid f (λ n i. erase_slot put_hdr n i f) else lock_refused f
