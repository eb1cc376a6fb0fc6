-- ===== src/Record/Calls.antt =====
-- The calls on one record of a file.
use db_smw.Common.{
  ℕ, ◌<◌, ◌≡◌, inl, inr, refl, sym, ap, ◌∙◌, subst, Bool, true, List, length, arith, if◌then◌else◌,
  ltb, Option, none, some, if_pos, if_neg, ℕ_discrete, update, false, Bool-cases,
}
use db_smw.Common.Int.{ℤ, pos, pred_ℤ, ℤ_discrete}
use db_smw.Transaction.{Rid}
use db_smw.Record.Bitmap.{reset, is_set}
use db_smw.Record.File.{
  RmFileHdr, RmPage, RmFile, Answer, value, page_not_exist, lock_refused, write_failed, overrun,
  slot_rid, put_page, write_slot, read_slot, release_page_handle, erase_slot, get_record,
  insert_record_at, delete_record, update_record,
}
use db_smw.Record.Slots.{read_slot-write_slot-same, read_slot-write_slot-other}
use db_smw.Record.Contents.{
  slot_view, seen_in, lookup, Changed, IsBitmaps, After, Failed, write_hdr_cases, put_page-Changed,
  with_slot_lem, reset_lem, fill_slot-Changed,
}

pub Changed-same :
    (f g h : RmFile) (n i : ℕ) (v : Option (List ℕ))
    → Changed f g n i v
    → ((m j : ℕ) → lookup h m j ≡ lookup g m j)
    → Changed f h n i v
Changed-same f g h n i v c e = record {
  here = e n i ∙ c.here;
  others = λ m j apart. e m j ∙ c.others m j apart;
}

-- The page has a record in each of its slots, by its count.
abbrev pub WasFull : RmFile → ℕ → Type 0
WasFull f n = pred_ℤ (f.pages n).num_records ≡ pred_ℤ (pos f.file_hdr.num_records_per_page)

-- `delete_record` after its lock was granted or refused. A header that had to be written is on the disk
-- where the call returns; where it throws, a part of the header is.
abbrev pub Deleted : (RmFile → Option RmFileHdr) → Bool → RmFile → ℕ → ℕ → Answer Unit → Type 0
Deleted put_hdr granted f n i (value a f1) =
    (granted ≡ true) × Changed f f1 n i none × (WasFull f n → f1.stored_hdr ≡ f1.file_hdr)
Deleted put_hdr granted f n i (write_failed f1) =
    (granted ≡ true) × Changed f f1 n i none × WasFull f n × Failed put_hdr f1
Deleted put_hdr granted f n i (lock_refused f1) = (granted ≡ false) × (f1 ≡ f)
Deleted put_hdr granted f n i (page_not_exist f1) = ⊥
Deleted put_hdr granted f n i overrun = ⊥

-- What `get_record` returns, and that it changes nothing.
abbrev pub Got : Bool → RmFile → List ℕ → Answer (List ℕ) → Type 0
Got granted f r (value q f1) = (granted ≡ true) × (q ≡ r) × (f1 ≡ f)
Got granted f r (lock_refused f1) = (granted ≡ false) × (f1 ≡ f)
Got granted f r (page_not_exist f1) = ⊥
Got granted f r (write_failed f1) = ⊥
Got granted f r overrun = ⊥

module _ (f : RmFile) (n i : ℕ) (bytes : IsBitmaps f) (n_in : n < f.file_hdr.num_pages)
    (i_in : i < f.file_hdr.num_records_per_page) where
  -- On a file whose bitmaps hold bytes, for a rid within a page of the file and a buffer of the record
  -- size: `insert_record` at the rid returns, then the record is the buffer, and no other record has changed.
  pub insert_record_at-After :
      (buf : List ℕ)
      → f.file_hdr.record_size ≡ length buf
      → After true f n i (some buf) (insert_record_at (slot_rid n i) buf f)
  unfolding insert_record_at
  insert_record_at-After buf sized =
      subst (After true f n i (some buf)) (sym (with_slot_lem n i f _ n_in i_in))
        (refl, fill_slot-Changed f n i bytes buf n_in i_in sized)

  reset-Changed :
      (less : ℤ)
      → Changed f
          (put_page n
            (record (f.pages n) { bitmap = reset (f.pages n).bitmap i; num_records = less })
            f)
          n
          i
          none
  unfolding read_slot
  reset-Changed less =
      let page = f.pages n in
      let erased = record page { bitmap = reset page.bitmap i; num_records = less } in
      put_page-Changed f n i erased none n_in i_in (rw (reset_lem f n i bytes i) (ground arith))
        (λ j ne. rw (reset_lem f n i bytes j) (ground (arith, ne)))

  -- The links and the header do not matter.
  linked-Changed :
      (less next first : ℤ) (stored : RmFileHdr)
      → Changed f
          (record f {
            pages =
                update
                  (update f.pages n (record (f.pages n) {
                    bitmap = reset (f.pages n).bitmap i;
                    num_records = less;
                  }))
                  n
                  (record (update f.pages n
                    (record (f.pages n) { bitmap = reset (f.pages n).bitmap i; num_records = less })
                    n) { next_free_page_no = next });
            file_hdr = record f.file_hdr { first_free_page_no = first };
            stored_hdr = stored;
          })
          n
          i
          none
  unfolding lookup read_slot
  linked-Changed less next first stored =
      let page = f.pages n in
      let erased = record page { bitmap = reset page.bitmap i; num_records = less } in
      let f1 = put_page n erased f in
      let view = λ (m j : ℕ) (p : RmPage). seen_in f.file_hdr m j (slot_view f.file_hdr p j) in
      let linked = record (f1.pages n) { next_free_page_no = next } in
      Changed-same f f1 _ n i none (reset-Changed less) (λ m j. elim (ℕ_discrete n m) [
        | yes q ↦
            ap (view m j) (if_pos (ℕ_discrete n m) q linked (f1.pages m))
            ∙ ap (λ z. view m j (f1.pages z)) q
        | no q ↦ ap (view m j) (if_neg (ℕ_discrete n m) q linked (f1.pages m))
      ])

  module _ (put_hdr : RmFile → Option RmFileHdr) where
    erase_slot-Deleted : Deleted put_hdr true f n i (erase_slot put_hdr n i f)
    unfolding erase_slot release_page_handle
    erase_slot-Deleted =
        let less = pred_ℤ (f.pages n).num_records in
        let last = pred_ℤ (pos f.file_hdr.num_records_per_page) in
        let page = record (f.pages n) { bitmap = reset (f.pages n).bitmap i; num_records = less } in
        let f1 = put_page n page f in
        let first = f.file_hdr.first_free_page_no in
        elim (ℤ_discrete less last) [
          | yes e ↦
              subst (Deleted put_hdr true f n i)
                (sym (
                  if_pos (ℤ_discrete less last) e (release_page_handle put_hdr n f1) (value tt f1)))
                (write_hdr_cases put_hdr tt _ (Deleted put_hdr true f n i)
                  (λ _. (refl, linked-Changed less first (pos n) _, λ _. refl))
                  (λ torn same.
                    (refl, linked-Changed less first (pos n) torn, e, (_, torn, same, refl))))
          | no e ↦
              subst (Deleted put_hdr true f n i)
                (sym (
                  if_neg (ℤ_discrete less last) e (release_page_handle put_hdr n f1) (value tt f1)))
                (refl, reset-Changed less, λ full. absurd (e full))
        ]

    -- On a file whose bitmaps hold bytes, for a rid within a page of the file. Where the lock is granted,
    -- `delete_record` leaves no record with the rid and changes no other record, also where it throws; a
    -- header that it has to write, since the page was full, is on the disk if it returns, and it throws
    -- only if the disk has written a part of that header. Where the lock is refused, it throws, and
    -- nothing has changed.
    pub delete_record-Deleted :
        (may_lock : Rid → Bool)
        → Deleted put_hdr
            (may_lock (slot_rid n i))
            f
            n
            i
            (delete_record put_hdr may_lock (slot_rid n i) f)
    unfolding delete_record
    delete_record-Deleted may_lock = elim (Bool-cases (may_lock (slot_rid n i))) [
      | inr e ↦ rw e (refl, refl)
      | inl e ↦ rw e (
          subst (Deleted put_hdr true f n i) (sym (with_slot_lem n i f _ n_in i_in))
            erase_slot-Deleted)
    ]

  module _ (may_lock : Rid → Bool) where
    -- On a file whose bitmaps hold bytes, for a rid that has a record and a buffer of the record size:
    -- where the lock is granted, `update_record` returns, then the record is the buffer, and no other
    -- record has changed; where it is refused, the call throws, and nothing has changed.
    pub update_record-After :
        (buf : List ℕ)
        → f.file_hdr.record_size ≡ length buf
        → is_set (f.pages n).bitmap i ≡ true
        → After
            (may_lock (slot_rid n i))
            f
            n
            i
            (some buf)
            (update_record may_lock (slot_rid n i) buf f)
    unfolding update_record write_slot read_slot
    update_record-After buf sized there =
        let hdr = f.file_hdr in
        let page = f.pages n in
        let changed =
          put_page-Changed f n i (write_slot hdr i buf page) (some buf) n_in i_in
            (rw there (ap some (read_slot-write_slot-same hdr i buf page sized)))
            (λ j ne.
              ap (λ r. if is_set page.bitmap j then some r else none)
                (read_slot-write_slot-other hdr i j buf page sized (λ e. ne (sym e)))) in
        elim (Bool-cases (may_lock (slot_rid n i))) [
          | inr e ↦ rw e (refl, refl)
          | inl e ↦ rw e (
              subst (After true f n i (some buf)) (sym (with_slot_lem n i f _ n_in i_in))
                (refl, changed))
        ]

    -- For a rid within a page of the file that has a record, over bitmaps that hold bytes: `get_record`
    -- returns the record and changes nothing; or the lock is refused, and nothing has changed.
    pub get_record-Got :
        (r : List ℕ)
        → lookup f n i ≡ some r
        → Got (may_lock (slot_rid n i)) f r (get_record may_lock (slot_rid n i) f)
    unfolding get_record lookup
    get_record-Got r there =
        let n_true : ltb n f.file_hdr.num_pages ≡ true = ground arith in
        let i_true : ltb i f.file_hdr.num_records_per_page ≡ true = ground arith in
        let read : read_slot f.file_hdr i (f.pages n) ≡ r = ground (arith, there, n_true, i_true) in
        elim (Bool-cases (may_lock (slot_rid n i))) [
          | inr e ↦ rw e (refl, refl)
          | inl e ↦
              rw e (subst (Got true f r) (sym (with_slot_lem n i f _ n_in i_in)) (refl, read, refl))
        ]
