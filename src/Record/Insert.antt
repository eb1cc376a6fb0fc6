-- ===== src/Record/Insert.antt =====
-- `insert_record`: the record goes to a slot that was free.
use db_smw.Common.{
  ℕ, suc, ◌*◌, ◌≤◌, ◌<◌, ◌≡◌, ◌≢◌, ◌⊎◌, inl, inr, refl, sym, ap, ◌∙◌, subst, Bool, true, false,
  List, length, arith, ltb, Option, none, some, if_pos, if_neg, ℕ_discrete, Bool-cases,
}
use db_smw.Common.Int.{pos, minus_one, ℤ_discrete}
use db_smw.Transaction.{Rid}
use db_smw.Record.Bitmap.{Bytes, init, is_set, first_bit}
use db_smw.Record.Bitmap.Bits.{is_set-init}
use db_smw.Record.Bitmap.Search.{next_bit-NextAfter}
use db_smw.Record.File.{
  RmFileHdr, RmPage, RmFile, Answer, value, page_not_exist, lock_refused, write_failed, overrun,
  slot_rid, put_page, fetch_page_handle, with_new_page, write_hdr, create_new_page_handle,
  create_page_handle, on_page, insert_on, read_slot, fill_slot, leave_full, insert_slot,
  insert_into, insert_record,
}
use db_smw.Record.Contents.{
  Failed, write_hdr_cases, fetch_page_handle_lem, slot_view, seen_in, lookup, Changed, IsBitmaps,
  fill_slot-Changed,
}
use db_smw.Record.Calls.{Changed-same}

-- A page of the file with a free slot.
pub record IsFreePage (f : RmFile) (n : ℕ) : Type 0 where
  pub in_file : n < f.file_hdr.num_pages
  pub slot : ℕ
  pub in_page : slot < f.file_hdr.num_records_per_page
  pub is_free : is_set (f.pages n).bitmap slot ≡ false

-- The bitmaps hold bytes and cover the slots, the next page is the one behind the last, and the first
-- free page, if there is one, has a free slot.
pub record IsFile (f : RmFile) : Type 0 where
  pub bytes : IsBitmaps f
  pub covered : f.file_hdr.num_records_per_page ≤ 8 * f.file_hdr.bitmap_size
  pub some_slots : 0 < f.file_hdr.num_records_per_page
  pub fresh : f.next_page_no ≡ f.file_hdr.num_pages
  pub free :
      (f.file_hdr.first_free_page_no ≡ minus_one)
      ⊎ ((n : ℕ) × (f.file_hdr.first_free_page_no ≡ pos n) × IsFreePage f n)

-- A rid that had no record, by the answer to the request for its lock.
abbrev pub NewRid : (Rid → Bool) → Bool → RmFile → ℕ → ℕ → Type 0
NewRid may_lock granted f n i = (lookup f n i ≡ none) × (may_lock (slot_rid n i) ≡ granted)

abbrev pub SameRecords : RmFile → RmFile → Type 0
SameRecords f f1 = (m j : ℕ) → lookup f1 m j ≡ lookup f m j

-- The record has a rid that had none, and no other record has changed; or the lock on such a rid was
-- refused, and no record has changed; or the disk has written only a part of the header, and one or the
-- other holds.
abbrev pub Inserted :
    (RmFile → Option RmFileHdr) → (Rid → Bool) → RmFile → List ℕ → Answer Rid → Type 0
Inserted put_hdr may_lock f buf (value rid f1) =
    (n : ℕ) × (i : ℕ) × (rid ≡ slot_rid n i)
    × NewRid may_lock true f n i
    × Changed f f1 n i (some buf)
Inserted put_hdr may_lock f buf (lock_refused f1) =
    ((n : ℕ) × (i : ℕ) × NewRid may_lock false f n i) × SameRecords f f1
Inserted put_hdr may_lock f buf (write_failed f1) =
    Failed put_hdr f1
    × (SameRecords f f1
        ⊎ ((n : ℕ) × (i : ℕ) × NewRid may_lock true f n i × Changed f f1 n i (some buf)))
Inserted put_hdr may_lock f buf (page_not_exist f1) = ⊥
Inserted put_hdr may_lock f buf overrun = ⊥

-- The first free slot of a page that has one.
first_free :
    (bm : Bytes) (max_n k : ℕ)
    → k < max_n
    → is_set bm k ≡ false
    → (i : ℕ) × (first_bit false bm max_n ≡ some i) × (i < max_n) × (is_set bm i ≡ false)
unfolding first_bit
first_free bm max_n k k_in e =
    let (r, same, next) = next_bit-NextAfter false bm max_n minus_one in
    elim next.found [
      | inr (start, lt, unset) ↦ (r, same, lt, unset)
      | inl last ↦
          absurd (ground (arith, next.none_between k (omega arith) (omega (arith, last, k_in)), e))
    ]

-- A new page has no record.
module _ (f : RmFile) (v : IsFile f) where
  abbrev grown : RmFile
  unfolding with_new_page
  grown = with_new_page f

  grown-is_set :
      (j : ℕ)
      → j < f.file_hdr.num_records_per_page
      → is_set (grown.pages f.next_page_no).bitmap j ≡ false
  unfolding grown with_new_page
  grown-is_set j lt =
      let bm = (f.pages f.next_page_no).bitmap in
      ap (λ (p : RmPage). is_set p.bitmap j)
        (if_pos (ℕ_discrete f.next_page_no f.next_page_no) refl _ _)
      ∙ is_set-init bm f.file_hdr.bitmap_size j (omega (arith, v.covered, lt))

  grown-IsFreePage : IsFreePage grown f.next_page_no
  unfolding grown with_new_page
  grown-IsFreePage = record {
    in_file = omega (arith, v.fresh);
    slot = 0;
    in_page = v.some_slots;
    is_free = grown-is_set 0 v.some_slots;
  }

  grown-lookup : (m j : ℕ) → lookup grown m j ≡ lookup f m j
  unfolding lookup grown with_new_page read_slot
  grown-lookup m j =
      let n = f.next_page_no in
      let hdr = f.file_hdr in
      let wider = record hdr { num_pages = suc hdr.num_pages; first_free_page_no = pos n } in
      let view = λ (p : RmPage). seen_in wider m j (slot_view wider p j) in
      elim (ℕ_discrete n m) [
        | no q ↦ ap view (if_neg (ℕ_discrete n m) q _ (f.pages m)) ∙ ground (arith, q, v.fresh)
        | yes q ↦
            let outside : ltb m hdr.num_pages ≡ false = ground (arith, q, v.fresh) in
            elim (Bool-cases (ltb j hdr.num_records_per_page)) [
              | inr e ↦ rw (outside, e) (ground arith)
              | inl e ↦
                  let unset : is_set (grown.pages m).bitmap j ≡ false =
                    subst (λ k. is_set (grown.pages k).bitmap j ≡ false) q
                      (grown-is_set j (ground (arith, e))) in
                  rw (outside, e, unset) (ground arith)
            ]
      ]

  grown-IsBitmaps : IsBitmaps grown
  unfolding grown with_new_page init
  grown-IsBitmaps n k = elim (ℕ_discrete f.next_page_no n) [
    | yes q ↦
        subst (λ (p : RmPage). p.bitmap k < 256)
          (sym (if_pos (ℕ_discrete f.next_page_no n) q _ (f.pages n)))
          (elim (Bool-cases (ltb k f.file_hdr.bitmap_size)) [
            | inl e ↦ rw e (omega arith)
            | inr e ↦ rw e (v.bytes f.next_page_no k)
          ])
    | no q ↦
        subst (λ (p : RmPage). p.bitmap k < 256)
          (sym (if_neg (ℕ_discrete f.next_page_no n) q _ (f.pages n))) (v.bytes n k)
  ]

module _ (put_hdr : RmFile → Option RmFileHdr) (may_lock : Rid → Bool) (buf : List ℕ) where
  -- The first free page of the header and the header on the disk do not matter.
  leave_full-Inserted :
      (f g : RmFile) (n i m : ℕ)
      → NewRid may_lock true f n i
      → Changed f g n i (some buf)
      → Inserted put_hdr may_lock f buf (leave_full put_hdr (slot_rid n i) m g)
  unfolding leave_full lookup read_slot
  leave_full-Inserted f g n i m new changed =
      let next = record g {
        file_hdr = record g.file_hdr { first_free_page_no = (g.pages m).next_free_page_no };
      } in
      let same = λ (stored : RmFileHdr).
        Changed-same f g (record next { stored_hdr = stored }) n i (some buf) changed
          (λ k j. refl) in
      elim (ℤ_discrete (g.pages m).num_records (pos g.file_hdr.num_records_per_page)) [
        | no e ↦
            subst (Inserted put_hdr may_lock f buf)
              (sym (
                if_neg (ℤ_discrete (g.pages m).num_records (pos g.file_hdr.num_records_per_page)) e
                  (write_hdr put_hdr (slot_rid n i) next) (value (slot_rid n i) g)))
              (n, i, refl, new, changed)
        | yes e ↦
            subst (Inserted put_hdr may_lock f buf)
              (sym (
                if_pos (ℤ_discrete (g.pages m).num_records (pos g.file_hdr.num_records_per_page)) e
                  (write_hdr put_hdr (slot_rid n i) next) (value (slot_rid n i) g)))
              (write_hdr_cases put_hdr (slot_rid n i) next (Inserted put_hdr may_lock f buf)
                (λ _. (n, i, refl, new, same next.file_hdr))
                (λ torn failed. ((next, torn, failed, refl), inr (n, i, new, same torn))))
      ]

  insert_slot-Inserted :
      (f : RmFile) (n i : ℕ)
      → IsBitmaps f
      → n < f.file_hdr.num_pages
      → i < f.file_hdr.num_records_per_page
      → is_set (f.pages n).bitmap i ≡ false
      → f.file_hdr.record_size ≡ length buf
      → Inserted put_hdr may_lock f buf (insert_slot put_hdr may_lock n buf f (some i))
  unfolding insert_slot lookup
  insert_slot-Inserted f n i bytes n_in i_in unset sized =
      let inside : ltb i f.file_hdr.num_records_per_page ≡ true = ground arith in
      let filled = put_page n (fill_slot f.file_hdr i buf (f.pages n)) f in
      let changed = fill_slot-Changed f n i bytes buf n_in i_in sized in
      let absent : lookup f n i ≡ none = ground (arith, unset) in
      elim (Bool-cases (may_lock (slot_rid n i))) [
        | inr e ↦ rw e ((n, i, (absent, e)), λ m j. refl)
        | inl e ↦ rw (e, inside) (leave_full-Inserted f filled n i n (absent, e) changed)
      ]

  -- On a page with a free slot.
  insert_into-Inserted :
      (f : RmFile) (n : ℕ)
      → IsBitmaps f
      → IsFreePage f n
      → f.file_hdr.record_size ≡ length buf
      → Inserted put_hdr may_lock f buf (insert_into put_hdr may_lock n buf f)
  unfolding insert_into
  insert_into-Inserted f n bytes p sized =
      let (i, first, i_in, unset) =
        first_free (f.pages n).bitmap f.file_hdr.num_records_per_page p.slot p.in_page p.is_free in
      subst (λ o. Inserted put_hdr may_lock f buf (insert_slot put_hdr may_lock n buf f o))
        (sym first) (insert_slot-Inserted f n i bytes p.in_file i_in unset sized)

  same_Changed :
      (f g h : RmFile) (n i : ℕ)
      → SameRecords f g
      → Changed g h n i (some buf)
      → Changed f h n i (some buf)
  same_Changed f g h n i e c = record {
    here = c.here;
    others = λ m j apart. c.others m j apart ∙ e m j;
  }

  same-Inserted :
      (f g : RmFile)
      → SameRecords f g
      → (a : Answer Rid) → Inserted put_hdr may_lock g buf a
      → Inserted put_hdr may_lock f buf a
  same-Inserted f g e (value rid h) (n, i, same, (absent, granted), c) =
      (n, i, same, (sym (e n i) ∙ absent, granted), same_Changed f g h n i e c)
  same-Inserted f g e (page_not_exist h) no_page = no_page
  same-Inserted f g e (lock_refused h) ((n, i, (absent, refused)), same) =
      ((n, i, (sym (e n i) ∙ absent, refused)), λ m j. same m j ∙ e m j)
  same-Inserted f g e (write_failed h) (failed, inl same) = (failed, inl (λ m j. same m j ∙ e m j))
  same-Inserted f g e (write_failed h) (failed, inr (n, i, (absent, granted), c)) =
      (failed, inr (n, i, (sym (e n i) ∙ absent, granted), same_Changed f g h n i e c))
  same-Inserted f g e overrun past = past

  insert_new_page :
      (f : RmFile) (v : IsFile f)
      → f.file_hdr.record_size ≡ length buf
      → put_hdr (grown f v) ≡ none
      → Inserted put_hdr may_lock f buf (
          insert_into put_hdr may_lock f.next_page_no buf
            (record (grown f v) { stored_hdr = (grown f v).file_hdr }))
  unfolding lookup grown with_new_page
  insert_new_page f v sized written =
      let g = record (grown f v) { stored_hdr = (grown f v).file_hdr } in
      let free = grown-IsFreePage f v in
      same-Inserted f g (grown-lookup f v) (insert_into put_hdr may_lock f.next_page_no buf g) (
        insert_into-Inserted g f.next_page_no (grown-IsBitmaps f v)
          (record {
            in_file = free.in_file;
            slot = free.slot;
            in_page = free.in_page;
            is_free = free.is_free;
          })
          sized)

  -- On a file whose bitmaps cover the slots and whose first free page, if there is one, has a free slot,
  -- for a buffer of the record size. Where `insert_record` returns, the lock was granted, the rid had no
  -- record and now has the buffer, and no other record has changed. Where it throws, either the lock on a
  -- rid without a record was refused, and no record has changed; or the disk has written a part of the
  -- header, and no record has changed, or the buffer has been put at such a rid whose lock was granted. It
  -- neither fails to find a page nor writes behind one.
  pub insert_record-Inserted :
      (f : RmFile)
      → IsFile f
      → f.file_hdr.record_size ≡ length buf
      → Inserted put_hdr may_lock f buf (insert_record put_hdr may_lock buf f)
  unfolding insert_record insert_on create_page_handle create_new_page_handle grown with_new_page
      lookup
  insert_record-Inserted f v sized =
      let first = f.file_hdr.first_free_page_no in
      let Goal =
        λ (o : Answer ℕ). Inserted put_hdr may_lock f buf (insert_on put_hdr may_lock buf o) in
      elim v.free [
        | inl e ↦ subst Goal (sym (if_pos (ℤ_discrete first minus_one) e _ _)) (
            write_hdr_cases put_hdr f.next_page_no (grown f v) Goal (insert_new_page f v sized)
              (λ torn failed. ((grown f v, torn, failed, refl), inl (λ m j. grown-lookup f v m j))))
        | inr (n, e, p) ↦
            let other : first ≢ minus_one = λ x. ground (arith, sym e ∙ x) in
            subst Goal
              (sym (
                if_neg (ℤ_discrete first minus_one) other _ _
                ∙ ap (on_page f)
                    (ap (λ z. fetch_page_handle z f) e ∙ fetch_page_handle_lem f n p.in_file)))
              (insert_into-Inserted f n v.bytes p sized)
      ]
