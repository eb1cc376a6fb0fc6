-- ===== src/Record/Reread.antt =====
-- `get_record` of what `update_record` has written, and of the other records.
use db_smw.Common.{
  ℕ, ◌<◌, ◌≡◌, ◌≢◌, ◌⊎◌, inl, inr, refl, sym, ap, ◌∙◌, Bool, true, false, List, length, if_pos,
  if_neg, ℕ_discrete, Bool-cases,
}
use db_smw.Transaction.{Rid}
use db_smw.Record.File.{
  RmPage, RmFile, value, lock_refused, slot_rid, put_page, write_slot, read_slot, get_record,
  update_record,
}
use db_smw.Record.Slots.{read_slot-write_slot-same, read_slot-write_slot-other}
use db_smw.Record.Contents.{with_slot_lem}

module _ (may_lock : Rid → Bool) (f : RmFile) (n i : ℕ) (n_in : n < f.file_hdr.num_pages)
    (i_in : i < f.file_hdr.num_records_per_page) where
  get_record_lem :
      may_lock (slot_rid n i) ≡ true
      → get_record may_lock (slot_rid n i) f ≡ value (read_slot f.file_hdr i (f.pages n)) f
  unfolding get_record
  get_record_lem e = rw e (with_slot_lem n i f _ n_in i_in)

  update_record_lem :
      (buf : List ℕ)
      → may_lock (slot_rid n i) ≡ true
      → update_record may_lock (slot_rid n i) buf f
        ≡ value tt (put_page n (write_slot f.file_hdr i buf (f.pages n)) f)
  unfolding update_record
  update_record_lem buf e = rw e (with_slot_lem n i f _ n_in i_in)

  -- A record that was returned is the one in its slot, and its lock was granted.
  returned :
      (r : List ℕ)
      → get_record may_lock (slot_rid n i) f ≡ value r f
      → (may_lock (slot_rid n i) ≡ true) × (read_slot f.file_hdr i (f.pages n) ≡ r)
  unfolding get_record
  returned r same = elim (Bool-cases (may_lock (slot_rid n i))) [
    | inl e ↦ (e, cc (sym (get_record_lem e) ∙ same))
    | inr e ↦ absurd (cc (sym (refused e) ∙ same))
  ]
    where
      refused :
          may_lock (slot_rid n i) ≡ false → get_record may_lock (slot_rid n i) f ≡ lock_refused f
      refused e = rw e refl

-- The slots of the file keep their bytes, but for the one that is written.
put_page-read_slot :
    (f : RmFile) (n i m j : ℕ) (buf : List ℕ)
    → f.file_hdr.record_size ≡ length buf
    → (m ≢ n) ⊎ (j ≢ i)
    → read_slot f.file_hdr j ((put_page n (write_slot f.file_hdr i buf (f.pages n)) f).pages m)
      ≡ read_slot f.file_hdr j (f.pages m)
put_page-read_slot f n i m j buf sized apart =
    let put = write_slot f.file_hdr i buf (f.pages n) in
    let read = λ (p : RmPage). read_slot f.file_hdr j p in
    elim (ℕ_discrete n m) [
      | no q ↦ ap read (if_neg (ℕ_discrete n m) q put (f.pages m))
      | yes q ↦
          let other : j ≢ i = elim apart [ inl x ↦ absurd (x (sym q)) | inr y ↦ y ] in
          ap read (if_pos (ℕ_discrete n m) q put (f.pages m))
          ∙ read_slot-write_slot-other f.file_hdr i j buf (f.pages n) sized (λ e. other (sym e))
          ∙ ap (λ k. read (f.pages k)) q
    ]

-- For two rids within the pages of a file, the lock on the first granted, a buffer of the record size
-- and what `get_record` returns for the second: `update_record` of the first returns, then `get_record`
-- returns the buffer for the first, for the second what it returned before, and changes nothing.
pub get_record-update_record :
    (may_lock : Rid → Bool) (f : RmFile) (n i m j : ℕ) (buf r : List ℕ)
    → n < f.file_hdr.num_pages
    → i < f.file_hdr.num_records_per_page
    → m < f.file_hdr.num_pages
    → j < f.file_hdr.num_records_per_page
    → (m ≢ n) ⊎ (j ≢ i)
    → f.file_hdr.record_size ≡ length buf
    → may_lock (slot_rid n i) ≡ true
    → get_record may_lock (slot_rid m j) f ≡ value r f
    → (g : RmFile) × (update_record may_lock (slot_rid n i) buf f ≡ value tt g)
      × (get_record may_lock (slot_rid n i) g ≡ value buf g)
      × (get_record may_lock (slot_rid m j) g ≡ value r g)
get_record-update_record may_lock f n i m j buf r n_in i_in m_in j_in apart sized granted before =
    let written = write_slot f.file_hdr i buf (f.pages n) in
    let g = put_page n written f in
    let (allowed, same) = returned may_lock f m j m_in j_in r before in
    (
      g,
      update_record_lem may_lock f n i n_in i_in buf granted,
      get_record_lem may_lock g n i n_in i_in granted
          ∙ ap (λ b. value b g)
              (ap (read_slot f.file_hdr i) (if_pos (ℕ_discrete n n) refl written (f.pages n))
                ∙ read_slot-write_slot-same f.file_hdr i buf (f.pages n) sized),
      get_record_lem may_lock g m j m_in j_in allowed
          ∙ ap (λ b. value b g) (put_page-read_slot f n i m j buf sized apart ∙ same),
    )
