-- ===== src/Record/Contents.antt =====
-- A record file as a map from rids to records, and what each call does to it.
use db_smw.Common.{
  ℕ, Bool, ◌<◌, ◌≡◌, ◌≢◌, ◌⊎◌, inl, inr, refl, sym, ap, ◌∙◌, true, false, List, length, arith,
  if◌then◌else◌, ltb, ◌==◌, Option, none, some, if_pos, if_neg, ℕ_discrete, Option-cases,
}
use db_smw.Common.Int.{pos}
use db_smw.Record.Bitmap.{set, reset, is_set, get_bucket}
use db_smw.Record.Bitmap.Bits.{is_set-set-reset}
use db_smw.Record.File.{
  RmFileHdr, RmPage, RmFile, Answer, value, page_not_exist, lock_refused, write_failed, overrun,
  slot_rid, put_page, fetch_page_handle, write_hdr, slot_in, with_slot, write_slot, read_slot,
  fill_slot,
}
use db_smw.Record.Slots.{read_slot-write_slot-same, read_slot-write_slot-other}

abbrev pub slot_view : RmFileHdr → RmPage → ℕ → Option (List ℕ)
slot_view hdr page i = if is_set page.bitmap i then some (read_slot hdr i page) else none

-- The record with this rid, where there is one.
unfoldable pub lookup : RmFile → ℕ → ℕ → Option (List ℕ)
lookup f n i =
    if ltb n f.file_hdr.num_pages
    then if ltb i f.file_hdr.num_records_per_page then slot_view f.file_hdr (f.pages n) i else none
    else none

-- Only the record with this rid is another.
pub record Changed (f f1 : RmFile) (n i : ℕ) (v : Option (List ℕ)) : Type 0 where
  pub here : lookup f1 n i ≡ v
  pub others : (m j : ℕ) → (m ≢ n) ⊎ (j ≢ i) → lookup f1 m j ≡ lookup f m j

-- The bitmaps hold bytes.
abbrev pub IsBitmaps : RmFile → Type 0
IsBitmaps f = (n k : ℕ) → (f.pages n).bitmap k < 256

-- The lock was granted and the call has changed that record only, or the lock was refused and the call has
-- changed nothing.
abbrev pub After : {A : Type 0} → Bool → RmFile → ℕ → ℕ → Option (List ℕ) → Answer A → Type 0
After granted f n i v (value a f1) = (granted ≡ true) × Changed f f1 n i v
After granted f n i v (lock_refused f1) = (granted ≡ false) × (f1 ≡ f)
After granted f n i v (page_not_exist f1) = ⊥
After granted f n i v (write_failed f1) = ⊥
After granted f n i v overrun = ⊥

-- The disk has written only a part of the header, and nothing has happened since.
abbrev pub Failed : (RmFile → Option RmFileHdr) → RmFile → Type 0
Failed put_hdr f1 =
    (g : RmFile) × (torn : RmFileHdr) × (put_hdr g ≡ some torn)
    × (f1 ≡ record g { stored_hdr = torn })

-- What `lookup` takes from a page.
abbrev pub seen_in : RmFileHdr → ℕ → ℕ → Option (List ℕ) → Option (List ℕ)
seen_in hdr m j view =
    if ltb m hdr.num_pages then if ltb j hdr.num_records_per_page then view else none else none

-- A page is put in the place of another that differs in one slot.
pub put_page-Changed :
    (f : RmFile) (n i : ℕ) (page : RmPage) (v : Option (List ℕ))
    → n < f.file_hdr.num_pages
    → i < f.file_hdr.num_records_per_page
    → slot_view f.file_hdr page i ≡ v
    → ((j : ℕ) → j ≢ i → slot_view f.file_hdr page j ≡ slot_view f.file_hdr (f.pages n) j)
    → Changed f (put_page n page f) n i v
unfolding lookup
put_page-Changed f n i page v n_in i_in e h =
    let hdr = f.file_hdr in
    let put = λ (m : ℕ) (q : n ≡ m). if_pos (ℕ_discrete n m) q page (f.pages m) in
    let n_true : ltb n hdr.num_pages ≡ true = ground arith in
    let i_true : ltb i hdr.num_records_per_page ≡ true = ground arith in
    record {
      here = rw (n_true, i_true) (ap (λ p. slot_view hdr p i) (put n refl) ∙ e);
      others = λ m j apart. elim (ℕ_discrete n m) [
        | no q ↦
            ap (λ p. seen_in hdr m j (slot_view hdr p j))
              (if_neg (ℕ_discrete n m) q page (f.pages m))
        | yes q ↦
            let other : j ≢ i = elim apart [ inl x ↦ absurd (x (sym q)) | inr y ↦ y ] in
            ap (seen_in hdr m j) (
              ap (λ p. slot_view hdr p j) (put m q)
              ∙ h j other
              ∙ ap (λ k. slot_view hdr (f.pages k) j) q)
      ];
    }

pub fetch_page_handle_lem :
    (f : RmFile) (n : ℕ) → n < f.file_hdr.num_pages → fetch_page_handle (pos n) f ≡ some n
unfolding fetch_page_handle
fetch_page_handle_lem f n lt = ground (arith, lt)

pub write_hdr_cases {ℓ} :
    {A : Type 0} (put_hdr : RmFile → Option RmFileHdr) (a : A) (f : RmFile) (P : Answer A → Type ℓ)
    → (put_hdr f ≡ none → P (value a (record f { stored_hdr = f.file_hdr })))
    → ((torn : RmFileHdr)
        → put_hdr f ≡ some torn
        → P (write_failed (record f { stored_hdr = torn })))
    → P (write_hdr put_hdr a f)
unfolding write_hdr
write_hdr_cases put_hdr a f P good bad = elim (Option-cases (put_hdr f)) [
  | inl e ↦ rw (write_hdr, e) (good e)
  | inr (torn, e) ↦ rw (write_hdr, e) (bad torn e)
]

pub with_slot_lem :
    {A : Type 0} (n i : ℕ) (f : RmFile) (next : ℕ → ℕ → Answer A)
    → n < f.file_hdr.num_pages
    → i < f.file_hdr.num_records_per_page
    → with_slot (slot_rid n i) f next ≡ next n i
unfolding with_slot fetch_page_handle slot_in
with_slot_lem n i f next n_in i_in = ground (arith, n_in, i_in)

module _ (f : RmFile) (n i : ℕ) (bytes : IsBitmaps f) where
  pub set_lem :
      (j : ℕ)
      → is_set (set (f.pages n).bitmap i) j ≡ (if i == j then true else is_set (f.pages n).bitmap j)
  set_lem j = (is_set-set-reset (f.pages n).bitmap i j (bytes n (get_bucket i))).0

  pub reset_lem :
      (j : ℕ)
      → is_set (reset (f.pages n).bitmap i) j
        ≡ (if i == j then false else is_set (f.pages n).bitmap j)
  reset_lem j = (is_set-set-reset (f.pages n).bitmap i j (bytes n (get_bucket i))).1

  pub fill_slot-Changed :
      (buf : List ℕ)
      → n < f.file_hdr.num_pages
      → i < f.file_hdr.num_records_per_page
      → f.file_hdr.record_size ≡ length buf
      → Changed f (put_page n (fill_slot f.file_hdr i buf (f.pages n)) f) n i (some buf)
  unfolding fill_slot read_slot write_slot
  fill_slot-Changed buf n_in i_in sized =
      let hdr = f.file_hdr in
      let page = f.pages n in
      put_page-Changed f n i (fill_slot hdr i buf page) (some buf) n_in i_in
        (rw (set_lem i) (ground (arith, read_slot-write_slot-same hdr i buf page sized)))
        (λ j ne.
          rw (set_lem j) (
            ground
              (arith, ne, read_slot-write_slot-other hdr i j buf page sized (λ e. ne (sym e)))))
