-- ===== src/Pool/Flush.antt =====
-- `flush_page`: the page is on the disk, and stays in its frame.
use db_smw.Common.{
  ℕ, ◌≡◌, ◌≢◌, refl, sym, ap, ◌∙◌, inl, inr, if_pos, if_neg, Bool, true, false, none, some, arith,
  ℕ_discrete, Option-cases, Bool-cases,
}
use db_smw.Storage.Page.{PageId, Page}
use db_smw.Storage.Disk.{Device, IsDevice, internal_error, Outcome, ok, throw}
use db_smw.Storage.Stored.{stored}
use db_smw.Pool.{Pool, frame_of, set_page}
use db_smw.Pool.Invariant.{IsSound, IsComplete, IsCoherent, IsGood, Keeps, Nobody, view_same}
use db_smw.Pool.Write.{
  was_written, written, write_frame_lem, written-IsSound, written-IsComplete, written-Keeps,
  written-IsCoherent, written-on_disk,
}
use db_smw.Pool.Transfer.{flush_page}

module _ {Disk Block : Type 0} (dev : Device Disk Block) where
  -- A pool in which the frame `f` is marked clean.
  abbrev pub cleaned : ℕ → Pool Disk Block → Pool Disk Block
  cleaned f p = set_page f (record (p.pages f) { is_dirty = false }) p

  module _ (p : Pool Disk Block) (f : ℕ) where
    page_ne : (h : ℕ) → h ≢ f → (cleaned f p).pages h ≡ p.pages h
    page_ne h ne = if_neg (ℕ_discrete f h) (λ e. ne (sym e)) _ _

    page_same :
        (h : ℕ)
        → (((cleaned f p).pages h).id ≡ (p.pages h).id)
          × (((cleaned f p).pages h).content ≡ (p.pages h).content)
          × (((cleaned f p).pages h).pin_count ≡ (p.pages h).pin_count)
    page_same h = ground arith

    now_clean : ((cleaned f p).pages f).is_dirty ≡ false
    now_clean = ap (λ (h : Page Block). h.is_dirty) (if_pos (ℕ_discrete f f) refl _ _)

    still_clean : (h : ℕ) → (p.pages h).is_dirty ≡ false → ((cleaned f p).pages h).is_dirty ≡ false
    still_clean h e = ground arith

    cleaned-IsSound : IsSound p → IsSound (cleaned f p)
    cleaned-IsSound v = record {
      replacer_valid = v.replacer_valid;
      capacity = v.capacity;
      mapped = λ j h e. rw ((page_same h).0) (v.mapped j h e);
      free = λ h i.
          let (lt, pins, clean, id) = v.free h i in
          (
            lt,
            (page_same h).2 ∙ pins,
            still_clean h clean,
            ap (λ (k : PageId). k.page_no) (page_same h).0 ∙ id,
          );
      free_distinct = v.free_distinct;
      evictable = λ h i. rw ((page_same h).0, (page_same h).2) (v.evictable h i);
    }

    cleaned-IsComplete : IsComplete Nobody p → IsComplete Nobody (cleaned f p)
    cleaned-IsComplete c = record {
      waiting = λ j h o e z. c.waiting j h o e (sym (page_same h).2 ∙ z);
      owned = λ h o lt. rw ((page_same h).0) (c.owned h o lt);
    }

    -- where the page of the frame is on the disk
    cleaned-IsCoherent :
        (pid : PageId)
        → (p.pages f).id ≡ pid
        → IsSound p
        → stored dev p.disk_manager.disk pid ≡ some (p.pages f).content
        → IsCoherent dev p
        → IsCoherent dev (cleaned f p)
    cleaned-IsCoherent pid own v on_disk k = record {
      clean = λ j h e d z. elim (ℕ_discrete h f) [
        | yes same ↦
            let named : j ≡ pid = sym (v.mapped j f (e ∙ ap some same)).1 ∙ own in
            let copy : (p.pages f).content ≡ ((cleaned f p).pages h).content =
              ap (λ (a : ℕ). (p.pages a).content) (sym same) ∙ sym (page_same h).1 in
            ap (stored dev p.disk_manager.disk) named ∙ on_disk ∙ ap some copy
        | no ne ↦ rw (page_ne h ne) (
            k.clean j h e (ap (λ (a : Page Block). a.is_dirty) (sym (page_ne h ne)) ∙ d)
              (sym (page_same h).2 ∙ z))
      ];
    }

  -- What each outcome of `flush_page(pid)` on the pool `p` means.
  abbrev pub Flushed :
      PageId → Pool Disk Block → Outcome (Pool Disk Block) (Bool × Pool Disk Block) → Type 0
  Flushed pid p (ok (true, q)) =
      IsGood dev q
      × Keeps dev p q
      × ((f : ℕ) × (frame_of p pid ≡ some f)
          × (frame_of q pid ≡ some f)
          × ((q.pages f).is_dirty ≡ false)
          × (stored dev q.disk_manager.disk pid ≡ some (p.pages f).content))
  Flushed pid p (ok (false, q)) = (q ≡ p) × (frame_of p pid ≡ none)
  Flushed pid p (throw e q) = (e ≡ internal_error) × IsSound q × IsComplete Nobody q × Keeps dev p q

module _ {Disk Block : Type 0} (dev : Device Disk Block) (laws : IsDevice dev) where
  flushed :
      (p : Pool Disk Block) (pid : PageId) (f : ℕ)
      → IsGood dev p
      → frame_of p pid ≡ some f
      → was_written dev pid f p ≡ true
      → Flushed dev pid p (ok (true, cleaned dev f (written dev pid f p)))
  flushed p pid f g here done =
      let w = written dev pid f p in
      let v = written-IsSound dev pid f p g.sound in
      let on_disk = written-on_disk dev pid f p laws g.sound here done in
      (
        record {
          sound = cleaned-IsSound dev w f v;
          complete = cleaned-IsComplete dev w f (written-IsComplete dev pid f p g.complete);
          coherent =
              cleaned-IsCoherent dev w f pid (g.sound.mapped pid f here).1 v on_disk
                (written-IsCoherent dev pid f p laws g.sound here done g.coherent);
        },
        λ j b h.
            view_same dev w (cleaned dev f w) j refl (λ k _. (page_same dev w f k).1) refl
            ∙ written-Keeps dev pid f p laws g.sound here j b h,
        (f, here, here, now_clean dev w f, on_disk),
      )

  -- On a pool that meets the invariant: `flush_page` returns false where the page is absent, and nothing
  -- changed; where it returns true the page's block is on the disk, its frame is clean and still the
  -- page's, the invariant holds and every page that could be read is unchanged; if it throws, it is
  -- the disk's error, the pool is sound, no frame is lost and pages are unchanged.
  pub flush_page-Flushed :
      (p : Pool Disk Block) (pid : PageId) → IsGood dev p → Flushed dev pid p (flush_page dev pid p)
  unfolding flush_page
  flush_page-Flushed p pid g = elim (Option-cases (frame_of p pid)) [
    | inl e ↦ rw (e, flush_page) (refl, e)
    | inr (f, e) ↦ elim (Bool-cases (was_written dev pid f p)) [
      | inl done ↦ rw (e, flush_page, write_frame_lem dev pid f p, done) (flushed p pid f g e done)
      | inr lost ↦
          rw (e, flush_page, write_frame_lem dev pid f p, lost)
            (
              refl,
              written-IsSound dev pid f p g.sound,
              written-IsComplete dev pid f p g.complete,
              written-Keeps dev pid f p laws g.sound e,
            )
    ]
  ]
