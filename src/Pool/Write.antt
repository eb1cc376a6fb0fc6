-- ===== src/Pool/Write.antt =====
-- Writing a frame at the id of its page.
use db_smw.Common.{
  ℕ, ◌≡◌, sym, ap, ◌∙◌, subst, inl, inr, Bool, true, false, some, arith, Option-cases, Bool-cases,
  if◌then◌else◌,
}
use db_smw.Storage.Page.{PageId, PageId_discrete}
use db_smw.Storage.Disk.{Device, IsDevice, internal_error, Outcome, ok, throw, write_page}
use db_smw.Storage.Stored.{stored, write_at, page_in_range, stored-write_self, stored-write_ne}
use db_smw.Pool.{Pool, frame_of}
use db_smw.Pool.Invariant.{IsSound, IsComplete, IsCoherent, Keeps, view_in, view_out}
use db_smw.Pool.Parts.{IsPicked}
use db_smw.Pool.Transfer.{write_frame}

module _ {Disk Block : Type 0} (dev : Device Disk Block) (pid : PageId) (f : ℕ)
    (p : Pool Disk Block) where
  abbrev pub was_written : Bool
  was_written = (write_at dev p.disk_manager.disk pid (p.pages f).content).0

  abbrev pub written : Pool Disk Block
  written = record p {
    disk_manager = record p.disk_manager {
      disk = (write_at dev p.disk_manager.disk pid (p.pages f).content).1;
    };
  }

  pub write_frame_lem :
      write_frame dev pid f p ≡ (if was_written then ok written else throw internal_error written)
  unfolding write_frame write_page
  write_frame_lem = ground arith

  pub write_frame_cases {ℓ} :
      (P : Outcome (Pool Disk Block) (Pool Disk Block) → Type ℓ)
      → (was_written ≡ true → P (ok written))
      → (was_written ≡ false → P (throw internal_error written))
      → P (write_frame dev pid f p)
  write_frame_cases P good bad = elim (Bool-cases was_written) [
    | inl e ↦ rw (write_frame_lem, e) (good e)
    | inr e ↦ rw (write_frame_lem, e) (bad e)
  ]

  pub written-IsSound : IsSound p → IsSound written
  written-IsSound v = record {
    replacer_valid = v.replacer_valid;
    capacity = v.capacity;
    mapped = v.mapped;
    free = v.free;
    free_distinct = v.free_distinct;
    evictable = v.evictable;
  }

  pub written-IsComplete : {out : ℕ → Type 0} → IsComplete out p → IsComplete out written
  written-IsComplete c = record { waiting = c.waiting; owned = c.owned }

  pub written-IsPicked : {g : ℕ} → IsPicked g p → IsPicked g written
  written-IsPicked k = record {
    below = k.below;
    not_free = k.not_free;
    not_evictable = k.not_evictable;
    idle = k.idle;
    home = k.home;
  }

  module _ (laws : IsDevice dev) (v : IsSound p) (here : frame_of p pid ≡ some f) where
    fits : page_in_range pid.page_no ≡ true
    fits = (v.mapped pid f here).2

    -- Whether or not the call fails, nothing that can be read is lost.
    pub written-Keeps : Keeps dev p written
    written-Keeps q b e = elim (Option-cases (frame_of p q)) [
      | inr (g, m) ↦ view_in dev written q g m ∙ sym (view_in dev p q g m) ∙ e
      | inl out ↦
          view_out dev written q out
          ∙ stored-write_ne dev laws p.disk_manager.disk pid (p.pages f).content fits q b
              (λ same. cc (ap (frame_of p) same)) (sym (view_out dev p q out) ∙ e)
    ]

    pub written-on_disk :
        was_written ≡ true → stored dev written.disk_manager.disk pid ≡ some (p.pages f).content
    written-on_disk e =
        stored-write_self dev laws p.disk_manager.disk pid (p.pages f).content fits e

    pub written-IsCoherent : was_written ≡ true → IsCoherent dev p → IsCoherent dev written
    written-IsCoherent done k = record {
      clean = λ q g e d z. elim (PageId_discrete pid q) [
        | yes same ↦
            let moved : f ≡ g = cc (here, e) in
            subst (λ h. stored dev written.disk_manager.disk q ≡ some (p.pages h).content) moved
              (subst (λ a. stored dev written.disk_manager.disk a ≡ some (p.pages f).content) same
                (written-on_disk done))
        | no ne ↦
            stored-write_ne dev laws p.disk_manager.disk pid (p.pages f).content fits q
              (p.pages g).content ne (k.clean q g e d z)
      ];
    }
