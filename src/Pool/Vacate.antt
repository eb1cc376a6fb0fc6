-- ===== src/Pool/Vacate.antt =====
-- A picked frame is written back if need be and leaves the page table: nothing that can be read is
-- lost, and the frame is ready for another page.
use db_smw.Common.{
  ℕ, ◌<◌, ◌≡◌, ◌≢◌, refl, sym, ap, ◌∙◌, subst, inl, inr, ite, false, none, some, arith, ℕ_discrete,
  In, Option-cases,
}
use db_smw.Common.Assoc.{find-erase}
use db_smw.Storage.Page.{PageId, PageId_discrete}
use db_smw.Storage.Disk.{Device}
use db_smw.Replacer.{frames}
use db_smw.Storage.Stored.{stored, page_in_range-ne}
use db_smw.Pool.{Pool, frame_of, forget}
use db_smw.Pool.Invariant.{IsSound, IsComplete, IsCoherent, view, Keeps, view_in, view_out}
use db_smw.Pool.Parts.{IsPicked}

-- The frame belongs to no page, and no list has it.
pub record IsReady {Disk Block : Type 0} (dev : Device Disk Block) (f : ℕ) (p : Pool Disk Block)
    : Type 0 where
  pub sound : IsSound p
  pub complete : IsComplete (λ g. g ≡ f) p
  pub coherent : IsCoherent dev p
  pub below : f < p.pool_size
  pub idle : (p.pages f).pin_count ≡ 0
  pub not_free : ¬ In f p.free_list
  pub not_evictable : ¬ In f (frames p.replacer)
  pub unmapped : (pid : PageId) → frame_of p pid ≢ some f

-- Two pools that differ in the frame `f` alone, and in the order of the page table.
pub record SameBut {Disk Block : Type 0} (f : ℕ) (p q : Pool Disk Block) : Type 0 where
  pub size : q.pool_size ≡ p.pool_size
  pub pages : (g : ℕ) → g ≢ f → q.pages g ≡ p.pages g
  pub pins : (q.pages f).pin_count ≡ (p.pages f).pin_count
  pub table : (pid : PageId) → frame_of q pid ≡ frame_of p pid
  pub free_list : q.free_list ≡ p.free_list
  pub replacer : q.replacer ≡ p.replacer
  pub disk : q.disk_manager.disk ≡ p.disk_manager.disk

module _ {Disk Block : Type 0} (dev : Device Disk Block) (f : ℕ) where
  module _ (p q : Pool Disk Block) (s : SameBut f p q) (r : IsReady dev f p) where
    other : (pid : PageId) (g : ℕ) → frame_of q pid ≡ some g → g ≢ f
    other pid g e h = r.unmapped pid (sym (s.table pid) ∙ e ∙ ap some h)

    same_page : (pid : PageId) (g : ℕ) → frame_of q pid ≡ some g → q.pages g ≡ p.pages g
    same_page pid g e = s.pages g (other pid g e)

    free_ne : (g : ℕ) → In g q.free_list → g ≢ f
    free_ne g i e = r.not_free (subst (In f) s.free_list (subst (λ h. In h q.free_list) e i))

    evictable_ne : (g : ℕ) → In g (frames q.replacer) → g ≢ f
    evictable_ne g i e =
        r.not_evictable
          (subst (λ h. In f (frames h)) s.replacer (subst (λ h. In h (frames q.replacer)) e i))

    SameBut-IsSound : IsSound q
    SameBut-IsSound = record {
      replacer_valid = rw s.replacer r.sound.replacer_valid;
      capacity = rw (s.replacer, s.size) r.sound.capacity;
      mapped =
          λ pid g e. rw (s.size, same_page pid g e) (r.sound.mapped pid g (sym (s.table pid) ∙ e));
      free =
          λ g i. rw (s.size, s.pages g (free_ne g i)) (r.sound.free g (subst (In g) s.free_list i));
      free_distinct = rw s.free_list r.sound.free_distinct;
      evictable = λ g i.
          rw (s.pages g (evictable_ne g i), s.table)
            (r.sound.evictable g (subst (λ h. In g (frames h)) s.replacer i));
    }

    SameBut-IsComplete : IsComplete (λ g. g ≡ f) q
    SameBut-IsComplete = record {
      waiting = λ pid g ne e z. rw s.replacer (
          r.complete.waiting pid g ne (sym (s.table pid) ∙ e)
            (subst (λ h. h.pin_count ≡ 0) (s.pages g ne) z));
      owned = λ g ne lt.
          rw (s.free_list, s.pages g ne, s.table)
            (r.complete.owned g ne (subst (λ h. g < h) s.size lt));
    }

    SameBut-IsCoherent : IsCoherent dev q
    SameBut-IsCoherent = record {
      clean = λ pid g e d z.
          let t = sym (s.table pid) ∙ e in
          let h = same_page pid g e in
          rw (s.disk, h)
            (r.coherent.clean pid g t (subst (λ a. a.is_dirty ≡ false) h d)
              (subst (λ a. a.pin_count ≡ 0) h z));
    }

    pub SameBut-IsReady : IsReady dev f q
    SameBut-IsReady = record {
      sound = SameBut-IsSound;
      complete = SameBut-IsComplete;
      coherent = SameBut-IsCoherent;
      below = rw s.size r.below;
      idle = s.pins ∙ r.idle;
      not_free = rw s.free_list r.not_free;
      not_evictable = rw s.replacer r.not_evictable;
      unmapped = λ pid e. r.unmapped pid (sym (s.table pid) ∙ e);
    }

    pub SameBut-view : (pid : PageId) → view dev q pid ≡ view dev p pid
    SameBut-view pid = elim (Option-cases (frame_of p pid)) [
      | inl e ↦
          view_out dev q pid (s.table pid ∙ e)
          ∙ ap (λ d. stored dev d pid) s.disk
          ∙ sym (view_out dev p pid e)
      | inr (g, e) ↦
          let t = s.table pid ∙ e in
          view_in dev q pid g t
          ∙ ap (λ h. some h.content) (same_page pid g t)
          ∙ sym (view_in dev p pid g e)
    ]

  -- Taking a frame that is clean, or has just been written, out of the page table.
  module _ (p : Pool Disk Block) (v : IsSound p) (c : IsComplete (λ g. g ≡ f) p)
      (k : IsCoherent dev p) (picked : IsPicked f p)
      (on_disk : frame_of p (p.pages f).id ≡ some f
        → stored dev p.disk_manager.disk (p.pages f).id ≡ some (p.pages f).content) where
    id : PageId
    id = (p.pages f).id

    frame_of-forget :
        (pid : PageId)
        → frame_of (forget f p) pid ≡ ite (PageId_discrete (p.pages f).id pid) none (frame_of p pid)
    unfolding forget
    frame_of-forget pid = find-erase PageId_discrete (p.pages f).id pid p.page_table

    forget-some :
        (pid : PageId) (g : ℕ)
        → frame_of (forget f p) pid ≡ some g
        → (frame_of p pid ≡ some g) × (g ≢ f)
    forget-some pid g e = ground (arith, frame_of-forget pid, v.mapped pid f, v.mapped pid g)

    forget_keeps :
        (pid : PageId) (g : ℕ)
        → frame_of p pid ≡ some g
        → g ≢ f
        → frame_of (forget f p) pid ≡ some g
    forget_keeps pid g e ne = ground (
      arith,
      frame_of-forget pid,
      picked.home,
      v.mapped pid g e,
      page_in_range-ne pid.page_no (v.mapped pid g e).2,
      ap (λ (q : PageId). q.page_no),
    )

    pub forget-IsReady : IsReady dev f (forget f p)
    unfolding forget
    forget-IsReady = record {
      sound = record {
        replacer_valid = v.replacer_valid;
        capacity = v.capacity;
        mapped = λ pid g e. v.mapped pid g (forget-some pid g e).0;
        free = v.free;
        free_distinct = v.free_distinct;
        evictable = λ g i.
            let (e, z) = v.evictable g i in
            (
              forget_keeps (p.pages g).id g e
                  (λ h. picked.not_evictable (subst (λ a. In a (frames p.replacer)) h i)),
              z,
            );
      };
      complete = record {
        waiting = λ pid g ne e z. c.waiting pid g ne (forget-some pid g e).0 z;
        owned = λ g ne lt. elim (c.owned g ne lt) [
          | inl i ↦ inl i
          | inr e ↦ inr (forget_keeps (p.pages g).id g e ne)
        ];
      };
      coherent = record { clean = λ pid g e. k.clean pid g (forget-some pid g e).0 };
      below = picked.below;
      idle = picked.idle;
      not_free = picked.not_free;
      not_evictable = picked.not_evictable;
      unmapped = λ pid e. (forget-some pid f e).1 refl;
    }

    pub forget-Keeps : Keeps dev p (forget f p)
    unfolding forget
    forget-Keeps pid b e = elim (Option-cases (frame_of p pid)) [
      | inl out ↦
          view_out dev (forget f p) pid (ground (arith, frame_of-forget pid))
          ∙ sym (view_out dev p pid out)
          ∙ e
      | inr (g, m) ↦ elim (ℕ_discrete g f) [
        | no ne ↦
            view_in dev (forget f p) pid g (forget_keeps pid g m ne)
            ∙ sym (view_in dev p pid g m)
            ∙ e
        | yes same ↦
            let here : frame_of p pid ≡ some f = m ∙ ap some same in
            let is_id = (v.mapped pid f here).1 in
            view_out dev (forget f p) pid (ground (arith, frame_of-forget pid))
            ∙ ap (stored dev p.disk_manager.disk) (sym is_id)
            ∙ on_disk (ap (frame_of p) is_id ∙ here)
            ∙ sym (view_in dev p pid f here)
            ∙ e
      ]
    ]
