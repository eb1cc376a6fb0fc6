-- ===== src/Pool/Install.antt =====
-- A ready frame goes to another page, with the block that it holds.
use db_smw.Common.{
  ℕ, ◌≡◌, ◌≢◌, refl, sym, ap, ◌∙◌, subst, ◌⊎◌, inl, inr, ite, if_pos, if_neg, true, false, none,
  some, arith, ℕ_discrete, In, Option-cases,
}
use db_smw.Common.Assoc.{find-assign}
use db_smw.Storage.Page.{PageId, PageId_discrete}
use db_smw.Storage.Disk.{Device}
use db_smw.Replacer.Order
use db_smw.Storage.Stored.{page_in_range}
use db_smw.Pool.{Pool, frame_of, install}
use db_smw.Pool.Invariant.{IsSound, IsComplete, IsCoherent, IsGood, view, Nobody, view_in, view_out}
use db_smw.Pool.Vacate.{IsReady}

module _ {Disk Block : Type 0} (dev : Device Disk Block) (p : Pool Disk Block) (pid : PageId)
    (f : ℕ) (r : IsReady dev f p) (out : frame_of p pid ≡ none)
    (valid : page_in_range pid.page_no ≡ true) where
  abbrev q : Pool Disk Block
  unfolding install
  q = (install pid f p).1

  pub frame_of-install :
      (j : PageId)
      → frame_of (install pid f p).1 j ≡ ite (PageId_discrete pid j) (some f) (frame_of p j)
  unfolding install
  frame_of-install j = find-assign PageId_discrete pid j f p.page_table

  -- A mapped frame is `f`, or was mapped before.
  install-some :
      (j : PageId) (g : ℕ)
      → frame_of (install pid f p).1 j ≡ some g
      → ((j ≡ pid) × (g ≡ f)) ⊎ ((j ≢ pid) × (g ≢ f) × (frame_of p j ≡ some g))
  install-some j g e = ground (arith, frame_of-install j, r.unmapped j)

  install_keeps :
      (j : PageId) (g : ℕ)
      → frame_of p j ≡ some g
      → (frame_of (install pid f p).1 j ≡ some g) × (g ≢ f)
  install_keeps j g e = ground (arith, frame_of-install j, r.unmapped j)

  pub page_ne : (g : ℕ) → g ≢ f → (install pid f p).1.pages g ≡ p.pages g
  unfolding install
  page_ne g ne = if_neg (ℕ_discrete f g) (λ h. ne (sym h)) _ _

  pub page_self :
      (install pid f p).1.pages f ≡ record (p.pages f) { id = pid; pin_count = 1; is_dirty = false }
  unfolding install
  page_self = if_pos (ℕ_discrete f f) refl _ _

  install-IsSound : IsSound (install pid f p).1
  unfolding install
  install-IsSound = record {
    replacer_valid = Order.pin-IsValid p.replacer r.sound.replacer_valid f;
    capacity = Order.max_size-pin p.replacer f ∙ r.sound.capacity;
    mapped = λ j g e. ground (arith, install-some j g e, r.sound.mapped j g, r.below);
    free = λ g i.
        rw (page_ne g (λ e. r.not_free (subst (λ h. In h p.free_list) e i))) (r.sound.free g i);
    free_distinct = r.sound.free_distinct;
    evictable = λ g i.
        let (k, ne) = Order.In-pin p.replacer r.sound.replacer_valid f g i in
        let (e, z) = r.sound.evictable g k in
        rw (page_ne g ne) ((install_keeps (p.pages g).id g e).0, z);
  }

  install-IsComplete : IsComplete Nobody (install pid f p).1
  unfolding install
  install-IsComplete = record {
    waiting = λ j g _ e z. elim (install-some j g e) [
      | inl (_, same) ↦ absurd (ground arith)
      | inr (_, ne, k) ↦
          Order.In-pin_ne p.replacer r.sound.replacer_valid f g
            (r.complete.waiting j g ne k (ground arith)) ne
    ];
    owned = λ g _ lt. elim (ℕ_discrete f g) [
      | yes e ↦ inr (ground (arith, frame_of-install pid))
      | no ne ↦ elim (r.complete.owned g (λ h. ne (sym h)) lt) [
        | inl i ↦ inl i
        | inr e ↦ inr (rw (page_ne g (λ h. ne (sym h))) (install_keeps (p.pages g).id g e).0)
      ]
    ];
  }

  install-IsCoherent : IsCoherent dev (install pid f p).1
  unfolding install
  install-IsCoherent = record {
    clean = λ j g e d z. elim (install-some j g e) [
      | inl (_, same) ↦ absurd (ground arith)
      | inr (_, ne, k) ↦ rw (page_ne g ne) (r.coherent.clean j g k (ground arith) (ground arith))
    ];
  }

  pub install-IsGood : IsGood dev (install pid f p).1
  install-IsGood = record {
    sound = install-IsSound;
    complete = install-IsComplete;
    coherent = install-IsCoherent;
  }

  -- Only the view of `pid` changes, to the block in the frame.
  pub view-install :
      (j : PageId)
      → view dev (install pid f p).1 j
        ≡ ite (PageId_discrete pid j) (some (p.pages f).content) (view dev p j)
  view-install j = elim (PageId_discrete pid j) [
    | yes e ↦
        view_in dev (install pid f p).1 j f (ground (arith, frame_of-install j))
        ∙ ap (λ h. some h.content) page_self
        ∙ sym (if_pos (PageId_discrete pid j) e _ _)
    | no ne ↦ rw (if_neg (PageId_discrete pid j) ne) (other j (λ e. ne (sym e)))
  ]
    where
      other : (j : PageId) → j ≢ pid → view dev (install pid f p).1 j ≡ view dev p j
      other j ne = elim (Option-cases (frame_of p j)) [
        | inl none_there ↦
            view_out dev (install pid f p).1 j (ground (arith, frame_of-install j))
            ∙ unfold install in sym (view_out dev p j none_there)
        | inr (g, e) ↦
            let (k, other_frame) = install_keeps j g e in
            view_in dev (install pid f p).1 j g k
            ∙ ap (λ h. some h.content) (page_ne g other_frame)
            ∙ sym (view_in dev p j g e)
      ]
