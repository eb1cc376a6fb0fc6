-- ===== src/Pool/Unpin.antt =====
-- `unpin_page` gives back one pin, and the page can be evicted when the last one is back.
use db_smw.Common.{
  ℕ, suc, ◌+◌, ◌-◌, ◌<◌, ◌≡◌, ◌≢◌, refl, sym, ap, ◌∙◌, subst, ◌⊎◌, inl, inr, if_pos, if_neg, Bool,
  true, false, some, arith, ℕ_discrete, update, In, Option-cases, Bool-cases, if◌then◌else◌, ◌==◌,
}
use db_smw.Storage.Page.{PageId, Page}
use db_smw.Storage.Disk.{Device}
use db_smw.Replacer
use db_smw.Replacer.{LruReplacer, frames}
use db_smw.Replacer.Order
use db_smw.Replacer.Queue
use db_smw.Storage.Stored.{stored}
use db_smw.Pool.{Pool, frame_of, unpin_frame, unpin_page}
use db_smw.Pool.Invariant.{
  IsSound, IsComplete, IsCoherent, IsGood, view, Nobody, view_same, free_unmapped,
}

module _ {Disk Block : Type 0} (dev : Device Disk Block) where
  -- What a caller owes who says that it did not change the page: unless the page is marked already,
  -- its block is on the disk.
  abbrev pub Owes : PageId → Bool → Pool Disk Block → Type 0
  Owes pid is_dirty p =
      (f : ℕ)
      → frame_of p pid ≡ some f
      → is_dirty ≡ false
      → (p.pages f).is_dirty ≡ false
      → stored dev p.disk_manager.disk pid ≡ some (p.pages f).content

  -- The two results of `unpin_page(pid, is_dirty)` on the pool `p`.
  abbrev pub Unpinned : PageId → Bool → Pool Disk Block → Bool × Pool Disk Block → Type 0
  Unpinned pid is_dirty p (false, q) =
      (q ≡ p) × ((f : ℕ) → frame_of p pid ≡ some f → (p.pages f).pin_count ≡ 0)
  Unpinned pid is_dirty p (true, q) =
      (f : ℕ) × (frame_of p pid ≡ some f)
      × ((q.pages f).pin_count + 1 ≡ (p.pages f).pin_count)
      × ((q.pages f).is_dirty ≡ (if is_dirty then true else (p.pages f).is_dirty))
      × IsGood dev q
      × ((j : PageId) → view dev q j ≡ view dev p j)

  module _ (p : Pool Disk Block) (g : IsGood dev p) (pid : PageId) (f : ℕ)
      (here : frame_of p pid ≡ some f) (is_dirty : Bool) (owes : Owes pid is_dirty p) (n : ℕ)
      (pins : (p.pages f).pin_count ≡ suc n) where
    -- the replacer after the call
    record Gives (s : LruReplacer) : Type 0 where
      valid : Order.IsValid s
      same_size : s.max_size ≡ p.replacer.max_size
      old : (h : ℕ) → In h (frames p.replacer) → In h (frames s)
      new : (h : ℕ) → In h (frames s) → In h (frames p.replacer) ⊎ ((h ≡ f) × (n ≡ 0))
      self : n ≡ 0 → In f (frames s)

    below : (h : ℕ) → In h (frames p.replacer) → h < p.replacer.max_size
    below h i = rw g.sound.capacity (g.sound.mapped (p.pages h).id h (g.sound.evictable h i).0).0

    last-Gives : n ≡ 0 → Gives (Replacer.unpin p.replacer f)
    last-Gives z = record {
      valid = Order.unpin-IsValid p.replacer g.sound.replacer_valid f;
      same_size = Order.max_size-unpin p.replacer f;
      old = λ h i. rw queue (Queue.In-enqueue_old p.replacer.max_size f h (frames p.replacer) i);
      new = λ h i.
          elim (Queue.In-enqueue p.replacer.max_size f h (frames p.replacer)
            (subst (In h) queue i)) [ inl k ↦ inl k | inr e ↦ inr (e, z) ];
      self = λ _. rw queue (
          Queue.In-enqueue_self p.replacer.max_size f (frames p.replacer)
            (Order.frames-Distinct p.replacer g.sound.replacer_valid) below
            (rw g.sound.capacity (g.sound.mapped pid f here).0));
    }
      where
        queue :
            frames (Replacer.unpin p.replacer f)
            ≡ Queue.enqueue p.replacer.max_size f (frames p.replacer)
        queue = Order.frames-unpin p.replacer g.sound.replacer_valid f

    more-Gives : n ≢ 0 → Gives p.replacer
    more-Gives ne = record {
      valid = g.sound.replacer_valid;
      same_size = refl;
      old = λ h i. i;
      new = λ h i. inl i;
      self = λ z. absurd (ne z);
    }

    module _ (s : LruReplacer) (gives : Gives s) where
      abbrev q : Pool Disk Block
      q = record p {
        pages = update p.pages f (record (p.pages f) {
          pin_count = n;
          is_dirty = if is_dirty then true else (p.pages f).is_dirty;
        });
        replacer = s;
      }

      page_ne : (h : ℕ) → h ≢ f → q.pages h ≡ p.pages h
      page_ne h ne = if_neg (ℕ_discrete f h) (λ e. ne (sym e)) _ _

      page_self : q.pages f ≡ record (p.pages f) {
        pin_count = n;
        is_dirty = if is_dirty then true else (p.pages f).is_dirty;
      }
      page_self = if_pos (ℕ_discrete f f) refl _ _

      page_same :
          (h : ℕ) → ((q.pages h).id ≡ (p.pages h).id) × ((q.pages h).content ≡ (p.pages h).content)
      page_same h = ground arith

      waiting_ne : (h : ℕ) → In h (frames p.replacer) → h ≢ f
      waiting_ne h i e =
          omega (arith, (g.sound.evictable h i).1, ap (λ (k : ℕ). (p.pages k).pin_count) e)

      q-IsSound : IsSound q
      q-IsSound = record {
        replacer_valid = gives.valid;
        capacity = gives.same_size ∙ g.sound.capacity;
        mapped = λ j h e. rw ((page_same h).0) (g.sound.mapped j h e);
        free = λ h i.
            rw
              (page_ne h
                (λ e. free_unmapped p g.sound f pid (subst (λ a. In a p.free_list) e i) here))
              (g.sound.free h i);
        free_distinct = g.sound.free_distinct;
        evictable = λ h i. elim (gives.new h i) [
          | inl k ↦ rw (page_ne h (waiting_ne h k)) (g.sound.evictable h k)
          | inr (e, z) ↦
              subst (λ a. (frame_of q (q.pages a).id ≡ some a) × ((q.pages a).pin_count ≡ 0))
                (sym e)
                (
                  ap (frame_of p) ((page_same f).0 ∙ (g.sound.mapped pid f here).1) ∙ here,
                  ap (λ (a : Page Block). a.pin_count) page_self ∙ z,
                )
        ];
      }

      q_pins : (q.pages f).pin_count ≡ n
      q_pins = ap (λ (a : Page Block). a.pin_count) page_self

      q-IsComplete : IsComplete Nobody q
      q-IsComplete = record {
        waiting = λ j h _ e z. elim (ℕ_discrete h f) [
          | yes same ↦
              subst (λ a. In a (frames s)) (sym same)
                (gives.self (sym q_pins ∙ ap (λ (a : ℕ). (q.pages a).pin_count) (sym same) ∙ z))
          | no ne ↦ gives.old h (
              g.complete.waiting j h (λ x. x) e
                (ap (λ (a : Page Block). a.pin_count) (sym (page_ne h ne)) ∙ z))
        ];
        owned = λ h _ lt. rw ((page_same h).0) (g.complete.owned h (λ x. x) lt);
      }

      marked : (q.pages f).is_dirty ≡ (if is_dirty then true else (p.pages f).is_dirty)
      marked = ap (λ (a : Page Block). a.is_dirty) page_self

      clean_here :
          (j : PageId)
          → frame_of p j ≡ some f
          → (if is_dirty then true else (p.pages f).is_dirty) ≡ false
          → stored dev p.disk_manager.disk j ≡ some (p.pages f).content
      clean_here j e d =
          subst (λ a. stored dev p.disk_manager.disk a ≡ some (p.pages f).content)
            (sym (g.sound.mapped pid f here).1 ∙ (g.sound.mapped j f e).1)
            (owes f here (ground arith) (ground arith))

      q-IsCoherent : IsCoherent dev q
      q-IsCoherent = record {
        clean = λ j h e d z. elim (ℕ_discrete h f) [
          | yes same ↦
              subst (λ a. stored dev p.disk_manager.disk j ≡ some (q.pages a).content) (sym same)
                (clean_here j (e ∙ ap some same)
                    (sym marked ∙ ap (λ (a : ℕ). (q.pages a).is_dirty) (sym same) ∙ d)
                  ∙ ap some (sym (page_same f).1))
          | no ne ↦ rw (page_ne h ne) (
              g.coherent.clean j h e (ap (λ (a : Page Block). a.is_dirty) (sym (page_ne h ne)) ∙ d)
                (ap (λ (a : Page Block). a.pin_count) (sym (page_ne h ne)) ∙ z))
        ];
      }

      q-Unpinned : Unpinned pid is_dirty p (true, q)
      q-Unpinned = (
        f,
        here,
        omega (arith, q_pins),
        marked,
        record { sound = q-IsSound; complete = q-IsComplete; coherent = q-IsCoherent },
        λ j. view_same dev p q j refl (λ h _. (page_same h).1) refl,
      )

  unpin_frame-Unpinned :
      (p : Pool Disk Block) (pid : PageId) (is_dirty : Bool)
      → IsGood dev p
      → Owes pid is_dirty p
      → (f : ℕ) → frame_of p pid ≡ some f
      → Unpinned pid is_dirty p (unpin_frame f is_dirty p)
  unfolding unpin_frame
  unpin_frame-Unpinned p pid is_dirty g owes f here =
      elim (Bool-cases ((p.pages f).pin_count == 0)) [
        | inl z ↦ rw z (refl, λ h e. ground arith)
        | inr pinned ↦
            let n = (p.pages f).pin_count - 1 in
            let pins : (p.pages f).pin_count ≡ suc n = ground arith in
            elim (Bool-cases (n == 0)) [
              | inl z ↦
                  rw (pinned, z)
                    (q-Unpinned p g pid f here is_dirty owes n pins _
                      (last-Gives p g pid f here is_dirty owes n pins (ground arith)))
              | inr z ↦
                  rw (pinned, z)
                    (q-Unpinned p g pid f here is_dirty owes n pins _
                      (more-Gives p g pid f here is_dirty owes n pins (ground arith)))
            ]
      ]

  -- On a pool that meets the invariant, where the caller owes nothing: `unpin_page` either changes
  -- nothing and returns false, the page being absent or its frame unpinned; or it returns true, takes
  -- one pin off the page's frame, marks it dirty as asked, keeps the invariant, and changes no page.
  pub unpin_page-Unpinned :
      (p : Pool Disk Block) (pid : PageId) (is_dirty : Bool)
      → IsGood dev p
      → Owes pid is_dirty p
      → Unpinned pid is_dirty p (unpin_page pid is_dirty p)
  unfolding unpin_page
  unpin_page-Unpinned p pid is_dirty g owes = elim (Option-cases (frame_of p pid)) [
    | inl e ↦ rw (e, unpin_page) (refl, λ f h. cc)
    | inr (f, e) ↦ rw (e, unpin_page) (unpin_frame-Unpinned p pid is_dirty g owes f e)
  ]
