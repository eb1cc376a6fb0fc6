-- ===== src/Pool/Fetch.antt =====
-- `fetch_page`: the page is in the returned frame, pinned, and nothing that can be read is lost.
use db_smw.Common.{
  ℕ, suc, ◌≤◌, ◌<◌, ◌≡◌, ◌≢◌, refl, sym, ap, ◌∙◌, subst, inl, inr, if_pos, if_neg, true, false,
  List, [], none, some, arith, ℕ_discrete, update, In, Option-cases, Bool-cases,
}
use db_smw.Common.Assoc.{find, erase, assign, find-erase, find-assign}
use db_smw.Storage.Page.{PageId, PageId_discrete, Page}
use db_smw.Storage.Disk.{Device, IsDevice, ok}
use db_smw.Replacer.{frames}
use db_smw.Replacer.Order
use db_smw.Storage.Stored.{page_in_range}
use db_smw.Pool.{Pool, frame_of, forget, set_page, fetch_present}
use db_smw.Pool.Invariant.{
  IsSound, IsComplete, IsCoherent, IsGood, view, Keeps, Nobody, view_in, view_same, free_unmapped,
}
use db_smw.Pool.Parts.{
  IsPicked, victim_page_cases, free-IsSound, free-IsComplete, free-IsPicked, replacer-IsSound,
  replacer-IsComplete, replacer-IsPicked,
}
use db_smw.Pool.Vacate.{IsReady, SameBut, SameBut-IsReady, SameBut-view}
use db_smw.Pool.Write.{write_frame_lem, was_written, written, written-IsSound, written-Keeps}
use db_smw.Pool.Transfer.{fetch_missing, fetch_page}
use db_smw.Pool.Evict.{
  dirty_home, written-IsReady, forget-written-Keeps, clean-IsReady, forget-clean-Keeps,
}
use db_smw.Pool.Load.{Loaded-same, AllPinned, Fetched, Loaded, Loaded-Fetched, load_lem}

-- A new entry for `pid`, once erased, leaves the table as it was.
same_entries :
    (new old old' j : PageId) (f : ℕ) (t : List (PageId × ℕ)) {pid : PageId}
    → new ≡ pid
    → old' ≡ old
    → find PageId_discrete pid t ≡ none
    → find PageId_discrete j
        (erase PageId_discrete new (assign PageId_discrete pid f (erase PageId_discrete old' t)))
      ≡ find PageId_discrete j (erase PageId_discrete old t)
same_entries new old old' j f t {pid} e h out = ground (
  arith,
  find-erase PageId_discrete new j (assign PageId_discrete pid f (erase PageId_discrete old' t)),
  find-assign PageId_discrete pid j f (erase PageId_discrete old' t),
  find-erase PageId_discrete old' j t,
  find-erase PageId_discrete old j t,
)

module _ {Disk Block : Type 0} (dev : Device Disk Block) (laws : IsDevice dev) where
  module _ (q : Pool Disk Block) (pid : PageId) (f : ℕ) (v : IsSound q)
      (c : IsComplete (λ g. g ≡ f) q) (k : IsCoherent dev q) (picked : IsPicked f q)
      (out : frame_of q pid ≡ none) (valid : page_in_range pid.page_no ≡ true) where
    abbrev old : PageId
    old = (q.pages f).id

    still_out : (r : Pool Disk Block) → frame_of r pid ≡ none → frame_of (forget f r) pid ≡ none
    unfolding forget
    still_out r e = ground (arith, find-erase PageId_discrete (r.pages f).id pid r.page_table)

    abbrev updated : Pool Disk Block
    updated =
        let w = set_page f (record (q.pages f) { is_dirty = false }) (written dev old f q) in
        record w {
          pages = update w.pages f (record (w.pages f) { id = pid });
          page_table =
              assign PageId_discrete pid f (erase PageId_discrete (w.pages f).id w.page_table);
        }

    -- the frames once `is_dirty_` is false
    abbrev marked : ℕ → Page Block
    marked = update q.pages f (record (q.pages f) { is_dirty = false })

    marked_self : marked f ≡ record (q.pages f) { is_dirty = false }
    marked_self = if_pos (ℕ_discrete f f) refl _ _

    updated-SameBut : SameBut f (forget f (written dev old f q)) (forget f updated)
    unfolding forget
    updated-SameBut = record {
      size = refl;
      pages = λ g ne.
          if_neg (ℕ_discrete f g) (λ h. ne (sym h)) _ _
          ∙ if_neg (ℕ_discrete f g) (λ h. ne (sym h)) _ _;
      pins =
          ap (λ (h : Page Block). h.pin_count) (if_pos (ℕ_discrete f f) refl _ (marked f))
          ∙ ap (λ (h : Page Block). h.pin_count) marked_self;
      table = λ j.
          same_entries (updated.pages f).id old (marked f).id j f q.page_table
            (ap (λ (h : Page Block). h.id) (if_pos (ℕ_discrete f f) refl _ (marked f)))
            (ap (λ (h : Page Block). h.id) marked_self) out;
      free_list = refl;
      replacer = refl;
      disk = refl;
    }

    module _ (d : (q.pages f).is_dirty ≡ true) (e : was_written dev old f q ≡ true) where
      updated-IsReady : IsReady dev f (forget f updated)
      updated-IsReady =
          SameBut-IsReady dev f _ _ updated-SameBut (written-IsReady dev laws q f v c k picked d e)

      updated-Keeps : Keeps dev q (forget f updated)
      updated-Keeps j b h =
          SameBut-view dev f _ _ updated-SameBut (written-IsReady dev laws q f v c k picked d e) j
          ∙ forget-written-Keeps dev laws q f v c k picked d e j b h

      updated_out : frame_of (forget f updated) pid ≡ none
      updated_out = updated-SameBut.table pid ∙ still_out (written dev old f q) out

    load_clean : (q.pages f).is_dirty ≡ false → Loaded dev pid q (fetch_missing dev pid (some f, q))
    unfolding fetch_missing
    load_clean d = rw d (
        load_lem dev q (forget f q) pid f (clean-IsReady dev laws q f v c k picked d)
          (still_out q out) valid (forget-clean-Keeps dev laws q f v c k picked d))

    load_dirty : (q.pages f).is_dirty ≡ true → Loaded dev pid q (fetch_missing dev pid (some f, q))
    unfolding fetch_missing
    load_dirty d = elim (Bool-cases (was_written dev old f q)) [
      | inr e ↦
          rw (d, write_frame_lem dev old f q, e)
            (
              refl,
              written-IsSound dev old f q v,
              written-Keeps dev old f q laws v (dirty_home dev laws q f v c k picked d),
              (
                f,
                record {
                  below = picked.below;
                  idle = picked.idle;
                  not_free = picked.not_free;
                  not_evictable = picked.not_evictable;
                },
              ),
            )
      | inl e ↦
          rw (d, write_frame_lem dev old f q, e)
            (load_lem dev q (forget f updated) pid f (updated-IsReady d e) (updated_out d e) valid
              (updated-Keeps d e))
    ]

    load_into : Loaded dev pid q (fetch_missing dev pid (some f, q))
    load_into = elim (Bool-cases (q.pages f).is_dirty) [
      | inl d ↦ load_dirty d
      | inr d ↦ load_clean d
    ]

  module _ (p : Pool Disk Block) (g : IsGood dev p) (pid : PageId) where
    abbrev after_fetch : ℕ → Pool Disk Block
    unfolding fetch_present
    after_fetch f = (fetch_present f p).1

    module _ (f : ℕ) (here : frame_of p pid ≡ some f) where
      present_ne : (h : ℕ) → h ≢ f → (fetch_present f p).1.pages h ≡ p.pages h
      unfolding fetch_present
      present_ne h ne = if_neg (ℕ_discrete f h) (λ e. ne (sym e)) _ _

      present_self :
          (fetch_present f p).1.pages f
          ≡ record (p.pages f) { pin_count = suc (p.pages f).pin_count }
      unfolding fetch_present
      present_self = if_pos (ℕ_discrete f f) refl _ _

      -- The frame keeps its page and its block.
      present_same :
          (h : ℕ)
          → (((fetch_present f p).1.pages h).id ≡ (p.pages h).id)
            × (((fetch_present f p).1.pages h).content ≡ (p.pages h).content)
            × (((fetch_present f p).1.pages h).is_dirty ≡ (p.pages h).is_dirty)
            × ((p.pages h).pin_count ≤ ((fetch_present f p).1.pages h).pin_count)
      unfolding fetch_present
      present_same h = ground arith

      present_idle :
          (h : ℕ)
          → ((fetch_present f p).1.pages h).pin_count ≡ 0
          → (h ≢ f) × ((p.pages h).pin_count ≡ 0)
      unfolding fetch_present
      present_idle h z = ground arith

      present-IsSound : IsSound (fetch_present f p).1
      unfolding fetch_present
      present-IsSound = record {
        replacer_valid = Order.pin-IsValid p.replacer g.sound.replacer_valid f;
        capacity = Order.max_size-pin p.replacer f ∙ g.sound.capacity;
        mapped = λ j h e. rw ((present_same h).0) (g.sound.mapped j h e);
        free = λ h i.
            rw
              (present_ne h
                (λ e. free_unmapped p g.sound f pid (subst (λ a. In a p.free_list) e i) here))
              (g.sound.free h i);
        free_distinct = g.sound.free_distinct;
        evictable = λ h i.
            let (k, ne) = Order.In-pin p.replacer g.sound.replacer_valid f h i in
            rw (present_ne h ne) (g.sound.evictable h k);
      }

      present-IsComplete : IsComplete Nobody (fetch_present f p).1
      unfolding fetch_present
      present-IsComplete = record {
        waiting = λ j h _ e z.
            let (ne, z') = present_idle h z in
            Order.In-pin_ne p.replacer g.sound.replacer_valid f h
              (g.complete.waiting j h (λ x. x) e z') ne;
        owned = λ h _ lt. rw ((present_same h).0) (g.complete.owned h (λ x. x) lt);
      }

      present-IsCoherent : IsCoherent dev (fetch_present f p).1
      unfolding fetch_present
      present-IsCoherent = record {
        clean = λ j h e d z.
            let (ne, z') = present_idle h z in
            rw (present_ne h ne) (g.coherent.clean j h e (sym (present_same h).2 ∙ d) z');
      }

      view-present : (j : PageId) → view dev (fetch_present f p).1 j ≡ view dev p j
      unfolding fetch_present
      view-present j = view_same dev p (fetch_present f p).1 j refl (λ h _. (present_same h).1) refl

      present-Fetched : Fetched dev pid p (ok (fetch_present f p))
      unfolding fetch_present
      present-Fetched = (
        record {
          sound = present-IsSound;
          complete = present-IsComplete;
          coherent = present-IsCoherent;
        },
        (λ j b e. view-present j ∙ e),
        here,
        λ b e. (present_same f).1 ∙ cc (view_in dev p pid f here),
        omega (arith, ap (λ (h : Page Block). h.pin_count) present_self),
      )

  -- Nobody can be evicted.
  pub all_pinned :
      (p : Pool Disk Block) → IsGood dev p → p.free_list ≡ [] → frames p.replacer ≡ [] → AllPinned p
  all_pinned p g e h f lt = elim (g.complete.owned f (λ z. z) lt) [
    | inl i ↦ absurd (subst (In f) e i)
    | inr m ↦
        positive (p.pages f).pin_count
          (λ z. subst (In f) h (g.complete.waiting (p.pages f).id f (λ x. x) m z))
  ]
    where
      positive : (n : ℕ) → n ≢ 0 → 0 < n
      positive n ne = omega arith

  -- On a pool that meets the invariant, for a page number from 0 to 2 ^ 19 - 1: if `fetch_page` returns a frame, the page is
  -- in it and pinned, with the block that it had (if it had one), the invariant holds, and every page
  -- that could be read is unchanged; if it returns `nullptr`, nothing changed, the page is absent and
  -- every frame is pinned; if it throws, it is the disk's error, the pool is sound, pages are unchanged,
  -- and one unpinned frame is in neither list.
  pub fetch_page-Fetched :
      (p : Pool Disk Block) (pid : PageId)
      → IsGood dev p
      → page_in_range pid.page_no ≡ true
      → Fetched dev pid p (fetch_page dev pid p)
  unfolding fetch_page
  fetch_page-Fetched p pid g valid = elim (Option-cases (frame_of p pid)) [
    | inr (f, e) ↦ rw (e, fetch_page) (present-Fetched p g pid f e)
    | inl out ↦
        rw (out, fetch_page)
          (victim_page_cases (λ r. Fetched dev pid p (fetch_missing dev pid r)) p
            g.sound.replacer_valid (λ e h. (refl, all_pinned p g e h, out))
            (λ f rest e. Loaded-Fetched dev pid p _ (
              Loaded-same dev pid (record p { free_list = rest }) p _ (λ j. refl)
                (load_into (record p { free_list = rest }) pid f
                  (free-IsSound p g.sound g.complete f rest e)
                  (free-IsComplete p g.sound g.complete f rest e)
                  (record { clean = g.coherent.clean })
                  (free-IsPicked p g.sound g.complete f rest e) out valid)))
            (λ f s e h cap w. Loaded-Fetched dev pid p _ (
              Loaded-same dev pid (record p { replacer = s }) p _ (λ j. refl)
                (load_into (record p { replacer = s }) pid f
                  (replacer-IsSound p g.sound g.complete f s h cap w)
                  (replacer-IsComplete p g.sound g.complete f s h cap w)
                  (record { clean = g.coherent.clean })
                  (replacer-IsPicked p g.sound g.complete f s h cap w) out valid))))
  ]
