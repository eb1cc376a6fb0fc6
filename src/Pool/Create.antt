-- ===== src/Pool/Create.antt =====
-- `new_page`: a zeroed, pinned frame under the file's next page number.
use db_smw.Common.{
  ℕ, ◌<◌, ◌≡◌, ◌≢◌, refl, sym, ap, ◌∙◌, subst, inl, inr, if_pos, if_neg, true, false, [], Option,
  none, some, arith, ℕ_discrete, Bool-cases, ite,
}
use db_smw.Common.Int.{ℤ, pos, suc_ℤ, ℤ_discrete}
use db_smw.Common.Assoc.{find-erase}
use db_smw.Storage.Page.{PageId, PageId_discrete, Page}
use db_smw.Storage.Disk.{
  Device, IsDevice, DiskManager, internal_error, Outcome, ok, throw, max_fd, next_int,
  allocate_page,
}
use db_smw.Replacer.{frames}
use db_smw.Storage.Stored.{page_in_range, next_int_lem}
use db_smw.Pool.{Pool, frame_of, forget, install, set_page}
use db_smw.Pool.Invariant.{IsSound, IsComplete, IsCoherent, IsGood, view, Keeps}
use db_smw.Pool.Parts.{
  IsPicked, victim_page_cases, free-IsSound, free-IsComplete, free-IsPicked, replacer-IsSound,
  replacer-IsComplete, replacer-IsPicked,
}
use db_smw.Pool.Vacate.{IsReady, SameBut, SameBut-IsReady, SameBut-view}
use db_smw.Pool.Install.{install-IsGood, frame_of-install, view-install, page_self}
use db_smw.Pool.Write.{was_written, written, write_frame_lem, written-IsSound, written-Keeps}
use db_smw.Pool.Evict.{
  dirty_home, written-IsReady, forget-written-Keeps, clean-IsReady, forget-clean-Keeps,
}
use db_smw.Pool.Load.{IsStranded, AllPinned}
use db_smw.Pool.Fetch.{all_pinned}
use db_smw.Pool.Transfer.{write_if_dirty, place_page, new_page_at, new_page}

-- the id that the file's counter gives next
abbrev pub next_page : {Disk Block : Type 0} → ℕ → Pool Disk Block → PageId
next_page n p = record { fd = pos n; page_no = p.disk_manager.fd2pageno (pos n) }

module _ {Disk : Type 0} where
  -- the disk manager with the counter of the file moved on
  abbrev pub bumped : ℕ → DiskManager Disk → DiskManager Disk
  bumped n m = record m {
    fd2pageno = λ fd. ite (ℤ_discrete (pos n) fd) (next_int (m.fd2pageno (pos n))) (m.fd2pageno fd);
  }

  allocate_page_lem :
      (n : ℕ) (m : DiskManager Disk)
      → n < max_fd
      → allocate_page m (pos n) ≡ ok (m.fd2pageno (pos n), bumped n m)
  unfolding allocate_page
  allocate_page_lem n m lt = ground arith

module _ {Disk Block : Type 0} (dev : Device Disk Block) (zeros : Block) (n : ℕ) where
  -- What each outcome of `new_page` on the pool `p` means, for the file `n`.
  abbrev pub Created :
      Pool Disk Block → Outcome (Pool Disk Block) (Option (ℕ × PageId) × Pool Disk Block) → Type 0
  Created p (ok (some (f, pid), q)) =
      (pid ≡ next_page n p)
      × IsGood dev q
      × (frame_of q pid ≡ some f)
      × ((q.pages f).content ≡ zeros)
      × ((q.pages f).pin_count ≡ 1)
      × ((j : PageId) (b : Block) → pid ≢ j → view dev p j ≡ some b → view dev q j ≡ some b)
      × (q.disk_manager.fd2pageno (pos n) ≡ suc_ℤ (p.disk_manager.fd2pageno (pos n)))
  Created p (ok (none, q)) = (q ≡ p) × AllPinned p
  Created p (throw e q) =
      (e ≡ internal_error) × IsSound q × Keeps dev p q × ((f : ℕ) × IsStranded f q)

  -- The same, where there is a frame.
  abbrev pub Made :
      Pool Disk Block → Outcome (Pool Disk Block) (Option (ℕ × PageId) × Pool Disk Block) → Type 0
  Made p (ok (some (f, pid), q)) = Created p (ok (some (f, pid), q))
  Made p (ok (none, q)) = ⊥
  Made p (throw e q) = Created p (throw e q)

  -- Only what can be read matters, and the counter.
  Made-same :
      (p q : Pool Disk Block)
      (o : Outcome (Pool Disk Block) (Option (ℕ × PageId) × Pool Disk Block))
      → ((j : PageId) → view dev p j ≡ view dev q j)
      → p.disk_manager ≡ q.disk_manager
      → Made p o
      → Created q o
  Made-same p q (ok (some (f, pid), r)) same dm (e, g, here, content, pinned, keeps, count) = (
    e ∙ ap (λ (m : DiskManager Disk). record { fd = pos n; page_no = m.fd2pageno (pos n) }) dm,
    g,
    here,
    content,
    pinned,
    λ j b ne h. keeps j b ne (same j ∙ h),
    count ∙ ap (λ (m : DiskManager Disk). suc_ℤ (m.fd2pageno (pos n))) dm,
  )
  Made-same p q (ok (none, r)) same dm l = absurd l
  Made-same p q (throw e r) same dm (i, v, keeps, lost) =
      (i, v, λ j b h. keeps j b (same j ∙ h), lost)

  -- The last part of `new_page`, on a ready frame.
  module _ (p r : Pool Disk Block) (f : ℕ) (ready : IsReady dev f r)
      (out : frame_of r (next_page n p) ≡ none)
      (valid : page_in_range (next_page n p).page_no ≡ true) (kept : Keeps dev p r)
      (count : r.disk_manager.fd2pageno ≡ p.disk_manager.fd2pageno) where
    abbrev blank : Pool Disk Block
    blank =
        set_page f (record (r.pages f) { content = zeros })
          (record r { disk_manager = bumped n r.disk_manager })

    blank-SameBut : SameBut f r blank
    blank-SameBut = record {
      size = refl;
      pages = λ g ne. if_neg (ℕ_discrete f g) (λ h. ne (sym h)) _ _;
      pins = ap (λ (h : Page Block). h.pin_count) (if_pos (ℕ_discrete f f) refl _ _);
      table = λ j. refl;
      free_list = refl;
      replacer = refl;
      disk = refl;
    }

    blank-IsReady : IsReady dev f blank
    blank-IsReady = SameBut-IsReady dev f r blank blank-SameBut ready

    abbrev placed : Pool Disk Block
    unfolding install
    placed = (install (next_page n p) f blank).1

    placed_keeps :
        (j : PageId) (b : Block)
        → next_page n p ≢ j
        → view dev p j ≡ some b
        → view dev (install (next_page n p) f blank).1 j ≡ some b
    placed_keeps j b ne h =
        view-install dev blank (next_page n p) f blank-IsReady out valid j
        ∙ if_neg (PageId_discrete (next_page n p) j) ne _ _
        ∙ SameBut-view dev f r blank blank-SameBut ready j
        ∙ kept j b h

    bumped_count :
        (bumped n r.disk_manager).fd2pageno (pos n) ≡ suc_ℤ (p.disk_manager.fd2pageno (pos n))
    bumped_count =
        if_pos (ℤ_discrete (pos n) (pos n)) refl _ _
        ∙ next_int_lem (r.disk_manager.fd2pageno (pos n))
            (ap (λ (c : ℤ → ℤ). page_in_range (c (pos n))) count ∙ valid)
        ∙ ap (λ (c : ℤ → ℤ). suc_ℤ (c (pos n))) count

    placed_lem : Created p (ok (some (f, next_page n p), (install (next_page n p) f blank).1))
    unfolding install
    placed_lem = (
      refl,
      install-IsGood dev blank (next_page n p) f blank-IsReady out valid,
      frame_of-install dev blank (next_page n p) f blank-IsReady out valid (next_page n p)
          ∙ if_pos (PageId_discrete (next_page n p) (next_page n p)) refl _ _,
      ap (λ (h : Page Block). h.content)
            (page_self dev blank (next_page n p) f blank-IsReady out valid)
          ∙ ap (λ (h : Page Block). h.content) (if_pos (ℕ_discrete f f) refl _ _),
      ap (λ (h : Page Block). h.pin_count)
          (page_self dev blank (next_page n p) f blank-IsReady out valid),
      placed_keeps,
      bumped_count,
    )

module _ {Disk Block : Type 0} (dev : Device Disk Block) (laws : IsDevice dev) (zeros : Block)
    (n : ℕ) (lt : n < max_fd) where
  still_out :
      (q : Pool Disk Block) (f : ℕ) (pid : PageId)
      → frame_of q pid ≡ none
      → frame_of (forget f q) pid ≡ none
  unfolding forget
  still_out q f pid e = ground (arith, find-erase PageId_discrete (q.pages f).id pid q.page_table)

  place_page_lem :
      (r : Pool Disk Block) (f : ℕ)
      → place_page dev zeros (pos n) f r
        ≡ ok (
          some (f, next_page n r),
          (install (next_page n r) f (
              set_page f
                (record (r.pages f) { content = zeros })
                (record r { disk_manager = bumped n r.disk_manager }))).1,
        )
  unfolding place_page
  place_page_lem r f = rw (place_page, allocate_page_lem n r.disk_manager lt) refl

  module _ (q : Pool Disk Block) (f : ℕ) (v : IsSound q) (c : IsComplete (λ g. g ≡ f) q)
      (k : IsCoherent dev q) (picked : IsPicked f q) (out : frame_of q (next_page n q) ≡ none)
      (valid : page_in_range (next_page n q).page_no ≡ true) where
    new_clean :
        (q.pages f).is_dirty ≡ false
        → Made dev zeros n q (new_page_at dev zeros (pos n) (some f, q))
    unfolding new_page_at write_if_dirty forget
    new_clean d = rw d (
        subst (Made dev zeros n q) (sym (place_page_lem (forget f q) f)) (
          placed_lem dev zeros n q (forget f q) f (clean-IsReady dev laws q f v c k picked d)
            (still_out q f (next_page n q) out) valid
            (forget-clean-Keeps dev laws q f v c k picked d) refl))

    new_dirty :
        (q.pages f).is_dirty ≡ true → Made dev zeros n q (new_page_at dev zeros (pos n) (some f, q))
    unfolding new_page_at write_if_dirty forget
    new_dirty d = elim (Bool-cases (was_written dev (q.pages f).id f q)) [
      | inr e ↦
          rw (d, write_frame_lem dev (q.pages f).id f q, e)
            (
              refl,
              written-IsSound dev (q.pages f).id f q v,
              written-Keeps dev (q.pages f).id f q laws v (dirty_home dev laws q f v c k picked d),
              (
                f,
                record {
                  below = picked.below;
                  idle = picked.idle;
                  not_free = picked.not_free;
                  not_evictable = picked.not_evictable;
                },
              ),
            )
      | inl e ↦
          let w = written dev (q.pages f).id f q in
          rw (d, write_frame_lem dev (q.pages f).id f q, e)
            (subst (Made dev zeros n q) (sym (place_page_lem (forget f w) f)) (
              placed_lem dev zeros n q (forget f w) f
                (written-IsReady dev laws q f v c k picked d e) (still_out w f (next_page n q) out)
                valid (forget-written-Keeps dev laws q f v c k picked d e) refl))
    ]

    new_into : Made dev zeros n q (new_page_at dev zeros (pos n) (some f, q))
    new_into = elim (Bool-cases (q.pages f).is_dirty) [ inl d ↦ new_dirty d | inr d ↦ new_clean d ]

  none_left :
      (p : Pool Disk Block)
      → IsGood dev p
      → p.free_list ≡ []
      → frames p.replacer ≡ []
      → Created dev zeros n p (new_page_at dev zeros (pos n) (none, p))
  unfolding new_page_at
  none_left p g e h = (refl, all_pinned dev laws p g e h)

  -- On a pool that meets the invariant, for a file descriptor below MAX_FD whose next page number is
  -- from 0 to 2 ^ 19 - 1 and whose next id is not in the pool: if `new_page` returns a frame, it is pinned once and
  -- zeroed, mapped to that id, which is the id given out, the file's counter has moved on by one, the
  -- invariant holds, and every other page that could be read is unchanged; if it returns `nullptr`,
  -- nothing changed and every frame is pinned; if it throws, it is the disk's error, the pool is sound,
  -- pages are unchanged, and one unpinned frame is in neither list.
  pub new_page-Created :
      (p : Pool Disk Block)
      → IsGood dev p
      → frame_of p (next_page n p) ≡ none
      → page_in_range (next_page n p).page_no ≡ true
      → Created dev zeros n p (new_page dev zeros (pos n) p)
  unfolding new_page
  new_page-Created p g out valid =
      victim_page_cases (λ r. Created dev zeros n p (new_page_at dev zeros (pos n) r)) p
        g.sound.replacer_valid (none_left p g)
        (λ f rest e.
          Made-same dev zeros n (record p { free_list = rest }) p _ (λ j. refl) refl
            (new_into (record p { free_list = rest }) f (free-IsSound p g.sound g.complete f rest e)
              (free-IsComplete p g.sound g.complete f rest e) (record { clean = g.coherent.clean })
              (free-IsPicked p g.sound g.complete f rest e) out valid))
        (λ f s e h cap w.
          Made-same dev zeros n (record p { replacer = s }) p _ (λ j. refl) refl
            (new_into (record p { replacer = s }) f
              (replacer-IsSound p g.sound g.complete f s h cap w)
              (replacer-IsComplete p g.sound g.complete f s h cap w)
              (record { clean = g.coherent.clean })
              (replacer-IsPicked p g.sound g.complete f s h cap w) out valid))
