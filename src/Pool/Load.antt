-- ===== src/Pool/Load.antt =====
-- What `fetch_page` promises, and the last part of it: a block is read into a ready frame.
use db_smw.Common.{
  true, ℕ, ◌<◌, ◌≡◌, refl, sym, ap, ◌∙◌, subst, inl, inr, if_pos, if_neg, Option, none, some, arith,
  ℕ_discrete, In, Option-cases,
}
use db_smw.Storage.Page.{PageId, PageId_discrete, Page}
use db_smw.Storage.Disk.{Device, offset, internal_error, Outcome, ok, throw, ◌>>=◌, read_page}
use db_smw.Replacer.{frames}
use db_smw.Storage.Stored.{stored_lem, page_in_range}
use db_smw.Pool.{Pool, frame_of, install, set_page}
use db_smw.Pool.Invariant.{IsSound, IsGood, view, Keeps, view_out}
use db_smw.Pool.Vacate.{IsReady, SameBut, SameBut-IsReady, SameBut-view}
use db_smw.Pool.Install.{install-IsGood, frame_of-install, view-install, page_self}
use db_smw.Pool.Transfer.{read_frame}

-- A frame that nobody has pinned and that no list has: it can never be used again.
pub record IsStranded {Disk Block : Type 0} (f : ℕ) (p : Pool Disk Block) : Type 0 where
  pub below : f < p.pool_size
  pub idle : (p.pages f).pin_count ≡ 0
  pub not_free : ¬ In f p.free_list
  pub not_evictable : ¬ In f (frames p.replacer)

-- Nobody could make room: every frame is pinned.
abbrev pub AllPinned : {Disk Block : Type 0} → Pool Disk Block → Type 0
AllPinned p = (f : ℕ) → f < p.pool_size → 0 < (p.pages f).pin_count

module _ {Disk Block : Type 0} (dev : Device Disk Block) where
  -- What each outcome of `fetch_page(pid)` on the pool `p` means.
  abbrev pub Fetched :
      PageId → Pool Disk Block → Outcome (Pool Disk Block) (Option ℕ × Pool Disk Block) → Type 0
  Fetched pid p (ok (some f, q)) =
      IsGood dev q
      × Keeps dev p q
      × (frame_of q pid ≡ some f)
      × ((b : Block) → view dev p pid ≡ some b → (q.pages f).content ≡ b)
      × (0 < (q.pages f).pin_count)
  Fetched pid p (ok (none, q)) = (q ≡ p) × AllPinned p × (frame_of p pid ≡ none)
  Fetched pid p (throw e q) =
      (e ≡ internal_error) × IsSound q × Keeps dev p q × ((f : ℕ) × IsStranded f q)

  -- The same, for the calls that have a frame to load the page into.
  abbrev pub Loaded :
      PageId → Pool Disk Block → Outcome (Pool Disk Block) (Option ℕ × Pool Disk Block) → Type 0
  Loaded pid p (ok (some f, q)) = Fetched pid p (ok (some f, q))
  Loaded pid p (ok (none, q)) = ⊥
  Loaded pid p (throw e q) = Fetched pid p (throw e q)

  pub Loaded-Fetched :
      (pid : PageId) (p : Pool Disk Block)
      (o : Outcome (Pool Disk Block) (Option ℕ × Pool Disk Block))
      → Loaded pid p o
      → Fetched pid p o
  Loaded-Fetched pid p (ok (some f, q)) l = l
  Loaded-Fetched pid p (ok (none, q)) l = absurd l
  Loaded-Fetched pid p (throw e q) l = l

  -- Only what can be read matters.
  pub Loaded-same :
      (pid : PageId) (p q : Pool Disk Block)
      (o : Outcome (Pool Disk Block) (Option ℕ × Pool Disk Block))
      → ((j : PageId) → view dev p j ≡ view dev q j)
      → Loaded pid p o
      → Loaded pid q o
  Loaded-same pid p q (ok (some f, r)) same (g, keeps, here, content, pinned) =
      (g, λ j b e. keeps j b (same j ∙ e), here, λ b e. content b (same pid ∙ e), pinned)
  Loaded-same pid p q (ok (none, r)) same l = l
  Loaded-same pid p q (throw e r) same (i, v, keeps, lost) =
      (i, v, λ j b h. keeps j b (same j ∙ h), lost)

  -- The last part of `fetch_page`: the block is read into a frame that is ready.
  module _ (p r : Pool Disk Block) (pid : PageId) (f : ℕ) (ready : IsReady dev f r)
      (out : frame_of r pid ≡ none) (valid : page_in_range pid.page_no ≡ true)
      (kept : Keeps dev p r) where
    abbrev holding : Block → Pool Disk Block
    holding b = set_page f (record (r.pages f) { content = b }) r

    holding-SameBut : (b : Block) → SameBut f r (holding b)
    holding-SameBut b = record {
      size = refl;
      pages = λ g ne. if_neg (ℕ_discrete f g) (λ h. ne (sym h)) _ _;
      pins = ap (λ (h : Page Block). h.pin_count) (if_pos (ℕ_discrete f f) refl _ _);
      table = λ j. refl;
      free_list = refl;
      replacer = refl;
      disk = refl;
    }

    holding-IsReady : (b : Block) → IsReady dev f (holding b)
    holding-IsReady b = SameBut-IsReady dev f r (holding b) (holding-SameBut b) ready

    content-holding : (b : Block) → ((holding b).pages f).content ≡ b
    content-holding b = ap (λ (h : Page Block). h.content) (if_pos (ℕ_discrete f f) refl _ _)

    holding-Keeps : (b : Block) → Keeps dev p (holding b)
    holding-Keeps b j c e =
        SameBut-view dev f r (holding b) (holding-SameBut b) ready j ∙ kept j c e

    read_some :
        (b : Block)
        → dev.read r.disk_manager.disk pid.fd (offset pid.page_no) ≡ some b
        → read_frame dev pid f r ≡ ok (holding b)
    unfolding read_frame read_page
    read_some b e = ground arith

    read_none :
        dev.read r.disk_manager.disk pid.fd (offset pid.page_no) ≡ none
        → read_frame dev pid f r
          ≡ throw internal_error (
              holding (
                dev.short_read r.disk_manager.disk pid.fd (offset pid.page_no) (r.pages f).content))
    unfolding read_frame read_page
    read_none e = ground arith

    -- What is read is what the page was, if it could be read.
    same_block :
        (b : Block)
        → dev.read r.disk_manager.disk pid.fd (offset pid.page_no) ≡ some b
        → (c : Block) → view dev p pid ≡ some c
        → b ≡ c
    same_block b e c h =
        cc (view_out dev r pid out, stored_lem dev r.disk_manager.disk pid valid, kept pid c h)

    install-Keeps :
        (b : Block)
        → dev.read r.disk_manager.disk pid.fd (offset pid.page_no) ≡ some b
        → Keeps dev p (install pid f (holding b)).1
    install-Keeps b e j c h =
        rw (view-install dev (holding b) pid f (holding-IsReady b) out valid j)
          (elim (PageId_discrete pid j) [
            | yes same ↦
                if_pos (PageId_discrete pid j) same _ _
                ∙ ap some (
                    content-holding b
                    ∙ same_block b e c (subst (λ a. view dev p a ≡ some c) (sym same) h))
            | no ne ↦ if_neg (PageId_discrete pid j) ne _ _ ∙ holding-Keeps b j c h
          ])

    installed_content : (b : Block) → ((install pid f (holding b)).1.pages f).content ≡ b
    installed_content b =
        ap (λ (h : Page Block). h.content)
          (page_self dev (holding b) pid f (holding-IsReady b) out valid)
        ∙ content-holding b

    pinned : (b : Block) → 0 < ((install pid f (holding b)).1.pages f).pin_count
    pinned b = omega (
      arith,
      ap (λ (h : Page Block). h.pin_count)
          (page_self dev (holding b) pid f (holding-IsReady b) out valid),
    )

    pub load_lem : Loaded pid p (read_frame dev pid f r >>= λ q. ok (install pid f q))
    unfolding install
    load_lem = elim (Option-cases (dev.read r.disk_manager.disk pid.fd (offset pid.page_no))) [
      | inl e ↦
          let b =
            dev.short_read r.disk_manager.disk pid.fd (offset pid.page_no) (r.pages f).content in
          let n = holding-IsReady b in
          rw (read_none e) (
            refl,
            n.sound,
            holding-Keeps b,
            (
              f,
              record {
                below = n.below;
                idle = n.idle;
                not_free = n.not_free;
                not_evictable = n.not_evictable;
              },
            ),
          )
      | inr (b, e) ↦ rw (read_some b e) (
        install-IsGood dev (holding b) pid f (holding-IsReady b) out valid,
        install-Keeps b e,
        frame_of-install dev (holding b) pid f (holding-IsReady b) out valid pid
            ∙ if_pos (PageId_discrete pid pid) refl _ _,
        λ c h. installed_content b ∙ same_block b e c h,
        pinned b,
      )
    ]
