-- ===== src/Pool/Invariant.antt =====
-- What holds of the buffer pool between calls, and what its frames hold for each page id.
use db_smw.Common.{
  ℕ, ◌<◌, ◌≡◌, ◌≢◌, sym, ap, ◌∙◌, ◌⊎◌, inl, inr, true, false, Option, none, some, arith, In,
  Distinct, Option-cases,
}
use db_smw.Common.Int.{minus_one}
use db_smw.Storage.Page.{PageId}
use db_smw.Storage.Disk.{Device}
use db_smw.Replacer.{frames}
use db_smw.Replacer.Order
use db_smw.Storage.Stored.{stored, page_in_range, page_in_range-ne}
use db_smw.Pool.{Pool, frame_of}

-- The page table, the free list and the replacer agree with the frames, and a page in the pool is in
-- range.
pub record IsSound {Disk Block : Type 0} (p : Pool Disk Block) : Type 0 where
  pub replacer_valid : Order.IsValid p.replacer
  pub capacity : p.replacer.max_size ≡ p.pool_size
  pub mapped :
      (pid : PageId) (f : ℕ)
      → frame_of p pid ≡ some f
      → (f < p.pool_size) × ((p.pages f).id ≡ pid) × (page_in_range pid.page_no ≡ true)
  pub free :
      (f : ℕ)
      → In f p.free_list
      → (f < p.pool_size)
        × ((p.pages f).pin_count ≡ 0)
        × ((p.pages f).is_dirty ≡ false)
        × ((p.pages f).id.page_no ≡ minus_one)
  pub free_distinct : Distinct p.free_list
  pub evictable :
      (f : ℕ)
      → In f (frames p.replacer)
      → (frame_of p (p.pages f).id ≡ some f) × ((p.pages f).pin_count ≡ 0)

-- No frame is lost: but for those in `out`, each one is free or mapped, and each mapped frame that
-- nobody has pinned can be evicted.
pub record IsComplete {Disk Block : Type 0} (out : ℕ → Type 0) (p : Pool Disk Block) : Type 0 where
  pub waiting :
      (pid : PageId) (f : ℕ)
      → ¬ out f
      → frame_of p pid ≡ some f
      → (p.pages f).pin_count ≡ 0
      → In f (frames p.replacer)
  pub owned :
      (f : ℕ) → ¬ out f → f < p.pool_size → In f p.free_list ⊎ (frame_of p (p.pages f).id ≡ some f)

-- A free frame belongs to no page.
pub free_unmapped :
    {Disk Block : Type 0} (p : Pool Disk Block)
    → IsSound p
    → (f : ℕ) (pid : PageId) → In f p.free_list
    → frame_of p pid ≢ some f
free_unmapped p v f pid i e =
    let (lt, same, fits) = v.mapped pid f e in
    page_in_range-ne pid.page_no fits (ap (λ (q : PageId). q.page_no) (sym same) ∙ (v.free f i).3)

abbrev pub Nobody : ℕ → Type 0
Nobody f = ⊥

module _ {Disk Block : Type 0} (dev : Device Disk Block) where
  -- What a reader of the page gets: the frame's copy if the page is in the pool, else the disk's, for a page in range.
  abbrev pub view : Pool Disk Block → PageId → Option Block
  view p pid = elim (frame_of p pid) [
    | some f ↦ some (p.pages f).content
    | none ↦ stored dev p.disk_manager.disk pid
  ]

  -- A clean page that nobody has pinned is on the disk as it is in its frame.
  pub record IsCoherent (p : Pool Disk Block) : Type 0 where
    pub clean :
        (pid : PageId) (f : ℕ)
        → frame_of p pid ≡ some f
        → (p.pages f).is_dirty ≡ false
        → (p.pages f).pin_count ≡ 0
        → stored dev p.disk_manager.disk pid ≡ some (p.pages f).content

  -- Every page that could be read can still be read, and is the same.
  abbrev pub Keeps : Pool Disk Block → Pool Disk Block → Type 0
  Keeps p q = (pid : PageId) (b : Block) → view p pid ≡ some b → view q pid ≡ some b

  pub view_in :
      (p : Pool Disk Block) (pid : PageId) (f : ℕ)
      → frame_of p pid ≡ some f
      → view p pid ≡ some (p.pages f).content
  view_in p pid f e = ground arith

  pub view_out :
      (p : Pool Disk Block) (pid : PageId)
      → frame_of p pid ≡ none
      → view p pid ≡ stored dev p.disk_manager.disk pid
  view_out p pid e = ground arith

  pub view_same :
      (p q : Pool Disk Block) (pid : PageId)
      → frame_of q pid ≡ frame_of p pid
      → ((h : ℕ) → frame_of p pid ≡ some h → (q.pages h).content ≡ (p.pages h).content)
      → q.disk_manager.disk ≡ p.disk_manager.disk
      → view q pid ≡ view p pid
  view_same p q pid t c d = elim (Option-cases (frame_of p pid)) [
    | inl e ↦
        view_out q pid (t ∙ e) ∙ ap (λ (k : Disk). stored dev k pid) d ∙ sym (view_out p pid e)
    | inr (f, e) ↦
        view_in q pid f (t ∙ e) ∙ ap (λ (b : Block). some b) (c f e) ∙ sym (view_in p pid f e)
  ]

  -- The state between two calls.
  pub record IsGood (p : Pool Disk Block) : Type 0 where
    pub sound : IsSound p
    pub complete : IsComplete Nobody p
    pub coherent : IsCoherent p
