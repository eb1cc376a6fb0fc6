-- ===== src/Pool/Evict.antt =====
-- A picked frame, dirty or clean, leaves its page.
use db_smw.Common.{ℕ, ◌≡◌, true, false, some, arith}
use db_smw.Storage.Page.{PageId}
use db_smw.Storage.Disk.{Device, IsDevice}
use db_smw.Storage.Stored.{stored}
use db_smw.Pool.{Pool, frame_of, forget}
use db_smw.Pool.Invariant.{IsSound, IsComplete, IsCoherent, Keeps}
use db_smw.Pool.Parts.{IsPicked}
use db_smw.Pool.Vacate.{IsReady, forget-IsReady, forget-Keeps}
use db_smw.Pool.Write.{
  was_written, written, written-IsSound, written-IsComplete, written-IsPicked, written-Keeps,
  written-IsCoherent, written-on_disk,
}

module _ {Disk Block : Type 0} (dev : Device Disk Block) (laws : IsDevice dev) (q : Pool Disk Block)
    (f : ℕ) (v : IsSound q) (c : IsComplete (λ g. g ≡ f) q) (k : IsCoherent dev q)
    (picked : IsPicked f q) where
  abbrev old : PageId
  old = (q.pages f).id

  -- A dirty frame has a page, which is written.
  pub dirty_home : (q.pages f).is_dirty ≡ true → frame_of q (q.pages f).id ≡ some f
  dirty_home d = ground (arith, picked.home)

  -- the state when the frame has been written
  module _ (d : (q.pages f).is_dirty ≡ true) (e : was_written dev old f q ≡ true) where
    pub written-IsReady : IsReady dev f (forget f (written dev old f q))
    written-IsReady =
        forget-IsReady dev f (written dev old f q) (written-IsSound dev old f q v)
          (written-IsComplete dev old f q c)
          (written-IsCoherent dev old f q laws v (dirty_home d) e k)
          (written-IsPicked dev old f q picked)
          (λ _. written-on_disk dev old f q laws v (dirty_home d) e)

    pub forget-written-Keeps : Keeps dev q (forget f (written dev old f q))
    forget-written-Keeps j b h =
        forget-Keeps dev f (written dev old f q) (written-IsSound dev old f q v)
          (written-IsComplete dev old f q c)
          (written-IsCoherent dev old f q laws v (dirty_home d) e k)
          (written-IsPicked dev old f q picked)
          (λ _. written-on_disk dev old f q laws v (dirty_home d) e) j b
          (written-Keeps dev old f q laws v (dirty_home d) j b h)

  module _ (d : (q.pages f).is_dirty ≡ false) where
    on_disk :
        frame_of q old ≡ some f → stored dev q.disk_manager.disk old ≡ some (q.pages f).content
    on_disk e = k.clean old f e d picked.idle

    pub clean-IsReady : IsReady dev f (forget f q)
    clean-IsReady = forget-IsReady dev f q v c k picked on_disk

    pub forget-clean-Keeps : Keeps dev q (forget f q)
    forget-clean-Keeps = forget-Keeps dev f q v c k picked on_disk
