-- ===== src/Pool.antt =====
-- storage/buffer_pool_manager.h and storage/buffer_pool_manager.cpp. A frame is its index in
-- `pages_`, and a `Page *` is that index too. Every call runs under `latch_`, so it is one step.
-- This file has the state and the parts that move no data; `Transfer` has the calls that do.
pub mod Transfer
pub mod Invariant
mod Parts
mod Vacate
mod Write
mod Install
mod Evict
mod Load
pub mod Fetch
pub mod Create
pub mod Flush
pub mod Unpin
pub mod Start
mod Tests
use db_smw.Common.{
  ℕ, zero, suc, ◌+◌, ◌-◌, Bool, true, false, List, [], ◌∷◌, ◌++◌, Option, none, some, ite,
  if◌then◌else◌, ℕ_discrete, ◌==◌, update,
}
use db_smw.Common.Int.{ℤ, ℤ_discrete}
use db_smw.Common.Assoc.{find, erase, assign}
use db_smw.Storage.Page.{PageId, PageId_discrete, Page, invalid_page_id}
use db_smw.Storage.Disk.{
  Device, DiskManager, Outcome, ok, throw, ◌>>=◌, write_page, read_page, allocate_page,
}
use db_smw.Replacer
use db_smw.Replacer.{LruReplacer}

pub record Pool (Disk Block : Type 0) : Type 0 where
  pub pool_size : ℕ
  pub pages : ℕ → Page Block
  pub page_table : List (PageId × ℕ)
  pub free_list : List ℕ
  pub disk_manager : DiskManager Disk
  pub replacer : LruReplacer

-- 0, 1, …, n - 1
unfoldable pub all_frames : ℕ → List ℕ
all_frames zero = []
all_frames (suc n) = all_frames n ++ n ∷ []

-- page_table_.find(page_id)
abbrev pub frame_of : {Disk Block : Type 0} → Pool Disk Block → PageId → Option ℕ
frame_of p pid = find PageId_discrete pid p.page_table

-- the ids that `remove_all_pages` collects
unfoldable pub ids_of_file : ℤ → List (PageId × ℕ) → List PageId
ids_of_file fd [] = []
ids_of_file fd ((pid, f) ∷ entries) =
    ite (ℤ_discrete pid.fd fd) (pid ∷ ids_of_file fd entries) (ids_of_file fd entries)

-- the frame of a page that leaves the pool
abbrev pub cleared : {Block : Type 0} → Block → Page Block → Page Block
cleared zeros page = record page { content = zeros; id = invalid_page_id; is_dirty = false }

module _ {Disk Block : Type 0} where
  abbrev pub set_page : ℕ → Page Block → Pool Disk Block → Pool Disk Block
  set_page f page p = record p { pages = update p.pages f page }

  unfoldable pub mark_dirty : ℕ → Pool Disk Block → Pool Disk Block
  mark_dirty f p = set_page f (record (p.pages f) { is_dirty = true }) p

  unfoldable pub take_free : List ℕ → Pool Disk Block → Option ℕ × Pool Disk Block
  take_free (f ∷ rest) p = (some f, record p { free_list = rest })
  take_free [] p = let (f, r) = Replacer.victim p.replacer in (f, record p { replacer = r })

  unfoldable pub find_victim_page : Pool Disk Block → Option ℕ × Pool Disk Block
  unfolding take_free
  find_victim_page p = take_free p.free_list p

  -- pin_count_++ on a page that is in the pool
  unfoldable pub fetch_present : ℕ → Pool Disk Block → Option ℕ × Pool Disk Block
  fetch_present f p =
      let page = p.pages f in
      (
        some f,
        record p {
          replacer = Replacer.pin p.replacer f;
          pages = update p.pages f (record page { pin_count = suc page.pin_count });
        },
      )

  -- the last lines of `fetch_page` and `new_page`
  unfoldable pub install : PageId → ℕ → Pool Disk Block → Option ℕ × Pool Disk Block
  install pid f p = (
    some f,
    record p {
      pages = update p.pages f (record (p.pages f) { id = pid; pin_count = 1; is_dirty = false });
      page_table = assign PageId_discrete pid f p.page_table;
      replacer = Replacer.pin p.replacer f;
    },
  )

  -- page_table_.erase(page->get_page_id())
  unfoldable pub forget : ℕ → Pool Disk Block → Pool Disk Block
  forget f p = record p { page_table = erase PageId_discrete (p.pages f).id p.page_table }

  unfoldable pub unpin_frame : ℕ → Bool → Pool Disk Block → Bool × Pool Disk Block
  unpin_frame f is_dirty p =
      let page = p.pages f in
      if page.pin_count == 0 then (false, p) else (
        true,
        record p {
          pages = update p.pages f (record page {
            pin_count = page.pin_count - 1;
            is_dirty = if is_dirty then true else page.is_dirty;
          });
          replacer = if page.pin_count - 1 == 0 then Replacer.unpin p.replacer f else p.replacer;
        },
      )

  unfoldable pub unpin_page : PageId → Bool → Pool Disk Block → Bool × Pool Disk Block
  unfolding unpin_frame
  unpin_page pid is_dirty p = elim (frame_of p pid) [
    | none ↦ (false, p)
    | some f ↦ unpin_frame f is_dirty p
  ]

module _ {Disk Block : Type 0} (zeros : Block) where
  -- The constructor. `fd` of a new page's id has no initial value in the source, and is an argument.
  unfoldable pub init : ℕ → DiskManager Disk → (ℕ → ℤ) → Pool Disk Block
  init pool_size disk_manager garbage_fd = record {
    pool_size = pool_size;
    pages = λ f. record {
      id = record invalid_page_id { fd = garbage_fd f };
      content = zeros;
      is_dirty = false;
      pin_count = 0;
    };
    page_table = [];
    free_list = all_frames pool_size;
    disk_manager = disk_manager;
    replacer = Replacer.init pool_size;
  }

  -- one round of its second loop; `page_table_[page_id]` makes an entry for frame 0 if there is none
  unfoldable pub remove_frame : PageId → ℕ → Pool Disk Block → Pool Disk Block
  remove_frame pid f p = record p {
    page_table = erase PageId_discrete pid p.page_table;
    replacer = Replacer.pin p.replacer f;
    pages = update p.pages f (record (cleared zeros (p.pages f)) { pin_count = 0 });
    free_list = p.free_list ++ f ∷ [];
  }

  unfoldable pub remove_page : PageId → Pool Disk Block → Pool Disk Block
  unfolding remove_frame
  remove_page pid p = elim (frame_of p pid) [
    | some f ↦ remove_frame pid f p
    | none ↦ remove_frame pid 0 p
  ]

  unfoldable pub remove_pages : List PageId → Pool Disk Block → Pool Disk Block
  unfolding remove_page
  remove_pages [] p = p
  remove_pages (pid ∷ pids) p = remove_pages pids (remove_page pid p)

  unfoldable pub remove_all_pages : ℤ → Pool Disk Block → Pool Disk Block
  unfolding ids_of_file remove_pages
  remove_all_pages fd p = remove_pages (ids_of_file fd p.page_table) p
