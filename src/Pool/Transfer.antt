-- ===== src/Pool/Transfer.antt =====
-- storage/buffer_pool_manager.cpp: the calls that read and write the disk.
use db_smw.Common.{
  ℕ, Bool, true, false, List, [], ◌∷◌, ◌++◌, Option, none, some, ite, if◌then◌else◌, ◌==◌, update,
}
use db_smw.Common.Int.{ℤ, ℤ_discrete}
use db_smw.Common.Assoc.{erase, assign}
use db_smw.Storage.Page.{PageId, PageId_discrete}
use db_smw.Storage.Disk.{Device, Outcome, ok, throw, ◌>>=◌, write_page, read_page, allocate_page}
use db_smw.Replacer
use db_smw.Replacer.{LruReplacer}
use db_smw.Pool.{
  Pool, frame_of, set_page, find_victim_page, forget, install, fetch_present, cleared,
}

module _ {Disk Block : Type 0} (dev : Device Disk Block) where
  -- disk_manager_->write_page(page_id.fd, page_id.page_no, page->get_data(), PAGE_SIZE)
  unfoldable pub write_frame :
      PageId → ℕ → Pool Disk Block → Outcome (Pool Disk Block) (Pool Disk Block)
  write_frame pid f p = elim (write_page dev p.disk_manager pid (p.pages f).content) [
    | ok m ↦ ok (record p { disk_manager = m })
    | throw e m ↦ throw e (record p { disk_manager = m })
  ]

  -- `if (page->is_dirty_) { write_page(…) }` at the page's own id
  unfoldable pub write_if_dirty : ℕ → Pool Disk Block → Outcome (Pool Disk Block) (Pool Disk Block)
  unfolding write_frame
  write_if_dirty f p = if (p.pages f).is_dirty then write_frame (p.pages f).id f p else ok p

  unfoldable pub update_page :
      ℕ → PageId → ℕ → Pool Disk Block → Outcome (Pool Disk Block) (Pool Disk Block)
  unfolding write_frame
  update_page page new_page_id new_frame_id p = do
    q ←
        if (p.pages page).is_dirty
        then (do
          q ← write_frame (p.pages page).id page p
          ok (set_page page (record (q.pages page) { is_dirty = false }) q))
        else ok p
    let table = erase PageId_discrete (q.pages page).id q.page_table
    ok (record q {
      pages = update q.pages page (record (q.pages page) { id = new_page_id });
      page_table = assign PageId_discrete new_page_id new_frame_id table;
    })

  -- disk_manager_->read_page(page_id.fd, page_id.page_no, page->get_data(), PAGE_SIZE)
  unfoldable pub read_frame :
      PageId → ℕ → Pool Disk Block → Outcome (Pool Disk Block) (Pool Disk Block)
  read_frame pid f p = elim (read_page dev p.disk_manager pid (p.pages f).content) [
    | ok b ↦ ok (set_page f (record (p.pages f) { content = b }) p)
    | throw e b ↦ throw e (set_page f (record (p.pages f) { content = b }) p)
  ]

  unfoldable pub fetch_missing :
      PageId → Option ℕ × Pool Disk Block → Outcome (Pool Disk Block) (Option ℕ × Pool Disk Block)
  unfolding update_page read_frame install forget
  fetch_missing pid (none, p) = ok (none, p)
  fetch_missing pid (some f, p) = do
    q ← if (p.pages f).is_dirty then update_page f pid f p else ok p
    r ← read_frame pid f (forget f q)
    ok (install pid f r)

  unfoldable pub fetch_page :
      PageId → Pool Disk Block → Outcome (Pool Disk Block) (Option ℕ × Pool Disk Block)
  unfolding fetch_present find_victim_page fetch_missing
  fetch_page pid p = elim (frame_of p pid) [
    | some f ↦ ok (fetch_present f p)
    | none ↦ fetch_missing pid (find_victim_page p)
  ]

  unfoldable pub flush_page :
      PageId → Pool Disk Block → Outcome (Pool Disk Block) (Bool × Pool Disk Block)
  unfolding write_frame
  flush_page pid p = elim (frame_of p pid) [
    | none ↦ ok (false, p)
    | some f ↦ do
      q ← write_frame pid f p
      ok (true, set_page f (record (q.pages f) { is_dirty = false }) q)
  ]

  -- write_page(…); page->is_dirty_ = false;
  unfoldable pub flush_entry :
      PageId → ℕ → Pool Disk Block → Outcome (Pool Disk Block) (Pool Disk Block)
  unfolding write_frame
  flush_entry pid f p = do
    q ← write_frame pid f p
    ok (set_page f (record (q.pages f) { is_dirty = false }) q)

  -- the loop of `flush_all_pages` over the entries of the page table
  unfoldable pub flush_entries :
      ℤ → List (PageId × ℕ) → Pool Disk Block → Outcome (Pool Disk Block) (Pool Disk Block)
  unfolding flush_entry
  flush_entries fd [] p = ok p
  flush_entries fd ((pid, f) ∷ entries) p = do
    q ← ite (ℤ_discrete pid.fd fd) (flush_entry pid f p) (ok p)
    flush_entries fd entries q

  unfoldable pub flush_all_pages : ℤ → Pool Disk Block → Outcome (Pool Disk Block) (Pool Disk Block)
  unfolding flush_entries
  flush_all_pages fd p = flush_entries fd p.page_table p

  unfoldable pub flush_dirty_entries :
      List (PageId × ℕ) → Pool Disk Block → Outcome (Pool Disk Block) (Pool Disk Block)
  unfolding flush_entry
  flush_dirty_entries [] p = ok p
  flush_dirty_entries ((pid, f) ∷ entries) p = do
    q ← if (p.pages f).is_dirty then flush_entry pid f p else ok p
    flush_dirty_entries entries q

  unfoldable pub flush_all_dirty_pages :
      Pool Disk Block → Outcome (Pool Disk Block) (Pool Disk Block)
  unfolding flush_dirty_entries
  flush_all_dirty_pages p = flush_dirty_entries p.page_table p

module _ {Disk Block : Type 0} (dev : Device Disk Block) (zeros : Block) where
  -- the page that is in the frame now, once the old one is out
  unfoldable pub place_page :
      ℤ → ℕ → Pool Disk Block → Outcome (Pool Disk Block) (Option (ℕ × PageId) × Pool Disk Block)
  unfolding install
  place_page fd f r = elim (allocate_page r.disk_manager fd) [
    | throw e m ↦ throw e (record r { disk_manager = m })
    | ok (page_no, m) ↦
        let pid : PageId = record { fd = fd; page_no = page_no } in
        let s =
          set_page f (record (r.pages f) { content = zeros }) (record r { disk_manager = m }) in
        ok (some (f, pid), (install pid f s).1)
  ]

  -- `none` is `nullptr`; otherwise the frame, and the id that the caller reads from `*page_id`
  unfoldable pub new_page_at :
      ℤ
      → Option ℕ × Pool Disk Block
      → Outcome (Pool Disk Block) (Option (ℕ × PageId) × Pool Disk Block)
  unfolding write_if_dirty forget place_page
  new_page_at fd (none, p) = ok (none, p)
  new_page_at fd (some f, p) = do q ← write_if_dirty dev f p; place_page fd f (forget f q)

  unfoldable pub new_page :
      ℤ → Pool Disk Block → Outcome (Pool Disk Block) (Option (ℕ × PageId) × Pool Disk Block)
  unfolding find_victim_page new_page_at
  new_page fd p = new_page_at fd (find_victim_page p)

  unfoldable pub delete_frame :
      PageId → ℕ → Pool Disk Block → Outcome (Pool Disk Block) (Bool × Pool Disk Block)
  unfolding write_frame
  delete_frame pid f p = do
    q ← if (p.pages f).is_dirty then write_frame dev pid f p else ok p
    ok (
      true,
      record q {
        page_table = erase PageId_discrete pid q.page_table;
        replacer = Replacer.pin q.replacer f;
        pages = update q.pages f (cleared zeros (q.pages f));
        free_list = q.free_list ++ f ∷ [];
      },
    )

  unfoldable pub delete_page :
      PageId → Pool Disk Block → Outcome (Pool Disk Block) (Bool × Pool Disk Block)
  unfolding delete_frame
  delete_page pid p = elim (frame_of p pid) [
    | none ↦ ok (true, p)
    | some f ↦ if (p.pages f).pin_count == 0 then delete_frame pid f p else ok (false, p)
  ]
