-- ===== src/Storage/Page.antt =====
-- storage/page.h: page ids, and the frames of the buffer pool. `Block` stands for the PAGE_SIZE
-- bytes of `data_`. Two threads never hold one frame's fields at once: the pool's latch is held.
use db_smw.Common.{ℕ, Bool, true, ◌&&◌, decide, ℕ_discrete, if◌then◌else◌}
use db_smw.Common.Int.{ℤ, minus_one, ℤ_discrete, ltb_ℤ}

pub record PageId : Type 0 where
  pub fd : ℤ
  pub page_no : ℤ

-- operator==
unfoldable pub page_id_eq : PageId → PageId → Bool
unfolding ℤ_discrete
page_id_eq x y = decide (ℤ_discrete x.fd y.fd) && decide (ℤ_discrete x.page_no y.page_no)

-- operator<
unfoldable pub page_id_lt : PageId → PageId → Bool
page_id_lt x y = if ltb_ℤ x.fd y.fd then true else ltb_ℤ x.page_no y.page_no

unfoldable pub PageId_discrete : Discrete PageId
unfolding ℕ_discrete ℤ_discrete
PageId_discrete = hlevel ℤ_discrete

pub record Page (Block : Type 0) : Type 0 where
  pub id : PageId
  pub content : Block
  pub is_dirty : Bool
  pub pin_count : ℕ

-- `{INVALID_PAGE_ID, INVALID_PAGE_ID}`
abbrev pub invalid_page_id : PageId
invalid_page_id = record { fd = minus_one; page_no = minus_one }
