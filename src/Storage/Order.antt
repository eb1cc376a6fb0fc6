-- ===== src/Storage/Order.antt =====
-- storage/page.h: what the comparisons of page ids say.
use db_smw.Common.{◌≡◌, refl, true, arith}
use db_smw.Common.Int.{ltb_ℤ}
use db_smw.Storage.Page.{PageId, page_id_lt}

-- `operator<` is no strict order: where x has the smaller file and y the smaller page number, each id is
-- less than the other.
pub page_id_lt-both :
    (x y : PageId)
    → ltb_ℤ x.fd y.fd ≡ true
    → ltb_ℤ y.page_no x.page_no ≡ true
    → (page_id_lt x y ≡ true) × (page_id_lt y x ≡ true)
unfolding page_id_lt
page_id_lt-both x y a b = (rw a refl, ground arith)
