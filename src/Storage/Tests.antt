-- ===== src/Storage/Tests.antt =====
-- Page ids on small inputs.
use db_smw.Common.{◌≡◌, refl, true}
use db_smw.Common.Int.{pos}
use db_smw.Storage.Page.{page_id_lt}
use db_smw.Storage.Order.{page_id_lt-both}

page_id_lt-both_run :
    (page_id_lt (record { fd = pos 3; page_no = pos 9 }) (record { fd = pos 5; page_no = pos 2 })
      ≡ true)
    × (page_id_lt (record { fd = pos 5; page_no = pos 2 }) (record { fd = pos 3; page_no = pos 9 })
        ≡ true)
page_id_lt-both_run =
    page_id_lt-both (record { fd = pos 3; page_no = pos 9 })
      (record { fd = pos 5; page_no = pos 2 }) refl refl
