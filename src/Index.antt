-- ===== src/Index.antt =====
-- index/ix_defs.h: the B+-tree's file header, the header of a node, and the nodes of an index file.
pub mod Compare
pub mod Rows
pub mod Order
pub mod Node
pub mod Search
pub mod Found
pub mod Insert
pub mod Remove
pub mod Tree
pub mod Value
pub mod Grow
pub mod Entry
pub mod Halves
pub mod Split
pub mod Root
pub mod Divided
pub mod FirstSplit
pub mod Scan
pub mod Leaves
pub mod Range
mod Tests
use db_smw.Common.{ℕ, Bool, List}
use db_smw.Common.Int.{ℤ, minus_one}
use db_smw.Transaction.{Rid}

-- defs.h
pub data ColType : Type 0 where
  type_int type_float type_bigint type_string type_datetime : ColType

-- one entry of `col_types_` and the entry of `col_lens_` at the same place
pub record IxCol : Type 0 where
  pub col_type : ColType
  pub col_len : ℕ

-- `col_num_` is the length of `cols`.
pub record IxFileHdr : Type 0 where
  pub first_free_page_no : ℤ
  pub num_pages : ℤ
  pub root_page : ℤ
  pub cols : List IxCol
  pub col_tot_len : ℕ
  pub btree_order : ℕ
  pub keys_size : ℕ
  pub first_leaf : ℤ
  pub last_leaf : ℤ
  pub tot_len : ℕ

abbrev pub ix_no_page : ℤ
ix_no_page = minus_one
