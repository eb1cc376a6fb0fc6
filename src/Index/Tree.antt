-- ===== src/Index/Tree.antt =====
-- index/ix_index_handle.cpp: IxIndexHandle over the pages of its file. The buffer pool is taken to
-- have a frame for every page that is asked for, so a fetch is a read of `pages` and a change goes to
-- `pages` at once; pins are left out. `none` is a failed assertion.
use db_smw.Common.{ℕ, zero, suc, Bool, true, false, if◌then◌else◌, ite, Option, none, some}
use db_smw.Common.Int.{ℤ, ℤ_discrete}
use db_smw.Transaction.{Rid}
use db_smw.Index.{IxFileHdr, ix_no_page}
use db_smw.Index.Compare.{Key}
use db_smw.Index.Node.{IxNode, leaf_lookup, internal_lookup, value_at}

-- an index file: `file_hdr_`, the nodes, and the page number that the disk manager gives out next
pub record IxFile : Type 0 where
  pub file_hdr : IxFileHdr
  pub pages : ℤ → IxNode
  pub next_page : ℤ

abbrev pub is_empty : IxFile → Bool
is_empty f = ite (ℤ_discrete f.file_hdr.root_page ix_no_page) true false

-- a change through the handle of the node on page `p`
abbrev pub at_page : ℤ → (IxNode → IxNode) → IxFile → IxFile
at_page p change f = record f { pages = λ q. ite (ℤ_discrete q p) (change (f.pages q)) (f.pages q) }

-- How a descent ends: at a leaf, at once in an empty tree, or it is still under way.
pub data Descent : Type 0 where
  no_leaf : Descent
  leaf_at : ℤ → Descent
  under_way : Descent

-- The loop of `find_leaf_page` at page `p`, with at most `fuel` rounds.
unfoldable pub descend : ℕ → Bool → Key → IxFile → ℤ → Descent
unfolding internal_lookup
descend zero find_first key f p = under_way
descend (suc fuel) find_first key f p =
    let node = f.pages p in
    let child =
      if find_first then value_at f.file_hdr node 0 else internal_lookup f.file_hdr node key in
    let rest = descend fuel find_first key f child in if node.is_leaf then leaf_at p else rest

unfoldable pub find_leaf_page : ℕ → Bool → Key → IxFile → Descent
unfolding descend ℤ_discrete
find_leaf_page fuel find_first key f =
    if is_empty f then no_leaf else descend fuel find_first key f f.file_hdr.root_page

-- What `get_value` pushes, `some none` for nothing; `none` while the descent is under way.
abbrev pub value_from : IxFile → Key → Descent → Option (Option Rid)
value_from f key no_leaf = some none
value_from f key (leaf_at p) = some (leaf_lookup f.file_hdr (f.pages p) key)
value_from f key under_way = none

unfoldable pub get_value : ℕ → Key → IxFile → Option (Option Rid)
unfolding find_leaf_page leaf_lookup
get_value fuel key f = value_from f key (find_leaf_page fuel false key f)
