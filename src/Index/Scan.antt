-- ===== src/Index/Scan.antt =====
-- index/ix_scan.h and .cpp, and the places in the leaves that index/ix_index_handle.cpp gives out: a
-- walk along the leaves. `none` is a failed assertion or an IndexEntryNotFoundError, and for the loops
-- also that they are still under way after `fuel` rounds.
use db_smw.Common.{
  ℕ, zero, suc, Bool, true, false, not, ◌&&◌, if◌then◌else◌, ltb, ◌==◌, Option, none, some, List,
  [], ◌∷◌, ite,
}
use db_smw.Common.Int.{ℤ, ℤ_discrete}
use db_smw.Common.Partial.{◌>>=◌}
use db_smw.Transaction.{Rid}
use db_smw.Index.Compare.{Key}
use db_smw.Index.Node.{IxNode, lower_bound, upper_bound}
use db_smw.Index.Tree.{IxFile, Descent, no_leaf, leaf_at, under_way, find_leaf_page}

-- ix_defs.h
pub record Iid : Type 0 where
  pub page_no : ℤ
  pub slot_no : ℕ

abbrev pub iid : ℤ → ℕ → Iid
iid p i = record { page_no = p; slot_no = i }

-- operator==
unfoldable pub same_iid : Iid → Iid → Bool
unfolding ℤ_discrete
same_iid x y = ite (ℤ_discrete x.page_no y.page_no) (x.slot_no == y.slot_no) false

abbrev pub is_last : IxFile → ℤ → Bool
is_last f p = ite (ℤ_discrete p f.file_hdr.last_leaf) true false

unfoldable pub leaf_end : IxFile → Iid
leaf_end f = iid f.file_hdr.last_leaf (f.pages f.file_hdr.last_leaf).num_key

unfoldable pub leaf_begin : IxFile → Iid
leaf_begin f = iid f.file_hdr.first_leaf 0

-- IxIndexHandle::get_rid
unfoldable pub get_rid : IxFile → Iid → Option Rid
get_rid f x =
    let node = f.pages x.page_no in
    if ltb x.slot_no node.num_key then some (node.rids x.slot_no) else none

-- the place after `x`
abbrev pub advance : IxFile → Iid → Iid
advance f x =
    let node = f.pages x.page_no in
    let i = suc x.slot_no in
    if not (is_last f x.page_no) && (i == node.num_key)
    then iid node.next_leaf 0
    else iid x.page_no i

-- IxScan::next, for a scan at `x` up to `last`
unfoldable pub next : IxFile → Iid → Iid → Option Iid
unfolding same_iid ℤ_discrete
next f last x =
    let node = f.pages x.page_no in
    if not (same_iid x last) && (node.is_leaf && ltb x.slot_no node.num_key)
    then some (advance f x)
    else none

-- What a client reads by `for (; !scan.is_end(); scan.next()) scan.rid()`.
unfoldable pub scan_all : ℕ → IxFile → Iid → Iid → Option (List Rid)
unfolding same_iid get_rid next
scan_all zero f last x = none
scan_all (suc fuel) f last x =
    let rest =
      get_rid f x >>= λ r. next f last x >>= λ y. scan_all fuel f last y >>= λ rs. some (r ∷ rs) in
    if same_iid x last then some [] else rest

-- The loop of IxIndexHandle::lower_bound and upper_bound from leaf `p` on: past a leaf all of whose
-- keys are before the bound, but for the last leaf.
unfoldable pub bound_from : ℕ → (IxNode → ℕ) → IxFile → ℤ → Option Iid
unfolding ℤ_discrete
bound_from zero bound f p = none
bound_from (suc fuel) bound f p =
    let node = f.pages p in
    let i = bound node in
    let rest = bound_from fuel bound f node.next_leaf in
    if (i == node.num_key) && not (is_last f p) then rest else some (iid p i)

abbrev pub bound_of : ℕ → (IxNode → ℕ) → IxFile → Descent → Option Iid
bound_of fuel bound f no_leaf = some (leaf_end f)
bound_of fuel bound f (leaf_at p) = bound_from fuel bound f p
bound_of fuel bound f under_way = none

-- `fuel` bounds the descent and the loop.
unfoldable pub lower_bound_iid : ℕ → Key → IxFile → Option Iid
unfolding find_leaf_page lower_bound bound_from leaf_end
lower_bound_iid fuel key f =
    bound_of fuel (λ n. lower_bound f.file_hdr n key) f (find_leaf_page fuel false key f)

unfoldable pub upper_bound_iid : ℕ → Key → IxFile → Option Iid
unfolding find_leaf_page upper_bound bound_from leaf_end
upper_bound_iid fuel key f =
    bound_of fuel (λ n. upper_bound f.file_hdr n key) f (find_leaf_page fuel false key f)
