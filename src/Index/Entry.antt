-- ===== src/Index/Entry.antt =====
-- index/ix_index_handle.cpp: the insertion of an entry. `none` is a failed assertion, a missing leaf,
-- or a loop that is still under way after `fuel` rounds.
use db_smw.Common.{
  ℕ, zero, suc, Bool, true, false, ◌&&◌, if◌then◌else◌, leb, ◌==◌, ite, Option, none, some, [], ◌∷◌,
}
use db_smw.Common.Int.{ℤ, ℤ_discrete}
use db_smw.Common.Partial.{◌>>=◌}
use db_smw.Transaction.{Rid}
use db_smw.Index.{ix_no_page}
use db_smw.Index.Compare.{Key, ix_compare}
use db_smw.Index.Node.{IxNode, is_less, get_max_size, insert, find_child}
use db_smw.Index.Tree.{IxFile, at_page, Descent, no_leaf, leaf_at, under_way, find_leaf_page}
use db_smw.Index.Grow.{set_page, split, insert_into_parent}

-- memcmp(…) == 0, on keys of one length
abbrev pub same_bytes : Key → Key → Bool
same_bytes [] [] = true
same_bytes (x ∷ xs) (y ∷ ys) = (x == y) && same_bytes xs ys
same_bytes _ _ = false

abbrev pub set_key : ℕ → Key → IxNode → IxNode
set_key i key n = record n { keys = λ j. if j == i then key else n.keys j }

unfoldable pub maintain_parent : ℕ → ℤ → IxFile → Option IxFile
unfolding find_child ℤ_discrete
maintain_parent zero p f = none
maintain_parent (suc fuel) p f =
    let up = (f.pages p).parent in
    let first = (f.pages p).keys 0 in
    let on = find_child f.file_hdr (f.pages up) p >>= λ rank.
    let rest = maintain_parent fuel up (at_page up (set_key rank first) f) in
    if same_bytes ((f.pages up).keys rank) first then some f else rest in
    ite (ℤ_discrete up ix_no_page) (some f) on

-- The page that `insert_entry` returns after leaf `p` is split.
abbrev pub inserted_page : ℤ → ℤ → Key → IxFile → ℤ
inserted_page p q key f =
    if is_less (ix_compare f.file_hdr.cols key ((f.pages q).keys 0)) then p else q

-- A leaf `p` that is full is split.
abbrev pub full_leaf : ℕ → Key → ℤ → IxFile → Option (ℤ × IxFile)
full_leaf fuel key p f = split p f >>= λ s.
    insert_into_parent fuel p ((s.1.pages s.0).keys 0) s.0 s.1 >>= λ g.
    some (inserted_page p s.0 key g, g)

abbrev pub fitting_leaf : ℕ → ℤ → IxFile → Option (ℤ × IxFile)
fitting_leaf fuel p f = maintain_parent fuel p f >>= λ g. some (p, g)

-- insert_entry behind `leaf->insert`, whose result is `m`
unfoldable pub entry_inserted : ℕ → Key → ℤ → IxNode → IxFile → Option (ℤ × IxFile)
unfolding maintain_parent split insert_into_parent ix_compare
entry_inserted fuel key p m f =
    let f1 = set_page p m f in
    if m.num_key == (f.pages p).num_key
    then some (ix_no_page, f1)
    else if leb (get_max_size f.file_hdr) m.num_key
    then full_leaf fuel key p f1
    else fitting_leaf fuel p f1

abbrev pub entry_from : ℕ → Key → Rid → IxFile → Descent → Option (ℤ × IxFile)
entry_from fuel key value f no_leaf = none
entry_from fuel key value f (leaf_at p) =
    insert f.file_hdr key value (f.pages p) >>= λ m. entry_inserted fuel key p m f
entry_from fuel key value f under_way = none

unfoldable pub insert_entry : ℕ → Key → Rid → IxFile → Option (ℤ × IxFile)
unfolding find_leaf_page insert entry_inserted
insert_entry fuel key value f = entry_from fuel key value f (find_leaf_page fuel false key f)
