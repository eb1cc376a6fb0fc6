-- ===== src/Index/Grow.antt =====
-- index/ix_index_handle.cpp: new nodes, splits, and the insertion of an entry. `none` is a failed
-- assertion, or a loop that is still under way after `fuel` rounds.
use db_smw.Common.{
  ℕ, zero, suc, ◌+◌, ◌-◌, ◌/◌, false, if◌then◌else◌, leb, ite, Option, none, some, List, [], ◌∷◌,
}
use db_smw.Common.Int.{ℤ, pos, minus_one, suc_ℤ, ℤ_discrete}
use db_smw.Common.Partial.{◌>>=◌}
use db_smw.Transaction.{Rid}
use db_smw.Index.{IxFileHdr, ix_no_page}
use db_smw.Index.Compare.{Key}
use db_smw.Index.Node.{
  IxNode, set_size, set_next_leaf, set_prev_leaf, set_parent_page_no, value_at, get_max_size,
  insert_pairs, insert_pair, insert,
}
use db_smw.Index.Tree.{IxFile, at_page}

abbrev zeros : ℕ → List ℕ
zeros zero = []
zeros (suc n) = 0 ∷ zeros n

-- a page of zeros
abbrev pub zero_node : IxFileHdr → IxNode
zero_node h = record {
  next_free_page_no = pos 0;
  parent = pos 0;
  num_key = 0;
  is_leaf = false;
  prev_leaf = pos 0;
  next_leaf = pos 0;
  keys = λ i. zeros h.col_tot_len;
  rids = λ i. record { page_no = pos 0; slot_no = pos 0 };
}

-- create_node; the new node is on page `f.next_page`
abbrev pub create_node : IxFile → IxFile
create_node f =
    let h = f.file_hdr in
    let counted = record f {
      file_hdr = record h { num_pages = suc_ℤ h.num_pages };
      next_page = suc_ℤ f.next_page;
    } in
    at_page f.next_page (λ _. zero_node f.file_hdr) counted

abbrev pub update_root_page_no : ℤ → IxFile → IxFile
update_root_page_no p f = record f { file_hdr = record f.file_hdr { root_page = p } }

abbrev pub maintain_child : ℤ → ℕ → IxFile → IxFile
maintain_child p i f =
    let node = f.pages p in
    if node.is_leaf then f else at_page (value_at f.file_hdr node i) (set_parent_page_no p) f

-- the loop over the children from `i` on, with `count` to go
unfoldable pub maintain_children : ℕ → ℕ → ℤ → IxFile → IxFile
maintain_children zero i p f = f
maintain_children (suc count) i p f = maintain_children count (suc i) p (maintain_child p i f)

-- if (file_hdr_->last_leaf_ == from) file_hdr_->last_leaf_ = to
abbrev pub move_last_leaf : ℤ → ℤ → IxFile → IxFile
move_last_leaf from to f =
    let h = f.file_hdr in
    record f {
      file_hdr = record h { last_leaf = ite (ℤ_discrete h.last_leaf from) to h.last_leaf };
    }

-- the new leaf `q` behind leaf `p`
abbrev pub link_between : ℤ → ℤ → ℤ → IxFile → IxFile
link_between p q behind f =
    let f1 = at_page q (λ n. set_next_leaf behind (set_prev_leaf p n)) f in
    let f2 = at_page behind (set_prev_leaf q) f1 in
    move_last_leaf p q (at_page p (set_next_leaf q) f2)

abbrev pub link_leaf : ℤ → ℤ → IxFile → IxFile
link_leaf p q f = link_between p q (f.pages p).next_leaf f

-- the new inner node `q`
abbrev pub adopt_children : ℤ → IxFile → IxFile
adopt_children q f =
    let f1 = at_page q (λ n. set_next_leaf ix_no_page (set_prev_leaf ix_no_page n)) f in
    maintain_children (f1.pages q).num_key 0 q f1

-- the upper half of the pairs of node `n`, put into the fresh node
unfoldable pub upper_half : IxFileHdr → IxNode → Option IxNode
unfolding insert_pairs
upper_half h n =
    let start = n.num_key / 2 in
    insert_pairs h 0 (λ i. n.keys (start + i)) (λ i. n.rids (start + i)) (n.num_key - start)
      (record (zero_node h) {
        is_leaf = n.is_leaf;
        parent = n.parent;
        num_key = 0;
        next_free_page_no = ix_no_page;
      })

-- IxIndexHandle::split, and the page of the new node
unfoldable pub split : ℤ → IxFile → Option (ℤ × IxFile)
unfolding upper_half maintain_children
split p f =
    let q = f.next_page in
    let n = f.pages p in
    upper_half f.file_hdr n >>= λ new.
    let f1 = at_page q (λ _. new) (create_node f) in
    let f2 = at_page p (set_size (n.num_key / 2)) f1 in
    some (q, if n.is_leaf then link_leaf p q f2 else adopt_children q f2)

abbrev pub node_rid : ℤ → Rid
node_rid p = record { page_no = p; slot_no = minus_one }

abbrev pub set_page : ℤ → IxNode → IxFile → IxFile
set_page p n f = at_page p (λ _. n) f

-- the new root over pages `p` and `q`
unfoldable pub new_root : ℤ → ℤ → IxFile → Option IxFile
unfolding insert_pair
new_root p q f =
    let root = f.next_page in
    let blank = record (zero_node f.file_hdr) {
      is_leaf = false;
      parent = ix_no_page;
      num_key = 0;
      prev_leaf = ix_no_page;
      next_leaf = ix_no_page;
    } in
    let f1 = set_page root blank (create_node f) in
    let f2 = at_page q (set_parent_page_no root) (at_page p (set_parent_page_no root) f1) in
    insert_pair f.file_hdr 0 ((f2.pages p).keys 0) (node_rid p) blank >>= λ one.
    insert_pair f.file_hdr 1 ((f2.pages q).keys 0) (node_rid q) one >>= λ two.
    some (update_root_page_no root (set_page root two f2))

unfoldable pub insert_into_parent : ℕ → ℤ → Key → ℤ → IxFile → Option IxFile
unfolding new_root insert split ℤ_discrete
insert_into_parent zero p key q f = none
insert_into_parent (suc fuel) p key q f =
    let up = (f.pages p).parent in
    let in_parent = insert f.file_hdr key (node_rid q) (f.pages up) >>= λ n.
    let f1 = set_page up n f in
    let further =
      split up f1 >>= λ r. insert_into_parent fuel up ((r.1.pages r.0).keys 0) r.0 r.1 in
    if leb (get_max_size f.file_hdr) n.num_key then further else some f1 in
    ite (ℤ_discrete up ix_no_page) (new_root p q f) in_parent
