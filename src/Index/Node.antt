-- ===== src/Index/Node.antt =====
-- index/ix_index_handle.h and .cpp: IxNodeHandle, a node of the B+-tree with its header, its array
-- of keys and its array of rids. `none` is a failed assertion.
use db_smw.Common.{
  ℕ, zero, suc, ◌+◌, ◌-◌, ◌/◌, Bool, true, false, ◌&&◌, if◌then◌else◌, ltb, leb, ite, Option, none,
  some,
}
use db_smw.Common.Int.{ℤ, ℤ_discrete}
use db_smw.Transaction.{Rid}
use db_smw.Index.{IxFileHdr}
use db_smw.Index.Compare.{Comparison, less, equal, greater, Key, ix_compare}

-- IxPageHdr, and the two arrays behind it in the page
pub record IxNode : Type 0 where
  pub next_free_page_no : ℤ
  pub parent : ℤ
  pub num_key : ℕ
  pub is_leaf : Bool
  pub prev_leaf : ℤ
  pub next_leaf : ℤ
  pub keys : ℕ → Key
  pub rids : ℕ → Rid

abbrev pub set_size : ℕ → IxNode → IxNode
set_size n node = record node { num_key = n }

abbrev pub set_next_leaf : ℤ → IxNode → IxNode
set_next_leaf p node = record node { next_leaf = p }

abbrev pub set_prev_leaf : ℤ → IxNode → IxNode
set_prev_leaf p node = record node { prev_leaf = p }

abbrev pub set_parent_page_no : ℤ → IxNode → IxNode
set_parent_page_no p node = record node { parent = p }

-- `< 0`, `<= 0` and `== 0` on the result of a comparison
abbrev pub is_less : Comparison → Bool
is_less less = true
is_less _ = false

abbrev pub is_less_or_equal : Comparison → Bool
is_less_or_equal greater = false
is_less_or_equal _ = true

abbrev pub is_equal : Comparison → Bool
is_equal equal = true
is_equal _ = false

-- The loop of a binary search: while l < r, it goes right of the middle where the test holds.
unfoldable pub bound_loop : (ℕ → Bool) → ℕ → ℕ → ℕ → ℕ
bound_loop right zero l r = l
bound_loop right (suc fuel) l r =
    let mid = (l + r) / 2 in
    let rest =
      bound_loop right fuel (if right mid then suc mid else l) (if right mid then r else mid) in
    if ltb l r then rest else l

-- An array after the two copies: the tail is moved up by `n`, the new elements are put before it.
abbrev pub spread {ℓ} : {A : Type ℓ} → ℕ → ℕ → ℕ → (ℕ → A) → (ℕ → A) → ℕ → A
spread p n size added old i =
    if ltb i p
    then old i
    else if ltb i (p + n)
    then added (i - p)
    else if ltb i (size + n)
    then old (i - n)
    else old i

-- An array after the copy of its tail down by one.
abbrev pub close_up {ℓ} : {A : Type ℓ} → ℕ → ℕ → (ℕ → A) → ℕ → A
close_up p size old i = if ltb i p then old i else if ltb i (size - 1) then old (suc i) else old i

module _ (h : IxFileHdr) where
  abbrev pub compare_at : IxNode → Key → ℕ → Comparison
  compare_at n target i = ix_compare h.cols (n.keys i) target

  -- As many rounds as keys are enough.
  unfoldable pub lower_bound : IxNode → Key → ℕ
  unfolding ix_compare bound_loop
  lower_bound n target = bound_loop (λ i. is_less (compare_at n target i)) n.num_key 0 n.num_key

  unfoldable pub upper_bound : IxNode → Key → ℕ
  unfolding ix_compare bound_loop
  upper_bound n target =
      bound_loop (λ i. is_less_or_equal (compare_at n target i)) n.num_key 0 n.num_key

  -- pos < get_size() && ix_compare(get_key(pos), key) == 0
  abbrev pub holds_at : IxNode → Key → ℕ → Bool
  holds_at n key i = ltb i n.num_key && is_equal (compare_at n key i)

  unfoldable pub leaf_lookup : IxNode → Key → Option Rid
  unfolding ix_compare lower_bound
  leaf_lookup n key =
      let i = lower_bound n key in if holds_at n key i then some (n.rids i) else none

  abbrev pub value_at : IxNode → ℕ → ℤ
  value_at n i = (n.rids i).page_no

  -- `pos < 0` is raised to 0, as `-` does
  unfoldable pub internal_lookup : IxNode → Key → ℤ
  unfolding upper_bound
  internal_lookup n key = value_at n (upper_bound n key - 1)

  abbrev pub get_max_size : ℕ
  get_max_size = h.btree_order + 1

  abbrev pub get_min_size : ℕ
  get_min_size = get_max_size / 2

  unfoldable pub insert_pairs : ℕ → (ℕ → Key) → (ℕ → Rid) → ℕ → IxNode → Option IxNode
  insert_pairs p key rid n node =
      if leb p node.num_key && leb (node.num_key + n) get_max_size
      then some (record node {
        keys = spread p n node.num_key key node.keys;
        rids = spread p n node.num_key rid node.rids;
        num_key = node.num_key + n;
      })
      else none

  unfoldable pub insert_pair : ℕ → Key → Rid → IxNode → Option IxNode
  unfolding insert_pairs
  insert_pair p key rid node = insert_pairs p (λ _. key) (λ _. rid) 1 node

  -- The number that `insert` returns is `num_key` of the result.
  unfoldable pub insert : Key → Rid → IxNode → Option IxNode
  unfolding ix_compare lower_bound insert_pair
  insert key value node =
      let i = lower_bound node key in
      if holds_at node key i then some node else insert_pair i key value node

  unfoldable pub erase_pair : ℕ → IxNode → Option IxNode
  erase_pair p node =
      if ltb p node.num_key
      then some (record node {
        keys = close_up p node.num_key node.keys;
        rids = close_up p node.num_key node.rids;
        num_key = node.num_key - 1;
      })
      else none

  unfoldable pub remove : Key → IxNode → Option IxNode
  unfolding ix_compare lower_bound erase_pair
  remove key node =
      let i = lower_bound node key in if holds_at node key i then erase_pair i node else some node

  -- The loop of `find_child` from `i`, with `count` slots to go; `none` where it finds no slot.
  unfoldable pub find_child_from : ℕ → ℕ → IxNode → ℤ → Option ℕ
  unfolding ℤ_discrete
  find_child_from zero i node child = none
  find_child_from (suc count) i node child =
      ite (ℤ_discrete (value_at node i) child) (some i) (find_child_from count (suc i) node child)

  unfoldable pub find_child : IxNode → ℤ → Option ℕ
  unfolding find_child_from
  find_child node child = find_child_from node.num_key 0 node child
