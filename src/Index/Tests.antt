-- ===== src/Index/Tests.antt =====
-- Runs of the index on concrete inputs.
use db_smw.Common.{
  map, ℕ, zero, suc, ◌+◌, ◌*◌, ◌≤◌, ◌<◌, ◌≡◌, ◌≢◌, ap, ◌∙◌, refl, true, false, Option, some, [],
  ◌∷◌, arith,
}
use db_smw.Common.Int.{ℤ, pos, minus_one, ℤ_discrete}
use db_smw.Transaction.{Rid}
use db_smw.Index.{type_int, type_float, type_string, IxCol, IxFileHdr}
use db_smw.Index.Compare.{less, equal, Key, ix_compare}
use db_smw.Index.Rows.{
  int_field, string_field, col_of, row_bytes, Ordered, RowLess, ix_compare-Ordered,
}
use db_smw.Index.Order.{flip, ix_compare-flip, ix_compare-trans_less, IsKey}
use db_smw.Index.Node.{
  IxNode, leaf_lookup, lower_bound, upper_bound, insert, remove, is_less, is_less_or_equal,
  compare_at,
}
use db_smw.Index.Search.{IsOrdered, first_failing, bounds-first_failing}
use db_smw.Index.Insert.{Inserted, insert-Inserted}
use db_smw.Index.Remove.{Removed, remove-Removed}
use db_smw.Index.Tree.{IxFile, get_value}
use db_smw.Index.Value.{Separates, IsTree, Answers, get_value-Answers}
use db_smw.Index.Grow.{split}
use db_smw.Index.Split.{SplitLeaf, split-SplitLeaf}
use db_smw.Index.Entry.{insert_entry}
use db_smw.Index.Divided.{OneLeaf}
use db_smw.Index.FirstSplit.{insert_entry-Inserted}
use db_smw.Index.Scan.{Iid, bound_from, leaf_end, scan_all}
use db_smw.Index.Leaves.{IsBelow, IsChain, entry_count}
use db_smw.Index.Range.{all_not_less, scan_all-bound_from}

abbrev int_col : IxCol
int_col = record { col_type = type_int; col_len = 4 }

abbrev string_col : IxCol
string_col = record { col_type = type_string; col_len = 2 }

abbrev float_col : IxCol
float_col = record { col_type = type_float; col_len = 4 }

abbrev header : IxFileHdr
header = record {
  first_free_page_no = minus_one;
  num_pages = pos 3;
  root_page = pos 2;
  cols = int_col ∷ [];
  col_tot_len = 4;
  btree_order = 3;
  keys_size = 16;
  first_leaf = pos 2;
  last_leaf = pos 2;
  tot_len = 48;
}

abbrev key : ℕ → Key
key n = n ∷ 0 ∷ 0 ∷ 0 ∷ []

abbrev rid : ℕ → Rid
rid n = record { page_no = pos n; slot_no = pos 0 }

-- the keys 10, 20 and so on
abbrev tens : ℕ → IxNode
tens n = record {
  next_free_page_no = minus_one;
  parent = minus_one;
  num_key = n;
  is_leaf = true;
  prev_leaf = pos 1;
  next_leaf = pos 1;
  keys = λ i. key (10 * i + 10);
  rids = rid;
}

-- -1 is less than 1, though its first byte is greater
negative_first : ix_compare (int_col ∷ []) (255 ∷ 255 ∷ 255 ∷ 255 ∷ []) (key 1) ≡ less
unfolding ix_compare
negative_first = refl

-- a NaN compares equal with every float
nan_equal : ix_compare (float_col ∷ []) (0 ∷ 0 ∷ 192 ∷ 127 ∷ []) (0 ∷ 0 ∷ 128 ∷ 63 ∷ []) ≡ equal
unfolding ix_compare
nan_equal = refl

tens-ascending :
    (i j : ℕ) → i < j → j < 4 → ix_compare header.cols ((tens 4).keys i) ((tens 4).keys j) ≡ less
unfolding ix_compare
tens-ascending zero (suc zero) lt fits = refl
tens-ascending zero (suc (suc zero)) lt fits = refl
tens-ascending zero (suc (suc (suc zero))) lt fits = refl
tens-ascending (suc zero) (suc (suc zero)) lt fits = refl
tens-ascending (suc zero) (suc (suc (suc zero))) lt fits = refl
tens-ascending (suc (suc zero)) (suc (suc (suc zero))) lt fits = refl
tens-ascending i j lt fits = absurd (omega arith)

tens-IsOrdered : (n : ℕ) → n ≤ 4 → IsOrdered header (tens n)
tens-IsOrdered n le = record {
  valid = λ i lt. (tt, tt);
  ascending = λ i j lt fits. tens-ascending i j lt (omega arith);
}

ix_compare-Ordered_example :
    Ordered RowLess
      (string_field (65 ∷ 66 ∷ []) ∷ int_field (pos 7) ∷ [])
      (string_field (65 ∷ 66 ∷ []) ∷ int_field minus_one ∷ [])
      (ix_compare
        (map col_of (string_field (65 ∷ 66 ∷ []) ∷ int_field (pos 7) ∷ []))
        (row_bytes (string_field (65 ∷ 66 ∷ []) ∷ int_field (pos 7) ∷ []))
        (row_bytes (string_field (65 ∷ 66 ∷ []) ∷ int_field minus_one ∷ [])))
ix_compare-Ordered_example =
    ix_compare-Ordered (string_field (65 ∷ 66 ∷ []) ∷ int_field (pos 7) ∷ [])
      (string_field (65 ∷ 66 ∷ []) ∷ int_field minus_one ∷ []) (omega arith, tt) (omega arith, tt)
      refl

bounds_run : (lower_bound header (tens 3) (key 20) ≡ 1) × (upper_bound header (tens 3) (key 20) ≡ 2)
unfolding lower_bound upper_bound
bounds_run = (refl, refl)

bounds-first_failing_example :
    (lower_bound header (tens 3) (key 15)
      ≡ first_failing (λ i. is_less (compare_at header (tens 3) (key 15) i)) 3 0)
    × (upper_bound header (tens 3) (key 15)
        ≡ first_failing (λ i. is_less_or_equal (compare_at header (tens 3) (key 15) i)) 3 0)
bounds-first_failing_example =
    bounds-first_failing header (tens 3) (key 15) (tens-IsOrdered 3 (omega arith)) (tt, tt)

insert-Inserted_example :
    (m : IxNode) × (insert header (key 15) (rid 9) (tens 3) ≡ some m)
    × Inserted header (key 15) (rid 9) (tens 3) m
insert-Inserted_example =
    insert-Inserted header (tens 3) (key 15) (rid 9) (tens-IsOrdered 3 (omega arith)) (tt, tt)
      (omega arith)

remove-Removed_example :
    (m : IxNode) × (remove header (key 20) (tens 3) ≡ some m) × Removed header (key 20) (tens 3) m
remove-Removed_example =
    remove-Removed header (tens 3) (key 20) (tens-IsOrdered 3 (omega arith)) (tt, tt)

-- A root on page 2 over a leaf on page 3 and a leaf behind it on page 4.
abbrev root : IxNode
root = record (tens 2) { is_leaf = false; keys = λ i. key (20 * i + 10); rids = λ i. rid (i + 3) }

abbrev left_leaf : IxNode
left_leaf = record (tens 2) { next_leaf = pos 4 }

abbrev right_leaf : IxNode
right_leaf = record (tens 2) { keys = λ i. key (10 * suc (suc i) + 10) }

abbrev nodes : ℤ → IxNode
nodes (pos (suc (suc zero))) = root
nodes (pos (suc (suc (suc zero)))) = left_leaf
nodes (pos (suc (suc (suc (suc zero))))) = right_leaf
nodes p = tens 4

abbrev file : IxFile
file = record { file_hdr = record header { last_leaf = pos 4 }; pages = nodes; next_page = pos 6 }

-- the file's header has the columns of `header`
left-IsOrdered : IsOrdered file.file_hdr left_leaf
left-IsOrdered = record {
  valid = λ i lt. (tt, tt);
  ascending = λ i j lt fits. tens-ascending i j lt (omega arith);
}

root-ascending :
    (i j : ℕ) → i < j → j < 2 → ix_compare header.cols (root.keys i) (root.keys j) ≡ less
root-ascending zero (suc zero) lt fits = tens-ascending 0 2 (omega arith) (omega arith)
root-ascending i j lt fits = absurd (omega arith)

root-IsOrdered : IsOrdered file.file_hdr root
root-IsOrdered = record { valid = λ i lt. (tt, tt); ascending = root-ascending }

right-IsOrdered : IsOrdered file.file_hdr right_leaf
right-IsOrdered = record {
  valid = λ i lt. (tt, tt);
  ascending = λ i j lt fits. tens-ascending (suc (suc i)) (suc (suc j)) (omega arith) (omega arith);
}

right-above : (j : ℕ) → j < 2 → ix_compare header.cols (right_leaf.keys j) (key 30) ≢ less
unfolding ix_compare
right-above zero lt e = cc e
right-above (suc zero) lt e = cc e
right-above (suc (suc j)) lt e = absurd (omega arith)

root-Separates : Separates file 0 root
root-Separates zero q r lt k (j, fits, e, g) = (
  (λ above. absurd (omega arith)),
  λ behind.
      ix_compare-flip header.cols q (key 30) k (tt, tt)
      ∙ ap flip (
          ix_compare-trans_less header.cols q (left_leaf.keys j) k (tt, tt) (key 30) (tt, tt)
            (λ h. cc (h, e, ix_compare-flip header.cols (left_leaf.keys j) q (tt, tt) k))
            (tens-ascending j 2 (omega arith) (omega arith))),
)
root-Separates (suc zero) q r lt k (j, fits, e, g) = (
  (λ above h. right-above j fits (
      ix_compare-trans_less header.cols (right_leaf.keys j) q (tt, tt) k (key 30) (tt, tt)
        (λ l. cc (l, e)) (ix_compare-flip header.cols (key 30) q (tt, tt) k ∙ ap flip h))),
  λ behind. absurd (omega arith),
)
root-Separates (suc (suc i)) q r lt k has = absurd (omega arith)

root-children : (i : ℕ) → i < 2 → IsTree file 0 (pos (i + 3))
root-children zero lt = (refl, left-IsOrdered)
root-children (suc zero) lt = (refl, right-IsOrdered)
root-children (suc (suc i)) lt = absurd (omega arith)

file-IsTree : IsTree file 1 (pos 2)
file-IsTree = (refl, (root-IsOrdered, (omega arith, (root-Separates, root-children))))

get_value-Answers_example :
    (o : Option Rid) × (get_value 2 (key 20) file ≡ some o) × Answers file 1 (pos 2) (key 20) o
get_value-Answers_example =
    get_value-Answers file 1 2 (key 20) (λ e. cc e) (tt, tt) file-IsTree (omega arith)

get_value_run : get_value 2 (key 20) file ≡ some (some (rid 1))
unfolding get_value ℤ_discrete
get_value_run = refl

split-SplitLeaf_example :
    (q : ℤ) × (g : IxFile) × (split (pos 5) file ≡ some (q, g)) × SplitLeaf file (pos 5) q g
split-SplitLeaf_example =
    split-SplitLeaf file (pos 5) refl full-IsOrdered (omega arith) (omega arith) (λ e. cc e)
      (λ e. cc e) (λ e. cc e)
  where
    full-IsOrdered : IsOrdered file.file_hdr (tens 4)
    full-IsOrdered = record { valid = λ i lt. (tt, tt); ascending = tens-ascending }

left-IsBelow : IsBelow file (pos 3) (pos 4 ∷ [])
left-IsBelow = ((λ i j lt fits. tens-ascending i (suc (suc j)) (omega arith) (omega arith)), tt)

file-IsChain : IsChain file (pos 3) (pos 4 ∷ [])
file-IsChain = (
  refl,
  (
    left-IsOrdered,
    ((λ e. cc e), (omega arith, (refl, (left-IsBelow, (refl, (right-IsOrdered, refl)))))),
  ),
)

scan_all-bound_from_example :
    (x : Iid) × (bound_from 2 (λ n. lower_bound file.file_hdr n (key 20)) file (pos 3) ≡ some x)
    × (scan_all 5 file (leaf_end file) x ≡ some (all_not_less file (key 20) (pos 3 ∷ pos 4 ∷ [])))
unfolding entry_count
scan_all-bound_from_example =
    scan_all-bound_from file (key 20) (tt, tt) (pos 3) (pos 4 ∷ []) 2 5 file-IsChain (omega arith)
      (omega arith)

-- A tree of one leaf that the next entry fills.
abbrev small_tree : IxFile
small_tree = record { file_hdr = header; pages = λ p. tens 3; next_page = pos 3 }

small_tree-OneLeaf : OneLeaf small_tree
small_tree-OneLeaf = record {
  not_empty = λ e. cc e;
  is_leaf = refl;
  is_root = refl;
  ordered = tens-IsOrdered 3 (omega arith);
  room = omega arith;
  order = omega arith;
  fresh = λ e. cc e;
  fresh_root = λ e. cc e;
  fresh_both = λ e. cc e;
  real_page = λ e. cc e;
  behind_fresh = λ e. cc e;
  behind_other = λ e. cc e;
}

insert_entry-Inserted_example :
    (m : IxNode) × (r : ℤ) × (g : IxFile) × Inserted header (key 15) (rid 9) (tens 3) m
    × (insert_entry 2 (key 15) (rid 9) small_tree ≡ some (r, g))
    × ((q : Key) → IsKey header.cols q → get_value 2 q g ≡ some (leaf_lookup header m q))
insert_entry-Inserted_example =
    insert_entry-Inserted small_tree 0 (key 15) (rid 9) small_tree-OneLeaf (tt, tt)
