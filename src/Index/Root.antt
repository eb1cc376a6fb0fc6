-- ===== src/Index/Root.antt =====
-- A new root over two leaves, of which the first key of the second separates them.
use db_smw.Common.{
  ℕ, zero, suc, ◌+◌, ◌-◌, ◌≤◌, ◌<◌, ◌≡◌, refl, sym, ap, ◌∙◌, ◌≢◌, true, false, leb, ◌&&◌,
  if◌then◌else◌, none, some, arith, if_neg, dec_lt, subst,
}
use db_smw.Common.Int.{ℤ, ℤ_discrete}
use db_smw.Common.Partial.{◌>>=◌}
use db_smw.Transaction.{Rid}
use db_smw.Index.{IxFileHdr, ix_no_page}
use db_smw.Index.Compare.{Comparison, less, equal, greater, Key, ix_compare}
use db_smw.Index.Order.{IsKey, flip, ix_compare-flip}
use db_smw.Index.Node.{
  IxNode, leaf_lookup, get_max_size, spread, insert_pairs, insert_pair, set_parent_page_no,
  upper_bound, internal_lookup, is_less_or_equal, compare_at, lower_bound,
}
use db_smw.Index.Search.{IsOrdered, upper_bound-Splits}
use db_smw.Index.Tree.{
  IxFile, no_leaf, leaf_at, at_page, get_value, find_leaf_page, descend, value_from,
}
use db_smw.Index.Grow.{zero_node, create_node, update_root_page_no, set_page, node_rid, new_root}
use db_smw.Index.Split.{at_page-same, at_page-other}

module _ (g : IxFile) (key : Key) where
  descend-leaf :
      (fuel : ℕ) (c : ℤ) → (g.pages c).is_leaf ≡ true → descend (suc fuel) false key g c ≡ leaf_at c
  unfolding descend
  descend-leaf fuel c l =
      ap
        (λ b.
          if b
          then leaf_at c
          else descend fuel false key g (internal_lookup g.file_hdr (g.pages c) key))
        l

  descend-inner :
      (fuel : ℕ) (c : ℤ)
      → (g.pages c).is_leaf ≡ false
      → descend (suc fuel) false key g c
        ≡ descend fuel false key g (internal_lookup g.file_hdr (g.pages c) key)
  unfolding descend
  descend-inner fuel c l =
      ap
        (λ b.
          if b
          then leaf_at c
          else descend fuel false key g (internal_lookup g.file_hdr (g.pages c) key))
        l

  module _ (some_root : g.file_hdr.root_page ≢ ix_no_page) where
    pub find_leaf_page-descend :
        (fuel : ℕ) → find_leaf_page fuel false key g ≡ descend fuel false key g g.file_hdr.root_page
    unfolding find_leaf_page
    find_leaf_page-descend fuel =
        ap (λ b. if b then no_leaf else descend fuel false key g g.file_hdr.root_page)
          (if_neg (ℤ_discrete g.file_hdr.root_page ix_no_page) some_root true false)

    -- a tree of one leaf
    pub find_leaf_page-leaf :
        (fuel : ℕ)
        → (g.pages g.file_hdr.root_page).is_leaf ≡ true
        → find_leaf_page (suc fuel) false key g ≡ leaf_at g.file_hdr.root_page
    find_leaf_page-leaf fuel l =
        find_leaf_page-descend (suc fuel) ∙ descend-leaf fuel g.file_hdr.root_page l

not_before : (c : Comparison) → c ≢ less → is_less_or_equal (flip c) ≡ true
not_before less h = absurd (h refl)
not_before equal h = refl
not_before greater h = refl

-- A node of two pairs.
module _ (h : IxFileHdr) (n : IxNode) (two : n.num_key ≡ 2) (q : Key) (ord : IsOrdered h n)
    (k : IsKey h.cols q) where
  turned : compare_at h n q 1 ≡ flip (ix_compare h.cols q (n.keys 1))
  turned = ix_compare-flip h.cols q (n.keys 1) k (ord.valid 1 (omega (arith, two)))

  low_bound : ix_compare h.cols q (n.keys 1) ≡ less → upper_bound h n q ≤ 1
  low_bound l = elim (dec_lt 1 (upper_bound h n q)) [
    | yes lt ↦ absurd (
        cc ((upper_bound-Splits h n q ord k).before 1 lt, ap is_less_or_equal (turned ∙ ap flip l)))
    | no ge ↦ omega (arith, ge)
  ]

  high_bound : ix_compare h.cols q (n.keys 1) ≢ less → upper_bound h n q ≡ 2
  high_bound l = elim (dec_lt 1 (upper_bound h n q)) [
    | yes lt ↦ omega (arith, lt, two, (upper_bound-Splits h n q ord k).inside)
    | no ge ↦ absurd (
        cc (
          (upper_bound-Splits h n q ord k).behind 1 (omega (arith, ge)) (omega (arith, two)),
          ap is_less_or_equal turned,
          not_before _ l,
        ))
  ]

  pub internal_lookup-low :
      ix_compare h.cols q (n.keys 1) ≡ less → internal_lookup h n q ≡ (n.rids 0).page_no
  unfolding internal_lookup
  internal_lookup-low l =
      let first : upper_bound h n q - 1 ≡ 0 = omega (arith, low_bound l) in
      ap (λ i. (n.rids i).page_no) first

  pub internal_lookup-high :
      ix_compare h.cols q (n.keys 1) ≢ less → internal_lookup h n q ≡ (n.rids 1).page_no
  unfolding internal_lookup
  internal_lookup-high l =
      let second : upper_bound h n q - 1 ≡ 1 = omega (arith, high_bound l) in
      ap (λ i. (n.rids i).page_no) second

-- The node after the insertion of a pair at place `i`.
abbrev with_pair_at : ℕ → Key → Rid → IxNode → IxNode
with_pair_at i key rid n = record n {
  keys = spread i 1 n.num_key (λ j. key) n.keys;
  rids = spread i 1 n.num_key (λ j. rid) n.rids;
  num_key = n.num_key + 1;
}

insert_pair-some :
    (h : IxFileHdr) (i : ℕ) (key : Key) (rid : Rid) (n : IxNode)
    → i ≤ n.num_key
    → n.num_key + 1 ≤ get_max_size h
    → insert_pair h i key rid n ≡ some (with_pair_at i key rid n)
unfolding insert_pair insert_pairs
insert_pair-some h i key rid n le room =
    let fits : (leb i n.num_key && leb (n.num_key + 1) (get_max_size h)) ≡ true = ground arith in
    ap (λ b. if b then some (with_pair_at i key rid n) else none) fits

-- The new root over pages `p` and `q`, on page `f.next_page`.
module _ (f : IxFile) (p q : ℤ) (room : 1 ≤ f.file_hdr.btree_order) (pr : p ≢ f.next_page)
    (qr : q ≢ f.next_page) (pq : p ≢ q) where
  abbrev blank : IxNode
  blank = record (zero_node f.file_hdr) {
    is_leaf = false;
    parent = ix_no_page;
    num_key = 0;
    prev_leaf = ix_no_page;
    next_leaf = ix_no_page;
  }

  abbrev started : IxFile
  started = set_page f.next_page blank (create_node f)

  abbrev adopted : IxFile
  adopted =
      at_page q (set_parent_page_no f.next_page)
        (at_page p (set_parent_page_no f.next_page) started)

  abbrev one : IxNode
  one = with_pair_at 0 ((adopted.pages p).keys 0) (node_rid p) blank

  abbrev pub root_node : IxNode
  root_node = with_pair_at 1 ((adopted.pages q).keys 0) (node_rid q) one

  abbrev pub rooted : IxFile
  rooted = update_root_page_no f.next_page (set_page f.next_page root_node adopted)

  pub new_root-rooted : new_root p q f ≡ some rooted
  unfolding new_root
  new_root-rooted =
      ap
        (λ o. o >>= λ n. insert_pair f.file_hdr 1 ((adopted.pages q).keys 0) (node_rid q) n >>= λ m.
          some (update_root_page_no f.next_page (set_page f.next_page m adopted)))
        (insert_pair-some f.file_hdr 0 ((adopted.pages p).keys 0) (node_rid p) blank (omega arith)
          (omega arith))
      ∙ ap (λ o. o >>= λ m. some (update_root_page_no f.next_page (set_page f.next_page m adopted)))
          (insert_pair-some f.file_hdr 1 ((adopted.pages q).keys 0) (node_rid q) one (omega arith)
            (omega arith))

  started-other : (o : ℤ) → o ≢ f.next_page → started.pages o ≡ f.pages o
  started-other o ne =
      at_page-other f.next_page o (λ n. blank) (create_node f) ne
      ∙ if_neg (ℤ_discrete o f.next_page) ne (zero_node f.file_hdr) (f.pages o)

  adopted-first : adopted.pages p ≡ set_parent_page_no f.next_page (f.pages p)
  adopted-first =
      at_page-other q p (set_parent_page_no f.next_page)
        (at_page p (set_parent_page_no f.next_page) started) pq
      ∙ at_page-same p (set_parent_page_no f.next_page) started
      ∙ ap (set_parent_page_no f.next_page) (started-other p pr)

  adopted-second : adopted.pages q ≡ set_parent_page_no f.next_page (f.pages q)
  adopted-second =
      at_page-same q (set_parent_page_no f.next_page)
        (at_page p (set_parent_page_no f.next_page) started)
      ∙ ap (set_parent_page_no f.next_page) (
          at_page-other p q (set_parent_page_no f.next_page) started (λ e. pq (sym e))
          ∙ started-other q qr)

  -- the three nodes of the file
  pub rooted-root : rooted.pages f.next_page ≡ root_node
  rooted-root = at_page-same f.next_page (λ n. root_node) adopted

  pub rooted-first : rooted.pages p ≡ set_parent_page_no f.next_page (f.pages p)
  rooted-first = at_page-other f.next_page p (λ n. root_node) adopted pr ∙ adopted-first

  pub rooted-second : rooted.pages q ≡ set_parent_page_no f.next_page (f.pages q)
  rooted-second = at_page-other f.next_page q (λ n. root_node) adopted qr ∙ adopted-second

  pub root-first_key : root_node.keys 0 ≡ (f.pages p).keys 0
  root-first_key = ap (λ n. n.keys 0) adopted-first

  pub root-second_key : root_node.keys 1 ≡ (f.pages q).keys 0
  root-second_key = ap (λ n. n.keys 0) adopted-second

  -- A descent in the new file is one step from the root, to a leaf.
  module _ (leaf_p : (f.pages p).is_leaf ≡ true) (leaf_q : (f.pages q).is_leaf ≡ true)
      (some_page : f.next_page ≢ ix_no_page) (key : Key) (k : IsKey f.file_hdr.cols key)
      (vp : IsKey f.file_hdr.cols ((f.pages p).keys 0))
      (vq : IsKey f.file_hdr.cols ((f.pages q).keys 0))
      (below : ix_compare f.file_hdr.cols ((f.pages p).keys 0) ((f.pages q).keys 0) ≡ less) where
    root_node-IsOrdered : IsOrdered rooted.file_hdr root_node
    root_node-IsOrdered = record { valid = root_valid; ascending = root_ascending }
      where
        root_valid : (i : ℕ) → i < 2 → IsKey f.file_hdr.cols (root_node.keys i)
        root_valid zero lt = subst (IsKey f.file_hdr.cols) (sym root-first_key) vp
        root_valid (suc zero) lt = subst (IsKey f.file_hdr.cols) (sym root-second_key) vq
        root_valid (suc (suc i)) lt = absurd (omega arith)

        root_ascending :
            (i j : ℕ)
            → i < j
            → j < 2
            → ix_compare f.file_hdr.cols (root_node.keys i) (root_node.keys j) ≡ less
        root_ascending zero (suc zero) lt fits = cc (root-first_key, root-second_key, below)
        root_ascending i j lt fits = absurd (omega arith)

    get_value-child :
        (fuel : ℕ) (c : ℤ)
        → internal_lookup rooted.file_hdr root_node key ≡ c
        → (rooted.pages c).is_leaf ≡ true
        → get_value (suc (suc fuel)) key rooted
          ≡ some (leaf_lookup rooted.file_hdr (rooted.pages c) key)
    unfolding get_value
    get_value-child fuel c e l = ap (value_from rooted key) (
        find_leaf_page-descend rooted key some_page (suc (suc fuel))
        ∙ descend-inner rooted key (suc fuel) f.next_page (ap (λ n. n.is_leaf) rooted-root)
        ∙ ap (descend (suc fuel) false key rooted)
            (ap (λ n. internal_lookup rooted.file_hdr n key) rooted-root ∙ e)
        ∙ descend-leaf rooted key fuel c l)

    -- below the first key of the second leaf the first leaf answers, and from it on the second
    pub get_value-low :
        (fuel : ℕ)
        → ix_compare f.file_hdr.cols key ((f.pages q).keys 0) ≡ less
        → get_value (suc (suc fuel)) key rooted ≡ some (leaf_lookup f.file_hdr (f.pages p) key)
    unfolding leaf_lookup lower_bound
    get_value-low fuel l =
        get_value-child fuel p
          (internal_lookup-low rooted.file_hdr root_node refl key root_node-IsOrdered k
            (ap (ix_compare f.file_hdr.cols key) root-second_key ∙ l))
          (ap (λ n. n.is_leaf) rooted-first ∙ leaf_p)
        ∙ ap (λ n. some (leaf_lookup f.file_hdr n key)) rooted-first

    pub get_value-high :
        (fuel : ℕ)
        → ix_compare f.file_hdr.cols key ((f.pages q).keys 0) ≢ less
        → get_value (suc (suc fuel)) key rooted ≡ some (leaf_lookup f.file_hdr (f.pages q) key)
    unfolding leaf_lookup lower_bound
    get_value-high fuel l =
        get_value-child fuel q
          (internal_lookup-high rooted.file_hdr root_node refl key root_node-IsOrdered k
            (λ e. l (sym (ap (ix_compare f.file_hdr.cols key) root-second_key) ∙ e)))
          (ap (λ n. n.is_leaf) rooted-second ∙ leaf_q)
        ∙ ap (λ n. some (leaf_lookup f.file_hdr n key)) rooted-second
