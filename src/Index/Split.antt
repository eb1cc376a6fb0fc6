-- ===== src/Index/Split.antt =====
-- What `split` makes of a leaf.
use db_smw.Common.{
  ℕ, ◌+◌, ◌-◌, ◌/◌, ◌≤◌, ◌<◌, ◌≡◌, refl, sym, ap, ◌∙◌, ◌≢◌, true, leb, if◌then◌else◌, some, arith,
  ite, if_pos, if_neg,
}
use db_smw.Common.Int.{ℤ, ℤ_discrete}
use db_smw.Common.Partial.{◌>>=◌}
use db_smw.Index.{IxFileHdr, ix_no_page}
use db_smw.Index.Compare.{Key, less, ix_compare}
use db_smw.Index.Order.{IsKey}
use db_smw.Index.Node.{
  IxNode, set_size, set_next_leaf, set_prev_leaf, leaf_lookup, get_max_size, spread, insert_pairs,
}
use db_smw.Index.Search.{IsOrdered}
use db_smw.Index.Halves.{Halves, low-IsOrdered, high-IsOrdered, leaf_lookup-low, leaf_lookup-high}
use db_smw.Index.Tree.{IxFile, at_page}
use db_smw.Index.Grow.{
  zero_node, create_node, link_between, link_leaf, adopt_children, upper_half, split,
}

pub at_page-same :
    (p : ℤ) (c : IxNode → IxNode) (f : IxFile) → (at_page p c f).pages p ≡ c (f.pages p)
at_page-same p c f = if_pos (ℤ_discrete p p) refl _ _

pub at_page-other :
    (p o : ℤ) (c : IxNode → IxNode) (f : IxFile) → o ≢ p → (at_page p c f).pages o ≡ f.pages o
at_page-other p o c f ne = if_neg (ℤ_discrete o p) ne _ _

-- The pages after the new leaf `q` is put between `p` and `b`.
module _ (p q b : ℤ) (f : IxFile) (pq : p ≢ q) (bq : b ≢ q) (bp : b ≢ p) where
  abbrev linked : IxFile
  linked = link_between p q b f

  abbrev linked_new : IxFile
  linked_new = at_page q (λ n. set_next_leaf b (set_prev_leaf p n)) f

  abbrev linked_behind : IxFile
  linked_behind = at_page b (set_prev_leaf q) linked_new

  linked-left : linked.pages p ≡ set_next_leaf q (f.pages p)
  linked-left =
      at_page-same p (set_next_leaf q) linked_behind
      ∙ ap (set_next_leaf q) (
          at_page-other b p (set_prev_leaf q) linked_new (λ e. bp (sym e))
          ∙ at_page-other q p (λ n. set_next_leaf b (set_prev_leaf p n)) f pq)

  linked-new : linked.pages q ≡ set_next_leaf b (set_prev_leaf p (f.pages q))
  linked-new =
      at_page-other p q (set_next_leaf q) linked_behind (λ e. pq (sym e))
      ∙ at_page-other b q (set_prev_leaf q) linked_new (λ e. bq (sym e))
      ∙ at_page-same q (λ n. set_next_leaf b (set_prev_leaf p n)) f

  linked-behind : linked.pages b ≡ set_prev_leaf q (f.pages b)
  linked-behind =
      at_page-other p b (set_next_leaf q) linked_behind bp
      ∙ at_page-same b (set_prev_leaf q) linked_new
      ∙ ap (set_prev_leaf q) (at_page-other q b (λ n. set_next_leaf b (set_prev_leaf p n)) f bq)

  linked-other : (o : ℤ) → o ≢ p → o ≢ q → o ≢ b → linked.pages o ≡ f.pages o
  linked-other o op oq ob =
      at_page-other p o (set_next_leaf q) linked_behind op
      ∙ at_page-other b o (set_prev_leaf q) linked_new ob
      ∙ at_page-other q o (λ n. set_next_leaf b (set_prev_leaf p n)) f oq

spread-front {ℓ} :
    {A : Type ℓ} (n size i : ℕ) (added old : ℕ → A) → i < n → spread 0 n size added old i ≡ added i
spread-front n size i added old lt = let same : i - 0 ≡ i = omega arith in ground (arith, same)

module _ (h : IxFileHdr) (n : IxNode) where
  abbrev upper : IxNode
  upper =
      let start = n.num_key / 2 in
      let blank = zero_node h in
      record blank {
        next_free_page_no = ix_no_page;
        parent = n.parent;
        num_key = 0 + (n.num_key - start);
        is_leaf = n.is_leaf;
        keys = spread 0 (n.num_key - start) 0 (λ i. n.keys (start + i)) blank.keys;
        rids = spread 0 (n.num_key - start) 0 (λ i. n.rids (start + i)) blank.rids;
      }

  upper_half-upper : n.num_key ≤ get_max_size h → upper_half h n ≡ some upper
  unfolding upper_half insert_pairs
  upper_half-upper fits =
      let room : leb (0 + (n.num_key - n.num_key / 2)) (get_max_size h) ≡ true = ground arith in
      rw room refl

  upper-Halves :
      (low high : IxNode)
      → low.keys ≡ n.keys
      → low.rids ≡ n.rids
      → low.num_key ≡ n.num_key / 2
      → high.keys ≡ upper.keys
      → high.rids ≡ upper.rids
      → high.num_key ≡ upper.num_key
      → Halves n low high (n.num_key / 2)
  upper-Halves low high lk lr ln hk hr hn = record {
    low_size = ln;
    sizes = omega arith;
    low_keys = λ i lt. ap (λ x. x i) lk;
    low_rids = λ i lt. ap (λ x. x i) lr;
    high_keys = λ i lt.
        ap (λ x. x i) hk
        ∙ spread-front (n.num_key - n.num_key / 2) 0 i (λ j. n.keys (n.num_key / 2 + j))
            (zero_node h).keys (omega (arith, hn));
    high_rids = λ i lt.
        ap (λ x. x i) hr
        ∙ spread-front (n.num_key - n.num_key / 2) 0 i (λ j. n.rids (n.num_key / 2 + j))
            (zero_node h).rids (omega (arith, hn));
  }

-- What `split` makes of the leaf on page `p` of `f`, with the new leaf on page `q`.
pub record SplitLeaf (f : IxFile) (p q : ℤ) (g : IxFile) : Type 0 where
  pub halves : Halves (f.pages p) (g.pages p) (g.pages q) ((f.pages p).num_key / 2)
  pub left_ordered : IsOrdered f.file_hdr (g.pages p)
  pub right_ordered : IsOrdered f.file_hdr (g.pages q)
  pub routed :
      (key : Key)
      → IsKey f.file_hdr.cols key
      → (ix_compare f.file_hdr.cols key ((g.pages q).keys 0) ≡ less
          → leaf_lookup f.file_hdr (g.pages p) key ≡ leaf_lookup f.file_hdr (f.pages p) key)
        × (ix_compare f.file_hdr.cols key ((g.pages q).keys 0) ≢ less
            → leaf_lookup f.file_hdr (g.pages q) key ≡ leaf_lookup f.file_hdr (f.pages p) key)
  pub next_of_left : (g.pages p).next_leaf ≡ q
  pub prev_of_right : (g.pages q).prev_leaf ≡ p
  pub next_of_right : (g.pages q).next_leaf ≡ (f.pages p).next_leaf
  pub behind : g.pages (f.pages p).next_leaf ≡ set_prev_leaf q (f.pages (f.pages p).next_leaf)
  pub parent_of_right : (g.pages q).parent ≡ (f.pages p).parent
  pub elsewhere : (o : ℤ) → o ≢ p → o ≢ q → o ≢ (f.pages p).next_leaf → g.pages o ≡ f.pages o
  pub last : g.file_hdr.last_leaf ≡ ite (ℤ_discrete f.file_hdr.last_leaf p) q f.file_hdr.last_leaf

module _ (f : IxFile) (p : ℤ) (leaf : (f.pages p).is_leaf ≡ true)
    (ord : IsOrdered f.file_hdr (f.pages p)) (some_key : 0 < (f.pages p).num_key)
    (fits : (f.pages p).num_key ≤ get_max_size f.file_hdr) (fresh : p ≢ f.next_page)
    (behind_fresh : (f.pages p).next_leaf ≢ f.next_page)
    (behind_other : (f.pages p).next_leaf ≢ p) where
  -- The two halves, before they are linked.
  abbrev pub put : IxFile
  put = at_page f.next_page (λ n. upper f.file_hdr (f.pages p)) (create_node f)

  abbrev pub cut : IxFile
  cut = at_page p (set_size ((f.pages p).num_key / 2)) put

  abbrev pub split_file : IxFile
  split_file = link_between p f.next_page (f.pages p).next_leaf cut

  put-other : (o : ℤ) → o ≢ f.next_page → put.pages o ≡ f.pages o
  put-other o ne =
      at_page-other f.next_page o (λ n. upper f.file_hdr (f.pages p)) (create_node f) ne
      ∙ if_neg (ℤ_discrete o f.next_page) ne (zero_node f.file_hdr) (f.pages o)

  cut-left : cut.pages p ≡ set_size ((f.pages p).num_key / 2) (f.pages p)
  cut-left =
      at_page-same p (set_size ((f.pages p).num_key / 2)) put
      ∙ ap (set_size ((f.pages p).num_key / 2)) (put-other p fresh)

  cut-right : cut.pages f.next_page ≡ upper f.file_hdr (f.pages p)
  cut-right =
      at_page-other p f.next_page (set_size ((f.pages p).num_key / 2)) put (λ e. fresh (sym e))
      ∙ at_page-same f.next_page (λ n. upper f.file_hdr (f.pages p)) (create_node f)

  cut-other : (o : ℤ) → o ≢ p → o ≢ f.next_page → cut.pages o ≡ f.pages o
  cut-other o op oq = at_page-other p o (set_size ((f.pages p).num_key / 2)) put op ∙ put-other o oq

  pub split-split_file : split p f ≡ some (f.next_page, split_file)
  unfolding split
  split-split_file =
      ap
        (λ o. o >>= λ new.
          let f1 = at_page f.next_page (λ m. new) (create_node f) in
          let f2 = at_page p (set_size ((f.pages p).num_key / 2)) f1 in
          some (
            f.next_page,
            if (f.pages p).is_leaf
                then link_leaf p f.next_page f2
                else adopt_children f.next_page f2,
          ))
        (upper_half-upper f.file_hdr (f.pages p) fits)
      ∙ ap
          (λ b. some (
            f.next_page,
            if b then link_leaf p f.next_page cut else adopt_children f.next_page cut,
          ))
          leaf
      ∙ ap (λ b. some (f.next_page, link_between p f.next_page b cut))
          (ap (λ n. n.next_leaf) cut-left)

  pub left :
      split_file.pages p
      ≡ set_next_leaf f.next_page (set_size ((f.pages p).num_key / 2) (f.pages p))
  left =
      linked-left p f.next_page (f.pages p).next_leaf cut fresh behind_fresh behind_other
      ∙ ap (set_next_leaf f.next_page) cut-left

  pub right :
      split_file.pages f.next_page
      ≡ set_next_leaf (f.pages p).next_leaf (set_prev_leaf p (upper f.file_hdr (f.pages p)))
  right =
      linked-new p f.next_page (f.pages p).next_leaf cut fresh behind_fresh behind_other
      ∙ ap (λ n. set_next_leaf (f.pages p).next_leaf (set_prev_leaf p n)) cut-right

  pub split_file-Halves :
      Halves
        (f.pages p)
        (split_file.pages p)
        (split_file.pages f.next_page)
        ((f.pages p).num_key / 2)
  split_file-Halves =
      upper-Halves f.file_hdr (f.pages p) (split_file.pages p) (split_file.pages f.next_page)
        (ap (λ n. n.keys) left) (ap (λ n. n.rids) left) (ap (λ n. n.num_key) left)
        (ap (λ n. n.keys) right) (ap (λ n. n.rids) right) (ap (λ n. n.num_key) right)

  -- For a leaf with between one key and the most that a node has, whose keys ascend strictly, where
  -- the page that the file gives out next is neither the leaf's nor the one behind it, and the leaf
  -- is not behind itself: split returns that page and a file in which the leaf has the lower half of
  -- the pairs and the new page the others, in order, both with ascending keys; a key is looked up
  -- with the old result in the leaf if it is less than the new page's first key, and otherwise in the
  -- new page; the new leaf is linked between the leaf and the one behind it and has the leaf's
  -- parent; `last_leaf_` moves to it if it was the leaf; and no other page changes.
  pub split-SplitLeaf : (q : ℤ) × (g : IxFile) × (split p f ≡ some (q, g)) × SplitLeaf f p q g
  split-SplitLeaf = (
    f.next_page,
    split_file,
    split-split_file,
    record {
      halves = split_file-Halves;
      left_ordered = low-IsOrdered f.file_hdr (f.pages p) _ _ _ split_file-Halves ord;
      right_ordered = high-IsOrdered f.file_hdr (f.pages p) _ _ _ split_file-Halves ord;
      routed = λ key k. (
        leaf_lookup-low f.file_hdr (f.pages p) _ _ _ split_file-Halves ord key k some_right,
        leaf_lookup-high f.file_hdr (f.pages p) _ _ _ split_file-Halves ord key k some_right,
      );
      next_of_left = ap (λ n. n.next_leaf) left;
      prev_of_right = ap (λ n. n.prev_leaf) right;
      next_of_right = ap (λ n. n.next_leaf) right;
      behind =
          linked-behind p f.next_page (f.pages p).next_leaf cut fresh behind_fresh behind_other
          ∙ ap (set_prev_leaf f.next_page)
              (cut-other (f.pages p).next_leaf behind_other behind_fresh);
      parent_of_right = ap (λ n. n.parent) right;
      elsewhere = λ o op oq ob.
          linked-other p f.next_page (f.pages p).next_leaf cut fresh behind_fresh behind_other o op
            oq ob
          ∙ cut-other o op oq;
      last = refl;
    },
  )
    where
      some_right : 0 < (split_file.pages f.next_page).num_key
      some_right = omega (arith, ap (λ n. n.num_key) right)
