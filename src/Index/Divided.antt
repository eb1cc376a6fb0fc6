-- ===== src/Index/Divided.antt =====
-- A tree of one leaf, in which the leaf is changed, and divided where it is full.
use db_smw.Common.{
  ℕ, suc, ◌+◌, ◌/◌, ◌≤◌, ◌<◌, ◌≡◌, refl, sym, ap, ◌∙◌, ◌≢◌, ◌⊎◌, inl, inr, Bool, true, false,
  if◌then◌else◌, some, arith, if_pos, subst,
}
use db_smw.Common.Int.{ℤ, suc_ℤ, ℤ_discrete}
use db_smw.Index.{ix_no_page}
use db_smw.Index.Compare.{Comparison, less, equal, greater, Key, ix_compare}
use db_smw.Index.Order.{IsKey}
use db_smw.Index.Node.{IxNode, set_next_leaf, set_size, leaf_lookup, lower_bound, get_max_size}
use db_smw.Index.Search.{IsOrdered}
use db_smw.Index.Halves.{Halves, low-IsOrdered, high-IsOrdered, leaf_lookup-low, leaf_lookup-high}
use db_smw.Index.Tree.{IxFile, get_value, value_from}
use db_smw.Index.Grow.{set_page, split, new_root, insert_into_parent}
use db_smw.Index.Entry.{maintain_parent}
use db_smw.Index.Split.{at_page-same, split_file, split-split_file, split_file-Halves, left, right}
use db_smw.Index.Root.{rooted, new_root-rooted, get_value-low, get_value-high, find_leaf_page-leaf}

-- A tree of one leaf with room for a pair, which is the last in the way up, and the pages that the
-- file gives out next are not in use.
pub record OneLeaf (f : IxFile) : Type 0 where
  pub not_empty : f.file_hdr.root_page ≢ ix_no_page
  pub is_leaf : (f.pages f.file_hdr.root_page).is_leaf ≡ true
  pub is_root : (f.pages f.file_hdr.root_page).parent ≡ ix_no_page
  pub ordered : IsOrdered f.file_hdr (f.pages f.file_hdr.root_page)
  pub room : (f.pages f.file_hdr.root_page).num_key < get_max_size f.file_hdr
  pub order : 1 ≤ f.file_hdr.btree_order
  pub fresh : f.file_hdr.root_page ≢ f.next_page
  pub fresh_root : f.file_hdr.root_page ≢ suc_ℤ f.next_page
  pub fresh_both : f.next_page ≢ suc_ℤ f.next_page
  pub real_page : suc_ℤ f.next_page ≢ ix_no_page
  pub behind_fresh : (f.pages f.file_hdr.root_page).next_leaf ≢ f.next_page
  pub behind_other : (f.pages f.file_hdr.root_page).next_leaf ≢ f.file_hdr.root_page

less-cases : (c : Comparison) → (c ≡ less) ⊎ (c ≢ less)
less-cases less = inl refl
less-cases equal = inr (λ e. cc e)
less-cases greater = inr (λ e. cc e)

insert_into_parent-new_root :
    (fuel : ℕ) (p q : ℤ) (key : Key) (g : IxFile)
    → (g.pages p).parent ≡ ix_no_page
    → insert_into_parent (suc fuel) p key q g ≡ new_root p q g
unfolding insert_into_parent
insert_into_parent-new_root fuel p q key g e =
    if_pos (ℤ_discrete (g.pages p).parent ix_no_page) e _ _

pub maintain_parent-root :
    (fuel : ℕ) (p : ℤ) (g : IxFile)
    → (g.pages p).parent ≡ ix_no_page
    → maintain_parent (suc fuel) p g ≡ some g
unfolding maintain_parent
maintain_parent-root fuel p g e = if_pos (ℤ_discrete (g.pages p).parent ix_no_page) e _ _

module _ {A : Type 0} (a b : Bool) (x y z : A) where
  pub pick_first : a ≡ true → (if a then x else if b then y else z) ≡ x
  pick_first e = ap (λ c. if c then x else if b then y else z) e

  pub pick_second : a ≡ false → b ≡ true → (if a then x else if b then y else z) ≡ y
  pick_second e h = ap (λ c. if c then x else if b then y else z) e ∙ ap (λ c. if c then y else z) h

  pub pick_third : a ≡ false → b ≡ false → (if a then x else if b then y else z) ≡ z
  pick_third e h = ap (λ c. if c then x else if b then y else z) e ∙ ap (λ c. if c then y else z) h

-- A leaf `m`, put in the place of the tree's leaf.
module _ (f : IxFile) (one : OneLeaf f) (m : IxNode) (kind : m.is_leaf ≡ true) where
  abbrev pub p : ℤ
  p = f.file_hdr.root_page

  abbrev pub changed : IxFile
  changed = set_page p m f

  pub placed : changed.pages p ≡ m
  placed = at_page-same p (λ n. m) f

  pub get_value-changed :
      (fuel : ℕ) (key : Key)
      → get_value (suc fuel) key changed ≡ some (leaf_lookup f.file_hdr m key)
  unfolding get_value
  get_value-changed fuel key =
      ap (value_from changed key)
        (find_leaf_page-leaf changed key one.not_empty fuel (ap (λ n. n.is_leaf) placed ∙ kind))
      ∙ ap (λ n. some (leaf_lookup f.file_hdr n key)) placed

  module _ (parent : m.parent ≡ ix_no_page) (behind : m.next_leaf ≡ (f.pages p).next_leaf)
      (ord : IsOrdered f.file_hdr m) (fits : m.num_key ≤ get_max_size f.file_hdr)
      (full : get_max_size f.file_hdr ≤ m.num_key) where
    pub leaf1 : (changed.pages p).is_leaf ≡ true
    leaf1 = ap (λ n. n.is_leaf) placed ∙ kind

    behind1 : (changed.pages p).next_leaf ≡ (f.pages p).next_leaf
    behind1 = ap (λ n. n.next_leaf) placed ∙ behind

    pub ord1 : IsOrdered f.file_hdr (changed.pages p)
    ord1 = subst (IsOrdered f.file_hdr) (sym placed) ord

    size1 : (changed.pages p).num_key ≡ m.num_key
    size1 = ap (λ n. n.num_key) placed

    pub fits1 : (changed.pages p).num_key ≤ get_max_size f.file_hdr
    fits1 = omega (arith, size1, fits)

    some1 : 1 < (changed.pages p).num_key
    some1 = omega (arith, size1, full, one.order)

    pub nonempty1 : 0 < (changed.pages p).num_key
    nonempty1 = omega (arith, some1)

    pub fresh1 : (changed.pages p).next_leaf ≢ f.next_page
    fresh1 e = one.behind_fresh (sym behind1 ∙ e)

    pub other1 : (changed.pages p).next_leaf ≢ p
    other1 e = one.behind_other (sym behind1 ∙ e)

    abbrev pub q : ℤ
    q = f.next_page

    abbrev pub divided : IxFile
    divided = split_file changed p leaf1 ord1 nonempty1 fits1 one.fresh fresh1 other1

    pub divided-split : split p changed ≡ some (q, divided)
    divided-split = split-split_file changed p leaf1 ord1 nonempty1 fits1 one.fresh fresh1 other1

    first_half :
        divided.pages p
        ≡ set_next_leaf q (set_size ((changed.pages p).num_key / 2) (changed.pages p))
    first_half = left changed p leaf1 ord1 nonempty1 fits1 one.fresh fresh1 other1

    cut_here :
        Halves (changed.pages p) (divided.pages p) (divided.pages q) ((changed.pages p).num_key / 2)
    cut_here = split_file-Halves changed p leaf1 ord1 nonempty1 fits1 one.fresh fresh1 other1

    leaf_p : (divided.pages p).is_leaf ≡ true
    leaf_p = ap (λ n. n.is_leaf) first_half ∙ leaf1

    leaf_q : (divided.pages q).is_leaf ≡ true
    leaf_q =
        ap (λ n. n.is_leaf) (right changed p leaf1 ord1 nonempty1 fits1 one.fresh fresh1 other1)
        ∙ leaf1

    divided_low-IsOrdered : IsOrdered f.file_hdr (divided.pages p)
    divided_low-IsOrdered = low-IsOrdered f.file_hdr (changed.pages p) _ _ _ cut_here ord1

    divided_high-IsOrdered : IsOrdered f.file_hdr (divided.pages q)
    divided_high-IsOrdered = high-IsOrdered f.file_hdr (changed.pages p) _ _ _ cut_here ord1

    some_low : 0 < (divided.pages p).num_key
    some_low = omega (arith, cut_here.low_size, some1)

    some_high : 0 < (divided.pages q).num_key
    some_high = omega (arith, cut_here.sizes, some1)

    halves_ascend :
        ix_compare f.file_hdr.cols ((divided.pages p).keys 0) ((divided.pages q).keys 0) ≡ less
    halves_ascend = cc (
      cut_here.low_keys 0 (omega (arith, some1)),
      cut_here.high_keys 0 some_high,
      ord1.ascending 0 ((changed.pages p).num_key / 2 + 0) (omega (arith, some1))
          (omega (arith, some1)),
    )

    abbrev pub grown : IxFile
    grown = rooted divided p q one.order one.fresh_root one.fresh_both one.fresh

    pub insert_into_parent-grown :
        (fuel : ℕ) (key : Key) → insert_into_parent (suc fuel) p key q divided ≡ some grown
    insert_into_parent-grown fuel key =
        insert_into_parent-new_root fuel p q key divided (
          ap (λ n. n.parent)
            (first_half
              ∙ ap (λ n. set_next_leaf q (set_size ((changed.pages p).num_key / 2) n)) placed)
          ∙ parent)
        ∙ new_root-rooted divided p q one.order one.fresh_root one.fresh_both one.fresh

    pub get_value-grown :
        (fuel : ℕ) (key : Key)
        → IsKey f.file_hdr.cols key
        → get_value (suc (suc fuel)) key grown ≡ some (leaf_lookup f.file_hdr m key)
    unfolding leaf_lookup lower_bound
    get_value-grown fuel key k =
        elim (less-cases (ix_compare f.file_hdr.cols key ((divided.pages q).keys 0))) [
          | inl l ↦
              get_value-low divided p q one.order one.fresh_root one.fresh_both one.fresh leaf_p
                leaf_q one.real_page key k (divided_low-IsOrdered.valid 0 some_low)
                (divided_high-IsOrdered.valid 0 some_high) halves_ascend fuel l
              ∙ ap some (
                  leaf_lookup-low f.file_hdr (changed.pages p) _ _ _ cut_here ord1 key k some_high
                    l)
              ∙ ap (λ n. some (leaf_lookup f.file_hdr n key)) placed
          | inr g ↦
              get_value-high divided p q one.order one.fresh_root one.fresh_both one.fresh leaf_p
                leaf_q one.real_page key k (divided_low-IsOrdered.valid 0 some_low)
                (divided_high-IsOrdered.valid 0 some_high) halves_ascend fuel g
              ∙ ap some (
                  leaf_lookup-high f.file_hdr (changed.pages p) _ _ _ cut_here ord1 key k some_high
                    g)
              ∙ ap (λ n. some (leaf_lookup f.file_hdr n key)) placed
        ]
