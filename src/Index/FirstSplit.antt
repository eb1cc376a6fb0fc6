-- ===== src/Index/FirstSplit.antt =====
-- The insertion of an entry in a tree of one leaf, up to the split that makes the first root above
-- leaves.
use db_smw.Common.{
  ℕ, suc, ◌≤◌, ◌≡◌, ap, ◌∙◌, inl, inr, true, false, leb, ◌==◌, Bool-cases, Option, some, arith,
}
use db_smw.Common.Int.{ℤ}
use db_smw.Common.Partial.{◌>>=◌}
use db_smw.Transaction.{Rid}
use db_smw.Index.{ix_no_page}
use db_smw.Index.Compare.{Key}
use db_smw.Index.Order.{IsKey}
use db_smw.Index.Node.{IxNode, leaf_lookup, get_max_size}
use db_smw.Index.Insert.{Inserted, insert-Inserted}
use db_smw.Index.Tree.{IxFile, get_value}
use db_smw.Index.Grow.{insert_into_parent}
use db_smw.Index.Entry.{
  inserted_page, full_leaf, fitting_leaf, entry_inserted, entry_from, insert_entry,
}
use db_smw.Index.Root.{find_leaf_page-leaf}
use db_smw.Index.Divided.{
  OneLeaf, maintain_parent-root, pick_first, pick_second, pick_third, changed, placed,
  get_value-changed, divided-split, grown, insert_into_parent-grown, get_value-grown,
}

module _ (f : IxFile) (one : OneLeaf f) (fuel : ℕ) (key : Key) (v : Rid) (m : IxNode)
    (ins : Inserted f.file_hdr key v (f.pages f.file_hdr.root_page) m) where
  -- How the insertion ends: the file in which every key is found as in `m`.
  abbrev Ends : Option (ℤ × IxFile) → Type 0
  Ends o =
      (r : ℤ) × (g : IxFile) × (o ≡ some (r, g))
      × ((q : Key)
          → IsKey f.file_hdr.cols q
          → get_value (suc (suc fuel)) q g ≡ some (leaf_lookup f.file_hdr m q))

  kind : m.is_leaf ≡ true
  kind = ins.same_kind ∙ one.is_leaf

  parent : m.parent ≡ ix_no_page
  parent = ins.same_parent ∙ one.is_root

  fits : m.num_key ≤ get_max_size f.file_hdr
  fits = elim ins.grown [
    | inl (_, e) ↦ omega (arith, e, one.room)
    | inr (_, e) ↦ omega (arith, e, one.room)
  ]

  same-Ends :
      (m.num_key == (f.pages f.file_hdr.root_page).num_key) ≡ true
      → Ends (entry_inserted (suc (suc fuel)) key f.file_hdr.root_page m f)
  unfolding entry_inserted
  same-Ends e = (
    ix_no_page,
    changed f one m kind,
    pick_first (m.num_key == (f.pages f.file_hdr.root_page).num_key)
        (leb (get_max_size f.file_hdr) m.num_key) (some (ix_no_page, changed f one m kind))
        (full_leaf (suc (suc fuel)) key f.file_hdr.root_page (changed f one m kind))
        (fitting_leaf (suc (suc fuel)) f.file_hdr.root_page (changed f one m kind)) e,
    λ q k. get_value-changed f one m kind (suc fuel) q,
  )

  fitting-Ends :
      (m.num_key == (f.pages f.file_hdr.root_page).num_key) ≡ false
      → leb (get_max_size f.file_hdr) m.num_key ≡ false
      → Ends (entry_inserted (suc (suc fuel)) key f.file_hdr.root_page m f)
  unfolding entry_inserted
  fitting-Ends e h = (
    f.file_hdr.root_page,
    changed f one m kind,
    pick_third (m.num_key == (f.pages f.file_hdr.root_page).num_key)
          (leb (get_max_size f.file_hdr) m.num_key) (some (ix_no_page, changed f one m kind))
          (full_leaf (suc (suc fuel)) key f.file_hdr.root_page (changed f one m kind))
          (fitting_leaf (suc (suc fuel)) f.file_hdr.root_page (changed f one m kind)) e h
        ∙ ap (λ o. o >>= λ g. some (f.file_hdr.root_page, g))
            (maintain_parent-root (suc fuel) f.file_hdr.root_page (changed f one m kind)
              (ap (λ n. n.parent) (placed f one m kind) ∙ parent)),
    λ q k. get_value-changed f one m kind (suc fuel) q,
  )

  full-Ends :
      (m.num_key == (f.pages f.file_hdr.root_page).num_key) ≡ false
      → leb (get_max_size f.file_hdr) m.num_key ≡ true
      → Ends (entry_inserted (suc (suc fuel)) key f.file_hdr.root_page m f)
  unfolding entry_inserted
  full-Ends e h =
      let full : get_max_size f.file_hdr ≤ m.num_key = ground arith in
      let g = grown f one m kind parent ins.same_next ins.ordered fits full in
      (
        inserted_page f.file_hdr.root_page f.next_page key g,
        g,
        pick_second (m.num_key == (f.pages f.file_hdr.root_page).num_key)
              (leb (get_max_size f.file_hdr) m.num_key) (some (ix_no_page, changed f one m kind))
              (full_leaf (suc (suc fuel)) key f.file_hdr.root_page (changed f one m kind))
              (fitting_leaf (suc (suc fuel)) f.file_hdr.root_page (changed f one m kind)) e h
            ∙ ap
                (λ o. o >>= λ s.
                  insert_into_parent (suc (suc fuel)) f.file_hdr.root_page ((s.1.pages s.0).keys 0)
                    s.0 s.1
                  >>= λ g. some (inserted_page f.file_hdr.root_page s.0 key g, g))
                (divided-split f one m kind parent ins.same_next ins.ordered fits full)
            ∙ ap (λ o. o >>= λ g. some (inserted_page f.file_hdr.root_page f.next_page key g, g))
                (insert_into_parent-grown f one m kind parent ins.same_next ins.ordered fits full
                  (suc fuel) _),
        λ q k. get_value-grown f one m kind parent ins.same_next ins.ordered fits full fuel q k,
      )

  entry_inserted-Ends : Ends (entry_inserted (suc (suc fuel)) key f.file_hdr.root_page m f)
  entry_inserted-Ends = elim (Bool-cases (m.num_key == (f.pages f.file_hdr.root_page).num_key)) [
    | inl e ↦ same-Ends e
    | inr e ↦ elim (Bool-cases (leb (get_max_size f.file_hdr) m.num_key)) [
      | inl h ↦ full-Ends e h
      | inr h ↦ fitting-Ends e h
    ]
  ]

-- On an index file whose tree is one leaf, the root, without a parent, with room for a pair and keys
-- that ascend strictly, where a node has room for two pairs, the two pages that the file gives out
-- next are different, neither is the root and the second is no IX_NO_PAGE, and the page behind the
-- root is neither the root nor the first of them, for a key of the file: with two rounds or more
-- insert_entry returns, and there is the leaf with the pair inserted, as by a map, such
-- that in the file that insert_entry leaves, whether it has split the leaf below a new root or not,
-- get_value finds for every key of the file what that leaf has for it.
pub insert_entry-Inserted :
    (f : IxFile) (fuel : ℕ) (key : Key) (v : Rid)
    → OneLeaf f
    → IsKey f.file_hdr.cols key
    → (m : IxNode) × (r : ℤ) × (g : IxFile) × Inserted f.file_hdr key v
        (f.pages f.file_hdr.root_page)
        m
      × (insert_entry (suc (suc fuel)) key v f ≡ some (r, g))
      × ((q : Key)
          → IsKey f.file_hdr.cols q
          → get_value (suc (suc fuel)) q g ≡ some (leaf_lookup f.file_hdr m q))
unfolding insert_entry
insert_entry-Inserted f fuel key v one k =
    let (m, e, ins) =
      insert-Inserted f.file_hdr (f.pages f.file_hdr.root_page) key v one.ordered k one.room in
    let (r, g, done, found) = entry_inserted-Ends f one fuel key v m ins in
    (
      m,
      r,
      g,
      ins,
      ap (entry_from (suc (suc fuel)) key v f)
            (find_leaf_page-leaf f key one.not_empty (suc fuel) one.is_leaf)
          ∙ ap (λ o. o >>= λ n. entry_inserted (suc (suc fuel)) key f.file_hdr.root_page n f) e
          ∙ done,
      found,
    )
