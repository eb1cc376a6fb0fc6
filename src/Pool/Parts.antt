-- ===== src/Pool/Parts.antt =====
-- The parts of `fetch_page` and `new_page`, one at a time: a frame is picked, written back, taken
-- out of the page table, and put in again under another id.
use db_smw.Common.{
  true, ℕ, ◌<◌, ◌≡◌, ◌≢◌, refl, sym, ap, ◌∙◌, subst, ◌⊎◌, inl, inr, false, List, [], ◌∷◌, Option,
  none, some, In, Distinct,
}
use db_smw.Common.Int.{minus_one}
use db_smw.Storage.Page.{PageId}
use db_smw.Replacer.{LruReplacer, frames}
use db_smw.Replacer.Order
use db_smw.Storage.Stored.{page_in_range, page_in_range-ne}
use db_smw.Pool.{Pool, frame_of, take_free, find_victim_page}
use db_smw.Pool.Invariant.{IsSound, IsComplete, Nobody}

-- A frame that is neither free nor evictable, which nobody has pinned.
pub record IsPicked {Disk Block : Type 0} (f : ℕ) (p : Pool Disk Block) : Type 0 where
  pub below : f < p.pool_size
  pub not_free : ¬ In f p.free_list
  pub not_evictable : ¬ In f (frames p.replacer)
  pub idle : (p.pages f).pin_count ≡ 0
  pub home :
      (frame_of p (p.pages f).id ≡ some f)
      ⊎ (((p.pages f).is_dirty ≡ false) × ((p.pages f).id.page_no ≡ minus_one))

module _ {Disk Block : Type 0} where
  take_free_cases {ℓ} :
      (P : Option ℕ × Pool Disk Block → Type ℓ) (l : List ℕ) (p : Pool Disk Block)
      → Order.IsValid p.replacer
      → p.free_list ≡ l
      → (p.free_list ≡ [] → frames p.replacer ≡ [] → P (none, p))
      → ((f : ℕ) (rest : List ℕ)
          → p.free_list ≡ f ∷ rest
          → P (some f, record p { free_list = rest }))
      → ((f : ℕ) (s : LruReplacer)
          → p.free_list ≡ []
          → frames p.replacer ≡ f ∷ frames s
          → s.max_size ≡ p.replacer.max_size
          → Order.IsValid s
          → P (some f, record p { replacer = s }))
      → P (take_free l p)
  unfolding take_free
  take_free_cases P (f ∷ rest) p v e none_left from_free from_replacer = from_free f rest e
  take_free_cases P [] p v e none_left from_free from_replacer =
      Order.victim_cases (λ o. P (o.0, record p { replacer = o.1 })) p.replacer v (none_left e)
        (λ f s. from_replacer f s e)

  -- The cases of `find_victim_page`.
  pub victim_page_cases {ℓ} :
      (P : Option ℕ × Pool Disk Block → Type ℓ) (p : Pool Disk Block)
      → Order.IsValid p.replacer
      → (p.free_list ≡ [] → frames p.replacer ≡ [] → P (none, p))
      → ((f : ℕ) (rest : List ℕ)
          → p.free_list ≡ f ∷ rest
          → P (some f, record p { free_list = rest }))
      → ((f : ℕ) (s : LruReplacer)
          → p.free_list ≡ []
          → frames p.replacer ≡ f ∷ frames s
          → s.max_size ≡ p.replacer.max_size
          → Order.IsValid s
          → P (some f, record p { replacer = s }))
      → P (find_victim_page p)
  unfolding find_victim_page
  victim_page_cases P p v none_left from_free from_replacer =
      take_free_cases P p.free_list p v refl none_left from_free from_replacer

  module _ (p : Pool Disk Block) (v : IsSound p) (c : IsComplete Nobody p) where
    -- Picking the first element of the free list.
    module _ (f : ℕ) (rest : List ℕ) (e : p.free_list ≡ f ∷ rest) where
      abbrev pub from_free : Pool Disk Block
      from_free = record p { free_list = rest }

      back : (g : ℕ) → In g (f ∷ rest) → In g p.free_list
      back g i = subst (In g) (sym e) i

      pub free-IsSound : IsSound from_free
      free-IsSound = record {
        replacer_valid = v.replacer_valid;
        capacity = v.capacity;
        mapped = v.mapped;
        free = λ g i. v.free g (back g (inr i));
        free_distinct = (subst Distinct e v.free_distinct).1;
        evictable = v.evictable;
      }

      pub free-IsComplete : IsComplete (λ g. g ≡ f) from_free
      free-IsComplete = record {
        waiting = λ pid g ne. c.waiting pid g (λ z. z);
        owned = λ g ne lt. elim (c.owned g (λ z. z) lt) [
          | inl i ↦ inl (tail g ne (subst (In g) e i))
          | inr m ↦ inr m
        ];
      }
        where
          tail : (g : ℕ) → g ≢ f → In g (f ∷ rest) → In g rest
          tail g ne (inl q) = absurd (ne (sym q))
          tail g ne (inr i) = i

      pub free-IsPicked : IsPicked f from_free
      free-IsPicked = record {
        below = is_free.0;
        not_free = (subst Distinct e v.free_distinct).0;
        not_evictable = λ i.
            let (lt, same, fits) = v.mapped _ f (v.evictable f i).0 in
            page_in_range-ne _ fits is_free.3;
        idle = is_free.1;
        home = inr (is_free.2, is_free.3);
      }
        where
          is_free :
              (f < p.pool_size)
              × ((p.pages f).pin_count ≡ 0)
              × ((p.pages f).is_dirty ≡ false)
              × ((p.pages f).id.page_no ≡ minus_one)
          is_free = v.free f (back f (inl refl))

    -- Taking the victim of the replacer.
    module _ (f : ℕ) (s : LruReplacer) (e : frames p.replacer ≡ f ∷ frames s)
        (cap : s.max_size ≡ p.replacer.max_size) (w : Order.IsValid s) where
      abbrev pub from_replacer : Pool Disk Block
      from_replacer = record p { replacer = s }

      before : (g : ℕ) → In g (f ∷ frames s) → In g (frames p.replacer)
      before g i = subst (In g) (sym e) i

      pub replacer-IsSound : IsSound from_replacer
      replacer-IsSound = record {
        replacer_valid = w;
        capacity = cap ∙ v.capacity;
        mapped = v.mapped;
        free = v.free;
        free_distinct = v.free_distinct;
        evictable = λ g i. v.evictable g (before g (inr i));
      }

      pub replacer-IsComplete : IsComplete (λ g. g ≡ f) from_replacer
      replacer-IsComplete = record {
        waiting = λ pid g ne m z. tail g ne (subst (In g) e (c.waiting pid g (λ x. x) m z));
        owned = λ g ne. c.owned g (λ z. z);
      }
        where
          tail : (g : ℕ) → g ≢ f → In g (f ∷ frames s) → In g (frames s)
          tail g ne (inl q) = absurd (ne (sym q))
          tail g ne (inr i) = i

      pub replacer-IsPicked : IsPicked f from_replacer
      replacer-IsPicked = record {
        below = is_mapped.0;
        not_free = λ i.
            page_in_range-ne _ is_mapped.2
              (ap (λ (q : PageId). q.page_no) (sym is_mapped.1) ∙ (v.free f i).3);
        not_evictable = (subst Distinct e (Order.frames-Distinct p.replacer v.replacer_valid)).0;
        idle = found.1;
        home = inl found.0;
      }
        where
          found : (frame_of p (p.pages f).id ≡ some f) × ((p.pages f).pin_count ≡ 0)
          found = v.evictable f (before f (inl refl))

          is_mapped :
              (f < p.pool_size)
              × ((p.pages f).id ≡ (p.pages f).id)
              × (page_in_range (p.pages f).id.page_no ≡ true)
          is_mapped = v.mapped (p.pages f).id f found.0
