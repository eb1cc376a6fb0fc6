-- ===== src/Replacer/Order.antt =====
-- `LRUhash_` and `LRUlist_` agree, and every operation is the operation of a queue of frames.
use mathlib.Core.List.{map-append}
use db_smw.Common.{
  Bool, true, false, ℕ, suc, ◌≤◌, ◌<◌, ◌≡◌, refl, sym, ap, subst, ◌↔◌, ◌⊎◌, ◌≢◌, inl, inr, List, [],
  ◌∷◌, ◌++◌, Option, none, some, arith, ℕ_discrete, length, length-append, In, Distinct,
  Option-cases, Bool-cases, Distinct-snoc, In-append, In-append_left, In-append_right, leb,
}
use db_smw.Common.Assoc.{find, erase, assign, find-erase, find-assign}
use db_smw.Replacer.{LruReplacer, init, victim_from, victim, pin, unpin, frames}
use db_smw.Replacer.Queue.{
  In-remove, In-remove_ne, remove, enqueue, dequeue, contains, remove_absent, contains_absent,
  contains_present,
}
use db_smw.Replacer.Nodes.{
  frames_of, nodes_of, In-erase_node, In-erase_node_ne, In-nodes, In-frames, In-frames_inv,
  length-frames_of, same_frame, length-erase_node, In-nodes_inv, erase_node-Distinct,
  frames-erase_node,
}

is_some {ℓ} : {A : Type ℓ} → Option A → Bool
is_some none = false
is_some (some a) = true

-- The list and the hash table describe one set of nodes.
pub record IsValid (r : LruReplacer) : Type 0 where
  pub fresh : (n f : ℕ) → In (n, f) r.lru_list → n < r.next_node
  pub distinct : Distinct (nodes_of r.lru_list)
  pub linked : (n f : ℕ) → In (n, f) r.lru_list → find ℕ_discrete f r.lru_hash ≡ some n
  pub listed : (n f : ℕ) → find ℕ_discrete f r.lru_hash ≡ some n → In (n, f) r.lru_list
  pub bounded : length r.lru_list ≤ r.max_size

pub init-IsValid : (n : ℕ) → IsValid (init n)
unfolding init find
init-IsValid n = record {
  fresh = λ n f h. absurd h;
  distinct = tt;
  linked = λ n f h. absurd h;
  listed = λ n f h. cc;
  bounded = omega arith;
}

victim_from-dequeue :
    (l : List (ℕ × ℕ)) (r : LruReplacer)
    → r.lru_list ≡ l
    → ((victim_from l r).0, frames_of (victim_from l r).1.lru_list) ≡ dequeue (frames_of l)
unfolding victim_from dequeue
victim_from-dequeue [] r h = ground arith
victim_from-dequeue (e ∷ l) r h = refl

victim_from-IsValid :
    (l : List (ℕ × ℕ)) (r : LruReplacer) → r.lru_list ≡ l → IsValid r → IsValid (victim_from l r).1
unfolding victim_from
victim_from-IsValid [] r h v = v
victim_from-IsValid ((n, f) ∷ l) r h v = record {
  fresh = λ m g i. v.fresh m g (old m g (inr i));
  distinct = whole.1;
  linked = λ m g i.
      ground
        (arith, find-erase ℕ_discrete f g r.lru_hash, v.linked m g (old m g (inr i)), other m g i);
  listed = λ m g e.
      later m g
        (subst (λ k. In (m, g) k) h
          (v.listed m g (ground (arith, find-erase ℕ_discrete f g r.lru_hash))))
        e;
  bounded = omega (arith, ap length h, v.bounded);
}
  where
    old : (m g : ℕ) → In (m, g) ((n, f) ∷ l) → In (m, g) r.lru_list
    old m g i = subst (λ k. In (m, g) k) (sym h) i

    whole : Distinct (nodes_of ((n, f) ∷ l))
    whole = subst (λ k. Distinct (nodes_of k)) h v.distinct

    same : (m g : ℕ) → In (m, g) l → f ≡ g → m ≡ n
    same m g i e = cc (v.linked m g (old m g (inr i)), v.linked n f (old n f (inl refl)))

    other : (m g : ℕ) → In (m, g) l → f ≢ g
    other m g i e = whole.0 (subst (λ k. In k (nodes_of l)) (same m g i e) (In-nodes m g l i))

    later :
        (m g : ℕ)
        → In (m, g) ((n, f) ∷ l)
        → find ℕ_discrete g (erase ℕ_discrete f r.lru_hash) ≡ some m
        → In (m, g) l
    later m g (inl p) e =
        absurd (ground (arith, find-erase ℕ_discrete f g r.lru_hash, ap (λ (k : ℕ × ℕ). k.1) p))
    later m g (inr i) e = i

module _ (r : LruReplacer) (v : IsValid r) where
  same_node :
      (m n f g : ℕ)
      → In (m, g) r.lru_list
      → find ℕ_discrete f r.lru_hash ≡ some n
      → (m ≡ n) ↔ (g ≡ f)
  same_node m n f g i h = (
    λ e.
        same_frame n g f r.lru_list v.distinct (subst (λ k. In (k, g) r.lru_list) e i)
          (v.listed n f h),
    λ e. ground (arith, v.linked m g i),
  )

  -- A frame is in the queue exactly when the hash table has it.
  pub In-frames_iff :
      (f : ℕ) → In f (frames r) ↔ ((n : ℕ) × (find ℕ_discrete f r.lru_hash ≡ some n))
  unfolding frames
  In-frames_iff f = (
    λ h. let (n, i) = In-frames_inv f r.lru_list h in (n, v.linked n f i),
    λ (n, e). In-frames n f r.lru_list (v.listed n f e),
  )

  absent : (f : ℕ) → In f (frames_of r.lru_list) → find ℕ_discrete f r.lru_hash ≢ none
  absent f i e = let (n, k) = In-frames_inv f r.lru_list i in cc (v.linked n f k)

  -- `pin` takes the frame out of the queue, and leaves the order of the others.
  pub frames-pin : (f : ℕ) → frames (pin r f) ≡ remove f (frames r)
  unfolding frames pin
  frames-pin f = elim (Option-cases (find ℕ_discrete f r.lru_hash)) [
    | inl e ↦ rw (e, pin) (sym (remove_absent f (frames_of r.lru_list) (λ i. absent f i e)))
    | inr (n, e) ↦ rw (e, pin) (frames-erase_node n f r.lru_list (λ m g i. same_node m n f g i e))
  ]

  -- The frames of the queue after `pin`.
  pub In-pin : (f g : ℕ) → In g (frames (pin r f)) → In g (frames r) × (g ≢ f)
  In-pin f g i = In-remove f g (frames r) (subst (In g) (frames-pin f) i)

  pub In-pin_ne : (f g : ℕ) → In g (frames r) → g ≢ f → In g (frames (pin r f))
  In-pin_ne f g i ne = rw (frames-pin f) (In-remove_ne f g (frames r) i ne)

  pub pin-IsValid : (f : ℕ) → IsValid (pin r f)
  unfolding pin
  pin-IsValid f = elim (Option-cases (find ℕ_discrete f r.lru_hash)) [
    | inl e ↦ rw (e, pin) v
    | inr (n, e) ↦
        rw (e, pin)
          (record {
            fresh = λ m g i. v.fresh m g (In-erase_node n m g r.lru_list i).0;
            distinct = erase_node-Distinct n r.lru_list v.distinct;
            linked = λ m g i.
                let (k, ne) = In-erase_node n m g r.lru_list i in
                ground (
                  arith,
                  find-erase ℕ_discrete f g r.lru_hash,
                  v.linked m g k,
                  same_node m n f g k e,
                );
            listed = λ m g h. elim (ℕ_discrete f g) [
              | yes p ↦ absurd (ground (arith, find-erase ℕ_discrete f g r.lru_hash))
              | no p ↦
                  let k : find ℕ_discrete g r.lru_hash ≡ some m =
                    ground (arith, find-erase ℕ_discrete f g r.lru_hash) in
                  let i = v.listed m g k in
                  In-erase_node_ne n m g r.lru_list i (λ q. p (sym ((same_node m n f g i e).0 q)))
            ];
            bounded = omega (arith, length-erase_node n r.lru_list, v.bounded);
          })
  ]

  contains-frames : (f : ℕ) → contains f (frames r) ≡ is_some (find ℕ_discrete f r.lru_hash)
  unfolding is_some
  contains-frames f = elim (Option-cases (find ℕ_discrete f r.lru_hash)) [
    | inl e ↦ rw e (contains_absent f (frames r) (λ i. absent f (unfold frames in i) e))
    | inr (n, e) ↦ rw e (contains_present f (frames r) ((In-frames_iff f).1 (n, e)))
  ]

  -- `unpin` puts a new frame at the end of the queue, if there is room.
  pub frames-unpin : (f : ℕ) → frames (unpin r f) ≡ enqueue r.max_size f (frames r)
  unfolding frames unpin enqueue is_some
  frames-unpin f = ground (
    arith,
    contains-frames f,
    length-frames_of r.lru_list,
    map-append (λ (e : ℕ × ℕ). e.1) r.lru_list ((r.next_node, f) ∷ []),
  )

  added : ℕ → LruReplacer
  added f = record r {
    lru_list = r.lru_list ++ (r.next_node, f) ∷ [];
    lru_hash = assign ℕ_discrete f r.next_node r.lru_hash;
    next_node = suc r.next_node;
  }

  In-added :
      (m g f : ℕ)
      → In (m, g) (r.lru_list ++ (r.next_node, f) ∷ [])
      → In (m, g) r.lru_list ⊎ ((m ≡ r.next_node) × (g ≡ f))
  In-added m g f i = elim (In-append (m, g) r.lru_list _ i) [
    | inl k ↦ inl k
    | inr (inl p) ↦ inr (ap (λ (k : ℕ × ℕ). k.0) (sym p), ap (λ (k : ℕ × ℕ). k.1) (sym p))
    | inr (inr z) ↦ absurd z
  ]

  new_node : ¬ In r.next_node (nodes_of r.lru_list)
  new_node i =
      let (f, k) = In-nodes_inv r.next_node r.lru_list i in omega (arith, v.fresh r.next_node f k)

  added-IsValid :
      (f : ℕ)
      → find ℕ_discrete f r.lru_hash ≡ none
      → length r.lru_list < r.max_size
      → IsValid (added f)
  unfolding added
  added-IsValid f e room = record {
    fresh = λ m g i. ground (arith, In-added m g f i, v.fresh m g);
    distinct = rw map-append (Distinct-snoc r.next_node (nodes_of r.lru_list) v.distinct new_node);
    linked = λ m g i.
        ground (
          arith,
          In-added m g f i,
          v.linked m g,
          find-assign ℕ_discrete f g r.next_node r.lru_hash,
        );
    listed = λ m g h. elim (ℕ_discrete f g) [
      | yes p ↦
          In-append_right (m, g) r.lru_list _
            (inl (ground (arith, find-assign ℕ_discrete f g r.next_node r.lru_hash)))
      | no p ↦
          In-append_left (m, g) r.lru_list _
            (v.listed m g (ground (arith, find-assign ℕ_discrete f g r.next_node r.lru_hash)))
    ];
    bounded = omega (arith, length-append r.lru_list ((r.next_node, f) ∷ []));
  }

  pub unpin-IsValid : (f : ℕ) → IsValid (unpin r f)
  unfolding unpin
  unpin-IsValid f = elim (Option-cases (find ℕ_discrete f r.lru_hash)) [
    | inr (n, e) ↦ rw (e, unpin) v
    | inl e ↦ elim (Bool-cases (leb r.max_size (length r.lru_list))) [
      | inl full ↦ rw (e, unpin, full) v
      | inr room ↦ rw (e, unpin, room) (unfold added in added-IsValid f e (ground arith))
    ]
  ]

  -- `victim` takes the oldest frame, and fails exactly on the empty queue.
  pub frames-victim : ((victim r).0, frames (victim r).1) ≡ dequeue (frames r)
  unfolding frames victim dequeue
  frames-victim = victim_from-dequeue r.lru_list r refl

  pub victim-IsValid : IsValid (victim r).1
  unfolding victim
  victim-IsValid = victim_from-IsValid r.lru_list r refl v

pub max_size-victim : (r : LruReplacer) → (victim r).1.max_size ≡ r.max_size
unfolding victim victim_from
max_size-victim r = ground arith

pub max_size-pin : (r : LruReplacer) (f : ℕ) → (pin r f).max_size ≡ r.max_size
unfolding pin
max_size-pin r f = ground arith

pub max_size-unpin : (r : LruReplacer) (f : ℕ) → (unpin r f).max_size ≡ r.max_size
unfolding unpin
max_size-unpin r f = ground arith

victim_from_cases {ℓ} :
    (P : Option ℕ × LruReplacer → Type ℓ) (l : List (ℕ × ℕ)) (r : LruReplacer)
    → r.lru_list ≡ l
    → IsValid r
    → (frames_of r.lru_list ≡ [] → P (none, r))
    → ((f : ℕ) (s : LruReplacer)
        → frames_of r.lru_list ≡ f ∷ frames_of s.lru_list
        → s.max_size ≡ r.max_size
        → IsValid s
        → P (some f, s))
    → P (victim_from l r)
unfolding victim_from
victim_from_cases P [] r e v empty found = empty (ap frames_of e)
victim_from_cases P (x ∷ l) r e v empty found =
    found x.1 _ (ap frames_of e) refl (unfold victim_from in victim_from-IsValid (x ∷ l) r e v)

-- The two results of `victim`.
pub victim_cases {ℓ} :
    (P : Option ℕ × LruReplacer → Type ℓ) (r : LruReplacer)
    → IsValid r
    → (frames r ≡ [] → P (none, r))
    → ((f : ℕ) (s : LruReplacer)
        → frames r ≡ f ∷ frames s
        → s.max_size ≡ r.max_size
        → IsValid s
        → P (some f, s))
    → P (victim r)
unfolding victim frames
victim_cases P r v empty found = victim_from_cases P r.lru_list r refl v empty found

frames_of-Distinct :
    (l : List (ℕ × ℕ)) (r : LruReplacer)
    → ((n f : ℕ) → In (n, f) l → find ℕ_discrete f r.lru_hash ≡ some n)
    → Distinct (nodes_of l)
    → Distinct (frames_of l)
frames_of-Distinct [] r h d = tt
frames_of-Distinct ((n, f) ∷ l) r h d = (
  λ i.
      let (m, k) = In-frames_inv f l i in
      let same : m ≡ n = cc (h n f (inl refl), h m f (inr k)) in
      d.0 (subst (λ a. In a (nodes_of l)) same (In-nodes m f l k)),
  frames_of-Distinct l r (λ m g i. h m g (inr i)) d.1,
)

-- No frame is in the queue twice.
pub frames-Distinct : (r : LruReplacer) → IsValid r → Distinct (frames r)
unfolding frames
frames-Distinct r v = frames_of-Distinct r.lru_list r v.linked v.distinct
