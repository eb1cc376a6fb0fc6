-- ===== src/Lock/Compatible.antt =====
-- Table locks: what a queue's `group_lock_mode_` says of its requests, and what a new request needs.
use db_smw.Common.{
  ◌≡◌, refl, sym, ap, ◌∙◌, subst, ◌⊎◌, inl, inr, Bool, true, false, List, [], ◌∷◌, In, Bool-cases,
  arith,
}
use db_smw.Lock.{
  LockMode, shared, exclusive, intention_shared, intention_exclusive, s_ix, GroupLockMode, non_lock,
  is, ix, s, x, six, LockRequest, join_group, group_of, table_conflict,
}

-- the usual matrix of multi-granularity locking
abbrev pub compatible : LockMode → LockMode → Bool
compatible exclusive m = false
compatible m exclusive = false
compatible intention_shared m = true
compatible m intention_shared = true
compatible intention_exclusive intention_exclusive = true
compatible shared shared = true
compatible m n = false

-- a summary that may stand beside a granted lock
abbrev fits : GroupLockMode → LockMode → Bool
fits non_lock m = true
fits is m = compatible intention_shared m
fits ix m = compatible intention_exclusive m
fits s m = compatible shared m
fits x m = compatible exclusive m
fits six m = compatible s_ix m

fits-join_group :
    (g : GroupLockMode) (r m : LockMode)
    → fits g r ≡ true
    → fits g m ≡ true
    → compatible r m ≡ true
    → fits (join_group g r) m ≡ true
unfolding join_group
fits-join_group g r m a b c = ground arith

table_conflict-join_group :
    (g : GroupLockMode) (r m : LockMode)
    → fits g r ≡ true
    → table_conflict m (join_group g r) ≡ false
    → (table_conflict m g ≡ false)
unfolding join_group table_conflict
table_conflict-join_group g r m a b = ground arith

compatible-join_group :
    (g : GroupLockMode) (m r : LockMode)
    → (compatible r shared ≡ true) ⊎ (r ≡ intention_exclusive)
    → fits g r ≡ true
    → table_conflict m (join_group g r) ≡ false
    → compatible m r ≡ true
unfolding join_group table_conflict
compatible-join_group g m r k a b = ground arith

compatible-six :
    (m n : LockMode)
    → table_conflict m six ≡ false
    → compatible s_ix n ≡ true
    → compatible m n ≡ true
unfolding table_conflict
compatible-six m n a b = ground arith

compatible-six_self : (m : LockMode) → table_conflict m six ≡ false → compatible m s_ix ≡ true
unfolding table_conflict
compatible-six_self m a = ground arith

table_conflict-six :
    (g : GroupLockMode) (m : LockMode)
    → table_conflict m six ≡ false
    → fits g s_ix ≡ true
    → table_conflict m g ≡ false
unfolding table_conflict
table_conflict-six g m a b = ground arith

x_conflict : (m : LockMode) → table_conflict m x ≡ true
unfolding table_conflict
x_conflict m = ground arith

-- Any two granted requests of the list go together.
abbrev pub Compatibles : List LockRequest → Type 0
Compatibles [] = Unit
Compatibles (r ∷ rs) =
    ((b : LockRequest)
      → In b rs
      → r.granted ≡ true
      → b.granted ≡ true
      → compatible r.lock_mode b.lock_mode ≡ true)
    × Compatibles rs

abbrev pub AllFit : GroupLockMode → List LockRequest → Type 0
AllFit g l = (b : LockRequest) → In b l → b.granted ≡ true → fits g b.lock_mode ≡ true

-- What a request that the summary lets in may stand beside.
abbrev pub Welcome : LockMode → GroupLockMode → List LockRequest → Type 0
Welcome m g l =
    (table_conflict m g ≡ false)
    × ((b : LockRequest) → In b l → b.granted ≡ true → compatible m b.lock_mode ≡ true)

module _ (m : LockMode) (g : GroupLockMode) (r : LockRequest) (l : List LockRequest)
    (c : Compatibles (r ∷ l)) (f : AllFit g (r ∷ l)) (held : r.granted ≡ true)
    (ih : (h : GroupLockMode)
      → AllFit h l
      → table_conflict m (group_of h l) ≡ false
      → Welcome m h l) where
  joined_Welcome :
      (n : LockMode)
      → (compatible n shared ≡ true) ⊎ (n ≡ intention_exclusive)
      → r.lock_mode ≡ n
      → table_conflict m (group_of (join_group g n) l) ≡ false
      → Welcome m g (r ∷ l)
  joined_Welcome n k e h =
      let here : fits g n ≡ true = subst (λ z. fits g z ≡ true) e (f r (inl refl) held) in
      let w =
        ih (join_group g n)
          (λ b i gb.
            fits-join_group g n b.lock_mode here (f b (inr i) gb)
              (subst (λ z. compatible z b.lock_mode ≡ true) e (c.0 b i held gb)))
          h in
      (
        table_conflict-join_group g n m here w.0,
        λ b i gb. elim i [
          | inl z ↦
              subst (λ q. compatible m q ≡ true) (sym e ∙ ap (λ (q : LockRequest). q.lock_mode) z)
                (compatible-join_group g m n k here w.0)
          | inr j ↦ w.1 b j gb
        ],
      )

  six_Welcome : r.lock_mode ≡ s_ix → table_conflict m six ≡ false → Welcome m g (r ∷ l)
  six_Welcome e h = (
    table_conflict-six g m h (subst (λ z. fits g z ≡ true) e (f r (inl refl) held)),
    λ b i gb. elim i [
      | inl z ↦
          subst (λ q. compatible m q ≡ true) (sym e ∙ ap (λ (q : LockRequest). q.lock_mode) z)
            (compatible-six_self m h)
      | inr j ↦
          compatible-six m b.lock_mode h
            (subst (λ z. compatible z b.lock_mode ≡ true) e (c.0 b j held gb))
    ],
  )

  head_Welcome :
      (n : LockMode)
      → r.lock_mode ≡ n
      → table_conflict m (group_of g (r ∷ l)) ≡ false
      → Welcome m g (r ∷ l)
  unfolding group_of
  head_Welcome shared e h =
      joined_Welcome shared (inl refl) e
        (subst (λ z. table_conflict m z ≡ false) (rw (group_of, held, e) refl) h)
  head_Welcome intention_shared e h =
      joined_Welcome intention_shared (inl refl) e
        (subst (λ z. table_conflict m z ≡ false) (rw (group_of, held, e) refl) h)
  head_Welcome intention_exclusive e h =
      joined_Welcome intention_exclusive (inr refl) e
        (subst (λ z. table_conflict m z ≡ false) (rw (group_of, held, e) refl) h)
  head_Welcome exclusive e h =
      let stop : group_of g (r ∷ l) ≡ x = rw (group_of, held, e) refl in cc (stop, x_conflict m, h)
  head_Welcome s_ix e h =
      six_Welcome e (subst (λ z. table_conflict m z ≡ false) (rw (group_of, held, e) refl) h)

pub group_of-Welcome :
    (m : LockMode) (g : GroupLockMode) (l : List LockRequest)
    → Compatibles l
    → AllFit g l
    → table_conflict m (group_of g l) ≡ false
    → Welcome m g l
unfolding group_of
group_of-Welcome m g [] c f e = (e, λ b i. absurd i)
group_of-Welcome m g (r ∷ l) c f e = elim (Bool-cases r.granted) [
  | inl held ↦
      head_Welcome m g r l c f held (λ h k w. group_of-Welcome m h l c.1 k w) r.lock_mode refl e
  | inr idle ↦
      let skip : group_of g (r ∷ l) ≡ group_of g l = rw (group_of, idle) refl in
      let w =
        group_of-Welcome m g l c.1 (λ b i. f b (inr i))
          (subst (λ z. table_conflict m z ≡ false) skip e) in
      (
        w.0,
        λ b i gb. elim i [
          | inl z ↦
              let same : r.granted ≡ b.granted = ap (λ (q : LockRequest). q.granted) z in
              cc (same, gb, idle)
          | inr j ↦ w.1 b j gb
        ],
      )
]
