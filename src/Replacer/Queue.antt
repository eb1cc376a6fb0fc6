-- ===== src/Replacer/Queue.antt =====
-- The replacer as its clients see it: a queue of frames without repetition.
use db_smw.Common.{
  ℕ, zero, suc, ◌+◌, ◌≤◌, ◌<◌, ◌≡◌, ◌≢◌, refl, sym, subst, ◌⊎◌, inl, inr, Bool, true, false, ◌||◌,
  ◌==◌, ite, if_pos, if_neg, List, [], ◌∷◌, ◌++◌, Option, none, some, arith, ℕ_discrete, length, In,
  Distinct, In-append, In-append_left, In-append_right, leb, if◌then◌else◌, Bool-cases,
}

-- drops every occurrence
unfoldable pub remove : ℕ → List ℕ → List ℕ
remove a [] = []
remove a (x ∷ xs) = ite (ℕ_discrete x a) (remove a xs) (x ∷ remove a xs)

pub In-remove : (a b : ℕ) (xs : List ℕ) → In b (remove a xs) → In b xs × (b ≢ a)
unfolding remove
In-remove a b [] h = absurd h
In-remove a b (x ∷ xs) h = ground (arith, In-remove a b xs)

pub In-remove_ne : (a b : ℕ) (xs : List ℕ) → In b xs → b ≢ a → In b (remove a xs)
unfolding remove
In-remove_ne a b [] h ne = h
In-remove_ne a b (x ∷ xs) h ne = ground (arith, In-remove_ne a b xs)

pub remove_absent : (a : ℕ) (xs : List ℕ) → ¬ In a xs → remove a xs ≡ xs
unfolding remove
remove_absent a [] h = refl
remove_absent a (x ∷ xs) h = ground (arith, remove_absent a xs)

-- A queue of frames without repetition, as the replacer's clients see it.
unfoldable pub contains : ℕ → List ℕ → Bool
contains f [] = false
contains f (x ∷ xs) = (x == f) || contains f xs

unfoldable pub enqueue : ℕ → ℕ → List ℕ → List ℕ
enqueue cap f xs = if contains f xs then xs else if leb cap (length xs) then xs else xs ++ f ∷ []

unfoldable pub dequeue : List ℕ → Option ℕ × List ℕ
dequeue [] = (none, [])
dequeue (x ∷ xs) = (some x, xs)

pub contains_absent : (f : ℕ) (xs : List ℕ) → ¬ In f xs → contains f xs ≡ false
unfolding contains
contains_absent f [] h = refl
contains_absent f (x ∷ xs) h = ground (arith, contains_absent f xs)

pub contains_present : (f : ℕ) (xs : List ℕ) → In f xs → contains f xs ≡ true
unfolding contains
contains_present f [] h = absurd h
contains_present f (x ∷ xs) h = ground (arith, contains_present f xs)

pub contains-In : (f : ℕ) (xs : List ℕ) → contains f xs ≡ true → In f xs
unfolding contains
contains-In f [] h = cc
contains-In f (x ∷ xs) h = ground (arith, contains-In f xs)

remove-Distinct : (a : ℕ) (xs : List ℕ) → Distinct xs → Distinct (remove a xs)
unfolding remove
remove-Distinct a [] d = tt
remove-Distinct a (x ∷ xs) d = elim (ℕ_discrete x a) [
  | yes e ↦ rw (if_pos (ℕ_discrete x a) e) (remove-Distinct a xs d.1)
  | no ne ↦
      rw (if_neg (ℕ_discrete x a) ne) (λ i. d.0 (In-remove a x xs i).0, remove-Distinct a xs d.1)
]

length-remove : (a : ℕ) (xs : List ℕ) → Distinct xs → length xs ≤ length (remove a xs) + 1
unfolding remove
length-remove a [] d = omega arith
length-remove a (x ∷ xs) d = elim (ℕ_discrete x a) [
  | yes e ↦
      rw (if_pos (ℕ_discrete x a) e, remove_absent a xs (λ i. d.0 (subst (λ b. In b xs) (sym e) i)))
        (omega arith)
  | no ne ↦ rw (if_neg (ℕ_discrete x a) ne) (omega (arith, length-remove a xs d.1))
]

-- Distinct numbers below `n` are at most `n` many.
length-le_of_below :
    (n : ℕ) (xs : List ℕ) → Distinct xs → ((a : ℕ) → In a xs → a < n) → length xs ≤ n
length-le_of_below zero [] d h = omega arith
length-le_of_below zero (x ∷ xs) d h = absurd (omega (arith, h x (inl refl)))
length-le_of_below (suc n) xs d h = omega (
  arith,
  length-remove n xs d,
  length-le_of_below n (remove n xs) (remove-Distinct n xs d)
      (λ a i. let (k, ne) = In-remove n a xs i in below a ne (h a k)),
)
  where
    below : (a : ℕ) → a ≢ n → a < suc n → a < n
    below a ne lt = omega arith

-- A new frame has room in a queue of distinct frames below its capacity.
pub In-enqueue_self :
    (n f : ℕ) (xs : List ℕ)
    → Distinct xs
    → ((a : ℕ) → In a xs → a < n)
    → f < n
    → In f (enqueue n f xs)
unfolding enqueue
In-enqueue_self n f xs d h lt = elim (Bool-cases (contains f xs)) [
  | inl e ↦ rw e (contains-In f xs e)
  | inr e ↦
      let absent = λ (i : In f xs). (let t : ⊥ = cc (e, contains_present f xs i) in t) in
      let room = length-le_of_below n (f ∷ xs) (absent, d) (λ a i. bound a i) in
      rw (e, not_full room) (In-append_right f xs (f ∷ []) (inl refl))
]
  where
    bound : (a : ℕ) → In a (f ∷ xs) → a < n
    bound a (inl e) = omega arith
    bound a (inr i) = h a i

    not_full : length (f ∷ xs) ≤ n → leb n (length xs) ≡ false
    not_full room = ground arith

enqueue_cases {ℓ} :
    (P : List ℕ → Type ℓ) (n f : ℕ) (xs : List ℕ) → P xs → P (xs ++ f ∷ []) → P (enqueue n f xs)
unfolding enqueue
enqueue_cases P n f xs old new = elim (Bool-cases (contains f xs)) [
  | inl e ↦ rw e old
  | inr e ↦ elim (Bool-cases (leb n (length xs))) [ inl k ↦ rw (e, k) old | inr k ↦ rw (e, k) new ]
]

pub In-enqueue : (n f g : ℕ) (xs : List ℕ) → In g (enqueue n f xs) → In g xs ⊎ (g ≡ f)
In-enqueue n f g xs =
    enqueue_cases (λ ys. In g ys → In g xs ⊎ (g ≡ f)) n f xs (λ i. inl i)
      λ i. last (In-append g xs (f ∷ []) i)
  where
    last : In g xs ⊎ In g (f ∷ []) → In g xs ⊎ (g ≡ f)
    last (inl k) = inl k
    last (inr (inl e)) = inr (sym e)
    last (inr (inr z)) = absurd z

pub In-enqueue_old : (n f g : ℕ) (xs : List ℕ) → In g xs → In g (enqueue n f xs)
In-enqueue_old n f g xs i = enqueue_cases (In g) n f xs i (In-append_left g xs (f ∷ []) i)
