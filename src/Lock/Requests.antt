-- ===== src/Lock/Requests.antt =====
-- Lists of lock requests: finding, changing and taking out the first that passes a test.
use db_smw.Common.{
  ℕ, ◌≡◌, refl, sym, ap, ◌∙◌, subst, ◌⊎◌, inl, inr, Bool, true, false, List, [], ◌∷◌, ◌++◌, none,
  some, In, In-append, In-append_right, Bool-cases, Option-cases, arith,
}
use db_smw.Lock.{
  LockMode, LockRequest, own, any_request, first_request, update_first, erase_first, grant,
}

pub any_request-false :
    (p : LockRequest → Bool) (l : List LockRequest) (a : LockRequest)
    → any_request p l ≡ false
    → In a l
    → p a ≡ false
unfolding any_request
any_request-false p [] a e i = absurd i
any_request-false p (r ∷ l) a e (inl h) = subst (λ z. p z ≡ false) h (ground arith)
any_request-false p (r ∷ l) a e (inr h) = any_request-false p l a (ground arith) h

pub first_request-some :
    (p : LockRequest → Bool) (l : List LockRequest) (a : LockRequest)
    → first_request p l ≡ some a
    → In a l × (p a ≡ true)
unfolding first_request
first_request-some p [] a e = cc
first_request-some p (r ∷ l) a e = elim (Bool-cases (p r)) [
  | inl h ↦
      let same : first_request p (r ∷ l) ≡ some r = rw h refl in
      let eq : r ≡ a = cc (same, e) in (inl eq, subst (λ z. p z ≡ true) eq h)
  | inr h ↦
      let skip : first_request p (r ∷ l) ≡ first_request p l = rw h refl in
      let (i, k) = first_request-some p l a (sym skip ∙ e) in (inr i, k)
]

pub In-update_first :
    (p : LockRequest → Bool) (f : LockRequest → LockRequest) (l : List LockRequest)
    (a : LockRequest)
    → In a (update_first p f l)
    → In a l ⊎ ((r : LockRequest) × In r l × (p r ≡ true) × (f r ≡ a))
unfolding update_first
In-update_first p f [] a i = absurd i
In-update_first p f (r ∷ l) a i = elim (Bool-cases (p r)) [
  | inl h ↦
      let same : update_first p f (r ∷ l) ≡ f r ∷ l = rw h refl in
      elim (subst (In a) same i) [ inl e ↦ inr (r, inl refl, h, e) | inr k ↦ inl (inr k) ]
  | inr h ↦
      let skip : update_first p f (r ∷ l) ≡ r ∷ update_first p f l = rw h refl in
      elim (subst (In a) skip i) [
        | inl e ↦ inl (inl e)
        | inr k ↦ elim (In-update_first p f l a k) [
          | inl j ↦ inl (inr j)
          | inr (z, j, c, d) ↦ inr (z, inr j, c, d)
        ]
      ]
]

pub update_first-In :
    (p : LockRequest → Bool) (f : LockRequest → LockRequest) (l : List LockRequest)
    (a : LockRequest)
    → first_request p l ≡ some a
    → In (f a) (update_first p f l)
unfolding update_first first_request
update_first-In p f [] a e = cc
update_first-In p f (r ∷ l) a e = elim (Bool-cases (p r)) [
  | inl h ↦
      let same : first_request p (r ∷ l) ≡ some r = rw h refl in rw h (inl (ap f (cc (same, e))))
  | inr h ↦
      let skip : first_request p (r ∷ l) ≡ first_request p l = rw h refl in
      rw h (inr (update_first-In p f l a (sym skip ∙ e)))
]

pub In-erase_first :
    (p : LockRequest → Bool) (l : List LockRequest) (a : LockRequest)
    → In a (erase_first p l)
    → In a l
unfolding erase_first
In-erase_first p [] a i = absurd i
In-erase_first p (r ∷ l) a i = elim (Bool-cases (p r)) [
  | inl h ↦ let same : erase_first p (r ∷ l) ≡ l = rw h refl in inr (subst (In a) same i)
  | inr h ↦
      let skip : erase_first p (r ∷ l) ≡ r ∷ erase_first p l = rw h refl in
      elim (subst (In a) skip i) [ inl e ↦ inl e | inr k ↦ inr (In-erase_first p l a k) ]
]

-- What `grant` leaves: the old requests, and the transaction's.
pub In-grant :
    (txn : ℕ) (mode : LockMode) (change : LockMode → LockMode) (l : List LockRequest)
    (a : LockRequest)
    → In a (grant txn mode change l)
    → In a l
      ⊎ ((a.txn_id ≡ txn)
          × ((a.lock_mode ≡ mode)
              ⊎ ((r : LockRequest) × In r l
                  × (r.txn_id ≡ txn)
                  × (change r.lock_mode ≡ a.lock_mode))))
unfolding grant
In-grant txn mode change l a i = elim (Option-cases (first_request (own txn) l)) [
  | inl e ↦
      let pushed : grant txn mode change l
          ≡ l ++ record { txn_id = txn; lock_mode = mode; granted = true } ∷ [] =
        rw (e, grant) refl in
      elim (In-append a l _ (subst (In a) pushed i)) [
        | inl k ↦ inl k
        | inr (inl h) ↦ inr (
          ap (λ (r : LockRequest). r.txn_id) (sym h),
          inl (ap (λ (r : LockRequest). r.lock_mode) (sym h)),
        )
        | inr (inr z) ↦ absurd z
      ]
  | inr (r, e) ↦
      let changed : grant txn mode change l
          ≡ update_first (own txn)
              (λ r. record r { lock_mode = change r.lock_mode; granted = true }) l =
        rw (e, grant) refl in
      elim (In-update_first (own txn) _ l a (subst (In a) changed i)) [
        | inl k ↦ inl k
        | inr (b, k, h, eq) ↦
            let mine : b.txn_id ≡ txn = ground arith in
            inr (
              ap (λ (r : LockRequest). r.txn_id) (sym eq) ∙ mine,
              inr (b, k, mine, ap (λ (r : LockRequest). r.lock_mode) eq),
            )
      ]
]

-- The transaction has a granted request afterwards.
pub grant-In :
    (txn : ℕ) (mode : LockMode) (l : List LockRequest)
    → (r : LockRequest) × In r (grant txn mode (λ _. mode) l)
      × (r.txn_id ≡ txn)
      × (r.granted ≡ true)
      × (r.lock_mode ≡ mode)
unfolding grant
grant-In txn mode l = elim (Option-cases (first_request (own txn) l)) [
  | inl e ↦ (
    record { txn_id = txn; lock_mode = mode; granted = true },
    rw (e, grant) (In-append_right _ l _ (inl refl)),
    refl,
    refl,
    refl,
  )
  | inr (r, e) ↦
      let mine : own txn r ≡ true = (first_request-some (own txn) l r e).1 in
      (
        record r { lock_mode = mode; granted = true },
        rw (e, grant)
            (update_first-In (own txn) (λ r. record r { lock_mode = mode; granted = true }) l r e),
        ground arith,
        refl,
        refl,
      )
]

pub any_request-true :
    (p : LockRequest → Bool) (l : List LockRequest)
    → any_request p l ≡ true
    → (a : LockRequest) × In a l × (p a ≡ true)
unfolding any_request
any_request-true p [] e = cc
any_request-true p (r ∷ l) e = elim (Bool-cases (p r)) [
  | inl h ↦ (r, inl refl, h)
  | inr h ↦ let (a, i, k) = any_request-true p l (ground arith) in (a, inr i, k)
]

pub first_request-none :
    (p : LockRequest → Bool) (l : List LockRequest) (a : LockRequest)
    → first_request p l ≡ none
    → In a l
    → p a ≡ false
unfolding first_request
first_request-none p [] a e i = absurd i
first_request-none p (r ∷ l) a e i = elim (Bool-cases (p r)) [
  | inl h ↦ let same : first_request p (r ∷ l) ≡ some r = rw h refl in cc (same, e)
  | inr h ↦
      let skip : first_request p (r ∷ l) ≡ first_request p l = rw h refl in
      elim i [
        | inl z ↦ subst (λ q. p q ≡ false) z h
        | inr j ↦ first_request-none p l a (sym skip ∙ e) j
      ]
]
