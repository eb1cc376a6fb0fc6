-- ===== src/Lock/Admission.antt =====
-- A transaction's first lock on a table.
use db_smw.Common.{
  ℕ, ◌≡◌, ◌≢◌, refl, ap, ◌∙◌, subst, ◌⊎◌, inl, inr, true, false, ◌&&◌, List, [], ◌∷◌, ◌++◌, none,
  In, In-append, Bool-cases, Option-cases, arith,
}
use db_smw.Transaction.{deadlock_prevention}
use db_smw.Lock.{
  LockMode, non_lock, LockRequest, LockRequestQueue, Verdict, allow, deny, own, any_request,
  first_request, grant, group_of, update_group_lock_mode, table_conflict,
}
use db_smw.Lock.Table.{table_stops, table_verdict}
use db_smw.Lock.Requests.{
  any_request-false, any_request-true, first_request-none, first_request-some,
}
use db_smw.Lock.Compatible.{compatible, Compatibles, group_of-Welcome}

-- A table's queue whose summary is up to date and whose granted requests go together.
pub record IsTable (q : LockRequestQueue) : Type 0 where
  pub summary : q.group_lock_mode ≡ group_of non_lock q.request_queue
  pub together : Compatibles q.request_queue

compatible_comm : (m n : LockMode) → compatible m n ≡ compatible n m
compatible_comm m n = ground arith

Compatibles-snoc :
    (r : LockRequest) (l : List LockRequest)
    → Compatibles l
    → ((b : LockRequest) → In b l → b.granted ≡ true → compatible r.lock_mode b.lock_mode ≡ true)
    → Compatibles (l ++ r ∷ [])
Compatibles-snoc r [] c h = ((λ b i. absurd i), tt)
Compatibles-snoc r (a ∷ l) c h = (
  λ b i ga gb. elim (In-append b l (r ∷ []) i) [
    | inl j ↦ c.0 b j ga gb
    | inr (inl z) ↦
        subst (λ q. compatible a.lock_mode q ≡ true) (ap (λ (q : LockRequest). q.lock_mode) z)
          (compatible_comm a.lock_mode r.lock_mode ∙ h a (inl refl) ga)
    | inr (inr z) ↦ absurd z
  ],
  Compatibles-snoc r l c.1 (λ b i. h b (inr i)),
)

-- What the verdict on the first request of a transaction means.
abbrev pub Admitted : ℕ → LockMode → LockRequestQueue → Verdict → Type 0
Admitted txn mode q (allow after) =
    IsTable after
    × (after.request_queue
        ≡ q.request_queue ++ record { txn_id = txn; lock_mode = mode; granted = true } ∷ [])
    × ((b : LockRequest)
        → In b q.request_queue
        → b.granted ≡ true
        → compatible mode b.lock_mode ≡ true)
Admitted txn mode q (deny reason) =
    (reason ≡ deadlock_prevention)
    × ((b : LockRequest) × In b q.request_queue
        × (b.txn_id ≢ txn)
        × ((b.granted ≡ false) ⊎ (table_conflict mode q.group_lock_mode ≡ true)))

module _ (txn : ℕ) (mode : LockMode) (q : LockRequestQueue) (v : IsTable q)
    (absent : first_request (own txn) q.request_queue ≡ none) where
  -- No request of the queue is the transaction's.
  others : (b : LockRequest) → In b q.request_queue → own txn b ≡ false
  others b i = first_request-none (own txn) q.request_queue b absent i

  stopped :
      any_request (table_stops txn mode q) q.request_queue ≡ true
      → Admitted txn mode q (deny deadlock_prevention)
  unfolding table_stops
  stopped h =
      let (b, i, k) = any_request-true (table_stops txn mode q) q.request_queue h in
      let foreign = others b i in
      (
        refl,
        (
          b,
          i,
          ground arith,
          elim (Bool-cases b.granted) [ inr idle ↦ inl idle | inl held ↦ inr (ground arith) ],
        ),
      )

  welcome :
      any_request (table_stops txn mode q) q.request_queue ≡ false
      → (b : LockRequest) → In b q.request_queue
      → b.granted ≡ true
      → compatible mode b.lock_mode ≡ true
  unfolding table_stops
  welcome h b i gb =
      let foreign = others b i in
      let free = any_request-false (table_stops txn mode q) q.request_queue b h i in
      let clear : table_conflict mode q.group_lock_mode ≡ false = ground arith in
      (group_of-Welcome mode non_lock q.request_queue v.together (λ _ _ _. refl)
          (subst (λ g. table_conflict mode g ≡ false) v.summary clear)).1
        b i gb

-- On a queue that is in order, where the transaction has no request: if the lock is granted, it is
-- compatible with every granted lock, it is put at the end, and the queue stays in order; if not, the
-- reason is deadlock prevention, and another transaction's request waits or the summary conflicts.
pub table_verdict-Admitted :
    (txn : ℕ) (mode : LockMode) (q : LockRequestQueue)
    → IsTable q
    → first_request (own txn) q.request_queue ≡ none
    → Admitted txn mode q (table_verdict txn mode q)
unfolding table_verdict table_stops grant update_group_lock_mode
table_verdict-Admitted txn mode q v absent =
    elim (Option-cases (first_request (λ r. own txn r && r.granted) q.request_queue)) [
      | inr (r, e) ↦
          let (i, k) = first_request-some _ q.request_queue r e in
          let foreign = others txn mode q v absent r i in absurd (ground arith)
      | inl e ↦ elim (Bool-cases (any_request (table_stops txn mode q) q.request_queue)) [
        | inl stop ↦ rw (table_verdict, e, stop) (stopped txn mode q v absent stop)
        | inr free ↦
            rw (table_verdict, e, free, grant, absent)
              (
                record {
                  summary = refl;
                  together =
                      Compatibles-snoc _ q.request_queue v.together
                        (welcome txn mode q v absent free);
                },
                refl,
                welcome txn mode q v absent free,
              )
      ]
    ]
