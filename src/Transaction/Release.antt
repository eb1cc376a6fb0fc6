-- ===== src/Transaction/Release.antt =====
-- `release_all_locks`: what the lock table has once every lock of a transaction is given back.
use db_smw.Common.{
  ℕ, suc, ◌≤◌, ◌≡◌, ◌≢◌, refl, sym, ap, ◌∙◌, subst, inl, inr, if◌then◌else◌, ite, if_pos, if_neg,
  List, [], ◌∷◌, none, some, In, arith, Bool-cases, Option-cases,
}
use db_smw.Common.Assoc.{find, assign, find-erase, find-assign}
use db_smw.Transaction.{LockDataId, LockDataId_discrete, Transaction, shrinking}
use db_smw.Lock.{
  LockRequest, LockRequestQueue, LockTable, non_lock, own, queue_at, first_request, erase_first,
  keep_queue, unlock, unlock_queue, update_group_lock_mode, erase_lock,
}
use db_smw.Transaction.Manager.{release_locks}

abbrev pub requests : LockDataId → LockTable → List LockRequest
requests id table = (queue_at id table).request_queue

-- the number of the transaction's requests in a queue
unfoldable pub requests_of : ℕ → List LockRequest → ℕ
requests_of txn [] = 0
requests_of txn (r ∷ rs) = if own txn r then suc (requests_of txn rs) else requests_of txn rs

-- At most one request of the transaction is in each queue.
abbrev pub IsSingle : ℕ → LockTable → Type 0
IsSingle txn table = (id : LockDataId) → requests_of txn (requests id table) ≤ 1

-- The transaction has no request for any of the ids, and each other transaction has as many requests for
-- everything as before.
pub record Freed (txn : ℕ) (ids : List LockDataId) (before after : LockTable) : Type 0 where
  pub own_requests : (id : LockDataId) → In id ids → requests_of txn (requests id after) ≡ 0
  pub fewer :
      (id : LockDataId) → requests_of txn (requests id after) ≤ requests_of txn (requests id before)
  pub others :
      (other : ℕ) (id : LockDataId)
      → other ≢ txn
      → requests_of other (requests id after) ≡ requests_of other (requests id before)

erase_first-none :
    (txn : ℕ) (rs : List LockRequest)
    → first_request (own txn) rs ≡ none
    → erase_first (own txn) rs ≡ rs
unfolding erase_first first_request
erase_first-none txn [] e = refl
erase_first-none txn (r ∷ rs) e = elim (Bool-cases (own txn r)) [
  | inl h ↦ absurd (ground (arith, e, h))
  | inr h ↦ rw h (ap (λ l. r ∷ l) (erase_first-none txn rs (ground (arith, e, h))))
]

erase_first-own :
    (txn : ℕ) (rs : List LockRequest)
    → requests_of txn rs ≤ 1
    → requests_of txn (erase_first (own txn) rs) ≡ 0
unfolding erase_first requests_of
erase_first-own txn [] le = refl
erase_first-own txn (r ∷ rs) le = ground (arith, erase_first-own txn rs, le)

erase_first-other :
    (txn other : ℕ) (rs : List LockRequest)
    → other ≢ txn
    → requests_of other (erase_first (own txn) rs) ≡ requests_of other rs
unfolding erase_first requests_of
erase_first-other txn other [] ne = refl
erase_first-other txn other (r ∷ rs) ne = ground (arith, erase_first-other txn other rs ne, ne)

erase_first-fewer :
    (txn other : ℕ) (rs : List LockRequest)
    → requests_of other (erase_first (own txn) rs) ≤ requests_of other rs
unfolding erase_first requests_of
erase_first-fewer txn other [] = omega arith
erase_first-fewer txn other (r ∷ rs) = ground (arith, erase_first-fewer txn other rs)

requests-assign :
    (id j : LockDataId) (q : LockRequestQueue) (table : LockTable)
    → requests j (assign LockDataId_discrete id q table)
      ≡ ite (LockDataId_discrete id j) q.request_queue (requests j table)
unfolding queue_at
requests-assign id j q table = ground (arith, find-assign LockDataId_discrete id j q table)

requests-keep_queue :
    (id j : LockDataId) (rest : List LockRequest) (table : LockTable)
    → requests j (keep_queue id rest table) ≡ ite (LockDataId_discrete id j) rest (requests j table)
unfolding keep_queue queue_at update_group_lock_mode
requests-keep_queue id j [] table = ground (arith, find-erase LockDataId_discrete id j table)
requests-keep_queue id j (r ∷ rs) table =
    requests-assign id j
      (update_group_lock_mode (record { request_queue = r ∷ rs; group_lock_mode = non_lock })) table

-- Where the transaction has no request for `id`, nothing is taken out.
unchanged :
    (txn : ℕ) (table : LockTable) (id j : LockDataId)
    → first_request (own txn) (requests id table) ≡ none
    → requests j table
      ≡ ite (LockDataId_discrete id j) (erase_first (own txn) (requests j table)) (requests j table)
unchanged txn table id j e = elim (LockDataId_discrete id j) [
  | yes same ↦
      sym (
        erase_first-none txn (requests j table)
          (subst (λ k. first_request (own txn) (requests k table) ≡ none) same e))
      ∙ sym (if_pos (LockDataId_discrete id j) same _ _)
  | no ne ↦ sym (if_neg (LockDataId_discrete id j) ne _ _)
]

requests-none :
    (txn : ℕ) (table : LockTable) (id : LockDataId)
    → find LockDataId_discrete id table ≡ none
    → first_request (own txn) (requests id table) ≡ none
unfolding queue_at first_request
requests-none txn table id e = ground (arith, e)

requests-some :
    (table : LockTable) (id : LockDataId) (q : LockRequestQueue)
    → find LockDataId_discrete id table ≡ some q
    → requests id table ≡ q.request_queue
unfolding queue_at
requests-some table id q e = ground (arith, e)

unlock_queue-none :
    (t : Transaction) (table : LockTable) (id : LockDataId) (q : LockRequestQueue)
    → first_request (own t.txn_id) q.request_queue ≡ none
    → (unlock_queue t table id q).2 ≡ table
unfolding unlock_queue
unlock_queue-none t table id q e = ground (arith, e)

unlock_queue-some :
    (t : Transaction) (table : LockTable) (id : LockDataId) (q : LockRequestQueue) (r : LockRequest)
    → first_request (own t.txn_id) q.request_queue ≡ some r
    → (unlock_queue t table id q).2
      ≡ keep_queue id (erase_first (own t.txn_id) q.request_queue) table
unfolding unlock_queue
unlock_queue-some t table id q r e = ground (arith, e)

-- `unlock` takes the first request of the transaction out of the queue, if there is one.
requests-unlock :
    (t : Transaction) (table : LockTable) (id j : LockDataId)
    → requests j (unlock t table id).2
      ≡ ite
          (LockDataId_discrete id j)
          (erase_first (own t.txn_id) (requests j table))
          (requests j table)
unfolding unlock
requests-unlock t table id j = elim (Option-cases (find LockDataId_discrete id table)) [
  | inl e ↦
      let same : (unlock t table id).2 ≡ table = rw (e, unlock) refl in
      ap (requests j) same ∙ unchanged t.txn_id table id j (requests-none t.txn_id table id e)
  | inr (q, e) ↦
      let queue : requests id table ≡ q.request_queue = requests-some table id q e in
      let released = record t { state = shrinking } in
      let step : (unlock t table id).2 ≡ (unlock_queue released table id q).2 =
        rw (e, unlock) refl in
      elim (Option-cases (first_request (own t.txn_id) q.request_queue)) [
        | inl none_own ↦
            ap (requests j) (step ∙ unlock_queue-none released table id q none_own)
            ∙ unchanged t.txn_id table id j (ap (first_request (own t.txn_id)) queue ∙ none_own)
        | inr (r, found) ↦
            let rest = erase_first (own t.txn_id) q.request_queue in
            ap (requests j) (step ∙ unlock_queue-some released table id q r found)
            ∙ requests-keep_queue id j rest table
            ∙ same_rest q queue
      ]
]
  where
    same_rest :
        (q : LockRequestQueue)
        → requests id table ≡ q.request_queue
        → ite
            (LockDataId_discrete id j)
            (erase_first (own t.txn_id) q.request_queue)
            (requests j table)
          ≡ ite
              (LockDataId_discrete id j)
              (erase_first (own t.txn_id) (requests j table))
              (requests j table)
    same_rest q queue = elim (LockDataId_discrete id j) [
      | yes same ↦
          if_pos (LockDataId_discrete id j) same _ _
          ∙ ap (erase_first (own t.txn_id)) (sym queue ∙ ap (λ k. requests k table) same)
          ∙ sym (if_pos (LockDataId_discrete id j) same _ _)
      | no ne ↦
          if_neg (LockDataId_discrete id j) ne _ _ ∙ sym (if_neg (LockDataId_discrete id j) ne _ _)
    ]

txn_id-unlock :
    (t : Transaction) (table : LockTable) (id : LockDataId)
    → (unlock t table id).1.txn_id ≡ t.txn_id
unfolding unlock unlock_queue erase_lock
txn_id-unlock t table id = elim (Option-cases (find LockDataId_discrete id table)) [
  | inl e ↦ rw (e, unlock) refl
  | inr (q, e) ↦ rw (e, unlock) (ground arith)
]

unlock-Freed :
    (t : Transaction) (table : LockTable) (id : LockDataId)
    → IsSingle t.txn_id table
    → Freed t.txn_id (id ∷ []) table (unlock t table id).2
unlock-Freed t table id single = record {
  own_requests = λ j i. elim i [
    | inl same ↦
        ap (requests_of t.txn_id)
          (requests-unlock t table id j ∙ if_pos (LockDataId_discrete id j) same _ _)
        ∙ erase_first-own t.txn_id (requests j table) (single j)
    | inr past ↦ absurd past
  ];
  fewer = λ j. elim (LockDataId_discrete id j) [
    | yes same ↦
        subst (λ l. requests_of t.txn_id l ≤ requests_of t.txn_id (requests j table))
          (sym (requests-unlock t table id j ∙ if_pos (LockDataId_discrete id j) same _ _))
          (erase_first-fewer t.txn_id t.txn_id (requests j table))
    | no ne ↦
        subst (λ l. requests_of t.txn_id l ≤ requests_of t.txn_id (requests j table))
          (sym (requests-unlock t table id j ∙ if_neg (LockDataId_discrete id j) ne _ _))
          (omega arith)
  ];
  others = λ other j differ. elim (LockDataId_discrete id j) [
    | yes same ↦
        ap (requests_of other)
          (requests-unlock t table id j ∙ if_pos (LockDataId_discrete id j) same _ _)
        ∙ erase_first-other t.txn_id other (requests j table) differ
    | no ne ↦
        ap (requests_of other)
          (requests-unlock t table id j ∙ if_neg (LockDataId_discrete id j) ne _ _)
  ];
}

pub release_locks-Freed :
    (ids : List LockDataId) (t : Transaction) (table : LockTable) (txn : ℕ)
    → t.txn_id ≡ txn
    → IsSingle txn table
    → Freed txn ids table (release_locks ids t table).1
unfolding release_locks
release_locks-Freed [] t table txn same single = record {
  own_requests = λ id i. absurd i;
  fewer = λ id. omega arith;
  others = λ other id ne. refl;
}
release_locks-Freed (id ∷ ids) t table txn same single =
    let table1 = (unlock t table id).2 in
    let first : Freed txn (id ∷ []) table table1 =
      subst (λ n. IsSingle n table → Freed n (id ∷ []) table table1) same (unlock-Freed t table id)
        single in
    let rest =
      release_locks-Freed ids (unlock t table id).1 table1 txn (txn_id-unlock t table id ∙ same)
        (λ j. omega (arith, first.fewer j, single j)) in
    record {
      own_requests = λ j i. elim i [
        | inl here ↦ omega (arith, rest.fewer j, first.own_requests j (inl here))
        | inr later ↦ rest.own_requests j later
      ];
      fewer = λ j. omega (arith, rest.fewer j, first.fewer j);
      others = λ other j ne. rest.others other j ne ∙ first.others other j ne;
    }
