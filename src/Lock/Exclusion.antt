-- ===== src/Lock/Exclusion.antt =====
-- Records: two transactions that hold granted locks on one record both hold shared ones.
use db_smw.Common.{
  ℕ, ◌≡◌, ◌≢◌, refl, sym, ap, ◌∙◌, subst, ◌⊎◌, inl, inr, true, false, some, In, Bool-cases,
  Option-cases, if◌then◌else◌, arith,
}
use db_smw.Lock.{
  LockMode, shared, exclusive, intention_shared, intention_exclusive, s_ix, s, x, same_mode,
  LockRequest, LockRequestQueue, Verdict, allow, deny, held_by_other, any_request, first_request,
  update_first, grant, record_conflict,
}
use db_smw.Lock.Requests.{
  any_request-false, first_request-some, In-update_first, update_first-In, In-grant, grant-In,
}
use db_smw.Lock.Record.{upgrades, settles, record_stops, record_again, record_verdict}

abbrev pub IsRecordMode : LockMode → Type 0
IsRecordMode m = (m ≡ shared) ⊎ (m ≡ exclusive)

pub record IsExclusion (q : LockRequestQueue) : Type 0 where
  pub modes : (r : LockRequest) → In r q.request_queue → IsRecordMode r.lock_mode
  pub alone :
      (a b : LockRequest)
      → In a q.request_queue
      → In b q.request_queue
      → a.granted ≡ true
      → b.granted ≡ true
      → a.txn_id ≢ b.txn_id
      → a.lock_mode ≡ shared

-- The transaction has a granted request of this mode.
abbrev pub Holds : ℕ → LockMode → LockRequestQueue → Type 0
Holds txn mode q =
    (r : LockRequest) × In r q.request_queue
    × (r.txn_id ≡ txn)
    × (r.granted ≡ true)
    × (r.lock_mode ≡ mode)

same_mode-shared : (m : LockMode) → same_mode m shared ≡ true → m ≡ shared
same_mode-shared shared e = refl
same_mode-shared exclusive e = cc
same_mode-shared intention_shared e = cc
same_mode-shared intention_exclusive e = cc
same_mode-shared s_ix e = cc

same_mode-exclusive : (m : LockMode) → same_mode m exclusive ≡ true → m ≡ exclusive
same_mode-exclusive shared e = cc
same_mode-exclusive exclusive e = refl
same_mode-exclusive intention_shared e = cc
same_mode-exclusive intention_exclusive e = cc
same_mode-exclusive s_ix e = cc

same_mode_lem : (m n : LockMode) → IsRecordMode n → same_mode m n ≡ true → m ≡ n
same_mode_lem m n (inl h) e = same_mode-shared m (subst (λ k. same_mode m k ≡ true) h e) ∙ sym h
same_mode_lem m n (inr h) e = same_mode-exclusive m (subst (λ k. same_mode m k ≡ true) h e) ∙ sym h

-- What the verdict means for the queue that it leaves.
abbrev pub Allowed : ℕ → LockMode → Verdict → Type 0
Allowed txn mode (allow q) = IsExclusion q × Holds txn mode q
Allowed txn mode (deny reason) = Unit

module _ (txn : ℕ) (mode : LockMode) (good : IsRecordMode mode) (q : LockRequestQueue)
    (v : IsExclusion q) where
  old_or_new :
      (r : LockRequest)
      → In r (grant txn mode (λ _. mode) q.request_queue)
      → In r q.request_queue ⊎ ((r.txn_id ≡ txn) × (r.lock_mode ≡ mode))
  old_or_new r i = elim (In-grant txn mode (λ _. mode) q.request_queue r i) [
    | inl k ↦ inl k
    | inr (t, inl m) ↦ inr (t, m)
    | inr (t, inr (z, j, c, m)) ↦ inr (t, sym m)
  ]

  -- No request stops the new one.
  module _ (free : any_request (record_stops txn mode) q.request_queue ≡ false) where
    -- A granted request of another transaction is shared, and so is the new one.
    both_shared :
        (b : LockRequest)
        → In b q.request_queue
        → b.granted ≡ true
        → b.txn_id ≢ txn
        → (b.lock_mode ≡ shared) × (mode ≡ shared)
    unfolding record_stops record_conflict
    both_shared b i g ne =
        let stop : record_stops txn mode b ≡ false = any_request-false _ q.request_queue b free i in
        let clear : record_conflict mode b.lock_mode ≡ false = ground arith in
        elim good [
          | inl ms ↦ elim (v.modes b i) [
            | inl bs ↦ (bs, ms)
            | inr bx ↦
                let clash : record_conflict mode b.lock_mode ≡ true = rw (ms, bx) refl in
                cc (clash, clear)
          ]
          | inr mx ↦ elim (v.modes b i) [
            | inl bs ↦
                let clash : record_conflict mode b.lock_mode ≡ true = rw (mx, bs) refl in
                cc (clash, clear)
            | inr bx ↦
                let clash : record_conflict mode b.lock_mode ≡ true = rw (mx, bx) refl in
                cc (clash, clear)
          ]
        ]

    granted-IsExclusion : IsExclusion (record {
      request_queue = grant txn mode (λ _. mode) q.request_queue;
      group_lock_mode = if same_mode mode shared then s else x;
    })
    granted-IsExclusion = record {
      modes = λ r i. elim (old_or_new r i) [
        | inl k ↦ v.modes r k
        | inr (_, m) ↦ subst IsRecordMode (sym m) good
      ];
      alone = λ a b i j ga gb ne. elim (old_or_new a i) [
        | inl k ↦ elim (old_or_new b j) [
          | inl l ↦ v.alone a b k l ga gb ne
          | inr (t, m) ↦ (both_shared a k ga (λ h. ne (h ∙ sym t))).0
        ]
        | inr (t, m) ↦ elim (old_or_new b j) [
          | inl l ↦ m ∙ (both_shared b l gb (λ h. ne (t ∙ sym h))).1
          | inr (u, n) ↦ absurd (ne (t ∙ sym u))
        ]
      ];
    }

  module _ (idle : any_request (held_by_other txn) q.request_queue ≡ false) where
    only_own :
        (a : LockRequest)
        → In a (
            update_first
              (settles txn mode)
              (λ r. record r { lock_mode = exclusive })
              q.request_queue)
        → a.granted ≡ true
        → a.txn_id ≡ txn
    unfolding settles
    only_own a i g = elim (In-update_first (settles txn mode) _ q.request_queue a i) [
      | inl k ↦
          let other : held_by_other txn a ≡ false = any_request-false _ q.request_queue a idle k in
          ground arith
      | inr (z, j, c, d) ↦
          let mine : z.txn_id ≡ txn = ground arith in
          ap (λ (h : LockRequest). h.txn_id) (sym d) ∙ mine
    ]

    upgraded-IsExclusion : IsExclusion (record {
      request_queue =
          update_first (settles txn mode) (λ r. record r { lock_mode = exclusive }) q.request_queue;
      group_lock_mode = x;
    })
    unfolding settles
    upgraded-IsExclusion = record {
      modes = λ r i. elim (In-update_first (settles txn mode) _ q.request_queue r i) [
        | inl k ↦ v.modes r k
        | inr (z, j, c, d) ↦ inr (ap (λ (h : LockRequest). h.lock_mode) (sym d))
      ];
      alone = λ a b i j ga gb ne. absurd (ne (only_own a i ga ∙ sym (only_own b j gb)));
    }

  module _ (held : LockRequest)
      (e : first_request (settles txn mode) q.request_queue ≡ some held) where
    found : In held q.request_queue × (settles txn mode held ≡ true)
    found = first_request-some (settles txn mode) q.request_queue held e

    mine : held.txn_id ≡ txn
    unfolding settles
    mine = ground (arith, found.1)

    here : held.granted ≡ true
    unfolding settles
    here = ground (arith, found.1)

    equal : upgrades mode held ≡ false → same_mode held.lock_mode mode ≡ true
    unfolding settles
    equal h = ground (arith, found.1)

    asks : upgrades mode held ≡ true → same_mode mode exclusive ≡ true
    unfolding upgrades
    asks h = ground arith

    again-Allowed : Allowed txn mode (record_again txn mode q held)
    unfolding record_again
    again-Allowed = elim (Bool-cases (upgrades mode held)) [
      | inr plain ↦
          let same = same_mode_lem held.lock_mode mode good (equal plain) in
          rw (record_again, plain) (v, (held, found.0, mine, here, same))
      | inl up ↦ elim (Bool-cases (any_request (held_by_other txn) q.request_queue)) [
        | inl busy ↦ rw (record_again, up, busy) tt
        | inr idle ↦
            let changed = update_first-In (settles txn mode) _ q.request_queue held e in
            rw (record_again, up, idle)
              (
                upgraded-IsExclusion idle,
                (
                  record held { lock_mode = exclusive },
                  changed,
                  mine,
                  here,
                  sym (same_mode-exclusive mode (asks up)),
                ),
              )
      ]
    ]

  -- The state of the record's queue after a call is right, and the lock is held.
  pub record_verdict-Allowed : Allowed txn mode (record_verdict txn mode q)
  unfolding record_verdict
  record_verdict-Allowed = elim (Option-cases (first_request (settles txn mode) q.request_queue)) [
    | inr (held, e) ↦ rw (e, record_verdict) (again-Allowed held e)
    | inl e ↦ elim (Bool-cases (any_request (record_stops txn mode) q.request_queue)) [
      | inl stop ↦ rw (e, stop, record_verdict) tt
      | inr free ↦
          rw (e, free, record_verdict) (granted-IsExclusion free, grant-In txn mode q.request_queue)
    ]
  ]
