-- ===== src/Lock/Calls.antt =====
-- Whole runs of the lock manager: what its calls keep of every record's queue, and two phases.
use db_smw.Common.{
  ◌≡◌, ◌≢◌, refl, sym, ◌∙◌, subst, inl, inr, Bool, true, [], some, Bool-cases, Option-cases, arith,
}
use db_smw.Common.Int.{ℤ}
use db_smw.Common.Assoc.{find, erase, assign, find-erase, find-assign}
use db_smw.Transaction.{
  Rid, LockDataId, LockDataId_discrete, table_id, record_id, Transaction, growing,
}
use db_smw.Lock.{
  LockMode, GroupLockMode, LockRequest, LockRequestQueue, LockTable, empty_queue, LockResult,
  locked, refused, Verdict, allow, deny, own, first_request, erase_first, queue_at, settle,
  lock_mem, insert_lock, is_shrinking, with_growing, is_empty, keep_queue, unlock_queue, unlock,
  update_group_lock_mode,
}
use db_smw.Lock.Requests.{In-erase_first}
use db_smw.Lock.Table.{lock_on_table}
use db_smw.Lock.Record.{table_blocks, lock_on_record}
use db_smw.Lock.Exclusion.{IsRecordMode, IsExclusion, Holds, Allowed, record_verdict-Allowed}

abbrev pub RecordsSafe : LockTable → Type 0
RecordsSafe table = (rid : Rid) (tab_fd : ℤ) → IsExclusion (queue_at (record_id tab_fd rid) table)

empty-IsExclusion : IsExclusion empty_queue
empty-IsExclusion = record { modes = λ r i. absurd i; alone = λ a b i. absurd i }

pub empty-RecordsSafe : RecordsSafe []
unfolding queue_at find
empty-RecordsSafe rid fd = empty-IsExclusion

queue_at-assign_self :
    (id j : LockDataId) (q : LockRequestQueue) (table : LockTable)
    → id ≡ j
    → queue_at j (assign LockDataId_discrete id q table) ≡ q
unfolding queue_at
queue_at-assign_self id j q table e = ground (arith, find-assign LockDataId_discrete id j q table)

queue_at-assign_ne :
    (id j : LockDataId) (q : LockRequestQueue) (table : LockTable)
    → id ≢ j
    → queue_at j (assign LockDataId_discrete id q table) ≡ queue_at j table
unfolding queue_at
queue_at-assign_ne id j q table ne = ground (arith, find-assign LockDataId_discrete id j q table)

queue_at-erase_self :
    (id j : LockDataId) (table : LockTable)
    → id ≡ j
    → queue_at j (erase LockDataId_discrete id table) ≡ empty_queue
unfolding queue_at
queue_at-erase_self id j table e = ground (arith, find-erase LockDataId_discrete id j table)

queue_at-erase_ne :
    (id j : LockDataId) (table : LockTable)
    → id ≢ j
    → queue_at j (erase LockDataId_discrete id table) ≡ queue_at j table
unfolding queue_at
queue_at-erase_ne id j table ne = ground (arith, find-erase LockDataId_discrete id j table)

-- A write to a queue that is right, or not of a record, keeps the records.
assign-RecordsSafe :
    (id : LockDataId) (q : LockRequestQueue) (table : LockTable)
    → ((rid : Rid) (tab_fd : ℤ) → id ≡ record_id tab_fd rid → IsExclusion q)
    → RecordsSafe table
    → RecordsSafe (assign LockDataId_discrete id q table)
assign-RecordsSafe id q table h v rid fd = elim (LockDataId_discrete id (record_id fd rid)) [
  | yes e ↦ subst IsExclusion (sym (queue_at-assign_self id _ q table e)) (h rid fd e)
  | no ne ↦ subst IsExclusion (sym (queue_at-assign_ne id _ q table ne)) (v rid fd)
]

erase-RecordsSafe :
    (id : LockDataId) (table : LockTable)
    → RecordsSafe table
    → RecordsSafe (erase LockDataId_discrete id table)
erase-RecordsSafe id table v rid fd = elim (LockDataId_discrete id (record_id fd rid)) [
  | yes e ↦ subst IsExclusion (sym (queue_at-erase_self id _ table e)) empty-IsExclusion
  | no ne ↦ subst IsExclusion (sym (queue_at-erase_ne id _ table ne)) (v rid fd)
]

-- What a call on a record leaves: the records stay right; if it returns, the transaction holds the
-- lock and is growing; if it throws, the record's queue is as it was.
abbrev pub RecordLocked : Transaction → LockDataId → LockMode → LockTable → LockResult → Type 0
RecordLocked txn id mode table (locked t after) =
    RecordsSafe after
    × Holds txn.txn_id mode (queue_at id after)
    × (t.state ≡ growing)
    × (lock_mem id t.lock_set ≡ true)
RecordLocked txn id mode table (refused reason t after) =
    RecordsSafe after × (queue_at id after ≡ queue_at id table) × (t.lock_set ≡ txn.lock_set)

lock_mem-insert_lock :
    (id : LockDataId) (t : Transaction) → lock_mem id (insert_lock id t).lock_set ≡ true
unfolding insert_lock lock_mem
lock_mem-insert_lock id t = ground arith

state-insert_lock : (id : LockDataId) (t : Transaction) → (insert_lock id t).state ≡ t.state
unfolding insert_lock
state-insert_lock id t = ground arith

module _ (rid : Rid) (fd : ℤ) (t : Transaction) (table : LockTable) (mode : LockMode)
    (v : RecordsSafe table) where
  settle-RecordLocked :
      (r : Verdict)
      → Allowed t.txn_id mode r
      → t.state ≡ growing
      → RecordLocked t (record_id fd rid) mode table (settle (record_id fd rid) t table r)
  unfolding settle
  settle-RecordLocked (allow q) a g = (
    assign-RecordsSafe (record_id fd rid) q table (λ _ _ _. a.0) v,
    subst (Holds t.txn_id mode) (sym (queue_at-assign_self (record_id fd rid) _ q table refl)) a.1,
    state-insert_lock (record_id fd rid) t ∙ g,
    lock_mem-insert_lock (record_id fd rid) t,
  )
  settle-RecordLocked (deny reason) a g = (
    assign-RecordsSafe (record_id fd rid) _ table (λ _ _ e. v rid fd) v,
    queue_at-assign_self (record_id fd rid) _ _ table refl,
    refl,
  )

module _ (txn : Transaction) (table : LockTable) (rid : Rid) (fd : ℤ) (mode : LockMode)
    (good : IsRecordMode mode) (v : RecordsSafe table) where
  -- the table once `lock_table_[table_id]` has made an entry
  abbrev opened : LockTable
  opened = assign LockDataId_discrete (table_id fd) (queue_at (table_id fd) table) table

  opened-RecordsSafe : RecordsSafe opened
  opened-RecordsSafe = assign-RecordsSafe (table_id fd) _ table (λ _ _ e. cc) v

  same_queue : queue_at (record_id fd rid) opened ≡ queue_at (record_id fd rid) table
  same_queue = queue_at-assign_ne (table_id fd) (record_id fd rid) _ table (λ e. cc)

  abbrev started : Transaction
  started = record txn { state = growing }

  reopen :
      (r : LockResult)
      → RecordLocked started (record_id fd rid) mode opened r
      → RecordLocked txn (record_id fd rid) mode table r
  reopen (locked t after) h = h
  reopen (refused reason t after) (h, same, set) = (h, same ∙ same_queue, set)

  -- Where every record's queue is in order, and a shared or an exclusive lock on a record is asked
  -- for: every record's queue stays in order; if `lock_on_record` returns, the transaction has a
  -- granted request of that mode in the record's queue, is growing, and has the lock in its lock set; if
  -- it throws, the record's queue and the transaction's lock set are as they were.
  pub lock_on_record_lem :
      RecordLocked txn (record_id fd rid) mode table (lock_on_record txn table rid fd mode)
  unfolding lock_on_record with_growing
  lock_on_record_lem = elim (Bool-cases (is_shrinking txn.state)) [
    | inl e ↦ rw (lock_on_record, with_growing, e) (v, refl, refl)
    | inr e ↦ elim (Bool-cases (table_blocks txn.txn_id mode (queue_at (table_id fd) table))) [
      | inl b ↦ rw (lock_on_record, with_growing, e, b) (opened-RecordsSafe, same_queue, refl)
      | inr b ↦
          rw (lock_on_record, with_growing, e, b)
            (reopen _ (
              settle-RecordLocked rid fd started opened mode opened-RecordsSafe _
                (record_verdict-Allowed txn.txn_id mode good _ (opened-RecordsSafe rid fd)) refl))
    ]
  ]

-- the table that a call leaves
abbrev pub table_of : LockResult → LockTable
table_of (locked t after) = after
table_of (refused reason t after) = after

pub RecordLocked-RecordsSafe :
    (txn : Transaction) (id : LockDataId) (mode : LockMode) (table : LockTable) (r : LockResult)
    → RecordLocked txn id mode table r
    → RecordsSafe (table_of r)
RecordLocked-RecordsSafe txn id mode table (locked t after) h = h.0
RecordLocked-RecordsSafe txn id mode table (refused reason t after) h = h.0

settle_table-RecordsSafe :
    (fd : ℤ) (t : Transaction) (table : LockTable) (r : Verdict)
    → RecordsSafe table
    → RecordsSafe (table_of (settle (table_id fd) t table r))
unfolding settle
settle_table-RecordsSafe fd t table (allow q) v =
    assign-RecordsSafe (table_id fd) _ table (λ _ _ e. cc) v
settle_table-RecordsSafe fd t table (deny r) v =
    assign-RecordsSafe (table_id fd) _ table (λ _ _ e. cc) v

pub lock_on_table-RecordsSafe :
    (txn : Transaction) (table : LockTable) (fd : ℤ) (mode : LockMode)
    → RecordsSafe table
    → RecordsSafe (table_of (lock_on_table txn table fd mode))
unfolding lock_on_table with_growing
lock_on_table-RecordsSafe txn table fd mode v = elim (Bool-cases (is_shrinking txn.state)) [
  | inl e ↦ rw (lock_on_table, with_growing, e) v
  | inr e ↦ rw (lock_on_table, with_growing, e) (settle_table-RecordsSafe fd _ table _ v)
]

erase_first-IsExclusion :
    (p : LockRequest → Bool) (q : LockRequestQueue) (g : GroupLockMode)
    → IsExclusion q
    → IsExclusion (record { request_queue = erase_first p q.request_queue; group_lock_mode = g })
erase_first-IsExclusion p q g v = record {
  modes = λ r i. v.modes r (In-erase_first p q.request_queue r i);
  alone = λ a b i j.
      v.alone a b (In-erase_first p q.request_queue a i) (In-erase_first p q.request_queue b j);
}

keep_queue-RecordsSafe :
    (id : LockDataId) (p : LockRequest → Bool) (q : LockRequestQueue) (table : LockTable)
    → ((rid : Rid) (fd : ℤ) → id ≡ record_id fd rid → IsExclusion q)
    → RecordsSafe table
    → RecordsSafe (keep_queue id (erase_first p q.request_queue) table)
unfolding keep_queue update_group_lock_mode
keep_queue-RecordsSafe id p q table h v =
    elim (Bool-cases (is_empty (erase_first p q.request_queue))) [
      | inl e ↦ rw (keep_queue, e) (erase-RecordsSafe id table v)
      | inr e ↦
          rw (keep_queue, e)
            (assign-RecordsSafe id _ table (λ rid fd k. erase_first-IsExclusion p q _ (h rid fd k))
              v)
    ]

queue_at-found :
    (id : LockDataId) (table : LockTable) (q : LockRequestQueue)
    → find LockDataId_discrete id table ≡ some q
    → queue_at id table ≡ q
unfolding queue_at
queue_at-found id table q e = rw (queue_at, e) refl

pub unlock-RecordsSafe :
    (txn : Transaction) (table : LockTable) (id : LockDataId)
    → RecordsSafe table
    → RecordsSafe (unlock txn table id).2
unfolding unlock unlock_queue
unlock-RecordsSafe txn table id v = elim (Option-cases (find LockDataId_discrete id table)) [
  | inl e ↦ rw (unlock, e) v
  | inr (q, e) ↦ elim (Option-cases (first_request (own txn.txn_id) q.request_queue)) [
    | inl h ↦ rw (unlock, e, unlock_queue, h) v
    | inr (r, h) ↦
        rw (unlock, e, unlock_queue, h)
          (keep_queue-RecordsSafe id _ q table
            (λ rid fd k.
              subst IsExclusion (queue_at-found id table q e)
                (subst (λ j. IsExclusion (queue_at j table)) (sym k) (v rid fd)))
            v)
  ]
]
