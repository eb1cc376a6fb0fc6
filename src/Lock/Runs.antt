-- ===== src/Lock/Runs.antt =====
-- Any calls of any transactions, in any order, on the one lock table.
use db_smw.Common.{
  ℕ, ◌≡◌, ◌≢◌, refl, sym, ap, ◌∙◌, inl, inr, Bool, true, List, [], ◌∷◌, if_pos, if_neg, In, arith,
  update, ℕ_discrete,
}
use db_smw.Common.Int.{ℤ}
use db_smw.Transaction.{
  Rid, LockDataId, record_id, Transaction, shrinking, AbortReason, lock_on_shrinking,
}
use db_smw.Lock.{
  LockMode, shared, exclusive, intention_shared, intention_exclusive, LockTable, LockResult, locked,
  refused, queue_at, unlock, with_growing, erase_lock, unlock_queue,
}
use db_smw.Lock.Table.{
  lock_on_table, lock_shared_on_table, lock_exclusive_on_table, lock_is_on_table, lock_ix_on_table,
}
use db_smw.Lock.Record.{lock_on_record, lock_shared_on_record, lock_exclusive_on_record}
use db_smw.Lock.Exclusion.{Holds}
use db_smw.Lock.Calls.{
  RecordsSafe, table_of, RecordLocked-RecordsSafe, lock_on_record_lem, lock_on_table-RecordsSafe,
  unlock-RecordsSafe, empty-RecordsSafe,
}

pub data LockCall : Type 0 where
  shared_table exclusive_table is_table ix_table : ℤ → LockCall
  shared_record exclusive_record : Rid → ℤ → LockCall

pub data Call : Type 0 where
  locks : LockCall → Call
  unlocks : LockDataId → Call

-- every transaction object by its id, and the lock table
pub record System : Type 0 where
  pub transactions : ℕ → Transaction
  pub lock_table : LockTable

unfoldable pub lock : Transaction → LockTable → LockCall → LockResult
lock t table (shared_table fd) = lock_shared_on_table t table fd
lock t table (exclusive_table fd) = lock_exclusive_on_table t table fd
lock t table (is_table fd) = lock_is_on_table t table fd
lock t table (ix_table fd) = lock_ix_on_table t table fd
lock t table (shared_record rid fd) = lock_shared_on_record t table rid fd
lock t table (exclusive_record rid fd) = lock_exclusive_on_record t table rid fd

-- what the caller sees: the value returned, or the reason thrown
pub data Reply : Type 0 where
  returned : Bool → Reply
  thrown : AbortReason → Reply

abbrev pub after_lock : ℕ → System → LockResult → Reply × System
after_lock i s (locked t table) =
    (returned true, record { transactions = update s.transactions i t; lock_table = table })
after_lock i s (refused reason t table) =
    (thrown reason, record { transactions = update s.transactions i t; lock_table = table })

unfoldable pub step : System → ℕ → Call → Reply × System
unfolding lock
step s i (locks c) = after_lock i s (lock (s.transactions i) s.lock_table c)
step s i (unlocks id) =
    let (b, t, table) = unlock (s.transactions i) s.lock_table id in
    (returned b, record { transactions = update s.transactions i t; lock_table = table })

-- the replies, each with its caller and its call
unfoldable pub run : System → List (ℕ × Call) → List (ℕ × Call × Reply) × System
unfolding step
run s [] = ([], s)
run s ((i, c) ∷ cs) =
    let (reply, t) = step s i c in let (replies, u) = run t cs in ((i, c, reply) ∷ replies, u)

lock-RecordsSafe :
    (t : Transaction) (table : LockTable) (c : LockCall)
    → RecordsSafe table
    → RecordsSafe (table_of (lock t table c))
unfolding lock lock_shared_on_table lock_exclusive_on_table lock_is_on_table lock_ix_on_table
    lock_shared_on_record lock_exclusive_on_record
lock-RecordsSafe t table (shared_table fd) v = lock_on_table-RecordsSafe t table fd shared v
lock-RecordsSafe t table (exclusive_table fd) v = lock_on_table-RecordsSafe t table fd exclusive v
lock-RecordsSafe t table (is_table fd) v = lock_on_table-RecordsSafe t table fd intention_shared v
lock-RecordsSafe t table (ix_table fd) v =
    lock_on_table-RecordsSafe t table fd intention_exclusive v
lock-RecordsSafe t table (shared_record rid fd) v =
    RecordLocked-RecordsSafe t _ _ _ _ (lock_on_record_lem t table rid fd shared (inl refl) v)
lock-RecordsSafe t table (exclusive_record rid fd) v =
    RecordLocked-RecordsSafe t _ _ _ _ (lock_on_record_lem t table rid fd exclusive (inr refl) v)

after_lock-RecordsSafe :
    (i : ℕ) (s : System) (r : LockResult)
    → RecordsSafe (table_of r)
    → RecordsSafe (after_lock i s r).1.lock_table
after_lock-RecordsSafe i s (locked t table) v = v
after_lock-RecordsSafe i s (refused reason t table) v = v

step-RecordsSafe :
    (s : System) (i : ℕ) (c : Call)
    → RecordsSafe s.lock_table
    → RecordsSafe (step s i c).1.lock_table
unfolding step
step-RecordsSafe s i (locks c) v =
    after_lock-RecordsSafe i s (lock (s.transactions i) s.lock_table c)
      (lock-RecordsSafe (s.transactions i) s.lock_table c v)
step-RecordsSafe s i (unlocks id) v = unlock-RecordsSafe (s.transactions i) s.lock_table id v

run-RecordsSafe :
    (s : System) (cs : List (ℕ × Call))
    → RecordsSafe s.lock_table
    → RecordsSafe (run s cs).1.lock_table
unfolding run
run-RecordsSafe s [] v = v
run-RecordsSafe s ((i, c) ∷ cs) v = run-RecordsSafe (step s i c).1 cs (step-RecordsSafe s i c v)

-- From an empty lock table, whatever the transactions are and whatever they call, in whatever order:
-- where one holds an exclusive lock on a record, no other holds any lock on it.
pub run-exclusive :
    (transactions : ℕ → Transaction) (cs : List (ℕ × Call)) (rid : Rid) (tab_fd : ℤ) (i j : ℕ)
    (mode : LockMode)
    → i ≢ j
    → Holds i exclusive (
        queue_at
          (record_id tab_fd rid)
          (run (record { transactions = transactions; lock_table = [] }) cs).1.lock_table)
    → ¬ Holds j mode (
        queue_at
          (record_id tab_fd rid)
          (run (record { transactions = transactions; lock_table = [] }) cs).1.lock_table)
run-exclusive ts cs rid fd i j mode ne (a, ia, ta, ga, xa) (b, ib, tb, gb, xb) =
    let v =
      run-RecordsSafe (record { transactions = ts; lock_table = [] }) cs empty-RecordsSafe rid fd in
    let one = v.alone a b ia ib ga gb (λ e. ne (sym ta ∙ e ∙ tb)) in cc (one, xa)

lock_shrinking :
    (t : Transaction) (table : LockTable) (c : LockCall)
    → t.state ≡ shrinking
    → lock t table c ≡ refused lock_on_shrinking t table
unfolding lock lock_shared_on_table lock_exclusive_on_table lock_is_on_table lock_ix_on_table
    lock_shared_on_record lock_exclusive_on_record lock_on_table lock_on_record with_growing
lock_shrinking t table (shared_table fd) e = rw e refl
lock_shrinking t table (exclusive_table fd) e = rw e refl
lock_shrinking t table (is_table fd) e = rw e refl
lock_shrinking t table (ix_table fd) e = rw e refl
lock_shrinking t table (shared_record rid fd) e = rw e refl
lock_shrinking t table (exclusive_record rid fd) e = rw e refl

state-unlock :
    (t : Transaction) (table : LockTable) (id : LockDataId)
    → (unlock t table id).1.state ≡ shrinking
unfolding unlock unlock_queue erase_lock
state-unlock t table id = ground arith

state-update :
    (f : ℕ → Transaction) (i j : ℕ) (t : Transaction)
    → (f i).state ≡ shrinking
    → (j ≡ i → t.state ≡ shrinking)
    → (update f j t i).state ≡ shrinking
state-update f i j t e h = elim (ℕ_discrete j i) [
  | yes same ↦ ap (λ (k : Transaction). k.state) (if_pos (ℕ_discrete j i) same _ _) ∙ h same
  | no ne ↦ ap (λ (k : Transaction). k.state) (if_neg (ℕ_discrete j i) ne _ _) ∙ e
]

abbrev transaction_of : LockResult → Transaction
transaction_of (locked t table) = t
transaction_of (refused reason t table) = t

state-after_lock :
    (s : System) (i j : ℕ) (r : LockResult)
    → (s.transactions i).state ≡ shrinking
    → (j ≡ i → (transaction_of r).state ≡ shrinking)
    → ((after_lock j s r).1.transactions i).state ≡ shrinking
state-after_lock s i j (locked t table) e h = state-update s.transactions i j t e h
state-after_lock s i j (refused reason t table) e h = state-update s.transactions i j t e h

-- A transaction that is shrinking stays so, whoever calls.
state-step :
    (s : System) (i j : ℕ) (c : Call)
    → (s.transactions i).state ≡ shrinking
    → ((step s j c).1.transactions i).state ≡ shrinking
unfolding step
state-step s i j (locks c) e =
    state-after_lock s i j (lock (s.transactions j) s.lock_table c) e (λ same.
      let own : (s.transactions j).state ≡ shrinking =
        ap (λ (k : ℕ). (s.transactions k).state) same ∙ e in
      ap (λ (r : LockResult). (transaction_of r).state)
        (lock_shrinking (s.transactions j) s.lock_table c own)
      ∙ own)
state-step s i j (unlocks id) e =
    state-update s.transactions i j _ e (λ _. state-unlock (s.transactions j) s.lock_table id)

-- Its lock calls throw.
reply-step :
    (s : System) (i : ℕ) (c : LockCall)
    → (s.transactions i).state ≡ shrinking
    → (step s i (locks c)).0 ≡ thrown lock_on_shrinking
unfolding step
reply-step s i c e = rw (step, lock_shrinking (s.transactions i) s.lock_table c e) refl

run_shrinking :
    (s : System) (i : ℕ) (cs : List (ℕ × Call)) (c : LockCall) (r : Reply)
    → (s.transactions i).state ≡ shrinking
    → In (i, locks c, r) (run s cs).0
    → r ≡ thrown lock_on_shrinking
unfolding run
run_shrinking s i [] c r e h = absurd h
run_shrinking s i ((j, d) ∷ cs) c r e (inr h) =
    run_shrinking (step s j d).1 i cs c r (state-step s i j d e) h
run_shrinking s i ((j, d) ∷ cs) c r e (inl h) =
    let who : j ≡ i = ap (λ (z : ℕ × Call × Reply). z.0) h in
    let what : d ≡ locks c = ap (λ (z : ℕ × Call × Reply). z.1) h in
    let same : (step s j d).0 ≡ r = ap (λ (z : ℕ × Call × Reply). z.2) h in
    sym same
    ∙ ap (λ (k : ℕ). (step s k d).0) who
    ∙ ap (λ (k : Call). (step s i k).0) what
    ∙ reply-step s i c e

-- Once a transaction has released a lock, every lock that it asks for later is refused, whatever the
-- others do between.
pub unlock-run :
    (s : System) (i : ℕ) (id : LockDataId) (cs : List (ℕ × Call)) (c : LockCall) (r : Reply)
    → In (i, locks c, r) (run (step s i (unlocks id)).1 cs).0
    → r ≡ thrown lock_on_shrinking
unfolding step
unlock-run s i id cs c r h =
    let released =
      ap (λ (k : Transaction). k.state) (if_pos (ℕ_discrete i i) refl _ (s.transactions i))
      ∙ state-unlock (s.transactions i) s.lock_table id in
    run_shrinking (step s i (unlocks id)).1 i cs c r released h
