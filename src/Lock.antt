-- ===== src/Lock.antt =====
-- transaction/concurrency/lock_manager.h and lock_manager.cpp. No call waits: a conflict aborts the
-- caller. Every call holds `latch_`, so it is one step, but for `check_growing`, which reads the
-- caller's own state. `cv_` is never used.
pub mod Table
pub mod Record
mod Requests
pub mod Exclusion
pub mod Calls
pub mod Runs
mod Compatible
pub mod Admission
mod Tests
use db_smw.Common.{
  ℕ, Bool, true, false, not, ◌&&◌, ◌||◌, List, [], ◌∷◌, ◌++◌, Option, none, some, ite,
  if◌then◌else◌, ◌==◌,
}
use db_smw.Common.Assoc.{find, erase, assign}
use db_smw.Transaction.{
  LockDataId, LockDataId_discrete, Transaction, TransactionState, growing, shrinking, AbortReason,
  lock_on_shrinking,
}

pub data LockMode : Type 0 where
  shared exclusive intention_shared intention_exclusive s_ix : LockMode

pub data GroupLockMode : Type 0 where
  non_lock is ix s x six : GroupLockMode

unfoldable pub LockMode_discrete : Discrete LockMode
LockMode_discrete = hlevel

abbrev pub same_mode : LockMode → LockMode → Bool
same_mode shared shared = true
same_mode exclusive exclusive = true
same_mode intention_shared intention_shared = true
same_mode intention_exclusive intention_exclusive = true
same_mode s_ix s_ix = true
same_mode _ _ = false

pub record LockRequest : Type 0 where
  pub txn_id : ℕ
  pub lock_mode : LockMode
  pub granted : Bool

pub record LockRequestQueue : Type 0 where
  pub request_queue : List LockRequest
  pub group_lock_mode : GroupLockMode

abbrev pub LockTable : Type 0
LockTable = List (LockDataId × LockRequestQueue)

abbrev pub empty_queue : LockRequestQueue
empty_queue = record { request_queue = []; group_lock_mode = non_lock }

-- lock_table_[id], which makes an empty queue where there is none
unfoldable pub queue_at : LockDataId → LockTable → LockRequestQueue
queue_at id t = elim (find LockDataId_discrete id t) [ some q ↦ q | none ↦ empty_queue ]

unfoldable pub combine_table_lock : LockMode → LockMode → LockMode
combine_table_lock held req =
    if same_mode held exclusive || same_mode req exclusive
    then exclusive
    else if same_mode held s_ix || same_mode req s_ix
    then s_ix
    else if same_mode held shared && same_mode req intention_exclusive
        || same_mode held intention_exclusive && same_mode req shared
    then s_ix
    else if same_mode held shared || same_mode req shared
    then shared
    else if same_mode held intention_exclusive || same_mode req intention_exclusive
    then intention_exclusive
    else intention_shared

-- one round of the loop of `update_group_lock_mode`, where it goes on
unfoldable pub join_group : GroupLockMode → LockMode → GroupLockMode
join_group non_lock shared = s
join_group is shared = s
join_group non_lock intention_shared = is
join_group non_lock intention_exclusive = ix
join_group is intention_exclusive = ix
join_group g m = g

-- the loop, which an exclusive or an S_IX request ends
unfoldable pub group_of : GroupLockMode → List LockRequest → GroupLockMode
unfolding join_group
group_of g [] = g
group_of g (r ∷ rs) = if not r.granted then group_of g rs else elim r.lock_mode [
  | exclusive ↦ x
  | s_ix ↦ six
  | shared ↦ group_of (join_group g shared) rs
  | intention_shared ↦ group_of (join_group g intention_shared) rs
  | intention_exclusive ↦ group_of (join_group g intention_exclusive) rs
]

unfoldable pub update_group_lock_mode : LockRequestQueue → LockRequestQueue
unfolding group_of
update_group_lock_mode q = record q { group_lock_mode = group_of non_lock q.request_queue }

unfoldable pub table_conflict : LockMode → GroupLockMode → Bool
table_conflict intention_shared x = true
table_conflict intention_shared held = false
table_conflict intention_exclusive s = true
table_conflict intention_exclusive x = true
table_conflict intention_exclusive six = true
table_conflict intention_exclusive held = false
table_conflict shared ix = true
table_conflict shared x = true
table_conflict shared six = true
table_conflict shared held = false
table_conflict exclusive non_lock = false
table_conflict exclusive held = true
table_conflict s_ix non_lock = false
table_conflict s_ix held = true

unfoldable pub record_conflict : LockMode → LockMode → Bool
record_conflict request held =
    if same_mode request shared
    then same_mode held exclusive
    else same_mode held shared || same_mode held exclusive

-- What a call makes of one queue: it is granted, with the new queue, or the transaction aborts.
pub data Verdict : Type 0 where
  allow : LockRequestQueue → Verdict
  deny : AbortReason → Verdict

-- A call returns true, or throws `TransactionAbortException`; both keep what was changed.
pub data LockResult : Type 0 where
  locked : Transaction → LockTable → LockResult
  refused : AbortReason → Transaction → LockTable → LockResult

abbrev pub own : ℕ → LockRequest → Bool
own txn r = r.txn_id == txn

-- a granted request of another transaction
abbrev pub held_by_other : ℕ → LockRequest → Bool
held_by_other txn r = r.granted && not (r.txn_id == txn)

unfoldable pub any_request : (LockRequest → Bool) → List LockRequest → Bool
any_request p [] = false
any_request p (r ∷ rs) = p r || any_request p rs

-- the first request that passes the test
unfoldable pub first_request : (LockRequest → Bool) → List LockRequest → Option LockRequest
first_request p [] = none
first_request p (r ∷ rs) = if p r then some r else first_request p rs

-- the first request that passes the test is changed
unfoldable pub update_first :
    (LockRequest → Bool) → (LockRequest → LockRequest) → List LockRequest → List LockRequest
update_first p f [] = []
update_first p f (r ∷ rs) = if p r then f r ∷ rs else r ∷ update_first p f rs

unfoldable pub erase_first : (LockRequest → Bool) → List LockRequest → List LockRequest
erase_first p [] = []
erase_first p (r ∷ rs) = if p r then rs else r ∷ erase_first p rs

-- The transaction's request is changed and granted, or a new one is put at the end.
unfoldable pub grant : ℕ → LockMode → (LockMode → LockMode) → List LockRequest → List LockRequest
unfolding first_request update_first
grant txn mode change rs = elim (first_request (own txn) rs) [
  | some _ ↦
      update_first (own txn) (λ r. record r { lock_mode = change r.lock_mode; granted = true }) rs
  | none ↦ rs ++ record { txn_id = txn; lock_mode = mode; granted = true } ∷ []
]

unfoldable pub lock_mem : LockDataId → List LockDataId → Bool
lock_mem id [] = false
lock_mem id (i ∷ l) = ite (LockDataId_discrete i id) true (lock_mem id l)

-- lock_set_->insert(lock_data_id)
unfoldable pub insert_lock : LockDataId → Transaction → Transaction
insert_lock id t = if lock_mem id t.lock_set then t else record t { lock_set = id ∷ t.lock_set }

unfoldable pub remove_lock : LockDataId → List LockDataId → List LockDataId
remove_lock id [] = []
remove_lock id (i ∷ l) = ite (LockDataId_discrete i id) (remove_lock id l) (i ∷ remove_lock id l)

-- lock_set_->erase(lock_data_id)
unfoldable pub erase_lock : LockDataId → Transaction → Transaction
erase_lock id t = record t { lock_set = remove_lock id t.lock_set }

-- The verdict on the queue of `id`, which is made if it is missing, also when the call throws.
unfoldable pub settle : LockDataId → Transaction → LockTable → Verdict → LockResult
unfolding queue_at insert_lock
settle id t table (allow q) = locked (insert_lock id t) (assign LockDataId_discrete id q table)
settle id t table (deny reason) =
    refused reason t (assign LockDataId_discrete id (queue_at id table) table)

abbrev pub is_shrinking : TransactionState → Bool
is_shrinking shrinking = true
is_shrinking _ = false

-- `check_growing`, then the call on a transaction that is growing
unfoldable pub with_growing : Transaction → LockTable → (Transaction → LockResult) → LockResult
with_growing t table call =
    if is_shrinking t.state
    then refused lock_on_shrinking t table
    else call (record t { state = growing })

abbrev pub is_empty : List LockRequest → Bool
is_empty [] = true
is_empty _ = false

-- A queue that has become empty is taken out of the table.
unfoldable pub keep_queue : LockDataId → List LockRequest → LockTable → LockTable
unfolding update_group_lock_mode
keep_queue id rest table =
    if is_empty rest
    then erase LockDataId_discrete id table
    else assign LockDataId_discrete id
        (update_group_lock_mode (record { request_queue = rest; group_lock_mode = non_lock })) table

unfoldable pub unlock_queue :
    Transaction → LockTable → LockDataId → LockRequestQueue → Bool × Transaction × LockTable
unfolding first_request erase_first keep_queue erase_lock
unlock_queue t table id q = elim (first_request (own t.txn_id) q.request_queue) [
  | none ↦ (false, t, table)
  | some _ ↦
      (true, erase_lock id t, keep_queue id (erase_first (own t.txn_id) q.request_queue) table)
]

unfoldable pub unlock : Transaction → LockTable → LockDataId → Bool × Transaction × LockTable
unfolding unlock_queue
unlock t table id =
    let released = record t { state = shrinking } in
    elim (find LockDataId_discrete id table) [
      | none ↦ (false, released, table)
      | some q ↦ unlock_queue released table id q
    ]
