-- ===== src/Lock/Table.antt =====
-- transaction/concurrency/lock_manager.cpp: locks on tables.
use db_smw.Common.{ℕ, Bool, not, ◌&&◌, ◌||◌, none, some, if◌then◌else◌}
use db_smw.Common.Int.{ℤ}
use db_smw.Transaction.{table_id, Transaction, deadlock_prevention}
use db_smw.Lock.{
  LockMode, exclusive, shared, intention_shared, intention_exclusive, x, same_mode, LockRequest,
  LockRequestQueue, LockTable, LockResult, Verdict, allow, deny, own, held_by_other, any_request,
  first_request, update_first, grant, queue_at, settle, with_growing, combine_table_lock,
  table_conflict, update_group_lock_mode,
}

-- the request of a transaction that has the lock already
unfoldable pub table_again : ℕ → LockMode → LockRequestQueue → Verdict
unfolding any_request update_first combine_table_lock update_group_lock_mode
table_again txn mode q =
    if same_mode mode exclusive
    then (if any_request (held_by_other txn) q.request_queue
        then deny deadlock_prevention
        else allow (record {
          request_queue =
              update_first (λ r. own txn r && r.granted) (λ r. record r { lock_mode = exclusive })
                q.request_queue;
          group_lock_mode = x;
        }))
    else allow (
        update_group_lock_mode (record q {
          request_queue =
              update_first (λ r. own txn r && r.granted)
                (λ r. record r { lock_mode = combine_table_lock r.lock_mode mode }) q.request_queue;
        }))

-- the requests for which the second loop throws
unfoldable pub table_stops : ℕ → LockMode → LockRequestQueue → LockRequest → Bool
unfolding table_conflict
table_stops txn mode q r =
    not (own txn r) && (not r.granted || table_conflict mode q.group_lock_mode)

unfoldable pub table_verdict : ℕ → LockMode → LockRequestQueue → Verdict
unfolding table_again table_stops grant
table_verdict txn mode q = elim (first_request (λ r. own txn r && r.granted) q.request_queue) [
  | some _ ↦ table_again txn mode q
  | none ↦
      if any_request (table_stops txn mode q) q.request_queue
      then deny deadlock_prevention
      else allow (
          update_group_lock_mode (record q {
            request_queue = grant txn mode (λ held. combine_table_lock held mode) q.request_queue;
          }))
]

unfoldable pub lock_on_table : Transaction → LockTable → ℤ → LockMode → LockResult
unfolding with_growing settle table_verdict queue_at
lock_on_table txn table tab_fd mode = with_growing txn table (λ t.
    settle (table_id tab_fd) t table
      (table_verdict t.txn_id mode (queue_at (table_id tab_fd) table)))

unfoldable pub lock_shared_on_table : Transaction → LockTable → ℤ → LockResult
unfolding lock_on_table
lock_shared_on_table txn table tab_fd = lock_on_table txn table tab_fd shared

unfoldable pub lock_exclusive_on_table : Transaction → LockTable → ℤ → LockResult
unfolding lock_on_table
lock_exclusive_on_table txn table tab_fd = lock_on_table txn table tab_fd exclusive

unfoldable pub lock_is_on_table : Transaction → LockTable → ℤ → LockResult
unfolding lock_on_table
lock_is_on_table txn table tab_fd = lock_on_table txn table tab_fd intention_shared

unfoldable pub lock_ix_on_table : Transaction → LockTable → ℤ → LockResult
unfolding lock_on_table
lock_ix_on_table txn table tab_fd = lock_on_table txn table tab_fd intention_exclusive
