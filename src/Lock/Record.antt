-- ===== src/Lock/Record.antt =====
-- transaction/concurrency/lock_manager.cpp: locks on records.
use db_smw.Common.{ℕ, Bool, true, false, not, ◌&&◌, ◌||◌, none, some, if◌then◌else◌}
use db_smw.Common.Int.{ℤ}
use db_smw.Common.Assoc.{assign}
use db_smw.Transaction.{
  Rid, table_id, record_id, Transaction, deadlock_prevention, upgrade_conflict, LockDataId_discrete,
}
use db_smw.Lock.{
  LockMode, exclusive, shared, GroupLockMode, s, x, six, same_mode, LockRequest, LockRequestQueue,
  LockTable, LockResult, refused, Verdict, allow, deny, own, held_by_other, any_request,
  first_request, update_first, grant, queue_at, settle, with_growing, record_conflict,
}

abbrev is_x : GroupLockMode → Bool
is_x x = true
is_x _ = false

abbrev is_s_or_six : GroupLockMode → Bool
is_s_or_six s = true
is_s_or_six six = true
is_s_or_six _ = false

-- the tests on the table's queue
unfoldable pub table_blocks : ℕ → LockMode → LockRequestQueue → Bool
unfolding any_request
table_blocks txn mode q =
    (is_x q.group_lock_mode || same_mode mode exclusive && is_s_or_six q.group_lock_mode)
    && any_request (held_by_other txn) q.request_queue

-- the transaction's requests at which the first loop ends
unfoldable pub upgrades : LockMode → LockRequest → Bool
upgrades mode r = same_mode mode exclusive && same_mode r.lock_mode shared

unfoldable pub settles : ℕ → LockMode → LockRequest → Bool
unfolding upgrades
settles txn mode r = own txn r && r.granted && (upgrades mode r || same_mode r.lock_mode mode)

-- the requests for which the second loop throws
unfoldable pub record_stops : ℕ → LockMode → LockRequest → Bool
unfolding record_conflict
record_stops txn mode r = not (own txn r) && (not r.granted || record_conflict mode r.lock_mode)

-- a request that ends the first loop
unfoldable pub record_again : ℕ → LockMode → LockRequestQueue → LockRequest → Verdict
unfolding any_request update_first upgrades settles
record_again txn mode q held =
    if not (upgrades mode held)
    then allow q
    else if any_request (held_by_other txn) q.request_queue
    then deny upgrade_conflict
    else allow (record {
      request_queue =
          update_first (settles txn mode) (λ r. record r { lock_mode = exclusive }) q.request_queue;
      group_lock_mode = x;
    })

unfoldable pub record_verdict : ℕ → LockMode → LockRequestQueue → Verdict
unfolding settles record_again record_stops grant
record_verdict txn mode q = elim (first_request (settles txn mode) q.request_queue) [
  | some held ↦ record_again txn mode q held
  | none ↦
      if any_request (record_stops txn mode) q.request_queue
      then deny deadlock_prevention
      else allow (record {
        request_queue = grant txn mode (λ _. mode) q.request_queue;
        group_lock_mode = if same_mode mode shared then s else x;
      })
]

unfoldable pub lock_on_record : Transaction → LockTable → Rid → ℤ → LockMode → LockResult
unfolding with_growing table_blocks settle record_verdict queue_at
lock_on_record txn table rid tab_fd mode = with_growing txn table (λ t.
    let table_queue = queue_at (table_id tab_fd) table in
    let opened = assign LockDataId_discrete (table_id tab_fd) table_queue table in
    if table_blocks t.txn_id mode table_queue
    then refused deadlock_prevention t opened
    else settle (record_id tab_fd rid) t opened
        (record_verdict t.txn_id mode (queue_at (record_id tab_fd rid) opened)))

unfoldable pub lock_shared_on_record : Transaction → LockTable → Rid → ℤ → LockResult
unfolding lock_on_record
lock_shared_on_record txn table rid tab_fd = lock_on_record txn table rid tab_fd shared

unfoldable pub lock_exclusive_on_record : Transaction → LockTable → Rid → ℤ → LockResult
unfolding lock_on_record
lock_exclusive_on_record txn table rid tab_fd = lock_on_record txn table rid tab_fd exclusive
