-- ===== src/Transaction/Manager.antt =====
-- transaction/transaction_manager.cpp: begin, commit and abort, on pointers that are not null. The tables and
-- their indexes are the parameter `Storage`. `txn_map` is a static map: its keys are the ids of all
-- transactions, and each leads to the object of that id.
use db_smw.Common.{
  ℕ, suc, List, [], ◌∷◌, Bool, true, false, not, if◌then◌else◌, ite, Option, none, some,
}
use db_smw.Common.Int.{pos, ℤ_discrete}
use db_smw.Common.Memory.{Memory}
use db_smw.Storage.Disk.{Outcome, ok, throw, ◌>>=◌}
use db_smw.Transaction.{
  WriteRecord, LockDataId, Transaction, new_transaction, growing, committed, aborted,
}
use db_smw.Lock.{LockTable, unlock}
use db_smw.Log.{
  LogRecord, header_of, begin_log, commit_log, abort_log, new_begin_log, new_commit_log,
  new_abort_log, with_header, invalid_lsn,
}
use db_smw.Log.Device.{LogDevice}
use db_smw.Log.Manager.{LogManager, add_log_to_buffer, flush_log_to_disk}

pub record TransactionManager : Type 0 where
  pub next_txn_id : ℕ
  pub next_timestamp : ℕ
  pub txn_map : List ℕ

-- a new object where none is given
unfoldable pub begin : Option Transaction → TransactionManager → Transaction × TransactionManager
unfolding new_transaction
begin (some t) tm = (record t { state = growing }, tm)
begin none tm = (
  record (new_transaction tm.next_txn_id) { state = growing },
  record {
    next_txn_id = suc tm.next_txn_id;
    next_timestamp = suc tm.next_timestamp;
    txn_map = tm.next_txn_id ∷ tm.txn_map;
  },
)

unfoldable pub set_next_txn_id : ℕ → TransactionManager → TransactionManager
set_next_txn_id txn_id tm = record tm { next_txn_id = txn_id }

abbrev pub is_empty : List WriteRecord → Bool
is_empty [] = true
is_empty (w ∷ ws) = false

unfoldable pub release_locks : List LockDataId → Transaction → LockTable → Transaction × LockTable
unfolding unlock
release_locks [] t table = (t, table)
release_locks (id ∷ ids) t table =
    let (found, t1, table1) = unlock t table id in release_locks ids t1 table1

-- over a copy of the lock set, which is cleared at the end
unfoldable pub release_all_locks : Transaction → LockTable → Transaction × LockTable
unfolding release_locks
release_all_locks t table =
    let (t1, table1) = release_locks t.lock_set t table in (record t1 { lock_set = [] }, table1)

-- What `undo_write_record` and `flush_all_dirty_pages` do to the tables, `Db`.
pub record Storage (Db : Type 0) : Type 0 where
  pub undo_write_record : WriteRecord → Db → Outcome Db Db
  pub flush_all_dirty_pages : Db → Outcome Db Db

-- What a call can change.
pub record Server (File Db : Type 0) : Type 0 where
  pub txn : Transaction
  pub log_manager : LogManager File
  pub lock_table : LockTable
  pub db : Db

module _ {File Db : Type 0} where
  -- a call of the log manager
  abbrev pub with_log :
      {A : Type 0}
      → Server File Db
      → Outcome (LogManager File) A
      → (A → Outcome (Server File Db) (Server File Db))
      → Outcome (Server File Db) (Server File Db)
  with_log s (ok a) next = next a
  with_log s (throw e g) next = throw e (record s { log_manager = g })

  -- a call on the tables
  abbrev pub with_db : Server File Db → Outcome Db Db → Outcome (Server File Db) (Server File Db)
  with_db s (ok db) = ok (record s { db = db })
  with_db s (throw e db) = throw e (record s { db = db })

  module _ (dev : LogDevice File) (garbage : Memory) where
    -- `log` with the prev_lsn of the transaction is appended, and the transaction's is its lsn.
    unfoldable pub log_of_txn :
        LogRecord → Server File Db → Outcome (Server File Db) (Server File Db)
    unfolding add_log_to_buffer
    log_of_txn log s =
        let chained = with_header (record (header_of log) { prev_lsn = s.txn.prev_lsn }) log in
        with_log s (add_log_to_buffer dev garbage chained s.log_manager) (λ (written, g).
          ok (record s {
            log_manager = g;
            txn = record s.txn { prev_lsn = (header_of written).lsn };
          }))

    unfoldable pub ensure_txn_logged : Server File Db → Outcome (Server File Db) (Server File Db)
    unfolding log_of_txn new_begin_log ℤ_discrete
    ensure_txn_logged s =
        ite (ℤ_discrete s.txn.prev_lsn invalid_lsn)
          (log_of_txn (begin_log (new_begin_log (pos s.txn.txn_id))) s) (ok s)

    unfoldable pub flush_log : Server File Db → Outcome (Server File Db) (Server File Db)
    unfolding flush_log_to_disk
    flush_log s =
        with_log s (flush_log_to_disk dev s.log_manager) (λ g. ok (record s { log_manager = g }))

    -- the commit of a transaction that has written
    unfoldable pub log_commit : Server File Db → Outcome (Server File Db) (Server File Db)
    unfolding ensure_txn_logged log_of_txn new_commit_log flush_log
    log_commit s = do
      s1 ← ensure_txn_logged s
      s2 ← log_of_txn (commit_log (new_commit_log (pos s1.txn.txn_id))) s1
      flush_log s2

    unfoldable pub log_abort : Server File Db → Outcome (Server File Db) (Server File Db)
    unfolding log_of_txn new_abort_log flush_log
    log_abort s = do s1 ← log_of_txn (abort_log (new_abort_log (pos s.txn.txn_id))) s; flush_log s1

    -- the locks, as the last thing but the state
    unfoldable pub release : Server File Db → Server File Db
    unfolding release_all_locks
    release s =
        let (t, table) = release_all_locks s.txn s.lock_table in
        record s { txn = t; lock_table = table }

    -- `commit` from `clear_write_set` on
    unfoldable pub end_commit :
        Storage Db → Bool → Server File Db → Outcome (Server File Db) (Server File Db)
    unfolding release
    end_commit storage had_writes s = do
      let s1 = release (record s { txn = record s.txn { write_set = [] } })
      s2 ← if had_writes then with_db s1 (storage.flush_all_dirty_pages s1.db) else ok s1
      ok (record s2 { txn = record s2.txn { state = committed } })

    unfoldable pub commit : Storage Db → Server File Db → Outcome (Server File Db) (Server File Db)
    unfolding log_commit end_commit
    commit storage s = do
      let had_writes = not (is_empty s.txn.write_set)
      s1 ← if had_writes then log_commit s else ok s
      end_commit storage had_writes s1

    -- the last write first; a write is taken off before it is undone
    unfoldable pub undo_writes :
        Storage Db → List WriteRecord → Server File Db → Outcome (Server File Db) (Server File Db)
    undo_writes storage [] s = ok (record s { txn = record s.txn { write_set = [] } })
    undo_writes storage (w ∷ ws) s = do
      s1 ←
          with_db (record s { txn = record s.txn { write_set = ws } })
            (storage.undo_write_record w s.db)
      undo_writes storage ws s1

    -- `abort` from `release_all_locks` on
    unfoldable pub end_abort : Server File Db → Outcome (Server File Db) (Server File Db)
    unfolding release
    end_abort s = let s1 = release s in ok (record s1 { txn = record s1.txn { state = aborted } })

    unfoldable pub abort : Storage Db → Server File Db → Outcome (Server File Db) (Server File Db)
    unfolding undo_writes log_abort end_abort
    abort storage s = do
      let had_writes = not (is_empty s.txn.write_set)
      s1 ← undo_writes storage s.txn.write_set s
      s2 ← if had_writes then log_abort s1 else ok s1
      end_abort s2
