-- ===== src/Transaction/Locks.antt =====
-- What `commit` and `abort` leave in the lock table.
use db_smw.Common.{ℕ, ◌≡◌, ◌≢◌, sym, ap, subst, ◌∙◌, List, [], ◌∷◌, ◌++◌, true, false}
use db_smw.Common.Memory.{Memory}
use db_smw.Storage.Disk.{Outcome, ok, throw, ◌>>=◌}
use db_smw.Transaction.{Transaction, committed}
use db_smw.Lock.{LockTable}
use db_smw.Transaction.Manager.{
  Storage, Server, is_empty, release_all_locks, release, end_commit, log_commit, commit, log_abort,
  undo_writes, end_abort, abort, with_db,
}
use db_smw.Transaction.Commit.{
  commit_record, Written, Committed, log_commit-Written, commit-Committed,
}
use db_smw.Transaction.Abort.{
  abort_record, Aborted, Undone, log_abort-Written, undo_writes-Undone, abort-Aborted,
}
use db_smw.Transaction.Release.{IsSingle, Freed, release_locks-Freed}
use db_smw.Log.{LogRecord, invalid_lsn}
use db_smw.Log.Device.{LogDevice, IsLogDevice}
use db_smw.Log.Durable.{IsLogged}

abbrev freed_table : Transaction → LockTable → LockTable
unfolding release_all_locks
freed_table t table = (release_all_locks t table).1

module _ {File Db : Type 0} (dev : LogDevice File) (contents : File → List ℕ)
    (garbage : Memory) where
  -- Where the call returns, the lock table has no request of the transaction for what it had locked, and
  -- the requests of the others.
  abbrev pub Released : Server File Db → Outcome (Server File Db) (Server File Db) → Type 0
  Released s (ok s1) = Freed s.txn.txn_id s.txn.lock_set s.lock_table s1.lock_table
  Released s (throw e s1) = Unit

  -- The transaction's id, its locks and the lock table are as they were.
  record SameLocks (s s1 : Server File Db) : Type 0 where
    txn_id : s1.txn.txn_id ≡ s.txn.txn_id
    lock_set : s1.txn.lock_set ≡ s.txn.lock_set
    lock_table : s1.lock_table ≡ s.lock_table

  release-Freed :
      (s s1 : Server File Db)
      → SameLocks s s1
      → IsSingle s.txn.txn_id s.lock_table
      → Freed s.txn.txn_id s.txn.lock_set s.lock_table (freed_table s1.txn s1.lock_table)
  unfolding freed_table release_all_locks
  release-Freed s s1 same single =
      subst (λ ids. Freed s.txn.txn_id ids s.lock_table (freed_table s1.txn s1.lock_table))
        same.lock_set
        (subst
          (λ table. Freed s.txn.txn_id s1.txn.lock_set table (freed_table s1.txn s1.lock_table))
          same.lock_table
          (release_locks-Freed s1.txn.lock_set s1.txn s1.lock_table s.txn.txn_id same.txn_id
            (subst (IsSingle s.txn.txn_id) (sym same.lock_table) single)))

  flushed-Released :
      (s s1 : Server File Db) (o : Outcome Db Db)
      → Freed s.txn.txn_id s.txn.lock_set s.lock_table s1.lock_table
      → Released s
          (with_db s1 o >>= λ s2. ok (record s2 { txn = record s2.txn { state = committed } }))
  flushed-Released s s1 (ok db) freed = freed
  flushed-Released s s1 (throw e db) freed = tt

  after-commit :
      (storage : Storage Db) (s : Server File Db) (rs : List LogRecord)
      → IsSingle s.txn.txn_id s.lock_table
      → (o : Outcome (Server File Db) (Server File Db)) → Written dev contents s rs o
      → Released s (o >>= end_commit dev garbage storage true)
  unfolding end_commit release freed_table release_all_locks
  after-commit storage s rs single (throw e s1) kept = tt
  after-commit storage s rs single (ok s1) (there, kept) =
      let t = record s1.txn { write_set = [] } in
      let s2 = release dev garbage (record s1 { txn = t }) in
      flushed-Released s s2 (storage.flush_all_dirty_pages s2.db) (
        release-Freed s (record s1 { txn = t })
          (record { txn_id = kept.txn_id; lock_set = kept.lock_set; lock_table = kept.lock_table })
          single)

  after-log_abort :
      (s s1 : Server File Db) (rs : List LogRecord)
      → IsSingle s.txn.txn_id s.lock_table
      → SameLocks s s1
      → (o : Outcome (Server File Db) (Server File Db)) → Written dev contents s1 rs o
      → Released s (o >>= end_abort dev garbage)
  unfolding end_abort release freed_table release_all_locks
  after-log_abort s s1 rs single same (throw e s2) kept = tt
  after-log_abort s s1 rs single same (ok s2) (there, kept) =
      release-Freed s s2
        (record {
          txn_id = kept.txn_id ∙ same.txn_id;
          lock_set = kept.lock_set ∙ same.lock_set;
          lock_table = kept.lock_table ∙ same.lock_table;
        })
        single

  module _ (storage : Storage Db) (laws : IsLogDevice dev contents) where
    -- For a transaction that has written, whose begin is in the log and which has at most one request in
    -- each queue of the lock table. Where `commit` returns, its commit record is in the log file, behind
    -- all others, its state is committed, it has no locks and no writes, the lock table has no request
    -- of it for anything that it had locked, and as many requests of each other transaction as before;
    -- where it throws, its locks and writes and the tables are as they were, or the record is in the file.
    pub commit-Released :
        (s : Server File Db) (rs : List LogRecord)
        → IsLogged dev contents s.log_manager rs
        → s.txn.prev_lsn ≢ invalid_lsn
        → is_empty s.txn.write_set ≡ false
        → IsSingle s.txn.txn_id s.lock_table
        → Committed dev contents s rs (commit dev garbage storage s)
          × Released s (commit dev garbage storage s)
    unfolding commit
    commit-Released s rs v begun writes single = (
      commit-Committed dev contents laws garbage storage s rs v begun writes,
      rw writes (
          after-commit storage s (rs ++ commit_record dev contents s ∷ []) single
            (log_commit dev garbage s) (log_commit-Written dev contents laws garbage s rs v begun)),
    )

    after-undo :
        (s : Server File Db) (rs : List LogRecord)
        → IsLogged dev contents s.log_manager rs
        → IsSingle s.txn.txn_id s.lock_table
        → (o : Outcome (Server File Db) (Server File Db))
        → Undone dev contents garbage storage s s.txn.write_set o
        → Released s (o >>= λ s1. log_abort dev garbage s1 >>= end_abort dev garbage)
    after-undo s rs v single (throw e s1) locked = tt
    after-undo s rs v single (ok s1) u =
        after-log_abort s s1 (rs ++ abort_record dev contents garbage storage s1 ∷ []) single
          (record {
            txn_id = ap (λ (t : Transaction). t.txn_id) u.txn;
            lock_set = ap (λ (t : Transaction). t.lock_set) u.txn;
            lock_table = u.lock_table;
          })
          (log_abort dev garbage s1)
          (log_abort-Written dev contents garbage storage laws s1 rs
            (subst (λ g. IsLogged dev contents g rs) (sym u.log_manager) v))

    -- For a transaction that has written and that has at most one request in each queue of the lock
    -- table. Where `abort` returns, its writes are undone one after another, the last first, its abort
    -- record is in the log file, behind all others, its state is aborted, it has no locks and no writes,
    -- the lock table has no request of it for anything that it had locked, and as many requests of each
    -- other transaction as before; where it throws, it still has its locks.
    pub abort-Released :
        (s : Server File Db) (rs : List LogRecord)
        → IsLogged dev contents s.log_manager rs
        → is_empty s.txn.write_set ≡ false
        → IsSingle s.txn.txn_id s.lock_table
        → Aborted dev contents garbage storage s rs (abort dev garbage storage s)
          × Released s (abort dev garbage storage s)
    unfolding abort
    abort-Released s rs v writes single = (
      abort-Aborted dev contents garbage storage laws s rs v writes,
      rw writes (
          after-undo s rs v single (undo_writes dev garbage storage s.txn.write_set s)
            (undo_writes-Undone dev contents garbage storage s.txn.write_set s)),
    )
