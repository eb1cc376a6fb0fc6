-- ===== src/Transaction/Abort.antt =====
-- `abort`: every write is undone, the last first, before a lock is released.
use db_smw.Common.{ℕ, ◌≡◌, refl, sym, ap, subst, ◌∙◌, List, [], ◌∷◌, ◌++◌, false, arith}
use db_smw.Common.Int.{pos}
use db_smw.Common.Memory.{Memory}
use db_smw.Common.Words.{bytes, int_bytes}
use db_smw.Storage.Disk.{Outcome, ok, throw, ◌>>=◌}
use db_smw.Transaction.{WriteRecord, aborted}
use db_smw.Transaction.Manager.{
  Storage, Server, is_empty, release_all_locks, log_of_txn, log_abort, release, undo_writes,
  end_abort, abort, with_db,
}
use db_smw.Transaction.Commit.{
  chained, Written, after-Written, log_of_txn-Appended, release_locks-write_set,
}
use db_smw.Log.{LogRecord, abort_log, new_abort_log}
use db_smw.Log.Format.{encode}
use db_smw.Log.Device.{LogDevice, IsLogDevice}
use db_smw.Log.Manager.{set_lsn}
use db_smw.Log.Append.{encode_all}
use db_smw.Log.Durable.{IsLogged}

-- The writes of the list are undone from the first on.
pub data Undoes {Db : Type 0} (storage : Storage Db) : List WriteRecord → Db → Db → Type 0 where
  nothing : (db : Db) → Undoes storage [] db db
  undone :
      (w : WriteRecord) (ws : List WriteRecord) (a b c : Db)
      → storage.undo_write_record w a ≡ ok b
      → Undoes storage ws b c
      → Undoes storage (w ∷ ws) a c

module _ {File Db : Type 0} (dev : LogDevice File) (contents : File → List ℕ) (garbage : Memory)
    (storage : Storage Db) where
  -- the record that `abort` writes
  unfoldable pub abort_record : Server File Db → LogRecord
  unfolding new_abort_log
  abort_record s =
      set_lsn s.log_manager.global_lsn
        (chained s.txn.prev_lsn (abort_log (new_abort_log (pos s.txn.txn_id))))

  -- The locks are as they were.
  abbrev pub Locked : Server File Db → Server File Db → Type 0
  Locked s s1 = (s1.txn.lock_set ≡ s.txn.lock_set) × (s1.lock_table ≡ s.lock_table)

  -- What each outcome of `abort` means.
  abbrev pub Aborted :
      Server File Db → List LogRecord → Outcome (Server File Db) (Server File Db) → Type 0
  Aborted s rs (ok s1) =
      Undoes storage s.txn.write_set s.db s1.db
      × (contents s1.log_manager.file ≡ encode_all (rs ++ abort_record s ∷ []))
      × (s1.txn.state ≡ aborted)
      × (s1.txn.lock_set ≡ [])
      × (s1.txn.write_set ≡ [])
  Aborted s rs (throw e s1) = Locked s s1

  pub record Unwritten (s : Server File Db) (ws : List WriteRecord) (s1 : Server File Db)
      : Type 0 where
    pub db : Undoes storage ws s.db s1.db
    pub txn : s1.txn ≡ record s.txn { write_set = [] }
    pub log_manager : s1.log_manager ≡ s.log_manager
    pub lock_table : s1.lock_table ≡ s.lock_table

  abbrev pub Undone :
      Server File Db → List WriteRecord → Outcome (Server File Db) (Server File Db) → Type 0
  Undone s ws (ok s1) = Unwritten s ws s1
  Undone s ws (throw e s1) = Locked s s1

  more-Undone :
      (w : WriteRecord) (ws : List WriteRecord) (s : Server File Db) (db : Db)
      → storage.undo_write_record w s.db ≡ ok db
      → (o : Outcome (Server File Db) (Server File Db))
      → Undone (record s { txn = record s.txn { write_set = ws }; db = db }) ws o
      → Undone s (w ∷ ws) o
  more-Undone w ws s db e (throw f s1) locked = locked
  more-Undone w ws s db e (ok s1) u = record {
    db = undone w ws s.db db s1.db e u.db;
    txn = u.txn;
    log_manager = u.log_manager;
    lock_table = u.lock_table;
  }

  undo_first :
      (w : WriteRecord) (ws : List WriteRecord) (s : Server File Db)
      → ((t : Server File Db) → Undone t ws (undo_writes dev garbage storage ws t))
      → (o : Outcome Db Db) → storage.undo_write_record w s.db ≡ o
      → Undone s (w ∷ ws) (
          with_db (record s { txn = record s.txn { write_set = ws } }) o
          >>= undo_writes dev garbage storage ws)
  undo_first w ws s others (throw f db) e = (refl, refl)
  undo_first w ws s others (ok db) e =
      let t = record s { txn = record s.txn { write_set = ws }; db = db } in
      more-Undone w ws s db e (undo_writes dev garbage storage ws t) (others t)

  pub undo_writes-Undone :
      (ws : List WriteRecord) (s : Server File Db)
      → Undone s ws (undo_writes dev garbage storage ws s)
  unfolding undo_writes
  undo_writes-Undone [] s = record {
    db = nothing s.db;
    txn = refl;
    log_manager = refl;
    lock_table = refl;
  }
  undo_writes-Undone (w ∷ ws) s =
      undo_first w ws s (undo_writes-Undone ws) (storage.undo_write_record w s.db) refl

  module _ (laws : IsLogDevice dev contents) where
    pub log_abort-Written :
        (s : Server File Db) (rs : List LogRecord)
        → IsLogged dev contents s.log_manager rs
        → Written dev contents s (rs ++ abort_record s ∷ []) (log_abort dev garbage s)
    unfolding log_abort new_abort_log encode bytes int_bytes abort_record
    log_abort-Written s rs v =
        let log = abort_log (new_abort_log (pos s.txn.txn_id)) in
        after-Written dev contents laws garbage s rs (abort_record s) (log_of_txn dev garbage log s)
          (log_of_txn-Appended dev contents laws garbage s rs log v refl (omega arith))

    -- After the writes are undone.
    after-Aborted :
        (s s1 : Server File Db) (rs : List LogRecord)
        → Unwritten s s.txn.write_set s1
        → (o : Outcome (Server File Db) (Server File Db))
        → Written dev contents s1 (rs ++ abort_record s ∷ []) o
        → Aborted s rs (o >>= end_abort dev garbage)
    unfolding end_abort release release_all_locks
    after-Aborted s s1 rs u (throw e s2) kept =
        (kept.lock_set ∙ ap (λ t. t.lock_set) u.txn, kept.lock_table ∙ u.lock_table)
    after-Aborted s s1 rs u (ok s2) (there, kept) = (
      subst (Undoes storage s.txn.write_set s.db) (sym kept.db) u.db,
      there,
      refl,
      refl,
      release_locks-write_set s2.txn.lock_set s2.txn s2.lock_table
          ∙ kept.write_set
          ∙ ap (λ t. t.write_set) u.txn,
    )

    abort_record-same :
        (s s1 : Server File Db) → Unwritten s s.txn.write_set s1 → abort_record s1 ≡ abort_record s
    unfolding abort_record
    abort_record-same s s1 u = cc (u.txn, u.log_manager)

    after-Undone :
        (s : Server File Db) (rs : List LogRecord)
        → IsLogged dev contents s.log_manager rs
        → (o : Outcome (Server File Db) (Server File Db)) → Undone s s.txn.write_set o
        → Aborted s rs (o >>= λ s1. log_abort dev garbage s1 >>= end_abort dev garbage)
    after-Undone s rs v (throw e s1) locked = locked
    after-Undone s rs v (ok s1) u = after-Aborted s s1 rs u (log_abort dev garbage s1) (
        subst (λ r. Written dev contents s1 (rs ++ r ∷ []) (log_abort dev garbage s1))
          (abort_record-same s s1 u)
          (log_abort-Written s1 rs (subst (λ g. IsLogged dev contents g rs) (sym u.log_manager) v)))

    -- For a transaction that has written: where `abort` returns, its writes are undone one after another,
    -- the last first, its abort record is in the log file, behind all others, and it has no locks and no
    -- writes; where it throws, it still has its locks.
    pub abort-Aborted :
        (s : Server File Db) (rs : List LogRecord)
        → IsLogged dev contents s.log_manager rs
        → is_empty s.txn.write_set ≡ false
        → Aborted s rs (abort dev garbage storage s)
    unfolding abort
    abort-Aborted s rs v writes = rw writes (
        after-Undone s rs v (undo_writes dev garbage storage s.txn.write_set s)
          (undo_writes-Undone s.txn.write_set s))
