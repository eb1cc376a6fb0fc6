-- ===== src/Transaction/Commit.antt =====
-- `commit`: the commit record is in the log file before a lock is released.
use db_smw.Common.{
  ℕ, ◌≤◌, ◌≡◌, ◌≢◌, ◌⊎◌, inl, inr, refl, sym, subst, ◌∙◌, List, [], ◌∷◌, ◌++◌, true, false, if_neg,
  arith, Option-cases,
}
use db_smw.Common.Int.{ℤ, pos, ℤ_discrete}
use db_smw.Common.Memory.{Memory}
use db_smw.Storage.Disk.{Outcome, ok, throw, ◌>>=◌}
use db_smw.Transaction.{LockDataId, LockDataId_discrete, Transaction, committed}
use db_smw.Common.Assoc.{find}
use db_smw.Lock.{LockTable, unlock, unlock_queue, erase_lock}
use db_smw.Transaction.Manager.{
  Storage, Server, is_empty, release_locks, release_all_locks, end_commit, log_of_txn,
  ensure_txn_logged, flush_log, log_commit, release, commit, with_log, with_db,
}
use db_smw.Log.{LogRecord, header_of, with_header, commit_log, new_commit_log, invalid_lsn}
use db_smw.Common.Words.{bytes, int_bytes}
use db_smw.Log.Format.{encode}
use db_smw.Log.Device.{LogDevice, IsLogDevice}
use db_smw.Log.Manager.{LogManager, set_lsn, add_log_to_buffer, flush_log_to_disk, log_buffer_size}
use db_smw.Log.Append.{IsSized, encode_all}
use db_smw.Log.Durable.{
  IsLogged, Added, Flushed, add_log_to_buffer-Added, flush_log_to_disk-Flushed,
}

unlock-write_set :
    (t : Transaction) (table : LockTable) (id : LockDataId)
    → (unlock t table id).1.write_set ≡ t.write_set
unfolding unlock unlock_queue erase_lock
unlock-write_set t table id = elim (Option-cases (find LockDataId_discrete id table)) [
  | inl e ↦ rw (e, unlock) refl
  | inr (q, e) ↦ rw (e, unlock) (ground arith)
]

pub release_locks-write_set :
    (ids : List LockDataId) (t : Transaction) (table : LockTable)
    → (release_locks ids t table).0.write_set ≡ t.write_set
unfolding release_locks
release_locks-write_set [] t table = refl
release_locks-write_set (id ∷ ids) t table =
    release_locks-write_set ids (unlock t table id).1 (unlock t table id).2
    ∙ unlock-write_set t table id

abbrev pub chained : ℤ → LogRecord → LogRecord
chained prev log = with_header (record (header_of log) { prev_lsn = prev }) log

module _ {File Db : Type 0} (dev : LogDevice File) (contents : File → List ℕ) where
  -- the record that `commit` writes
  unfoldable pub commit_record : Server File Db → LogRecord
  unfolding new_commit_log
  commit_record s =
      set_lsn s.log_manager.global_lsn
        (chained s.txn.prev_lsn (commit_log (new_commit_log (pos s.txn.txn_id))))

  -- The id, the locks, the writes and the tables are as they were.
  pub record Kept (s s1 : Server File Db) : Type 0 where
    pub lock_set : s1.txn.lock_set ≡ s.txn.lock_set
    pub write_set : s1.txn.write_set ≡ s.txn.write_set
    pub lock_table : s1.lock_table ≡ s.lock_table
    pub db : s1.db ≡ s.db
    pub txn_id : s1.txn.txn_id ≡ s.txn.txn_id

  abbrev pub Appended :
      Server File Db
      → List LogRecord
      → LogRecord
      → Outcome (Server File Db) (Server File Db)
      → Type 0
  Appended s rs r (ok s1) = IsLogged dev contents s1.log_manager (rs ++ r ∷ []) × Kept s s1
  Appended s rs r (throw e s1) = Kept s s1

  abbrev pub Written :
      Server File Db → List LogRecord → Outcome (Server File Db) (Server File Db) → Type 0
  Written s rs (ok s1) = (contents s1.log_manager.file ≡ encode_all rs) × Kept s s1
  Written s rs (throw e s1) = Kept s s1

  -- Where `commit` returns, the commit record is in the file, and the transaction has no locks and no
  -- writes; where it throws, it has kept its locks, or the record is in the file.
  abbrev pub Committed :
      Server File Db → List LogRecord → Outcome (Server File Db) (Server File Db) → Type 0
  Committed s rs (ok s1) =
      (contents s1.log_manager.file ≡ encode_all (rs ++ commit_record s ∷ []))
      × (s1.txn.state ≡ committed)
      × (s1.txn.lock_set ≡ [])
      × (s1.txn.write_set ≡ [])
  Committed s rs (throw e s1) =
      Kept s s1 ⊎ (contents s1.log_manager.file ≡ encode_all (rs ++ commit_record s ∷ []))

  Kept-trans : (s s1 s2 : Server File Db) → Kept s s1 → Kept s1 s2 → Kept s s2
  Kept-trans s s1 s2 k l = record {
    lock_set = l.lock_set ∙ k.lock_set;
    write_set = l.write_set ∙ k.write_set;
    lock_table = l.lock_table ∙ k.lock_table;
    db = l.db ∙ k.db;
    txn_id = l.txn_id ∙ k.txn_id;
  }

  written_kept :
      (s s1 : Server File Db) (rs : List LogRecord)
      → Kept s s1
      → (o : Outcome (Server File Db) (Server File Db)) → Written s1 rs o
      → Written s rs o
  written_kept s s1 rs k (ok s2) (there, l) = (there, Kept-trans s s1 s2 k l)
  written_kept s s1 rs k (throw e s2) l = Kept-trans s s1 s2 k l

  module _ (laws : IsLogDevice dev contents) (garbage : Memory) where
    appended :
        (s : Server File Db) (rs : List LogRecord) (r : LogRecord)
        (o : Outcome (LogManager File) (LogRecord × LogManager File))
        → Added dev contents s.log_manager rs r o
        → Appended s rs (set_lsn s.log_manager.global_lsn r) (
            with_log s o (λ (written, g). ok (record s {
              log_manager = g;
              txn = record s.txn { prev_lsn = (header_of written).lsn };
            })))
    appended s rs r (ok (log, g)) (same, logged, next) = (
      subst (λ x. IsLogged dev contents g (rs ++ x ∷ [])) same logged,
      record { lock_set = refl; write_set = refl; lock_table = refl; db = refl; txn_id = refl },
    )
    appended s rs r (throw e g) torn = record {
      lock_set = refl;
      write_set = refl;
      lock_table = refl;
      db = refl;
      txn_id = refl;
    }

    pub log_of_txn-Appended :
        (s : Server File Db) (rs : List LogRecord) (log : LogRecord)
        → IsLogged dev contents s.log_manager rs
        → IsSized (chained s.txn.prev_lsn log)
        → (header_of (chained s.txn.prev_lsn log)).log_tot_len ≤ log_buffer_size
        → Appended s rs
            (set_lsn s.log_manager.global_lsn (chained s.txn.prev_lsn log))
            (log_of_txn dev garbage log s)
    unfolding log_of_txn
    log_of_txn-Appended s rs log v sized fits =
        let r = chained s.txn.prev_lsn log in
        appended s rs r (add_log_to_buffer dev garbage r s.log_manager)
          (add_log_to_buffer-Added dev contents laws garbage s.log_manager rs r v sized fits)

    written :
        (s : Server File Db) (rs : List LogRecord) (o : Outcome (LogManager File) (LogManager File))
        → Flushed dev contents s.log_manager rs o
        → Written s rs (with_log s o (λ g. ok (record s { log_manager = g })))
    written s rs (ok g) f = (
      f.1,
      record { lock_set = refl; write_set = refl; lock_table = refl; db = refl; txn_id = refl },
    )
    written s rs (throw e g) f = record {
      lock_set = refl;
      write_set = refl;
      lock_table = refl;
      db = refl;
      txn_id = refl;
    }

    flush_log-Written :
        (s : Server File Db) (rs : List LogRecord)
        → IsLogged dev contents s.log_manager rs
        → Written s rs (flush_log dev garbage s)
    unfolding flush_log
    flush_log-Written s rs v =
        written s rs (flush_log_to_disk dev s.log_manager)
          (flush_log_to_disk-Flushed dev contents laws s.log_manager rs v)

    pub after-Written :
        (s : Server File Db) (rs : List LogRecord) (r : LogRecord)
        (o : Outcome (Server File Db) (Server File Db))
        → Appended s rs r o
        → Written s (rs ++ r ∷ []) (o >>= flush_log dev garbage)
    after-Written s rs r (throw e s1) kept = kept
    after-Written s rs r (ok s1) (logged, kept) =
        written_kept s s1 (rs ++ r ∷ []) kept (flush_log dev garbage s1)
          (flush_log-Written s1 (rs ++ r ∷ []) logged)

    -- A transaction whose begin is in the log: its commit record is written behind the others.
    pub log_commit-Written :
        (s : Server File Db) (rs : List LogRecord)
        → IsLogged dev contents s.log_manager rs
        → s.txn.prev_lsn ≢ invalid_lsn
        → Written s (rs ++ commit_record s ∷ []) (log_commit dev garbage s)
    unfolding log_commit ensure_txn_logged new_commit_log encode bytes int_bytes commit_record
    log_commit-Written s rs v begun =
        let log = commit_log (new_commit_log (pos s.txn.txn_id)) in
        let known = if_neg (ℤ_discrete s.txn.prev_lsn invalid_lsn) begun _ (ok s) in
        subst
          (λ o. Written s (rs ++ commit_record s ∷ []) (
            o >>= λ s1.
            log_of_txn dev garbage (commit_log (new_commit_log (pos s1.txn.txn_id))) s1
            >>= flush_log dev garbage))
          (sym known)
          (after-Written s rs (commit_record s) (log_of_txn dev garbage log s)
            (log_of_txn-Appended s rs log v refl (omega arith)))

    flushed_pages :
        (storage : Storage Db) (s s1 : Server File Db) (rs : List LogRecord)
        → contents s1.log_manager.file ≡ encode_all (rs ++ commit_record s ∷ [])
        → s1.txn.lock_set ≡ []
        → s1.txn.write_set ≡ []
        → (o : Outcome Db Db)
        → Committed s rs
            (with_db s1 o >>= λ s2. ok (record s2 { txn = record s2.txn { state = committed } }))
    flushed_pages storage s s1 rs there locks writes (ok db) = (there, refl, locks, writes)
    flushed_pages storage s s1 rs there locks writes (throw e db) = inr there

    after-Committed :
        (storage : Storage Db) (s : Server File Db) (rs : List LogRecord)
        → (o : Outcome (Server File Db) (Server File Db)) → Written s (rs ++ commit_record s ∷ []) o
        → Committed s rs (o >>= end_commit dev garbage storage true)
    unfolding end_commit release release_all_locks
    after-Committed storage s rs (throw e s1) kept = inl kept
    after-Committed storage s rs (ok s1) (there, kept) =
        let t = record s1.txn { write_set = [] } in
        let s2 = release dev garbage (record s1 { txn = t }) in
        flushed_pages storage s s2 rs there refl
          (release_locks-write_set t.lock_set t s1.lock_table) (storage.flush_all_dirty_pages s2.db)

    -- For a transaction that has written and whose begin is in the log: where `commit` returns, its
    -- commit record is in the log file, behind all others, and it has no locks and no writes; where it
    -- throws, its locks and writes and the tables are as they were, or the record is in the file.
    pub commit-Committed :
        (storage : Storage Db) (s : Server File Db) (rs : List LogRecord)
        → IsLogged dev contents s.log_manager rs
        → s.txn.prev_lsn ≢ invalid_lsn
        → is_empty s.txn.write_set ≡ false
        → Committed s rs (commit dev garbage storage s)
    unfolding commit
    commit-Committed storage s rs v begun writes =
        rw writes (
          after-Committed storage s rs (log_commit dev garbage s) (log_commit-Written s rs v begun))
