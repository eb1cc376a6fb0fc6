-- ===== src/Transaction/Recovered.antt =====
-- A commit that has returned is found by the analysis of the log.
use db_smw.Common.{
  ℕ, suc, ◌^◌, ◌<◌, ◌≡◌, ◌≢◌, inr, refl, sym, ap, subst, ◌∙◌, List, [], ◌∷◌, ◌++◌, false, length,
  length-append, arith, In,
}
use db_smw.Common.Int.{pos}
use db_smw.Common.Memory.{Memory}
use db_smw.Common.Words.{IsInt, bytes, int_bytes}
use db_smw.Storage.Disk.{ok}
use db_smw.Transaction.Manager.{Storage, Server, is_empty, commit}
use db_smw.Transaction.Commit.{commit_record, Committed, commit-Committed}
use db_smw.Log.{LogRecord, new_commit_log, invalid_lsn}
use db_smw.Log.Format.{encode}
use db_smw.Log.Device.{LogDevice, IsLogDevice}
use db_smw.Log.Durable.{IsLogged}
use db_smw.Log.Recovery.{Analysis, finished, analyze}
use db_smw.Log.Next.{IsReadable}
use db_smw.Log.Scan.{AllReadable}
use db_smw.Log.Window.{UncutAll}
use db_smw.Log.Replay.{Begun}
use db_smw.Log.Classify.{Numbered, IsCommit}
use db_smw.Log.Analyze.{analyze-Analyzed}
use db_smw.Log.Snoc.{Known, AllReadable-snoc, Numbered-snoc, Begun-snoc, last_of-snoc}

module _ {File Db : Type 0} (dev : LogDevice File) (contents : File → List ℕ) where
  -- The records of the log manager can be read back, are numbered, and have the transaction's begin.
  pub record IsReady (s : Server File Db) (rs : List LogRecord) : Type 0 where
    pub logged : IsLogged dev contents s.log_manager rs
    pub next : s.log_manager.global_lsn ≡ pos (length rs)
    pub readable : AllReadable rs
    pub numbered : Numbered 0 rs
    pub begun : Begun [] rs
    pub known : Known (pos s.txn.txn_id) rs
    pub linked : s.txn.prev_lsn ≢ invalid_lsn
    pub ints : (length rs < 2 ^ 31) × (s.txn.txn_id < 2 ^ 31) × IsInt s.txn.prev_lsn

  pub commit_record-IsReadable :
      (s : Server File Db) (rs : List LogRecord)
      → IsReady s rs
      → IsReadable (commit_record dev contents s)
  unfolding commit_record new_commit_log encode bytes int_bytes
  commit_record-IsReadable s rs v = record {
    encodable = (
      record {
        lsn = subst IsInt (sym v.next) v.ints.0;
        log_tot_len = omega arith;
        log_tid = v.ints.1;
        prev_lsn = v.ints.2;
      },
      refl,
    );
    sized = refl;
    fits = omega arith;
  }

  module _ (laws : IsLogDevice dev contents) (garbage : Memory) where
    -- For a transaction that has written and whose begin is in the log, over records that can be read
    -- back and are numbered from 0, none cut in its length field by the end of a buffer: when `commit`
    -- has returned, `analyze`, with more rounds than records, is through, has these records and the
    -- commit record, and takes the transaction for committed.
    pub analyze-commit :
        (storage : Storage Db) (s s1 : Server File Db) (rs : List LogRecord) (fuel : ℕ) (m : Memory)
        → IsReady s rs
        → is_empty s.txn.write_set ≡ false
        → commit dev garbage storage s ≡ ok s1
        → UncutAll (rs ++ commit_record dev contents s ∷ [])
        → suc (length rs) < fuel
        → (b : Analysis) × (analyze dev fuel s1.log_manager.file m ≡ finished b)
          × (b.logs ≡ rs ++ commit_record dev contents s ∷ [])
          × In (pos s.txn.txn_id) b.committed_txns
    unfolding commit_record new_commit_log
    analyze-commit storage s s1 rs fuel m v writes done uncut lt =
        let r = commit_record dev contents s in
        let there =
          subst (Committed dev contents s rs) done
            (commit-Committed dev contents laws garbage storage s rs v.logged v.linked writes) in
        let (b, ends, now) =
          analyze-Analyzed dev contents laws fuel s1.log_manager.file m (rs ++ r ∷ []) there.0
            (AllReadable-snoc rs r v.readable (commit_record-IsReadable s rs v)) uncut
            (Begun-snoc [] rs r v.begun (inr v.known))
            (Numbered-snoc 0 rs r v.numbered (v.next ∙ ap pos (omega arith)))
            (omega (arith, lt, length-append rs (r ∷ []))) in
        (
          b,
          ends,
          now.logs,
          (now.committed (pos s.txn.txn_id)).1 (subst IsCommit (sym (last_of-snoc rs r)) tt),
        )
