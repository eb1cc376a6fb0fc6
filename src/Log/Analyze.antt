-- ===== src/Log/Analyze.antt =====
-- `analyze` on a log file: it finds the records that were written, and ends, unless a part of a record
-- is left at the end of the file.
use db_smw.Common.{ℕ, ◌<◌, ◌≡◌, refl, sym, subst, ◌∙◌, List, [], ◌++◌, length, arith}
use mathlib.Core.List.{append-nil}
use db_smw.Common.Memory.{Memory}
use db_smw.Log.{LogRecord}
use db_smw.Log.Device.{LogDevice, IsLogDevice}
use db_smw.Log.Append.{encode_all}
use db_smw.Log.Recovery.{Analysis, new_analysis, finished, running, conclude, analyze}
use db_smw.Log.Scan.{AllReadable}
use db_smw.Storage.Disk.{ok}
use db_smw.Log.Manager.{LogManager, flush_log_to_disk}
use db_smw.Log.Durable.{IsLogged, Flushed, flush_log_to_disk-Flushed}
use db_smw.Log.Replay.{Begun, replay_lem}
use db_smw.Log.Classify.{Numbered, Analyzed, conclude-Analyzed}
use db_smw.Log.Window.{UncutAll}
use db_smw.Log.Rounds.{ends_lem, runs_lem}

module _ {File : Type 0} (dev : LogDevice File) (contents : File → List ℕ)
    (laws : IsLogDevice dev contents) where
  -- On a file that has the bytes of records that can be read back, none cut in its length field by the
  -- end of a buffer, numbered from 0, and each after the first record of its transaction: with more
  -- rounds than records `analyze` is through; it has the records, in order, and takes for committed,
  -- or for aborted, the transactions whose last record is a commit, or an abort.
  pub analyze-Analyzed :
      (fuel : ℕ) (file : File) (m : Memory) (rs : List LogRecord)
      → contents file ≡ encode_all rs
      → AllReadable rs
      → UncutAll rs
      → Begun [] rs
      → Numbered 0 rs
      → length rs < fuel
      → (b : Analysis) × (analyze dev fuel file m ≡ finished b) × Analyzed rs b
  unfolding analyze
  analyze-Analyzed fuel file m rs whole all u begun numbered lt =
      let (b, rest, now) =
        replay_lem rs new_analysis [] begun (λ txn h. absurd h) (λ k v h. absurd h) in
      (
        conclude b,
        ends_lem dev fuel file contents laws [] (omega arith) b fuel m [] rs new_analysis
            (record {
              whole = whole ∙ sym (append-nil (encode_all rs));
              readable = all;
              uncut = u;
              rest = rest;
              fueled = lt;
            })
            refl lt,
        conclude-Analyzed rs b numbered now,
      )

  -- On a file of records that can be read back, none cut in its length field by the end of a buffer, and
  -- each after the first record of its transaction, with between 1 and 7 bytes more at its end:
  -- `analyze` never ends; after any number of rounds that is more than the records it still runs.
  pub analyze-torn :
      (fuel : ℕ) (file : File) (m : Memory) (rs : List LogRecord) (t : List ℕ)
      → contents file ≡ encode_all rs ++ t
      → 0 < length t
      → length t < 8
      → AllReadable rs
      → UncutAll rs
      → Begun [] rs
      → length rs < fuel
      → analyze dev fuel file m ≡ running
  unfolding analyze
  analyze-torn fuel file m rs t whole some_left few all u begun lt =
      let (b, rest, now) =
        replay_lem rs new_analysis [] begun (λ txn h. absurd h) (λ k v h. absurd h) in
      runs_lem dev fuel file contents laws t few b fuel m [] rs new_analysis
        (record { whole = whole; readable = all; uncut = u; rest = rest; fueled = lt }) some_left

  -- On a log manager that holds records that can be read back, none cut in its length field by the end
  -- of a buffer, numbered from 0, and each after the first record of its transaction: when
  -- `flush_log_to_disk` has returned, `analyze`, with more rounds than records, is through, has these
  -- records in order, and takes for committed, or for aborted, the transactions whose last record is a
  -- commit, or an abort.
  pub analyze-flush_log_to_disk :
      (fuel : ℕ) (m : Memory) (g h : LogManager File) (rs : List LogRecord)
      → IsLogged dev contents g rs
      → flush_log_to_disk dev g ≡ ok h
      → AllReadable rs
      → UncutAll rs
      → Begun [] rs
      → Numbered 0 rs
      → length rs < fuel
      → (b : Analysis) × (analyze dev fuel h.file m ≡ finished b) × Analyzed rs b
  analyze-flush_log_to_disk fuel m g h rs v e all u begun numbered lt =
      let flushed =
        subst (Flushed dev contents g rs) e (flush_log_to_disk-Flushed dev contents laws g rs v) in
      analyze-Analyzed fuel h.file m rs flushed.1 all u begun numbered lt
