-- ===== src/Log/RecoveryTests.antt =====
-- A log of two transactions, of which one commits and the other has only begun.
use db_smw.Common.{ℕ, ◌≡◌, refl, inl, inr, List, [], ◌∷◌, ◌++◌, arith, ℕ_discrete}
use db_smw.Common.Int.{pos, minus_one}
use db_smw.Common.Memory.{read_at, write_at}
use db_smw.Storage.Disk.{ok}
use db_smw.Log.{LogRecord, begin_log, commit_log, new_begin_log, new_commit_log}
use db_smw.Common.Words.{bytes, int_bytes}
use db_smw.Log.Encode.{type_code}
use db_smw.Log.Format.{encode}
use db_smw.Log.Manager.{LogManager, new_log_buffer, set_lsn, flush_log_to_disk}
use db_smw.Log.Append.{encode_all}
use db_smw.Log.Durable.{IsLogged}
use db_smw.Log.Recovery.{Analysis, finished, running, analyze}
use db_smw.Log.Next.{IsReadable}
use db_smw.Log.Scan.{AllReadable}
use db_smw.Log.Window.{UncutAll, small-UncutAll}
use db_smw.Log.Replay.{Begun}
use db_smw.Log.Classify.{Numbered, Analyzed}
use db_smw.Log.Analyze.{analyze-Analyzed, analyze-torn, analyze-flush_log_to_disk}
use db_smw.Log.ListDevice.{list_device, list_device-IsLogDevice}

abbrev log_0 : LogRecord
unfolding new_begin_log
log_0 = set_lsn (pos 0) (begin_log (new_begin_log (pos 5)))

abbrev log_1 : LogRecord
unfolding new_begin_log
log_1 = set_lsn (pos 1) (begin_log (new_begin_log (pos 6)))

abbrev log_2 : LogRecord
unfolding new_commit_log
log_2 = set_lsn (pos 2) (commit_log (new_commit_log (pos 5)))

abbrev three_logs : List LogRecord
unfolding log_0 log_1 log_2
three_logs = log_0 ∷ log_1 ∷ log_2 ∷ []

log_0-IsReadable : IsReadable log_0
unfolding log_0 new_begin_log encode bytes int_bytes
log_0-IsReadable = record {
  encodable = (
    record {
      lsn = omega arith;
      log_tot_len = omega arith;
      log_tid = omega arith;
      prev_lsn = omega arith;
    },
    refl,
  );
  sized = refl;
  fits = omega arith;
}

log_1-IsReadable : IsReadable log_1
unfolding log_1 new_begin_log encode bytes int_bytes
log_1-IsReadable = record {
  encodable = (
    record {
      lsn = omega arith;
      log_tot_len = omega arith;
      log_tid = omega arith;
      prev_lsn = omega arith;
    },
    refl,
  );
  sized = refl;
  fits = omega arith;
}

log_2-IsReadable : IsReadable log_2
unfolding log_2 new_commit_log encode bytes int_bytes
log_2-IsReadable = record {
  encodable = (
    record {
      lsn = omega arith;
      log_tot_len = omega arith;
      log_tid = omega arith;
      prev_lsn = omega arith;
    },
    refl,
  );
  sized = refl;
  fits = omega arith;
}

three_logs-AllReadable : AllReadable three_logs
unfolding three_logs
three_logs-AllReadable = (log_0-IsReadable, (log_1-IsReadable, (log_2-IsReadable, tt)))

three_logs-UncutAll : UncutAll three_logs
unfolding three_logs encode_all log_0 log_1 log_2 new_begin_log new_commit_log encode bytes
    int_bytes
three_logs-UncutAll = small-UncutAll three_logs three_logs-AllReadable (omega arith)

three_logs-Begun : Begun [] three_logs
unfolding three_logs log_0 log_1 log_2 new_begin_log new_commit_log
three_logs-Begun = (inl tt, (inl tt, (inr (inr (inl refl)), tt)))

three_logs-Numbered : Numbered 0 three_logs
unfolding three_logs log_0 log_1 log_2
three_logs-Numbered = (refl, (refl, (refl, tt)))

analyze-Analyzed_example :
    (b : Analysis) × (analyze list_device 4 (encode_all three_logs) (λ i. 0) ≡ finished b)
    × Analyzed three_logs b
unfolding three_logs
analyze-Analyzed_example =
    analyze-Analyzed list_device (λ f. f) list_device-IsLogDevice 4 (encode_all three_logs) (λ i. 0)
      three_logs refl three_logs-AllReadable three_logs-UncutAll three_logs-Begun
      three_logs-Numbered (omega arith)

analyze-torn_example :
    analyze list_device 100 (encode_all three_logs ++ (3 ∷ 0 ∷ 0 ∷ [])) (λ i. 0) ≡ running
unfolding three_logs
analyze-torn_example =
    analyze-torn list_device (λ f. f) list_device-IsLogDevice 100
      (encode_all three_logs ++ (3 ∷ 0 ∷ 0 ∷ [])) (λ i. 0) three_logs (3 ∷ 0 ∷ 0 ∷ []) refl
      (omega arith) (omega arith) three_logs-AllReadable three_logs-UncutAll three_logs-Begun
      (omega arith)

-- two records in the file, and one in the buffer
abbrev half_flushed : LogManager (List ℕ)
unfolding log_0 log_1 log_2 encode write_at new_begin_log new_commit_log bytes int_bytes
half_flushed = record {
  global_lsn = pos 3;
  log_buffer = record { buffer = write_at 0 (encode log_2) (λ i. 0); offset = 20 };
  persist_lsn = minus_one;
  file = encode log_0 ++ encode log_1;
}

abbrev all_flushed : LogManager (List ℕ)
unfolding half_flushed read_at
all_flushed = record half_flushed {
  log_buffer = new_log_buffer;
  file = half_flushed.file ++ read_at 0 20 half_flushed.log_buffer.buffer;
}

half_flushed-IsLogged : IsLogged list_device (λ f. f) half_flushed three_logs
unfolding half_flushed three_logs encode_all encode read_at write_at bytes int_bytes log_2
    new_commit_log type_code ℕ_discrete
half_flushed-IsLogged = record { whole = refl; within = omega arith }

half_flushed-flush : flush_log_to_disk list_device half_flushed ≡ ok all_flushed
unfolding flush_log_to_disk half_flushed all_flushed
half_flushed-flush = refl

analyze-flush_log_to_disk_example :
    (b : Analysis) × (analyze list_device 9 all_flushed.file (λ i. 0) ≡ finished b)
    × Analyzed three_logs b
unfolding three_logs
analyze-flush_log_to_disk_example =
    analyze-flush_log_to_disk list_device (λ f. f) list_device-IsLogDevice 9 (λ i. 0) half_flushed
      all_flushed three_logs half_flushed-IsLogged half_flushed-flush three_logs-AllReadable
      three_logs-UncutAll three_logs-Begun three_logs-Numbered (omega arith)
