-- ===== src/Transaction/Tests.antt =====
-- A transaction that has inserted one record and holds a lock on its table, over tables of which only the
-- number of changes is kept.
use db_smw.Common.{ℕ, suc, ◌≡◌, refl, ap, inl, List, [], ◌∷◌, ◌++◌, true, arith, In}
use db_smw.Common.Int.{pos, minus_one}
use db_smw.Common.Memory.{read_at}
use db_smw.Common.Words.{bytes, int_bytes}
use db_smw.Storage.Disk.{ok, throw}
use db_smw.Transaction.{insert_tuple, growing, table_id}
use db_smw.Transaction.Manager.{Storage, Server, commit, abort}
use db_smw.Transaction.Commit.{commit_record, Committed}
use db_smw.Transaction.Recovered.{IsReady, commit_record-IsReadable, analyze-commit}
use db_smw.Transaction.Abort.{Aborted}
use db_smw.Transaction.Release.{IsSingle, requests_of}
use db_smw.Transaction.Locks.{Released, commit-Released, abort-Released}
use db_smw.Common.Assoc.{find}
use db_smw.Lock.{exclusive, x, queue_at}
use db_smw.Log.{LogRecord, begin_log, new_begin_log, new_commit_log}
use db_smw.Log.Format.{encode}
use db_smw.Log.ListDevice.{list_device, list_device-IsLogDevice}
use db_smw.Log.Manager.{new_log_buffer, set_lsn}
use db_smw.Log.Append.{encode_all}
use db_smw.Log.Durable.{IsLogged}
use db_smw.Log.Recovery.{Analysis, finished, analyze}
use db_smw.Log.Window.{UncutAll, small-UncutAll}

abbrev counted : Storage ℕ
counted = record { undo_write_record = λ w db. ok (suc db); flush_all_dirty_pages = λ db. ok db }

abbrev log_0 : LogRecord
unfolding new_begin_log
log_0 = set_lsn (pos 0) (begin_log (new_begin_log (pos 5)))

abbrev one_write : Server (List ℕ) ℕ
unfolding log_0 encode
one_write = record {
  txn = record {
    txn_id = 5;
    txn_mode = true;
    state = growing;
    prev_lsn = pos 0;
    write_set =
        record {
          wtype = insert_tuple;
          tab_name = "t";
          rid = record { page_no = pos 1; slot_no = pos 0 };
          old_record = [];
        }
        ∷ [];
    lock_set = table_id (pos 3) ∷ [];
  };
  log_manager = record {
    global_lsn = pos 1;
    log_buffer = new_log_buffer;
    persist_lsn = minus_one;
    file = encode log_0;
  };
  lock_table =
      (
        table_id (pos 3),
        record {
          request_queue = record { txn_id = 5; lock_mode = exclusive; granted = true } ∷ [];
          group_lock_mode = x;
        },
      )
      ∷ [];
  db = 7;
}

one_write-IsLogged : IsLogged list_device (λ f. f) one_write.log_manager (log_0 ∷ [])
unfolding one_write encode_all read_at
one_write-IsLogged = record { whole = ap (λ l. encode log_0 ++ l) refl; within = omega arith }

-- its only request is the one for the table 3
one_write-IsSingle : IsSingle 5 one_write.lock_table
unfolding one_write requests_of queue_at find
one_write-IsSingle id = ground arith

commit-Released_example :
    Committed list_device
      (λ f. f)
      one_write
      (log_0 ∷ [])
      (commit list_device (λ i. 9) counted one_write)
    × Released list_device
        (λ f. f)
        (λ i. 9)
        one_write
        (commit list_device (λ i. 9) counted one_write)
unfolding one_write
commit-Released_example =
    commit-Released list_device (λ f. f) (λ i. 9) counted list_device-IsLogDevice one_write
      (log_0 ∷ []) one_write-IsLogged (λ e. ground (arith, e)) refl one_write-IsSingle

abort-Released_example :
    Aborted list_device
      (λ f. f)
      (λ i. 9)
      counted
      one_write
      (log_0 ∷ [])
      (abort list_device (λ i. 9) counted one_write)
    × Released list_device
        (λ f. f)
        (λ i. 9)
        one_write
        (abort list_device (λ i. 9) counted one_write)
unfolding one_write
abort-Released_example =
    abort-Released list_device (λ f. f) (λ i. 9) counted list_device-IsLogDevice one_write
      (log_0 ∷ []) one_write-IsLogged refl one_write-IsSingle

abbrev one_committed : Server (List ℕ) ℕ
unfolding commit one_write
one_committed = elim (commit list_device (λ i. 9) counted one_write) [ ok s ↦ s | throw e s ↦ s ]

one_write-commit : commit list_device (λ i. 9) counted one_write ≡ ok one_committed
unfolding one_write one_committed commit
one_write-commit = refl

one_write-IsReady : IsReady list_device (λ f. f) one_write (log_0 ∷ [])
unfolding one_write log_0 new_begin_log encode bytes int_bytes
one_write-IsReady = record {
  logged = one_write-IsLogged;
  next = refl;
  readable = (
    record {
      encodable = (
        record {
          lsn = omega arith;
          log_tot_len = omega arith;
          log_tid = omega arith;
          prev_lsn = omega arith;
        },
        refl,
      );
      sized = refl;
      fits = omega arith;
    },
    tt,
  );
  numbered = (refl, tt);
  begun = (inl tt, tt);
  known = inl refl;
  linked = λ e. ground (arith, e);
  ints = (omega arith, omega arith, omega arith);
}

two_logs-UncutAll : UncutAll (log_0 ∷ commit_record list_device (λ f. f) one_write ∷ [])
unfolding one_write log_0 new_begin_log encode_all encode bytes int_bytes commit_record
    new_commit_log
two_logs-UncutAll =
    small-UncutAll (log_0 ∷ commit_record list_device (λ f. f) one_write ∷ [])
      (
        one_write-IsReady.readable.0,
        (
          commit_record-IsReadable list_device (λ f. f) one_write (log_0 ∷ []) one_write-IsReady,
          tt,
        ),
      )
      (omega arith)

analyze-commit_example :
    (b : Analysis) × (analyze list_device 3 one_committed.log_manager.file (λ i. 0) ≡ finished b)
    × (b.logs ≡ log_0 ∷ commit_record list_device (λ f. f) one_write ∷ [])
    × In (pos 5) b.committed_txns
unfolding one_write
analyze-commit_example =
    analyze-commit list_device (λ f. f) list_device-IsLogDevice (λ i. 9) counted one_write
      one_committed (log_0 ∷ []) 3 (λ i. 0) one_write-IsReady refl one_write-commit
      two_logs-UncutAll (omega arith)
