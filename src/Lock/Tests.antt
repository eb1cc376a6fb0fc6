-- ===== src/Lock/Tests.antt =====
-- The lock manager on small inputs.
use db_smw.Common.{ℕ, ◌≡◌, refl, inl, inr, List, [], ◌∷◌, true, none, ℕ_discrete, In, arith}
use db_smw.Common.Int.{pos, ℤ_discrete}
use db_smw.Common.Assoc.{find, erase, assign}
use db_smw.Transaction.{Rid, record_id, new_transaction, LockDataId_discrete, lock_on_shrinking}
use db_smw.Lock.{
  shared, exclusive, intention_shared, intention_exclusive, ix, LockRequestQueue, queue_at,
  combine_table_lock, join_group, group_of, update_group_lock_mode, table_conflict, record_conflict,
  any_request, first_request, update_first, erase_first, grant, lock_mem, insert_lock, remove_lock,
  erase_lock, settle, with_growing, keep_queue, unlock_queue, unlock, own,
}
use db_smw.Lock.Table.{
  table_again, table_stops, table_verdict, lock_on_table, lock_shared_on_table,
  lock_exclusive_on_table, lock_is_on_table, lock_ix_on_table,
}
use db_smw.Lock.Record.{
  table_blocks, upgrades, settles, record_stops, record_again, record_verdict, lock_on_record,
  lock_shared_on_record, lock_exclusive_on_record,
}
use db_smw.Lock.Exclusion.{Holds}
use db_smw.Lock.Calls.{RecordLocked, lock_on_record_lem, empty-RecordsSafe}
use db_smw.Lock.Runs.{
  ix_table, exclusive_record, shared_record, Call, locks, unlocks, System, lock, thrown, step, run,
  run-exclusive, unlock-run,
}
use db_smw.Lock.Admission.{IsTable, Admitted, table_verdict-Admitted}

program : Unit {0}
unfolding find erase assign ℕ_discrete ℤ_discrete LockDataId_discrete new_transaction queue_at
    combine_table_lock join_group group_of update_group_lock_mode table_conflict record_conflict
    any_request first_request update_first erase_first grant lock_mem insert_lock remove_lock
    erase_lock settle with_growing keep_queue unlock_queue unlock table_again table_stops
    table_verdict lock_on_table lock_shared_on_table lock_exclusive_on_table lock_is_on_table
    lock_ix_on_table table_blocks upgrades settles record_stops record_again record_verdict
    lock_on_record lock_shared_on_record lock_exclusive_on_record lock step run
program = tt

abbrev rid : Rid
rid = record { page_no = pos 1; slot_no = pos 0 }

-- transaction 1 gets the record; 2 is turned away; 1 lets it go and then gets nothing more
abbrev calls : List (ℕ × Call)
calls =
    (1, locks (ix_table (pos 3)))
    ∷ (1, locks (exclusive_record rid (pos 3)))
    ∷ (2, locks (shared_record rid (pos 3)))
    ∷ []

abbrev start : System
start = record { transactions = λ i. new_transaction i; lock_table = [] }

calls_held : Holds 1 exclusive (queue_at (record_id (pos 3) rid) (run start calls).1.lock_table)
unfolding program
calls_held =
    (record { txn_id = 1; lock_mode = exclusive; granted = true }, inl refl, refl, refl, refl)

run-exclusive_example : ¬ Holds 2 shared (
    queue_at
      (record_id (pos 3) rid)
      (run (record { transactions = λ i. new_transaction i; lock_table = [] }) calls).1.lock_table)
run-exclusive_example =
    run-exclusive (λ i. new_transaction i) calls rid (pos 3) 1 2 shared (λ e. omega arith)
      calls_held

abbrev later : List (ℕ × Call)
later = (2, locks (shared_record rid (pos 3))) ∷ (1, locks (shared_record rid (pos 3))) ∷ []

refused_here :
    In
      (1, locks (shared_record rid (pos 3)), thrown lock_on_shrinking)
      (run (step start 1 (unlocks (record_id (pos 3) rid))).1 later).0
unfolding program
refused_here = inr (inl refl)

unlock-run_example : thrown lock_on_shrinking ≡ thrown lock_on_shrinking
unlock-run_example =
    unlock-run start 1 (record_id (pos 3) rid) later (shared_record rid (pos 3))
      (thrown lock_on_shrinking) refused_here

lock_on_record_lem_example :
    RecordLocked
      (new_transaction 1)
      (record_id (pos 3) rid)
      exclusive
      []
      (lock_on_record (new_transaction 1) [] rid (pos 3) exclusive)
lock_on_record_lem_example =
    lock_on_record_lem (new_transaction 1) [] rid (pos 3) exclusive (inr refl) empty-RecordsSafe

-- transaction 4 holds an intention to write
abbrev writing : LockRequestQueue
writing = record {
  request_queue = record { txn_id = 4; lock_mode = intention_exclusive; granted = true } ∷ [];
  group_lock_mode = ix;
}

writing-IsTable : IsTable writing
unfolding program
writing-IsTable = record { summary = refl; together = ((λ b i. absurd i), tt) }

absent_here : first_request (own 5) writing.request_queue ≡ none
unfolding program
absent_here = refl

table_verdict-Admitted_example :
    Admitted 5 intention_shared writing (table_verdict 5 intention_shared writing)
table_verdict-Admitted_example =
    table_verdict-Admitted 5 intention_shared writing writing-IsTable absent_here
