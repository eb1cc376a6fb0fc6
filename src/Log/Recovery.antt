-- ===== src/Log/Recovery.antt =====
-- recovery/log_recovery.cpp: `analyze`, which reads the whole log and finds the transactions that
-- committed or aborted. The rebuilding of the indexes at its end is left out. `att_` and the sets are
-- lists, whose order is not that of the source's containers.
use db_smw.Common.{
  ℕ, zero, suc, ◌+◌, ◌^◌, Bool, true, false, List, [], ◌∷◌, ◌++◌, Option, none, some, ltb, leb,
  ◌==◌, if◌then◌else◌,
}
use db_smw.Common.Int.{ℤ, pos, negsuc, ℤ_discrete, ltb_ℤ}
use db_smw.Common.Assoc.{find, assign}
use db_smw.Common.Memory.{Memory}
use db_smw.Storage.Disk.{ok, throw}
use db_smw.Log.{
  LogType, update, insert, delete, begin, commit, abort, index_insert, index_delete, LogRecord,
  commit_log, abort_log, insert_log, delete_log, update_log, header_of, invalid_txn_id,
  offset_log_tot_len,
}
use db_smw.Log.Decode.{read_u32, type_of, deserialize_as}
use db_smw.Log.Device.{LogDevice, read_log}
use db_smw.Log.Manager.{log_buffer_size}

-- what `analyze` keeps, with its local set `tables`
pub record Analysis : Type 0 where
  pub att : List (ℤ × ℤ)
  pub committed_txns : List ℤ
  pub aborted_txns : List ℤ
  pub tables : List (List ℕ)
  pub tables_with_dml : List (List ℕ)
  pub logs : List LogRecord
  pub max_txn_id : ℤ

abbrev pub new_analysis : Analysis
new_analysis = record {
  att = [];
  committed_txns = [];
  aborted_txns = [];
  tables = [];
  tables_with_dml = [];
  logs = [];
  max_txn_id = invalid_txn_id;
}

-- How a loop ends: it is through, `analyze` returns from within it, an `assert` or a `new` ends the
-- server, or its fuel is used up.
pub data Scan (A : Type 0) : Type 0 where
  finished : A → Scan A
  returned : A → Scan A
  failed : Scan A
  running : Scan A

-- What is at an offset of the buffer: nothing whole, an unknown type, a record that cannot be read, or
-- a record.
pub data Next : Type 0 where
  stop unknown broken : Next
  next : LogType → LogRecord → Next

-- the type, and the object of its class that is filled
unfoldable pub read_record : ℕ → Memory → Next
unfolding type_of read_u32 deserialize_as
read_record offset m = elim (type_of (read_u32 offset m)) [
  | none ↦ unknown
  | some type ↦ elim (deserialize_as type offset m) [ none ↦ broken | some log ↦ next type log ]
]

-- The condition of the inner loop and its guards. A length from 2 ^ 31 on is negative as an `int`: the
-- source then reads before the buffer, which is not followed.
unfoldable pub read_next : ℕ → ℕ → Memory → Next
unfolding read_u32 read_record
read_next len offset m =
    let log_tot_len = read_u32 (offset + offset_log_tot_len) m in
    if leb len offset
    then stop
    else if ltb len (offset + offset_log_tot_len)
    then stop
    else if leb (2 ^ 31) log_tot_len
    then broken
    else if ltb len (offset + log_tot_len)
    then stop
    else read_record offset m

-- std::string(name)
unfoldable pub string_of : List ℕ → List ℕ
string_of [] = []
string_of (zero ∷ bs) = []
string_of (suc b ∷ bs) = suc b ∷ string_of bs

unfoldable pub same_string : List ℕ → List ℕ → Bool
same_string [] [] = true
same_string (a ∷ s) (b ∷ t) = if a == b then same_string s t else false
same_string s t = false

unfoldable pub has_string : List ℕ → List (List ℕ) → Bool
unfolding same_string
has_string s [] = false
has_string s (t ∷ ts) = if same_string t s then true else has_string s ts

-- tables.insert(std::string(name))
unfoldable pub add_table : List ℕ → List (List ℕ) → List (List ℕ)
unfolding has_string string_of
add_table name ts = if has_string (string_of name) ts then ts else string_of name ∷ ts

-- the table that a record changes
unfoldable pub tables_after : LogRecord → List (List ℕ) → List (List ℕ)
unfolding add_table
tables_after (insert_log r) ts = add_table r.table_name ts
tables_after (delete_log r) ts = add_table r.table_name ts
tables_after (update_log r) ts = add_table r.table_name ts
tables_after r ts = ts

abbrev max_ℤ : ℤ → ℤ → ℤ
max_ℤ a b = if ltb_ℤ a b then b else a

-- logs_, max_txn_id_, and att_ of the transaction
unfoldable pub keep : LogRecord → Analysis → Analysis
unfolding assign ℤ_discrete
keep log a = record a {
  logs = a.logs ++ log ∷ [];
  max_txn_id = max_ℤ a.max_txn_id (header_of log).log_tid;
  att = assign ℤ_discrete (header_of log).log_tid (header_of log).lsn a.att;
}

-- assert(att_.count(log->log_tid_)), and the rest of the round; `none` where the assertion fails
unfoldable pub keep_known : LogRecord → Analysis → Option Analysis
unfolding keep find ℤ_discrete
keep_known log a = elim (find ℤ_discrete (header_of log).log_tid a.att) [
  | none ↦ none
  | some lsn ↦ some (keep log a)
]

unfoldable pub keep_change : LogRecord → Analysis → Option Analysis
unfolding keep find ℤ_discrete tables_after
keep_change log a = elim (find ℤ_discrete (header_of log).log_tid a.att) [
  | none ↦ none
  | some lsn ↦ some (record (keep log a) { tables = tables_after log a.tables })
]

-- one round of the inner loop, for a record that was read
unfoldable pub note : LogType → LogRecord → Analysis → Option Analysis
unfolding keep keep_known keep_change
note begin log a = some (keep log a)
note commit log a = keep_known log a
note abort log a = keep_known log a
note update log a = keep_change log a
note insert log a = keep_change log a
note delete log a = keep_change log a
note index_insert log a = keep_change log a
note index_delete log a = keep_change log a

-- the inner loop, over `len` bytes
unfoldable pub scan : ℕ → ℕ → Memory → ℕ → Analysis → Scan (ℕ × Analysis)
unfolding read_next note
scan zero len m offset a = running
scan (suc fuel) len m offset a = elim (read_next len offset m) [
  | stop ↦ finished (offset, a)
  | unknown ↦ returned (offset, a)
  | broken ↦ failed
  | next type log ↦ elim (note type log a) [
    | none ↦ failed
    | some b ↦ scan fuel len m (offset + (header_of log).log_tot_len) b
  ]
]

-- one entry of `att_`, when all of the log is read
unfoldable pub classify_txn : ℤ → Option LogRecord → Analysis → Analysis
classify_txn txn (some (abort_log r)) a = record a { aborted_txns = txn ∷ a.aborted_txns }
classify_txn txn (some (commit_log r)) a = record a { committed_txns = txn ∷ a.committed_txns }
classify_txn txn r a = a

-- logs_[i], where there is one
unfoldable pub log_at : List LogRecord → ℤ → Option LogRecord
log_at [] i = none
log_at (r ∷ rs) (pos zero) = some r
log_at (r ∷ rs) (pos (suc i)) = log_at rs (pos i)
log_at (r ∷ rs) (negsuc i) = none

unfoldable pub classify : List (ℤ × ℤ) → Analysis → Analysis
unfolding classify_txn log_at
classify [] a = a
classify ((txn, lsn) ∷ es) a = classify es (classify_txn txn (log_at a.logs lsn) a)

-- `analyze` after its loops
unfoldable pub conclude : Analysis → Analysis
unfolding classify
conclude a = record (classify a.att a) {
  tables_with_dml = elim a.logs [ [] ↦ a.tables_with_dml | r ∷ rs ↦ a.tables ];
}

module _ {File : Type 0} (dev : LogDevice File) where
  -- the outer loop, and what follows it; `fuel` is for each run of the inner loop
  unfoldable pub analyze_from : ℕ → ℕ → File → Memory → ℕ → Analysis → Scan Analysis
  unfolding read_log scan conclude
  analyze_from zero fuel file m off a = running
  analyze_from (suc rounds) fuel file m off a = elim (read_log dev file m log_buffer_size off) [
    | throw e m1 ↦ failed
    | ok (negsuc n, m1) ↦ finished (conclude a)
    | ok (pos zero, m1) ↦ finished (conclude a)
    | ok (pos (suc l), m1) ↦ elim (scan fuel (suc l) m1 0 a) [
      | finished (offset, b) ↦ analyze_from rounds fuel file m1 (off + offset) b
      | returned (offset, b) ↦ returned b
      | failed ↦ failed
      | running ↦ running
    ]
  ]

  unfoldable pub analyze : ℕ → File → Memory → Scan Analysis
  unfolding analyze_from
  analyze fuel file m = analyze_from fuel fuel file m 0 new_analysis
