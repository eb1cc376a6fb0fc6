-- ===== src/Log.antt =====
-- recovery/log_defs.h and recovery/log_manager.h: the records of the write-ahead log. `RmRecord` is
-- its bytes, and a name is its bytes with the final 0.
pub mod Encode
pub mod Format
pub mod Reads
pub mod Decode
pub mod RoundTrip
pub mod Device
pub mod ListDevice
pub mod Manager
pub mod Append
pub mod Extent
pub mod Durable
pub mod Recovery
pub mod Next
pub mod Scan
pub mod Window
pub mod Rounds
pub mod Replay
pub mod Classify
pub mod Analyze
pub mod Snoc
mod Tests
mod RecoveryTests
use db_smw.Common.{◌%◌, ◌^◌, ℕ, suc, ◌+◌, List, [], ◌∷◌, ◌++◌, Option, none, some, length}
use db_smw.Common.Int.{ℤ, minus_one}
use db_smw.Transaction.{Rid}

pub data LogType : Type 0 where
  update insert delete begin commit abort index_insert index_delete : LogType

abbrev pub invalid_lsn : ℤ
invalid_lsn = minus_one

abbrev pub invalid_txn_id : ℤ
invalid_txn_id = minus_one

-- the offsets, in bytes
abbrev pub offset_log_type : ℕ
offset_log_type = 0

abbrev pub offset_lsn : ℕ
offset_lsn = 4

abbrev pub offset_log_tot_len : ℕ
offset_log_tot_len = offset_lsn + 4

abbrev pub offset_log_tid : ℕ
offset_log_tid = offset_log_tot_len + 4

abbrev pub offset_prev_lsn : ℕ
offset_prev_lsn = offset_log_tid + 4

abbrev pub offset_log_data : ℕ
offset_log_data = offset_prev_lsn + 4

abbrev pub log_header_size : ℕ
log_header_size = offset_log_data

-- the fields of `LogRecord`
pub record LogHeader : Type 0 where
  pub log_type : LogType
  pub lsn : ℤ
  pub log_tot_len : ℕ
  pub log_tid : ℤ
  pub prev_lsn : ℤ

pub record BeginLogRecord : Type 0 where
  pub header : LogHeader

pub record CommitLogRecord : Type 0 where
  pub header : LogHeader

pub record AbortLogRecord : Type 0 where
  pub header : LogHeader

pub record InsertLogRecord : Type 0 where
  pub header : LogHeader
  pub insert_value : List ℕ
  pub rid : Rid
  pub table_name : List ℕ

pub record DeleteLogRecord : Type 0 where
  pub header : LogHeader
  pub delete_value : List ℕ
  pub rid : Rid
  pub table_name : List ℕ

pub record UpdateLogRecord : Type 0 where
  pub header : LogHeader
  pub update_value : List ℕ
  pub now_value : List ℕ
  pub rid : Rid
  pub table_name : List ℕ

pub record IndexInsertLogRecord : Type 0 where
  pub header : LogHeader
  pub key : List ℕ
  pub rid : Rid
  pub ix_name : List ℕ

pub record IndexDeleteLogRecord : Type 0 where
  pub header : LogHeader
  pub key : List ℕ
  pub rid : Rid
  pub ix_name : List ℕ

-- an object of a class that extends `LogRecord`
pub data LogRecord : Type 0 where
  begin_log : BeginLogRecord → LogRecord
  commit_log : CommitLogRecord → LogRecord
  abort_log : AbortLogRecord → LogRecord
  insert_log : InsertLogRecord → LogRecord
  delete_log : DeleteLogRecord → LogRecord
  update_log : UpdateLogRecord → LogRecord
  index_insert_log : IndexInsertLogRecord → LogRecord
  index_delete_log : IndexDeleteLogRecord → LogRecord

abbrev pub header_of : LogRecord → LogHeader
header_of (begin_log r) = r.header
header_of (commit_log r) = r.header
header_of (abort_log r) = r.header
header_of (insert_log r) = r.header
header_of (delete_log r) = r.header
header_of (update_log r) = r.header
header_of (index_insert_log r) = r.header
header_of (index_delete_log r) = r.header

abbrev pub with_header : LogHeader → LogRecord → LogRecord
with_header h (begin_log r) = begin_log (record { header = h })
with_header h (commit_log r) = commit_log (record { header = h })
with_header h (abort_log r) = abort_log (record { header = h })
with_header h (insert_log r) = insert_log (record r { header = h })
with_header h (delete_log r) = delete_log (record r { header = h })
with_header h (update_log r) = update_log (record r { header = h })
with_header h (index_insert_log r) = index_insert_log (record r { header = h })
with_header h (index_delete_log r) = index_delete_log (record r { header = h })

-- what the default constructors of the classes set, with the transaction's id; `log_tot_len_` is a
-- `uint32_t`
abbrev new_header : LogType → ℤ → ℕ → LogHeader
new_header type txn_id len = record {
  log_type = type;
  lsn = invalid_lsn;
  log_tot_len = len % 2 ^ 32;
  log_tid = txn_id;
  prev_lsn = invalid_lsn;
}

-- table_name.c_str() with its final 0
abbrev c_str : List ℕ → List ℕ
c_str name = name ++ 0 ∷ []

unfoldable pub new_begin_log : ℤ → BeginLogRecord
new_begin_log txn_id = record { header = new_header begin txn_id log_header_size }

unfoldable pub new_commit_log : ℤ → CommitLogRecord
new_commit_log txn_id = record { header = new_header commit txn_id log_header_size }

unfoldable pub new_abort_log : ℤ → AbortLogRecord
new_abort_log txn_id = record { header = new_header abort txn_id log_header_size }

unfoldable pub new_insert_log : ℤ → List ℕ → Rid → List ℕ → InsertLogRecord
new_insert_log txn_id value rid table_name =
    let len = log_header_size + (4 + length value + 8) in
    record {
      header = new_header insert txn_id (len + (8 + length (c_str table_name)));
      insert_value = value;
      rid = rid;
      table_name = c_str table_name;
    }

unfoldable pub new_delete_log : ℤ → List ℕ → Rid → List ℕ → DeleteLogRecord
new_delete_log txn_id value rid table_name =
    let len = log_header_size + (4 + length value + 8) in
    record {
      header = new_header delete txn_id (len + (8 + length (c_str table_name)));
      delete_value = value;
      rid = rid;
      table_name = c_str table_name;
    }

unfoldable pub new_update_log : ℤ → List ℕ → Rid → List ℕ → List ℕ → UpdateLogRecord
new_update_log txn_id update_value rid table_name now_value =
    let len = log_header_size + (4 + length update_value + 4 + length now_value + 8) in
    record {
      header = new_header update txn_id (len + (8 + length (c_str table_name)));
      update_value = update_value;
      now_value = now_value;
      rid = rid;
      table_name = c_str table_name;
    }

-- the key is `tot_len` bytes
unfoldable pub new_index_insert_log : ℤ → List ℕ → Rid → List ℕ → IndexInsertLogRecord
new_index_insert_log txn_id key rid ix_name =
    let len = log_header_size + (4 + length key + 8) in
    record {
      header = new_header index_insert txn_id (len + (8 + length (c_str ix_name)));
      key = key;
      rid = rid;
      ix_name = c_str ix_name;
    }

unfoldable pub new_index_delete_log : ℤ → List ℕ → Rid → List ℕ → IndexDeleteLogRecord
new_index_delete_log txn_id key rid ix_name =
    let len = log_header_size + (4 + length key + 8) in
    record {
      header = new_header index_delete txn_id (len + (8 + length (c_str ix_name)));
      key = key;
      rid = rid;
      ix_name = c_str ix_name;
    }
