-- ===== src/Log/Decode.antt =====
-- recovery/log_manager.h: `deserialize`, and record/rm_defs.h: `RmRecord::Deserialize`. `none` is a size
-- for which `new` throws, or a type outside of `LogType`.
use db_smw.Common.{ℕ, ◌+◌, List, length, Option, none, some, ◌==◌, if◌then◌else◌}
use db_smw.Common.Int.{ℤ, pos, negsuc}
use db_smw.Common.Partial.{◌>>=◌}
use db_smw.Common.Memory.{Memory, read_at}
use db_smw.Common.Words.{from_bytes, int_of}
use db_smw.Transaction.{Rid}
use db_smw.Log.{
  LogType, update, insert, delete, begin, commit, abort, index_insert, index_delete, LogHeader,
  BeginLogRecord, CommitLogRecord, AbortLogRecord, InsertLogRecord, DeleteLogRecord,
  UpdateLogRecord, IndexInsertLogRecord, IndexDeleteLogRecord, LogRecord, begin_log, commit_log,
  abort_log, insert_log, delete_log, update_log, index_insert_log, index_delete_log, offset_lsn,
  offset_log_tot_len, offset_log_tid, offset_prev_lsn, offset_log_data,
}

unfoldable pub type_of : ℕ → Option LogType
type_of n =
    if n == 0
    then some update
    else if n == 1
    then some insert
    else if n == 2
    then some delete
    else if n == 3
    then some begin
    else if n == 4
    then some commit
    else if n == 5
    then some abort
    else if n == 6
    then some index_insert
    else if n == 7
    then some index_delete
    else none

-- *reinterpret_cast<const int *>(src)
unfoldable pub read_int : ℕ → Memory → ℤ
unfolding read_at int_of
read_int src m = int_of (read_at src 4 m)

-- *reinterpret_cast<const uint32_t *>(src)
unfoldable pub read_u32 : ℕ → Memory → ℕ
unfolding read_at from_bytes
read_u32 src m = from_bytes (read_at src 4 m)

-- *reinterpret_cast<const size_t *>(src)
unfoldable pub read_size : ℕ → Memory → ℕ
unfolding read_at from_bytes
read_size src m = from_bytes (read_at src 8 m)

unfoldable pub read_rid : ℕ → Memory → Rid
unfolding read_int
read_rid src m = record { page_no = read_int src m; slot_no = read_int (src + 4) m }

unfoldable pub deserialize_header : ℕ → Memory → Option LogHeader
unfolding type_of read_u32 read_int
deserialize_header src m = do
  type ← type_of (read_u32 src m)
  some (record {
    log_type = type;
    lsn = read_int (src + offset_lsn) m;
    log_tot_len = read_u32 (src + offset_log_tot_len) m;
    log_tid = read_int (src + offset_log_tid) m;
    prev_lsn = read_int (src + offset_prev_lsn) m;
  })

-- `size` bytes: `new char[size]` throws where it is negative
abbrev sized : ℤ → ℕ → Memory → Option (List ℕ)
sized (pos size) src m = some (read_at src size m)
sized (negsuc n) src m = none

-- RmRecord::Deserialize
unfoldable pub deserialize_value : ℕ → Memory → Option (List ℕ)
unfolding read_int read_at
deserialize_value src m = sized (read_int src m) (src + 4) m

abbrev Body : Type 0
Body = LogHeader × List ℕ × Rid × List ℕ

-- the body that four classes read
unfoldable pub deserialize_body : ℕ → Memory → Option Body
unfolding deserialize_header deserialize_value read_rid read_size read_at
deserialize_body src m = do
  header ← deserialize_header src m
  value ← deserialize_value (src + offset_log_data) m
  let o0 = offset_log_data + length value + 4
  let rid = read_rid (src + o0) m
  let o1 = o0 + 8
  let name_size = read_size (src + o1) m
  let o2 = o1 + 8
  some (header, value, rid, read_at (src + o2) name_size m)

unfoldable pub deserialize_begin : ℕ → Memory → Option BeginLogRecord
unfolding deserialize_header
deserialize_begin src m = do h ← deserialize_header src m; some (record { header = h })

unfoldable pub deserialize_commit : ℕ → Memory → Option CommitLogRecord
unfolding deserialize_header
deserialize_commit src m = do h ← deserialize_header src m; some (record { header = h })

unfoldable pub deserialize_abort : ℕ → Memory → Option AbortLogRecord
unfolding deserialize_header
deserialize_abort src m = do h ← deserialize_header src m; some (record { header = h })

unfoldable pub deserialize_insert : ℕ → Memory → Option InsertLogRecord
unfolding deserialize_body
deserialize_insert src m = do
  (h, value, rid, name) ← deserialize_body src m
  some (record { header = h; insert_value = value; rid = rid; table_name = name })

unfoldable pub deserialize_delete : ℕ → Memory → Option DeleteLogRecord
unfolding deserialize_body
deserialize_delete src m = do
  (h, value, rid, name) ← deserialize_body src m
  some (record { header = h; delete_value = value; rid = rid; table_name = name })

unfoldable pub deserialize_update : ℕ → Memory → Option UpdateLogRecord
unfolding deserialize_header deserialize_value read_rid read_size read_at
deserialize_update src m = do
  header ← deserialize_header src m
  update_value ← deserialize_value (src + offset_log_data) m
  let o0 = offset_log_data + length update_value + 4
  now_value ← deserialize_value (src + o0) m
  let o1 = o0 + (length now_value + 4)
  let rid = read_rid (src + o1) m
  let o2 = o1 + 8
  let name_size = read_size (src + o2) m
  let o3 = o2 + 8
  some (record {
    header = header;
    update_value = update_value;
    now_value = now_value;
    rid = rid;
    table_name = read_at (src + o3) name_size m;
  })

unfoldable pub deserialize_index_insert : ℕ → Memory → Option IndexInsertLogRecord
unfolding deserialize_body
deserialize_index_insert src m = do
  (h, key, rid, name) ← deserialize_body src m
  some (record { header = h; key = key; rid = rid; ix_name = name })

unfoldable pub deserialize_index_delete : ℕ → Memory → Option IndexDeleteLogRecord
unfolding deserialize_body
deserialize_index_delete src m = do
  (h, key, rid, name) ← deserialize_body src m
  some (record { header = h; key = key; rid = rid; ix_name = name })

-- the virtual call, on an object of the class that the type in the log names
unfoldable pub deserialize_as : LogType → ℕ → Memory → Option LogRecord
unfolding deserialize_begin deserialize_commit deserialize_abort deserialize_insert
    deserialize_delete deserialize_update deserialize_index_insert deserialize_index_delete
deserialize_as update src m = do r ← deserialize_update src m; some (update_log r)
deserialize_as insert src m = do r ← deserialize_insert src m; some (insert_log r)
deserialize_as delete src m = do r ← deserialize_delete src m; some (delete_log r)
deserialize_as begin src m = do r ← deserialize_begin src m; some (begin_log r)
deserialize_as commit src m = do r ← deserialize_commit src m; some (commit_log r)
deserialize_as abort src m = do r ← deserialize_abort src m; some (abort_log r)
deserialize_as index_insert src m = do r ← deserialize_index_insert src m; some (index_insert_log r)
deserialize_as index_delete src m = do r ← deserialize_index_delete src m; some (index_delete_log r)
