-- ===== src/Log/Encode.antt =====
-- recovery/log_manager.h: `serialize`, which writes a record to memory field by field.
use db_smw.Common.{ℕ, ◌+◌, List, ◌++◌, length}
use db_smw.Common.Int.{pos}
use db_smw.Common.Memory.{Memory, write_at}
use db_smw.Common.Words.{bytes, int_bytes}
use db_smw.Transaction.{Rid}
use db_smw.Log.{
  LogType, update, insert, delete, begin, commit, abort, index_insert, index_delete, LogHeader,
  BeginLogRecord, CommitLogRecord, AbortLogRecord, InsertLogRecord, DeleteLogRecord,
  UpdateLogRecord, IndexInsertLogRecord, IndexDeleteLogRecord, LogRecord, begin_log, commit_log,
  abort_log, insert_log, delete_log, update_log, index_insert_log, index_delete_log,
  offset_log_type, offset_lsn, offset_log_tot_len, offset_log_tid, offset_prev_lsn, offset_log_data,
}

unfoldable pub type_code : LogType → ℕ
type_code update = 0
type_code insert = 1
type_code delete = 2
type_code begin = 3
type_code commit = 4
type_code abort = 5
type_code index_insert = 6
type_code index_delete = 7

-- two fields of type `int`
unfoldable pub rid_bytes : Rid → List ℕ
rid_bytes r = int_bytes r.page_no ++ int_bytes r.slot_no

unfoldable pub serialize_header : LogHeader → Memory → Memory
serialize_header h dest = do
  let m0 = write_at offset_log_type (bytes 4 (type_code h.log_type)) dest
  let m1 = write_at offset_lsn (int_bytes h.lsn) m0
  let m2 = write_at offset_log_tot_len (bytes 4 h.log_tot_len) m1
  let m3 = write_at offset_log_tid (int_bytes h.log_tid) m2
  write_at offset_prev_lsn (int_bytes h.prev_lsn) m3

-- Size and bytes of one value, a rid, and size and bytes of a name: the body that four classes write.
unfoldable pub serialize_body : List ℕ → Rid → List ℕ → Memory → Memory
unfolding rid_bytes
serialize_body value rid name dest = do
  let o0 = offset_log_data
  let m0 = write_at o0 (int_bytes (pos (length value))) dest
  let o1 = o0 + 4
  let m1 = write_at o1 value m0
  let o2 = o1 + length value
  let m2 = write_at o2 (rid_bytes rid) m1
  let o3 = o2 + 8
  let m3 = write_at o3 (bytes 8 (length name)) m2
  let o4 = o3 + 8
  write_at o4 name m3

unfoldable pub serialize_begin : BeginLogRecord → Memory → Memory
unfolding serialize_header
serialize_begin r dest = serialize_header r.header dest

unfoldable pub serialize_commit : CommitLogRecord → Memory → Memory
unfolding serialize_header
serialize_commit r dest = serialize_header r.header dest

unfoldable pub serialize_abort : AbortLogRecord → Memory → Memory
unfolding serialize_header
serialize_abort r dest = serialize_header r.header dest

unfoldable pub serialize_insert : InsertLogRecord → Memory → Memory
unfolding serialize_header serialize_body
serialize_insert r dest =
    serialize_body r.insert_value r.rid r.table_name (serialize_header r.header dest)

unfoldable pub serialize_delete : DeleteLogRecord → Memory → Memory
unfolding serialize_header serialize_body
serialize_delete r dest =
    serialize_body r.delete_value r.rid r.table_name (serialize_header r.header dest)

unfoldable pub serialize_update : UpdateLogRecord → Memory → Memory
unfolding serialize_header rid_bytes
serialize_update r dest = do
  let o0 = offset_log_data
  let m0 = write_at o0 (int_bytes (pos (length r.update_value))) (serialize_header r.header dest)
  let o1 = o0 + 4
  let m1 = write_at o1 r.update_value m0
  let o2 = o1 + length r.update_value
  let m2 = write_at o2 (int_bytes (pos (length r.now_value))) m1
  let o3 = o2 + 4
  let m3 = write_at o3 r.now_value m2
  let o4 = o3 + length r.now_value
  let m4 = write_at o4 (rid_bytes r.rid) m3
  let o5 = o4 + 8
  let m5 = write_at o5 (bytes 8 (length r.table_name)) m4
  let o6 = o5 + 8
  write_at o6 r.table_name m5

unfoldable pub serialize_index_insert : IndexInsertLogRecord → Memory → Memory
unfolding serialize_header serialize_body
serialize_index_insert r dest =
    serialize_body r.key r.rid r.ix_name (serialize_header r.header dest)

unfoldable pub serialize_index_delete : IndexDeleteLogRecord → Memory → Memory
unfolding serialize_header serialize_body
serialize_index_delete r dest =
    serialize_body r.key r.rid r.ix_name (serialize_header r.header dest)

-- the virtual call
unfoldable pub serialize : LogRecord → Memory → Memory
unfolding serialize_begin serialize_commit serialize_abort serialize_insert serialize_delete
    serialize_update serialize_index_insert serialize_index_delete
serialize (begin_log r) dest = serialize_begin r dest
serialize (commit_log r) dest = serialize_commit r dest
serialize (abort_log r) dest = serialize_abort r dest
serialize (insert_log r) dest = serialize_insert r dest
serialize (delete_log r) dest = serialize_delete r dest
serialize (update_log r) dest = serialize_update r dest
serialize (index_insert_log r) dest = serialize_index_insert r dest
serialize (index_delete_log r) dest = serialize_index_delete r dest
