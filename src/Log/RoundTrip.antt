-- ===== src/Log/RoundTrip.antt =====
-- A log record that is written and read back is the same.
use db_smw.Common.{ℕ, ◌+◌, ◌^◌, ◌<◌, ◌≡◌, refl, sym, subst, List, [], some, length}
use db_smw.Common.Memory.{Memory, HoldsAll, read_stretch, write_all-HoldsAll}
use db_smw.Common.Words.{range}
use db_smw.Transaction.{Rid}
use db_smw.Log.{
  LogType, update, insert, delete, begin, commit, abort, index_insert, index_delete, LogHeader,
  LogRecord, begin_log, commit_log, abort_log, insert_log, delete_log, update_log, index_insert_log,
  index_delete_log, offset_log_data,
}
use db_smw.Log.Encode.{serialize}
use db_smw.Log.Format.{header_fields, body_fields, update_fields, fields, serialize-fields, lengths}
use db_smw.Log.Decode.{
  deserialize_body, deserialize_begin, deserialize_commit, deserialize_abort, deserialize_insert,
  deserialize_delete, deserialize_update, deserialize_index_insert, deserialize_index_delete,
  deserialize_as,
}
use db_smw.Log.Reads.{
  IsHeader, IsRid, read_size_lem, read_rid_lem, deserialize_header_lem, deserialize_value_lem,
}

abbrev pub IsBody : List ℕ → Rid → List ℕ → Type 0
IsBody value rid name = (length value < 2 ^ 31) × IsRid rid × (length name < range 8)

-- The sizes and numbers of the record fit their types, and its type is that of its class.
abbrev pub IsEncodable : LogRecord → Type 0
IsEncodable (begin_log r) = IsHeader r.header × (r.header.log_type ≡ begin)
IsEncodable (commit_log r) = IsHeader r.header × (r.header.log_type ≡ commit)
IsEncodable (abort_log r) = IsHeader r.header × (r.header.log_type ≡ abort)
IsEncodable (insert_log r) =
    IsHeader r.header × (r.header.log_type ≡ insert) × IsBody r.insert_value r.rid r.table_name
IsEncodable (delete_log r) =
    IsHeader r.header × (r.header.log_type ≡ delete) × IsBody r.delete_value r.rid r.table_name
IsEncodable (update_log r) =
    IsHeader r.header
    × (r.header.log_type ≡ update)
    × IsBody r.now_value r.rid r.table_name
    × (length r.update_value < 2 ^ 31)
IsEncodable (index_insert_log r) =
    IsHeader r.header × (r.header.log_type ≡ index_insert) × IsBody r.key r.rid r.ix_name
IsEncodable (index_delete_log r) =
    IsHeader r.header × (r.header.log_type ≡ index_delete) × IsBody r.key r.rid r.ix_name

module _ (m : Memory) (o : ℕ) (h : LogHeader) (good : IsHeader h) where
  body_lem :
      (v : List ℕ) (rid : Rid) (name : List ℕ)
      → IsBody v rid name
      → HoldsAll m o (header_fields h (body_fields v rid name))
      → deserialize_body o m ≡ some (h, v, rid, name)
  unfolding deserialize_body
  body_lem v rid name i all =
      let tail = all.1.1.1.1.1 in
      rw (deserialize_header_lem m o h (body_fields v rid name) good all) (
        rw (deserialize_value_lem m _ (o + offset_log_data) v (omega lengths) i.0 tail.0 tail.1.0) (
          rw
            (
              read_rid_lem m _ (o + (offset_log_data + length v + 4)) (omega lengths) rid i.1
                  tail.1.1.0,
              read_size_lem m _ (o + (offset_log_data + length v + 4 + 8)) (omega lengths)
                  (length name) i.2 tail.1.1.1.0,
              read_stretch m _ (o + (offset_log_data + length v + 4 + 8 + 8)) (length name) name
                  tail.1.1.1.1.0 (omega lengths) refl,
            )
            refl))

  deserialize_update_lem :
      (old now : List ℕ) (rid : Rid) (name : List ℕ)
      → IsBody now rid name
      → length old < 2 ^ 31
      → HoldsAll m o (header_fields h (update_fields old now rid name))
      → deserialize_update o m
        ≡ some (record {
          header = h;
          update_value = old;
          now_value = now;
          rid = rid;
          table_name = name;
        })
  unfolding deserialize_update
  deserialize_update_lem old now rid name i j all =
      let first = all.1.1.1.1.1 in
      let tail = first.1.1 in
      let o0 = offset_log_data + length old + 4 in
      let o1 = o0 + (length now + 4) in
      rw (deserialize_header_lem m o h (update_fields old now rid name) good all) (
        rw (deserialize_value_lem m _ (o + offset_log_data) old (omega lengths) j first.0 first.1.0)
          (rw (deserialize_value_lem m _ (o + o0) now (omega lengths) i.0 tail.0 tail.1.0) (
            rw
              (
                read_rid_lem m _ (o + o1) (omega lengths) rid i.1 tail.1.1.0,
                read_size_lem m _ (o + (o1 + 8)) (omega lengths) (length name) i.2 tail.1.1.1.0,
                read_stretch m _ (o + (o1 + 8 + 8)) (length name) name tail.1.1.1.1.0
                    (omega lengths) refl,
              )
              refl)))

-- the type that the class of the record stands for
abbrev pub class_of : LogRecord → LogType
class_of (begin_log r) = begin
class_of (commit_log r) = commit
class_of (abort_log r) = abort
class_of (insert_log r) = insert
class_of (delete_log r) = delete
class_of (update_log r) = update
class_of (index_insert_log r) = index_insert
class_of (index_delete_log r) = index_delete

-- Where its fields are in memory, the record is read.
pub deserialize_as_lem :
    (m : Memory) (o : ℕ) (r : LogRecord)
    → IsEncodable r
    → HoldsAll m o (fields r)
    → deserialize_as (class_of r) o m ≡ some r
unfolding deserialize_as deserialize_begin deserialize_commit deserialize_abort deserialize_insert
    deserialize_delete deserialize_index_insert deserialize_index_delete
deserialize_as_lem m o (begin_log r) i h = rw (deserialize_header_lem m o r.header [] i.0 h) refl
deserialize_as_lem m o (commit_log r) i h = rw (deserialize_header_lem m o r.header [] i.0 h) refl
deserialize_as_lem m o (abort_log r) i h = rw (deserialize_header_lem m o r.header [] i.0 h) refl
deserialize_as_lem m o (insert_log r) i h =
    rw (body_lem m o r.header i.0 r.insert_value r.rid r.table_name i.2 h) refl
deserialize_as_lem m o (delete_log r) i h =
    rw (body_lem m o r.header i.0 r.delete_value r.rid r.table_name i.2 h) refl
deserialize_as_lem m o (update_log r) i h =
    rw
      (deserialize_update_lem m o r.header i.0 r.update_value r.now_value r.rid r.table_name i.2 i.3
        h)
      refl
deserialize_as_lem m o (index_insert_log r) i h =
    rw (body_lem m o r.header i.0 r.key r.rid r.ix_name i.2 h) refl
deserialize_as_lem m o (index_delete_log r) i h =
    rw (body_lem m o r.header i.0 r.key r.rid r.ix_name i.2 h) refl

-- A record whose fields fit their types, written by `serialize` and read by the `deserialize` of its
-- class, is the same record.
pub deserialize_as-serialize :
    (r : LogRecord) (dest : Memory)
    → IsEncodable r
    → deserialize_as (class_of r) 0 (serialize r dest) ≡ some r
deserialize_as-serialize r dest i = deserialize_as_lem (serialize r dest) 0 r i (
    subst (λ m. HoldsAll m 0 (fields r)) (sym (serialize-fields r dest))
      (write_all-HoldsAll 0 (fields r) dest))
