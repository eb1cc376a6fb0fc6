-- ===== src/Log/Format.antt =====
-- The bytes of a log record, as the sequence of its fields.
use db_smw.Common.{ℕ, ◌+◌, ◌*◌, ◌<◌, ◌≡◌, refl, List, [], ◌∷◌, ◌++◌, length, length-append, arith}
use db_smw.Common.Int.{pos}
use db_smw.Common.Memory.{Memory, write_all, concat}
use db_smw.Common.Words.{bytes, int_bytes, range, IsInt, length-bytes, length-int_bytes}
use db_smw.Transaction.{Rid}
use db_smw.Log.{
  LogHeader, LogRecord, begin_log, commit_log, abort_log, insert_log, delete_log, update_log,
  index_insert_log, index_delete_log,
}
use db_smw.Log.Encode.{type_code, rid_bytes, serialize}

abbrev pub header_fields : LogHeader → List (List ℕ) → List (List ℕ)
header_fields h rest =
    bytes 4 (type_code h.log_type)
    ∷ int_bytes h.lsn
    ∷ bytes 4 h.log_tot_len
    ∷ int_bytes h.log_tid
    ∷ int_bytes h.prev_lsn
    ∷ rest

abbrev pub body_fields : List ℕ → Rid → List ℕ → List (List ℕ)
body_fields value rid name =
    int_bytes (pos (length value)) ∷ value ∷ rid_bytes rid ∷ bytes 8 (length name) ∷ name ∷ []

abbrev pub update_fields : List ℕ → List ℕ → Rid → List ℕ → List (List ℕ)
update_fields old now rid name = int_bytes (pos (length old)) ∷ old ∷ body_fields now rid name

abbrev pub fields : LogRecord → List (List ℕ)
fields (begin_log r) = header_fields r.header []
fields (commit_log r) = header_fields r.header []
fields (abort_log r) = header_fields r.header []
fields (insert_log r) = header_fields r.header (body_fields r.insert_value r.rid r.table_name)
fields (delete_log r) = header_fields r.header (body_fields r.delete_value r.rid r.table_name)
fields (update_log r) =
    header_fields r.header (update_fields r.update_value r.now_value r.rid r.table_name)
fields (index_insert_log r) = header_fields r.header (body_fields r.key r.rid r.ix_name)
fields (index_delete_log r) = header_fields r.header (body_fields r.key r.rid r.ix_name)

-- The record as one sequence of bytes.
unfoldable pub encode : LogRecord → List ℕ
encode r = concat (fields r)

pub length-rid_bytes : (r : Rid) → length (rid_bytes r) ≡ 8
unfolding rid_bytes
length-rid_bytes r = omega (
  arith,
  length-append (int_bytes r.page_no) (int_bytes r.slot_no),
  length-int_bytes r.page_no,
  length-int_bytes r.slot_no,
)

-- `serialize` writes the fields one after another.
pub serialize-fields :
    (r : LogRecord) (dest : Memory) → serialize r dest ≡ write_all 0 (fields r) dest
unfolding serialize write_all bytes int_bytes rid_bytes
serialize-fields (begin_log r) dest = refl
serialize-fields (commit_log r) dest = refl
serialize-fields (abort_log r) dest = refl
serialize-fields (insert_log r) dest = refl
serialize-fields (delete_log r) dest = refl
serialize-fields (update_log r) dest = refl
serialize-fields (index_insert_log r) dest = refl
serialize-fields (index_delete_log r) dest = refl

-- The lengths of the fields of fixed width.
pub ruleset lengths = (arith, length-bytes, length-int_bytes, length-rid_bytes)
