-- ===== src/Log/Reads.antt =====
-- What `deserialize` reads where the fields of a record are in memory.
use db_smw.Common.{ℕ, ◌+◌, ◌^◌, ◌<◌, ◌≡◌, refl, sym, ap, ◌∙◌, List, some, length, arith}
use db_smw.Common.Int.{ℤ, pos}
use db_smw.Common.Memory.{Memory, Holds, HoldsAll, read_stretch, append-Holds}
use db_smw.Common.Words.{
  bytes, from_bytes, int_bytes, int_of, range, IsInt, length-bytes, length-int_bytes,
  from_bytes-bytes, int_of-int_bytes,
}
use db_smw.Transaction.{Rid}
use db_smw.Log.{
  LogType, update, insert, delete, begin, commit, abort, index_insert, index_delete, LogHeader,
  offset_lsn, offset_log_tot_len, offset_log_tid, offset_prev_lsn,
}
use db_smw.Log.Encode.{type_code, rid_bytes}
use db_smw.Log.Format.{header_fields, lengths}
use db_smw.Log.Decode.{
  type_of, read_int, read_u32, read_size, read_rid, deserialize_header, deserialize_value,
}

pub type_of-type_code : (t : LogType) → type_of (type_code t) ≡ some t
unfolding type_of type_code
type_of-type_code update = refl
type_of-type_code insert = refl
type_of-type_code delete = refl
type_of-type_code begin = refl
type_of-type_code commit = refl
type_of-type_code abort = refl
type_of-type_code index_insert = refl
type_of-type_code index_delete = refl

pub type_code-lt : (t : LogType) → type_code t < range 4
unfolding type_code
type_code-lt update = omega arith
type_code-lt insert = omega arith
type_code-lt delete = omega arith
type_code-lt begin = omega arith
type_code-lt commit = omega arith
type_code-lt abort = omega arith
type_code-lt index_insert = omega arith
type_code-lt index_delete = omega arith

pub record IsHeader (h : LogHeader) : Type 0 where
  pub lsn : IsInt h.lsn
  pub log_tot_len : h.log_tot_len < range 4
  pub log_tid : IsInt h.log_tid
  pub prev_lsn : IsInt h.prev_lsn

abbrev pub IsRid : Rid → Type 0
IsRid r = IsInt r.page_no × IsInt r.slot_no

module _ (m : Memory) (p q : ℕ) (e : q ≡ p) where
  pub read_int_lem : (z : ℤ) → IsInt z → Holds m p (int_bytes z) → read_int q m ≡ z
  unfolding read_int
  read_int_lem z i h =
      ap int_of (read_stretch m p q 4 (int_bytes z) h e (sym (length-int_bytes z)))
      ∙ int_of-int_bytes z i

  pub read_u32_lem : (w : ℕ) → w < range 4 → Holds m p (bytes 4 w) → read_u32 q m ≡ w
  unfolding read_u32
  read_u32_lem w i h =
      ap from_bytes (read_stretch m p q 4 (bytes 4 w) h e (sym (length-bytes 4 w)))
      ∙ from_bytes-bytes 4 w i

  pub read_size_lem : (w : ℕ) → w < range 8 → Holds m p (bytes 8 w) → read_size q m ≡ w
  unfolding read_size
  read_size_lem w i h =
      ap from_bytes (read_stretch m p q 8 (bytes 8 w) h e (sym (length-bytes 8 w)))
      ∙ from_bytes-bytes 8 w i

pub read_rid_lem :
    (m : Memory) (p q : ℕ)
    → q ≡ p
    → (r : Rid) → IsRid r
    → Holds m p (rid_bytes r)
    → read_rid q m ≡ r
unfolding read_rid rid_bytes
read_rid_lem m p q e r i h =
    let (page, slot) = append-Holds m p (int_bytes r.page_no) (int_bytes r.slot_no) h in
    rw
      (
        read_int_lem m p q e r.page_no i.0 page,
        read_int_lem m (p + length (int_bytes r.page_no)) (q + 4)
            (omega (arith, e, length-int_bytes r.page_no)) r.slot_no i.1 slot,
      )
      refl

-- the addresses of the fields of a header, from where the record starts
pub deserialize_header_lem :
    (m : Memory) (o : ℕ) (h : LogHeader) (rest : List (List ℕ))
    → IsHeader h
    → HoldsAll m o (header_fields h rest)
    → deserialize_header o m ≡ some h
unfolding deserialize_header
deserialize_header_lem m o h rest i (type, (lsn, (len, (tid, (prev, more))))) =
    rw
      (
        read_u32_lem m o o refl (type_code h.log_type) (type_code-lt h.log_type) type,
        type_of-type_code h.log_type,
        read_int_lem m _ (o + offset_lsn) (omega lengths) h.lsn i.lsn lsn,
        read_u32_lem m _ (o + offset_log_tot_len) (omega lengths) h.log_tot_len i.log_tot_len len,
        read_int_lem m _ (o + offset_log_tid) (omega lengths) h.log_tid i.log_tid tid,
        read_int_lem m _ (o + offset_prev_lsn) (omega lengths) h.prev_lsn i.prev_lsn prev,
      )
      refl

pub deserialize_value_lem :
    (m : Memory) (p q : ℕ) (v : List ℕ)
    → q ≡ p
    → length v < 2 ^ 31
    → Holds m p (int_bytes (pos (length v)))
    → Holds m (p + length (int_bytes (pos (length v)))) v
    → deserialize_value q m ≡ some v
unfolding deserialize_value
deserialize_value_lem m p q v e i size val = rw (read_int_lem m p q e (pos (length v)) i size) (
    ap some (
      read_stretch m _ (q + 4) (length v) v val
        (omega (arith, e, length-int_bytes (pos (length v)))) refl))
