-- ===== src/Log/Next.antt =====
-- What the inner loop of `analyze` finds at an offset, where a log record is whole or cut.
use db_smw.Common.{
  ℕ, ◌+◌, ◌≤◌, ◌<◌, ◌≡◌, ◌⊎◌, refl, sym, ap, ◌∙◌, subst, inl, inr, List, [], ◌∷◌, ◌++◌, some,
  length, length-append, arith,
}
use mathlib.Core.List.{append_assoc}
use db_smw.Common.Memory.{Memory, Holds, HoldsAll, concat, Holds-HoldsAll, append-Holds}
use db_smw.Common.Words.{bytes, int_bytes}
use db_smw.Log.{
  LogHeader, LogRecord, begin_log, commit_log, abort_log, insert_log, delete_log, update_log,
  index_insert_log, index_delete_log, header_of, offset_log_tot_len,
}
use db_smw.Log.Encode.{type_code}
use db_smw.Log.Format.{header_fields, body_fields, update_fields, fields, encode, lengths}
use db_smw.Log.Reads.{IsHeader, type_of-type_code, type_code-lt, read_u32_lem}
use db_smw.Log.RoundTrip.{IsEncodable, class_of, deserialize_as_lem}
use db_smw.Log.Decode.{read_u32, type_of}
use db_smw.Log.Append.{IsSized}
use db_smw.Log.Manager.{log_buffer_size}
use db_smw.Log.Recovery.{stop, next, read_record, read_next}

-- A prefix of a list is a prefix of a longer prefix.
pub split-append :
    (a b w z : List ℕ)
    → a ++ b ≡ w ++ z
    → length a ≤ length w
    → (v : List ℕ) × (w ≡ a ++ v) × (b ≡ v ++ z)
split-append [] b w z e le = (w, refl, e)
split-append (x ∷ a) b [] z e le = absurd (omega (arith, le))
split-append (x ∷ a) b (y ∷ w) z e le =
    let (v, f, g) = split-append a b w z (ground (arith, e)) (omega arith) in
    (v, ground (arith, e, f), g)

-- A record that can be written, counts its bytes and fits in the buffer.
pub record IsReadable (r : LogRecord) : Type 0 where
  pub encodable : IsEncodable r
  pub sized : IsSized r
  pub fits : (header_of r).log_tot_len ≤ log_buffer_size

abbrev tail_fields : LogRecord → List (List ℕ)
tail_fields (begin_log r) = []
tail_fields (commit_log r) = []
tail_fields (abort_log r) = []
tail_fields (insert_log r) = body_fields r.insert_value r.rid r.table_name
tail_fields (delete_log r) = body_fields r.delete_value r.rid r.table_name
tail_fields (update_log r) = update_fields r.update_value r.now_value r.rid r.table_name
tail_fields (index_insert_log r) = body_fields r.key r.rid r.ix_name
tail_fields (index_delete_log r) = body_fields r.key r.rid r.ix_name

-- A record starts with its header.
fields-header : (r : LogRecord) → fields r ≡ header_fields (header_of r) (tail_fields r)
fields-header (begin_log r) = refl
fields-header (commit_log r) = refl
fields-header (abort_log r) = refl
fields-header (insert_log r) = refl
fields-header (delete_log r) = refl
fields-header (update_log r) = refl
fields-header (index_insert_log r) = refl
fields-header (index_delete_log r) = refl

header_lem :
    (r : LogRecord) → IsEncodable r → IsHeader (header_of r) × ((header_of r).log_type ≡ class_of r)
header_lem (begin_log r) i = i
header_lem (commit_log r) i = i
header_lem (abort_log r) i = i
header_lem (insert_log r) i = (i.0, i.1)
header_lem (delete_log r) i = (i.0, i.1)
header_lem (update_log r) i = (i.0, i.1)
header_lem (index_insert_log r) i = (i.0, i.1)
header_lem (index_delete_log r) i = (i.0, i.1)

-- the first twelve bytes, and the others
abbrev lead : LogHeader → List ℕ
lead h = bytes 4 (type_code h.log_type) ++ int_bytes h.lsn

abbrev trail : LogRecord → List ℕ
trail r =
    int_bytes (header_of r).log_tid ++ (int_bytes (header_of r).prev_lsn ++ concat (tail_fields r))

pub encode-lead :
    (r : LogRecord)
    → encode r ≡ (lead (header_of r) ++ bytes 4 (header_of r).log_tot_len) ++ trail r
unfolding encode
encode-lead r =
    let h = header_of r in
    ap concat (fields-header r)
    ∙ sym (append_assoc (bytes 4 (type_code h.log_type)) (int_bytes h.lsn) _)
    ∙ sym (append_assoc (lead h) (bytes 4 h.log_tot_len) (trail r))

length-lead : (h : LogHeader) → length (lead h) ≡ 8
length-lead h = omega (lengths, length-append (bytes 4 (type_code h.log_type)) (int_bytes h.lsn))

length-start : (h : LogHeader) → length (lead h ++ bytes 4 h.log_tot_len) ≡ 12
length-start h = omega (lengths, length-lead h, length-append (lead h) (bytes 4 h.log_tot_len))

-- The length is read where at least twelve bytes of a record are in the buffer.
read_tot_len :
    (m : Memory) (o : ℕ) (r : LogRecord) (b w z : List ℕ)
    → IsEncodable r
    → encode r ++ b ≡ w ++ z
    → Holds m o w
    → 12 ≤ length w
    → read_u32 (o + offset_log_tot_len) m ≡ (header_of r).log_tot_len
read_tot_len m o r b w z i e holds le =
    let h = header_of r in
    let start = lead h ++ bytes 4 h.log_tot_len in
    let cut = sym (append_assoc start (trail r) b) ∙ ap (λ l. l ++ b) (sym (encode-lead r)) ∙ e in
    let (v, same, more) =
      split-append start (trail r ++ b) w z cut (omega (arith, length-start h)) in
    let there = append-Holds m o start v (subst (λ l. Holds m o l) same holds) in
    let at = append-Holds m o (lead h) (bytes 4 h.log_tot_len) there.0 in
    read_u32_lem m (o + length (lead h)) (o + offset_log_tot_len) (omega (arith, length-lead h))
      h.log_tot_len (header_lem r i).0.log_tot_len at.1

read_record_lem :
    (m : Memory) (o : ℕ) (r : LogRecord)
    → IsEncodable r
    → Holds m o (encode r)
    → read_record o m ≡ next (class_of r) r
unfolding read_record encode
read_record_lem m o r i holds =
    let all = Holds-HoldsAll m o (fields r) holds in
    let first = subst (λ l. HoldsAll m o l) (fields-header r) all in
    let h = header_of r in
    let type = read_u32_lem m o o refl (type_code h.log_type) (type_code-lt h.log_type) first.0 in
    let known = ap type_of type ∙ type_of-type_code h.log_type ∙ ap some (header_lem r i).1 in
    rw (known, read_record) (rw (deserialize_as_lem m o r i all, read_record) refl)

pub length-encode : (r : LogRecord) → IsReadable r → 12 ≤ length (encode r)
length-encode r i = omega (
  arith,
  ap length (encode-lead r),
  length-start (header_of r),
  length-append (lead (header_of r) ++ bytes 4 (header_of r).log_tot_len) (trail r),
)

module _ (m : Memory) (o len : ℕ) (r : LogRecord) (i : IsReadable r) where
  -- A record that is whole in the buffer is read.
  pub read_next-whole :
      Holds m o (encode r) → o + length (encode r) ≤ len → read_next len o m ≡ next (class_of r) r
  unfolding read_next
  read_next-whole holds le =
      let tot = read_tot_len m o r [] (encode r) [] i.encodable refl holds (length-encode r i) in
      let big = length-encode r i in
      rw tot
        (rw (read_record_lem m o r i.encodable holds) (ground (arith, le, big, i.sized, i.fits)))

  -- A record of which fewer than 8 bytes, or at least 12, are in the buffer, but not all, ends the loop.
  pub read_next-cut :
      (b w z : List ℕ)
      → encode r ++ b ≡ w ++ z
      → Holds m o w
      → o + length w ≡ len
      → length w < length (encode r)
      → (length w < 8) ⊎ (12 ≤ length w)
      → read_next len o m ≡ stop
  unfolding read_next
  read_next-cut b w z e holds at lt (inl few) = ground (arith, few, at)
  read_next-cut b w z e holds at lt (inr some_read) =
      rw (read_tot_len m o r b w z i.encodable e holds some_read)
        (ground (arith, some_read, at, lt, i.sized, i.fits))

-- Fewer than 8 bytes end the loop.
pub read_next-few : (m : Memory) (o len : ℕ) → len < o + 8 → read_next len o m ≡ stop
unfolding read_next
read_next-few m o len lt = ground (arith, lt)
