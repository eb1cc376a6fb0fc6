-- ===== src/Log/Durable.antt =====
-- The log manager keeps every record, in order, in the file and then in the buffer.
use mathlib.Core.List.{append_assoc, append-nil}
use db_smw.Common.{
  ℕ, ◌+◌, ◌≤◌, ◌≡◌, refl, sym, ap, ◌∙◌, false, inl, inr, List, [], ◌∷◌, ◌++◌, arith, ◌==◌,
  Bool-cases,
}
use db_smw.Common.Int.{suc_ℤ}
use db_smw.Common.Memory.{Memory, read_at, length-read_at}
use db_smw.Storage.Disk.{Error, unix_error, Outcome, ok, throw, ◌>>=◌}
use db_smw.Log.{
  LogHeader, LogRecord, header_of, with_header, begin_log, commit_log, abort_log, insert_log,
  delete_log, update_log, index_insert_log, index_delete_log,
}
use db_smw.Log.Encode.{serialize}
use db_smw.Log.Format.{encode}
use db_smw.Log.Device.{LogDevice, IsLogDevice}
use db_smw.Log.Manager.{
  is_full, LogManager, set_lsn, append_log, flush_log_to_disk, add_log_to_buffer, log_buffer_size,
}
use db_smw.Log.Append.{
  IsSized, length-encode-set_lsn, encode_all, encode_all-append, read_at-serialize,
  read_at-write_at,
}

header_of-with_header : (h : LogHeader) (r : LogRecord) → header_of (with_header h r) ≡ h
header_of-with_header h (begin_log r) = refl
header_of-with_header h (commit_log r) = refl
header_of-with_header h (abort_log r) = refl
header_of-with_header h (insert_log r) = refl
header_of-with_header h (delete_log r) = refl
header_of-with_header h (update_log r) = refl
header_of-with_header h (index_insert_log r) = refl
header_of-with_header h (index_delete_log r) = refl

module _ {File : Type 0} (dev : LogDevice File) (contents : File → List ℕ) where
  -- The file and the buffer are the bytes of these records.
  pub record IsLogged (g : LogManager File) (rs : List LogRecord) : Type 0 where
    pub whole : contents g.file ++ read_at 0 g.log_buffer.offset g.log_buffer.buffer ≡ encode_all rs
    pub within : g.log_buffer.offset ≤ log_buffer_size

  -- A write that fails leaves the first bytes of the buffer in the file, and the buffer.
  abbrev pub Torn : LogManager File → Error → LogManager File → Type 0
  Torn g e h =
      (e ≡ unix_error)
      × (h.log_buffer ≡ g.log_buffer)
      × ((a : List ℕ) × (b : List ℕ) × (read_at 0 g.log_buffer.offset g.log_buffer.buffer ≡ a ++ b)
          × (contents h.file ≡ contents g.file ++ a))

  -- What each outcome of `flush_log_to_disk` means.
  abbrev pub Flushed :
      LogManager File → List LogRecord → Outcome (LogManager File) (LogManager File) → Type 0
  Flushed g rs (ok h) =
      IsLogged h rs
      × (contents h.file ≡ encode_all rs)
      × (h.log_buffer.offset ≡ 0)
      × (h.global_lsn ≡ g.global_lsn)
  Flushed g rs (throw e h) = Torn g e h

  -- What each outcome of `add_log_to_buffer` means.
  abbrev pub Added :
      LogManager File
      → List LogRecord
      → LogRecord
      → Outcome (LogManager File) (LogRecord × LogManager File)
      → Type 0
  Added g rs r (ok (log, h)) =
      (log ≡ set_lsn g.global_lsn r)
      × IsLogged h (rs ++ log ∷ [])
      × (h.global_lsn ≡ suc_ℤ g.global_lsn)
  Added g rs r (throw e h) = Torn g e h

  module _ (laws : IsLogDevice dev contents) where
    -- On a log manager that holds the records `rs`: where `flush_log_to_disk` returns, the file has
    -- them all and the buffer is empty; where it throws, the file has a part of the buffer more.
    pub flush_log_to_disk-Flushed :
        (g : LogManager File) (rs : List LogRecord)
        → IsLogged g rs
        → Flushed g rs (flush_log_to_disk dev g)
    unfolding flush_log_to_disk
    flush_log_to_disk-Flushed g rs v = elim (Bool-cases (g.log_buffer.offset == 0)) [
      | inl e ↦
          let nothing : g.log_buffer.offset ≡ 0 = ground arith in
          let file_only =
            sym (append-nil (contents g.file))
            ∙ ap (λ k. contents g.file ++ read_at 0 k g.log_buffer.buffer) (sym nothing)
            ∙ v.whole in
          rw e (v, file_only, nothing, refl)
      | inr e ↦
          elim (Bool-cases
            (dev.append g.file (read_at 0 g.log_buffer.offset g.log_buffer.buffer)).0) [
              | inl all ↦
                  let bs = read_at 0 g.log_buffer.offset g.log_buffer.buffer in
                  let now = laws.append_all g.file bs all ∙ v.whole in
                  rw (e, all)
                    (record { whole = append-nil _ ∙ now; within = omega arith }, now, refl, refl)
              | inr some_left ↦ rw (e, some_left) (refl, refl, laws.append_some g.file _ some_left)
            ]
    ]

    pub append_log-Added :
        (garbage : Memory) (g : LogManager File) (rs : List LogRecord) (r : LogRecord)
        → IsLogged g rs
        → IsSized r
        → g.log_buffer.offset + (header_of r).log_tot_len ≤ log_buffer_size
        → Added g rs r (ok (append_log garbage r g))
    unfolding append_log encode_all
    append_log-Added garbage g rs r v sized fits =
        let lsn = g.global_lsn in
        let log = set_lsn lsn r in
        let off = g.log_buffer.offset in
        let buf = g.log_buffer.buffer in
        let len = (header_of log).log_tot_len in
        let dest = serialize log garbage in
        let same : len ≡ (header_of r).log_tot_len =
          ap (λ (h : LogHeader). h.log_tot_len)
            (header_of-with_header (record (header_of r) { lsn = lsn }) r) in
        let counted = same ∙ sized ∙ sym (length-encode-set_lsn lsn r) in
        let copied =
          read_at-write_at buf off len (read_at 0 len dest) (sym (length-read_at dest 0 len))
          ∙ ap (λ bs. read_at 0 off buf ++ bs) (read_at-serialize log garbage len counted) in
        let grown =
          ap (λ bs. contents g.file ++ bs) copied
          ∙ sym (append_assoc (contents g.file) (read_at 0 off buf) (encode log))
          ∙ ap (λ bs. bs ++ encode log) v.whole
          ∙ ap (λ bs. encode_all rs ++ bs) (sym (append-nil (encode log)))
          ∙ sym (encode_all-append rs (log ∷ [])) in
        (refl, record { whole = grown; within = omega (arith, same) }, refl)

    room_left :
        (g : LogManager File) (r : LogRecord)
        → is_full g.log_buffer (header_of r).log_tot_len ≡ false
        → g.log_buffer.offset + (header_of r).log_tot_len ≤ log_buffer_size
    unfolding is_full
    room_left g r e = ground arith

    after_flush :
        (garbage : Memory) (g : LogManager File) (rs : List LogRecord) (r : LogRecord)
        → IsSized r
        → (header_of r).log_tot_len ≤ log_buffer_size
        → (o : Outcome (LogManager File) (LogManager File)) → Flushed g rs o
        → Added g rs r (o >>= λ h. ok (append_log garbage r h))
    after_flush garbage g rs r sized fits (throw e h) f = f
    after_flush garbage g rs r sized fits (ok h) f =
        let (log, logged, next) = append_log-Added garbage h rs r f.0 sized (omega (arith, f.2)) in
        (log ∙ ap (λ lsn. set_lsn lsn r) f.3, logged, next ∙ ap suc_ℤ f.3)

    -- On a log manager that holds the records `rs`, for a record that counts its bytes and fits in an
    -- empty buffer: where `add_log_to_buffer` returns, the record has the next lsn and is the last that
    -- the manager holds, the buffer is within its bounds, and the lsn has moved on; where it throws,
    -- the file has a part of the buffer more.
    pub add_log_to_buffer-Added :
        (garbage : Memory) (g : LogManager File) (rs : List LogRecord) (r : LogRecord)
        → IsLogged g rs
        → IsSized r
        → (header_of r).log_tot_len ≤ log_buffer_size
        → Added g rs r (add_log_to_buffer dev garbage r g)
    unfolding add_log_to_buffer
    add_log_to_buffer-Added garbage g rs r v sized fits =
        elim (Bool-cases (is_full g.log_buffer (header_of r).log_tot_len)) [
          | inr room ↦ rw room (append_log-Added garbage g rs r v sized (room_left g r room))
          | inl full ↦ rw full (
              after_flush garbage g rs r sized fits (flush_log_to_disk dev g)
                (flush_log_to_disk-Flushed g rs v))
        ]
