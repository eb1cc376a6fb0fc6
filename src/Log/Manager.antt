-- ===== src/Log/Manager.antt =====
-- recovery/log_manager.cpp: the buffer of the log. `latch_` is let go of between the flush and the
-- append; another thread's call between them is a call before this one or after it, but the buffer
-- may then be full again: see `add_log_to_buffer`.
use db_smw.Common.{ℕ, ◌+◌, ◌*◌, Bool, ltb, ◌==◌, if◌then◌else◌}
use db_smw.Common.Int.{ℤ, pos, minus_one, suc_ℤ}
use db_smw.Common.Memory.{Memory, read_at, write_at}
use db_smw.Storage.Disk.{Outcome, ok, throw, ◌>>=◌}
use db_smw.Log.{LogRecord, header_of, with_header}
use db_smw.Log.Encode.{serialize}
use db_smw.Log.Device.{LogDevice, write_log}

abbrev pub log_buffer_size : ℕ
log_buffer_size = 1024 * 4096

pub record LogBuffer : Type 0 where
  pub buffer : Memory
  pub offset : ℕ

abbrev pub new_log_buffer : LogBuffer
new_log_buffer = record { buffer = λ i. 0; offset = 0 }

unfoldable pub is_full : LogBuffer → ℕ → Bool
is_full b append_size = ltb log_buffer_size (b.offset + append_size)

pub record LogManager (File : Type 0) : Type 0 where
  pub global_lsn : ℤ
  pub log_buffer : LogBuffer
  pub persist_lsn : ℤ
  pub file : File

abbrev pub set_lsn : ℤ → LogRecord → LogRecord
set_lsn lsn r = with_header (record (header_of r) { lsn = lsn }) r

module _ {File : Type 0} where
  unfoldable pub init : File → LogManager File
  init file = record {
    global_lsn = pos 0;
    log_buffer = new_log_buffer;
    persist_lsn = minus_one;
    file = file;
  }

  unfoldable pub set_next_lsn : ℤ → LogManager File → LogManager File
  set_next_lsn lsn g = record g { global_lsn = lsn }

  -- The last part of `add_log_to_buffer`. `garbage` is what the new array has before it is written.
  unfoldable pub append_log : Memory → LogRecord → LogManager File → LogRecord × LogManager File
  unfolding serialize read_at write_at
  append_log garbage log_record g =
      let log = set_lsn g.global_lsn log_record in
      let len = (header_of log).log_tot_len in
      let dest = serialize log garbage in
      (
        log,
        record g {
          global_lsn = suc_ℤ g.global_lsn;
          log_buffer = record {
            buffer = write_at g.log_buffer.offset (read_at 0 len dest) g.log_buffer.buffer;
            offset = g.log_buffer.offset + len;
          };
        },
      )

module _ {File : Type 0} (dev : LogDevice File) where
  unfoldable pub flush_log_to_disk : LogManager File → Outcome (LogManager File) (LogManager File)
  unfolding write_log
  flush_log_to_disk g =
      if g.log_buffer.offset == 0
      then ok g
      else elim (write_log dev g.file g.log_buffer.buffer g.log_buffer.offset) [
        | ok file ↦ ok (record g { file = file; log_buffer = new_log_buffer })
        | throw e file ↦ throw e (record g { file = file })
      ]

  -- the record with its lsn, which is the value returned
  unfoldable pub add_log_to_buffer :
      Memory → LogRecord → LogManager File → Outcome (LogManager File) (LogRecord × LogManager File)
  unfolding is_full flush_log_to_disk append_log
  add_log_to_buffer garbage log_record g = do
    h ←
        if is_full g.log_buffer (header_of log_record).log_tot_len
        then flush_log_to_disk g
        else ok g
    ok (append_log garbage log_record h)
