-- ===== src/Log/Device.antt =====
-- storage/disk_manager.cpp: the log file. The system calls on it are the parameter `LogDevice`. Offsets
-- and sizes stay below the bounds of `int`.
use db_smw.Common.{ℕ, ◌-◌, Bool, true, false, ◌≡◌, List, ◌++◌, length, ltb, ◌==◌, if◌then◌else◌}
use db_smw.Common.Int.{ℤ, pos, minus_one}
use db_smw.Common.Memory.{Memory, read_at, write_at}
use db_smw.Storage.Disk.{assertion_failed, unix_error, Outcome, ok, throw}

pub record LogDevice (File : Type 0) : Type 0 where
  -- `stat`
  pub get_file_size : File → ℕ
  -- `lseek(fd, offset, SEEK_SET)` and `read` of so many bytes
  pub read : File → ℕ → ℕ → List ℕ
  -- `lseek(fd, 0, SEEK_END)` and `write`: whether every byte was written, and the new file
  pub append : File → List ℕ → Bool × File

-- The documented behaviour of these calls on a regular file that holds `contents`.
pub record IsLogDevice {File : Type 0} (dev : LogDevice File) (contents : File → List ℕ)
    : Type 0 where
  pub get_file_size_lem : (f : File) → dev.get_file_size f ≡ length (contents f)
  pub read_lem :
      (f : File) (a b c : List ℕ)
      → contents f ≡ a ++ (b ++ c)
      → dev.read f (length a) (length b) ≡ b
  pub append_all :
      (f : File) (bs : List ℕ)
      → (dev.append f bs).0 ≡ true
      → contents (dev.append f bs).1 ≡ contents f ++ bs
  -- a short write leaves the first bytes
  pub append_some :
      (f : File) (bs : List ℕ)
      → (dev.append f bs).0 ≡ false
      → (a : List ℕ) × (b : List ℕ) × (bs ≡ a ++ b)
        × (contents (dev.append f bs).1 ≡ contents f ++ a)

module _ {File : Type 0} (dev : LogDevice File) where
  -- `size` bytes of `log_data` to the end of the file
  unfoldable pub write_log : File → Memory → ℕ → Outcome File File
  unfolding read_at
  write_log file log_data size =
      let (all, after) = dev.append file (read_at 0 size log_data) in
      if all then ok after else throw unix_error after

  -- the last part of `read_log`, for the size that is left in the file
  unfoldable pub read_left : File → Memory → ℕ → ℕ → Outcome Memory (ℤ × Memory)
  unfolding write_at
  read_left file log_data size offset =
      let got = dev.read file offset size in
      if size == 0
      then ok (pos 0, log_data)
      else if length got == size
      then ok (pos size, write_at 0 got log_data)
      else throw assertion_failed (write_at 0 got log_data)

  -- the number of bytes, and the buffer that is filled
  unfoldable pub read_log : File → Memory → ℕ → ℕ → Outcome Memory (ℤ × Memory)
  unfolding read_left
  read_log file log_data size offset =
      let file_size = dev.get_file_size file in
      let left = file_size - offset in
      if ltb file_size offset
      then ok (minus_one, log_data)
      else read_left file log_data (if ltb left size then left else size) offset
