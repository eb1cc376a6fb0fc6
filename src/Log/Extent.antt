-- ===== src/Log/Extent.antt =====
-- How many bytes `serialize` writes.
use db_smw.Common.{ℕ, ◌+◌, ◌≤◌, ◌<◌, ◌≡◌, ◌⊎◌}
use db_smw.Common.Memory.{Memory}
use db_smw.Log.{LogRecord, header_of}
use db_smw.Log.Encode.{serialize}

-- An address is written, or both memories have the same there.
abbrev Agree : ℕ → ℕ → Memory → Memory → ℕ → Type 0
Agree o n m k j = ((o ≤ j) × (j < o + n)) ⊎ (m j ≡ k j)

-- `serialize` sets each of the first `log_tot_len_` bytes of `dest`, whatever was there, and no other.
pub record IsExtent (r : LogRecord) : Type 0 where
  pub set_below :
      (dest other : Memory) (j : ℕ)
      → j < (header_of r).log_tot_len
      → serialize r dest j ≡ serialize r other j
  pub kept_above :
      (dest : Memory) (j : ℕ) → (header_of r).log_tot_len ≤ j → serialize r dest j ≡ dest j
