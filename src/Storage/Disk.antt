-- ===== src/Storage/Disk.antt =====
-- storage/disk_manager.cpp: whole pages by number, and the next page number of each file. The
-- system calls `lseek`, `read` and `write` are not the program's code: they are the parameter
-- `Device`, for transfers of one whole page at a byte offset.
use db_smw.Common.Words.{signed32}
use db_smw.Common.{
  ℕ, ◌+◌, ◌-◌, ◌*◌, ◌%◌, ◌^◌, ◌≤◌, ◌⊎◌, ◌==◌, Bool, true, ◌≡◌, ◌≢◌, Option, none, some, ite,
  if◌then◌else◌,
}
use db_smw.Common.Int.{ℤ, pos, negsuc, suc_ℤ, ltb_ℤ, ℤ_discrete}
use db_smw.Storage.Page.{PageId}

abbrev pub page_size : ℕ
page_size = 4096

-- `page_no * PAGE_SIZE` in type `int`. Past its range the product wraps around.
unfoldable pub offset : ℤ → ℤ
unfolding signed32
offset (pos n) = signed32 (n * page_size % 2 ^ 32)
offset (negsuc n) = signed32 ((2 ^ 32 - (n + 1) * page_size % 2 ^ 32) % 2 ^ 32)

pub record Device (Disk Block : Type 0) : Type 0 where
  -- `lseek(fd, offset)` and `write`: whether every byte was written, and the new disk
  pub write : Disk → ℤ → ℤ → Block → Bool × Disk
  -- `lseek` and `read`: the block if every byte was read
  pub read : Disk → ℤ → ℤ → Option Block
  -- what a short `read` leaves in the buffer
  pub short_read : Disk → ℤ → ℤ → Block → Block

-- The documented behaviour of `read` and `write` that the program relies on, at offsets that `lseek`
-- takes; two descriptors are of two files.
pub record IsDevice {Disk Block : Type 0} (dev : Device Disk Block) : Type 0 where
  pub read-write_self :
      (d : Disk) (fd : ℤ) (at : ℕ) (b : Block)
      → (dev.write d fd (pos at) b).0 ≡ true
      → dev.read (dev.write d fd (pos at) b).1 fd (pos at) ≡ some b
  -- bytes of another file or another range are kept, also when the call fails
  pub read-write_apart :
      (d : Disk) (fd gd : ℤ) (at bt : ℕ) (b c : Block)
      → (fd ≢ gd) ⊎ (at + page_size ≤ bt) ⊎ (bt + page_size ≤ at)
      → dev.read d gd (pos bt) ≡ some c
      → dev.read (dev.write d fd (pos at) b).1 gd (pos bt) ≡ some c

pub data Error : Type 0 where
  internal_error assertion_failed unix_error : Error

-- A call returns, or throws; a throw leaves the state that it has made.
pub data Outcome (S A : Type 0) : Type 0 where
  ok : A → Outcome S A
  throw : Error → S → Outcome S A

infixl 5 ◌>>=◌
abbrev pub ◌>>=◌ : {S A B : Type 0} → Outcome S A → (A → Outcome S B) → Outcome S B
ok a >>= f = f a
throw e s >>= f = throw e s

pub record DiskManager (Disk : Type 0) : Type 0 where
  pub disk : Disk
  pub fd2pageno : ℤ → ℤ

abbrev pub max_fd : ℕ
max_fd = 8192

module _ {Disk Block : Type 0} (dev : Device Disk Block) where
  unfoldable pub write_page :
      DiskManager Disk → PageId → Block → Outcome (DiskManager Disk) (DiskManager Disk)
  unfolding offset
  write_page m p b =
      let (done, disk) = dev.write m.disk p.fd (offset p.page_no) b in
      let after = record m { disk = disk } in if done then ok after else throw internal_error after

  -- the new contents of the buffer, and whether the call throws
  unfoldable pub read_page : DiskManager Disk → PageId → Block → Outcome Block Block
  unfolding offset
  read_page m p buffer = elim (dev.read m.disk p.fd (offset p.page_no)) [
    | some b ↦ ok b
    | none ↦ throw internal_error (dev.short_read m.disk p.fd (offset p.page_no) buffer)
  ]

-- `++` of a `std::atomic<int>`, which wraps around
abbrev pub next_int : ℤ → ℤ
next_int (pos n) = if n == 2147483647 then negsuc 2147483647 else pos (n + 1)
next_int (negsuc n) = suc_ℤ (negsuc n)

module _ {Disk : Type 0} where
  -- the assertion is compiled in: the build sets its own release flags, without NDEBUG
  unfoldable pub allocate_page :
      DiskManager Disk → ℤ → Outcome (DiskManager Disk) (ℤ × DiskManager Disk)
  allocate_page m (negsuc n) = throw assertion_failed m
  allocate_page m (pos n) =
      if ltb_ℤ (pos n) (pos max_fd)
      then ok (
        m.fd2pageno (pos n),
        record m {
          fd2pageno =
              λ fd. ite (ℤ_discrete (pos n) fd) (next_int (m.fd2pageno (pos n))) (m.fd2pageno fd);
        },
      )
      else throw assertion_failed m

  unfoldable pub set_fd2pageno : DiskManager Disk → ℤ → ℤ → DiskManager Disk
  set_fd2pageno m fd start = record m {
    fd2pageno = λ f. ite (ℤ_discrete fd f) start (m.fd2pageno f);
  }
