-- ===== src/Record/Slots.antt =====
-- The slots of a page do not overlap, and a bit is that of one slot.
use db_smw.Common.{
  ℕ, zero, suc, ◌+◌, ◌*◌, ◌≤◌, ◌<◌, ◌≡◌, ◌≢◌, refl, ◌∙◌, List, [], ◌∷◌, length, arith, if_neg,
  ℕ_discrete, dec_lt,
}
use db_smw.Common.Memory.{Memory, read_at, write_at, write_at-below, read_at-Holds, write_at-Holds}
use db_smw.Record.File.{RmFileHdr, RmPage, write_slot, read_slot}

write_at-above : (o j : ℕ) (bs : List ℕ) (m : Memory) → o + length bs ≤ j → write_at o bs m j ≡ m j
unfolding write_at
write_at-above o j [] m le = refl
write_at-above o j (b ∷ bs) m le =
    if_neg (ℕ_discrete o j) (λ e. absurd (omega (arith, e, le))) _ _
    ∙ write_at-above (suc o) j bs m (omega (arith, le))

read_at-same :
    (m k : Memory) (o n : ℕ)
    → ((j : ℕ) → o ≤ j → j < o + n → m j ≡ k j)
    → read_at o n m ≡ read_at o n k
unfolding read_at
read_at-same m k o zero h = refl
read_at-same m k o (suc n) h = cc (
  h o (omega arith) (omega arith),
  read_at-same m k (suc o) n (λ j le lt. h j (omega arith) (omega arith)),
)

apart : (i j size : ℕ) → i < j → i * size + size ≤ j * size
apart i j size lt = grind arith

pub read_slot-write_slot-same :
    (hdr : RmFileHdr) (i : ℕ) (buf : List ℕ) (page : RmPage)
    → hdr.record_size ≡ length buf
    → read_slot hdr i (write_slot hdr i buf page) ≡ buf
unfolding read_slot write_slot
read_slot-write_slot-same hdr i buf page e =
    let o = i * hdr.record_size in
    read_at-Holds (write_at o buf page.slots) o hdr.record_size buf e
      (write_at-Holds o buf page.slots)

pub read_slot-write_slot-other :
    (hdr : RmFileHdr) (i j : ℕ) (buf : List ℕ) (page : RmPage)
    → hdr.record_size ≡ length buf
    → i ≢ j
    → read_slot hdr j (write_slot hdr i buf page) ≡ read_slot hdr j page
unfolding read_slot write_slot
read_slot-write_slot-other hdr i j buf page e ne =
    let size = hdr.record_size in
    read_at-same (write_at (i * size) buf page.slots) page.slots (j * size) size (λ k le lt.
      elim (dec_lt i j) [
        | yes less ↦
            write_at-above (i * size) k buf page.slots (omega (arith, e, le, apart i j size less))
        | no more ↦
            let after : j < i = ground (arith, ne, more) in
            write_at-below (i * size) k buf page.slots (omega (arith, lt, apart j i size after))
      ])
