-- ===== src/Storage/Stored.antt =====
-- What the disk has for a page whose offset is in the range of `int`.
use db_smw.Common.{
  ℕ, ◌+◌, ◌*◌, ◌≤◌, ◌<◌, ◌≡◌, ◌≢◌, ◌⊎◌, inl, inr, refl, sym, ap, ◌∙◌, subst, Bool, true, false, ltb,
  if◌then◌else◌, Option, none, some, arith, Bool-cases, ℕ_discrete,
}
use db_smw.Common.Int.{ℤ, pos, negsuc, minus_one, suc_ℤ, ℤ_discrete}
use db_smw.Common.Words.{signed32}
use db_smw.Storage.Page.{PageId}
use db_smw.Storage.Disk.{Device, IsDevice, page_size, offset, next_int}

-- A page number from 0 to 2 ^ 19 - 1: the byte behind the page is at an offset of at most 2 ^ 31.
unfoldable pub page_in_range : ℤ → Bool
page_in_range (pos n) = ltb n 524288
page_in_range (negsuc n) = false

pub page_in_range-ne : (z : ℤ) → page_in_range z ≡ true → z ≢ minus_one
unfolding page_in_range
page_in_range-ne (pos n) e same = cc same
page_in_range-ne (negsuc n) e same = cc e

pub next_int_lem : (z : ℤ) → page_in_range z ≡ true → next_int z ≡ suc_ℤ z
unfolding page_in_range
next_int_lem (pos n) e = ground (arith, e)
next_int_lem (negsuc n) e = refl

-- The offset of a page in range.
pub offset_lem :
    (z : ℤ) → page_in_range z ≡ true → (n : ℕ) × (z ≡ pos n) × (offset z ≡ pos (n * page_size))
unfolding page_in_range offset signed32
offset_lem (pos n) e = let lt : n < 524288 = ground (arith, e) in (n, refl, ground (arith, lt))
offset_lem (negsuc n) e = absurd (cc e)

module _ {Disk Block : Type 0} (dev : Device Disk Block) where
  unfoldable pub stored : Disk → PageId → Option Block
  stored d pid = if page_in_range pid.page_no then dev.read d pid.fd (offset pid.page_no) else none

  pub stored_lem :
      (d : Disk) (pid : PageId)
      → page_in_range pid.page_no ≡ true
      → stored d pid ≡ dev.read d pid.fd (offset pid.page_no)
  unfolding stored
  stored_lem d pid e = rw e refl

  stored-page_in_range :
      (d : Disk) (pid : PageId) (b : Block)
      → stored d pid ≡ some b
      → page_in_range pid.page_no ≡ true
  unfolding stored
  stored-page_in_range d pid b e = ground (arith, e)

  abbrev pub write_at : Disk → PageId → Block → Bool × Disk
  write_at d pid b = dev.write d pid.fd (offset pid.page_no) b

  module _ (laws : IsDevice dev) (d : Disk) (p : PageId) (b : Block)
      (fits : page_in_range p.page_no ≡ true) where
    pub stored-write_self : (write_at d p b).0 ≡ true → stored (write_at d p b).1 p ≡ some b
    stored-write_self done =
        let (n, same, at) = offset_lem p.page_no fits in
        stored_lem (write_at d p b).1 p fits
        ∙ subst
            (λ z.
              (dev.write d p.fd z b).0 ≡ true → dev.read (dev.write d p.fd z b).1 p.fd z ≡ some b)
            (sym at) (laws.read-write_self d p.fd (n * page_size) b) done

    -- Two pages in range do not overlap.
    pub stored-write_ne :
        (q : PageId) (c : Block)
        → p ≢ q
        → stored d q ≡ some c
        → stored (write_at d p b).1 q ≡ some c
    stored-write_ne q c ne e =
        let q_fits = stored-page_in_range d q c e in
        let (n, p_no, p_at) = offset_lem p.page_no fits in
        let (m, q_no, q_at) = offset_lem q.page_no q_fits in
        let read : dev.read d q.fd (pos (m * page_size)) ≡ some c =
          ap (dev.read d q.fd) (sym q_at) ∙ sym (stored_lem d q q_fits) ∙ e in
        stored_lem (write_at d p b).1 q q_fits
        ∙ subst (λ z. dev.read (dev.write d p.fd z b).1 q.fd (offset q.page_no) ≡ some c) (sym p_at)
            (subst (λ z. dev.read (dev.write d p.fd (pos (n * page_size)) b).1 q.fd z ≡ some c)
              (sym q_at)
              (laws.read-write_apart d p.fd q.fd (n * page_size) (m * page_size) b c
                (apart n m p_no q_no) read))
      where
        apart :
            (n m : ℕ)
            → p.page_no ≡ pos n
            → q.page_no ≡ pos m
            → (p.fd ≢ q.fd)
              ⊎ (n * page_size + page_size ≤ m * page_size)
              ⊎ (m * page_size + page_size ≤ n * page_size)
        apart n m p_no q_no = elim (ℤ_discrete p.fd q.fd) [
          | no other ↦ inl other
          | yes file ↦ elim (ℕ_discrete n m) [
            | yes same ↦ absurd (ne (cc (p_no, q_no, same, file)))
            | no differ ↦ inr (elim (Bool-cases (ltb n m)) [
              | inl lt ↦ inl (ground (arith, lt))
              | inr ge ↦ inr (ground (arith, ge, differ))
            ])
          ]
        ]
