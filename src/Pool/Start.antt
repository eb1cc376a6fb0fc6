-- ===== src/Pool/Start.antt =====
-- A new buffer pool: every frame is free.
use db_smw.Common.{
  ℕ, zero, suc, ◌<◌, refl, inl, inr, [], ◌∷◌, arith, ℕ_discrete, In, Distinct, In-append,
  In-append_left, In-append_right, Distinct-snoc,
}
use db_smw.Common.Int.{ℤ}
use db_smw.Common.Assoc.{find}
use db_smw.Storage.Disk.{Device, DiskManager}
use db_smw.Replacer
use db_smw.Replacer.{frames}
use db_smw.Replacer.Order
use db_smw.Pool.{init, all_frames}
use db_smw.Pool.Invariant.{IsGood}

In-all_frames : (f n : ℕ) → In f (all_frames n) → f < n
unfolding all_frames
In-all_frames f zero i = absurd i
In-all_frames f (suc n) i = elim (In-append f (all_frames n) (n ∷ []) i) [
  | inl k ↦ omega (arith, In-all_frames f n k)
  | inr (inl e) ↦ omega arith
  | inr (inr z) ↦ absurd z
]

all_frames-In : (f n : ℕ) → f < n → In f (all_frames n)
unfolding all_frames
all_frames-In f zero h = absurd (omega arith)
all_frames-In f (suc n) h = elim (ℕ_discrete n f) [
  | yes e ↦ In-append_right f (all_frames n) (n ∷ []) (inl e)
  | no ne ↦ In-append_left f (all_frames n) (n ∷ []) (all_frames-In f n (omega arith))
]

all_frames-Distinct : (n : ℕ) → Distinct (all_frames n)
unfolding all_frames
all_frames-Distinct zero = tt
all_frames-Distinct (suc n) =
    Distinct-snoc n (all_frames n) (all_frames-Distinct n) (λ i. omega (arith, In-all_frames n n i))

-- The constructor's pool meets the invariant, whatever `fd` the new pages happen to have.
pub init-IsGood :
    {Disk Block : Type 0} (dev : Device Disk Block) (zeros : Block) (n : ℕ) (m : DiskManager Disk)
    (garbage_fd : ℕ → ℤ)
    → IsGood dev (init zeros n m garbage_fd)
unfolding init find frames Replacer.init
init-IsGood dev zeros n m garbage_fd = record {
  sound = record {
    replacer_valid = Order.init-IsValid n;
    capacity = refl;
    mapped = λ pid f e. cc;
    free = λ f i. (In-all_frames f n i, refl, refl, refl);
    free_distinct = all_frames-Distinct n;
    evictable = λ f i. absurd i;
  };
  complete = record { waiting = λ pid f _ e. cc; owned = λ f _ lt. inl (all_frames-In f n lt) };
  coherent = record { clean = λ pid f e. cc };
}
