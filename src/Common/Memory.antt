-- ===== src/Common/Memory.antt =====
-- Raw memory, `memcpy`, and what a stretch of memory holds.
use Prim.Native.Nat.{ℕ, zero, suc, ◌+◌, ◌≤◌, ◌<◌}
use mathlib.Core.Path.{◌≡◌, refl, sym, ◌∙◌, subst}
use mathlib.Core.Logic.{if_pos, if_neg}
use mathlib.Core.List.{List, [], ◌∷◌, ◌++◌}
use native.Mathlib.Decide.{ℕ_discrete}
use native.Mathlib.Omega.{arith}
use db_smw.Common.Lists.{length, update}

-- the byte at each address
abbrev pub Memory : Type 0
Memory = ℕ → ℕ

-- memcpy(m + o, bytes, length bytes)
unfoldable pub write_at : ℕ → List ℕ → Memory → Memory
write_at o [] m = m
write_at o (b ∷ bs) m = update (write_at (suc o) bs m) o b

-- the `n` bytes at `m + o`
unfoldable pub read_at : ℕ → ℕ → Memory → List ℕ
read_at o zero m = []
read_at o (suc n) m = m o ∷ read_at (suc o) n m

abbrev pub Holds : Memory → ℕ → List ℕ → Type 0
Holds m o [] = Unit
Holds m o (b ∷ bs) = (m o ≡ b) × Holds m (suc o) bs

-- Stretches that follow one another.
abbrev pub HoldsAll : Memory → ℕ → List (List ℕ) → Type 0
HoldsAll m o [] = Unit
HoldsAll m o (s ∷ ss) = Holds m o s × HoldsAll m (o + length s) ss

unfoldable pub write_all : ℕ → List (List ℕ) → Memory → Memory
unfolding write_at
write_all o [] m = m
write_all o (s ∷ ss) m = write_all (o + length s) ss (write_at o s m)

abbrev pub concat : List (List ℕ) → List ℕ
concat [] = []
concat (s ∷ ss) = s ++ concat ss

pub write_at-below : (o j : ℕ) (bs : List ℕ) (m : Memory) → j < o → write_at o bs m j ≡ m j
unfolding write_at
write_at-below o j [] m lt = refl
write_at-below o j (b ∷ bs) m lt =
    if_neg (ℕ_discrete o j) (λ e. absurd (omega (arith, e))) _ _
    ∙ write_at-below (suc o) j bs m (omega arith)

Holds-same :
    (m n : Memory) (o : ℕ) (bs : List ℕ)
    → ((j : ℕ) → o ≤ j → n j ≡ m j)
    → Holds m o bs
    → Holds n o bs
Holds-same m n o [] h k = tt
Holds-same m n o (b ∷ bs) h k =
    (h o (omega arith) ∙ k.0, Holds-same m n (suc o) bs (λ j le. h j (omega arith)) k.1)

pub write_at-Holds : (o : ℕ) (bs : List ℕ) (m : Memory) → Holds (write_at o bs m) o bs
unfolding write_at
write_at-Holds o [] m = tt
write_at-Holds o (b ∷ bs) m = (
  if_pos (ℕ_discrete o o) refl _ _,
  Holds-same (write_at (suc o) bs m) (write_at o (b ∷ bs) m) (suc o) bs
      (λ j le. if_neg (ℕ_discrete o j) (λ e. absurd (omega (arith, e))) _ _)
      (write_at-Holds (suc o) bs m),
)

-- A write behind a stretch leaves it.
pub Holds-write_at :
    (m : Memory) (o p : ℕ) (a bs : List ℕ)
    → o + length a ≤ p
    → Holds m o a
    → Holds (write_at p bs m) o a
Holds-write_at m o p [] bs le h = tt
Holds-write_at m o p (x ∷ a) bs le h =
    (write_at-below p o bs m (omega arith) ∙ h.0, Holds-write_at m (suc o) p a bs (omega arith) h.1)

pub Holds-append :
    (m : Memory) (o : ℕ) (a b : List ℕ)
    → Holds m o a
    → Holds m (o + length a) b
    → Holds m o (a ++ b)
Holds-append m o [] b h k = subst (λ p. Holds m p b) (omega arith) k
Holds-append m o (x ∷ a) b h k =
    (h.0, Holds-append m (suc o) a b h.1 (subst (λ p. Holds m p b) (omega arith) k))

pub append-Holds :
    (m : Memory) (o : ℕ) (a b : List ℕ)
    → Holds m o (a ++ b)
    → Holds m o a × Holds m (o + length a) b
append-Holds m o [] b h = (tt, subst (λ p. Holds m p b) (omega arith) h)
append-Holds m o (x ∷ a) b h =
    let (u, v) = append-Holds m (suc o) a b h.1 in
    ((h.0, u), subst (λ p. Holds m p b) (omega arith) v)

pub read_at-Holds :
    (m : Memory) (o n : ℕ) (bs : List ℕ) → n ≡ length bs → Holds m o bs → read_at o n m ≡ bs
unfolding read_at
read_at-Holds m o zero [] e h = refl
read_at-Holds m o zero (b ∷ bs) e h = absurd (omega (arith, e))
read_at-Holds m o (suc n) [] e h = absurd (omega (arith, e))
read_at-Holds m o (suc n) (b ∷ bs) e h =
    cc (h.0, read_at-Holds m (suc o) n bs (omega (arith, e)) h.1)

pub Holds-read_at : (m : Memory) (o n : ℕ) → Holds m o (read_at o n m)
unfolding read_at
Holds-read_at m o zero = tt
Holds-read_at m o (suc n) = (refl, Holds-read_at m (suc o) n)

pub length-read_at : (m : Memory) (o n : ℕ) → length (read_at o n m) ≡ n
unfolding read_at
length-read_at m o zero = refl
length-read_at m o (suc n) = omega (arith, length-read_at m (suc o) n)

write_all-keeps :
    (m : Memory) (o p : ℕ) (a : List ℕ) (ss : List (List ℕ))
    → o + length a ≤ p
    → Holds m o a
    → Holds (write_all p ss m) o a
unfolding write_all
write_all-keeps m o p a [] le h = h
write_all-keeps m o p a (s ∷ ss) le h =
    write_all-keeps (write_at p s m) o (p + length s) a ss (omega arith)
      (Holds-write_at m o p a s le h)

pub write_all-HoldsAll :
    (o : ℕ) (ss : List (List ℕ)) (m : Memory) → HoldsAll (write_all o ss m) o ss
unfolding write_all
write_all-HoldsAll o [] m = tt
write_all-HoldsAll o (s ∷ ss) m = (
  write_all-keeps (write_at o s m) o (o + length s) s ss (omega arith) (write_at-Holds o s m),
  write_all-HoldsAll (o + length s) ss (write_at o s m),
)

pub HoldsAll-Holds :
    (m : Memory) (o : ℕ) (ss : List (List ℕ)) → HoldsAll m o ss → Holds m o (concat ss)
HoldsAll-Holds m o [] h = tt
HoldsAll-Holds m o (s ∷ ss) h =
    Holds-append m o s (concat ss) h.0 (HoldsAll-Holds m (o + length s) ss h.1)

pub Holds-HoldsAll :
    (m : Memory) (o : ℕ) (ss : List (List ℕ)) → Holds m o (concat ss) → HoldsAll m o ss
Holds-HoldsAll m o [] h = tt
Holds-HoldsAll m o (s ∷ ss) h =
    let (a, b) = append-Holds m o s (concat ss) h in (a, Holds-HoldsAll m (o + length s) ss b)

-- A stretch, at an address written another way.
pub read_stretch :
    (m : Memory) (p q n : ℕ) (s : List ℕ) → Holds m p s → q ≡ p → n ≡ length s → read_at q n m ≡ s
read_stretch m p q n s h e k = read_at-Holds m q n s k (subst (λ z. Holds m z s) (sym e) h)
