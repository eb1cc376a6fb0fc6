-- ===== src/Log/Snoc.antt =====
-- A log with one record more at its end.
use db_smw.Common.{
  ℕ, suc, ◌+◌, ◌≡◌, ◌⊎◌, ap, ◌∙◌, inl, inr, List, [], ◌∷◌, ◌++◌, some, length, arith, In,
}
use db_smw.Common.Int.{ℤ, pos, ℤ_discrete}
use db_smw.Log.{LogRecord, header_of}
use db_smw.Log.Next.{IsReadable}
use db_smw.Log.Scan.{AllReadable}
use db_smw.Log.Replay.{Begun, last_of, later_of}
use db_smw.Log.Classify.{Numbered}

abbrev pub tid_of : LogRecord → ℤ
tid_of r = (header_of r).log_tid

pub AllReadable-snoc :
    (rs : List LogRecord) (r : LogRecord)
    → AllReadable rs
    → IsReadable r
    → AllReadable (rs ++ r ∷ [])
AllReadable-snoc [] r all i = (i, tt)
AllReadable-snoc (q ∷ rs) r all i = (all.0, AllReadable-snoc rs r all.1 i)

pub Numbered-snoc :
    (n : ℕ) (rs : List LogRecord) (r : LogRecord)
    → Numbered n rs
    → (header_of r).lsn ≡ pos (n + length rs)
    → Numbered n (rs ++ r ∷ [])
Numbered-snoc n [] r u e = (e ∙ ap pos (omega arith), tt)
Numbered-snoc n (q ∷ rs) r u e = (u.0, Numbered-snoc (suc n) rs r u.1 (e ∙ ap pos (omega arith)))

-- a transaction that has a record in the log
abbrev pub Known : ℤ → List LogRecord → Type 0
Known txn [] = ⊥
Known txn (r ∷ rs) = (tid_of r ≡ txn) ⊎ Known txn rs

pub Begun-snoc :
    (known : List ℤ) (rs : List LogRecord) (r : LogRecord)
    → Begun known rs
    → In (tid_of r) known ⊎ Known (tid_of r) rs
    → Begun known (rs ++ r ∷ [])
Begun-snoc known [] r u (inl h) = (inr h, tt)
Begun-snoc known [] r u (inr h) = absurd h
Begun-snoc known (q ∷ rs) r u (inl h) = (u.0, Begun-snoc (tid_of q ∷ known) rs r u.1 (inl (inr h)))
Begun-snoc known (q ∷ rs) r u (inr (inl h)) =
    (u.0, Begun-snoc (tid_of q ∷ known) rs r u.1 (inl (inl h)))
Begun-snoc known (q ∷ rs) r u (inr (inr h)) = (u.0, Begun-snoc (tid_of q ∷ known) rs r u.1 (inr h))

pub last_of-snoc :
    (rs : List LogRecord) (r : LogRecord) → last_of (tid_of r) (rs ++ r ∷ []) ≡ some r
unfolding last_of
last_of-snoc [] r = ground arith
last_of-snoc (q ∷ rs) r =
    ap (λ o. later_of o (ℤ_discrete (tid_of q) (tid_of r)) q) (last_of-snoc rs r)
