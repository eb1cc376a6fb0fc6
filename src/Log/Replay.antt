-- ===== src/Log/Replay.antt =====
-- What `analyze` has found when it has noted every record: the records, and the last of each transaction.
use db_smw.Common.{
  ◌≡◌, ◌≢◌, ◌⊎◌, refl, sym, ap, ◌∙◌, subst, inl, inr, List, [], ◌∷◌, ◌++◌, Option, none, some,
  arith, In, ite,
}
use mathlib.Core.List.{append_assoc, append-nil}
use db_smw.Common.Int.{ℤ, ℤ_discrete}
use db_smw.Common.Assoc.{find, erase, assign, find-assign}
use db_smw.Common.Partial.{◌>>=◌}
use db_smw.Log.{
  LogRecord, begin_log, commit_log, abort_log, insert_log, delete_log, update_log, index_insert_log,
  index_delete_log, header_of,
}
use db_smw.Log.RoundTrip.{class_of}
use db_smw.Log.Recovery.{Analysis, keep, keep_known, keep_change, tables_after, note}
use db_smw.Log.Scan.{replay}

abbrev pub IsBegin : LogRecord → Type 0
IsBegin (begin_log r) = Unit
IsBegin r = ⊥

-- Each record comes after the first of its transaction, which is known or begins it.
abbrev pub Begun : List ℤ → List LogRecord → Type 0
Begun known [] = Unit
Begun known (r ∷ rs) =
    (IsBegin r ⊎ In (header_of r).log_tid known) × Begun ((header_of r).log_tid ∷ known) rs

abbrev pub later_of : {A : Type 0} → Option LogRecord → Dec A → LogRecord → Option LogRecord
later_of (some last) d r = some last
later_of none d r = ite d (some r) none

-- The last record of a transaction.
unfoldable pub last_of : ℤ → List LogRecord → Option LogRecord
unfolding ℤ_discrete
last_of txn [] = none
last_of txn (r ∷ rs) = later_of (last_of txn rs) (ℤ_discrete (header_of r).log_tid txn) r

abbrev pub lsn_of : Option LogRecord → Option ℤ → Option ℤ
lsn_of none known = known
lsn_of (some r) known = some (header_of r).lsn

-- A transaction has one entry.
abbrev pub Keyed : List (ℤ × ℤ) → Type 0
Keyed m = (k v : ℤ) → In (k, v) m → find ℤ_discrete k m ≡ some v

-- One record more.
record Noted (r : LogRecord) (a b : Analysis) : Type 0 where
  logs : b.logs ≡ a.logs ++ r ∷ []
  att : b.att ≡ assign ℤ_discrete (header_of r).log_tid (header_of r).lsn a.att
  committed : b.committed_txns ≡ a.committed_txns
  aborted : b.aborted_txns ≡ a.aborted_txns

keep-Noted : (r : LogRecord) (a : Analysis) → Noted r a (keep r a)
unfolding keep
keep-Noted r a = record { logs = refl; att = refl; committed = refl; aborted = refl }

module _ (r : LogRecord) (a : Analysis) (lsn : ℤ)
    (known : find ℤ_discrete (header_of r).log_tid a.att ≡ some lsn) where
  keep_known-Noted : (b : Analysis) × (keep_known r a ≡ some b) × Noted r a b
  unfolding keep_known
  keep_known-Noted = (keep r a, rw (known, keep_known) refl, keep-Noted r a)

  keep_change-Noted : (b : Analysis) × (keep_change r a ≡ some b) × Noted r a b
  unfolding keep_change keep
  keep_change-Noted = (
    record (keep r a) { tables = tables_after r a.tables },
    rw (known, keep_change) refl,
    record { logs = refl; att = refl; committed = refl; aborted = refl },
  )

note_lem :
    (r : LogRecord) (a : Analysis)
    → IsBegin r ⊎ ((lsn : ℤ) × (find ℤ_discrete (header_of r).log_tid a.att ≡ some lsn))
    → (b : Analysis) × (note (class_of r) r a ≡ some b) × Noted r a b
unfolding note
note_lem (begin_log r) a h = (keep (begin_log r) a, refl, keep-Noted (begin_log r) a)
note_lem (commit_log r) a (inl h) = absurd h
note_lem (commit_log r) a (inr (l, e)) = keep_known-Noted (commit_log r) a l e
note_lem (abort_log r) a (inl h) = absurd h
note_lem (abort_log r) a (inr (l, e)) = keep_known-Noted (abort_log r) a l e
note_lem (insert_log r) a (inl h) = absurd h
note_lem (insert_log r) a (inr (l, e)) = keep_change-Noted (insert_log r) a l e
note_lem (delete_log r) a (inl h) = absurd h
note_lem (delete_log r) a (inr (l, e)) = keep_change-Noted (delete_log r) a l e
note_lem (update_log r) a (inl h) = absurd h
note_lem (update_log r) a (inr (l, e)) = keep_change-Noted (update_log r) a l e
note_lem (index_insert_log r) a (inl h) = absurd h
note_lem (index_insert_log r) a (inr (l, e)) = keep_change-Noted (index_insert_log r) a l e
note_lem (index_delete_log r) a (inl h) = absurd h
note_lem (index_delete_log r) a (inr (l, e)) = keep_change-Noted (index_delete_log r) a l e

In-erase : (k j w : ℤ) (m : List (ℤ × ℤ)) → In (j, w) (erase ℤ_discrete k m) → In (j, w) m × (k ≢ j)
unfolding erase
In-erase k j w [] h = absurd h
In-erase k j w ((i, v) ∷ m) h = ground (arith, h, In-erase k j w m)

assign-Keyed : (k v : ℤ) (m : List (ℤ × ℤ)) → Keyed m → Keyed (assign ℤ_discrete k v m)
unfolding assign
assign-Keyed k v m u j w (inl e) = ground (arith, find-assign ℤ_discrete k j v m, e)
assign-Keyed k v m u j w (inr h) =
    let (inside, other) = In-erase k j w m h in
    ground (arith, find-assign ℤ_discrete k j v m, other, u j w inside)

-- What `analyze` has after the records `rs` more.
pub record Replayed (rs : List LogRecord) (a b : Analysis) : Type 0 where
  pub logs : b.logs ≡ a.logs ++ rs
  pub att :
      (txn : ℤ) → find ℤ_discrete txn b.att ≡ lsn_of (last_of txn rs) (find ℤ_discrete txn a.att)
  pub keyed : Keyed b.att
  pub committed : b.committed_txns ≡ a.committed_txns
  pub aborted : b.aborted_txns ≡ a.aborted_txns

found_lem :
    {A : Type 0} (d : Dec A) (lsn : ℤ) (x y : Option ℤ)
    → x ≡ ite d (some lsn) y
    → A ⊎ ((l : ℤ) × (y ≡ some l))
    → (l : ℤ) × (x ≡ some l)
found_lem (yes p) lsn x y e h = (lsn, e)
found_lem (no p) lsn x y e (inl q) = absurd (p q)
found_lem (no p) lsn x y e (inr (l, f)) = (l, e ∙ f)

lsn_of_lem :
    {A : Type 0} (o : Option LogRecord) (r : LogRecord) (d : Dec A) (x y : Option ℤ)
    → x ≡ ite d (some (header_of r).lsn) y
    → lsn_of o x ≡ lsn_of (later_of o d r) y
lsn_of_lem (some last) r d x y e = refl
lsn_of_lem none r (yes p) x y e = e
lsn_of_lem none r (no p) x y e = e

pub replay_lem :
    (rs : List LogRecord) (a : Analysis) (known : List ℤ)
    → Begun known rs
    → ((txn : ℤ) → In txn known → (lsn : ℤ) × (find ℤ_discrete txn a.att ≡ some lsn))
    → Keyed a.att
    → (b : Analysis) × (replay rs a ≡ some b) × Replayed rs a b
unfolding replay last_of
replay_lem [] a known begun there u = (
  a,
  refl,
  record {
    logs = sym (append-nil a.logs);
    att = λ txn. refl;
    keyed = u;
    committed = refl;
    aborted = refl;
  },
)
replay_lem (r ∷ rs) a known begun there u =
    let tid = (header_of r).log_tid in
    let lsn = (header_of r).lsn in
    let (a1, good, n) = note_lem r a (elim begun.0 [ inl h ↦ inl h | inr h ↦ inr (there tid h) ]) in
    let at =
      λ (txn : ℤ). ap (find ℤ_discrete txn) n.att ∙ find-assign ℤ_discrete tid txn lsn a.att in
    let (b, done, m) =
      replay_lem rs a1 (tid ∷ known) begun.1
        (λ txn h.
          found_lem (ℤ_discrete tid txn) lsn (find ℤ_discrete txn a1.att)
            (find ℤ_discrete txn a.att) (at txn)
            (elim h [ inl e ↦ inl e | inr k ↦ inr (there txn k) ]))
        (subst Keyed (sym n.att) (assign-Keyed tid lsn a.att u)) in
    (
      b,
      ap (λ x. x >>= replay rs) good ∙ done,
      record {
        logs = m.logs ∙ ap (λ l. l ++ rs) n.logs ∙ append_assoc a.logs (r ∷ []) rs;
        att = λ txn. m.att txn ∙ lsn_of_lem (last_of txn rs) r (ℤ_discrete tid txn) _ _ (at txn);
        keyed = m.keyed;
        committed = m.committed ∙ n.committed;
        aborted = m.aborted ∙ n.aborted;
      },
    )
