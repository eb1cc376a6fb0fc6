-- ===== src/Log/Classify.antt =====
-- The last part of `analyze`: which transactions it takes for committed or aborted.
use db_smw.Common.{
  ℕ, suc, ◌+◌, ◌≡◌, ◌⊎◌, ◌↔◌, refl, sym, ap, ◌∙◌, subst, inl, inr, List, [], ◌∷◌, Option, none,
  some, arith, In, Option-cases,
}
use db_smw.Common.Int.{ℤ, pos, ℤ_discrete}
use db_smw.Common.Assoc.{find}
use db_smw.Log.{
  LogRecord, begin_log, commit_log, abort_log, insert_log, delete_log, update_log, index_insert_log,
  index_delete_log, header_of,
}
use db_smw.Log.Recovery.{Analysis, new_analysis, log_at, classify_txn, classify, conclude}
use db_smw.Log.Replay.{Keyed, last_of, lsn_of, Replayed}

abbrev pub IsCommit : Option LogRecord → Type 0
IsCommit (some (commit_log r)) = Unit
IsCommit r = ⊥

abbrev pub IsAbort : Option LogRecord → Type 0
IsAbort (some (abort_log r)) = Unit
IsAbort r = ⊥

-- An entry of `att_` whose record satisfies `P`.
abbrev Entry : (Option LogRecord → Type 0) → List LogRecord → List (ℤ × ℤ) → ℤ → Type 0
Entry P logs es txn = (lsn : ℤ) × In (txn, lsn) es × P (log_at logs lsn)

record Classified (txn : ℤ) (k : ℤ) (l : Option LogRecord) (a b : Analysis) : Type 0 where
  logs : b.logs ≡ a.logs
  committed : In txn b.committed_txns ↔ (((k ≡ txn) × IsCommit l) ⊎ In txn a.committed_txns)
  aborted : In txn b.aborted_txns ↔ (((k ≡ txn) × IsAbort l) ⊎ In txn a.aborted_txns)

classify_txn_lem :
    (txn k : ℤ) (l : Option LogRecord) (a : Analysis) → Classified txn k l a (classify_txn k l a)
unfolding classify_txn
classify_txn_lem txn k none a = record {
  logs = refl;
  committed = ground arith;
  aborted = ground arith;
}
classify_txn_lem txn k (some (begin_log r)) a = record {
  logs = refl;
  committed = ground arith;
  aborted = ground arith;
}
classify_txn_lem txn k (some (commit_log r)) a = record {
  logs = refl;
  committed = ground arith;
  aborted = ground arith;
}
classify_txn_lem txn k (some (abort_log r)) a = record {
  logs = refl;
  committed = ground arith;
  aborted = ground arith;
}
classify_txn_lem txn k (some (insert_log r)) a = record {
  logs = refl;
  committed = ground arith;
  aborted = ground arith;
}
classify_txn_lem txn k (some (delete_log r)) a = record {
  logs = refl;
  committed = ground arith;
  aborted = ground arith;
}
classify_txn_lem txn k (some (update_log r)) a = record {
  logs = refl;
  committed = ground arith;
  aborted = ground arith;
}
classify_txn_lem txn k (some (index_insert_log r)) a = record {
  logs = refl;
  committed = ground arith;
  aborted = ground arith;
}
classify_txn_lem txn k (some (index_delete_log r)) a = record {
  logs = refl;
  committed = ground arith;
  aborted = ground arith;
}

Entry-cons :
    (P : Option LogRecord → Type 0) (logs : List LogRecord) (es : List (ℤ × ℤ)) (k l txn : ℤ)
    → Entry P logs ((k, l) ∷ es) txn ↔ (((k ≡ txn) × P (log_at logs l)) ⊎ Entry P logs es txn)
Entry-cons P logs es k l txn = (
  λ h. elim h.1 [
    | inl e ↦ inl (
      ap (λ (x : ℤ × ℤ). x.0) e,
      subst (λ i. P (log_at logs i)) (sym (ap (λ (x : ℤ × ℤ). x.1) e)) h.2,
    )
    | inr inside ↦ inr (h.0, inside, h.2)
  ],
  λ h. elim h [
    | inl (e, p) ↦ (l, inl (ap (λ i. (i, l)) e), p)
    | inr (lsn, inside, p) ↦ (lsn, inr inside, p)
  ],
)

-- A set that each entry puts the transaction in where its record satisfies `P`.
module _ (P : Option LogRecord → Type 0) (set_of : Analysis → List ℤ) (txn : ℤ)
    (step : (k : ℤ) (l : Option LogRecord) (a : Analysis)
      → In txn (set_of (classify_txn k l a)) ↔ (((k ≡ txn) × P l) ⊎ In txn (set_of a))) where
  classify-set :
      (es : List (ℤ × ℤ)) (logs : List LogRecord) (a : Analysis)
      → a.logs ≡ logs
      → In txn (set_of (classify es a)) ↔ (Entry P logs es txn ⊎ In txn (set_of a))
  unfolding classify
  classify-set [] logs a e = (λ h. inr h, λ h. elim h [ inl x ↦ absurd x.1 | inr y ↦ y ])
  classify-set ((k, l) ∷ es) logs a e =
      let b = classify_txn k (log_at a.logs l) a in
      let c = classify_txn_lem txn k (log_at a.logs l) a in
      let rest = classify-set es logs b (c.logs ∙ e) in
      let first =
        subst (λ ls. In txn (set_of b) ↔ (((k ≡ txn) × P (log_at ls l)) ⊎ In txn (set_of a))) e
          (step k (log_at a.logs l) a) in
      ground (arith, rest, first, Entry-cons P logs es k l txn)

find-In : (k v : ℤ) (m : List (ℤ × ℤ)) → find ℤ_discrete k m ≡ some v → In (k, v) m
unfolding find
find-In k v [] e = ground (arith, e)
find-In k v ((j, w) ∷ m) e = ground (arith, e, find-In k v m)

some_inj : {a b : ℤ} → some a ≡ some b → a ≡ b
some_inj e = ground (arith, e)

module _ (P : Option LogRecord → Type 0) (nowhere : ¬ P none) where
  -- Where each lsn is a place in the log, the entry of a transaction leads to its last record.
  Entry-last :
      (logs : List LogRecord) (att : List (ℤ × ℤ)) (txn : ℤ)
      → Keyed att
      → find ℤ_discrete txn att ≡ lsn_of (last_of txn logs) none
      → ((r : LogRecord) → last_of txn logs ≡ some r → log_at logs (header_of r).lsn ≡ some r)
      → Entry P logs att txn ↔ P (last_of txn logs)
  Entry-last logs att txn u found places = elim (Option-cases (last_of txn logs)) [
    | inl absent ↦
        let lost = found ∙ ap (λ o. lsn_of o none) absent in
        (
          λ h. absurd (ground (arith, sym lost ∙ u txn h.0 h.1)),
          λ p. absurd (nowhere (subst P absent p)),
        )
    | inr (r, last) ↦
        let there = found ∙ ap (λ o. lsn_of o none) last in
        let place = places r last in
        (
          λ h.
              let same = some_inj (sym (u txn h.0 h.1) ∙ there) in
              subst P (ap (log_at logs) same ∙ place ∙ sym last) h.2,
          λ p. (
            (header_of r).lsn,
            find-In txn (header_of r).lsn att there,
            subst P (last ∙ sym place) p,
          ),
        )
  ]

-- The log manager numbers the records one after another.
abbrev pub Numbered : ℕ → List LogRecord → Type 0
Numbered n [] = Unit
Numbered n (r ∷ rs) = ((header_of r).lsn ≡ pos n) × Numbered (suc n) rs

last_of-log_at :
    (txn : ℤ) (n : ℕ) (rs : List LogRecord) (r : LogRecord)
    → Numbered n rs
    → last_of txn rs ≡ some r
    → (i : ℕ) × ((header_of r).lsn ≡ pos (n + i)) × (log_at rs (pos i) ≡ some r)
unfolding last_of log_at
last_of-log_at txn n [] r u e = absurd (ground (arith, e))
last_of-log_at txn n (q ∷ rs) r u e = elim (Option-cases (last_of txn rs)) [
  | inl absent ↦
      let here : q ≡ r = ground (arith, e, absent) in
      (
        0,
        subst (λ (x : LogRecord). (header_of x).lsn ≡ pos (n + 0)) here
            (u.0 ∙ ap pos (omega arith)),
        ap some here,
      )
  | inr (last, later) ↦
      let same : last ≡ r = ground (arith, e, later) in
      let (i, at, place) = last_of-log_at txn (suc n) rs r u.1 (later ∙ ap some same) in
      (suc i, at ∙ ap pos (omega arith), place)
]

-- What `analyze` knows of the records `rs`.
pub record Analyzed (rs : List LogRecord) (b : Analysis) : Type 0 where
  pub logs : b.logs ≡ rs
  pub committed : (txn : ℤ) → In txn b.committed_txns ↔ IsCommit (last_of txn rs)
  pub aborted : (txn : ℤ) → In txn b.aborted_txns ↔ IsAbort (last_of txn rs)

classify-logs : (es : List (ℤ × ℤ)) (a : Analysis) → (classify es a).logs ≡ a.logs
unfolding classify
classify-logs [] a = refl
classify-logs ((k, l) ∷ es) a =
    classify-logs es (classify_txn k (log_at a.logs l) a)
    ∙ (classify_txn_lem k k (log_at a.logs l) a).logs

-- The transactions of the entries, where none was in the set before.
only_entries :
    (txn : ℤ) (xs ys : List ℤ) (E L : Type 0)
    → In txn xs ↔ (E ⊎ In txn ys)
    → ys ≡ []
    → E ↔ L
    → In txn xs ↔ L
only_entries txn xs ys E L sets empty last =
    let none_before = λ (h : In txn ys). subst (In txn) empty h in
    (
      λ h. elim (sets.0 h) [ inl x ↦ last.0 x | inr y ↦ absurd (none_before y) ],
      λ l. sets.1 (inl (last.1 l)),
    )

pub conclude-Analyzed :
    (rs : List LogRecord) (a : Analysis)
    → Numbered 0 rs
    → Replayed rs new_analysis a
    → Analyzed rs (conclude a)
unfolding find conclude
conclude-Analyzed rs a numbered v =
    let places = λ (txn : ℤ) (r : LogRecord) (e : last_of txn rs ≡ some r).
      let (i, at, place) = last_of-log_at txn 0 rs r numbered e in
      ap (log_at rs) (at ∙ ap pos (omega arith)) ∙ place in
    record {
      logs = classify-logs a.att a ∙ v.logs;
      committed = λ txn.
          let last = Entry-last IsCommit (λ x. x) rs a.att txn v.keyed (v.att txn) (places txn) in
          let sets =
            classify-set IsCommit (λ b. b.committed_txns) txn
              (λ k l b. (classify_txn_lem txn k l b).committed) a.att rs a v.logs in
          only_entries txn (classify a.att a).committed_txns a.committed_txns
            (Entry IsCommit rs a.att txn) (IsCommit (last_of txn rs)) sets v.committed last;
      aborted = λ txn.
          let last = Entry-last IsAbort (λ x. x) rs a.att txn v.keyed (v.att txn) (places txn) in
          let sets =
            classify-set IsAbort (λ b. b.aborted_txns) txn
              (λ k l b. (classify_txn_lem txn k l b).aborted) a.att rs a v.logs in
          only_entries txn (classify a.att a).aborted_txns a.aborted_txns
            (Entry IsAbort rs a.att txn) (IsAbort (last_of txn rs)) sets v.aborted last;
    }
