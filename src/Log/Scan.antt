-- ===== src/Log/Scan.antt =====
-- The loops of `analyze`, on a buffer and a file that hold log records one after another.
use db_smw.Common.{
  ℕ, zero, suc, ◌+◌, ◌≤◌, ◌<◌, ◌≡◌, ◌⊎◌, refl, sym, ap, ◌∙◌, subst, inl, inr, List, [], ◌∷◌, ◌++◌,
  Option, some, length, length-append, arith, Option-cases, dec_lt,
}
use mathlib.Core.List.{append_assoc}
use db_smw.Common.Partial.{◌>>=◌}
use db_smw.Common.Memory.{Memory, Holds, append-Holds}
use db_smw.Log.{LogType, LogRecord, header_of}
use db_smw.Log.Format.{encode}
use db_smw.Log.RoundTrip.{class_of}
use db_smw.Log.Append.{encode_all}
use db_smw.Log.Recovery.{Analysis, Scan, finished, stop, next, read_next, note, scan}
use db_smw.Log.Next.{split-append, IsReadable, read_next-whole, read_next-cut, read_next-few}

abbrev pub AllReadable : List LogRecord → Type 0
AllReadable [] = Unit
AllReadable (r ∷ rs) = IsReadable r × AllReadable rs

-- The records one after another, each in a round of the inner loop.
unfoldable pub replay : List LogRecord → Analysis → Option Analysis
unfolding note
replay [] a = some a
replay (r ∷ rs) a = do b ← note (class_of r) r a; replay rs b

-- No record of `rs` has its bytes from the 8th to the 11th at the end of the first `n` bytes.
abbrev pub Uncut : ℕ → List LogRecord → Type 0
Uncut n rs =
    (seen todo : List LogRecord) (r : LogRecord)
    → rs ≡ seen ++ r ∷ todo
    → (n < length (encode_all seen) + 8) ⊎ (length (encode_all seen) + 12 ≤ n)

-- The first record has more than `n` bytes.
abbrev pub CutFirst : ℕ → List LogRecord → Type 0
CutFirst n [] = Unit
CutFirst n (r ∷ rs) = n < length (encode r)

-- A run of the inner loop over `n` bytes read the records `seen` of `rs`, and left the others.
pub record Scanned (n o : ℕ) (rs : List LogRecord) (b : Analysis) (x : Scan (ℕ × Analysis))
    : Type 0 where
  pub seen : List LogRecord
  pub todo : List LogRecord
  pub now : Analysis
  pub split : rs ≡ seen ++ todo
  pub got : x ≡ finished (o + length (encode_all seen), now)
  pub rest : replay todo now ≡ some b
  pub moved : (1 ≤ length seen) ⊎ CutFirst n rs

Uncut-tail :
    (n : ℕ) (r : LogRecord) (rs : List LogRecord)
    → Uncut (length (encode r) + n) (r ∷ rs)
    → Uncut n rs
unfolding encode_all
Uncut-tail n r rs u seen todo q e = elim (u (r ∷ seen) todo q (ap (λ l. r ∷ l) e)) [
  | inl lt ↦ inl (omega (arith, lt, length-append (encode r) (encode_all seen)))
  | inr le ↦ inr (omega (arith, le, length-append (encode r) (encode_all seen)))
]

module _ (fuel len : ℕ) (m : Memory) (o : ℕ) (a : Analysis) where
  scan-stop : read_next len o m ≡ stop → scan (suc fuel) len m o a ≡ finished (o + 0, a)
  unfolding scan
  scan-stop e = rw (e, scan) (ap (λ k. finished (k, a)) (omega arith))

  scan-next :
      (type : LogType) (r : LogRecord) (b : Analysis)
      → read_next len o m ≡ next type r
      → note type r a ≡ some b
      → scan (suc fuel) len m o a ≡ scan fuel len m (o + (header_of r).log_tot_len) b
  unfolding scan
  scan-next type r b e f = rw (e, scan) (rw (f, scan) refl)

-- The inner loop on `w`, which is as much of the records and of `t` as the buffer has.
pub scan_lem :
    (m : Memory) (len : ℕ) (t : List ℕ)
    → length t < 8
    → (rs : List LogRecord) (fuel o : ℕ) (w z : List ℕ) (a b : Analysis) → AllReadable rs
    → Uncut (length w) rs
    → encode_all rs ++ t ≡ w ++ z
    → Holds m o w
    → o + length w ≡ len
    → replay rs a ≡ some b
    → length rs < fuel
    → Scanned (length w) o rs b (scan fuel len m o a)
unfolding encode_all replay
scan_lem m len t few [] zero o w z a b all u e holds end e2 lt = absurd (omega (arith, lt))
scan_lem m len t few (r ∷ rs) zero o w z a b all u e holds end e2 lt = absurd (omega (arith, lt))
scan_lem m len t few [] (suc fuel) o w z a b all u e holds end e2 lt =
    let short = read_next-few m o len (omega (arith, few, end, ap length e, length-append w z)) in
    record {
      seen = [];
      todo = [];
      now = a;
      split = refl;
      got = scan-stop fuel len m o a short;
      rest = e2;
      moved = inr tt;
    }
scan_lem m len t few (r ∷ rs) (suc fuel) o w z a b all u e holds end e2 lt =
    let e3 = sym (append_assoc (encode r) (encode_all rs) t) ∙ e in
    elim (dec_lt (length w) (length (encode r))) [
      | yes less ↦
          let cut =
            read_next-cut m o len r all.0 (encode_all rs ++ t) w z e3 holds end less
              (u [] rs r refl) in
          record {
            seen = [];
            todo = r ∷ rs;
            now = a;
            split = refl;
            got = scan-stop fuel len m o a cut;
            rest = e2;
            moved = inr less;
          }
      | no enough ↦ elim (Option-cases (note (class_of r) r a)) [
        | inl bad ↦ absurd (ground (arith, sym (ap (λ x. x >>= replay rs) bad) ∙ e2))
        | inr (a1, good) ↦
            let (v, same, e4) =
              split-append (encode r) (encode_all rs ++ t) w z e3 (omega (arith, enough)) in
            let there = append-Holds m o (encode r) v (subst (λ l. Holds m o l) same holds) in
            let long = ap length same ∙ length-append (encode r) v in
            let sized = all.0.sized in
            let read = read_next-whole m o len r all.0 there.0 (omega (arith, end, long)) in
            let next_o = o + (header_of r).log_tot_len in
            let more =
              scan_lem m len t few rs fuel next_o v z a1 b all.1
                (Uncut-tail (length v) r rs (subst (λ n. Uncut n (r ∷ rs)) long u)) e4
                (subst (λ k. Holds m (o + k) v) (sym sized) there.1)
                (omega (arith, end, long, sized)) (sym (ap (λ x. x >>= replay rs) good) ∙ e2)
                (omega (arith, lt)) in
            record {
              seen = r ∷ more.seen;
              todo = more.todo;
              now = more.now;
              split = ap (λ l. r ∷ l) more.split;
              got =
                  scan-next fuel len m o a (class_of r) r a1 read good
                  ∙ more.got
                  ∙ ap (λ k. finished (k, more.now))
                      (omega (arith, sized, length-append (encode r) (encode_all more.seen)));
              rest = more.rest;
              moved = inl (omega arith);
            }
      ]
    ]
