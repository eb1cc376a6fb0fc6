-- ===== src/Log/Rounds.antt =====
-- The outer loop of `analyze`, round by round.
use db_smw.Common.{
  ℕ, zero, suc, ◌+◌, ◌≤◌, ◌<◌, ◌≡◌, ◌⊎◌, refl, sym, ap, ◌∙◌, subst, inl, inr, List, [], ◌∷◌, ◌++◌,
  some, length, length-append, arith,
}
use mathlib.Core.List.{append_assoc, append-nil}
use db_smw.Common.Int.{pos}
use db_smw.Common.Memory.{Memory, write_at, write_at-Holds}
use db_smw.Storage.Disk.{ok}
use db_smw.Log.{LogRecord}
use db_smw.Log.Format.{encode}
use db_smw.Log.Device.{LogDevice, IsLogDevice, read_log}
use db_smw.Log.Manager.{log_buffer_size}
use db_smw.Log.Append.{encode_all, encode_all-append}
use db_smw.Log.Recovery.{Analysis, finished, running, scan, conclude, analyze_from}
use db_smw.Log.Next.{length-encode}
use db_smw.Log.Scan.{AllReadable, replay, Uncut, CutFirst, scan_lem}
use db_smw.Log.Window.{
  window, read_log-window, UncutAll, UncutAll-append, AllReadable-append, Uncut-whole,
}

module _ {File : Type 0} (dev : LogDevice File) (fuel : ℕ) (file : File) where
  round-end :
      (rounds off : ℕ) (m m1 : Memory) (a : Analysis)
      → read_log dev file m log_buffer_size off ≡ ok (pos 0, m1)
      → analyze_from dev (suc rounds) fuel file m off a ≡ finished (conclude a)
  unfolding analyze_from
  round-end rounds off m m1 a e = rw (e, analyze_from) refl

  round-scan :
      (rounds off l o : ℕ) (m m1 : Memory) (a b : Analysis)
      → read_log dev file m log_buffer_size off ≡ ok (pos (suc l), m1)
      → scan fuel (suc l) m1 0 a ≡ finished (o, b)
      → analyze_from dev (suc rounds) fuel file m off a
        ≡ analyze_from dev rounds fuel file m1 (off + o) b
  unfolding analyze_from
  round-scan rounds off l o m m1 a b e f = rw (e, analyze_from) (rw (f, analyze_from) refl)

  module _ (contents : File → List ℕ) (laws : IsLogDevice dev contents) (t : List ℕ)
      (few : length t < 8) (b : Analysis) where
    -- Before a round of the outer loop: the file from `d` on has the records `rs`, then `t`.
    pub record Ready (d : List ℕ) (rs : List LogRecord) (a : Analysis) : Type 0 where
      pub whole : contents file ≡ d ++ (encode_all rs ++ t)
      pub readable : AllReadable rs
      pub uncut : UncutAll rs
      pub rest : replay rs a ≡ some b
      pub fueled : length rs < fuel

    -- A round of the outer loop leads to the state before the next round.
    record Round (rounds : ℕ) (m : Memory) (d : List ℕ) (rs : List LogRecord) (a : Analysis)
        : Type 0 where
      seen : List LogRecord
      todo : List LogRecord
      now : Analysis
      buffer : Memory
      ready : Ready (d ++ encode_all seen) todo now
      goes_on :
          analyze_from dev (suc rounds) fuel file m (length d) a
          ≡ analyze_from dev rounds fuel file buffer (length (d ++ encode_all seen)) now
      shorter : (length todo < length rs) ⊎ (rs ≡ [])

    -- A window of the file that has a whole first record lets the loop move on.
    shorter_lem :
        (w z : List ℕ) (rs seen todo : List LogRecord)
        → AllReadable rs
        → rs ≡ seen ++ todo
        → encode_all rs ++ t ≡ w ++ z
        → (length w ≡ log_buffer_size) ⊎ (z ≡ [])
        → (1 ≤ length seen) ⊎ CutFirst (length w) rs
        → (length todo < length rs) ⊎ (rs ≡ [])
    unfolding encode_all
    shorter_lem w z rs seen todo all split e ends (inl one) =
        inl (omega (arith, one, ap length split, length-append seen todo))
    shorter_lem w z [] seen todo all split e ends (inr cut) = inr refl
    shorter_lem w z (r ∷ rs) seen todo all split e (inl full) (inr cut) =
        absurd (omega (arith, full, cut, all.0.sized, all.0.fits))
    shorter_lem w z (r ∷ rs) seen todo all split e (inr last) (inr cut) = absurd (
        omega (
          arith,
          cut,
          ap length e,
          ap length last,
          length-append w z,
          length-append (encode r ++ encode_all rs) t,
          length-append (encode r) (encode_all rs),
        ))

    window-Uncut :
        (w z : List ℕ) (rs : List LogRecord)
        → AllReadable rs
        → UncutAll rs
        → encode_all rs ++ t ≡ w ++ z
        → (length w ≡ log_buffer_size) ⊎ (z ≡ [])
        → Uncut (length w) rs
    window-Uncut w z rs all u e (inl full) = subst (λ n. Uncut n rs) (sym full) (u [] rs refl)
    window-Uncut w z rs all u e (inr last) =
        Uncut-whole rs t w all (e ∙ ap (λ l. w ++ l) last ∙ append-nil w)

    window-Round :
        (rounds : ℕ) (m : Memory) (d : List ℕ) (rs : List LogRecord) (a : Analysis) (w z : List ℕ)
        → Ready d rs a
        → 0 < length (encode_all rs ++ t)
        → encode_all rs ++ t ≡ w ++ z
        → length w ≤ log_buffer_size
        → (length w ≡ log_buffer_size) ⊎ (z ≡ [])
        → Round rounds m d rs a
    window-Round rounds m d rs a [] z v some_left e le (inl full) = absurd (omega (arith, full))
    window-Round rounds m d rs a [] z v some_left e le (inr last) =
        absurd (omega (arith, some_left, ap length e, ap length last))
    window-Round rounds m d rs a (x ∷ w) z v some_left e le ends =
        let filled = write_at 0 (x ∷ w) m in
        let read =
          read_log-window dev contents laws file m log_buffer_size d (x ∷ w) z
            (v.whole ∙ ap (λ l. d ++ l) e) le ends in
        let s =
          scan_lem filled (suc (length w)) t few rs fuel 0 (x ∷ w) z a b v.readable
            (window-Uncut (x ∷ w) z rs v.readable v.uncut e ends) e (write_at-Holds 0 (x ∷ w) m)
            (omega arith) v.rest v.fueled in
        let order = ap encode_all s.split ∙ encode_all-append s.seen s.todo in
        record {
          seen = s.seen;
          todo = s.todo;
          now = s.now;
          buffer = filled;
          ready = record {
            whole =
                v.whole
                ∙ ap (λ l. d ++ (l ++ t)) order
                ∙ ap (λ l. d ++ l) (append_assoc (encode_all s.seen) (encode_all s.todo) t)
                ∙ sym (append_assoc d (encode_all s.seen) (encode_all s.todo ++ t));
            readable = AllReadable-append s.seen s.todo (subst AllReadable s.split v.readable);
            uncut = UncutAll-append s.seen s.todo (subst UncutAll s.split v.uncut);
            rest = s.rest;
            fueled = omega (arith, v.fueled, ap length s.split, length-append s.seen s.todo);
          };
          goes_on =
              round-scan rounds (length d) (length w) (0 + length (encode_all s.seen)) m filled a
                s.now read s.got
              ∙ ap (λ k. analyze_from dev rounds fuel file filled k s.now)
                  (omega (arith, length-append d (encode_all s.seen)));
          shorter = shorter_lem (x ∷ w) z rs s.seen s.todo v.readable s.split e ends s.moved;
        }

    round_lem :
        (rounds : ℕ) (m : Memory) (d : List ℕ) (rs : List LogRecord) (a : Analysis)
        → Ready d rs a
        → 0 < length (encode_all rs ++ t)
        → Round rounds m d rs a
    round_lem rounds m d rs a v some_left =
        let (w, z, e, le, ends) = window log_buffer_size (encode_all rs ++ t) in
        window-Round rounds m d rs a w z v some_left e le ends

    read_log-end :
        (m : Memory) (d : List ℕ)
        → contents file ≡ d
        → read_log dev file m log_buffer_size (length d) ≡ ok (pos 0, m)
    unfolding write_at
    read_log-end m d e =
        read_log-window dev contents laws file m log_buffer_size d [] [] (e ∙ sym (append-nil d))
          (omega arith) (inr refl)

    pub ends_lem :
        (rounds : ℕ) (m : Memory) (d : List ℕ) (rs : List LogRecord) (a : Analysis)
        → Ready d rs a
        → t ≡ []
        → length rs < rounds
        → analyze_from dev rounds fuel file m (length d) a ≡ finished (conclude b)
    unfolding replay encode_all
    ends_lem zero m d rs a v none_left lt = absurd (omega (arith, lt))
    ends_lem (suc rounds) m d [] a v none_left lt =
        let all = v.whole ∙ ap (λ l. d ++ l) none_left ∙ append-nil d in
        round-end rounds (length d) m m a (read_log-end m d all) ∙ ground (arith, v.rest)
    ends_lem (suc rounds) m d (r ∷ rs) a v none_left lt =
        let long : 0 < length ((encode r ++ encode_all rs) ++ t) = omega (
          arith,
          length-append (encode r ++ encode_all rs) t,
          length-append (encode r) (encode_all rs),
          length-encode r v.readable.0,
        ) in
        let x = round_lem rounds m d (r ∷ rs) a v long in
        let less : length x.todo < suc (length rs) = elim x.shorter [
          | inl l ↦ l
          | inr e ↦ ground (arith, e)
        ] in
        x.goes_on
        ∙ ends_lem rounds x.buffer (d ++ encode_all x.seen) x.todo x.now x.ready none_left
            (omega (arith, less, lt))

    pub runs_lem :
        (rounds : ℕ) (m : Memory) (d : List ℕ) (rs : List LogRecord) (a : Analysis)
        → Ready d rs a
        → 0 < length t
        → analyze_from dev rounds fuel file m (length d) a ≡ running
    unfolding analyze_from
    runs_lem zero m d rs a v some_left = refl
    runs_lem (suc rounds) m d rs a v some_left =
        let x =
          round_lem rounds m d rs a v (omega (arith, some_left, length-append (encode_all rs) t)) in
        x.goes_on ∙ runs_lem rounds x.buffer (d ++ encode_all x.seen) x.todo x.now x.ready some_left
