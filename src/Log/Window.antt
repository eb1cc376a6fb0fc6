-- ===== src/Log/Window.antt =====
-- What one `read_log` of `analyze` brings into the buffer.
use db_smw.Common.{
  ℕ, zero, suc, ◌+◌, ◌-◌, ◌≤◌, ◌≡◌, ◌⊎◌, refl, sym, ap, ◌∙◌, subst, inl, inr, List, [], ◌∷◌, ◌++◌,
  length, length-append, arith, false, ltb, if◌then◌else◌,
}
use mathlib.Core.List.{append_assoc}
use db_smw.Common.Int.{pos}
use db_smw.Common.Memory.{Memory, write_at}
use db_smw.Storage.Disk.{ok}
use db_smw.Log.{LogRecord}
use db_smw.Log.Format.{encode}
use db_smw.Log.Device.{LogDevice, IsLogDevice, read_left, read_log}
use db_smw.Log.Manager.{log_buffer_size}
use db_smw.Log.Append.{encode_all, encode_all-append}
use db_smw.Log.Next.{IsReadable, length-encode}
use db_smw.Log.Scan.{AllReadable, Uncut}

-- The first `n` bytes of a list, or all of them.
pub window :
    (n : ℕ) (bs : List ℕ)
    → (w : List ℕ) × (z : List ℕ) × (bs ≡ w ++ z) × (length w ≤ n) × ((length w ≡ n) ⊎ (z ≡ []))
window zero bs = ([], bs, refl, omega arith, inl refl)
window (suc n) [] = ([], [], refl, omega arith, inr refl)
window (suc n) (b ∷ bs) =
    let (w, z, e, le, ends) = window n bs in
    (
      b ∷ w,
      z,
      ap (λ l. b ∷ l) e,
      omega (arith, le),
      elim ends [ inl full ↦ inl (ap suc full) | inr last ↦ inr last ],
    )

module _ {File : Type 0} (dev : LogDevice File) (contents : File → List ℕ)
    (laws : IsLogDevice dev contents) where
  read_left-window :
      (file : File) (m : Memory) (d w z : List ℕ)
      → contents file ≡ d ++ (w ++ z)
      → read_left dev file m (length w) (length d) ≡ ok (pos (length w), write_at 0 w m)
  unfolding read_left write_at
  read_left-window file m d [] z e = refl
  read_left-window file m d (x ∷ w) z e = rw (laws.read_lem file d (x ∷ w) z e) (ground arith)

  -- At most `size` bytes are read, and fewer only at the end of the file.
  pub read_log-window :
      (file : File) (m : Memory) (size : ℕ) (d w z : List ℕ)
      → contents file ≡ d ++ (w ++ z)
      → length w ≤ size
      → (length w ≡ size) ⊎ (z ≡ [])
      → read_log dev file m size (length d) ≡ ok (pos (length w), write_at 0 w m)
  unfolding read_log
  read_log-window file m size d w z e le ends =
      let total = laws.get_file_size_lem file ∙ ap length e ∙ length-append d (w ++ z) in
      let left = total ∙ ap (λ k. length d + k) (length-append w z) in
      let last : (length w ≡ size) ⊎ (length z ≡ 0) = elim ends [
        | inl f ↦ inl f
        | inr f ↦ inr (ap length f)
      ] in
      let all = length d + (length w + length z) in
      let inside : ltb all (length d) ≡ false = ground arith in
      let short : (if ltb (all - length d) size then all - length d else size) ≡ length w =
        ground (arith, le, last) in
      rw left (rw (inside, short) (read_left-window file m d w z e))

-- Wherever reading starts, the end of the buffer is not at the 8th to 11th byte of a record.
abbrev pub UncutAll : List LogRecord → Type 0
UncutAll rs = (done rest : List LogRecord) → rs ≡ done ++ rest → Uncut log_buffer_size rest

pub UncutAll-append : (seen todo : List LogRecord) → UncutAll (seen ++ todo) → UncutAll todo
UncutAll-append seen todo u done rest e =
    u (seen ++ done) rest (ap (λ l. seen ++ l) e ∙ sym (append_assoc seen done rest))

pub AllReadable-append :
    (seen todo : List LogRecord) → AllReadable (seen ++ todo) → AllReadable todo
AllReadable-append [] todo all = all
AllReadable-append (r ∷ seen) todo all = AllReadable-append seen todo all.1

length-rest :
    (seen todo : List LogRecord) (r : LogRecord)
    → IsReadable r
    → (rest : List LogRecord) → rest ≡ seen ++ r ∷ todo
    → length (encode_all seen) + 12 ≤ length (encode_all rest)
unfolding encode_all
length-rest seen todo r readable rest f = omega (
  arith,
  ap (λ l. length (encode_all l)) f,
  ap length (encode_all-append seen (r ∷ todo)),
  length-append (encode_all seen) (encode_all (r ∷ todo)),
  length-append (encode r) (encode_all todo),
  length-encode r readable,
)

-- All records are in a window that is the rest of the file.
pub Uncut-whole :
    (rs : List LogRecord) (t w : List ℕ)
    → AllReadable rs
    → encode_all rs ++ t ≡ w
    → Uncut (length w) rs
unfolding encode_all
Uncut-whole rs t w all e seen todo r f =
    let readable = (AllReadable-append seen (r ∷ todo) (subst AllReadable f all)).0 in
    inr (
      omega (
        arith,
        ap length e,
        length-append (encode_all rs) t,
        length-rest seen todo r readable rs f,
      ))

-- In a log that fits in one buffer no record is cut.
pub small-UncutAll :
    (rs : List LogRecord) → AllReadable rs → length (encode_all rs) ≤ log_buffer_size → UncutAll rs
small-UncutAll rs all le done rest e seen todo r f =
    let after = AllReadable-append done rest (subst AllReadable e all) in
    let readable = (AllReadable-append seen (r ∷ todo) (subst AllReadable f after)).0 in
    inr (
      omega (
        arith,
        le,
        ap (λ l. length (encode_all l)) e,
        ap length (encode_all-append done rest),
        length-append (encode_all done) (encode_all rest),
        length-rest seen todo r readable rest f,
      ))
