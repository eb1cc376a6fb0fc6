-- ===== src/Log/Append.antt =====
-- The log file and the log buffer together hold the log.
use db_smw.Common.{
  ◌<◌, ◌^◌, ℕ, ◌+◌, ◌≡◌, refl, sym, ap, ◌∙◌, subst, List, [], ◌∷◌, ◌++◌, length, length-append,
  arith,
}
use mathlib.Core.List.{append_assoc}
use db_smw.Common.Int.{ℤ}
use db_smw.Common.Memory.{
  Memory, Holds, read_at, write_at, concat, write_at-Holds, Holds-write_at, Holds-append,
  Holds-read_at, length-read_at, read_at-Holds, write_all, write_all-HoldsAll, HoldsAll-Holds,
}
use db_smw.Common.Words.{bytes, int_bytes}
use db_smw.Transaction.{Rid}
use db_smw.Log.{
  LogRecord, begin_log, commit_log, abort_log, insert_log, delete_log, update_log, index_insert_log,
  index_delete_log, header_of, new_begin_log, new_commit_log, new_abort_log, new_insert_log,
  new_delete_log, new_update_log, new_index_insert_log, new_index_delete_log,
}
use db_smw.Log.Encode.{serialize}
use db_smw.Log.Format.{fields, encode, serialize-fields, lengths}
use db_smw.Log.Manager.{set_lsn}

-- `log_tot_len_` is the number of bytes that `serialize` writes.
abbrev pub IsSized : LogRecord → Type 0
IsSized r = (header_of r).log_tot_len ≡ length (encode r)

abbrev pub total : List (List ℕ) → ℕ
total [] = 0
total (s ∷ ss) = length s + total ss

pub length-concat : (ss : List (List ℕ)) → length (concat ss) ≡ total ss
length-concat [] = refl
length-concat (s ∷ ss) = omega (arith, length-append s (concat ss), length-concat ss)

total-IsSized : (r : LogRecord) → (header_of r).log_tot_len ≡ total (fields r) → IsSized r
unfolding encode
total-IsSized r e = e ∙ sym (length-concat (fields r))

-- Every constructor of a log record counts its bytes, if they are fewer than 2 ^ 32.
pub new_log-IsSized :
    (txn_id : ℤ) (value now : List ℕ) (rid : Rid) (name : List ℕ)
    → 64 + length value + length now + length name < 2 ^ 32
    → IsSized (begin_log (new_begin_log txn_id))
      × IsSized (commit_log (new_commit_log txn_id))
      × IsSized (abort_log (new_abort_log txn_id))
      × IsSized (insert_log (new_insert_log txn_id value rid name))
      × IsSized (delete_log (new_delete_log txn_id value rid name))
      × IsSized (update_log (new_update_log txn_id value rid name now))
      × IsSized (index_insert_log (new_index_insert_log txn_id value rid name))
      × IsSized (index_delete_log (new_index_delete_log txn_id value rid name))
unfolding new_begin_log new_commit_log new_abort_log new_insert_log new_delete_log new_update_log
    new_index_insert_log new_index_delete_log
new_log-IsSized txn_id value now rid name small = (
  total-IsSized (begin_log (new_begin_log txn_id))
      (omega (lengths, small, length-append name (0 ∷ []))),
  total-IsSized (commit_log (new_commit_log txn_id))
      (omega (lengths, small, length-append name (0 ∷ []))),
  total-IsSized (abort_log (new_abort_log txn_id))
      (omega (lengths, small, length-append name (0 ∷ []))),
  total-IsSized (insert_log (new_insert_log txn_id value rid name))
      (omega (lengths, small, length-append name (0 ∷ []))),
  total-IsSized (delete_log (new_delete_log txn_id value rid name))
      (omega (lengths, small, length-append name (0 ∷ []))),
  total-IsSized (update_log (new_update_log txn_id value rid name now))
      (omega (lengths, small, length-append name (0 ∷ []))),
  total-IsSized (index_insert_log (new_index_insert_log txn_id value rid name))
      (omega (lengths, small, length-append name (0 ∷ []))),
  total-IsSized (index_delete_log (new_index_delete_log txn_id value rid name))
      (omega (lengths, small, length-append name (0 ∷ []))),
)

-- The length does not depend on the lsn.
pub length-encode-set_lsn :
    (lsn : ℤ) (r : LogRecord) → length (encode (set_lsn lsn r)) ≡ length (encode r)
unfolding encode bytes int_bytes
length-encode-set_lsn lsn (begin_log r) = refl
length-encode-set_lsn lsn (commit_log r) = refl
length-encode-set_lsn lsn (abort_log r) = refl
length-encode-set_lsn lsn (insert_log r) = refl
length-encode-set_lsn lsn (delete_log r) = refl
length-encode-set_lsn lsn (update_log r) = refl
length-encode-set_lsn lsn (index_insert_log r) = refl
length-encode-set_lsn lsn (index_delete_log r) = refl

-- The bytes of all records, in order.
unfoldable pub encode_all : List LogRecord → List ℕ
unfolding encode
encode_all [] = []
encode_all (r ∷ rs) = encode r ++ encode_all rs

pub encode_all-append :
    (rs qs : List LogRecord) → encode_all (rs ++ qs) ≡ encode_all rs ++ encode_all qs
unfolding encode_all
encode_all-append [] qs = refl
encode_all-append (r ∷ rs) qs =
    ap (λ l. encode r ++ l) (encode_all-append rs qs)
    ∙ sym (append_assoc (encode r) (encode_all rs) (encode_all qs))

-- What `serialize` leaves in a new array.
pub read_at-serialize :
    (r : LogRecord) (garbage : Memory) (n : ℕ)
    → n ≡ length (encode r)
    → read_at 0 n (serialize r garbage) ≡ encode r
unfolding encode
read_at-serialize r garbage n e = read_at-Holds (serialize r garbage) 0 n (encode r) e (
    subst (λ m. Holds m 0 (concat (fields r))) (sym (serialize-fields r garbage))
      (HoldsAll-Holds (write_all 0 (fields r) garbage) 0 (fields r)
        (write_all-HoldsAll 0 (fields r) garbage)))

-- A buffer that has `bs` copied to its end.
pub read_at-write_at :
    (m : Memory) (o n : ℕ) (bs : List ℕ)
    → n ≡ length bs
    → read_at 0 (o + n) (write_at o bs m) ≡ read_at 0 o m ++ bs
read_at-write_at m o n bs e =
    read_at-Holds (write_at o bs m) 0 (o + n) (read_at 0 o m ++ bs)
      (omega (arith, e, length-append (read_at 0 o m) bs, length-read_at m 0 o))
      (Holds-append (write_at o bs m) 0 (read_at 0 o m) bs
        (Holds-write_at m 0 o (read_at 0 o m) bs (omega (arith, length-read_at m 0 o))
          (Holds-read_at m 0 o))
        (subst (λ p. Holds (write_at o bs m) p bs) (omega (arith, length-read_at m 0 o))
          (write_at-Holds o bs m)))
