-- ===== src/Log/Tests.antt =====
-- The log on small inputs.
use db_smw.Common.{ℕ, ◌≤◌, ◌≡◌, refl, List, [], ◌∷◌, some, arith}
use db_smw.Common.Int.{pos}
use db_smw.Common.Memory.{read_at}
use db_smw.Transaction.{Rid}
use db_smw.Log.{LogRecord, insert_log, new_insert_log, header_of}
use db_smw.Log.Encode.{serialize}
use db_smw.Log.Decode.{deserialize_as}
use db_smw.Log.Reads.{IsHeader}
use db_smw.Log.RoundTrip.{IsEncodable, class_of, deserialize_as-serialize}
use db_smw.Log.ListDevice.{list_device, list_device-IsLogDevice}
use db_smw.Log.Manager.{
  LogManager, init, append_log, add_log_to_buffer, flush_log_to_disk, log_buffer_size,
}
use db_smw.Log.Append.{IsSized, new_log-IsSized, encode_all}
use db_smw.Log.Durable.{
  IsLogged, Added, Flushed, append_log-Added, add_log_to_buffer-Added, flush_log_to_disk-Flushed,
}

abbrev rid_2_7 : Rid
rid_2_7 = record { page_no = pos 2; slot_no = pos 7 }

abbrev one_insert : LogRecord
one_insert = insert_log (new_insert_log (pos 5) (10 ∷ 20 ∷ 30 ∷ []) rid_2_7 (116 ∷ []))

one_insert-IsHeader : IsHeader (header_of one_insert)
unfolding new_insert_log
one_insert-IsHeader = record {
  lsn = omega arith;
  log_tot_len = omega arith;
  log_tid = omega arith;
  prev_lsn = omega arith;
}

one_insert-IsEncodable : IsEncodable one_insert
unfolding new_insert_log
one_insert-IsEncodable =
    (one_insert-IsHeader, refl, (omega arith, (omega arith, omega arith), omega arith))

deserialize_as-serialize_example :
    deserialize_as (class_of one_insert) 0 (serialize one_insert (λ i. 9)) ≡ some one_insert
deserialize_as-serialize_example =
    deserialize_as-serialize one_insert (λ i. 9) one_insert-IsEncodable

one_insert-IsSized : IsSized one_insert
one_insert-IsSized =
    (new_log-IsSized (pos 5) (10 ∷ 20 ∷ 30 ∷ []) [] rid_2_7 (116 ∷ []) (omega arith)).3

one_insert-small : (header_of one_insert).log_tot_len ≤ log_buffer_size
unfolding new_insert_log
one_insert-small = omega arith

abbrev pub new_manager : LogManager (List ℕ)
unfolding init
new_manager = init []

new_manager-IsLogged : IsLogged list_device (λ f. f) new_manager []
unfolding init encode_all read_at
new_manager-IsLogged = record { whole = refl; within = omega arith }

add_log_to_buffer-Added_example :
    Added list_device
      (λ f. f)
      new_manager
      []
      one_insert
      (add_log_to_buffer list_device (λ i. 9) one_insert new_manager)
add_log_to_buffer-Added_example =
    add_log_to_buffer-Added list_device (λ f. f) list_device-IsLogDevice (λ i. 9) new_manager []
      one_insert new_manager-IsLogged one_insert-IsSized one_insert-small

abbrev one_added : LogRecord × LogManager (List ℕ)
unfolding append_log
one_added = append_log (λ i. 9) one_insert new_manager

one_added-IsLogged : IsLogged list_device (λ f. f) one_added.1 (one_added.0 ∷ [])
unfolding new_manager new_insert_log one_added append_log
one_added-IsLogged =
    (append_log-Added list_device (λ f. f) list_device-IsLogDevice (λ i. 9) new_manager []
      one_insert new_manager-IsLogged one_insert-IsSized one_insert-small).1

flush_log_to_disk-Flushed_example :
    Flushed list_device
      (λ f. f)
      one_added.1
      (one_added.0 ∷ [])
      (flush_log_to_disk list_device one_added.1)
flush_log_to_disk-Flushed_example =
    flush_log_to_disk-Flushed list_device (λ f. f) list_device-IsLogDevice one_added.1
      (one_added.0 ∷ []) one_added-IsLogged
