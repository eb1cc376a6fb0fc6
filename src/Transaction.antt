-- ===== src/Transaction.antt =====
-- transaction/txn_defs.h and transaction/transaction.h: what a transaction holds, the names of
-- what can be locked, and the reasons for which a transaction is aborted.
pub mod Manager
pub mod Commit
pub mod Recovered
pub mod Release
pub mod Abort
pub mod Locks
mod Tests
use Prim.Native.String.{String}
use db_smw.Common.{ℕ, ℕ_discrete, List, [], Bool, false}
use db_smw.Common.Int.{ℤ, minus_one, ℤ_discrete}

-- defs.h
pub record Rid : Type 0 where
  pub page_no : ℤ
  pub slot_no : ℤ

pub data TransactionState : Type 0 where
  default growing shrinking committed aborted : TransactionState

pub data AbortReason : Type 0 where
  lock_on_shrinking upgrade_conflict deadlock_prevention : AbortReason

pub data WType : Type 0 where
  insert_tuple delete_tuple update_tuple : WType

pub record WriteRecord : Type 0 where
  pub wtype : WType
  pub tab_name : String
  pub rid : Rid
  -- the bytes of `record_`; unused by an insertion
  pub old_record : List ℕ

-- `LockDataId`: its `type_` is the constructor, and each has the fields that `operator==` compares.
pub data LockDataId : Type 0 where
  table_id : ℤ → LockDataId
  record_id : ℤ → Rid → LockDataId
  gap_id : ℤ → List ℕ → LockDataId

unfoldable pub LockDataId_discrete : Discrete LockDataId
unfolding ℕ_discrete ℤ_discrete
LockDataId_discrete = hlevel (ℤ_discrete, ℕ_discrete)

pub record Transaction : Type 0 where
  pub txn_id : ℕ
  pub txn_mode : Bool
  pub state : TransactionState
  pub prev_lsn : ℤ
  -- the last write first
  pub write_set : List WriteRecord
  pub lock_set : List LockDataId

-- the constructor; INVALID_LSN is -1
unfoldable pub new_transaction : ℕ → Transaction
new_transaction id = record {
  txn_id = id;
  txn_mode = false;
  state = default;
  prev_lsn = minus_one;
  write_set = [];
  lock_set = [];
}
