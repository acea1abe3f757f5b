-- ===== src/Store/Memory/Reconcile.antt =====
-- callback_reconcile_memory.go: the transactions whose callback was never enqueued.
pub mod Complete
use Prim.Native.String.{◌++◌ as append}
use ocpphal_go.Prelude.{
  ℕ, zero, suc, String, Bool, true, false, not, ◌&&◌, List, [], ◌∷◌, ℤ, GoMap, if◌then◌else◌,
  is_some, itoa,
}
use ocpphal_go.Store.Types.{Transaction}
use ocpphal_go.Store.Memory.{MemoryStore, MemoryCallback}
use ocpphal_go.Store.Memory.Outbox.{has_key}

abbrev pub kind_start_transaction : String
kind_start_transaction = "start_transaction"

abbrev pub kind_completed_transaction : String
kind_completed_transaction = "completed_transaction"

-- `fmt.Sprintf("%s:%d", kind, id)`
unfoldable pub dedupe_key : String → ℤ → String
dedupe_key kind tid = append kind (append ":" (itoa tid))

module _ {F : Type 0} where
  -- The loop of listTransactionsMissingCallback, with room for `room` more.
  unfoldable pub missing :
      String → Bool → ℕ → GoMap ℤ (Transaction F) → GoMap ℕ MemoryCallback → List (Transaction F)
  missing kind completed_only zero txs outbox = []
  missing kind completed_only (suc room) [] outbox = []
  missing kind completed_only (suc room) ((_, tx) ∷ txs) outbox =
      let passed = missing kind completed_only (suc room) txs outbox in
      let taken = missing kind completed_only room txs outbox in
      if completed_only && not (is_some tx.stop_time)
      then passed
      else if has_key (dedupe_key kind tx.transaction_id) outbox
      then passed
      else tx ∷ taken

  unfoldable pub list_transactions_missing_start_callbacks :
      MemoryStore F → ℕ → List (Transaction F)
  unfolding missing
  list_transactions_missing_start_callbacks s limit =
      missing kind_start_transaction false limit s.transactions s.outbox

  unfoldable pub list_transactions_missing_completed_callbacks :
      MemoryStore F → ℕ → List (Transaction F)
  unfolding missing
  list_transactions_missing_completed_callbacks s limit =
      missing kind_completed_transaction true limit s.transactions s.outbox
