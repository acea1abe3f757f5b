-- ===== src/Hooks.antt =====
-- internal/hooks/manager.go: the callbacks to the CMS. This file has what it enqueues.
pub mod Worker
pub mod Enqueue
use ocpphal_go.Prelude.{
  ℕ, String, Bool, true, false, not, ◌&&◌, ◌||◌, Option, none, some, List, [], ◌∷◌, ℤ, pos, Float,
  itoa, if◌then◌else◌, is_some, ◌==◌, ◌!=◌, String_key,
}
use ocpphal_go.Store.Types.{
  Time, Transaction, Value, text, flag, Payload, EnqueueCallbackInput, failure, Result, ok, err,
}
use ocpphal_go.Store.Memory.Reconcile.{dedupe_key}
use ocpphal_go.Store.Interface.{TransactionStore}

-- The fields of config.Config that the manager reads. `rfc3339` is time.Time's Format with
-- time.RFC3339Nano.
pub record Config : Type 0 where
  pub main_cms_start_txn_hook_url : String
  pub single_session_start_txn_hook_url : String
  pub main_cms_completed_txn_url : String
  pub single_session_completed_txn_url : String
  pub rfc3339 : Time → String

abbrev pub kind_start_transaction : String
kind_start_transaction = "start_transaction"

abbrev pub kind_completed_transaction : String
kind_completed_transaction = "completed_transaction"

module _ {F S : Type 0} ⦃f : Float F⦄ (st : TransactionStore F S) (cfg : Config) where
  unfoldable pub start_url : Transaction F → String
  start_url tx =
      if tx.is_single_session && cfg.single_session_start_txn_hook_url != ""
      then cfg.single_session_start_txn_hook_url
      else cfg.main_cms_start_txn_hook_url

  abbrev pub start_input : Transaction F → EnqueueCallbackInput
  start_input tx = record {
    kind = kind_start_transaction;
    dedupe_key = dedupe_key kind_start_transaction tx.transaction_id;
    transaction_id = some tx.transaction_id;
    uuid_db = tx.uuid_db;
    target_url = start_url tx;
    payload =
        ("transactionid", text (itoa tx.transaction_id))
        ∷ ("userid", text tx.id_tag)
        ∷ ("chargerid", text tx.charger_id)
        ∷ ("connectorid", text (itoa tx.connector_id))
        ∷ ("is_single_session", flag tx.is_single_session)
        ∷ [];
    max_retries = 6;
  }

  unfoldable pub enqueue_start_transaction : S → Time → Transaction F → Result (Unit {0}) × S
  unfolding start_url
  enqueue_start_transaction s now tx =
      if start_url tx == ""
      then (err (failure "missing start transaction hook URL"), s)
      else st.enqueue_callback s now (start_input tx)

  unfoldable pub completed_url : Transaction F → String
  completed_url tx =
      if tx.is_single_session && cfg.single_session_completed_txn_url != ""
      then cfg.single_session_completed_txn_url
      else cfg.main_cms_completed_txn_url

  abbrev pub completed_input : Transaction F → Time → F → F → EnqueueCallbackInput
  completed_input tx stop_time meter_stop total = record {
    kind = kind_completed_transaction;
    dedupe_key = dedupe_key kind_completed_transaction tx.transaction_id;
    transaction_id = some tx.transaction_id;
    uuid_db = tx.uuid_db;
    target_url = completed_url tx;
    payload =
        ("sessionid", text (itoa tx.transaction_id))
        ∷ ("chargerid", text tx.charger_id)
        ∷ ("starttime", text (cfg.rfc3339 tx.start_time))
        ∷ ("stoptime", text (cfg.rfc3339 stop_time))
        ∷ ("userid", text tx.id_tag)
        ∷ ("meterstart", text (f.format tx.meter_start))
        ∷ ("meterstop", text (f.format meter_stop))
        ∷ ("consumedkwh", text (f.format total))
        ∷ [];
    max_retries = 10;
  }

  -- The checks on the optional fields, in their order.
  abbrev pub completed_fields :
      Option Time
      → Option F
      → Option F
      → (Time → F → F → Result (Unit {0}) × S)
      → S
      → Result (Unit {0}) × S
  completed_fields none m t go s = (err (failure "missing stop_time"), s)
  completed_fields (some at) none t go s = (err (failure "missing meter_stop"), s)
  completed_fields (some at) (some m) none go s = (err (failure "invalid total_consumption"), s)
  completed_fields (some at) (some m) (some t) go s =
      if f.flt t (f.of_int (pos 0))
      then (err (failure "invalid total_consumption"), s)
      else go at m t

  unfoldable pub enqueue_completed_transaction : S → Time → Transaction F → Result (Unit {0}) × S
  unfolding completed_url
  enqueue_completed_transaction s now tx =
      if completed_url tx == ""
      then (err (failure "missing completed transaction hook URL"), s)
      else completed_fields tx.stop_time tx.meter_stop tx.total_consumption
          (λ at m t. st.enqueue_callback s now (completed_input tx at m t)) s

  -- The loops of reconcileMissingCallbacks: a failed enqueue is only logged.
  unfoldable pub enqueue_starts : S → Time → List (Transaction F) → S
  unfolding enqueue_start_transaction
  enqueue_starts s now [] = s
  enqueue_starts s now (tx ∷ txs) = enqueue_starts (enqueue_start_transaction s now tx).1 now txs

  unfoldable pub enqueue_completions : S → Time → List (Transaction F) → S
  unfolding enqueue_completed_transaction
  enqueue_completions s now [] = s
  enqueue_completions s now (tx ∷ txs) =
      enqueue_completions (enqueue_completed_transaction s now tx).1 now txs

  abbrev pub listed : Result (List (Transaction F)) → List (Transaction F)
  listed (ok txs) = txs
  listed (err _) = []

  unfoldable pub reconcile_missing_callbacks : S → Time → S
  unfolding enqueue_starts enqueue_completions
  reconcile_missing_callbacks s now =
      let s' = enqueue_starts s now (listed (st.list_transactions_missing_start_callbacks s 25)) in
      enqueue_completions s' now (listed (st.list_transactions_missing_completed_callbacks s' 25))
