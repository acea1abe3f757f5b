-- ===== src/Store/Interface.antt =====
-- The interface TransactionStore of internal/store/store.go, the MemoryStore behind it, and the
-- wrapper of internal/store/transaction_updates.go that notifies subscribers.
pub mod Announced
use ocpphal_go.Prelude.{ℕ, String, Bool, true, false, List, ℤ, Float}
use ocpphal_go.Store.Types.{
  Time, Transaction, CreateTransactionInput, UpdateLiveMeterInput, StopTransactionInput,
  ForceCloseTransactionInput, EnqueueCallbackInput, CallbackTask, Result, ok, err,
}
use ocpphal_go.Store.Memory
use ocpphal_go.Store.Memory.{MemoryStore, Env}
use ocpphal_go.Store.Memory.LimitStop
use ocpphal_go.Store.Memory.Outbox
use ocpphal_go.Store.Memory.Reconcile
use ocpphal_go.Store.Analytics
use ocpphal_go.Store.Analytics.{AnalyticsInput, AnalyticsOutput}
use ocpphal_go.Store.Updates.{TransactionUpdates, publish}

-- `S` is the state behind the store. A method that only reads returns no state.
pub record TransactionStore (F S : Type 0) : Type 0 where
  pub create_transaction : S → Env → CreateTransactionInput F → Result (Transaction F) × S
  pub update_live_meter : S → UpdateLiveMeterInput F → Result (Transaction F) × S
  pub stop_transaction : S → Time → StopTransactionInput F → Result (Transaction F) × S
  pub force_close_transaction : S → Time → ForceCloseTransactionInput F → Result (Transaction F) × S
  pub get_by_transaction_id : S → String → ℤ → Result (Transaction F)
  pub get_by_transaction_id_and_id_tag : S → ℤ → String → Result (Transaction F)
  pub list_open_transactions_by_charger : S → String → Result (List (Transaction F))
  pub list_transactions_missing_start_callbacks : S → ℕ → Result (List (Transaction F))
  pub list_transactions_missing_completed_callbacks : S → ℕ → Result (List (Transaction F))
  pub update_transaction_max_kwh : S → ℤ → F → Result (Unit {0}) × S
  pub check_and_mark_limit_stop : S → String → ℤ → Result Bool × S
  pub release_limit_stop_request : S → String → ℤ → Result (Unit {0}) × S
  pub enqueue_callback : S → Time → EnqueueCallbackInput → Result (Unit {0}) × S
  pub claim_due_callbacks : S → Time → ℕ → Result (List CallbackTask) × S
  pub mark_callback_sent : S → ℕ → Result (Unit {0}) × S
  pub mark_callback_retry : S → ℕ → ℕ → Time → String → Result (Unit {0}) × S
  pub mark_callback_fatal : S → ℕ → String → Result (Unit {0}) × S
  pub charger_analytics : S → Time → AnalyticsInput → Result (AnalyticsOutput F)

module _ {F : Type 0} ⦃f : Float F⦄ where
  abbrev pub memory_transaction_store : TransactionStore F (MemoryStore F)
  memory_transaction_store = record {
    create_transaction = Memory.create_transaction;
    update_live_meter = Memory.update_live_meter;
    stop_transaction = Memory.stop_transaction;
    force_close_transaction = Memory.force_close_transaction;
    get_by_transaction_id = Memory.get_by_transaction_id;
    get_by_transaction_id_and_id_tag = Memory.get_by_transaction_id_and_id_tag;
    list_open_transactions_by_charger = λ s c. ok (Memory.list_open_transactions_by_charger s c);
    list_transactions_missing_start_callbacks =
        λ s n. ok (Reconcile.list_transactions_missing_start_callbacks s n);
    list_transactions_missing_completed_callbacks =
        λ s n. ok (Reconcile.list_transactions_missing_completed_callbacks s n);
    update_transaction_max_kwh = λ s t max. (ok tt, Memory.update_transaction_max_kwh s t max);
    check_and_mark_limit_stop =
        λ s c t. let (claim, s') = LimitStop.check_and_mark_limit_stop s c t in (ok claim, s');
    release_limit_stop_request = λ s c t. (ok tt, LimitStop.release_limit_stop_request s c t);
    enqueue_callback = Outbox.enqueue_callback;
    claim_due_callbacks =
        λ s now n. let (tasks, s') = Outbox.claim_due_callbacks s now n in (ok tasks, s');
    mark_callback_sent = λ s id. (ok tt, Outbox.mark_callback_sent s id);
    mark_callback_retry = λ s id n at e. (ok tt, Outbox.mark_callback_retry s id n at e);
    mark_callback_fatal = λ s id e. (ok tt, Outbox.mark_callback_fatal s id e);
    charger_analytics = λ s now input. ok (Analytics.charger_analytics s now input);
  }

-- Publish when the inner call returned no error.
abbrev pub publish_ok : {A : Type 0} → Result A → TransactionUpdates → ℤ → TransactionUpdates
publish_ok (ok _) u tid = publish u tid
publish_ok (err _) u tid = u

abbrev pub publish_created :
    {F : Type 0} → Result (Transaction F) → TransactionUpdates → TransactionUpdates
publish_created (ok tx) u = publish u tx.transaction_id
publish_created (err _) u = u

abbrev pub publish_claimed : Result Bool → TransactionUpdates → ℤ → TransactionUpdates
publish_claimed (ok true) u tid = publish u tid
publish_claimed (ok false) u tid = u
publish_claimed (err _) u tid = u

-- WithTransactionUpdates.
unfoldable pub with_transaction_updates :
    {F S : Type 0} → TransactionStore F S → TransactionStore F (S × TransactionUpdates)
with_transaction_updates inner = record {
  create_transaction = λ (s, u) env input.
      let (r, s') = inner.create_transaction s env input in (r, (s', publish_created r u));
  update_live_meter = λ (s, u) input.
      let (r, s') = inner.update_live_meter s input in
      (r, (s', publish_ok r u input.transaction_id));
  stop_transaction = λ (s, u) now input.
      let (r, s') = inner.stop_transaction s now input in
      (r, (s', publish_ok r u input.transaction_id));
  force_close_transaction = λ (s, u) now input.
      let (r, s') = inner.force_close_transaction s now input in
      (r, (s', publish_ok r u input.transaction_id));
  get_by_transaction_id = λ (s, u). inner.get_by_transaction_id s;
  get_by_transaction_id_and_id_tag = λ (s, u). inner.get_by_transaction_id_and_id_tag s;
  list_open_transactions_by_charger = λ (s, u). inner.list_open_transactions_by_charger s;
  list_transactions_missing_start_callbacks =
      λ (s, u). inner.list_transactions_missing_start_callbacks s;
  list_transactions_missing_completed_callbacks =
      λ (s, u). inner.list_transactions_missing_completed_callbacks s;
  update_transaction_max_kwh = λ (s, u) t max.
      let (r, s') = inner.update_transaction_max_kwh s t max in (r, (s', publish_ok r u t));
  check_and_mark_limit_stop = λ (s, u) c t.
      let (r, s') = inner.check_and_mark_limit_stop s c t in (r, (s', publish_claimed r u t));
  release_limit_stop_request = λ (s, u) c t.
      let (r, s') = inner.release_limit_stop_request s c t in (r, (s', publish_ok r u t));
  enqueue_callback =
      λ (s, u) now input. let (r, s') = inner.enqueue_callback s now input in (r, (s', u));
  claim_due_callbacks =
      λ (s, u) now n. let (r, s') = inner.claim_due_callbacks s now n in (r, (s', u));
  mark_callback_sent = λ (s, u) id. let (r, s') = inner.mark_callback_sent s id in (r, (s', u));
  mark_callback_retry =
      λ (s, u) id n at e. let (r, s') = inner.mark_callback_retry s id n at e in (r, (s', u));
  mark_callback_fatal =
      λ (s, u) id e. let (r, s') = inner.mark_callback_fatal s id e in (r, (s', u));
  charger_analytics = λ (s, u). inner.charger_analytics s;
}
