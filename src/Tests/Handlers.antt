-- ===== src/Tests/Handlers.antt =====
-- The theorems on the message handlers and the calls to a charger, on concrete inputs.
use native.Mathlib.Decide.{ℕ_discrete}
use ocpphal_go.Prelude.{
  List, itoa, ℤ_key, String_key, ℤ_discrete, String_discrete, ℕ, ◌≤◌, ◌≡◌, ◌⊎◌, refl, String, true,
  false, Option, none, some, arith, [], ◌∷◌, pos, get, put, All, is_some,
}
use ocpphal_go.Store.Types.{random_transaction_id, Transaction, ok, err, wrapped, Error, failure}
use ocpphal_go.Store.Memory.{
  list_open_transactions_by_charger, open_by_charger, MemoryStore, create_transaction, free_id,
}
use ocpphal_go.Store.Memory.Invariant.{IsValid}
use ocpphal_go.Store.Interface.{TransactionStore, memory_transaction_store}
use ocpphal_go.Hal.{HookSink, touched}
use ocpphal_go.Hal.Pending.{key_of, pending_key, find_candidate, consume_pending}
use ocpphal_go.Hal.Outbound.{
  CentralSystem, refused, waits, confirmed, remote_start_transaction,
  remote_start_transaction_with_options,
}
use ocpphal_go.Hal.Outbound.Start.{start_single}
use ocpphal_go.Hal.LimitStop.{Round, request_limit_stop_until_closed}
use ocpphal_go.Hal.LimitStop.Bounds.{Prefix, SomeSeen, NeverSeen, request_limit_stop_ends}
use ocpphal_go.Hal.Transactions.{accept, block, on_start_transaction, start_new, find_on_connector}
use ocpphal_go.Hal.Transactions.{StopTransactionRequest, on_stop_transaction}
use ocpphal_go.Hal.Transactions.Reachable.{
  Message, start, meter, stop, handle_all, handle_all-OneOpen,
}
use ocpphal_go.Hal.Transactions.Stops.{IsEnded, on_stop-IsEnded}
use ocpphal_go.Store.Memory.Reconcile.{dedupe_key}
use ocpphal_go.Hooks.{completed_url, enqueue_completed_transaction}
use ocpphal_go.Store.Types.{delta_kwh, delta_wh}
use ocpphal_go.Store.Memory.{stop_transaction}
use ocpphal_go.Hal.Transactions.OneOpen.{OneOpen}
use ocpphal_go.Hal.Transactions.Retries.{start_retry, start_other_blocked}
use ocpphal_go.Hal.Recovery.{Try, remote_stop_and_unlock, recover_one}
use ocpphal_go.Hal.Recovery.Boot.{
  went_through, SomeThrough, IsRecovered, remote_stop_and_unlock_lem, recover_one_lem,
}
use ocpphal_go.Hooks.{start_url, enqueue_start_transaction}
use ocpphal_go.Store.Memory.Outbox.{enqueue_callback, has_key, marshal}
use ocpphal_go.Hooks.Enqueue.{manager_sink, manager-HooksKeep}
use ocpphal_go.Tests.{
  whole_numbers, open_transaction, with_open, no_transactions, state_of, env, later, request,
  other_request, config,
}

with_open-OneOpen : OneOpen with_open.transactions
unfolding get
with_open-OneOpen c k i j x y g h o p = ground arith

accepted_first :
    (on_start_transaction memory_transaction_store
      (some (manager_sink config))
      (state_of no_transactions)
      env
      "A"
      request).0
    ≡ accept (pos 8)
unfolding on_start_transaction list_open_transactions_by_charger open_by_charger find_on_connector
    start_new create_transaction free_id random_transaction_id get consume_pending find_candidate
    enqueue_start_transaction start_url enqueue_callback has_key marshal ℤ_discrete String_discrete
    ℕ_discrete
accepted_first = refl

start_retry_example :
    let hooks : Option (HookSink ℕ (MemoryStore ℕ)) = some (manager_sink config) in
    let h' =
      (on_start_transaction memory_transaction_store hooks
        (state_of no_transactions)
        env
        "A"
        request).1 in
    let again = on_start_transaction memory_transaction_store hooks h' later "A" request in
    (again.1.store.transactions ≡ h'.store.transactions)
    × ((again.0 ≡ accept (pos 8))
        ⊎ ((e : Error) × (again.0 ≡ err (wrapped "enqueue retried start transaction callback" e))))
start_retry_example =
    start_retry (some (manager_sink config)) (manager-HooksKeep config) (state_of no_transactions)
      env later "A" request (pos 8) refl accepted_first

start_other_blocked_example :
    let hooks : Option (HookSink ℕ (MemoryStore ℕ)) = some (manager_sink config) in
    let h' =
      (on_start_transaction memory_transaction_store hooks
        (state_of no_transactions)
        env
        "A"
        request).1 in
    on_start_transaction memory_transaction_store hooks h' later "A" other_request
    ≡ (block, touched h' "A" later.now)
start_other_blocked_example =
    start_other_blocked (some (manager_sink config)) (manager-HooksKeep config)
      (state_of no_transactions) env later "A" request other_request (pos 8) refl accepted_first
      refl (λ e. cc)

-- A charger that refuses every request, and one that accepts it.
abbrev refuses : CentralSystem
refuses c q = refused (failure "not connected")

abbrev accepts : CentralSystem
accepts c q = waits (confirmed (some "Accepted"))

start_single_example :
    let (answer, q) = remote_start_transaction_with_options accepts [] "A" "tag" (pos 1) true in
    (answer ≡ remote_start_transaction accepts "A" "tag" (pos 1))
    × ((a : String) → answer ≡ ok a → (consume_pending q "A" (pos 1) "tag").0 ≡ true)
    × ((e : Error) → answer ≡ err e → get (key_of "A" (pos 1) "tag") q ≡ none)
    × ((remote_start_transaction_with_options accepts [] "A" "tag" (pos 1) false).1 ≡ [])
start_single_example = start_single accepts [] "A" "tag" (pos 1)

-- The charger does not answer, and the transaction stays open.
abbrev memory : TransactionStore ℕ (MemoryStore ℕ)
memory = memory_transaction_store

abbrev silent_rounds : ℕ → Round memory
silent_rounds i = record { before = with_open; cs = refuses; polls = with_open ∷ [] }

request_limit_stop_ends_example :
    let (o, s) = request_limit_stop_until_closed memory "A" (pos 8) silent_rounds with_open in
    (o.requests ≤ 6)
    × Prefix o.pauses (2 ∷ 4 ∷ 8 ∷ 16 ∷ 30 ∷ [])
    × (((o.closed ≡ true) × SomeSeen memory "A" (pos 8) silent_rounds 6 0 × (s ≡ with_open))
        ⊎ ((o.closed ≡ false)
            × (o.requests ≡ 6)
            × NeverSeen memory "A" (pos 8) silent_rounds 6 0
            × (s ≡ (memory.release_limit_stop_request with_open "A" (pos 8)).1)))
request_limit_stop_ends_example = request_limit_stop_ends memory "A" (pos 8) silent_rounds with_open

abbrev first_try : Try
first_try = record { cs = refuses; times_out = false }

abbrev second_try : Try
second_try = record { cs = accepts; times_out = false }

remote_stop_and_unlock_lem_example :
    let (closed, pauses) =
      remote_stop_and_unlock open_transaction (first_try ∷ second_try ∷ []) 2 in
    All (λ p. p ≤ 60) pauses
    × (closed ≡ true → SomeThrough open_transaction (first_try ∷ second_try ∷ []))
    × (went_through open_transaction first_try ≡ true → (closed ≡ true) × (pauses ≡ []))
remote_stop_and_unlock_lem_example =
    remote_stop_and_unlock_lem open_transaction first_try (second_try ∷ [])

with_open-IsValid : IsValid with_open
unfolding get
with_open-IsValid = record {
  distinct = (refl, tt);
  sound = (
    record {
      keyed = refl;
      row = omega arith;
      in_range = (8, refl, omega arith, omega arith);
      metered_together = refl;
      stopped_metered = λ e. cc;
      requested_limit = λ e. refl;
      requested_total = λ e. refl;
    },
    tt,
  );
}

recover_one_lem_example :
    let after =
      recover_one memory_transaction_store
        (some (manager_sink config))
        (state_of with_open)
        50
        "A"
        open_transaction in
    ((after ≡ (state_of with_open, none))
      × ((tx : Transaction ℕ)
          → get (pos 8) with_open.transactions ≡ some tx
          → tx.charger_id ≡ "A"
          → is_some tx.stop_time ≡ true))
    ⊎ ((tx : Transaction ℕ) × (get (pos 8) with_open.transactions ≡ some tx)
        × (tx.charger_id ≡ "A")
        × (is_some tx.stop_time ≡ false)
        × IsRecovered (state_of with_open) 50 tx after)
recover_one_lem_example =
    recover_one_lem (some (manager_sink config)) (manager-HooksKeep config) (state_of with_open) 50
      "A" open_transaction with_open-IsValid

abbrev messages : List Message
messages =
    start env "A" request
    ∷ meter 25 "A" (record { connector_id = pos 1; transaction_id = none; meter_value = [] })
    ∷ start later "A" other_request
    ∷ stop 40 "A" (record { transaction_id = pos 8; meter_stop = pos 10100 })
    ∷ start later "A" other_request
    ∷ []

handle_all-OneOpen_example :
    OneOpen
      (handle_all (some (manager_sink config)) (state_of with_open) messages).store.transactions
handle_all-OneOpen_example =
    handle_all-OneOpen (some (manager_sink config)) (state_of with_open) messages
      (manager-HooksKeep config) with_open-OneOpen

abbrev stop_request : StopTransactionRequest
stop_request = record { transaction_id = pos 8; meter_stop = pos 10100 }

stop_accepted :
    (on_stop_transaction memory_transaction_store
      (some (manager_sink config))
      (state_of with_open)
      40
      "A"
      stop_request).0
    ≡ ok tt
unfolding on_stop_transaction stop_transaction enqueue_completed_transaction completed_url
    enqueue_callback has_key marshal get put delta_kwh delta_wh dedupe_key itoa ℤ_discrete
    String_discrete ℕ_discrete
stop_accepted = refl

on_stop-IsEnded_example :
    IsEnded
      (on_stop_transaction memory_transaction_store
        (some (manager_sink config))
        (state_of with_open)
        40
        "A"
        stop_request).1
      "A"
      (pos 8)
on_stop-IsEnded_example =
    on_stop-IsEnded (some (manager_sink config)) 40 "A" stop_request (state_of with_open)
      (manager-HooksKeep config) stop_accepted
