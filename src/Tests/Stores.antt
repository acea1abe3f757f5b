-- ===== src/Tests/Stores.antt =====
-- The theorems on the MemoryStore and the subscriptions, on concrete inputs.

use ocpphal_go.Prelude.{
  ℤ_key, String_key, ℤ_discrete, String_discrete, ℕ, ◌+◌, ◌≤◌, ◌<◌, ◌≡◌, ◌≢◌, ◌⊎◌, refl, true,
  false, none, some, List, [], ◌∷◌, ℤ, pos, get, All, length, is_some,
}
use native.Mathlib.Decide.{ℕ_discrete}
use ocpphal_go.Store.Types.{delta_kwh, delta_wh, Transaction, ok, err, no_unique_id}
use ocpphal_go.Store.Memory.{
  write, new_memory_store, create_transaction, stop_transaction, update_live_meter, metered,
}
use ocpphal_go.Store.Memory.LimitStop.{
  should_mark, limit_reached, check_and_mark_limit_stop, release_limit_stop_request,
}
use ocpphal_go.Store.Memory.Outbox.{claim_due_callbacks}
use ocpphal_go.Store.Memory.Outbox.Delivery.{IsDueTask, due_count, claim_due_lem}
use ocpphal_go.Store.Memory.Reconcile.{
  kind_start_transaction, kind_completed_transaction, list_transactions_missing_start_callbacks,
  list_transactions_missing_completed_callbacks,
}
use ocpphal_go.Store.Memory.Reconcile.Complete.{lacks, count_lacking, reconcile_lists}
use ocpphal_go.Store.Memory.Run.{
  IsValid, Op, create, stop, update, mark, claims, set_max, run, run-IsValid,
}
use ocpphal_go.Store.Memory.Claims.{IsOver, single_claim, mark_iff}
use ocpphal_go.Store.Memory.Billing.{AllTaken, create_lem, stop_idempotent, late_update_overwrites}
use ocpphal_go.Tests.{whole_numbers, open_transaction, with_open, env, new_input, stop_input}

abbrev history : List (Op ℕ)
history =
    create env new_input
    ∷ set_max (pos 8) 3
    ∷ update (record { charger_id = "A"; transaction_id = pos 8; meter_stop = 9050 })
    ∷ mark "A" (pos 8)
    ∷ stop 40 stop_input
    ∷ claims 50 10
    ∷ []

run-IsValid_example : IsValid (run new_memory_store history)
run-IsValid_example = run-IsValid history

abbrev stopped_transaction : Transaction ℕ
stopped_transaction = record open_transaction {
  meter_stop = some 10100;
  total_consumption = some 10;
  stop_time = some 40;
}

stop_idempotent_example :
    stop_transaction
      (stop_transaction with_open 40 stop_input).1
      60
      (record stop_input { meter_stop = 7 })
    ≡ (ok stopped_transaction, (stop_transaction with_open 40 stop_input).1)
unfolding stop_transaction get delta_kwh delta_wh ℤ_discrete String_discrete ℕ_discrete
stop_idempotent_example = stop_idempotent with_open 40 60 stop_input 7 stopped_transaction refl

late_update_overwrites_example :
    let (r, s') =
      update_live_meter
        (stop_transaction with_open 40 stop_input).1
        (record { charger_id = "A"; transaction_id = pos 8; meter_stop = 7 }) in
    (r ≡ ok (metered 7 stopped_transaction))
    × (get (pos 8) s'.transactions ≡ some (metered 7 stopped_transaction))
    × (is_some (metered 7 stopped_transaction).stop_time ≡ true)
unfolding stop_transaction get delta_kwh delta_wh ℤ_discrete String_discrete ℕ_discrete
late_update_overwrites_example =
    late_update_overwrites with_open 40 stop_input 7 stopped_transaction refl

create_lem_example :
    ((create_transaction with_open env new_input ≡ (err no_unique_id, with_open))
      × AllTaken 100 0 env.draws with_open.transactions)
    ⊎ ((tx : Transaction ℕ) × ((create_transaction with_open env new_input).0 ≡ ok tx)
        × (get tx.transaction_id with_open.transactions ≡ none)
        × (get tx.transaction_id (create_transaction with_open env new_input).1.transactions
            ≡ some tx)
        × ((j : ℤ)
            → j ≢ tx.transaction_id
            → get j (create_transaction with_open env new_input).1.transactions
              ≡ get j with_open.transactions)
        × (tx.stop_time ≡ none)
        × (tx.charger_id ≡ "A")
        × (tx.connector_id ≡ pos 2)
        × (tx.id_tag ≡ "tag")
        × (tx.meter_start ≡ 50))
create_lem_example = create_lem with_open env new_input

single_claim_example :
    (check_and_mark_limit_stop
      (run (check_and_mark_limit_stop with_open "A" (pos 8)).1 history)
      "A"
      (pos 8)).0
    ≡ false
unfolding check_and_mark_limit_stop should_mark limit_reached get ℤ_discrete String_discrete
    ℕ_discrete
single_claim_example =
    single_claim with_open "A" "A" (pos 8) history refl (tt, (tt, (tt, (tt, (tt, (tt, tt))))))

mark_iff_example :
    let (claim, s') = check_and_mark_limit_stop with_open "A" (pos 8) in
    (IsOver with_open "A" (pos 8)
      × (claim ≡ true)
      × ((tx : Transaction ℕ) × (get (pos 8) with_open.transactions ≡ some tx)
          × (s' ≡ write with_open (pos 8) (record tx { limit_stop_requested = true })))
      × ((check_and_mark_limit_stop (release_limit_stop_request s' "A" (pos 8)) "A" (pos 8)).0
          ≡ true))
    ⊎ (¬ IsOver with_open "A" (pos 8) × (claim ≡ false) × (s' ≡ with_open))
mark_iff_example = mark_iff with_open "A" (pos 8)

claim_due_lem_example :
    let (tasks, s') = claim_due_callbacks with_open 50 10 in
    All (IsDueTask 50 with_open.outbox) tasks
    × (length tasks ≤ 10)
    × (length tasks + due_count 50 s'.outbox ≡ due_count 50 with_open.outbox)
    × (length tasks < 10 → due_count 50 s'.outbox ≡ 0)
claim_due_lem_example = claim_due_lem with_open 50 10

reconcile_lists_example :
    let starts = list_transactions_missing_start_callbacks with_open 25 in
    let completions = list_transactions_missing_completed_callbacks with_open 25 in
    All (λ tx. lacks kind_start_transaction false with_open.outbox tx ≡ true) starts
    × All (λ tx. lacks kind_completed_transaction true with_open.outbox tx ≡ true) completions
    × (length starts ≤ 25)
    × (length completions ≤ 25)
    × (length starts < 25
        → length starts
          ≡ count_lacking kind_start_transaction false with_open.outbox with_open.transactions)
    × (length completions < 25
        → length completions
          ≡ count_lacking kind_completed_transaction true with_open.outbox with_open.transactions)
reconcile_lists_example = reconcile_lists with_open 25
