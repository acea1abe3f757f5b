-- ===== src/Tests/Callbacks.antt =====
-- The theorems on the hooks manager, on concrete inputs.
use native.Mathlib.Decide.{ℕ_discrete}
use ocpphal_go.Prelude.{
  arith, ℤ_key, String_key, ℕ_key, ◌+◌, ◌*◌, ◌≡◌, ◌≢◌, ◌⊎◌, refl, String, true, none, some, ℤ, pos,
  get, Option, ℕ,
}
use ocpphal_go.Store.Types.{Payload, ok, err, Error}
use ocpphal_go.Store.Memory.{MemoryStore, MemoryCallback}
use ocpphal_go.Store.Memory.Outbox.{has_key, task_of}
use ocpphal_go.Store.Memory.Reconcile.{dedupe_key}
use ocpphal_go.Store.Interface.{memory_transaction_store}
use ocpphal_go.Hooks.{kind_start_transaction, start_url, enqueue_start_transaction}
use ocpphal_go.Hooks.Enqueue.{enqueue_start_once}
use ocpphal_go.Hooks.Worker.{Posted, unreachable, response, object, decimal, process_task}
use ocpphal_go.Hooks.Worker.Outcome.{IsSettled, sent_payload, process_task_settles}
use ocpphal_go.Hooks.Worker.Exhausted.{IsDone, all_attempts, attempts_end}
use ocpphal_go.Tests.{whole_numbers, open_transaction, waiting, with_open, config}

abbrev no_answer : String → Payload → Posted
no_answer url payload = unreachable "connection refused"

abbrev no_stopper : Option (MemoryStore ℕ → String → ℤ → MemoryStore ℕ)
no_stopper = none

-- The CMS answers every request with a limit.
abbrev gives_limit : String → Payload → Posted
gives_limit url payload = response 200 (object (some (decimal "5")))

process_task_settles_example :
    (after : MemoryCallback) × (get 1
        (process_task memory_transaction_store no_stopper gives_limit with_open 50
          (task_of waiting)).outbox
      ≡ some after)
    × IsSettled ℕ 50
        (task_of waiting)
        (gives_limit (task_of waiting).target_url (sent_payload (task_of waiting)))
        after
    × (after.id ≡ waiting.id)
    × (after.max_retries ≡ waiting.max_retries)
unfolding get ℕ_discrete
process_task_settles_example =
    process_task_settles gives_limit no_stopper tt (λ url payload e h. cc) with_open 50
      (task_of waiting) waiting refl

enqueue_start_once_example :
    let (r, s') =
      enqueue_start_transaction memory_transaction_store config with_open 50 open_transaction in
    ((start_url memory_transaction_store config open_transaction ≡ "")
      × ((e : Error) × (r ≡ err e))
      × (s' ≡ with_open))
    ⊎ ((start_url memory_transaction_store config open_transaction ≢ "")
        × (r ≡ ok tt)
        × (has_key (dedupe_key kind_start_transaction (pos 8)) s'.outbox ≡ true)
        × (enqueue_start_transaction memory_transaction_store config s' 60 open_transaction
            ≡ (ok tt, s')))
enqueue_start_once_example = enqueue_start_once config with_open 50 60 open_transaction

abbrev silent_posts : ℕ → String → Payload → Posted
silent_posts i = no_answer

abbrev each_minute : ℕ → ℕ
each_minute i = i * 60000000000 + 50

attempts_end_example :
    (after : MemoryCallback) × (get 1
        (all_attempts no_stopper silent_posts each_minute 1 6 0 with_open).outbox
      ≡ some after)
    × IsDone after
unfolding get ℕ_discrete
attempts_end_example =
    attempts_end no_stopper silent_posts each_minute 1 with_open waiting tt refl refl refl
      (omega arith)
