-- ===== src/Hooks/Worker/Marks.antt =====
-- What processTask of internal/hooks/manager.go marks a callback as, given the result of postTask.
use ocpphal_go.Prelude.{
  ◌∙◌, ℕ, ◌+◌, ◌≤◌, ◌<◌, ◌≡◌, ◌≢◌, ◌⊎◌, inl, inr, refl, String, true, false, Option, none, some,
  arith, ℤ, Float, get, get-put_self, leb, if◌then◌else◌, ◌==◌, ◌!=◌, String_key, ℕ_key,
  Option-cases, Bool-cases,
}
use ocpphal_go.Store.Types.{Time, Payload, CallbackTask}
use ocpphal_go.Store.Memory.{
  update_transaction_max_kwh, MemoryStore, MemoryCallback, pending, sent, fatal,
}
use ocpphal_go.Store.Memory.Outbox.{mark_callback_sent, mark_callback_retry, mark_callback_fatal}
use ocpphal_go.Store.Memory.Run.{set_max-keeps}
use ocpphal_go.Store.Interface.{memory_transaction_store}
use ocpphal_go.Hooks.Worker.{
  normalize_start_callback_payload, answered, parse_max_kwh_response, bad_request, unreachable,
  unreadable, response, Posted, PostResult, post_task, stop_if_over, max_received,
  extract_charger_id, settle, process_task, backoff,
}

-- The entry after an attempt with this result: delivered, given up, or waiting for a later attempt
-- of which some are left.
abbrev pub IsMarked : Time → CallbackTask → PostResult → MemoryCallback → Type 0
IsMarked now task result item =
    ((item.status ≡ sent) × (result.fatal ≡ "") × (result.error ≡ none))
    ⊎ ((item.status ≡ fatal)
        × ((result.fatal ≢ "") ⊎ ((result.error ≢ none) × (task.max_retries ≤ task.retries + 1))))
    ⊎ ((item.status ≡ pending)
        × (item.retries ≡ task.retries + 1)
        × (item.retries < task.max_retries)
        × (item.next_retry_at ≡ now + backoff task.kind (task.retries + 1))
        × (result.fatal ≡ "")
        × (result.error ≢ none))

not_empty : (t : String) → (t != "") ≡ false → t ≡ ""
not_empty t h = ground arith

is_filled : (t : String) → (t != "") ≡ true → t ≢ ""
is_filled t h = ground arith

leb_no : (a b : ℕ) → leb a b ≡ false → b < a
leb_no a b h = ground arith

leb_yes : (a b : ℕ) → leb a b ≡ true → a ≤ b
leb_yes a b h = ground arith

module _ {F : Type 0} ⦃f : Float F⦄ where
  settle_marks :
      (limit_stopper : Option (MemoryStore F → String → ℤ → MemoryStore F))
      (post : String → Payload → Posted) (s : MemoryStore F) (now : Time) (task : CallbackTask)
      (result : PostResult) (item : MemoryCallback)
      → get task.id s.outbox ≡ some item
      → (after : MemoryCallback) × (get task.id
            (settle memory_transaction_store limit_stopper post s now task result).outbox
          ≡ some after)
        × IsMarked now task result after
        × (after.id ≡ item.id)
        × (after.max_retries ≡ item.max_retries)
  unfolding settle mark_callback_sent mark_callback_retry mark_callback_fatal
  settle_marks limit_stopper post s now task result item g =
      elim (Bool-cases (result.fatal != "")) [
        | inl b ↦
            rw (b, settle, g)
              (
                _,
                get-put_self task.id _ s.outbox,
                inr (inl (refl, inl (is_filled _ b))),
                refl,
                refl,
              )
        | inr b ↦ elim (Option-cases result.error) [
          | inl e ↦
              rw (b, e, settle, g)
                (_, get-put_self task.id _ s.outbox, inl (refl, not_empty _ b, refl), refl, refl)
          | inr (t, e) ↦ elim (Bool-cases (leb task.max_retries (task.retries + 1))) [
            | inl c ↦
                rw (b, e, c, settle, g)
                  (
                    _,
                    get-put_self task.id _ s.outbox,
                    inr (inl (refl, inr (λ q. cc, leb_yes _ _ c))),
                    refl,
                    refl,
                  )
            | inr c ↦
                rw (b, e, c, settle, g)
                  (
                    _,
                    get-put_self task.id _ s.outbox,
                    inr (inr (refl, refl, leb_no _ _ c, refl, not_empty _ b, λ q. cc)),
                    refl,
                    refl,
                  )
          ]
        ]
      ]

-- The limit stopper leaves the callbacks alone.
abbrev pub StopperKeeps :
    {F : Type 0} → Option (MemoryStore F → String → ℤ → MemoryStore F) → Type 0
StopperKeeps none = Unit {0}
StopperKeeps {F} (some check) =
    (s : MemoryStore F) (c : String) (tid : ℤ) → (check s c tid).outbox ≡ s.outbox

module _ {F : Type 0} ⦃f : Float F⦄ (post : String → Payload → Posted) where
  stop_if_over-outbox :
      (limit_stopper : Option (MemoryStore F → String → ℤ → MemoryStore F))
      → StopperKeeps limit_stopper
      → (s : MemoryStore F) (task : CallbackTask) (tid : ℤ)
      → (stop_if_over memory_transaction_store limit_stopper post s task tid).outbox ≡ s.outbox
  stop_if_over-outbox none keep s task tid = refl
  stop_if_over-outbox (some check) keep s task tid =
      ground (arith, keep s (extract_charger_id task.payload) tid)

  max_received-outbox :
      (limit_stopper : Option (MemoryStore F → String → ℤ → MemoryStore F))
      → StopperKeeps limit_stopper
      → (s : MemoryStore F) (task : CallbackTask) (max : Option F)
      → (max_received memory_transaction_store limit_stopper post s task max).1.outbox ≡ s.outbox
  max_received-outbox limit_stopper keep s task none = refl
  max_received-outbox limit_stopper keep s task (some max) =
      elim (Option-cases task.transaction_id) [
        | inl e ↦ rw e refl
        | inr (tid, e) ↦ rw e (
            stop_if_over-outbox limit_stopper keep (update_transaction_max_kwh s tid max) task tid
            ∙ (set_max-keeps s tid max).0)
      ]

  answered-outbox :
      (limit_stopper : Option (MemoryStore F → String → ℤ → MemoryStore F))
      → StopperKeeps limit_stopper
      → (s : MemoryStore F) (task : CallbackTask) (p : Posted)
      → (answered memory_transaction_store limit_stopper post s task p).1.outbox ≡ s.outbox
  answered-outbox limit_stopper keep s task (bad_request e) = refl
  answered-outbox limit_stopper keep s task (unreachable e) = refl
  answered-outbox limit_stopper keep s task (unreadable e) = refl
  answered-outbox limit_stopper keep s task (response status body) =
      ground (arith, max_received-outbox limit_stopper keep s task (parse_max_kwh_response body))

  post_task-outbox :
      (limit_stopper : Option (MemoryStore F → String → ℤ → MemoryStore F))
      → StopperKeeps limit_stopper
      → (s : MemoryStore F) (task : CallbackTask)
      → (post_task memory_transaction_store limit_stopper post s task).1.outbox ≡ s.outbox
  unfolding post_task
  post_task-outbox limit_stopper keep s task = answered-outbox limit_stopper keep s task (
      post task.target_url (
        if task.kind == "start_transaction"
        then normalize_start_callback_payload task.payload
        else task.payload))

  -- What an attempt makes of the callback, given the result of its request.
  pub process_task_marks :
      (limit_stopper : Option (MemoryStore F → String → ℤ → MemoryStore F))
      → StopperKeeps limit_stopper
      → (s : MemoryStore F) (now : Time) (task : CallbackTask) (item : MemoryCallback)
      → get task.id s.outbox ≡ some item
      → (after : MemoryCallback) × (get task.id
            (process_task memory_transaction_store limit_stopper post s now task).outbox
          ≡ some after)
        × IsMarked now task (post_task memory_transaction_store limit_stopper post s task).0 after
        × (after.id ≡ item.id)
        × (after.max_retries ≡ item.max_retries)
  unfolding process_task
  process_task_marks limit_stopper keep s now task item g =
      let (result, s') = post_task memory_transaction_store limit_stopper post s task in
      settle_marks limit_stopper post s' now task result item
        (rw (post_task-outbox limit_stopper keep s task) g)
