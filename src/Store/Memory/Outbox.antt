-- ===== src/Store/Memory/Outbox.antt =====
-- outbox_memory.go: the callbacks that wait to be delivered.
pub mod Unique
pub mod Delivery
use ocpphal_go.Prelude.{
  ℕ, zero, suc, ◌+◌, String, Bool, true, false, not, ◌&&◌, ◌||◌, Option, none, some, List, [], ◌∷◌,
  Float, Key, ◌==◌, GoMap, get, put, ltb, leb, if◌then◌else◌, String_key, ℕ_key,
}
use ocpphal_go.Store.Types.{
  Time, Value, text, flag, opaque, Payload, EnqueueCallbackInput, CallbackTask, marshal_failed,
  Result, ok, err,
}
use ocpphal_go.Store.Memory.{MemoryStore, MemoryCallback, Status, pending, processing, sent, fatal}

-- json.Marshal on a map of texts and flags: it fails on what is neither.
unfoldable pub marshal : Payload → Option Payload
marshal [] = some []
marshal ((k, opaque) ∷ rest) = none
marshal ((k, text t) ∷ rest) = elim (marshal rest) [ none ↦ none | some r ↦ some ((k, text t) ∷ r) ]
marshal ((k, flag b) ∷ rest) = elim (marshal rest) [ none ↦ none | some r ↦ some ((k, flag b) ∷ r) ]

-- Is there an entry with this dedupe key?
unfoldable pub has_key : String → GoMap ℕ MemoryCallback → Bool
has_key key [] = false
has_key key ((_, item) ∷ items) = if item.dedupe_key == key then true else has_key key items

abbrev pub new_callback : ℕ → Time → Payload → EnqueueCallbackInput → MemoryCallback
new_callback id now payload input = record {
  id = id;
  kind = input.kind;
  dedupe_key = input.dedupe_key;
  transaction_id = input.transaction_id;
  uuid_db = input.uuid_db;
  target_url = input.target_url;
  payload = payload;
  status = pending;
  retries = 0;
  max_retries = input.max_retries;
  next_retry_at = now;
  last_error = "";
}

abbrev pub task_of : MemoryCallback → CallbackTask
task_of item = record {
  id = item.id;
  kind = item.kind;
  dedupe_key = item.dedupe_key;
  transaction_id = item.transaction_id;
  uuid_db = item.uuid_db;
  target_url = item.target_url;
  payload = item.payload;
  retries = item.retries;
  max_retries = item.max_retries;
}

-- `item.Status != "pending" || item.NextRetryAt.After(now)`, negated
abbrev pub is_due : Time → MemoryCallback → Bool
is_due now item = elim item.status [ pending ↦ not (ltb now item.next_retry_at) | _ ↦ false ]

-- The loop of ClaimDueCallbacks, with room for `room` more tasks.
unfoldable pub claim :
    Time → ℕ → GoMap ℕ MemoryCallback → List CallbackTask × GoMap ℕ MemoryCallback
claim now zero items = ([], items)
claim now (suc room) [] = ([], [])
claim now (suc room) ((k, item) ∷ items) =
    let taken = claim now room items in
    let passed = claim now (suc room) items in
    if is_due now item
    then (task_of item ∷ taken.0, (k, record item { status = processing }) ∷ taken.1)
    else (passed.0, (k, item) ∷ passed.1)

module _ {F : Type 0} where
  abbrev pub add_callback :
      MemoryStore F
      → Time
      → EnqueueCallbackInput
      → Option Payload
      → Result (Unit {0}) × MemoryStore F
  add_callback s now input none = (err marshal_failed, s)
  add_callback s now input (some payload) =
      let id = s.memory_outbox_id + 1 in
      (
        ok tt,
        record s {
          outbox = put id (new_callback id now payload input) s.outbox;
          memory_outbox_id = id;
        },
      )

  unfoldable pub enqueue_callback :
      MemoryStore F → Time → EnqueueCallbackInput → Result (Unit {0}) × MemoryStore F
  enqueue_callback s now input =
      if has_key input.dedupe_key s.outbox
      then (ok tt, s)
      else add_callback s now input (marshal input.payload)

  unfoldable pub claim_due_callbacks : MemoryStore F → Time → ℕ → List CallbackTask × MemoryStore F
  claim_due_callbacks s now limit =
      let (tasks, items) = claim now limit s.outbox in (tasks, record s { outbox = items })

  abbrev pub change :
      MemoryStore F → ℕ → (MemoryCallback → MemoryCallback) → Option MemoryCallback → MemoryStore F
  change s id edit none = s
  change s id edit (some item) = record s { outbox = put id (edit item) s.outbox }

  unfoldable pub mark_callback_sent : MemoryStore F → ℕ → MemoryStore F
  mark_callback_sent s id = change s id (λ item. record item { status = sent }) (get id s.outbox)

  unfoldable pub mark_callback_retry : MemoryStore F → ℕ → ℕ → Time → String → MemoryStore F
  mark_callback_retry s id retries next_retry_at last_error =
      change s id
        (λ item. record item {
          status = pending;
          retries = retries;
          next_retry_at = next_retry_at;
          last_error = last_error;
        })
        (get id s.outbox)

  unfoldable pub mark_callback_fatal : MemoryStore F → ℕ → String → MemoryStore F
  mark_callback_fatal s id last_error =
      change s id (λ item. record item { status = fatal; last_error = last_error })
        (get id s.outbox)
