-- ===== src/Hooks/Worker.antt =====
-- The outbox worker of internal/hooks/manager.go: it posts the callbacks that are due.
pub mod Marks
pub mod Outcome
pub mod Exhausted
use ocpphal_go.Prelude.{
  ℕ, ◌+◌, ◌-◌, ◌*◌, ◌^◌, String, Bool, true, false, not, ◌&&◌, ◌||◌, Option, none, some, List, [],
  ◌∷◌, ℤ, Float, if◌then◌else◌, is_some, leb, ◌==◌, ◌!=◌, String_key,
}
use ocpphal_go.Store.Types.{
  Time, Value, text, flag, opaque, Payload, CallbackTask, Error, failure, Result, ok, err,
}
use ocpphal_go.Store.Interface.{TransactionStore}
use ocpphal_go.Hooks.{Config, reconcile_missing_callbacks}

-- The `max_kwh` of a response: a JSON number or text, given by the text that ParseFloat is given, or
-- another JSON value.
pub data Field : Type 0 where
  decimal : String → Field
  other : Field

-- A response body: no JSON object, or one with or without a `max_kwh` that is not null.
pub data Body : Type 0 where
  not_json : Body
  object : Option Field → Body

-- What the HTTP client makes of a request.
pub data Posted : Type 0 where
  bad_request : String → Posted
  unreachable : String → Posted
  unreadable : String → Posted
  response : ℕ → Body → Posted

-- What a text looks like under fmt.Sprint.
abbrev pub sprint : Value → Value
sprint (text t) = text t
sprint (flag true) = text "true"
sprint (flag false) = text "false"
sprint opaque = opaque

-- normalizeStartCallbackPayload: the transaction id is sent as a text.
unfoldable pub normalize_start_callback_payload : Payload → Payload
normalize_start_callback_payload [] = []
normalize_start_callback_payload ((key, value) ∷ rest) =
    (key, if key == "transactionid" then sprint value else value)
    ∷ normalize_start_callback_payload rest

-- extractChargerID: the empty text where there is no such text.
unfoldable pub extract_charger_id : Payload → String
extract_charger_id [] = ""
extract_charger_id ((key, value) ∷ rest) =
    if key == "chargerid" then (elim value [ text t ↦ t | _ ↦ "" ]) else extract_charger_id rest

-- Nanoseconds.
unfoldable pub retry_base : String → ℕ
retry_base kind = if kind == "start_transaction" then 30000000000 else 60000000000

-- `retryBase(kind) * time.Duration(1<<(retries-1))`
unfoldable pub backoff : String → ℕ → ℕ
unfolding retry_base
backoff kind retries = retry_base kind * 2 ^ (retries - 1)

-- postResult and the error beside it
pub record PostResult : Type 0 where
  pub fatal : String
  pub error : Option String

abbrev pub delivered : PostResult
delivered = record { fatal = ""; error = none }

abbrev pub broken : String → PostResult
broken e = record { fatal = e; error = none }

abbrev pub retriable : String → PostResult
retriable e = record { fatal = ""; error = some e }

abbrev pub message : Error → String
message (failure t) = t
message _ = "store error"

module _ {F : Type 0} ⦃f : Float F⦄ where
  -- parseMaxKWhResponse, with flexibleFloat64
  unfoldable pub parse_max_kwh_response : Body → Option F
  parse_max_kwh_response not_json = none
  parse_max_kwh_response (object none) = none
  parse_max_kwh_response (object (some other)) = none
  parse_max_kwh_response (object (some (decimal t))) = elim (f.parse t) [
    | none ↦ none
    | some v ↦ if f.is_finite v then some v else none
  ]

module _ {F S : Type 0} ⦃f : Float F⦄ (st : TransactionStore F S) where
  module _ (limit_stopper : Option (S → String → ℤ → S)) (post : String → Payload → Posted) where
    abbrev pub stop_if_over : S → CallbackTask → ℤ → S
    stop_if_over s task tid =
        let charger_id = extract_charger_id task.payload in
        elim limit_stopper [
          | none ↦ s
          | some check ↦ if charger_id != "" then check s charger_id tid else s
        ]

    abbrev pub max_stored : CallbackTask → ℤ → Result (Unit {0}) × S → PostResult × S
    max_stored task tid (err e, s) = (retriable (message e), s)
    max_stored task tid (ok _, s) = (delivered, stop_if_over s task tid)

    abbrev pub max_received : S → CallbackTask → Option F → PostResult × S
    max_received s task none = (retriable "no max_kwh in response", s)
    max_received s task (some max) = elim task.transaction_id [
      | none ↦ (delivered, s)
      | some tid ↦ max_stored task tid (st.update_transaction_max_kwh s tid max)
    ]

    abbrev pub responded : S → CallbackTask → ℕ → Body → PostResult × S
    responded s task status body =
        if leb 400 status
        then (retriable "HTTP error", s)
        else if task.kind == "start_transaction"
        then max_received s task (parse_max_kwh_response body)
        else (delivered, s)

    abbrev pub answered : S → CallbackTask → Posted → PostResult × S
    answered s task (bad_request e) = (broken e, s)
    answered s task (unreachable e) = (retriable e, s)
    answered s task (unreadable e) = (retriable e, s)
    answered s task (response status body) = responded s task status body

    unfoldable pub post_task : S → CallbackTask → PostResult × S
    unfolding normalize_start_callback_payload parse_max_kwh_response extract_charger_id
    post_task s task =
        let payload =
          if task.kind == "start_transaction"
          then normalize_start_callback_payload task.payload
          else task.payload in
        answered s task (post task.target_url payload)

    -- The part of processTask behind postTask. A failed mark is only logged.
    unfoldable pub settle : S → Time → CallbackTask → PostResult → S
    unfolding backoff
    settle s now task result =
        let retries = task.retries + 1 in
        if result.fatal != ""
        then (st.mark_callback_fatal s task.id result.fatal).1
        else elim result.error [
          | none ↦ (st.mark_callback_sent s task.id).1
          | some e ↦
              if leb task.max_retries retries
              then (st.mark_callback_fatal s task.id e).1
              else (st.mark_callback_retry s task.id retries (now + backoff task.kind retries) e).1
        ]

    unfoldable pub process_task : S → Time → CallbackTask → S
    unfolding post_task settle
    process_task s now task = let (result, s') = post_task s task in settle s' now task result

    unfoldable pub process_tasks : S → Time → List CallbackTask → S
    unfolding process_task
    process_tasks s now [] = s
    process_tasks s now (task ∷ tasks) = process_tasks (process_task s now task) now tasks

    -- processOnce. A failed claim is only logged.
    abbrev pub process_claimed : Time → Result (List CallbackTask) × S → S
    process_claimed now (err e, s) = s
    process_claimed now (ok tasks, s) = process_tasks s now tasks

    unfoldable pub process_once : Config → S → Time → S
    unfolding process_tasks
    process_once cfg s now =
        process_claimed now
          (st.claim_due_callbacks (reconcile_missing_callbacks st cfg s now) now 10)
