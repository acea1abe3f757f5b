-- ===== src/Hal/Transactions.antt =====
-- The message handlers of internal/ocpp16hal/hal.go that have to do with transactions, the start of
-- a limit stop (limit_stop.go), and BootNotification with scheduleBootRecovery (recovery.go).
pub mod OneOpen
pub mod Retries
pub mod Stops
pub mod Reachable
use ocpphal_go.Prelude.{
  ℕ, String, Bool, true, false, not, ◌&&◌, Option, none, some, List, [], ◌∷◌, ◌++◌, ℤ, pos, Float,
  is_positive, GoMap, get, put, delete, is_some, if◌then◌else◌, ◌==◌, ◌!=◌, String_key, ℤ_key,
}
use ocpphal_go.Store.Types.{
  Time, Transaction, CreateTransactionInput, Error, wrapped, Result, ok, err,
}
use ocpphal_go.Store.Memory.{Env}
use ocpphal_go.Store.Interface.{TransactionStore}
use ocpphal_go.Registry.{
  Registry, touch, apply_start_transaction, apply_meter_value, apply_stop_transaction,
  transaction_id_for_connector,
}
use ocpphal_go.Hal.{
  Hal, HookSink, Task, request_limit_stop, recover_open, touched, schedule_remote_only_config_sync,
}
use ocpphal_go.Hal.Pending.{consume_pending}
use ocpphal_go.Hal.Meter.{MeterValue, extract_meter_value_wh}

pub record StartTransactionRequest : Type 0 where
  pub connector_id : ℤ
  pub id_tag : String
  pub meter_start : ℤ

pub record MeterValuesRequest : Type 0 where
  pub connector_id : ℤ
  pub transaction_id : Option ℤ
  pub meter_value : List MeterValue

pub record StopTransactionRequest : Type 0 where
  pub transaction_id : ℤ
  pub meter_stop : ℤ

pub data AuthorizationStatus : Type 0 where
  accepted blocked : AuthorizationStatus

pub record StartTransactionConfirmation : Type 0 where
  pub status : AuthorizationStatus
  pub transaction_id : ℤ

abbrev pub accept : ℤ → Result StartTransactionConfirmation
accept tid = ok (record { status = accepted; transaction_id = tid })

abbrev pub block : Result StartTransactionConfirmation
block = ok (record { status = blocked; transaction_id = pos 0 })

-- The first open transaction on the connector: the loop of OnStartTransaction passes over the
-- others, and returns at this one.
unfoldable pub find_on_connector : {F : Type 0} → ℤ → List (Transaction F) → Option (Transaction F)
find_on_connector connector_id [] = none
find_on_connector connector_id (tx ∷ txs) =
    if tx.connector_id != connector_id then find_on_connector connector_id txs else some tx

module _ {F S : Type 0} ⦃f : Float F⦄ where
  -- The end of both ways to accept a start.
  abbrev pub confirm_start :
      String → Result (Unit {0}) → Hal F S → ℤ → Result StartTransactionConfirmation × Hal F S
  confirm_start text (ok _) h tid = (accept tid, h)
  confirm_start text (err e) h tid = (err (wrapped text e), h)

  abbrev pub registered : Hal F S → String → StartTransactionRequest → ℤ → Time → Hal F S
  registered h charger_id request tid now = record h {
    registry =
        apply_start_transaction h.registry charger_id request.connector_id tid
          (f.of_int request.meter_start) now;
  }

module _ {F : Type 0} ⦃f : Float F⦄ where
  -- `existing.IDTag == request.IdTag && existing.MeterStart == float64(request.MeterStart)`
  unfoldable pub same_start : Transaction F → StartTransactionRequest → Bool
  same_start existing request =
      existing.id_tag == request.id_tag && f.feq existing.meter_start (f.of_int request.meter_start)

  -- The transaction that a reading belongs to: the one that the message names, or the one that is
  -- known to run on the connector.
  unfoldable pub metered_transaction : Registry F → String → MeterValuesRequest → Option ℤ
  metered_transaction r charger_id request =
      let known = transaction_id_for_connector r charger_id request.connector_id in
      elim request.transaction_id [
        | none ↦ known
        | some t ↦ if is_positive t then some t else known
      ]

module _ {F S : Type 0} ⦃f : Float F⦄ (st : TransactionStore F S)
    (hooks : Option (HookSink F S)) where
  -- `h.hooks.EnqueueStartTransaction`, where there are hooks
  abbrev pub hook_start : Hal F S → Time → Transaction F → Result (Unit {0}) × Hal F S
  hook_start h now tx = elim hooks [
    | none ↦ (ok tt, h)
    | some sink ↦
        let (r, s) = sink.enqueue_start_transaction h.store now tx in (r, record h { store = s })
  ]

  abbrev pub hook_completed : Hal F S → Time → Transaction F → Result (Unit {0}) × Hal F S
  hook_completed h now tx = elim hooks [
    | none ↦ (ok tt, h)
    | some sink ↦
        let (r, s) = sink.enqueue_completed_transaction h.store now tx in
        (r, record h { store = s })
  ]

  -- A start on a connector that has an open transaction.
  unfoldable pub start_again :
      Hal F S
      → Time
      → String
      → StartTransactionRequest
      → Transaction F
      → Result StartTransactionConfirmation × Hal F S
  unfolding same_start
  start_again h now charger_id request existing =
      let h' = registered h charger_id request existing.transaction_id now in
      let (r, h'') = hook_start h' now existing in
      if same_start existing request
      then confirm_start "enqueue retried start transaction callback" r h'' existing.transaction_id
      else (block, h)

  abbrev pub start_created :
      Hal F S
      → Time
      → String
      → StartTransactionRequest
      → Result (Transaction F)
      → Result StartTransactionConfirmation × Hal F S
  start_created h now charger_id request (err e) = (block, h)
  start_created h now charger_id request (ok tx) =
      let h' = registered h charger_id request tx.transaction_id now in
      let (r, h'') = hook_start h' now tx in
      confirm_start "enqueue start transaction callback" r h'' tx.transaction_id

  unfoldable pub start_new :
      Hal F S
      → Env
      → String
      → StartTransactionRequest
      → Result StartTransactionConfirmation × Hal F S
  start_new h env charger_id request =
      let (single, pending) =
        consume_pending h.pending charger_id request.connector_id request.id_tag in
      let (r, s) = st.create_transaction h.store env (record {
        charger_id = charger_id;
        connector_id = request.connector_id;
        meter_start = f.of_int request.meter_start;
        id_tag = request.id_tag;
        is_single_session = single;
      }) in
      start_created (record h { pending = pending; store = s }) env.now charger_id request r

  unfoldable pub on_start_transaction :
      Hal F S
      → Env
      → String
      → StartTransactionRequest
      → Result StartTransactionConfirmation × Hal F S
  unfolding start_again start_new find_on_connector
  on_start_transaction h env charger_id request =
      let h' = touched h charger_id env.now in
      elim (st.list_open_transactions_by_charger h.store charger_id) [
        | err e ↦ (err (wrapped "check existing transactions" e), h')
        | ok open_transactions ↦ elim (find_on_connector request.connector_id open_transactions) [
          | some existing ↦ start_again h' env.now charger_id request existing
          | none ↦ start_new h' env charger_id request
        ]
      ]

  -- CheckAndRequestLimitStop.
  abbrev pub limit_claimed : Hal F S → String → ℤ → Result Bool → Hal F S
  limit_claimed h charger_id tid (ok true) = record h {
    started = h.started ++ request_limit_stop charger_id tid ∷ [];
  }
  limit_claimed h charger_id tid (ok false) = h
  limit_claimed h charger_id tid (err e) = h

  unfoldable pub check_and_request_limit_stop : Hal F S → String → ℤ → Hal F S
  check_and_request_limit_stop h charger_id tid =
      let (r, s) = st.check_and_mark_limit_stop h.store charger_id tid in
      limit_claimed (record h { store = s }) charger_id tid r

  abbrev pub after_update : Hal F S → String → ℤ → Result (Transaction F) → Hal F S
  after_update h charger_id tid (ok _) = check_and_request_limit_stop h charger_id tid
  after_update h charger_id tid (err e) = h

  abbrev pub live_update : Hal F S → String → F → Option ℤ → Hal F S
  live_update h charger_id reading none = h
  live_update h charger_id reading (some tid) =
      let (r, s) =
        st.update_live_meter h.store
          (record { charger_id = charger_id; transaction_id = tid; meter_stop = reading }) in
      after_update (record h { store = s }) charger_id tid r

  unfoldable pub on_meter_values : Hal F S → Time → String → MeterValuesRequest → Hal F S
  unfolding metered_transaction check_and_request_limit_stop
  on_meter_values h now charger_id request =
      let h' = touched h charger_id now in
      elim (extract_meter_value_wh request.meter_value) [
        | none ↦ h'
        | some reading ↦
            let tid = metered_transaction h'.registry charger_id request in
            let r = apply_meter_value h'.registry charger_id request.connector_id tid reading now in
            live_update (record h' { registry = r }) charger_id reading tid
      ]

  abbrev pub stop_hooked :
      Time
      → String
      → StopTransactionRequest
      → Transaction F
      → Result (Unit {0})
      → Hal F S
      → Result (Unit {0}) × Hal F S
  stop_hooked now charger_id request tx (err e) h =
      (err (wrapped "enqueue completed transaction callback" e), h)
  stop_hooked now charger_id request tx (ok _) h = (
    ok tt,
    record h {
      registry =
          apply_stop_transaction h.registry charger_id tx.connector_id (f.of_int request.meter_stop)
            now;
    },
  )

  abbrev pub stop_stored :
      Hal F S
      → Time
      → String
      → StopTransactionRequest
      → Result (Transaction F)
      → Result (Unit {0}) × Hal F S
  stop_stored h now charger_id request (err e) = (err (wrapped "persist stop transaction" e), h)
  stop_stored h now charger_id request (ok tx) =
      let (r, h') = hook_completed h now tx in stop_hooked now charger_id request tx r h'

  unfoldable pub on_stop_transaction :
      Hal F S → Time → String → StopTransactionRequest → Result (Unit {0}) × Hal F S
  on_stop_transaction h now charger_id request =
      let h' = touched h charger_id now in
      let (r, s) = st.stop_transaction h'.store now (record {
        charger_id = charger_id;
        transaction_id = request.transaction_id;
        meter_stop = f.of_int request.meter_stop;
      }) in
      stop_stored (record h' { store = s }) now charger_id request r

  -- scheduleBootRecovery: the flag that is set is deleted again where no goroutine starts.
  unfoldable pub schedule_boot_recovery : Hal F S → String → Hal F S
  schedule_boot_recovery h charger_id =
      if is_some (get charger_id h.boot_running)
      then h
      else elim (st.list_open_transactions_by_charger h.store charger_id) [
        | err e ↦ record h { boot_running = delete charger_id (put charger_id tt h.boot_running) }
        | ok [] ↦ record h { boot_running = delete charger_id (put charger_id tt h.boot_running) }
        | ok (tx ∷ txs) ↦ record h {
          boot_running = put charger_id tt h.boot_running;
          started = h.started ++ recover_open charger_id (tx ∷ txs) ∷ [];
        }
      ]

  unfoldable pub on_boot_notification : Hal F S → Time → String → Hal F S
  unfolding schedule_boot_recovery
  on_boot_notification h now charger_id =
      schedule_boot_recovery
        (schedule_remote_only_config_sync (touched h charger_id now) charger_id) charger_id
