-- ===== src/Hal.antt =====
-- internal/ocpp16hal: the OCPP 1.6 side of the service. This file holds its state and what the
-- connection and message handlers do besides transactions (hal.go).
pub mod Connections
pub mod Pending
pub mod Meter
pub mod Outbound
pub mod Extra
pub mod RemoteOnly
pub mod LimitStop
pub mod Transactions
pub mod Recovery
use ocpphal_go.Prelude.{
  ℕ, String, Bool, true, false, Option, none, some, List, [], ◌∷◌, ◌++◌, ℤ, Float, GoMap, get, put,
  delete, is_some, if◌then◌else◌, String_key,
}
use ocpphal_go.Store.Types.{Time, Transaction, Error, Result, ok, err}
use ocpphal_go.Store.Interface.{TransactionStore}
use ocpphal_go.Registry.{Registry, touch, mark_offline, apply_status_notification}
use Connections.{ConnectionRecord, ConnectionTracker, register, unregister_if_current}
use Pending.{PendingStarts}

-- A goroutine that the service has started, with what it was given.
pub data Task (F : Type 0) : Type 0 where
  request_limit_stop : String → ℤ → Task F
  enforce_remote_only : String → Task F
  recover_open : String → List (Transaction F) → Task F

-- The HAL's fields and the package's variables: `pending` of single_session.go, `sync_once` of
-- remote_only.go, `boot_running` of recovery.go. `started` lists the goroutines, oldest first.
pub record Hal (F S : Type 0) : Type 0 where
  pub registry : Registry F
  pub store : S
  pub connections : ConnectionTracker
  pub pending : PendingStarts
  pub sync_once : GoMap String (Unit {0})
  pub boot_running : GoMap String (Unit {0})
  pub started : List (Task F)

-- The interface HookSink; its calls write to the same store.
pub record HookSink (F S : Type 0) : Type 0 where
  pub enqueue_start_transaction : S → Time → Transaction F → Result (Unit {0}) × S
  pub enqueue_completed_transaction : S → Time → Transaction F → Result (Unit {0}) × S

module _ {F S : Type 0} ⦃f : Float F⦄ where
  abbrev pub touched : Hal F S → String → Time → Hal F S
  touched h charger_id now = record h { registry = touch h.registry charger_id now }

  -- The handler that New sets for a new charge point connection.
  unfoldable pub on_connect : Hal F S → String → String → String → Time → Hal F S
  on_connect h charger_id key remote_addr now =
      let (_, _, tracker) = register h.connections charger_id key remote_addr now in
      record h { connections = tracker; registry = touch h.registry charger_id now }

  -- The handler that New sets for a lost connection.
  unfoldable pub on_disconnect : Hal F S → String → String → Time → Hal F S
  on_disconnect h charger_id key now =
      let (is_current, _, tracker) = unregister_if_current h.connections charger_id key in
      if is_current
      then record h { connections = tracker; registry = mark_offline h.registry charger_id now }
      else record h { connections = tracker }

  unfoldable pub on_authorize : Hal F S → String → Time → Hal F S
  on_authorize h charger_id now = touched h charger_id now

  unfoldable pub on_data_transfer : Hal F S → String → Time → Hal F S
  on_data_transfer h charger_id now = touched h charger_id now

  unfoldable pub on_heartbeat : Hal F S → String → Time → Hal F S
  on_heartbeat h charger_id now = touched h charger_id now

  unfoldable pub on_status_notification : Hal F S → String → ℤ → String → String → Time → Hal F S
  on_status_notification h charger_id connector_id status error_code now = record h {
    registry = apply_status_notification h.registry charger_id connector_id status error_code now;
  }

  -- remote_only.go: one synchronisation for each charger in the life of the process
  unfoldable pub schedule_remote_only_config_sync : Hal F S → String → Hal F S
  schedule_remote_only_config_sync h charger_id =
      if is_some (get charger_id h.sync_once) then h else record h {
        sync_once = put charger_id tt h.sync_once;
        started = h.started ++ enforce_remote_only charger_id ∷ [];
      }
