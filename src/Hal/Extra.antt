-- ===== src/Hal/Extra.antt =====
-- internal/ocpp16hal/extra.go, and GetConfiguration of hal.go: the calls to a charger whose answer is
-- not only a status.
use ocpphal_go.Prelude.{
  String, Bool, Option, none, some, List, ℤ, is_positive, trim_space, ◌==◌, String_key,
  if◌then◌else◌, Float,
}
use ocpphal_go.Store.Types.{Time, failure, wrapped, Result, ok, err}
use ocpphal_go.Hal.{Hal, touched}
use ocpphal_go.Hal.Outbound.{Sent, CentralSystem, await}

-- The OCPP library's messages, as far as the program reads and writes them.
pub record ConfigurationKey : Type 0 where
  pub key : String
  pub readonly : Bool
  pub value : Option String

pub record Configuration : Type 0 where
  pub configuration_key : List ConfigurationKey
  pub unknown_key : List String

pub record DiagnosticsRequest : Type 0 where
  pub location : String
  pub retries : Option ℤ
  pub retry_interval : Option ℤ
  pub start_time : Option Time
  pub stop_time : Option Time

pub record FirmwareRequest : Type 0 where
  pub location : String
  pub retrieve_date : Time
  pub retries : Option ℤ
  pub retry_interval : Option ℤ

-- The library at one moment: what becomes of each request to a charger.
pub record Central : Type 0 where
  pub call : CentralSystem
  pub get_configuration : String → List String → Sent Configuration
  pub get_diagnostics : String → DiagnosticsRequest → Sent String
  pub update_firmware : String → FirmwareRequest → Sent (Unit {0})
  pub trigger_message : String → String → Option ℤ → Sent String

unfoldable pub get_configuration_call : Central → String → List String → Result Configuration
unfolding await
get_configuration_call central charger_id keys =
    await "nil GetConfiguration confirmation" (central.get_configuration charger_id keys)

unfoldable pub trigger_message_call : Central → String → String → ℤ → Result String
unfolding await
trigger_message_call central charger_id requested_message connector_id =
    await "nil TriggerMessage confirmation" (
      central.trigger_message charger_id requested_message
        (if is_positive connector_id then some connector_id else none))

-- `parse_time` is time.Parse with the layout RFC3339Nano.
module _ (parse_time : String → Result Time) where
  abbrev pub some_time : Result Time → Result (Option Time)
  some_time (ok t) = ok (some t)
  some_time (err e) = err e

  unfoldable pub parse_optional_date_time : String → Result (Option Time)
  parse_optional_date_time raw =
      let trimmed = trim_space raw in
      if trimmed == "" then ok none else some_time (parse_time trimmed)

  unfoldable pub parse_required_date_time : String → Result Time
  unfolding parse_optional_date_time
  parse_required_date_time raw = elim (parse_optional_date_time raw) [
    | err e ↦ err e
    | ok none ↦ err (failure "missing datetime")
    | ok (some t) ↦ ok t
  ]

  unfoldable pub get_diagnostics_call :
      Central → String → String → String → String → Option ℤ → Option ℤ → Result String
  unfolding await parse_optional_date_time
  get_diagnostics_call central charger_id location start_time stop_time retries retry_interval =
      elim (parse_optional_date_time start_time) [
        | err e ↦ err (wrapped "invalid start_time" e)
        | ok start ↦ elim (parse_optional_date_time stop_time) [
          | err e ↦ err (wrapped "invalid stop_time" e)
          | ok stop ↦ await "nil GetDiagnostics confirmation" (
              central.get_diagnostics charger_id (record {
                location = location;
                retries = retries;
                retry_interval = retry_interval;
                start_time = start;
                stop_time = stop;
              }))
        ]
      ]

  unfoldable pub update_firmware_call :
      Central → String → String → String → Option ℤ → Option ℤ → Result (Unit {0})
  unfolding await parse_required_date_time
  update_firmware_call central charger_id location retrieve_date_raw retries retry_interval =
      elim (parse_required_date_time retrieve_date_raw) [
        | err e ↦ err (wrapped "invalid retrieve_date" e)
        | ok retrieve_date ↦ await "nil UpdateFirmware confirmation" (
            central.update_firmware charger_id (record {
              location = location;
              retrieve_date = retrieve_date;
              retries = retries;
              retry_interval = retry_interval;
            }))
      ]

module _ {F S : Type 0} ⦃f : Float F⦄ where
  unfoldable pub on_diagnostics_status_notification : Hal F S → String → Time → Hal F S
  on_diagnostics_status_notification h charger_id now = touched h charger_id now

  unfoldable pub on_firmware_status_notification : Hal F S → String → Time → Hal F S
  on_firmware_status_notification h charger_id now = touched h charger_id now
