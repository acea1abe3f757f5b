-- ===== src/Http/FirmwareHandlers.antt =====
-- The handlers of internal/httpapi/firmware_trigger.go.
use ocpphal_go.Prelude.{String, Option, none, some, String_key, ◌==◌, if◌then◌else◌, Json}
use ocpphal_go.Store.Types.{Time, Result}
use ocpphal_go.Hal.Extra.{get_diagnostics_call, update_firmware_call, trigger_message_call}
use ocpphal_go.Http.Decode.{positive_or}
use ocpphal_go.Http.Requests.{charger_id_of}
use ocpphal_go.Http.FirmwareRequests.{
  decode_get_diagnostics, decode_update_firmware, decode_trigger_message,
}
use ocpphal_go.Http.Exchange.{status, diagnostics, triggered, Response, Moment}
use ocpphal_go.Http.Handlers.{bad_request, invalid_json, missing_charger, remote_answer}

module _ {F : Type 0} where
  unfoldable pub get_diagnostics : (String → Result Time) → Moment → Option Json → Response F
  unfolding decode_get_diagnostics get_diagnostics_call charger_id_of
  get_diagnostics parse_time m body = elim (decode_get_diagnostics body) [
    | none ↦ invalid_json
    | some req ↦
        let charger_id = charger_id_of req.base in
        if charger_id == ""
        then missing_charger
        else if req.location == ""
        then bad_request "Missing location"
        else remote_answer diagnostics (
            get_diagnostics_call parse_time m.central charger_id req.location req.start_time
              req.stop_time req.retries req.retry_interval)
  ]

  unfoldable pub update_firmware : (String → Result Time) → Moment → Option Json → Response F
  unfolding decode_update_firmware update_firmware_call charger_id_of
  update_firmware parse_time m body = elim (decode_update_firmware body) [
    | none ↦ invalid_json
    | some req ↦
        let charger_id = charger_id_of req.base in
        if charger_id == ""
        then missing_charger
        else if req.location == ""
        then bad_request "Missing location"
        else if req.retrieve_date == ""
        then bad_request "Missing retrieve_date"
        else remote_answer (λ _. status "Accepted")
            (update_firmware_call parse_time m.central charger_id req.location req.retrieve_date
              req.retries req.retry_interval)
  ]

  -- The answer also says that the latest message is not kept; that is always the same.
  unfoldable pub trigger_message : Moment → Option Json → Response F
  unfolding decode_trigger_message trigger_message_call charger_id_of
  trigger_message m body = elim (decode_trigger_message body) [
    | none ↦ invalid_json
    | some req ↦
        let charger_id = charger_id_of req.base in
        if charger_id == ""
        then missing_charger
        else if req.requested_message == ""
        then bad_request "Missing requested_message"
        else remote_answer triggered (
            trigger_message_call m.central charger_id req.requested_message
              (positive_or req.connector_id req.connector_id_camel))
  ]
