-- ===== src/Http/FirmwareRequests.antt =====
-- The requests of internal/httpapi/firmware_trigger.go, and how they are read.
use ocpphal_go.Prelude.{String, Option, some, ℤ, Json}
use ocpphal_go.Http.Decode.{◌>>=◌, body_members, text_field, int_field, pointer_field, field}
use ocpphal_go.Http.Requests.{BaseChargerRequest, base_fields}

pub record GetDiagnosticsRequest : Type 0 where
  pub base : BaseChargerRequest
  pub location : String
  pub start_time : String
  pub stop_time : String
  pub retries : Option ℤ
  pub retry_interval : Option ℤ

unfoldable pub decode_get_diagnostics : Option Json → Option GetDiagnosticsRequest
unfolding field
decode_get_diagnostics body = do
  ms ← body_members body
  base ← base_fields ms
  location ← text_field "location" ms
  start_time ← text_field "start_time" ms
  stop_time ← text_field "stop_time" ms
  retries ← pointer_field "retries" ms
  retry_interval ← pointer_field "retry_interval" ms
  some (record {
    base = base;
    location = location;
    start_time = start_time;
    stop_time = stop_time;
    retries = retries;
    retry_interval = retry_interval;
  })

pub record UpdateFirmwareRequest : Type 0 where
  pub base : BaseChargerRequest
  pub location : String
  pub retrieve_date : String
  pub retries : Option ℤ
  pub retry_interval : Option ℤ

unfoldable pub decode_update_firmware : Option Json → Option UpdateFirmwareRequest
unfolding field
decode_update_firmware body = do
  ms ← body_members body
  base ← base_fields ms
  location ← text_field "location" ms
  retrieve_date ← text_field "retrieve_date" ms
  retries ← pointer_field "retries" ms
  retry_interval ← pointer_field "retry_interval" ms
  some (record {
    base = base;
    location = location;
    retrieve_date = retrieve_date;
    retries = retries;
    retry_interval = retry_interval;
  })

pub record TriggerMessageRequest : Type 0 where
  pub base : BaseChargerRequest
  pub requested_message : String
  pub connector_id : ℤ
  pub connector_id_camel : ℤ

unfoldable pub decode_trigger_message : Option Json → Option TriggerMessageRequest
unfolding field
decode_trigger_message body = do
  ms ← body_members body
  base ← base_fields ms
  requested_message ← text_field "requested_message" ms
  connector_id ← int_field "connector_id" ms
  connector_id_camel ← int_field "connectorId" ms
  some (record {
    base = base;
    requested_message = requested_message;
    connector_id = connector_id;
    connector_id_camel = connector_id_camel;
  })
