-- ===== src/Http/Requests.antt =====
-- The requests of internal/httpapi/server.go and analytics_inactivity.go, how they are read, and the methods that choose between old and new names of a field.
use ocpphal_go.Prelude.{
  String, Bool, ◌||◌, Option, some, List, [], ◌∷◌, ℤ, String_key, Json, Members,
}
use ocpphal_go.Http.Decode.{
  ◌>>=◌, body_members, text_field, int_field, bool_field, texts_field, field, text_or,
}

pub record BaseChargerRequest : Type 0 where
  pub uid : String
  pub charge_point_id : String
  pub client_id : String

-- chargerID of baseChargerRequest.
unfoldable pub charger_id_of : BaseChargerRequest → String
charger_id_of r = text_or r.uid (text_or r.charge_point_id r.client_id)

abbrev pub base_fields : Members → Option BaseChargerRequest
base_fields ms = do
  uid ← text_field "uid" ms
  charge_point_id ← text_field "charge_point_id" ms
  client_id ← text_field "client_id" ms
  some (record { uid = uid; charge_point_id = charge_point_id; client_id = client_id })

unfoldable pub decode_base : Option Json → Option BaseChargerRequest
unfolding field
decode_base body = body_members body >>= base_fields

pub record RemoteStartRequest : Type 0 where
  pub base : BaseChargerRequest
  pub id_tag_snake : String
  pub id_tag_camel : String
  pub connector_id : ℤ
  pub connector_id_camel : ℤ
  pub is_single_session : Bool
  pub single_session : Bool
  pub single_session_camel : Bool

unfoldable pub decode_remote_start : Option Json → Option RemoteStartRequest
unfolding field
decode_remote_start body = do
  ms ← body_members body
  base ← base_fields ms
  id_tag_snake ← text_field "id_tag" ms
  id_tag_camel ← text_field "idTag" ms
  connector_id ← int_field "connector_id" ms
  connector_id_camel ← int_field "connectorId" ms
  is_single_session ← bool_field "is_single_session" ms
  single_session ← bool_field "single_session" ms
  single_session_camel ← bool_field "isSingleSession" ms
  some (record {
    base = base;
    id_tag_snake = id_tag_snake;
    id_tag_camel = id_tag_camel;
    connector_id = connector_id;
    connector_id_camel = connector_id_camel;
    is_single_session = is_single_session;
    single_session = single_session;
    single_session_camel = single_session_camel;
  })

abbrev pub id_tag_of : RemoteStartRequest → String
id_tag_of r = text_or r.id_tag_snake r.id_tag_camel

abbrev pub is_single_session_of : RemoteStartRequest → Bool
is_single_session_of r = r.is_single_session || r.single_session || r.single_session_camel

pub record RemoteStopRequest : Type 0 where
  pub base : BaseChargerRequest
  pub transaction_id : ℤ
  pub transaction_id_camel : ℤ

unfoldable pub decode_remote_stop : Option Json → Option RemoteStopRequest
unfolding field
decode_remote_stop body = do
  ms ← body_members body
  base ← base_fields ms
  transaction_id ← int_field "transaction_id" ms
  transaction_id_camel ← int_field "transactionId" ms
  some (record {
    base = base;
    transaction_id = transaction_id;
    transaction_id_camel = transaction_id_camel;
  })

pub record ChangeAvailabilityRequest : Type 0 where
  pub base : BaseChargerRequest
  pub connector_id : ℤ
  pub connector_id_camel : ℤ
  pub kind : String
  pub availability_type : String

unfoldable pub decode_change_availability : Option Json → Option ChangeAvailabilityRequest
unfolding field
decode_change_availability body = do
  ms ← body_members body
  base ← base_fields ms
  connector_id ← int_field "connector_id" ms
  connector_id_camel ← int_field "connectorId" ms
  kind ← text_field "type" ms
  availability_type ← text_field "availability_type" ms
  some (record {
    base = base;
    connector_id = connector_id;
    connector_id_camel = connector_id_camel;
    kind = kind;
    availability_type = availability_type;
  })

pub record ChangeConfigurationRequest : Type 0 where
  pub base : BaseChargerRequest
  pub key : String
  pub value : String

unfoldable pub decode_change_configuration : Option Json → Option ChangeConfigurationRequest
unfolding field
decode_change_configuration body = do
  ms ← body_members body
  base ← base_fields ms
  key ← text_field "key" ms
  value ← text_field "value" ms
  some (record { base = base; key = key; value = value })

pub record UnlockConnectorRequest : Type 0 where
  pub base : BaseChargerRequest
  pub connector_id : ℤ
  pub connector_id_camel : ℤ

unfoldable pub decode_unlock_connector : Option Json → Option UnlockConnectorRequest
unfolding field
decode_unlock_connector body = do
  ms ← body_members body
  base ← base_fields ms
  connector_id ← int_field "connector_id" ms
  connector_id_camel ← int_field "connectorId" ms
  some
      (record { base = base; connector_id = connector_id; connector_id_camel = connector_id_camel })

pub record ResetRequest : Type 0 where
  pub base : BaseChargerRequest
  pub kind : String
  pub reset_type : String

unfoldable pub decode_reset : Option Json → Option ResetRequest
unfolding field
decode_reset body = do
  ms ← body_members body
  base ← base_fields ms
  kind ← text_field "type" ms
  reset_type ← text_field "reset_type" ms
  some (record { base = base; kind = kind; reset_type = reset_type })

pub record GetConfigurationRequest : Type 0 where
  pub base : BaseChargerRequest
  pub key : List String
  pub keys : List String
  pub configuration_keys : List String

unfoldable pub decode_get_configuration : Option Json → Option GetConfigurationRequest
unfolding field
decode_get_configuration body = do
  ms ← body_members body
  base ← base_fields ms
  key ← texts_field "key" ms
  keys ← texts_field "keys" ms
  configuration_keys ← texts_field "configuration_keys" ms
  some (record { base = base; key = key; keys = keys; configuration_keys = configuration_keys })

abbrev pub or_later : List String → List String → List String
or_later [] later = later
or_later (s ∷ ss) later = s ∷ ss

abbrev pub keys_of : GetConfigurationRequest → List String
keys_of r = or_later r.key (or_later r.keys r.configuration_keys)

pub record ChargerAnalyticsRequest : Type 0 where
  pub uid : String
  pub charger_id : String
  pub user_id : String
  pub start_time : String
  pub end_time : String

unfoldable pub decode_charger_analytics : Option Json → Option ChargerAnalyticsRequest
unfolding field
decode_charger_analytics body = do
  ms ← body_members body
  uid ← text_field "uid" ms
  charger_id ← text_field "charger_id" ms
  user_id ← text_field "user_id" ms
  start_time ← text_field "start_time" ms
  end_time ← text_field "end_time" ms
  some (record {
    uid = uid;
    charger_id = charger_id;
    user_id = user_id;
    start_time = start_time;
    end_time = end_time;
  })

abbrev pub requested_charger_id : ChargerAnalyticsRequest → String
requested_charger_id r = text_or r.charger_id (text_or r.uid "all")

-- statusRequest and checkInactivityRequest.
pub record UidRequest : Type 0 where
  pub uid : String

unfoldable pub decode_uid : Option Json → Option UidRequest
unfolding field
decode_uid body = do ms ← body_members body; uid ← text_field "uid" ms; some (record { uid = uid })
