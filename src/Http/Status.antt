-- ===== src/Http/Status.antt =====
-- internal/httpapi/status_compat.go and the payload of frontend_ws.go: how a charger's state is shown.
pub mod Listed
use ocpphal_go.Prelude.{
  String, Bool, true, false, not, ◌&&◌, ◌||◌, Option, none, some, List, [], ◌∷◌, ◌++◌, ℤ, Float,
  GoMap, get, put, String_key, ◌==◌, if◌then◌else◌, is_some,
}
use ocpphal_go.Store.Types.{Time}
use ocpphal_go.Registry.{ConnectorState, ChargerState, Registry, snapshot, snapshot_all}
use ocpphal_go.Registry.Inactivity.{online_text}

-- A value of a connector's object. A time is shown as a text, given by the time; a number that was
-- written as JSON and read again is the same number.
pub data Shown (F : Type 0) : Type 0 where
  nil : Shown F
  text : String → Shown F
  float : F → Shown F
  integer : ℤ → Shown F
  time : Time → Shown F

abbrev pub Item : Type 0 → Type 0
Item F = GoMap String (Shown F)

pub data Part (F : Type 0) : Type 0 where
  value : Shown F → Part F
  connectors : GoMap String (Item F) → Part F

abbrev pub Payload : Type 0 → Type 0
Payload F = GoMap String (Part F)

-- What the frontend's socket sends: one charger, or all in the registry.
pub data View (F : Type 0) : Type 0 where
  one : Payload F → View F
  each : GoMap String (Payload F) → View F

module _ {F : Type 0} where
  abbrev pub float_member : String → Option F → Item F
  float_member key none = []
  float_member key (some x) = (key, float x) ∷ []

  abbrev pub integer_member : String → Option ℤ → Item F
  integer_member key none = []
  integer_member key (some n) = (key, integer n) ∷ []

  abbrev pub time_member : String → Option Time → Item F
  time_member key none = []
  time_member key (some t) = (key, time t) ∷ []

  -- A connector as JSON, by the tags of ConnectorState: three members are left out when they are nil.
  unfoldable pub encoded : ConnectorState F → Item F
  encoded conn =
      ("status", text conn.status)
      ∷ (float_member "last_meter_value" conn.last_meter_value
          ++ (("last_transaction_consumption_kwh", float conn.last_transaction_consumption_kwh)
              ∷ ("error_code", text conn.error_code)
              ∷ (integer_member "transaction_id" conn.transaction_id
                  ++ time_member "last_meter_received" conn.last_meter_received)))

  unfoldable pub first_present : Item F → List String → Shown F
  first_present values [] = nil
  first_present values (key ∷ keys) = elim (get key values) [
    | some v ↦ v
    | none ↦ first_present values keys
  ]

  -- One pass of the loop of legacyConnectorPayload, on a connector that was read back.
  unfoldable pub legacy_item : Item F → Item F
  unfolding first_present
  legacy_item connector =
      let last_meter = first_present connector ("last_meter_value" ∷ "latest_meter_value" ∷ []) in
      let last_consumption =
        first_present connector
          ("last_transaction_consumption_kwh" ∷ "latest_transaction_consumption_kwh" ∷ []) in
      let transaction_id =
        first_present connector ("transaction_id" ∷ "latest_transaction_id" ∷ []) in
      let item = put "latest_transaction_id" transaction_id (
        put "transaction_id" transaction_id (
          put "latest_transaction_consumption_kwh" last_consumption (
            put "last_transaction_consumption_kwh" last_consumption (
              put "latest_meter_value" last_meter
                (put "last_meter_value" last_meter connector))))) in
      if is_some (get "error_code" item) then item else put "error_code" (text "NoError") item

  unfoldable pub legacy_items : GoMap String (ConnectorState F) → GoMap String (Item F)
  unfolding legacy_item encoded
  legacy_items [] = []
  legacy_items ((id, conn) ∷ rest) = (id, legacy_item (encoded conn)) ∷ legacy_items rest

  -- The offline payload, and what the frontend's socket sends for an unknown charger.
  abbrev pub offline : Payload F
  offline =
      ("status", value (text "Offline"))
      ∷ ("connectors", connectors [])
      ∷ ("online", value (text "Offline"))
      ∷ ("latest_message_received_time", value nil)
      ∷ []

  abbrev pub with_mode : String → String → Shown F → Payload F → Payload F
  with_mode mode charger_id last payload =
      let timed =
        if mode == "all" then put "last_message_received_time" (value last) payload else payload in
      if mode == "specific" then put "charger_id" (value (text charger_id)) timed else timed

  unfoldable pub legacy_offline_status_payload : String → String → Payload F
  legacy_offline_status_payload mode charger_id = with_mode mode charger_id nil offline

module _ {F : Type 0} ⦃f : Float F⦄ where
  abbrev pub is_finite_or_nil : Option F → Bool
  is_finite_or_nil none = true
  is_finite_or_nil (some x) = f.is_finite x

  -- json.Marshal refuses a number that is not finite.
  unfoldable pub can_marshal : GoMap String (ConnectorState F) → Bool
  can_marshal [] = true
  can_marshal ((_, conn) ∷ rest) =
      is_finite_or_nil conn.last_meter_value
      && f.is_finite conn.last_transaction_consumption_kwh
      && can_marshal rest

  unfoldable pub legacy_connector_payload : GoMap String (ConnectorState F) → GoMap String (Item F)
  unfolding can_marshal legacy_items
  legacy_connector_payload conns = if can_marshal conns then legacy_items conns else []

  unfoldable pub legacy_status_payload : ChargerState F → String → String → Payload F
  unfolding legacy_connector_payload online_text
  legacy_status_payload cp mode charger_id = with_mode mode charger_id (time cp.last_message_time) (
      ("status", value (text cp.status))
      ∷ ("connectors", connectors (legacy_connector_payload cp.connectors))
      ∷ ("online", value (text (online_text cp.online cp.has_error)))
      ∷ ("latest_message_received_time", value (time cp.last_message_time))
      ∷ [])

  -- The loops of `status` and frontendStatusPayload over the registry.
  unfoldable pub all_payloads : String → GoMap String (ChargerState F) → GoMap String (Payload F)
  unfolding legacy_status_payload
  all_payloads mode [] = []
  all_payloads mode ((id, cp) ∷ rest) =
      let later = all_payloads mode rest in
      if mode == "all_online" && not cp.online
      then later
      else (id, legacy_status_payload cp mode id) ∷ later

  abbrev pub payload_or_offline : Option (ChargerState F) → String → String → Payload F
  payload_or_offline none mode charger_id = legacy_offline_status_payload mode charger_id
  payload_or_offline (some cp) mode charger_id = legacy_status_payload cp mode charger_id

  abbrev pub add_online :
      Option (ChargerState F) → String → GoMap String (Payload F) → GoMap String (Payload F)
  add_online none id later = later
  add_online (some cp) id later =
      if not cp.online then later else put id (legacy_status_payload cp "all_online" id) later

  -- The loops of `status` over the known chargers. Each writes one entry for each id.
  unfoldable pub known_online : Registry F → List String → GoMap String (Payload F)
  unfolding legacy_status_payload snapshot
  known_online r [] = []
  known_online r (id ∷ ids) = add_online (snapshot r id) id (known_online r ids)

  unfoldable pub known_all : Registry F → String → List String → GoMap String (Payload F)
  unfolding legacy_status_payload legacy_offline_status_payload snapshot
  known_all r mode [] = []
  known_all r mode (id ∷ ids) =
      put id (payload_or_offline (snapshot r id) mode id) (known_all r mode ids)

  unfoldable pub frontend_status_payload : Registry F → String → View F
  unfolding all_payloads legacy_status_payload snapshot snapshot_all
  frontend_status_payload r uid =
      if uid == "all" || uid == "all_online"
      then each (all_payloads uid (snapshot_all r))
      else elim (snapshot r uid) [
        | none ↦ one offline
        | some cp ↦ one (legacy_status_payload cp "specific" uid)
      ]
