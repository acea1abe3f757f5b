-- ===== src/Registry.antt =====
-- internal/state/registry.go and inactivity.go: what the service knows of each charger. A method
-- holds the lock from its first line to its last, so it is one step of the registry. `now` is the
-- clock's answer to the call.
pub mod Inactivity
pub mod Transactions
use ocpphal_go.Prelude.{
  String, Bool, true, false, ◌&&◌, Option, none, some, [], ◌∷◌, ℤ, pos, Float, ◌==◌, ◌!=◌, GoMap,
  get, put, if◌then◌else◌, itoa, atoi, String_key, ℤ_key,
}
use ocpphal_go.Store.Types.{Time, delta_kwh}

-- `last_meter_received` is the text of a time, given by the time.
pub record ConnectorState (F : Type 0) : Type 0 where
  pub status : String
  pub last_meter_value : Option F
  pub last_transaction_consumption_kwh : F
  pub error_code : String
  pub transaction_id : Option ℤ
  pub last_meter_received : Option Time

pub record ChargerState (F : Type 0) : Type 0 where
  pub id : String
  pub online : Bool
  pub has_error : Bool
  pub status : String
  pub connectors : GoMap String (ConnectorState F)
  pub last_message_time : Time

abbrev pub Registry : Type 0 → Type 0
Registry F = GoMap String (ChargerState F)

abbrev pub connector_key : ℤ → String
connector_key = itoa

-- A field that is set to its default while it is empty.
abbrev pub or_default : String → String → String
or_default s default = if s == "" then default else s

module _ {F : Type 0} ⦃f : Float F⦄ where
  -- What Go reads at a missing key.
  abbrev pub zero_connector : ConnectorState F
  zero_connector = record {
    status = "";
    last_meter_value = none;
    last_transaction_consumption_kwh = f.of_int (pos 0);
    error_code = "";
    transaction_id = none;
    last_meter_received = none;
  }

  abbrev pub connector_or_zero : Option (ConnectorState F) → ConnectorState F
  connector_or_zero none = zero_connector
  connector_or_zero (some conn) = conn

  -- `cp.Connectors[key]`
  abbrev pub connector : ChargerState F → String → ConnectorState F
  connector cp key = connector_or_zero (get key cp.connectors)

  abbrev pub new_charger : String → Time → ChargerState F
  new_charger charger_id now = record {
    id = charger_id;
    online = true;
    has_error = false;
    status = "Inactive";
    connectors = [];
    last_message_time = now;
  }

  -- ensureLocked: the charger's state, new if there is none. The callers write it back.
  unfoldable pub ensure : Registry F → String → Time → ChargerState F
  ensure r charger_id now = elim (get charger_id r) [
    | some cp ↦ cp
    | none ↦ new_charger charger_id now
  ]

  unfoldable pub touch : Registry F → String → Time → Registry F
  unfolding ensure
  touch r charger_id now =
      put charger_id (record (ensure r charger_id now) { online = true; last_message_time = now }) r

  unfoldable pub mark_offline : Registry F → String → Time → Registry F
  mark_offline r charger_id now = elim (get charger_id r) [
    | none ↦ r
    | some cp ↦ put charger_id (record cp { online = false; last_message_time = now }) r
  ]

  unfoldable pub notified : ConnectorState F → String → String → ConnectorState F
  notified conn status error_code = record conn {
    status = or_default status (or_default conn.status "Unknown");
    error_code = or_default error_code (or_default conn.error_code "NoError");
  }

  unfoldable pub apply_status_notification :
      Registry F → String → ℤ → String → String → Time → Registry F
  unfolding ensure notified
  apply_status_notification r charger_id connector_id status error_code now =
      let cp = ensure r charger_id now in
      let key = connector_key connector_id in
      let conn = notified (connector cp key) status error_code in
      put charger_id
        (record cp {
          online = true;
          last_message_time = now;
          has_error = conn.error_code != "" && conn.error_code != "NoError";
          connectors = put key conn cp.connectors;
        })
        r

  unfoldable pub started : ConnectorState F → ℤ → F → Time → ConnectorState F
  started conn transaction_id meter_start now = record conn {
    error_code = or_default conn.error_code "NoError";
    status = "Charging";
    last_meter_value = some meter_start;
    transaction_id = some transaction_id;
    last_meter_received = some now;
  }

  unfoldable pub apply_start_transaction : Registry F → String → ℤ → ℤ → F → Time → Registry F
  unfolding ensure started
  apply_start_transaction r charger_id connector_id transaction_id meter_start now =
      let cp = ensure r charger_id now in
      let key = connector_key connector_id in
      put charger_id
        (record cp {
          online = true;
          status = "Active";
          last_message_time = now;
          connectors =
              put key (started (connector cp key) transaction_id meter_start now) cp.connectors;
        })
        r

  -- The consumption since the last reading, if there was one.
  abbrev pub consumption : ConnectorState F → F → F
  consumption conn reading = elim conn.last_meter_value [
    | none ↦ conn.last_transaction_consumption_kwh
    | some last ↦ delta_kwh last reading
  ]

  unfoldable pub metered : ConnectorState F → Option ℤ → F → Time → ConnectorState F
  metered conn transaction_id reading now = record conn {
    status = or_default conn.status "Unknown";
    error_code = or_default conn.error_code "NoError";
    last_transaction_consumption_kwh = consumption conn reading;
    last_meter_value = some reading;
    transaction_id = elim transaction_id [ none ↦ conn.transaction_id | some t ↦ some t ];
    last_meter_received = some now;
  }

  unfoldable pub apply_meter_value : Registry F → String → ℤ → Option ℤ → F → Time → Registry F
  unfolding ensure metered
  apply_meter_value r charger_id connector_id transaction_id reading now =
      let cp = ensure r charger_id now in
      let key = connector_key connector_id in
      put charger_id
        (record cp {
          online = true;
          last_message_time = now;
          connectors =
              put key (metered (connector cp key) transaction_id reading now) cp.connectors;
        })
        r

  unfoldable pub finished : ConnectorState F → F → Time → ConnectorState F
  finished conn meter_stop now = record conn {
    error_code = or_default conn.error_code "NoError";
    last_transaction_consumption_kwh = consumption conn meter_stop;
    status = "Available";
    last_meter_value = some meter_stop;
    transaction_id = none;
    last_meter_received = some now;
  }

  unfoldable pub apply_stop_transaction : Registry F → String → ℤ → F → Time → Registry F
  unfolding ensure finished
  apply_stop_transaction r charger_id connector_id meter_stop now =
      let cp = ensure r charger_id now in
      let key = connector_key connector_id in
      put charger_id
        (record cp {
          online = true;
          status = "Inactive";
          last_message_time = now;
          connectors = put key (finished (connector cp key) meter_stop now) cp.connectors;
        })
        r

  -- `conn.TransactionID != nil && *conn.TransactionID == transactionID`
  abbrev pub holds : ConnectorState F → ℤ → Bool
  holds conn tid = elim conn.transaction_id [ none ↦ false | some t ↦ t == tid ]

  -- The loop of FindConnectorByTransactionID.
  unfoldable pub find_in : ℤ → GoMap String (ConnectorState F) → Option ℤ
  find_in tid [] = none
  find_in tid ((key, conn) ∷ rest) =
      let later = find_in tid rest in
      if holds conn tid then (elim (atoi key) [ none ↦ later | some id ↦ some id ]) else later

  unfoldable pub find_connector_by_transaction_id : Registry F → String → ℤ → Option ℤ
  unfolding find_in
  find_connector_by_transaction_id r charger_id tid = elim (get charger_id r) [
    | none ↦ none
    | some cp ↦ find_in tid cp.connectors
  ]

  unfoldable pub transaction_id_for_connector : Registry F → String → ℤ → Option ℤ
  transaction_id_for_connector r charger_id connector_id = elim (get charger_id r) [
    | none ↦ none
    | some cp ↦ elim (get (connector_key connector_id) cp.connectors) [
      | none ↦ none
      | some conn ↦ conn.transaction_id
    ]
  ]

  -- A copy, which shares nothing that the registry changes.
  unfoldable pub snapshot : Registry F → String → Option (ChargerState F)
  snapshot r charger_id = get charger_id r

  unfoldable pub snapshot_all : Registry F → GoMap String (ChargerState F)
  snapshot_all r = r
