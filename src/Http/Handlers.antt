-- ===== src/Http/Handlers.antt =====
-- The handlers of internal/httpapi/server.go.
pub mod Single
pub mod Plain
use ocpphal_go.Prelude.{
  ℕ, String, Bool, true, false, not, ◌||◌, Option, none, some, List, [], ◌∷◌, ℤ, Float, GoMap,
  String_key, ◌==◌, if◌then◌else◌, is_positive, Json,
}
use ocpphal_go.Store.Types.{Error, Result, ok, err}
use ocpphal_go.Registry.{snapshot, snapshot_all}
use ocpphal_go.Directory.{is_known, known_ids}
use ocpphal_go.Hal.Pending.{PendingStarts}
use ocpphal_go.Hal.Outbound.{
  remote_start_transaction_with_options, remote_stop_transaction, change_availability_call,
  change_configuration_call, clear_cache_call, unlock_connector_call, reset_call,
}
use ocpphal_go.Hal.Extra.{get_configuration_call}
use ocpphal_go.Http.Decode.{positive_or, text_or}
use ocpphal_go.Http.Requests
use ocpphal_go.Http.Requests.{charger_id_of}
use ocpphal_go.Http.Status.{
  legacy_status_payload, legacy_offline_status_payload, all_payloads, known_online, known_all,
  payload_or_offline,
}
use ocpphal_go.Http.Exchange.{
  Body, no_body, detail, error, status, configuration, charger, chargers, Response, Server, World,
  Moment,
}

module _ {F : Type 0} where
  abbrev pub bad_request : String → Response F
  bad_request text = record { code = 400; body = detail text }

  -- decodeJSON's answer.
  abbrev pub invalid_json : Response F
  invalid_json = bad_request "Invalid JSON"

  abbrev pub missing_charger : Response F
  missing_charger = bad_request "Missing uid/charge_point_id"

  -- writeRemoteError for an error, and what the handler writes for an answer.
  abbrev pub remote_answer : {A : Type 0} → (A → Body F) → Result A → Response F
  remote_answer write (err e) = record { code = 404; body = error e }
  remote_answer write (ok a) = record { code = 200; body = write a }

  abbrev pub directory_failed : Response F
  directory_failed = record { code = 500; body = detail "Error fetching charger data from API" }

module _ {F : Type 0} where
  unfoldable pub remote_stop : Moment → Option Json → Response F
  unfolding Requests.decode_remote_stop remote_stop_transaction charger_id_of
  remote_stop m body = elim (Requests.decode_remote_stop body) [
    | none ↦ invalid_json
    | some req ↦
        let charger_id = charger_id_of req.base in
        let transaction_id = positive_or req.transaction_id req.transaction_id_camel in
        if charger_id == ""
        then missing_charger
        else if not (is_positive transaction_id)
        then bad_request "Invalid transaction_id/transactionId"
        else remote_answer status (remote_stop_transaction m.central.call charger_id transaction_id)
  ]

  unfoldable pub change_availability : Moment → Option Json → Response F
  unfolding Requests.decode_change_availability change_availability_call charger_id_of
  change_availability m body = elim (Requests.decode_change_availability body) [
    | none ↦ invalid_json
    | some req ↦
        let charger_id = charger_id_of req.base in
        if charger_id == ""
        then missing_charger
        else remote_answer status (
            change_availability_call m.central.call charger_id
              (positive_or req.connector_id req.connector_id_camel)
              (text_or req.kind req.availability_type))
  ]

  unfoldable pub change_configuration : Moment → Option Json → Response F
  unfolding Requests.decode_change_configuration change_configuration_call charger_id_of
  change_configuration m body = elim (Requests.decode_change_configuration body) [
    | none ↦ invalid_json
    | some req ↦
        let charger_id = charger_id_of req.base in
        if charger_id == ""
        then missing_charger
        else if req.key == ""
        then bad_request "Missing key"
        else remote_answer status
            (change_configuration_call m.central.call charger_id req.key req.value)
  ]

  unfoldable pub clear_cache : Moment → Option Json → Response F
  unfolding Requests.decode_base clear_cache_call charger_id_of
  clear_cache m body = elim (Requests.decode_base body) [
    | none ↦ invalid_json
    | some req ↦
        let charger_id = charger_id_of req in
        if charger_id == ""
        then missing_charger
        else remote_answer status (clear_cache_call m.central.call charger_id)
  ]

  unfoldable pub unlock_connector : Moment → Option Json → Response F
  unfolding Requests.decode_unlock_connector unlock_connector_call charger_id_of
  unlock_connector m body = elim (Requests.decode_unlock_connector body) [
    | none ↦ invalid_json
    | some req ↦
        let charger_id = charger_id_of req.base in
        let connector_id = positive_or req.connector_id req.connector_id_camel in
        if charger_id == ""
        then missing_charger
        else if not (is_positive connector_id)
        then bad_request "Invalid connector_id/connectorId"
        else remote_answer status (unlock_connector_call m.central.call charger_id connector_id)
  ]

  unfoldable pub reset : Moment → Option Json → Response F
  unfolding Requests.decode_reset reset_call charger_id_of
  reset m body = elim (Requests.decode_reset body) [
    | none ↦ invalid_json
    | some req ↦
        let charger_id = charger_id_of req.base in
        if charger_id == ""
        then missing_charger
        else remote_answer status (
            reset_call m.central.call charger_id (text_or (text_or req.kind req.reset_type) "Soft"))
  ]

  unfoldable pub get_configuration : Moment → Option Json → Response F
  unfolding Requests.decode_get_configuration get_configuration_call charger_id_of
  get_configuration m body = elim (Requests.decode_get_configuration body) [
    | none ↦ invalid_json
    | some req ↦
        let charger_id = charger_id_of req.base in
        if charger_id == ""
        then missing_charger
        else remote_answer configuration
            (get_configuration_call m.central charger_id (Requests.keys_of req))
  ]

module _ {F S D : Type 0} where
  abbrev pub started : World F S D → Result String × PendingStarts → Response F × World F S D
  started w (answer, pending) =
      (remote_answer status answer, record w { hal = record w.hal { pending = pending } })

  unfoldable pub remote_start : Moment → World F S D → Option Json → Response F × World F S D
  unfolding Requests.decode_remote_start remote_start_transaction_with_options charger_id_of
  remote_start m w body = elim (Requests.decode_remote_start body) [
    | none ↦ (invalid_json, w)
    | some req ↦
        let charger_id = charger_id_of req.base in
        let id_tag = Requests.id_tag_of req in
        if charger_id == ""
        then (missing_charger, w)
        else if id_tag == ""
        then (bad_request "Missing id_tag/idTag", w)
        else started w (
            remote_start_transaction_with_options m.central.call w.hal.pending charger_id id_tag
              (positive_or req.connector_id req.connector_id_camel)
              (Requests.is_single_session_of req))
  ]

module _ {F S D : Type 0} ⦃f : Float F⦄ where
  -- The answer for all chargers, once the directory has answered.
  abbrev pub status_of_known : World F S D → String → Result (List String) → Response F
  status_of_known w uid (err e) = directory_failed
  status_of_known w uid (ok []) = record {
    code = 200;
    body = chargers (all_payloads uid (snapshot_all w.hal.registry));
  }
  status_of_known w uid (ok (id ∷ ids)) = record {
    code = 200;
    body = chargers (
        if uid == "all_online"
        then known_online w.hal.registry (id ∷ ids)
        else known_all w.hal.registry uid (id ∷ ids));
  }

  -- The answer for one charger, once the directory has answered.
  abbrev pub status_of_one : World F S D → String → Result Bool → Response F
  status_of_one w uid (err e) = directory_failed
  status_of_one w uid (ok false) = record {
    code = 404;
    body = detail "Charger not found in the system";
  }
  status_of_one w uid (ok true) = record {
    code = 200;
    body = charger (payload_or_offline (snapshot w.hal.registry uid) "specific" uid);
  }

  unfoldable pub status_handler :
      Server F S D → Moment → World F S D → Option Json → Response F × World F S D
  unfolding Requests.decode_uid known_ids is_known all_payloads known_online known_all snapshot
      snapshot_all
  status_handler server m w body = elim (Requests.decode_uid body) [
    | none ↦ (invalid_json, w)
    | some req ↦
        let (ids, d) = known_ids server.directory w.directory m.call in
        let (known, d') = is_known server.directory w.directory m.call req.uid in
        if req.uid == ""
        then (bad_request "Missing uid", w)
        else if req.uid == "all" || req.uid == "all_online"
        then (status_of_known w req.uid ids, record w { directory = d })
        else (status_of_one w req.uid known, record w { directory = d' })
  ]
