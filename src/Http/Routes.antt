-- ===== src/Http/Routes.antt =====
-- Routes, requireAPIKey and api of internal/httpapi/server.go: which handler a request reaches. The
-- headers that setCORS adds to every response are left out.
pub mod Guarded
use ocpphal_go.Prelude.{
  String, Bool, true, false, not, ◌||◌, Option, none, some, List, [], ◌∷◌, Float, String_key, ◌==◌,
  ◌!=◌, if◌then◌else◌,
}
use ocpphal_go.Registry.{Registry}
use ocpphal_go.Http.Exchange.{
  Request, no_body, detail, message, not_implemented, Response, Server, World, Moment,
}
use ocpphal_go.Http.Handlers.{
  remote_start, remote_stop, change_availability, change_configuration, clear_cache,
  unlock_connector, reset, get_configuration, status_handler,
}
use ocpphal_go.Http.FirmwareHandlers.{get_diagnostics, update_firmware, trigger_message}
use ocpphal_go.Http.Reports.{charger_analytics_handler, check_charger_inactivity}

-- The paths of Routes that go through requireAPIKey.
abbrev pub api_paths : List String
api_paths =
    "/api/status" ∷ "/api/start_transaction" ∷ "/api/stop_transaction" ∷ "/api/change_availability"
    ∷ "/api/change_configuration" ∷ "/api/clear_cache" ∷ "/api/unlock_connector" ∷ "/api/reset"
    ∷ "/api/get_configuration" ∷ "/api/get_diagnostics" ∷ "/api/update_firmware"
    ∷ "/api/trigger_message" ∷ "/api/charger_analytics" ∷ "/api/check_charger_inactivity" ∷ []

abbrev pub one_of : String → List String → Bool
one_of s [] = false
one_of s (t ∷ ts) = s == t || one_of s ts

abbrev pub plain : {F : Type 0} → (code : Prim.Native.Nat.ℕ) → Response F
plain code = record { code = code; body = no_body }

unfoldable pub hello : {F : Type 0} → Request → Response F
hello r = if r.method != "GET" then plain 405 else record {
  code = 200;
  body = message "Helloo, this is the OCPP HAL API. It is running fine.";
}

module _ {F S D : Type 0} ⦃f : Float F⦄ where
  -- The switch of `api`.
  unfoldable pub dispatch : Server F S D → Moment → World F S D → Request → Response F × World F S D
  unfolding remote_start remote_stop change_availability change_configuration clear_cache
      unlock_connector reset get_configuration status_handler get_diagnostics update_firmware
      trigger_message charger_analytics_handler check_charger_inactivity
  dispatch server m w r =
      let body = r.body in
      if r.path == "/api/status"
      then status_handler server m w body
      else if r.path == "/api/start_transaction"
      then remote_start m w body
      else if r.path == "/api/stop_transaction"
      then (remote_stop m body, w)
      else if r.path == "/api/change_availability"
      then (change_availability m body, w)
      else if r.path == "/api/change_configuration"
      then (change_configuration m body, w)
      else if r.path == "/api/clear_cache"
      then (clear_cache m body, w)
      else if r.path == "/api/unlock_connector"
      then (unlock_connector m body, w)
      else if r.path == "/api/reset"
      then (reset m body, w)
      else if r.path == "/api/get_configuration"
      then (get_configuration m body, w)
      else if r.path == "/api/get_diagnostics"
      then (get_diagnostics server.parse_time m body, w)
      else if r.path == "/api/update_firmware"
      then (update_firmware server.parse_time m body, w)
      else if r.path == "/api/trigger_message"
      then (trigger_message m body, w)
      else if r.path == "/api/charger_analytics"
      then (charger_analytics_handler server m w body, w)
      else if r.path == "/api/check_charger_inactivity"
      then check_charger_inactivity m w body
      else (record { code = 501; body = not_implemented r.path }, w)

  unfoldable pub api : Server F S D → Moment → World F S D → Request → Response F × World F S D
  unfolding dispatch
  api server m w r = if r.method != "POST" then (plain 405, w) else dispatch server m w r

  unfoldable pub require_api_key :
      Server F S D → Moment → World F S D → Request → Response F × World F S D
  unfolding api
  require_api_key server m w r =
      if server.cfg.api_key == "" || r.api_key != server.cfg.api_key
      then (record { code = 403; body = detail "Invalid API key" }, w)
      else api server m w r

  -- What Routes makes of a path of the API: the two WebSockets are not here, and any other path is
  -- answered by the router.
  unfoldable pub routes : Server F S D → Moment → World F S D → Request → Response F × World F S D
  unfolding require_api_key hello
  routes server m w r =
      if r.path == "/api/hello"
      then (hello r, w)
      else if one_of r.path api_paths
      then (if r.method == "OPTIONS" then (plain 200, w) else require_api_key server m w r)
      else (plain 404, w)
