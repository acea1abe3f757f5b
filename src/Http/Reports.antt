-- ===== src/Http/Reports.antt =====
-- The handlers of internal/httpapi/analytics_inactivity.go, and ChargerAnalytics of
-- internal/ocpp16hal/analytics.go, which passes the request to the store.
use ocpphal_go.Prelude.{String, Option, none, some, Float, String_key, ◌==◌, if◌then◌else◌, Json}
use ocpphal_go.Store.Types.{Time, Result, ok, err}
use ocpphal_go.Store.Analytics.{AnalyticsOutput}
use ocpphal_go.Store.Interface.{TransactionStore}
use ocpphal_go.Registry.Inactivity.{check_inactivity}
use ocpphal_go.Http.Requests.{decode_charger_analytics, decode_uid, requested_charger_id}
use ocpphal_go.Http.Exchange.{error, analytics, inactivity, Response, Server, World, Moment}
use ocpphal_go.Http.Handlers.{bad_request, invalid_json}

abbrev pub some_time : Result Time → Result (Option Time)
some_time (err e) = err e
some_time (ok t) = ok (some t)

unfoldable pub parse_optional_rfc3339 : (String → Result Time) → String → Result (Option Time)
parse_optional_rfc3339 parse_time raw = if raw == "" then ok none else some_time (parse_time raw)

module _ {F S : Type 0} where
  unfoldable pub analytics_of :
      TransactionStore F S
      → S
      → Time
      → String
      → Option Time
      → Option Time
      → Result (AnalyticsOutput F)
  analytics_of store s now charger_id start_time end_time =
      store.charger_analytics s now
        (record { charger_id = charger_id; start_time = start_time; end_time = end_time })

abbrev pub analytics_answer : {F : Type 0} → Result (AnalyticsOutput F) → Response F
analytics_answer (err e) = record { code = 500; body = error e }
analytics_answer (ok a) = record { code = 200; body = analytics a }

-- 120 seconds, in nanoseconds
abbrev pub inactivity_limit : Time
inactivity_limit = 120000000000

module _ {F S D : Type 0} ⦃f : Float F⦄ where
  unfoldable pub charger_analytics_handler :
      Server F S D → Moment → World F S D → Option Json → Response F
  unfolding decode_charger_analytics parse_optional_rfc3339 analytics_of
  charger_analytics_handler server m w body = elim (decode_charger_analytics body) [
    | none ↦ invalid_json
    | some req ↦ elim (parse_optional_rfc3339 server.parse_time req.start_time) [
      | err e ↦ bad_request "Invalid start_time"
      | ok start ↦ elim (parse_optional_rfc3339 server.parse_time req.end_time) [
        | err e ↦ bad_request "Invalid end_time"
        | ok end ↦
            analytics_answer
              (analytics_of server.store w.hal.store m.now (requested_charger_id req) start end)
      ]
    ]
  ]

  unfoldable pub check_charger_inactivity :
      Moment → World F S D → Option Json → Response F × World F S D
  unfolding decode_uid check_inactivity
  check_charger_inactivity m w body = elim (decode_uid body) [
    | none ↦ (invalid_json, w)
    | some req ↦
        let (result, registry) = check_inactivity w.hal.registry req.uid inactivity_limit m.now in
        if req.uid == "" then (bad_request "Missing uid", w) else (
          record { code = 200; body = inactivity result },
          record w { hal = record w.hal { registry = registry } },
        )
  ]
