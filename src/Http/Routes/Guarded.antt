-- ===== src/Http/Routes/Guarded.antt =====
-- The API key, and what the requests may change.
use ocpphal_go.Prelude.{
  ◌≡◌, ◌≢◌, refl, arith, true, Option, Float, String_key, Option-cases, inl, inr, Json,
}
use ocpphal_go.Http.Requests.{decode_remote_start, decode_uid}
use ocpphal_go.Http.Exchange.{Request, Server, World, Moment}
use ocpphal_go.Http.Handlers.{remote_start, status_handler}
use ocpphal_go.Http.Reports.{check_charger_inactivity}
use ocpphal_go.Http.Routes.{api_paths, one_of, dispatch, api, require_api_key, routes}

module _ {F S D : Type 0} ⦃f : Float F⦄ where
  -- A key is set, the request has it, is a POST, and is to a path of the API.
  abbrev pub Authorised : Server F S D → Request → Type 0
  Authorised server r =
      (server.cfg.api_key ≢ "")
      × (r.api_key ≡ server.cfg.api_key)
      × (r.method ≡ "POST")
      × (one_of r.path api_paths ≡ true)

  -- What no request may change.
  abbrev pub Kept : World F S D → World F S D → Type 0
  Kept w w' =
      (w'.hal.store ≡ w.hal.store)
      × (w'.hal.connections ≡ w.hal.connections)
      × (w'.hal.sync_once ≡ w.hal.sync_once)
      × (w'.hal.boot_running ≡ w.hal.boot_running)
      × (w'.hal.started ≡ w.hal.started)

  same-Kept : (w : World F S D) → Kept w w
  same-Kept w = (refl, refl, refl, refl, refl)

  remote_start-Kept :
      (m : Moment) (w : World F S D) (body : Option Json) → Kept w (remote_start m w body).1
  unfolding remote_start
  remote_start-Kept m w body = elim (Option-cases (decode_remote_start body)) [
    | inl e ↦ rw (e, remote_start) (same-Kept w)
    | inr (req, e) ↦ rw (e, remote_start) (ground arith)
  ]

  status_handler-Kept :
      (server : Server F S D) (m : Moment) (w : World F S D) (body : Option Json)
      → Kept w (status_handler server m w body).1
  unfolding status_handler
  status_handler-Kept server m w body = elim (Option-cases (decode_uid body)) [
    | inl e ↦ rw (e, status_handler) (same-Kept w)
    | inr (req, e) ↦ rw (e, status_handler) (ground arith)
  ]

  check_charger_inactivity-Kept :
      (m : Moment) (w : World F S D) (body : Option Json)
      → Kept w (check_charger_inactivity m w body).1
  unfolding check_charger_inactivity
  check_charger_inactivity-Kept m w body = elim (Option-cases (decode_uid body)) [
    | inl e ↦ rw (e, check_charger_inactivity) (same-Kept w)
    | inr (req, e) ↦ rw (e, check_charger_inactivity) (ground arith)
  ]

  dispatch-Kept :
      (server : Server F S D) (m : Moment) (w : World F S D) (r : Request)
      → Kept w (dispatch server m w r).1
  unfolding dispatch
  dispatch-Kept server m w r = ground (
    arith,
    status_handler-Kept server m w r.body,
    remote_start-Kept m w r.body,
    check_charger_inactivity-Kept m w r.body,
  )

  api-Kept :
      (server : Server F S D) (m : Moment) (w : World F S D) (r : Request)
      → Kept w (api server m w r).1
  unfolding api
  api-Kept server m w r = ground (arith, dispatch-Kept server m w r)

  require_api_key-Kept :
      (server : Server F S D) (m : Moment) (w : World F S D) (r : Request)
      → Kept w (require_api_key server m w r).1
  unfolding require_api_key
  require_api_key-Kept server m w r = ground (arith, api-Kept server m w r)

  -- No request to the API changes the transactions or the outbox, the connections, or what the service
  -- has started in the background, whatever its method, its path, its key and its body are.
  pub routes-Kept :
      (server : Server F S D) (m : Moment) (w : World F S D) (r : Request)
      → Kept w (routes server m w r).1
  unfolding routes
  routes-Kept server m w r = ground (arith, require_api_key-Kept server m w r)
