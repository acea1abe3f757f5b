-- ===== src/Http/Handlers/Plain.antt =====
-- remoteStart of internal/httpapi/server.go without the single-session option, down to the call of the
-- charger.
use ocpphal_go.Prelude.{◌≡◌, ◌≢◌, ◌⊎◌, inl, inr, refl, String, false, Option, some, Json}
use ocpphal_go.Store.Types.{Error, Result, ok, err}
use ocpphal_go.Hal.Outbound.{remote_start_transaction}
use ocpphal_go.Hal.Outbound.Start.{plain_failed, plain_passed}
use ocpphal_go.Http.Decode.{positive_or}
use ocpphal_go.Http.Requests.{
  RemoteStartRequest, decode_remote_start, charger_id_of, id_tag_of, is_single_session_of,
}
use ocpphal_go.Http.Exchange.{World, Moment, status}
use ocpphal_go.Http.Handlers.{remote_start}
use ocpphal_go.Http.Handlers.Single.{reached}

result_cases : {A : Type 0} (r : Result A) → ((a : A) × (r ≡ ok a)) ⊎ ((e : Error) × (r ≡ err e))
result_cases (ok a) = inl (a, refl)
result_cases (err e) = inr (e, refl)

module _ {F S D : Type 0} where
  -- A start request that can be read, has a charger and a tag and does not ask for a single session is
  -- answered with 200 whatever becomes of the call of the charger, and changes nothing in the service.
  -- The status in the answer is the charger's when the call succeeded, and empty when it failed, for
  -- whatever reason: the error is lost on the way to the client.
  pub plain_start_answered :
      (m : Moment) (w : World F S D) (body : Option Json) (req : RemoteStartRequest)
      → decode_remote_start body ≡ some req
      → charger_id_of req.base ≢ ""
      → id_tag_of req ≢ ""
      → is_single_session_of req ≡ false
      → let called =
          remote_start_transaction m.central.call
            (charger_id_of req.base)
            (id_tag_of req)
            (positive_or req.connector_id req.connector_id_camel) in
        ((a : String) × (called ≡ ok a)
          × (remote_start m w body ≡ (record { code = 200; body = status a }, w)))
        ⊎ ((e : Error) × (called ≡ err e)
            × (remote_start m w body ≡ (record { code = 200; body = status "" }, w)))
  plain_start_answered m w body req e c t plain =
      let charger = charger_id_of req.base in
      let connector = positive_or req.connector_id req.connector_id_camel in
      let cs = m.central.call in
      elim (result_cases (remote_start_transaction cs charger (id_tag_of req) connector)) [
        | inl (a, h) ↦ inl (
          a,
          h,
          rw (reached m w body req e c t, plain)
              (rw (plain_passed cs w.hal.pending charger (id_tag_of req) connector a h) refl),
        )
        | inr (x, h) ↦ inr (
          x,
          h,
          rw (reached m w body req e c t, plain)
              (rw (plain_failed cs w.hal.pending charger (id_tag_of req) connector x h) refl),
        )
      ]
