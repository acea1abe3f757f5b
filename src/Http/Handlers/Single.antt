-- ===== src/Http/Handlers/Single.antt =====
-- remoteStart with the single-session option, down to the map of pending single sessions.
use ocpphal_go.Prelude.{
  ◌≡◌, ◌≢◌, ◌⊎◌, inl, inr, refl, arith, String, true, Option, none, some, ℤ, get, String_key, Json,
}
use ocpphal_go.Store.Types.{Error, Result, ok, err}
use ocpphal_go.Hal.Pending.{PendingStarts, pending_key, key_of, consume_pending}
use ocpphal_go.Hal.Outbound.{remote_start_transaction_with_options}
use ocpphal_go.Hal.Outbound.Start.{start_single}
use ocpphal_go.Http.Decode.{positive_or}
use ocpphal_go.Http.Requests.{
  RemoteStartRequest, decode_remote_start, charger_id_of, id_tag_of, is_single_session_of,
}
use ocpphal_go.Http.Exchange.{World, Moment, Response}
use ocpphal_go.Http.Handlers.{remote_start, started}

module _ {F S D : Type 0} where
  -- What an answer says of the session that was asked for.
  abbrev pub Tells : Response F × World F S D → String → ℤ → String → Type 0
  Tells (answer, w) charger connector id_tag =
      ((answer.code ≡ 200) × ((consume_pending w.hal.pending charger connector id_tag).0 ≡ true))
      ⊎ ((answer.code ≡ 404) × (get (key_of charger connector id_tag) w.hal.pending ≡ none))

  pub reached :
      (m : Moment) (w : World F S D) (body : Option Json) (req : RemoteStartRequest)
      → decode_remote_start body ≡ some req
      → charger_id_of req.base ≢ ""
      → id_tag_of req ≢ ""
      → remote_start m w body
        ≡ started w (
            remote_start_transaction_with_options m.central.call w.hal.pending
              (charger_id_of req.base)
              (id_tag_of req)
              (positive_or req.connector_id req.connector_id_camel)
              (is_single_session_of req))
  unfolding remote_start
  reached m w body req e c t = rw (e, remote_start) (ground (arith, c, t))

  told :
      (w : World F S D) (out : Result String × PendingStarts) (c t : String) (k : ℤ)
      → ((a : String) → out.0 ≡ ok a → (consume_pending out.1 c k t).0 ≡ true)
      → ((e : Error) → out.0 ≡ err e → get (key_of c k t) out.1 ≡ none)
      → Tells (started w out) c k t
  told w (ok a, p) c t k waits gone = inl (refl, waits a refl)
  told w (err e, p) c t k waits gone = inr (refl, gone e refl)

  -- A start request that can be read, has a charger and a tag and asks for a single session is answered
  -- with 200 or 404. After 200 the session waits for the charger's start on that connector; after 404
  -- none waits there.
  pub single_start_answered :
      (m : Moment) (w : World F S D) (body : Option Json) (req : RemoteStartRequest)
      → decode_remote_start body ≡ some req
      → charger_id_of req.base ≢ ""
      → id_tag_of req ≢ ""
      → is_single_session_of req ≡ true
      → Tells
          (remote_start m w body)
          (charger_id_of req.base)
          (positive_or req.connector_id req.connector_id_camel)
          (id_tag_of req)
  single_start_answered m w body req e c t single =
      let charger = charger_id_of req.base in
      let connector = positive_or req.connector_id req.connector_id_camel in
      let (_, waits, gone, _) =
        start_single m.central.call w.hal.pending charger (id_tag_of req) connector in
      rw (reached m w body req e c t, single)
        (told w
          (remote_start_transaction_with_options m.central.call w.hal.pending charger
            (id_tag_of req) connector true)
          charger (id_tag_of req) connector waits gone)
