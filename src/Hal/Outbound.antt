-- ===== src/Hal/Outbound.antt =====
-- The calls that the service makes to a charger (internal/ocpp16hal/hal.go, single_session.go). The
-- OCPP library sends a request and later runs a callback; what it does is an argument here.
pub mod Start
use ocpphal_go.Prelude.{
  String, Bool, true, false, not, ◌&&◌, Option, none, some, List, [], ◌∷◌, ℤ, is_positive,
  if◌then◌else◌, is_word,
}
use ocpphal_go.Store.Types.{Error, failure, Result, ok, err}
use ocpphal_go.Hal.Pending.{PendingStarts, record_pending, clear_pending}

-- What ends the wait for a charger's answer: the callback, with a confirmation that may be nil or an
-- error, or the end of the context.
pub data Answer (C : Type 0) : Type 0 where
  confirmed : Option C → Answer C
  failed : Error → Answer C
  done : Error → Answer C

-- What the library makes of a request: an error when it is sent, or a wait.
pub data Sent (C : Type 0) : Type 0 where
  refused : Error → Sent C
  waits : Answer C → Sent C

-- The body that the calls share, with the text for a nil confirmation.
unfoldable pub await : {C : Type 0} → String → Sent C → Result C
await nil_text (refused e) = err e
await nil_text (waits (confirmed none)) = err (failure nil_text)
await nil_text (waits (confirmed (some c))) = ok c
await nil_text (waits (failed e)) = err e
await nil_text (waits (done e)) = err e

-- The requests that go out; a connector or a key is left out where the program leaves it out.
pub data Request : Type 0 where
  remote_start : String → Option ℤ → Request
  remote_stop : ℤ → Request
  change_availability : ℤ → Bool → Request
  change_configuration : String → String → Request
  clear_cache : Request
  unlock_connector : ℤ → Request
  reset : Bool → Request

-- The library at one moment: what becomes of a charger's request. A confirmation is its status.
abbrev pub CentralSystem : Type 0
CentralSystem = String → Request → Sent String

unfoldable pub remote_start_transaction : CentralSystem → String → String → ℤ → Result String
unfolding await
remote_start_transaction cs charger_id id_tag connector_id =
    await "nil RemoteStartTransaction confirmation" (
      cs charger_id
        (remote_start id_tag (if is_positive connector_id then some connector_id else none)))

unfoldable pub remote_stop_transaction : CentralSystem → String → ℤ → Result String
unfolding await
remote_stop_transaction cs charger_id transaction_id =
    await "nil RemoteStopTransaction confirmation" (cs charger_id (remote_stop transaction_id))

-- `true` is Operative.
unfoldable pub change_availability_call : CentralSystem → String → ℤ → String → Result String
unfolding await
change_availability_call cs charger_id connector_id availability_type =
    let call = λ (t : Bool).
      await "nil ChangeAvailability confirmation"
        (cs charger_id (change_availability connector_id t)) in
    if is_word availability_type "operative"
    then call true
    else if is_word availability_type "inoperative"
    then call false
    else err (failure "invalid availability type")

unfoldable pub change_configuration_call : CentralSystem → String → String → String → Result String
unfolding await
change_configuration_call cs charger_id key value =
    await "nil ChangeConfiguration confirmation" (cs charger_id (change_configuration key value))

unfoldable pub clear_cache_call : CentralSystem → String → Result String
unfolding await
clear_cache_call cs charger_id = await "nil ClearCache confirmation" (cs charger_id clear_cache)

unfoldable pub unlock_connector_call : CentralSystem → String → ℤ → Result String
unfolding await
unlock_connector_call cs charger_id connector_id =
    await "nil UnlockConnector confirmation" (cs charger_id (unlock_connector connector_id))

-- `true` is Soft.
unfoldable pub reset_call : CentralSystem → String → String → Result String
unfolding await
reset_call cs charger_id reset_type =
    let call = λ (t : Bool). await "nil Reset confirmation" (cs charger_id (reset t)) in
    if is_word reset_type "soft"
    then call true
    else if is_word reset_type "hard"
    then call false
    else err (failure "invalid reset type")

-- The end of RemoteStartTransactionWithOptions.
abbrev pub after_start :
    PendingStarts → String → ℤ → String → Bool → Result String → Result String × PendingStarts
after_start p charger_id connector_id id_tag is_single_session (ok status) = (ok status, p)
after_start p charger_id connector_id id_tag true (err e) =
    (err e, clear_pending p charger_id connector_id id_tag)
after_start p charger_id connector_id id_tag false (err e) = (ok "", p)

unfoldable pub remote_start_transaction_with_options :
    CentralSystem → PendingStarts → String → String → ℤ → Bool → Result String × PendingStarts
unfolding remote_start_transaction
remote_start_transaction_with_options cs p charger_id id_tag connector_id is_single_session =
    let p' = if is_single_session then record_pending p charger_id connector_id id_tag else p in
    after_start p' charger_id connector_id id_tag is_single_session
      (remote_start_transaction cs charger_id id_tag connector_id)
