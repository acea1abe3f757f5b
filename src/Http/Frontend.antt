-- ===== src/Http/Frontend.antt =====
-- internal/httpapi/frontend_transaction_ws.go: the WebSocket that shows one transaction as it changes.
pub mod Ids
pub mod Private
use ocpphal_go.Prelude.{
  ℕ, suc, ◌^◌, String, Bool, true, false, not, ◌&&◌, ◌||◌, Option, none, some, List, [], ◌∷◌, ℤ,
  pos, negsuc, ltb, leb, eqb, if◌then◌else◌, itoa, atoi, codes, is_positive_decimal, String_key,
  ◌==◌, ◌!=◌, is_some,
}
use ocpphal_go.Store.Types.{
  Time, Transaction, Error, transaction_not_found, wrapped, Result, ok, err,
}
use ocpphal_go.Store.Interface.{TransactionStore}
use ocpphal_go.Store.Updates.{TransactionUpdates, subscribe, cancel}
use ocpphal_go.Http.Exchange.{Response, no_body, detail}

pub record FrontendTransactionRow (F : Type 0) : Type 0 where
  pub id : ℕ
  pub uuid_db : String
  pub charger_id : String
  pub connector_id : ℤ
  pub meter_start : F
  pub meter_stop : Option F
  pub total_consumption : Option F
  pub start_time : Time
  pub stop_time : Option Time
  pub id_tag : String
  pub transaction_id : String
  pub is_single_session : Bool
  pub max_kwh : Option F
  pub limit_stop_requested : Bool

pub record FrontendTransactionSnapshot (F : Type 0) : Type 0 where
  pub event : String
  pub status : String
  pub transaction : FrontendTransactionRow F
  pub observed_at : Time

unfoldable pub new_frontend_transaction_snapshot :
    {F : Type 0} → Transaction F → Time → FrontendTransactionSnapshot F
new_frontend_transaction_snapshot tx now = record {
  event = "transaction_snapshot";
  status = if is_some tx.stop_time then "COMPLETED" else "RUNNING";
  transaction = record {
    id = tx.id;
    uuid_db = tx.uuid_db;
    charger_id = tx.charger_id;
    connector_id = tx.connector_id;
    meter_start = tx.meter_start;
    meter_stop = tx.meter_stop;
    total_consumption = tx.total_consumption;
    start_time = tx.start_time;
    stop_time = tx.stop_time;
    id_tag = tx.id_tag;
    transaction_id = itoa tx.transaction_id;
    is_single_session = tx.is_single_session;
    max_kwh = tx.max_kwh;
    limit_stop_requested = tx.limit_stop_requested;
  };
  observed_at = now;
}

-- The check of strconv.ParseInt in base 10 for 32 bits on an unsigned text, and that the number is
-- positive.
abbrev pub in_range : Option ℤ → Option ℤ
in_range none = none
in_range (some (pos n)) = if ltb n (2 ^ 31) && ltb 0 n then some (pos n) else none
in_range (some (negsuc n)) = none

unfoldable pub parse_frontend_transaction_id : String → Option ℤ
parse_frontend_transaction_id raw =
    if is_positive_decimal (codes raw) then in_range (atoi raw) else none

-- `query` gives the first value of a name in the URL's query, and the empty text without one.
unfoldable pub first_query_value : (String → String) → List String → String
first_query_value query [] = ""
first_query_value query (name ∷ names) =
    let later = first_query_value query names in if query name != "" then query name else later

-- `errors.Is(err, store.ErrTransactionNotFound)`
abbrev pub is_not_found : Error → Bool
is_not_found transaction_not_found = true
is_not_found (wrapped text e) = is_not_found e
is_not_found _ = false

unfoldable pub transaction_lookup_error : {F : Type 0} → Error → Response F
transaction_lookup_error e =
    if is_not_found e
    then record { code = 404; body = detail "Transaction not found" }
    else record { code = 500; body = detail "Transaction lookup failed" }

-- What becomes of a request before its session: an answer, a failed upgrade, or a subscription.
pub data Opening (F : Type 0) : Type 0 where
  answered : Response F → Opening F
  not_upgraded : Opening F
  opened : ℤ → String → ℕ → Opening F

-- What wakes a session: a signal or the ticker, with the store and the clock as they are then and
-- whether the frame can be written; or the end of the connection or of the request.
pub data Event (S : Type 0) : Type 0 where
  woken : S → Time → Bool → Event S
  closed : Event S

module _ {F : Type 0} where
  abbrev pub refuse : TransactionUpdates → ℕ → String → Opening F × TransactionUpdates
  refuse u code text = (answered (record { code = code; body = detail text }), u)

  abbrev pub refuse_method : TransactionUpdates → Opening F × TransactionUpdates
  refuse_method u = (answered (record { code = 405; body = no_body }), u)

module _ {F S : Type 0} (store : TransactionStore F S) where
  abbrev pub enter : TransactionUpdates → ℤ → String → Bool → Opening F × TransactionUpdates
  enter u transaction_id id_tag upgrades =
      let (id, u') = subscribe u transaction_id in
      if upgrades
      then (opened transaction_id id_tag id, u')
      else (not_upgraded, cancel u' transaction_id id)

  abbrev pub after_lookup :
      TransactionUpdates
      → ℤ
      → String
      → Bool
      → Result (Transaction F)
      → Opening F × TransactionUpdates
  after_lookup u transaction_id id_tag upgrades (err e) = (answered (transaction_lookup_error e), u)
  after_lookup u transaction_id id_tag upgrades (ok tx) = enter u transaction_id id_tag upgrades

  -- frontendTransactionWebSocket up to the upgrade. `available` says that the server has a store and
  -- updates.
  unfoldable pub open_stream :
      Bool
      → S
      → TransactionUpdates
      → String
      → (String → String)
      → Bool
      → Opening F × TransactionUpdates
  unfolding parse_frontend_transaction_id first_query_value transaction_lookup_error subscribe
      cancel
  open_stream available s u method query upgrades =
      let id_tag = first_query_value query ("id_tag" ∷ "idTag" ∷ []) in
      if method != "GET"
      then refuse_method u
      else elim (parse_frontend_transaction_id
          (first_query_value query ("transaction_id" ∷ "transactionId" ∷ []))) [
            | none ↦
                refuse u 400
                  "transaction_id must be a positive base-10 integer within the OCPP signed 32-bit range"
            | some transaction_id ↦
                if id_tag == ""
                then refuse u 400 "Missing id_tag"
                else if not available
                then refuse u 503 "Transaction stream unavailable"
                else after_lookup u transaction_id id_tag upgrades
                    (store.get_by_transaction_id_and_id_tag s transaction_id id_tag)
          ]

  abbrev pub sent : Time → Bool → Result (Transaction F) → Option (FrontendTransactionSnapshot F)
  sent now writable (err e) = none
  sent now writable (ok tx) =
      if writable then some (new_frontend_transaction_snapshot tx now) else none

  -- The session: the snapshots it sends. The first event is the re-read after the upgrade; a failed
  -- lookup or write ends it.
  unfoldable pub watch : ℤ → String → List (Event S) → List (FrontendTransactionSnapshot F)
  unfolding new_frontend_transaction_snapshot
  watch transaction_id id_tag [] = []
  watch transaction_id id_tag (closed ∷ events) = []
  watch transaction_id id_tag (woken s now writable ∷ events) =
      let later = watch transaction_id id_tag events in
      elim (sent now writable (store.get_by_transaction_id_and_id_tag s transaction_id id_tag)) [
        | none ↦ []
        | some snapshot ↦ snapshot ∷ later
      ]
