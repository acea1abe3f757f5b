-- ===== src/Simulator.antt =====
-- cmd/cpconsole/main.go: the charger that the console simulates. An operation that holds opsMu, and a
-- handler, is one step; the messages that it sends to the central system are answered by `Replies`.
pub mod Session
pub mod Configured
use ocpphal_go.Prelude.{
  ℕ, ◌+◌, String, Bool, true, false, not, ◌&&◌, ◌||◌, Option, none, some, List, [], ◌∷◌, ℤ, pos,
  negsuc, Float, ltb, if◌then◌else◌, codes, String_key, ℤ_key, ◌==◌, ◌!=◌, is_positive, GoMap, get,
  put,
}
use ocpphal_go.Hal.Extra.{Configuration, ConfigurationKey}
use ocpphal_go.Hal.RemoteOnly.{names}
use ocpphal_go.Store.Types.{Error, failure, wrapped, Result, ok, err}

pub data ChargePointStatus : Type 0 where
  available preparing charging suspended_evse suspended_ev finishing reserved unavailable faulted :
      ChargePointStatus

pub record RemoteStart : Type 0 where
  pub connector_id : Option ℤ
  pub id_tag : String

-- `auto_running` says that autoCancel is not nil. The model, the vendor and the lock are left out.
pub record Simulator (F : Type 0) : Type 0 where
  pub connector_id : ℤ
  pub booted : Bool
  pub status : ChargePointStatus
  pub error_code : String
  pub plugged : Bool
  pub id_tag : String
  pub transaction : ℤ
  pub meter_wh : F
  pub power_kw : F
  pub voltage : F
  pub soc : F
  pub remote_start : Option RemoteStart
  pub remote_stop : Option ℤ
  pub accept_start : Bool
  pub accept_stop : Bool
  pub auto_remote : Bool
  pub unavailable_after_stop : Bool
  pub auto_running : Bool
  pub configuration : GoMap String String

abbrev pub or_own : Option ℤ → ℤ → ℤ
or_own none own = own
or_own (some k) own = k

-- What becomes of each message. A confirmation may be nil; of an authorization it says whether it is
-- accepted, of a start that and the transaction's id.
pub record Replies : Type 0 where
  pub boot_notification : Result (Option Bool)
  pub authorize : String → Result Bool
  pub start_transaction : String → ℤ → Result (Option (Bool × ℤ))
  pub meter_values : ℤ → Result (Unit {0})
  pub stop_transaction : ℤ → ℤ → Result (Unit {0})
  pub status_notification : ChargePointStatus → String → Result (Unit {0})

-- A time span: whether it is negative, and Duration.Hours of it.
pub record Elapsed (F : Type 0) : Type 0 where
  pub is_negative : Bool
  pub hours : F

abbrev pub utf8_length : List ℕ → ℕ
utf8_length [] = 0
utf8_length (c ∷ cs) =
    (if ltb c 128 then 1 else if ltb c 2048 then 2 else if ltb c 65536 then 3 else 4)
    + utf8_length cs

abbrev pub is_bad_tag : String → Bool
is_bad_tag id_tag = id_tag == "" || ltb 20 (utf8_length (codes id_tag))

abbrev pub is_out : ChargePointStatus → Bool
is_out faulted = true
is_out unavailable = true
is_out _ = false

abbrev pub is_available : ChargePointStatus → Bool
is_available available = true
is_available _ = false

abbrev pub authorized : Result Bool → Result (Unit {0})
authorized (err e) = err (wrapped "Authorize" e)
authorized (ok false) = err (failure "id-tag was not accepted")
authorized (ok true) = ok tt

unfoldable pub authorize : Replies → String → Result (Unit {0})
authorize r id_tag =
    if is_bad_tag id_tag
    then err (failure "id-tag must contain 1 to 20 characters")
    else authorized (r.authorize id_tag)

abbrev pub allowed : Replies → String → Bool → Result (Unit {0})
allowed r id_tag true = ok tt
allowed r id_tag false = authorize r id_tag

abbrev pub known_entry : String → Option String → List ConfigurationKey → List ConfigurationKey
known_entry key none known = known
known_entry key (some v) known = record { key = key; readonly = false; value = some v } ∷ known

unfoldable pub known_of : List String → GoMap String String → List ConfigurationKey
known_of [] configuration = []
known_of (key ∷ keys) configuration =
    known_entry key (get key configuration) (known_of keys configuration)

abbrev pub unknown_entry : String → Option String → List String → List String
unknown_entry key none unknown = key ∷ unknown
unknown_entry key (some v) unknown = unknown

unfoldable pub unknown_of : List String → GoMap String String → List String
unknown_of [] configuration = []
unknown_of (key ∷ keys) configuration =
    unknown_entry key (get key configuration) (unknown_of keys configuration)

-- No keys ask for all.
abbrev pub or_all : List String → GoMap String String → List String
or_all [] configuration = names configuration
or_all (key ∷ keys) configuration = key ∷ keys

module _ {F : Type 0} where
  abbrev pub fails : String → Simulator F → Result (Unit {0}) × Simulator F
  fails text s = (err (failure text), s)

  abbrev pub has_transaction : Simulator F → Bool
  has_transaction s = s.transaction != pos 0

  abbrev pub notified :
      Simulator F → ChargePointStatus → String → Result (Unit {0}) → Result (Unit {0}) × Simulator F
  notified s status code (err e) = (err (wrapped "StatusNotification" e), s)
  notified s status code (ok _) = (ok tt, record s { status = status; error_code = code })

  unfoldable pub set_status :
      Replies → Simulator F → ChargePointStatus → String → Result (Unit {0}) × Simulator F
  set_status r s status code = notified s status code (r.status_notification status code)

  unfoldable pub plug : Replies → Simulator F → Result (Unit {0}) × Simulator F
  unfolding set_status
  plug r s =
      if has_transaction s
      then fails "connector already has an active transaction" s
      else set_status r (record s { plugged = true }) preparing "NoError"

  unfoldable pub unplug : Replies → Simulator F → Result (Unit {0}) × Simulator F
  unfolding set_status
  unplug r s =
      if has_transaction s
      then fails "stop the transaction before unplugging" s
      else set_status r (record s { plugged = false }) available "NoError"

  -- What follows a message of a StatusNotification that may have failed.
  abbrev pub and_then :
      Result (Unit {0}) × Simulator F
      → (Simulator F → Result (Unit {0}) × Simulator F)
      → Result (Unit {0}) × Simulator F
  and_then (err e, s) next = (err e, s)
  and_then (ok _, s) next = next s

  abbrev pub prepared : Replies → Simulator F → Result (Unit {0}) × Simulator F
  prepared r s =
      if is_available s.status
      then set_status r (record s { plugged = true }) preparing "NoError"
      else (ok tt, s)

  -- After the answer to StartTransaction.
  abbrev pub begun :
      Replies → String → Simulator F → Result (Option (Bool × ℤ)) → Result (Unit {0}) × Simulator F
  begun r id_tag s (err e) = (err (wrapped "StartTransaction" e), s)
  begun r id_tag s (ok none) = fails "StartTransaction was not accepted" s
  begun r id_tag s (ok (some (accepted, id))) =
      if not accepted || not (is_positive id)
      then fails "StartTransaction was not accepted" s
      else set_status r (record s { transaction = id; id_tag = id_tag; remote_start = none })
          charging "NoError"

module _ {F : Type 0} ⦃f : Float F⦄ where
  -- The start, once the tag may start one.
  abbrev pub start_allowed :
      Replies → Simulator F → String → Result (Unit {0}) → Result (Unit {0}) × Simulator F
  start_allowed r s id_tag (err e) = (err e, s)
  start_allowed r s id_tag (ok _) =
      and_then (prepared r s)
        (λ s'. begun r id_tag s' (r.start_transaction id_tag (f.to_int s.meter_wh)))

  unfoldable pub start_transaction :
      Replies → Simulator F → String → Bool → Result (Unit {0}) × Simulator F
  unfolding authorize set_status
  start_transaction r s id_tag remote =
      if is_bad_tag id_tag
      then fails "id-tag must contain 1 to 20 characters" s
      else if has_transaction s
      then fails "a transaction is already active" s
      else if is_out s.status
      then fails "cannot start while the connector is out of order" s
      else start_allowed r s id_tag (allowed r id_tag remote)

  abbrev pub metered : Simulator F → Elapsed F → F → Simulator F
  metered s elapsed power_kw =
      let delta_wh = f.mul (f.mul power_kw (f.of_int (pos 1000))) elapsed.hours in
      let charged =
        f.add s.soc (f.mul (f.div delta_wh (f.of_int (pos 60000))) (f.of_int (pos 100))) in
      let full = f.of_int (pos 100) in
      record s {
        meter_wh = f.add s.meter_wh delta_wh;
        power_kw = power_kw;
        soc =
            if f.flt (f.of_int (pos 0)) delta_wh && f.flt s.soc full
            then (if f.flt full charged then full else charged)
            else s.soc;
      }

  abbrev pub sent_meter : Simulator F → Result (Unit {0}) → Result (Unit {0}) × Simulator F
  sent_meter s (err e) = (err (wrapped "MeterValues" e), s)
  sent_meter s (ok _) = (ok tt, s)

  unfoldable pub send_meter :
      Replies → Simulator F → Elapsed F → F → Result (Unit {0}) × Simulator F
  send_meter r s elapsed power_kw =
      if not (has_transaction s)
      then fails "meter values require an active transaction" s
      else if elapsed.is_negative || f.flt power_kw (f.of_int (pos 0))
      then fails "elapsed time and power cannot be negative" s
      else sent_meter (metered s elapsed power_kw) (r.meter_values s.transaction)

  -- The state after an answer to StopTransaction.
  abbrev pub ended : Simulator F → Simulator F
  ended s = record s {
    transaction = pos 0;
    id_tag = "";
    power_kw = f.of_int (pos 0);
    remote_stop = none;
  }

  abbrev pub stopped : Replies → Simulator F → Result (Unit {0}) → Result (Unit {0}) × Simulator F
  stopped r s (err e) = (err (wrapped "StopTransaction" e), s)
  stopped r s (ok _) =
      set_status r (ended s) (if s.unavailable_after_stop then unavailable else finishing) "NoError"

  -- The reason goes into the message only.
  unfoldable pub stop_transaction : Replies → Simulator F → Result (Unit {0}) × Simulator F
  unfolding set_status
  stop_transaction r s =
      let s' = record s { auto_running = false } in
      if not (has_transaction s')
      then fails "no active transaction" s'
      else stopped r s' (r.stop_transaction (f.to_int s'.meter_wh) s'.transaction)

  unfoldable pub execute_pending_remote_start :
      Replies → Simulator F → Result (Unit {0}) × Simulator F
  unfolding start_transaction
  execute_pending_remote_start r s = elim s.remote_start [
    | none ↦ fails "no accepted remote start is pending" s
    | some request ↦
        if or_own request.connector_id s.connector_id != s.connector_id
        then fails "remote start requested another connector" s
        else start_transaction r s request.id_tag true
  ]

  unfoldable pub execute_pending_remote_stop :
      Replies → Simulator F → Result (Unit {0}) × Simulator F
  unfolding stop_transaction
  execute_pending_remote_stop r s = elim s.remote_stop [
    | none ↦ fails "no accepted remote stop is pending" s
    | some _ ↦ stop_transaction r s
  ]

module _ {F : Type 0} where
  unfoldable pub require_transaction_status :
      Replies → Simulator F → ChargePointStatus → Result (Unit {0}) × Simulator F
  unfolding set_status
  require_transaction_status r s status =
      if not (has_transaction s)
      then fails "this status requires an active transaction" s
      else set_status r s status "NoError"

  unfoldable pub start_auto : Simulator F → Result (Unit {0}) × Simulator F
  start_auto s =
      if not (has_transaction s)
      then fails "automatic metering requires an active transaction" s
      else (ok tt, record s { auto_running = true })

  -- Whether the request is accepted, and whether a goroutine is started that executes it.
  unfoldable pub on_remote_start_transaction : Simulator F → RemoteStart → Bool × Bool × Simulator F
  on_remote_start_transaction s request =
      if s.accept_start && not (has_transaction s) && not (is_out s.status)
      then (true, s.auto_remote, record s { remote_start = some request })
      else (false, false, s)

  unfoldable pub on_remote_stop_transaction : Simulator F → ℤ → Bool × Bool × Simulator F
  on_remote_stop_transaction s id =
      if s.accept_stop && s.transaction == id
      then (true, s.auto_remote, record s { remote_stop = some id })
      else (false, false, s)

  abbrev pub booted_by : Simulator F → Result (Option Bool) → Result (Unit {0}) × Simulator F
  booted_by s (err e) = (err (wrapped "BootNotification" e), s)
  booted_by s (ok (some true)) = (ok tt, record s { booted = true })
  booted_by s (ok _) = fails "BootNotification was not accepted" s

  unfoldable pub boot : Replies → Simulator F → Result (Unit {0}) × Simulator F
  boot r s = booted_by s r.boot_notification

  -- The answer, the status that a goroutine reports, and the new state. `inoperative` is the type asked
  -- for.
  unfoldable pub on_change_availability :
      Simulator F → ℤ → Bool → String × Option ChargePointStatus × Simulator F
  on_change_availability s connector_id inoperative =
      if connector_id != pos 0 && connector_id != s.connector_id
      then ("Rejected", none, s)
      else if inoperative && has_transaction s
      then ("Scheduled", none, record s { unavailable_after_stop = true })
      else (
        "Accepted",
        some (if inoperative then unavailable else available),
        record s { unavailable_after_stop = inoperative },
      )

  unfoldable pub on_change_configuration : Simulator F → String → String → Simulator F
  on_change_configuration s key value = record s { configuration = put key value s.configuration }

  -- A row of requests.
  unfoldable pub on_change_configurations : Simulator F → List (String × String) → Simulator F
  unfolding on_change_configuration
  on_change_configurations s [] = s
  on_change_configurations s ((key, value) ∷ rest) =
      on_change_configurations (on_change_configuration s key value) rest

  unfoldable pub on_get_configuration : Simulator F → List String → Configuration
  unfolding known_of unknown_of
  on_get_configuration s keys = record {
    configuration_key = known_of (or_all keys s.configuration) s.configuration;
    unknown_key = unknown_of (or_all keys s.configuration) s.configuration;
  }
