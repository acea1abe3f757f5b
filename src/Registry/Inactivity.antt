-- ===== src/Registry/Inactivity.antt =====
-- internal/state/inactivity.go: the check that takes a silent charger offline.
pub mod Once
use ocpphal_go.Prelude.{
  ℕ, ◌-◌, String, Bool, true, false, not, ◌&&◌, Option, none, some, pos, Float, get, put, eqb,
  if◌then◌else◌, String_key,
}
use ocpphal_go.Store.Types.{Time}
use ocpphal_go.Registry.{ChargerState, Registry}

-- `latest_message_received_time` is the text of a time, given by the time.
pub record InactivityResult (F : Type 0) : Type 0 where
  pub charger_id : String
  pub found : Bool
  pub inactive : Bool
  pub online : String
  pub status : String
  pub inactive_seconds : F
  pub inactivity_limit_seconds : F
  pub latest_message_received_time : Option Time
  pub action : String

-- "Offline", "Online" or "Online (with error)"
unfoldable pub online_text : Bool → Bool → String
online_text online has_error =
    if online && has_error then "Online (with error)" else if online then "Online" else "Offline"

module _ {F : Type 0} ⦃f : Float F⦄ where
  abbrev pub not_found : String → ℕ → InactivityResult F
  not_found charger_id limit = record {
    charger_id = charger_id;
    found = false;
    inactive = true;
    online = "Offline";
    status = "Offline";
    inactive_seconds = f.of_int (pos 0);
    inactivity_limit_seconds = f.seconds limit;
    latest_message_received_time = none;
    action = "charger_not_found";
  }

  -- `time.Since(cp.LastMessageTime).Seconds()`, and 0 for the zero time
  abbrev pub silence : ChargerState F → Time → F
  silence cp now =
      if eqb cp.last_message_time 0
      then f.of_int (pos 0)
      else f.seconds (now - cp.last_message_time)

  unfoldable pub no_change : String → ℕ → Time → ChargerState F → InactivityResult F
  unfolding online_text
  no_change charger_id limit now cp = record {
    charger_id = charger_id;
    found = true;
    inactive = false;
    online = online_text cp.online cp.has_error;
    status = cp.status;
    inactive_seconds = silence cp now;
    inactivity_limit_seconds = f.seconds limit;
    latest_message_received_time =
        if eqb cp.last_message_time 0 then none else some cp.last_message_time;
    action = "no_change";
  }

  -- `inactiveSeconds >= limit.Seconds()`
  abbrev pub is_silent : ChargerState F → ℕ → Time → Bool
  is_silent cp limit now = f.fle (f.seconds limit) (silence cp now)

  -- The rest of CheckInactivity, once the charger is found.
  unfoldable pub check_found :
      Registry F → String → ℕ → Time → ChargerState F → InactivityResult F × Registry F
  unfolding no_change
  check_found r charger_id limit now cp =
      let result = no_change charger_id limit now cp in
      if eqb cp.last_message_time 0
      then (record result { action = "no_messages" }, r)
      else if cp.online && is_silent cp limit now
      then (
        record result {
          inactive = true;
          online = "Offline";
          status = "Offline";
          action = "marked_offline";
        },
        put charger_id (record cp { online = false; status = "Offline" }) r,
      )
      else if not cp.online && is_silent cp limit now
      then (record result { inactive = true; online = "Offline"; action = "already_offline" }, r)
      else (result, r)

  unfoldable pub check_inactivity : Registry F → String → ℕ → Time → InactivityResult F × Registry F
  unfolding check_found
  check_inactivity r charger_id limit now = elim (get charger_id r) [
    | none ↦ (not_found charger_id limit, r)
    | some cp ↦ check_found r charger_id limit now cp
  ]
