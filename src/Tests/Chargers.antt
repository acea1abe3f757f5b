-- ===== src/Tests/Chargers.antt =====
-- The theorems on connections, subscriptions, pending starts and the registry, on concrete inputs.
use native.Mathlib.Decide.{ℕ_discrete}
use ocpphal_go.Prelude.{
  ◌↔◌, ℤ_key, String_key, ℕ_key, ℕ, ◌!=◌, ◌≡◌, ◌≢◌, ◌⊎◌, refl, String, true, false, none, some,
  arith, List, [], ◌∷◌, pos, get, put, String_discrete, ℤ_discrete,
}
use ocpphal_go.Registry.{
  ChargerState, Registry, apply_start_transaction, apply_meter_value, apply_status_notification,
  apply_stop_transaction, transaction_id_for_connector,
}
use ocpphal_go.Registry.Transactions.{Spares, transaction_shown, others_spared}
use ocpphal_go.Registry.Inactivity.{check_inactivity}
use ocpphal_go.Registry.Inactivity.Once.{IsDue, marked_once}
use ocpphal_go.Hal.Connections.{
  ConnectionRecord, ConnectionTracker, new_connection_tracker, register, unregister_if_current,
}
use ocpphal_go.Hal.Connections.Order.{connects, step, run, stale_disconnect_ignored}
use ocpphal_go.Hal.Meter.{SampledValue, MeterValue, extract_meter_value_wh}
use ocpphal_go.Hal.Meter.Last.{LastReading, extract_meter_value_wh_lem}
use ocpphal_go.Hal.Pending.{PendingStarts, pending_key, key_of, consume_pending}
use ocpphal_go.Hal.Pending.Consume.{Waits, Takes, consume_iff_Waits}
use ocpphal_go.Store.Updates.{TransactionUpdates, publish, receive}
use ocpphal_go.Store.Updates.Signals
use ocpphal_go.Store.Updates.Signals.{
  Call, subscribes, publishes, receives, Subscribed, publish_wakes, cancel_removes,
}
use ocpphal_go.Store.Types.{UpdateLiveMeterInput, StopTransactionInput, ForceCloseTransactionInput}
use ocpphal_go.Store.Memory.{MemoryStore}
use ocpphal_go.Store.Interface.{
  TransactionStore, memory_transaction_store, with_transaction_updates,
}
use ocpphal_go.Store.Interface.Announced.{Announces, with_transaction_updates-Announces}
use ocpphal_go.Tests.{whole_numbers, with_open}

differs : (a b : String) → (a != b) ≡ true → a ≢ b
differs a b h e = ground arith

old-new : ◌≢◌ {A = String} "old" "new"
unfolding String_discrete
old-new = differs "old" "new" refl

zero-one : ◌≢◌ {A = String} "zero" "one"
unfolding String_discrete
zero-one = differs "zero" "one" refl

two-A : ◌≢◌ {A = String} "B" "A"
unfolding String_discrete
two-A = differs "B" "A" refl

stale_disconnect_ignored_example :
    let (connection, _, u) = register new_connection_tracker "A" "new" "host" 5 in
    (unregister_if_current u "A" "old" ≡ (false, some connection, u))
    × ((unregister_if_current u "A" "new").0 ≡ true)
    × (get "A" (unregister_if_current u "A" "new").2.active ≡ none)
stale_disconnect_ignored_example =
    stale_disconnect_ignored new_connection_tracker "A" "old" "new" "host" 5 old-new

abbrev first_connection : ConnectionRecord
first_connection = record {
  charger_id = "A";
  key = "one";
  generation = 1;
  remote_addr = "host";
  connected_at = 5;
}

abbrev connected : ConnectionTracker
connected = record { next = 1; active = ("A", first_connection) ∷ [] }

after_one :
    get "A" (run new_connection_tracker (connects "A" "one" "host" 5 ∷ [])).active
    ≡ some first_connection
unfolding run step register new_connection_tracker get put String_discrete
after_one = refl

abbrev starts : PendingStarts
starts = (key_of "A" (pos 2) "tag", true) ∷ []

consume_iff_Waits_example :
    let (taken, q) = consume_pending starts "A" (pos 1) "tag" in
    (Waits starts "A" "tag" × (taken ≡ true) × Takes starts "A" (pos 1) "tag" q)
    ⊎ (¬ Waits starts "A" "tag" × (taken ≡ false) × (q ≡ starts))
consume_iff_Waits_example = consume_iff_Waits starts "A" "tag" (pos 1) (refl, tt)

abbrev watched : TransactionUpdates
watched = record {
  next_id = 2;
  subscribers = (pos 8, (1, tt) ∷ (2, tt) ∷ []) ∷ [];
  signals = (1, false) ∷ (2, false) ∷ [];
  done = [];
}

abbrev meanwhile : List Call
meanwhile = publishes (pos 8) ∷ receives 2 ∷ subscribes (pos 9) ∷ []

publish_wakes_example :
    let (first, v) = receive (Signals.run (publish watched (pos 8)) meanwhile) 1 in
    (first ≡ true) × ((receive v 1).0 ≡ false)
unfolding get ℤ_discrete ℕ_discrete
publish_wakes_example =
    publish_wakes watched (pos 8) 1 meanwhile (omega arith) refl (tt, ((λ e. cc), (tt, tt)))

abbrev charger : ChargerState ℕ
charger = record {
  id = "A";
  online = true;
  has_error = false;
  status = "Active";
  connectors = [];
  last_message_time = 5;
}

abbrev registry : Registry ℕ
registry = ("A", charger) ∷ []

transaction_shown_example :
    (transaction_id_for_connector
        (apply_start_transaction registry "A" (pos 1) (pos 8) 100 20)
        "A"
        (pos 1)
      ≡ some (pos 8))
    × (transaction_id_for_connector (apply_meter_value registry "A" (pos 1) none 100 20) "A" (pos 1)
        ≡ transaction_id_for_connector registry "A" (pos 1))
    × (transaction_id_for_connector
          (apply_meter_value registry "A" (pos 1) (some (pos 8)) 100 20)
          "A"
          (pos 1)
        ≡ some (pos 8))
    × ((status error_code : String)
        → transaction_id_for_connector
            (apply_status_notification registry "A" (pos 1) status error_code 20)
            "A"
            (pos 1)
          ≡ transaction_id_for_connector registry "A" (pos 1))
    × (transaction_id_for_connector (apply_stop_transaction registry "A" (pos 1) 100 20) "A" (pos 1)
        ≡ none)
transaction_shown_example = transaction_shown registry "A" (pos 1) (pos 8) 100 20

others_spared_example :
    Spares registry (apply_start_transaction registry "A" (pos 1) (pos 8) 100 20) "A" (pos 1)
    × Spares registry (apply_meter_value registry "A" (pos 1) none 100 20) "A" (pos 1)
    × Spares registry
        (apply_status_notification registry "A" (pos 1) "Faulted" "GroundFailure" 20)
        "A"
        (pos 1)
    × Spares registry (apply_stop_transaction registry "A" (pos 1) 100 20) "A" (pos 1)
others_spared_example =
    others_spared registry "A" (pos 1) (pos 8) none 100 "Faulted" "GroundFailure" 20 (omega arith)

marked_once_example :
    let (result, s) = check_inactivity registry "A" 60000000000 100000000000 in
    (IsDue registry "A" 60000000000 100000000000
      × (result.action ≡ "marked_offline")
      × (result.inactive ≡ true)
      × ((cp : ChargerState ℕ) × (get "A" registry ≡ some cp)
          × (get "A" s ≡ some (record cp { online = false; status = "Offline" })))
      × ((d : String) → d ≢ "A" → get d s ≡ get d registry)
      × ((check_inactivity s "A" 60000000000 100000000000).0.action ≡ "already_offline")
      × ((check_inactivity s "A" 60000000000 100000000000).1 ≡ s))
    ⊎ (¬ IsDue registry "A" 60000000000 100000000000
        × (result.action ≢ "marked_offline")
        × (s ≡ registry))
marked_once_example = marked_once registry "A" 60000000000 100000000000

with_transaction_updates-Announces_example :
    let st : TransactionStore ℕ (MemoryStore ℕ) = memory_transaction_store in
    let w = with_transaction_updates st in
    let update : UpdateLiveMeterInput ℕ = record {
      charger_id = "A";
      transaction_id = pos 8;
      meter_stop = 9500;
    } in
    let close : ForceCloseTransactionInput ℕ = record {
      charger_id = "A";
      transaction_id = pos 8;
      meter_stop = 9500;
      reason = "ghost";
    } in
    let stop : StopTransactionInput ℕ = record {
      charger_id = "A";
      transaction_id = pos 8;
      meter_stop = 9500;
    } in
    let s = with_open in
    let u = watched in
    Announces u 1 (st.update_live_meter s update) (w.update_live_meter (s, u) update)
    × Announces u 1 (st.stop_transaction s 40 stop) (w.stop_transaction (s, u) 40 stop)
    × Announces u 1
        (st.force_close_transaction s 40 close)
        (w.force_close_transaction (s, u) 40 close)
    × Announces u 1
        (st.update_transaction_max_kwh s (pos 8) 9500)
        (w.update_transaction_max_kwh (s, u) (pos 8) 9500)
    × Announces u 1
        (st.release_limit_stop_request s "A" (pos 8))
        (w.release_limit_stop_request (s, u) "A" (pos 8))
unfolding get ℤ_discrete ℕ_discrete
with_transaction_updates-Announces_example =
    with_transaction_updates-Announces memory_transaction_store with_open watched (pos 8) 1 "A" 9500
      40 "ghost" refl

abbrev sample : String → SampledValue
sample v = record { value = v; measurand = "Energy.Active.Import.Register"; unit = "Wh" }

abbrev readings : List MeterValue
readings =
    record { sampled_value = sample "100" ∷ [] }
    ∷ record { sampled_value = sample "200" ∷ [] }
    ∷ record { sampled_value = [] }
    ∷ []

extract_meter_value_wh_lem_example :
    extract_meter_value_wh ⦃f = whole_numbers⦄ readings ≡ some 200 ↔ LastReading ℕ readings 200
extract_meter_value_wh_lem_example = extract_meter_value_wh_lem readings 200
