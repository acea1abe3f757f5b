-- ===== src/Tests/Console.antt =====
-- The theorems on the simulated charger, on concrete inputs.
use ocpphal_go.Prelude.{
  ◌≡◌, refl, ℕ, String, true, false, some, none, [], ◌∷◌, pos, String_discrete, ℤ_discrete, GoMap,
  get, Distinct, Entries, trim_space, String_key,
}
use native.Mathlib.Decide.{ℕ_discrete}
use ocpphal_go.Store.Types.{ok}
use ocpphal_go.Hal.RemoteOnly.{names, wanted}
use ocpphal_go.Hal.RemoteOnly.Settled.{settled}
use ocpphal_go.Simulator.{
  Simulator, Replies, available, start_transaction, on_get_configuration, on_change_configurations,
}
use ocpphal_go.Simulator.Configured.{wanted-Settled}
use ocpphal_go.Simulator.Session.{Moves, starts, step, step-Moves}
use ocpphal_go.Tests.{whole_numbers}

abbrev idle : Simulator ℕ
idle = record {
  connector_id = pos 1;
  booted = true;
  status = available;
  error_code = "NoError";
  plugged = false;
  id_tag = "";
  transaction = pos 0;
  meter_wh = 100000;
  power_kw = 0;
  voltage = 230;
  soc = 35;
  remote_start = none;
  remote_stop = none;
  accept_start = true;
  accept_stop = true;
  auto_remote = true;
  unavailable_after_stop = false;
  auto_running = false;
  configuration = [];
}

abbrev agreeing : Replies
agreeing = record {
  boot_notification = ok (some true);
  authorize = λ t. ok true;
  start_transaction = λ t m. ok (some (true, pos 7));
  meter_values = λ t. ok tt;
  stop_transaction = λ m t. ok tt;
  status_notification = λ s c. ok tt;
}

starts_seven : (start_transaction agreeing idle "tag" false).1.transaction ≡ pos 7
unfolding start_transaction String_discrete ℤ_discrete ℕ_discrete
starts_seven = refl

step-Moves_example : Moves idle (step agreeing idle (starts "tag"))
step-Moves_example = step-Moves agreeing idle (starts "tag")

abbrev reported : GoMap String String
reported = ("HeartbeatInterval", "900") ∷ ("FreevendEnabled", " false ") ∷ ("Other", "1") ∷ []

abbrev two_settings : GoMap String String
two_settings = ("HeartbeatInterval", "15") ∷ ("FreevendEnabled", "false") ∷ []

two_settings-Distinct : Distinct two_settings
unfolding get String_discrete
two_settings-Distinct = (refl, (refl, tt))

two_settings_trimmed : Entries (λ k want. trim_space want ≡ want) two_settings
unfolding trim_space
two_settings_trimmed = (refl, (refl, tt))

-- The simulated charger with these values.
abbrev configured : Simulator ℕ
configured = record idle { configuration = reported }

wanted-Settled_example :
    let sent = wanted two_settings (ok (on_get_configuration configured (names two_settings))) in
    let s' = on_change_configurations configured sent in
    ((k : String) → get k s'.configuration ≡ settled (get k two_settings) (get k reported))
    × (wanted two_settings (ok (on_get_configuration s' (names two_settings))) ≡ [])
wanted-Settled_example =
    wanted-Settled configured ("HeartbeatInterval", "15") (("FreevendEnabled", "false") ∷ [])
      two_settings-Distinct two_settings_trimmed
