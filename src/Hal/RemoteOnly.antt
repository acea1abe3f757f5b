-- ===== src/Hal/RemoteOnly.antt =====
-- internal/ocpp16hal/remote_only.go: EnforceRemoteOnlyMode, which makes a charger start and stop by
-- remote calls only.
pub mod Settled
use ocpphal_go.Prelude.{
  String, Option, none, some, List, [], ◌∷◌, GoMap, get, put, ◌==◌, String_key, trim_space,
  if◌then◌else◌,
}
use ocpphal_go.Store.Types.{Result, ok, err}
use ocpphal_go.Hal.Outbound.{change_configuration_call}
use ocpphal_go.Hal.Extra.{ConfigurationKey, Configuration, Central, get_configuration_call}

abbrev pub Settings : Type 0
Settings = GoMap String String

abbrev pub desired : Settings
desired =
    ("HeartbeatInterval", "15")
    ∷ ("MeterValueSampleInterval", "15")
    ∷ ("AuthorizeRemoteTxRequests", "true")
    ∷ ("LocalAuthorizeOffline", "false")
    ∷ ("LocalPreAuthorize", "false")
    ∷ ("AuthorizationCacheEnabled", "false")
    ∷ ("AllowOfflineTxForUnknownId", "false")
    ∷ ("StopTransactionOnInvalidId", "true")
    ∷ ("ChargePointAuthEnable", "true")
    ∷ ("FreevendEnabled", "false")
    ∷ []

abbrev pub value_or_empty : Option String → String
value_or_empty none = ""
value_or_empty (some v) = v

-- The loop that fills `current`.
unfoldable pub current_of : List ConfigurationKey → Settings → Settings
current_of [] current = current
current_of (entry ∷ rest) current =
    current_of rest (put entry.key (value_or_empty entry.value) current)

-- One pass of the second loop: `got` is what the charger reports for the key.
abbrev pub add_change :
    Option String → String → String → List (String × String) → List (String × String)
add_change none key want later = later
add_change (some got) key want later = if trim_space got == want then later else (key, want) ∷ later

-- The keys and values that the second loop sends, in order.
unfoldable pub changes : Settings → Settings → List (String × String)
changes [] current = []
changes ((key, want) ∷ rest) current = add_change (get key current) key want (changes rest current)

-- Each change is sent, whatever became of those before it.
unfoldable pub send_changes : Central → String → List (String × String) → List (Result String)
send_changes central charger_id [] = []
send_changes central charger_id ((key, want) ∷ rest) =
    change_configuration_call central.call charger_id key want
    ∷ send_changes central charger_id rest

abbrev pub names : Settings → List String
names [] = []
names ((key, _) ∷ rest) = key ∷ names rest

abbrev pub wanted : Settings → Result Configuration → List (String × String)
wanted settings (err e) = []
wanted settings (ok conf) = changes settings (current_of conf.configuration_key [])

-- The changes that are sent for a map of settings, and what becomes of them.
unfoldable pub enforce : Settings → Central → String → List (String × String) × List (Result String)
unfolding changes current_of send_changes
enforce settings central charger_id =
    let conf = get_configuration_call central charger_id (names settings) in
    (wanted settings conf, send_changes central charger_id (wanted settings conf))

abbrev pub enforce_remote_only_mode :
    Central → String → List (String × String) × List (Result String)
enforce_remote_only_mode = enforce desired
