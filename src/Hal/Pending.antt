-- ===== src/Hal/Pending.antt =====
-- internal/ocpp16hal/single_session.go: remote starts that shall become single sessions.
pub mod Consume
use ocpphal_go.Prelude.{
  String, Bool, true, false, ◌&&◌, Option, none, some, List, [], ◌∷◌, ℤ, ℤ_discrete,
  String_discrete, Key, GoMap, get, put, delete, ◌==◌, if◌then◌else◌, String_key,
}

pub record PendingRemoteStartKey : Type 0 where
  pub charger_id : String
  pub connector_id : ℤ
  pub id_tag : String

unfoldable pub pending_discrete : Discrete PendingRemoteStartKey
pending_discrete = hlevel (String_discrete, ℤ_discrete)

instance abbrev pub pending_key : Key PendingRemoteStartKey
pending_key = record { dec = pending_discrete }

-- The map's values are all `true`.
abbrev pub PendingStarts : Type 0
PendingStarts = GoMap PendingRemoteStartKey Bool

abbrev pub key_of : String → ℤ → String → PendingRemoteStartKey
key_of charger_id connector_id id_tag = record {
  charger_id = charger_id;
  connector_id = connector_id;
  id_tag = id_tag;
}

unfoldable pub record_pending : PendingStarts → String → ℤ → String → PendingStarts
record_pending p charger_id connector_id id_tag = put (key_of charger_id connector_id id_tag) true p

unfoldable pub clear_pending : PendingStarts → String → ℤ → String → PendingStarts
clear_pending p charger_id connector_id id_tag = delete (key_of charger_id connector_id id_tag) p

-- The first candidate with the charger and the tag, on any connector.
unfoldable pub find_candidate : String → String → PendingStarts → Option PendingRemoteStartKey
find_candidate charger_id id_tag [] = none
find_candidate charger_id id_tag ((candidate, _) ∷ rest) =
    if candidate.charger_id == charger_id && candidate.id_tag == id_tag
    then some candidate
    else find_candidate charger_id id_tag rest

-- `pendingRemoteStartSingleSessions[key]`: false at a missing key
abbrev pub is_pending : Option Bool → Bool
is_pending none = false
is_pending (some b) = b

unfoldable pub consume_pending : PendingStarts → String → ℤ → String → Bool × PendingStarts
unfolding find_candidate
consume_pending p charger_id connector_id id_tag =
    let key = key_of charger_id connector_id id_tag in
    if is_pending (get key p)
    then (true, delete key p)
    else elim (find_candidate charger_id id_tag p) [
      | none ↦ (false, p)
      | some candidate ↦ (true, delete candidate p)
    ]
