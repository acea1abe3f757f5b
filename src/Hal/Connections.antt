-- ===== src/Hal/Connections.antt =====
-- connectionTracker of internal/ocpp16hal/connections.go: which connection of a charger counts.
pub mod Order
use ocpphal_go.Prelude.{
  ℕ, ◌+◌, String, Bool, true, false, Option, none, some, GoMap, get, put, delete, ◌!=◌,
  if◌then◌else◌, String_key, [],
}
use ocpphal_go.Store.Types.{Time}

pub record ConnectionRecord : Type 0 where
  pub charger_id : String
  pub key : String
  pub generation : ℕ
  pub remote_addr : String
  pub connected_at : Time

pub record ConnectionTracker : Type 0 where
  pub next : ℕ
  pub active : GoMap String ConnectionRecord

unfoldable pub new_connection_tracker : ConnectionTracker
new_connection_tracker = record { next = 0; active = [] }

-- The new record, the one that it supersedes, and the tracker.
unfoldable pub register :
    ConnectionTracker
    → String
    → String
    → String
    → Time
    → ConnectionRecord × Option ConnectionRecord × ConnectionTracker
register t charger_id key remote_addr now =
    let connection : ConnectionRecord = record {
      charger_id = charger_id;
      key = key;
      generation = t.next + 1;
      remote_addr = remote_addr;
      connected_at = now;
    } in
    (
      connection,
      get charger_id t.active,
      record { next = t.next + 1; active = put charger_id connection t.active },
    )

unfoldable pub unregister_if_current :
    ConnectionTracker → String → String → Bool × Option ConnectionRecord × ConnectionTracker
unregister_if_current t charger_id key = elim (get charger_id t.active) [
  | none ↦ (false, none, t)
  | some current ↦
      if current.key != key
      then (false, some current, t)
      else (true, some current, record t { active = delete charger_id t.active })
]
