-- ===== src/Hal/Connections/Order.antt =====
-- What the connection tracker guarantees when connections of one charger overlap.
use ocpphal_go.Prelude.{
  All, ◌≤◌, ◌<◌, ◌≡◌, ◌≢◌, String, true, false, none, some, arith, get, get-put_self, get-put,
  get-delete, get-delete_self, String_key, ◌⊎◌, List, [], ◌∷◌,
}
use ocpphal_go.Store.Types.{Time}
use ocpphal_go.Hal.Connections.{
  ConnectionRecord, ConnectionTracker, new_connection_tracker, register, unregister_if_current,
}

-- When a charger has reconnected, the late disconnect of its old connection changes nothing and is
-- reported as not current, with the new connection; the disconnect of the new connection is
-- reported as current and leaves the charger with no connection.
pub stale_disconnect_ignored :
    (t : ConnectionTracker) (charger_id old new addr : String) (now : Time)
    → old ≢ new
    → let (connection, _, u) = register t charger_id new addr now in
      (unregister_if_current u charger_id old ≡ (false, some connection, u))
      × ((unregister_if_current u charger_id new).0 ≡ true)
      × (get charger_id (unregister_if_current u charger_id new).2.active ≡ none)
unfolding register unregister_if_current
stale_disconnect_ignored t charger_id old new addr now h = (
  grind (arith, get-put_self),
  grind (arith, get-put_self),
  grind (arith, get-put_self, get-delete_self),
)

-- The number of a charger's connection is never above the tracker's counter.
abbrev pub Bounded : ConnectionTracker → Type 0
Bounded t = (c : String) (r : ConnectionRecord) → get c t.active ≡ some r → r.generation ≤ t.next

-- A connection's events, in the order in which the tracker sees them.
pub data Event : Type 0 where
  connects : String → String → String → Time → Event
  disconnects : String → String → Event

unfoldable pub step : ConnectionTracker → Event → ConnectionTracker
step t (connects c key addr now) = (register t c key addr now).2
step t (disconnects c key) = (unregister_if_current t c key).2

unfoldable pub run : ConnectionTracker → List Event → ConnectionTracker
run t [] = t
run t (e ∷ es) = run (step t e) es

step-Bounded : (t : ConnectionTracker) (e : Event) → Bounded t → Bounded (step t e)
unfolding step register unregister_if_current
step-Bounded t (connects c key addr now) b d r g = grind (arith, get-put, b d r)
step-Bounded t (disconnects c key) b d r g = grind (arith, get-delete, b d r)

run-Bounded : (t : ConnectionTracker) (es : List Event) → Bounded t → Bounded (run t es)
unfolding run
run-Bounded t [] b = b
run-Bounded t (e ∷ es) b = run-Bounded (step t e) es (step-Bounded t e b)

-- Over any history of connects and disconnects, a connection that registers has a number above that
-- of every connection that is active.
pub register_is_newest :
    (es : List Event) (charger_id key addr : String) (now : Time) (other : String)
    (r : ConnectionRecord)
    → get other (run new_connection_tracker es).active ≡ some r
    → r.generation < (register (run new_connection_tracker es) charger_id key addr now).0.generation
unfolding register
register_is_newest es charger_id key addr now other r g =
    let bound : r.generation ≤ (run new_connection_tracker es).next =
      run-Bounded new_connection_tracker es (unfold new_connection_tracker get in λ c r e. cc) other
        r g in
    omega arith

-- What neither connects the charger again nor disconnects its connection `key`.
abbrev pub Spares : String → String → Event → Type 0
Spares c key (connects d k addr now) = d ≢ c
Spares c key (disconnects d k) = (d ≢ c) ⊎ (k ≢ key)

step_keeps :
    (t : ConnectionTracker) (c : String) (r : ConnectionRecord) (e : Event)
    → Spares c r.key e
    → get c t.active ≡ some r
    → get c (step t e).active ≡ some r
unfolding step register unregister_if_current
step_keeps t c r (connects d k addr now) h g = grind (arith, get-put)
step_keeps t c r (disconnects d k) h g = grind (arith, get-delete)

-- Once a charger's connection is registered it stays the current one, whatever other chargers do and
-- however many disconnects of the charger's older connections arrive.
pub current_survives :
    (t : ConnectionTracker) (c : String) (r : ConnectionRecord) (es : List Event)
    → All (Spares c r.key) es
    → get c t.active ≡ some r
    → get c (run t es).active ≡ some r
unfolding run
current_survives t c r [] h g = g
current_survives t c r (e ∷ es) h g =
    current_survives (step t e) c r es h.1 (step_keeps t c r e h.0 g)
