-- ===== src/Store/Updates/Signals.antt =====
-- What the subscribers of a transaction can rely on.
use ocpphal_go.Prelude.{
  ℕ, ◌≤◌, ◌≡◌, ◌≢◌, refl, Bool, true, false, none, some, arith, List, [], ◌∷◌, ℤ, GoMap, get, put,
  delete, get-put, get-delete, map_laws, ◌==◌, ℕ_key, ℤ_key, if◌then◌else◌, All,
}
use ocpphal_go.Store.Updates.{
  TransactionUpdates, subscribe, cancel, publish, receive, signal_all, inner, prune,
}

pub data Call : Type 0 where
  subscribes publishes : ℤ → Call
  cancels : ℤ → ℕ → Call
  receives : ℕ → Call

pub step : TransactionUpdates → Call → TransactionUpdates
step u (subscribes tid) = (subscribe u tid).1
step u (publishes tid) = publish u tid
step u (cancels tid id) = cancel u tid id
step u (receives id) = (receive u id).1

pub run : TransactionUpdates → List Call → TransactionUpdates
run u [] = u
run u (c ∷ cs) = run (step u c) cs

-- A signal that is set stays set while others are sent.
signal_all_keeps :
    (m : GoMap ℕ (Unit {0})) (s : GoMap ℕ Bool) (id : ℕ)
    → get id s ≡ some true
    → get id (signal_all m s) ≡ some true
unfolding signal_all
signal_all_keeps [] s id h = h
signal_all_keeps ((j, _) ∷ m) s id h = signal_all_keeps m (put j true s) id (grind (arith, get-put))

pub signal_all_sets :
    (m : GoMap ℕ (Unit {0})) (s : GoMap ℕ Bool) (id : ℕ)
    → get id m ≡ some tt
    → get id (signal_all m s) ≡ some true
unfolding signal_all get
signal_all_sets [] s id h = cc
signal_all_sets ((j, x) ∷ m) s id h = ground (
  arith,
  get-put j id true s,
  signal_all_sets m (put j true s) id,
  signal_all_keeps m (put j true s) id,
)

signal_all_spares :
    (m : GoMap ℕ (Unit {0})) (s : GoMap ℕ Bool) (id : ℕ)
    → get id m ≡ none
    → get id (signal_all m s) ≡ get id s
unfolding signal_all get
signal_all_spares [] s id h = refl
signal_all_spares ((j, x) ∷ m) s id h =
    ground (arith, get-put j id true s, signal_all_spares m (put j true s) id)

-- Only what is received is gone: whatever the numbers of the later subscriptions, a signal waits
-- until its subscriber takes it.
abbrev pub Leaves : ℕ → Call → Type 0
Leaves id (receives j) = j ≢ id
Leaves id _ = Unit {0}

step_keeps :
    (u : TransactionUpdates) (c : Call) (id : ℕ)
    → id ≤ u.next_id
    → Leaves id c
    → get id u.signals ≡ some true
    → (get id (step u c).signals ≡ some true) × (u.next_id ≤ (step u c).next_id)
unfolding step subscribe publish cancel receive
step_keeps u (subscribes tid) id b l h = grind (arith, get-put)
step_keeps u (publishes tid) id b l h =
    (signal_all_keeps (inner (get tid u.subscribers)) u.signals id h, omega arith)
step_keeps u (cancels tid j) id b l h = ground arith
step_keeps u (receives j) id b l h = grind (arith, get-put)

run_keeps :
    (u : TransactionUpdates) (cs : List Call) (id : ℕ)
    → id ≤ u.next_id
    → All (Leaves id) cs
    → get id u.signals ≡ some true
    → get id (run u cs).signals ≡ some true
unfolding run
run_keeps u [] id b l h = h
run_keeps u (c ∷ cs) id b l h =
    let (kept, grew) = step_keeps u c id b l.0 h in
    run_keeps (step u c) cs id (omega arith) l.1 kept

-- The subscription `id` of the transaction is live.
abbrev pub Subscribed : TransactionUpdates → ℤ → ℕ → Type 0
Subscribed u tid id = get id (inner (get tid u.subscribers)) ≡ some tt

-- No update is lost: when a change of a transaction is published, a live subscriber's next receive
-- gets a signal, whatever other subscribers and publishers do between, and its receive after that
-- finds none, however many changes were published before it.
pub publish_wakes :
    (u : TransactionUpdates) (tid : ℤ) (id : ℕ) (cs : List Call)
    → id ≤ u.next_id
    → Subscribed u tid id
    → All (Leaves id) cs
    → let (first, v) = receive (run (publish u tid) cs) id in
      (first ≡ true) × ((receive v id).0 ≡ false)
unfolding publish receive
publish_wakes u tid id cs b h l =
    let set : get id (run (publish u tid) cs).signals ≡ some true =
      run_keeps (publish u tid) cs id b l
        (signal_all_sets (inner (get tid u.subscribers)) u.signals id h) in
    grind (arith, get-put, set)

inner-prune :
    (tid t : ℤ) (m : GoMap ℕ (Unit {0})) (subs : GoMap ℤ (GoMap ℕ (Unit {0})))
    → inner (get t (prune tid m subs)) ≡ (if tid == t then m else inner (get t subs))
inner-prune tid t [] subs = grind (arith, map_laws)
inner-prune tid t (x ∷ m) subs = grind (arith, map_laws)

-- The cancel function takes exactly its own subscription off: a change that is published later leaves
-- its channel as it was, every other subscription of every transaction stays, and calling the
-- function again does nothing.
pub cancel_removes :
    (u : TransactionUpdates) (tid : ℤ) (id : ℕ)
    → get id u.done ≡ none
    → let v = cancel u tid id in
      (get id (publish v tid).signals ≡ get id v.signals)
      × ((t : ℤ) (j : ℕ) → j ≢ id → Subscribed u t j → Subscribed v t j)
      × (cancel v tid id ≡ v)
unfolding cancel publish
cancel_removes u tid id h =
    rw (h, cancel)
      (
        signal_all_spares
            (inner (get tid (prune tid (delete id (inner (get tid u.subscribers))) u.subscribers)))
            u.signals id (rw inner-prune (grind (arith, get-delete))),
        λ t j n s. rw inner-prune (grind (arith, get-delete)),
        grind (arith, get-put),
      )
