-- ===== src/Simulator/Session.antt =====
-- The simulator's transaction, whatever its console and the central system do in whatever order.
use ocpphal_go.Prelude.{
  ◌≡◌, ◌≢◌, ◌⊎◌, inl, inr, refl, ap, sym, ◌∙◌, arith, String, Bool, true, false, not, ◌||◌, Option,
  none, some, List, [], ◌∷◌, ℤ, pos, Float, is_positive, String_key, ℤ_key, ◌!=◌, Bool-cases,
  Option-cases, if◌then◌else◌,
}
use ocpphal_go.Store.Types.{Result, ok, err}
use ocpphal_go.Simulator.{
  Simulator, Replies, RemoteStart, Elapsed, ChargePointStatus, charging, preparing, available,
  or_own, unavailable, finishing, fails, is_available, is_out, set_status, notified, plug, unplug,
  allowed, start_allowed, start_transaction, prepared, begun, and_then, send_meter, sent_meter,
  metered, stop_transaction, stopped, ended, execute_pending_remote_start,
  execute_pending_remote_stop, require_transaction_status, start_auto, on_remote_start_transaction,
  on_remote_stop_transaction, boot, booted_by, on_change_availability, has_transaction, is_bad_tag,
}

-- What the console, the goroutines and the central system can make the simulator do.
pub data Step (F : Type 0) : Type 0 where
  sets_status : ChargePointStatus → String → Step F
  plugs unplugs stops begins_remote ends_remote starts_auto boots : Step F
  starts : String → Step F
  meters : Elapsed F → F → Step F
  requires : ChargePointStatus → Step F
  start_requested : RemoteStart → Step F
  stop_requested : ℤ → Step F
  availability : ℤ → Bool → Step F

-- No transaction and no tag, or both.
pub IsConsistent : {F : Type 0} → Simulator F → Type 0
IsConsistent s =
    ((s.transaction ≡ pos 0) × (s.id_tag ≡ ""))
    ⊎ ((is_positive s.transaction ≡ true) × (s.id_tag ≢ ""))

module _ {F : Type 0} ⦃f : Float F⦄ where
  pub step : Replies → Simulator F → Step F → Simulator F
  step r s (sets_status status code) = (set_status r s status code).1
  step r s plugs = (plug r s).1
  step r s unplugs = (unplug r s).1
  step r s stops = (stop_transaction r s).1
  step r s begins_remote = (execute_pending_remote_start r s).1
  step r s ends_remote = (execute_pending_remote_stop r s).1
  step r s starts_auto = (start_auto s).1
  step r s boots = (boot r s).1
  step r s (starts id_tag) = (start_transaction r s id_tag false).1
  step r s (meters elapsed power_kw) = (send_meter r s elapsed power_kw).1
  step r s (requires status) = (require_transaction_status r s status).1
  step r s (start_requested request) = (on_remote_start_transaction s request).2
  step r s (stop_requested id) = (on_remote_stop_transaction s id).2
  step r s (availability connector_id inoperative) =
      (on_change_availability s connector_id inoperative).2

  -- The transaction and its tag are the same in both.
  abbrev pub SameSession : Simulator F → Simulator F → Type 0
  SameSession s s' = (s'.transaction ≡ s.transaction) × (s'.id_tag ≡ s.id_tag)

  -- A session goes on, begins when there was none, or ends.
  pub Moves : Simulator F → Simulator F → Type 0
  Moves s s' =
      SameSession s s'
      ⊎ ((s.transaction ≡ pos 0) × (is_positive s'.transaction ≡ true) × (s'.id_tag ≢ ""))
      ⊎ ((s'.transaction ≡ pos 0) × (s'.id_tag ≡ ""))

  notified-SameSession :
      (s : Simulator F) (status : ChargePointStatus) (code : String) (o : Result (Unit {0}))
      → SameSession s (notified s status code o).1
  notified-SameSession s status code (err e) = (refl, refl)
  notified-SameSession s status code (ok _) = (refl, refl)

  set_status-SameSession :
      (r : Replies) (s : Simulator F) (status : ChargePointStatus) (code : String)
      → SameSession s (set_status r s status code).1
  unfolding set_status
  set_status-SameSession r s status code =
      notified-SameSession s status code (r.status_notification status code)

  begun-Moves :
      (r : Replies) (id_tag : String) (s : Simulator F) (o : Result (Option (Bool × ℤ)))
      → s.transaction ≡ pos 0
      → id_tag ≢ ""
      → Moves s (begun r id_tag s o).1
  unfolding Moves
  begun-Moves r id_tag s (err e) z t = inl (refl, refl)
  begun-Moves r id_tag s (ok none) z t = inl (refl, refl)
  begun-Moves r id_tag s (ok (some (accepted, id))) z t =
      let s' : Simulator F = record s { transaction = id; id_tag = id_tag; remote_start = none } in
      elim (Bool-cases (not accepted || not (is_positive id))) [
        | inl e ↦ rw e (inl (refl, refl))
        | inr e ↦ rw e (
            let (same, tag) = set_status-SameSession r s' charging "NoError" in
            inr (inl (z, ap is_positive same ∙ ground arith, λ h. t (sym tag ∙ h))))
      ]

  Moves-after : (s s' s'' : Simulator F) → SameSession s s' → Moves s' s'' → Moves s s''
  unfolding Moves
  Moves-after s s' s'' (t, i) (inl (t', i')) = inl (t' ∙ t, i' ∙ i)
  Moves-after s s' s'' (t, i) (inr (inl (z, p, h))) = inr (inl (sym t ∙ z, p, h))
  Moves-after s s' s'' (t, i) (inr (inr h)) = inr (inr h)

  prepared-SameSession : (r : Replies) (s : Simulator F) → SameSession s (prepared r s).1
  prepared-SameSession r s = elim (Bool-cases (is_available s.status)) [
    | inl e ↦ rw e (set_status-SameSession r (record s { plugged = true }) preparing "NoError")
    | inr e ↦ rw e (refl, refl)
  ]

  -- A step after one that may have failed.
  and_then-Moves :
      (s : Simulator F) (x : Result (Unit {0}) × Simulator F)
      (next : Simulator F → Result (Unit {0}) × Simulator F)
      → SameSession s x.1
      → ((s' : Simulator F) → SameSession s s' → Moves s' (next s').1)
      → Moves s (and_then x next).1
  unfolding Moves
  and_then-Moves s (err e, s') next h n = inl h
  and_then-Moves s (ok _, s') next h n = Moves-after s s' (next s').1 h (n s' h)

  start_allowed-Moves :
      (r : Replies) (s : Simulator F) (id_tag : String) (o : Result (Unit {0}))
      → s.transaction ≡ pos 0
      → id_tag ≢ ""
      → Moves s (start_allowed r s id_tag o).1
  unfolding Moves
  start_allowed-Moves r s id_tag (err e) z t = inl (refl, refl)
  start_allowed-Moves r s id_tag (ok _) z t =
      and_then-Moves s (prepared r s)
        (λ s'. begun r id_tag s' (r.start_transaction id_tag (f.to_int s.meter_wh)))
        (prepared-SameSession r s)
        (λ s' h.
          begun-Moves r id_tag s' (r.start_transaction id_tag (f.to_int s.meter_wh)) (h.0 ∙ z) t)

  -- A guard: a failure keeps everything.
  guarded-Moves :
      (s : Simulator F) (b : Bool) (text : String) (x : Result (Unit {0}) × Simulator F)
      → (b ≡ false → Moves s x.1)
      → Moves s (if b then fails text s else x).1
  unfolding Moves
  guarded-Moves s true text x h = inl (refl, refl)
  guarded-Moves s false text x h = h refl

  start_transaction-Moves :
      (r : Replies) (s : Simulator F) (id_tag : String) (remote : Bool)
      → Moves s (start_transaction r s id_tag remote).1
  unfolding start_transaction
  start_transaction-Moves r s id_tag remote = guarded-Moves s (is_bad_tag id_tag) _ _ (λ t.
      guarded-Moves s (has_transaction s) _ _ (λ z. guarded-Moves s (is_out s.status) _ _ (λ o.
        start_allowed-Moves r s id_tag (allowed r id_tag remote) (ground (arith, z))
          (λ e. ground (arith, t, e)))))

  stopped-Moves :
      (r : Replies) (s : Simulator F) (o : Result (Unit {0})) → Moves s (stopped r s o).1
  unfolding Moves
  stopped-Moves r s (err e) = inl (refl, refl)
  stopped-Moves r s (ok _) = inr (
      inr (
        set_status-SameSession r (ended s)
          (if s.unavailable_after_stop then unavailable else finishing) "NoError"))

  stop_transaction-Moves : (r : Replies) (s : Simulator F) → Moves s (stop_transaction r s).1
  unfolding stop_transaction Moves
  stop_transaction-Moves r s = ground (
    arith,
    stopped-Moves r (record s { auto_running = false })
        (r.stop_transaction (f.to_int s.meter_wh) s.transaction),
  )

  boot-SameSession : (s : Simulator F) (o : Result (Option Bool)) → SameSession s (booted_by s o).1
  boot-SameSession s (err e) = (refl, refl)
  boot-SameSession s (ok none) = (refl, refl)
  boot-SameSession s (ok (some true)) = (refl, refl)
  boot-SameSession s (ok (some false)) = (refl, refl)

  sent_meter-SameSession :
      (s : Simulator F) (o : Result (Unit {0})) → SameSession s (sent_meter s o).1
  sent_meter-SameSession s (err e) = (refl, refl)
  sent_meter-SameSession s (ok _) = (refl, refl)

  plug-Moves : (r : Replies) (s : Simulator F) → Moves s (plug r s).1
  unfolding plug Moves
  plug-Moves r s =
      guarded-Moves s (has_transaction s) _ _
        (λ z. inl (set_status-SameSession r (record s { plugged = true }) preparing "NoError"))

  unplug-Moves : (r : Replies) (s : Simulator F) → Moves s (unplug r s).1
  unfolding unplug Moves
  unplug-Moves r s =
      guarded-Moves s (has_transaction s) _ _
        (λ z. inl (set_status-SameSession r (record s { plugged = false }) available "NoError"))

  send_meter-Moves :
      (r : Replies) (s : Simulator F) (elapsed : Elapsed F) (power_kw : F)
      → Moves s (send_meter r s elapsed power_kw).1
  unfolding send_meter Moves
  send_meter-Moves r s elapsed power_kw = guarded-Moves s (not (has_transaction s)) _ _ (λ z.
      guarded-Moves s (elapsed.is_negative || f.flt power_kw (f.of_int (pos 0))) _ _ (λ p.
        inl (sent_meter-SameSession (metered s elapsed power_kw) (r.meter_values s.transaction))))

  require_transaction_status-Moves :
      (r : Replies) (s : Simulator F) (status : ChargePointStatus)
      → Moves s (require_transaction_status r s status).1
  unfolding require_transaction_status Moves
  require_transaction_status-Moves r s status =
      guarded-Moves s (not (has_transaction s)) _ _
        (λ z. inl (set_status-SameSession r s status "NoError"))

  execute_pending_remote_start-Moves :
      (r : Replies) (s : Simulator F) → Moves s (execute_pending_remote_start r s).1
  unfolding execute_pending_remote_start Moves
  execute_pending_remote_start-Moves r s = elim (Option-cases s.remote_start) [
    | inl e ↦ rw (e, execute_pending_remote_start) (inl (refl, refl))
    | inr (request, e) ↦
        rw (e, execute_pending_remote_start)
          (guarded-Moves s (or_own request.connector_id s.connector_id != s.connector_id) _ _
            (λ k. start_transaction-Moves r s request.id_tag true))
  ]

  execute_pending_remote_stop-Moves :
      (r : Replies) (s : Simulator F) → Moves s (execute_pending_remote_stop r s).1
  unfolding execute_pending_remote_stop Moves
  execute_pending_remote_stop-Moves r s = elim (Option-cases s.remote_stop) [
    | inl e ↦ rw (e, execute_pending_remote_stop) (inl (refl, refl))
    | inr (id, e) ↦ rw (e, execute_pending_remote_stop) (stop_transaction-Moves r s)
  ]

  -- Whatever the simulator is made to do, and whatever the central system answers, its session goes on
  -- with the same transaction and tag, or begins, with a positive id and a tag, when there was no
  -- transaction, or ends. So a running transaction is never replaced by another one.
  pub step-Moves : (r : Replies) (s : Simulator F) (c : Step F) → Moves s (step r s c)
  unfolding Moves boot step
  step-Moves r s (sets_status status code) = inl (set_status-SameSession r s status code)
  step-Moves r s plugs = plug-Moves r s
  step-Moves r s unplugs = unplug-Moves r s
  step-Moves r s stops = stop_transaction-Moves r s
  step-Moves r s begins_remote = execute_pending_remote_start-Moves r s
  step-Moves r s ends_remote = execute_pending_remote_stop-Moves r s
  step-Moves r s starts_auto = unfold start_auto in ground arith
  step-Moves r s boots = inl (boot-SameSession s r.boot_notification)
  step-Moves r s (starts id_tag) = start_transaction-Moves r s id_tag false
  step-Moves r s (meters elapsed power_kw) = send_meter-Moves r s elapsed power_kw
  step-Moves r s (requires status) = require_transaction_status-Moves r s status
  step-Moves r s (start_requested request) = unfold on_remote_start_transaction in ground arith
  step-Moves r s (stop_requested id) = unfold on_remote_stop_transaction in ground arith
  step-Moves r s (availability k inoperative) = unfold on_change_availability in ground arith

  pub run : Simulator F → List (Replies × Step F) → Simulator F
  run s [] = s
  run s ((r, c) ∷ rest) = run (step r s c) rest

  Moves-IsConsistent : (s s' : Simulator F) → Moves s s' → IsConsistent s → IsConsistent s'
  unfolding Moves IsConsistent
  Moves-IsConsistent s s' (inl (t, i)) (inl (z, e)) = inl (t ∙ z, i ∙ e)
  Moves-IsConsistent s s' (inl (t, i)) (inr (p, n)) = inr (ap is_positive t ∙ p, λ e. n (sym i ∙ e))
  Moves-IsConsistent s s' (inr (inl (z, p, n))) h = inr (p, n)
  Moves-IsConsistent s s' (inr (inr e)) h = inl e

  -- After any history of steps the simulator has a tag and a positive transaction id, or neither, if it
  -- did at its start.
  pub run-IsConsistent :
      (s : Simulator F) (history : List (Replies × Step F))
      → IsConsistent s
      → IsConsistent (run s history)
  unfolding run
  run-IsConsistent s [] h = h
  run-IsConsistent s ((r, c) ∷ rest) h =
      run-IsConsistent (step r s c) rest (Moves-IsConsistent s (step r s c) (step-Moves r s c) h)
