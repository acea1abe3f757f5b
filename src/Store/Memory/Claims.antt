-- ===== src/Store/Memory/Claims.antt =====
-- The claim to stop a transaction that has passed its limit.
use ocpphal_go.Prelude.{
  ◌≡◌, ◌≢◌, ◌⊎◌, refl, ap, Bool-cases, String, Bool, true, false, none, some, arith, List, [], ◌∷◌,
  ℤ, Float, get, Option-cases, inl, inr, ℤ_key, String_key, get-put, get-put_self, All,
}
use ocpphal_go.Store.Types.{
  Time, Transaction, CreateTransactionInput, UpdateLiveMeterInput, StopTransactionInput,
}
use ocpphal_go.Store.Memory.{
  MemoryStore, write, Env, free_id, create_transaction, update_live_meter, stop_transaction,
  force_close_transaction, update_transaction_max_kwh,
}
use ocpphal_go.Store.Memory.LimitStop.{
  check_and_mark_limit_stop, release_limit_stop_request, should_mark, limit_reached,
}
use ocpphal_go.Store.Memory.Outbox.{claim_due_callbacks}
use ocpphal_go.Store.Memory.Invariant.{free_id_free}
use ocpphal_go.Store.Memory.Run.{
  Op, create, update, stop, force_close, set_max, mark, release, enqueue, claims, sends, retries,
  fails, step, run, enqueue-keeps, sends-keeps, retries-keeps, fails-keeps,
}

module _ {F : Type 0} ⦃f : Float F⦄ where
  -- The transaction is there, and its stop was requested.
  abbrev claimed : ℤ → MemoryStore F → Bool
  claimed tid s = elim (get tid s.transactions) [ none ↦ false | some tx ↦ tx.limit_stop_requested ]

  -- Anything but a release of the transaction.
  abbrev pub Holds : ℤ → Op F → Type 0
  Holds tid (release c t) = t ≢ tid
  Holds tid _ = Unit {0}

  create_claimed :
      (tid : ℤ) (s : MemoryStore F) (env : Env) (input : CreateTransactionInput F)
      → claimed tid s ≡ true
      → claimed tid (create_transaction s env input).1 ≡ true
  unfolding create_transaction
  create_claimed tid s env input h = elim (Option-cases (free_id 100 0 env.draws s.transactions)) [
    | inl e ↦ rw (e, create_transaction) h
    | inr (new, e) ↦
        let free = (free_id_free 100 0 env.draws s.transactions new e).0 in
        rw (e, create_transaction) (grind (arith, get-put, free))
  ]

  update_claimed :
      (tid : ℤ) (s : MemoryStore F) (input : UpdateLiveMeterInput F)
      → claimed tid s ≡ true
      → claimed tid (update_live_meter s input).1 ≡ true
  unfolding update_live_meter
  update_claimed tid s input h = grind (arith, get-put)

  stop_claimed :
      (tid : ℤ) (s : MemoryStore F) (now : Time) (input : StopTransactionInput F)
      → claimed tid s ≡ true
      → claimed tid (stop_transaction s now input).1 ≡ true
  unfolding stop_transaction
  stop_claimed tid s now input h = grind (arith, get-put)

  set_max_claimed :
      (tid : ℤ) (s : MemoryStore F) (t : ℤ) (max : F)
      → claimed tid s ≡ true
      → claimed tid (update_transaction_max_kwh s t max) ≡ true
  unfolding update_transaction_max_kwh
  set_max_claimed tid s t max h = grind (arith, get-put)

  mark_claimed :
      (tid : ℤ) (s : MemoryStore F) (c : String) (t : ℤ)
      → claimed tid s ≡ true
      → claimed tid (check_and_mark_limit_stop s c t).1 ≡ true
  unfolding check_and_mark_limit_stop
  mark_claimed tid s c t h = grind (arith, get-put)

  release_claimed :
      (tid : ℤ) (s : MemoryStore F) (c : String) (t : ℤ)
      → t ≢ tid
      → claimed tid s ≡ true
      → claimed tid (release_limit_stop_request s c t) ≡ true
  unfolding release_limit_stop_request
  release_claimed tid s c t ne h = grind (arith, get-put)

  step-claimed :
      (tid : ℤ) (s : MemoryStore F) (o : Op F)
      → Holds tid o
      → claimed tid s ≡ true
      → claimed tid (step s o) ≡ true
  unfolding step
  step-claimed tid s (create env input) o h = create_claimed tid s env input h
  step-claimed tid s (update input) o h = update_claimed tid s input h
  step-claimed tid s (stop now input) o h = stop_claimed tid s now input h
  step-claimed tid s (force_close now input) o h =
      unfold force_close_transaction in stop_claimed tid s now _ h
  step-claimed tid s (set_max t max) o h = set_max_claimed tid s t max h
  step-claimed tid s (mark c t) o h = mark_claimed tid s c t h
  step-claimed tid s (release c t) o h = release_claimed tid s c t o h
  step-claimed tid s (enqueue now input) o h = rw ((enqueue-keeps s now input).0, claimed) h
  step-claimed tid s (claims now limit) o h = unfold claim_due_callbacks in h
  step-claimed tid s (sends id) o h = rw ((sends-keeps s id).0, claimed) h
  step-claimed tid s (retries id n at e) o h = rw ((retries-keeps s id n at e).0, claimed) h
  step-claimed tid s (fails id e) o h = rw ((fails-keeps s id e).0, claimed) h

  run-claimed :
      (tid : ℤ) (s : MemoryStore F) (os : List (Op F))
      → All (Holds tid) os
      → claimed tid s ≡ true
      → claimed tid (run s os) ≡ true
  unfolding run
  run-claimed tid s [] o h = h
  run-claimed tid s (p ∷ os) o h = run-claimed tid (step s p) os o.1 (step-claimed tid s p o.0 h)

  mark_claims :
      (tid : ℤ) (s : MemoryStore F) (c : String)
      → (check_and_mark_limit_stop s c tid).0 ≡ true
      → claimed tid (check_and_mark_limit_stop s c tid).1 ≡ true
  unfolding check_and_mark_limit_stop
  mark_claims tid s c h = grind (arith, get-put)

  claimed_refuses :
      (tid : ℤ) (s : MemoryStore F) (c : String)
      → claimed tid s ≡ true
      → (check_and_mark_limit_stop s c tid).0 ≡ false
  unfolding check_and_mark_limit_stop should_mark
  claimed_refuses tid s c h = ground arith

  -- The stop of a transaction is claimed once: from the call of CheckAndMarkLimitStop that answers
  -- true, and until a ReleaseLimitStopRequest of the transaction, every other call for it, by
  -- whichever worker and after whatever other calls of the store, answers false.
  pub single_claim :
      (s : MemoryStore F) (c other : String) (tid : ℤ) (os : List (Op F))
      → (check_and_mark_limit_stop s c tid).0 ≡ true
      → All (Holds tid) os
      → (check_and_mark_limit_stop (run (check_and_mark_limit_stop s c tid).1 os) other tid).0
        ≡ false
  single_claim s c other tid os h o =
      claimed_refuses tid _ other
        (run-claimed tid (check_and_mark_limit_stop s c tid).1 os o (mark_claims tid s c h))

  -- The store has the charger's transaction open and unclaimed, with a limit and a consumption that is
  -- not below it.
  abbrev pub IsOver : MemoryStore F → String → ℤ → Type 0
  IsOver s c tid =
      (tx : Transaction F) × (max : F) × (total : F) × (get tid s.transactions ≡ some tx)
      × (tx.charger_id ≡ c)
      × (tx.stop_time ≡ none)
      × (tx.limit_stop_requested ≡ false)
      × (tx.max_kwh ≡ some max)
      × (tx.total_consumption ≡ some total)
      × (f.flt total max ≡ false)

  should-IsOver :
      (s : MemoryStore F) (c : String) (tid : ℤ) (tx : Transaction F)
      → get tid s.transactions ≡ some tx
      → should_mark c tx ≡ true
      → IsOver s c tid
  unfolding should_mark limit_reached
  should-IsOver s c tid tx g h = elim (Option-cases tx.max_kwh) [
    | inl m ↦ absurd (ground (arith, h, m))
    | inr (max, m) ↦ elim (Option-cases tx.total_consumption) [
      | inl t ↦ absurd (ground (arith, h, m, t))
      | inr (total, t) ↦ (
        tx,
        max,
        total,
        g,
        ground (arith, h),
        ground (arith, h),
        ground (arith, h),
        m,
        t,
        ground (arith, h, m, t),
      )
    ]
  ]

  over-should :
      (c : String) (tx : Transaction F) (max total : F)
      → tx.charger_id ≡ c
      → tx.stop_time ≡ none
      → tx.limit_stop_requested ≡ false
      → tx.max_kwh ≡ some max
      → tx.total_consumption ≡ some total
      → f.flt total max ≡ false
      → should_mark c tx ≡ true
  unfolding should_mark limit_reached
  over-should c tx max total a b d m t l = ground arith

  mark_found_lem :
      (s : MemoryStore F) (c : String) (tid : ℤ) (tx : Transaction F)
      → get tid s.transactions ≡ some tx
      → should_mark c tx ≡ true
      → check_and_mark_limit_stop s c tid
        ≡ (true, write s tid (record tx { limit_stop_requested = true }))
  unfolding check_and_mark_limit_stop
  mark_found_lem s c tid tx g h = rw (g, check_and_mark_limit_stop, h) refl

  mark_again :
      (s : MemoryStore F) (c : String) (tid : ℤ) (tx : Transaction F)
      → get tid s.transactions ≡ some tx
      → should_mark c tx ≡ true
      → (check_and_mark_limit_stop
          (release_limit_stop_request (check_and_mark_limit_stop s c tid).1 c tid)
          c
          tid).0
        ≡ true
  unfolding check_and_mark_limit_stop release_limit_stop_request should_mark
  mark_again s c tid tx g h = grind (arith, get-put_self)

  mark_refused :
      (s : MemoryStore F) (c : String) (tid : ℤ)
      → (check_and_mark_limit_stop s c tid ≡ (false, s))
        ⊎ ((tx : Transaction F) × (get tid s.transactions ≡ some tx) × (should_mark c tx ≡ true))
  unfolding check_and_mark_limit_stop
  mark_refused s c tid = elim (Option-cases (get tid s.transactions)) [
    | inl e ↦ inl (rw (e, check_and_mark_limit_stop) refl)
    | inr (tx, e) ↦ elim (Bool-cases (should_mark c tx)) [
      | inl b ↦ inr (tx, e, b)
      | inr b ↦ inl (rw (e, check_and_mark_limit_stop, b) refl)
    ]
  ]

  -- CheckAndMarkLimitStop answers true exactly when the store has the charger's transaction, open and
  -- unclaimed, with a limit and a consumption that is not below it. Then the claim is noted in the
  -- transaction, and releasing it makes the next call answer true again, as long as nothing else
  -- changed. When it answers false, the store is unchanged.
  pub mark_iff :
      (s : MemoryStore F) (c : String) (tid : ℤ)
      → let (claim, s') = check_and_mark_limit_stop s c tid in
        (IsOver s c tid
          × (claim ≡ true)
          × ((tx : Transaction F) × (get tid s.transactions ≡ some tx)
              × (s' ≡ write s tid (record tx { limit_stop_requested = true })))
          × ((check_and_mark_limit_stop (release_limit_stop_request s' c tid) c tid).0 ≡ true))
        ⊎ (¬ IsOver s c tid × (claim ≡ false) × (s' ≡ s))
  mark_iff s c tid = elim (mark_refused s c tid) [
    | inr (tx, g, h) ↦
        let m = mark_found_lem s c tid tx g h in
        inl (
          should-IsOver s c tid tx g h,
          ap (λ x. x.0) m,
          (tx, g, ap (λ x. x.1) m),
          mark_again s c tid tx g h,
        )
    | inl e ↦ inr (
      λ (tx, max, total, g, a, b, d, m, t, l).
          cc (e, mark_found_lem s c tid tx g (over-should c tx max total a b d m t l)),
      ap (λ x. x.0) e,
      ap (λ x. x.1) e,
    )
  ]
