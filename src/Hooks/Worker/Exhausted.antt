-- ===== src/Hooks/Worker/Exhausted.antt =====
-- The attempts of the worker on one callback (processTask of manager.go).
use ocpphal_go.Prelude.{
  ℕ, zero, suc, ◌+◌, ◌≤◌, ◌<◌, ◌≡◌, ◌⊎◌, inl, inr, refl, sym, ◌∙◌, ◌-◌, subst, String, Option, none,
  some, arith, ℤ, Float, get, ℕ_key,
}
use ocpphal_go.Store.Types.{Time, Payload}
use ocpphal_go.Store.Memory.{MemoryStore, MemoryCallback, Status, pending, processing, sent, fatal}
use ocpphal_go.Store.Memory.Outbox.{task_of}
use ocpphal_go.Store.Interface.{memory_transaction_store}
use ocpphal_go.Hooks.Worker.{PostResult, Posted, process_task}
use ocpphal_go.Hooks.Worker.Marks.{IsMarked, StopperKeeps, process_task_marks}

-- The callback was delivered or given up.
abbrev pub IsDone : MemoryCallback → Type 0
IsDone item = (item.status ≡ sent) ⊎ (item.status ≡ fatal)

-- It waits, and `n` attempts use up its retries.
abbrev IsWaiting : ℕ → MemoryCallback → Type 0
IsWaiting n item =
    (item.status ≡ pending)
    × (item.retries < item.max_retries)
    × (item.max_retries ≤ item.retries + n)

next_wait :
    (n : ℕ) (now : Time) (r : PostResult) (item after : MemoryCallback)
    → IsMarked now (task_of item) r after
    → after.max_retries ≡ item.max_retries
    → item.max_retries ≤ item.retries + suc n
    → IsDone after ⊎ IsWaiting n after
next_wait n now r item after (inl h) m b = inl (inl h.0)
next_wait n now r item after (inr (inl h)) m b = inl (inr h.0)
next_wait n now r item after (inr (inr (p, c, l, t, e, n'))) m b = inr (p, omega arith, omega arith)

module _ {F : Type 0} ⦃f : Float F⦄
    (limit_stopper : Option (MemoryStore F → String → ℤ → MemoryStore F))
    (posts : ℕ → String → Payload → Posted) (times : ℕ → Time) (id : ℕ) where
  -- The worker's attempt number `i` on the callback, where it waits; a callback that is done is not
  -- claimed.
  abbrev pub attempt_on : MemoryStore F → ℕ → Status → MemoryCallback → MemoryStore F
  attempt_on s i pending item =
      process_task memory_transaction_store limit_stopper (posts i) s (times i) (task_of item)
  attempt_on s i processing item = s
  attempt_on s i sent item = s
  attempt_on s i fatal item = s

  abbrev pub attempt : MemoryStore F → ℕ → Option MemoryCallback → MemoryStore F
  attempt s i none = s
  attempt s i (some item) = attempt_on s i item.status item

  pub all_attempts : ℕ → ℕ → MemoryStore F → MemoryStore F
  all_attempts zero i s = s
  all_attempts (suc n) i s = all_attempts n (i + 1) (attempt s i (get id s.outbox))

  done-stays :
      (s : MemoryStore F) (i : ℕ) (item : MemoryCallback)
      → IsDone item
      → attempt_on s i item.status item ≡ s
  done-stays s i item (inl e) = rw e refl
  done-stays s i item (inr e) = rw e refl

  all-IsDone :
      (n i : ℕ) (s : MemoryStore F) (item : MemoryCallback)
      → StopperKeeps limit_stopper
      → get id s.outbox ≡ some item
      → item.id ≡ id
      → IsDone item ⊎ IsWaiting n item
      → (after : MemoryCallback) × (get id (all_attempts n i s).outbox ≡ some after) × IsDone after
  unfolding all_attempts
  all-IsDone zero i s item keep g own (inl d) = (item, g, d)
  all-IsDone zero i s item keep g own (inr (p, l, b)) = absurd (omega arith)
  all-IsDone (suc n) i s item keep g own (inl d) =
      rw (g, all_attempts, done-stays s i item d) (all-IsDone n (i + 1) s item keep g own (inl d))
  all-IsDone (suc n) i s item keep g own (inr (p, l, b)) =
      let (after, ga, settled, same, most) =
        process_task_marks (posts i) limit_stopper keep s (times i) (task_of item) item
          (subst (λ k. get k s.outbox ≡ some item) (sym own) g) in
      let t =
        process_task memory_transaction_store limit_stopper (posts i) s (times i) (task_of item) in
      rw (g, all_attempts, p)
        (all-IsDone n (i + 1) t after keep (subst (λ k. get k t.outbox ≡ some after) own ga)
          (same ∙ own) (next_wait n (times i) _ item after settled most b))

  -- A callback that waits is delivered or given up for good after as many attempts as it has retries
  -- left, whatever the CMS answers to each of them and whenever they are made. The store is a
  -- MemoryStore that holds the callback under its id, and the limit stopper leaves the callbacks
  -- alone.
  pub attempts_end :
      (s : MemoryStore F) (item : MemoryCallback)
      → StopperKeeps limit_stopper
      → get id s.outbox ≡ some item
      → item.id ≡ id
      → item.status ≡ pending
      → item.retries < item.max_retries
      → (after : MemoryCallback) × (get id
            (all_attempts (item.max_retries - item.retries) 0 s).outbox
          ≡ some after)
        × IsDone after
  attempts_end s item keep g own p l =
      all-IsDone (item.max_retries - item.retries) 0 s item keep g own (inr (p, l, omega arith))
