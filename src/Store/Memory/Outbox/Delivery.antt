-- ===== src/Store/Memory/Outbox/Delivery.antt =====
-- What a worker can rely on when it claims callbacks.
use ocpphal_go.Prelude.{
  ◌⊎◌, ℕ, zero, suc, ◌+◌, ◌≤◌, ◌<◌, ◌≡◌, refl, true, arith, List, [], ◌∷◌, All, length, Bool-cases,
  inl, inr, if◌then◌else◌,
}
use ocpphal_go.Store.Types.{Time, CallbackTask}
use ocpphal_go.Store.Memory.{MemoryStore}
use ocpphal_go.Store.Memory.Outbox.{claim, is_due, task_of, claim_due_callbacks}
use ocpphal_go.Store.Memory.Outbox.Unique.{Outbox}

-- What is left to claim: entries that are pending and due.
abbrev pub due_count : Time → Outbox → ℕ
due_count now [] = 0
due_count now ((_, item) ∷ items) = (if is_due now item then 1 else 0) + due_count now items

-- The task is that of an entry which is pending and due.
abbrev pub IsDueTask : Time → Outbox → CallbackTask → Type 0
IsDueTask now [] t = ⊥
IsDueTask now ((_, item) ∷ items) t =
    ((is_due now item ≡ true) × (t ≡ task_of item)) ⊎ IsDueTask now items t

All-weaken {ℓ} :
    {A : Type ℓ} (P Q : A → Type 0) (xs : List A) → ((x : A) → P x → Q x) → All P xs → All Q xs
All-weaken P Q [] f h = tt
All-weaken P Q (x ∷ xs) f h = (f x h.0, All-weaken P Q xs f h.1)

claim_sound : (now n : ℕ) (m : Outbox) → All (IsDueTask now m) (claim now n m).0
unfolding claim
claim_sound now zero m = tt
claim_sound now (suc n) [] = tt
claim_sound now (suc n) ((j, x) ∷ m) =
    let wider = λ (ts : List CallbackTask).
      All-weaken (IsDueTask now m) (IsDueTask now ((j, x) ∷ m)) ts (λ t h. inr h) in
    elim (Bool-cases (is_due now x)) [
      | inl b ↦ rw (b, claim) (inl (b, refl), wider (claim now n m).0 (claim_sound now n m))
      | inr b ↦ rw (b, claim) (wider (claim now (suc n) m).0 (claim_sound now (suc n) m))
    ]

claim_counts :
    (now n : ℕ) (m : Outbox)
    → (length (claim now n m).0 + due_count now (claim now n m).1 ≡ due_count now m)
      × (length (claim now n m).0 ≤ n)
      × ((length (claim now n m).0 < n) → due_count now (claim now n m).1 ≡ 0)
unfolding claim
claim_counts now zero m = (omega arith, omega arith, λ h. absurd (omega arith))
claim_counts now (suc n) [] = (omega arith, omega arith, λ h. refl)
claim_counts now (suc n) ((j, x) ∷ m) = elim (Bool-cases (is_due now x)) [
  | inl b ↦
      let h = claim_counts now n m in
      rw (b, claim) (ground (arith, b, h), ground (arith, h), ground (arith, h))
  | inr b ↦
      let h = claim_counts now (suc n) m in
      rw (b, claim) (ground (arith, b, h), ground (arith, h), ground (arith, b, h))
]

-- ClaimDueCallbacks hands out tasks of pending and due callbacks only, at most `limit` of them. Each
-- task handed out takes one callback off those that are due, and none that is due is left unless
-- the limit is met.
pub claim_due_lem :
    {F : Type 0} (s : MemoryStore F) (now limit : ℕ)
    → let (tasks, s') = claim_due_callbacks s now limit in
      All (IsDueTask now s.outbox) tasks
      × (length tasks ≤ limit)
      × (length tasks + due_count now s'.outbox ≡ due_count now s.outbox)
      × (length tasks < limit → due_count now s'.outbox ≡ 0)
unfolding claim_due_callbacks
claim_due_lem s now limit =
    let (counts, bound, none_left) = claim_counts now limit s.outbox in
    (claim_sound now limit s.outbox, bound, counts, none_left)
