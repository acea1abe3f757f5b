-- ===== src/Hooks/Enqueue.antt =====
-- What the hooks manager promises the message handlers, over a MemoryStore.
use ocpphal_go.Prelude.{
  ◌+◌, GoMap, ℕ, ◌≡◌, ◌≢◌, ◌⊎◌, inl, inr, refl, true, Option, none, some, arith, [], ◌∷◌, Float,
  put, ◌==◌, String_key, Bool-cases, ℕ_key,
}
use ocpphal_go.Store.Types.{
  Payload, Time, Transaction, EnqueueCallbackInput, Error, Result, ok, err,
}
use ocpphal_go.Store.Memory.{MemoryStore, MemoryCallback}
use ocpphal_go.Store.Memory.Run.{enqueue-keeps}
use ocpphal_go.Store.Memory.Outbox.{has_key, marshal, enqueue_callback, new_callback}
use ocpphal_go.Store.Memory.Reconcile.{dedupe_key}
use ocpphal_go.Store.Interface.{memory_transaction_store}
use ocpphal_go.Hal.{HookSink}
use ocpphal_go.Hal.Transactions.OneOpen.{HooksKeep}
use ocpphal_go.Hooks.{
  Config, kind_start_transaction, start_url, start_input, enqueue_start_transaction,
  enqueue_completed_transaction, completed_fields, completed_input, completed_url,
}

module _ {F : Type 0} ⦃f : Float F⦄ (cfg : Config) where
  -- The manager as the handlers' hooks.
  abbrev pub manager_sink : HookSink F (MemoryStore F)
  manager_sink = record {
    enqueue_start_transaction = enqueue_start_transaction memory_transaction_store cfg;
    enqueue_completed_transaction = enqueue_completed_transaction memory_transaction_store cfg;
  }

  start-keeps :
      (s : MemoryStore F) (now : Time) (tx : Transaction F)
      → (enqueue_start_transaction memory_transaction_store cfg s now tx).1.transactions
        ≡ s.transactions
  unfolding enqueue_start_transaction
  start-keeps s now tx =
      ground (arith, (enqueue-keeps s now (start_input memory_transaction_store cfg tx)).0)

  fields-keep :
      (s : MemoryStore F) (at : Option Time) (m t : Option F)
      (go : Time → F → F → Result (Unit {0}) × MemoryStore F)
      → ((a : Time) (b c : F) → (go a b c).1.transactions ≡ s.transactions)
      → (completed_fields memory_transaction_store cfg at m t go s).1.transactions ≡ s.transactions
  fields-keep s none m t go h = refl
  fields-keep s (some at) none t go h = refl
  fields-keep s (some at) (some m) none go h = refl
  fields-keep s (some at) (some m) (some t) go h = ground (arith, h at m t)

  completed-keeps :
      (s : MemoryStore F) (now : Time) (tx : Transaction F)
      → (enqueue_completed_transaction memory_transaction_store cfg s now tx).1.transactions
        ≡ s.transactions
  unfolding enqueue_completed_transaction
  completed-keeps s now tx =
      let fields = fields-keep s tx.stop_time tx.meter_stop tx.total_consumption _ (λ at m t.
        (enqueue-keeps s now (completed_input memory_transaction_store cfg tx at m t)).0) in
      elim (Bool-cases (completed_url memory_transaction_store cfg tx == "")) [
        | inl b ↦ rw (b, enqueue_completed_transaction) refl
        | inr b ↦ rw (b, enqueue_completed_transaction) fields
      ]

  -- The manager leaves the transactions alone, as the handlers need of their hooks.
  pub manager-HooksKeep : HooksKeep (some manager_sink)
  manager-HooksKeep s now tx = (start-keeps s now tx, completed-keeps s now tx)

has_key-put :
    (id : ℕ) (item : MemoryCallback) (m : GoMap ℕ MemoryCallback)
    → has_key item.dedupe_key (put id item m) ≡ true
unfolding has_key put
has_key-put id item [] = ground arith
has_key-put id item ((j, x) ∷ m) = ground (arith, has_key-put id item m)

module _ {F : Type 0} where
  enqueued :
      (s : MemoryStore F) (now : Time) (input : EnqueueCallbackInput) (p : Payload)
      → marshal input.payload ≡ some p
      → ((enqueue_callback s now input).0 ≡ ok tt)
        × (has_key input.dedupe_key (enqueue_callback s now input).1.outbox ≡ true)
  unfolding enqueue_callback
  enqueued s now input p e = elim (Bool-cases (has_key input.dedupe_key s.outbox)) [
    | inl b ↦ rw (b, enqueue_callback) (refl, b)
    | inr b ↦
        rw (b, enqueue_callback, e)
          (
            refl,
            has_key-put (s.memory_outbox_id + 1) (new_callback (s.memory_outbox_id + 1) now p input)
                s.outbox,
          )
  ]

  present :
      (s : MemoryStore F) (now : Time) (input : EnqueueCallbackInput)
      → has_key input.dedupe_key s.outbox ≡ true
      → enqueue_callback s now input ≡ (ok tt, s)
  unfolding enqueue_callback
  present s now input b = rw (b, enqueue_callback) refl

module _ {F : Type 0} ⦃f : Float F⦄ (cfg : Config) where
  -- EnqueueStartTransaction fails only for want of a URL, and then leaves the store alone. Else it
  -- succeeds, the start callback of the transaction is in the outbox, and enqueueing it again, as a
  -- retry or the reconciliation does, succeeds and changes nothing.
  pub enqueue_start_once :
      (s : MemoryStore F) (now later : Time) (tx : Transaction F)
      → let (r, s') = enqueue_start_transaction memory_transaction_store cfg s now tx in
        ((start_url memory_transaction_store cfg tx ≡ "") × ((e : Error) × (r ≡ err e)) × (s' ≡ s))
        ⊎ ((start_url memory_transaction_store cfg tx ≢ "")
            × (r ≡ ok tt)
            × (has_key (dedupe_key kind_start_transaction tx.transaction_id) s'.outbox ≡ true)
            × (enqueue_start_transaction memory_transaction_store cfg s' later tx ≡ (ok tt, s')))
  unfolding enqueue_start_transaction
  enqueue_start_once s now later tx =
      let input = start_input memory_transaction_store cfg tx in
      let (succeeds, there) = enqueued s now input input.payload (unfold marshal in refl) in
      elim (Bool-cases (start_url memory_transaction_store cfg tx == "")) [
        | inl b ↦ inl (rw (b, enqueue_start_transaction) (ground (arith, b), (_, refl), refl))
        | inr b ↦ inr (
            rw (b, enqueue_start_transaction)
              (ground (arith, b), succeeds, there, present _ later input there))
      ]
