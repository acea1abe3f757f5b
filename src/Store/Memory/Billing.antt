-- ===== src/Store/Memory/Billing.antt =====
-- Starting and stopping a transaction.
use ocpphal_go.Prelude.{
  ℕ, zero, suc, ◌+◌, ◌≡◌, ◌≢◌, refl, sym, ◌⊎◌, true, none, some, arith, ℤ, Float, GoMap, get,
  is_some, Option-cases, Bool-cases, inl, inr, ◌!=◌, ℤ_key, String_key, get-put, get-put_self,
  get-put_ne,
}
use ocpphal_go.Store.Types.{
  Time, Transaction, CreateTransactionInput, UpdateLiveMeterInput, StopTransactionInput,
  random_transaction_id, ok, err, no_unique_id,
}
use ocpphal_go.Store.Memory.{
  MemoryStore, Env, free_id, create_transaction, update_live_meter, stop_transaction,
  new_transaction, metered, write,
}
use ocpphal_go.Store.Memory.Invariant.{free_id_free}

module _ {F : Type 0} ⦃f : Float F⦄ where
  -- A transaction that was stopped, by whichever StopTransaction, stays as it is: a repeated
  -- StopTransaction, with whatever reading and at whatever time, returns the same transaction and
  -- changes nothing in the store.
  pub stop_idempotent :
      (s : MemoryStore F) (now later : Time) (input : StopTransactionInput F) (reading : F)
      (tx : Transaction F)
      → (stop_transaction s now input).0 ≡ ok tx
      → stop_transaction
          (stop_transaction s now input).1
          later
          (record input { meter_stop = reading })
        ≡ (ok tx, (stop_transaction s now input).1)
  unfolding stop_transaction
  stop_idempotent s now later input reading tx h =
      elim (Option-cases (get input.transaction_id s.transactions)) [
        | inl e ↦ ground (arith, e)
        | inr (old, e) ↦ elim (Bool-cases (old.charger_id != input.charger_id)) [
          | inl b ↦ ground (arith, e, b)
          | inr b ↦ elim (Bool-cases (is_some old.stop_time)) [
            | inl c ↦
                rw (e, stop_transaction, b, c)
                  (rw (e, stop_transaction, b, c) (ground (arith, e, b, c, h)))
            | inr c ↦
                rw (e, stop_transaction, b, c)
                  (rw (get-put_self, stop_transaction) (ground (arith, e, b, c, h)))
          ]
        ]
      ]

  -- All `n` ids that are drawn from the `i`-th draw on are taken.
  abbrev pub AllTaken : ℕ → ℕ → (ℕ → ℕ) → GoMap ℤ (Transaction F) → Type 0
  AllTaken zero i draws txs = Unit {0}
  AllTaken (suc n) i draws txs =
      (is_some (get (random_transaction_id (draws i)) txs) ≡ true) × AllTaken n (i + 1) draws txs

  free_id-none :
      (n i : ℕ) (draws : ℕ → ℕ) (txs : GoMap ℤ (Transaction F))
      → free_id n i draws txs ≡ none
      → AllTaken n i draws txs
  unfolding free_id
  free_id-none zero i draws txs h = tt
  free_id-none (suc n) i draws txs h =
      elim (Bool-cases (is_some (get (random_transaction_id (draws i)) txs))) [
        | inl b ↦ (b, free_id-none n (i + 1) draws txs (ground arith))
        | inr b ↦ ground arith
      ]

  -- CreateTransaction either fails, and then all of its hundred draws were taken and the store is
  -- unchanged, or it returns a transaction whose id was free, which is stored under that id as it is
  -- returned, open, with the caller's charger, connector, tag and reading, and leaves every other
  -- entry alone.
  pub create_lem :
      (s : MemoryStore F) (env : Env) (input : CreateTransactionInput F)
      → ((create_transaction s env input ≡ (err no_unique_id, s))
          × AllTaken 100 0 env.draws s.transactions)
        ⊎ ((tx : Transaction F) × ((create_transaction s env input).0 ≡ ok tx)
            × (get tx.transaction_id s.transactions ≡ none)
            × (get tx.transaction_id (create_transaction s env input).1.transactions ≡ some tx)
            × ((j : ℤ)
                → j ≢ tx.transaction_id
                → get j (create_transaction s env input).1.transactions ≡ get j s.transactions)
            × (tx.stop_time ≡ none)
            × (tx.charger_id ≡ input.charger_id)
            × (tx.connector_id ≡ input.connector_id)
            × (tx.id_tag ≡ input.id_tag)
            × (tx.meter_start ≡ input.meter_start))
  unfolding create_transaction
  create_lem s env input = elim (Option-cases (free_id 100 0 env.draws s.transactions)) [
    | inl e ↦ inl (rw (e, create_transaction) refl, free_id-none 100 0 env.draws s.transactions e)
    | inr (tid, e) ↦
        rw (e, create_transaction)
          (inr (
            new_transaction s env input tid,
            refl,
            (free_id_free 100 0 env.draws s.transactions tid e).0,
            get-put_self tid _ s.transactions,
            λ j ne. get-put_ne tid j _ s.transactions (λ q. ne (sym q)),
            refl,
            refl,
            refl,
            refl,
            refl,
          ))
  ]

  pub stop_stores :
      (s : MemoryStore F) (now : Time) (input : StopTransactionInput F) (tx : Transaction F)
      → (stop_transaction s now input).0 ≡ ok tx
      → (get input.transaction_id (stop_transaction s now input).1.transactions ≡ some tx)
        × (tx.charger_id ≡ input.charger_id)
        × (is_some tx.stop_time ≡ true)
  unfolding stop_transaction
  stop_stores s now input tx h = grind (arith, get-put)

  update_own :
      (s : MemoryStore F) (input : UpdateLiveMeterInput F) (tx : Transaction F)
      → get input.transaction_id s.transactions ≡ some tx
      → tx.charger_id ≡ input.charger_id
      → update_live_meter s input ≡ (
        ok (metered input.meter_stop tx),
        write s input.transaction_id (metered input.meter_stop tx),
      )
  unfolding update_live_meter
  update_own s input tx e o = rw (e, update_live_meter) (ground (arith, o))

  -- A reading that comes after the stop overwrites the final one: UpdateLiveMeter with the charger's
  -- own id replaces the final reading and the billed consumption of a transaction that
  -- StopTransaction closed, with whatever it is given, and leaves the transaction stopped.
  pub late_update_overwrites :
      (s : MemoryStore F) (now : Time) (input : StopTransactionInput F) (reading : F)
      (tx : Transaction F)
      → (stop_transaction s now input).0 ≡ ok tx
      → let (r, s') = update_live_meter (stop_transaction s now input).1 (record {
        charger_id = input.charger_id;
        transaction_id = input.transaction_id;
        meter_stop = reading;
      }) in
        (r ≡ ok (metered reading tx))
        × (get input.transaction_id s'.transactions ≡ some (metered reading tx))
        × (is_some (metered reading tx).stop_time ≡ true)
  late_update_overwrites s now input reading tx h =
      let (stored, owner, closed) = stop_stores s now input tx h in
      rw
        (update_own (stop_transaction s now input).1
          (record {
            charger_id = input.charger_id;
            transaction_id = input.transaction_id;
            meter_stop = reading;
          })
          tx stored owner)
        (
          refl,
          get-put_self input.transaction_id _ (stop_transaction s now input).1.transactions,
          closed,
        )
