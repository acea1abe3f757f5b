-- ===== src/Store/Memory/Invariant.antt =====
-- What every method keeps true of the transactions of a MemoryStore.
use ocpphal_go.Prelude.{
  ℕ, zero, suc, ◌+◌, ◌%◌, ◌≤◌, ◌<◌, ◌≡◌, refl, String, true, false, none, some, arith, [], ◌∷◌, ℤ,
  pos, Float, GoMap, get, is_some, Entries, put-Entries, get-Entries, Distinct, put-Distinct,
  Option-cases, Bool-cases, inl, inr, ◌!=◌, ℤ_key, String_key,
}
use ocpphal_go.Store.Types.{
  Time, Transaction, CreateTransactionInput, UpdateLiveMeterInput, StopTransactionInput,
  max_transaction_id, random_transaction_id,
}
use ocpphal_go.Store.Memory.{
  MemoryStore, Env, free_id, create_transaction, update_live_meter, stop_transaction,
  update_transaction_max_kwh, metered, stopped, write,
}
use ocpphal_go.Store.Memory.LimitStop.{
  check_and_mark_limit_stop, release_limit_stop_request, should_mark, limit_reached,
}

-- An OCPP 1.6 transaction id is a positive 32-bit integer.
abbrev pub InRange : ℤ → Type 0
InRange k = (m : ℕ) × (k ≡ pos m) × (0 < m) × (m ≤ max_transaction_id)

-- The entry `tx` under the key `k`, where the next row gets the number `next`.
pub record IsSound {F : Type 0} (next : ℕ) (k : ℤ) (tx : Transaction F) : Type 0 where
  pub keyed : tx.transaction_id ≡ k
  pub row : tx.id < next
  pub in_range : InRange k
  pub metered_together : is_some tx.meter_stop ≡ is_some tx.total_consumption
  pub stopped_metered : is_some tx.stop_time ≡ true → is_some tx.meter_stop ≡ true
  pub requested_limit : tx.limit_stop_requested ≡ true → is_some tx.max_kwh ≡ true
  pub requested_total : tx.limit_stop_requested ≡ true → is_some tx.total_consumption ≡ true

pub record IsValid {F : Type 0} (s : MemoryStore F) : Type 0 where
  pub distinct : Distinct s.transactions
  pub sound : Entries (IsSound s.next_row_id) s.transactions

module _ {F : Type 0} where
  later-IsSound :
      (n : ℕ) (m : GoMap ℤ (Transaction F)) → Entries (IsSound n) m → Entries (IsSound (n + 1)) m
  later-IsSound n [] h = tt
  later-IsSound n ((k, tx) ∷ m) h = (
    record {
      keyed = h.0.keyed;
      row = omega (arith, h.0.row);
      in_range = h.0.in_range;
      metered_together = h.0.metered_together;
      stopped_metered = h.0.stopped_metered;
      requested_limit = h.0.requested_limit;
      requested_total = h.0.requested_total;
    },
    later-IsSound n m h.1,
  )

  write-IsValid :
      (s : MemoryStore F) (k : ℤ) (tx : Transaction F)
      → IsSound s.next_row_id k tx
      → IsValid s
      → IsValid (write s k tx)
  write-IsValid s k tx h v = record {
    distinct = put-Distinct k tx s.transactions v.distinct;
    sound = put-Entries (IsSound s.next_row_id) k tx s.transactions h v.sound;
  }

  IsSound-at :
      (s : MemoryStore F) (k : ℤ) (tx : Transaction F)
      → IsValid s
      → get k s.transactions ≡ some tx
      → IsSound s.next_row_id k tx
  IsSound-at s k tx v g = get-Entries (IsSound s.next_row_id) k tx s.transactions v.sound g

random-InRange : (d : ℕ) → InRange (random_transaction_id d)
unfolding random_transaction_id
random-InRange d = (d % max_transaction_id + 1, refl, omega arith, omega arith)

module _ {F : Type 0} ⦃f : Float F⦄ where
  -- The id that the loop of CreateTransaction settles on is free and in range.
  pub free_id_free :
      (n i : ℕ) (draws : ℕ → ℕ) (txs : GoMap ℤ (Transaction F)) (tid : ℤ)
      → free_id n i draws txs ≡ some tid
      → (get tid txs ≡ none) × InRange tid
  unfolding free_id
  free_id_free zero i draws txs tid h = cc
  free_id_free (suc n) i draws txs tid h =
      elim (Option-cases (get (random_transaction_id (draws i)) txs)) [
        | inl e ↦
            let same : random_transaction_id (draws i) ≡ tid = ground arith in
            rw (← same) (e, random-InRange (draws i))
        | inr (tx, e) ↦ free_id_free n (i + 1) draws txs tid (ground arith)
      ]

  pub create-IsValid :
      (s : MemoryStore F) (env : Env) (input : CreateTransactionInput F)
      → IsValid s
      → IsValid (create_transaction s env input).1
  unfolding create_transaction
  create-IsValid s env input v = elim (Option-cases (free_id 100 0 env.draws s.transactions)) [
    | inl e ↦ rw (e, create_transaction) v
    | inr (tid, e) ↦
        rw (e, create_transaction)
          (record {
            distinct = put-Distinct tid _ s.transactions v.distinct;
            sound =
                put-Entries (IsSound (s.next_row_id + 1)) tid _ s.transactions
                  (record {
                    keyed = refl;
                    row = omega arith;
                    in_range = (free_id_free 100 0 env.draws s.transactions tid e).1;
                    metered_together = refl;
                    stopped_metered = λ x. x;
                    requested_limit = λ x. x;
                    requested_total = λ x. x;
                  })
                  (later-IsSound s.next_row_id s.transactions v.sound);
          })
  ]

  -- The entry that a method writes back is sound when the one that it read was.
  metered-IsSound :
      (n : ℕ) (k : ℤ) (tx : Transaction F) (reading : F)
      → IsSound n k tx
      → IsSound n k (metered reading tx)
  metered-IsSound n k tx reading h = record {
    keyed = h.keyed;
    row = h.row;
    in_range = h.in_range;
    metered_together = refl;
    stopped_metered = λ _. refl;
    requested_limit = h.requested_limit;
    requested_total = λ _. refl;
  }

  stopped-IsSound :
      (n : ℕ) (k : ℤ) (tx : Transaction F) (now : Time) (reading : F)
      → IsSound n k tx
      → IsSound n k (stopped now reading tx)
  stopped-IsSound n k tx now reading h = record {
    keyed = h.keyed;
    row = h.row;
    in_range = h.in_range;
    metered_together = refl;
    stopped_metered = λ _. refl;
    requested_limit = h.requested_limit;
    requested_total = λ _. refl;
  }

  pub update-IsValid :
      (s : MemoryStore F) (input : UpdateLiveMeterInput F)
      → IsValid s
      → IsValid (update_live_meter s input).1
  unfolding update_live_meter
  update-IsValid s input v = elim (Option-cases (get input.transaction_id s.transactions)) [
    | inl e ↦ rw (e, update_live_meter) v
    | inr (tx, e) ↦ elim (Bool-cases (tx.charger_id != input.charger_id)) [
      | inl b ↦ rw (e, update_live_meter, b) v
      | inr b ↦
          rw (e, update_live_meter, b)
            (write-IsValid s input.transaction_id _
              (metered-IsSound _ _ tx _ (IsSound-at s input.transaction_id tx v e)) v)
    ]
  ]

  pub stop-IsValid :
      (s : MemoryStore F) (now : Time) (input : StopTransactionInput F)
      → IsValid s
      → IsValid (stop_transaction s now input).1
  unfolding stop_transaction
  stop-IsValid s now input v = elim (Option-cases (get input.transaction_id s.transactions)) [
    | inl e ↦ rw (e, stop_transaction) v
    | inr (tx, e) ↦
        let tx' = stopped now input.meter_stop tx in
        let sound =
          stopped-IsSound s.next_row_id input.transaction_id tx now input.meter_stop
            (IsSound-at s input.transaction_id tx v e) in
        rw (e, stop_transaction)
          (ground (arith, v, write-IsValid s input.transaction_id tx' sound v))
  ]

  pub max_kwh-IsValid :
      (s : MemoryStore F) (tid : ℤ) (max : F)
      → IsValid s
      → IsValid (update_transaction_max_kwh s tid max)
  unfolding update_transaction_max_kwh
  max_kwh-IsValid s tid max v = elim (Option-cases (get tid s.transactions)) [
    | inl e ↦ rw (e, update_transaction_max_kwh) v
    | inr (tx, e) ↦
        let h = IsSound-at s tid tx v e in
        rw (e, update_transaction_max_kwh)
          (write-IsValid s tid (record tx { max_kwh = some max })
            (record {
              keyed = h.keyed;
              row = h.row;
              in_range = h.in_range;
              metered_together = h.metered_together;
              stopped_metered = h.stopped_metered;
              requested_limit = λ _. refl;
              requested_total = h.requested_total;
            })
            v)
  ]

  limit_reached-set :
      (tx : Transaction F)
      → limit_reached tx ≡ true
      → (is_some tx.max_kwh ≡ true) × (is_some tx.total_consumption ≡ true)
  unfolding limit_reached
  limit_reached-set tx h = ground arith

  pub mark-IsValid :
      (s : MemoryStore F) (c : String) (tid : ℤ)
      → IsValid s
      → IsValid (check_and_mark_limit_stop s c tid).1
  unfolding check_and_mark_limit_stop
  mark-IsValid s c tid v = elim (Option-cases (get tid s.transactions)) [
    | inl e ↦ rw (e, check_and_mark_limit_stop) v
    | inr (tx, e) ↦ elim (Bool-cases (should_mark c tx)) [
      | inr b ↦ rw (e, check_and_mark_limit_stop, b) v
      | inl b ↦
          let h = IsSound-at s tid tx v e in
          let set = limit_reached-set tx (unfold should_mark in ground arith) in
          rw (e, check_and_mark_limit_stop, b)
            (write-IsValid s tid (record tx { limit_stop_requested = true })
              (record {
                keyed = h.keyed;
                row = h.row;
                in_range = h.in_range;
                metered_together = h.metered_together;
                stopped_metered = h.stopped_metered;
                requested_limit = λ _. set.0;
                requested_total = λ _. set.1;
              })
              v)
    ]
  ]

  pub release-IsValid :
      (s : MemoryStore F) (c : String) (tid : ℤ)
      → IsValid s
      → IsValid (release_limit_stop_request s c tid)
  unfolding release_limit_stop_request
  release-IsValid s c tid v = elim (Option-cases (get tid s.transactions)) [
    | inl e ↦ rw (e, release_limit_stop_request) v
    | inr (tx, e) ↦
        let h = IsSound-at s tid tx v e in
        let tx' : Transaction F = record tx { limit_stop_requested = false } in
        let sound : IsSound s.next_row_id tid tx' = record {
          keyed = h.keyed;
          row = h.row;
          in_range = h.in_range;
          metered_together = h.metered_together;
          stopped_metered = h.stopped_metered;
          requested_limit = λ x. cc;
          requested_total = λ x. cc;
        } in
        rw (e, release_limit_stop_request) (ground (arith, v, write-IsValid s tid tx' sound v))
  ]
