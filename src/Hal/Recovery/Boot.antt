-- ===== src/Hal/Recovery/Boot.antt =====
-- What the recovery after a boot does with each transaction that was open.
use ocpphal_go.Prelude.{
  ℕ, ◌≤◌, ◌≡◌, sym, subst, ◌⊎◌, inl, inr, refl, String, Bool, true, false, ◌&&◌, Option, none, some,
  arith, List, [], ◌∷◌, Float, All, get, get-put_self, is_some, if◌then◌else◌, Option-cases,
  Bool-cases, ◌!=◌, String_key, ℤ_key, get-Entries,
}
use ocpphal_go.Store.Types.{Time, Transaction, StopTransactionInput, ok}
use ocpphal_go.Store.Memory.{
  MemoryStore, force_close_transaction, get_by_transaction_id, stop_transaction, stopped, write,
}
use ocpphal_go.Store.Memory.Invariant.{IsSound, IsValid}
use ocpphal_go.Store.Interface.{memory_transaction_store}
use ocpphal_go.Registry.{apply_start_transaction, transaction_id_for_connector}
use ocpphal_go.Registry.Transactions.{transaction_shown}
use ocpphal_go.Hal.{Hal, HookSink}
use ocpphal_go.Hal.Transactions.OneOpen.{HooksKeep}
use ocpphal_go.Hal.Outbound.{remote_stop_transaction, unlock_connector_call}
use ocpphal_go.Hal.Recovery.{
  Try, next_retry, is_ok, or_start, is_ghost_available_transaction, remote_stop_and_unlock,
  hook_closed, force_close_ghost_transaction, hydrate_open_transaction, recover_one,
}

-- Both calls of this pass went through.
abbrev pub went_through : {F : Type 0} → Transaction F → Try → Bool
went_through tx t =
    is_ok (remote_stop_transaction t.cs tx.charger_id tx.transaction_id)
    && is_ok (unlock_connector_call t.cs tx.charger_id tx.connector_id)

abbrev pub SomeThrough : {F : Type 0} → Transaction F → List Try → Type 0
SomeThrough tx [] = ⊥
SomeThrough tx (t ∷ ts) = (went_through tx t ≡ true) ⊎ SomeThrough tx ts

unlock_pauses :
    {F : Type 0} (tx : Transaction F) (ts : List Try) (delay : ℕ)
    → delay ≤ 60
    → All (λ p. p ≤ 60) (remote_stop_and_unlock tx ts delay).1
unfolding remote_stop_and_unlock
unlock_pauses tx [] delay h = tt
unlock_pauses tx (t ∷ ts) delay h =
    let rest = unlock_pauses tx ts (next_retry delay) (ground arith) in
    elim (Bool-cases (went_through tx t)) [
      | inl b ↦ rw (b, remote_stop_and_unlock) tt
      | inr b ↦ elim (Bool-cases t.times_out) [
        | inl o ↦ rw (b, remote_stop_and_unlock, o) (h, tt)
        | inr o ↦ rw (b, remote_stop_and_unlock, o) (h, rest)
      ]
    ]

unlock_through :
    {F : Type 0} (tx : Transaction F) (ts : List Try) (delay : ℕ)
    → (remote_stop_and_unlock tx ts delay).0 ≡ true
    → SomeThrough tx ts
unfolding remote_stop_and_unlock
unlock_through tx [] delay h = cc
unlock_through tx (t ∷ ts) delay h = elim (Bool-cases (went_through tx t)) [
  | inl b ↦ inl b
  | inr b ↦ elim (Bool-cases t.times_out) [
    | inl o ↦ ground (arith, b, o, h)
    | inr o ↦ inr (unlock_through tx ts (next_retry delay) (ground (arith, b, o, h)))
  ]
]

-- remoteStopAndUnlockWithRetry, started with its two seconds, pauses for a minute at most between two
-- passes. When it ends with a success, both calls of one pass went through, and when the first pass
-- goes through it ends at once, without a pause.
pub remote_stop_and_unlock_lem :
    {F : Type 0} (tx : Transaction F) (t : Try) (ts : List Try)
    → let (closed, pauses) = remote_stop_and_unlock tx (t ∷ ts) 2 in
      All (λ p. p ≤ 60) pauses
      × (closed ≡ true → SomeThrough tx (t ∷ ts))
      × (went_through tx t ≡ true → (closed ≡ true) × (pauses ≡ []))
remote_stop_and_unlock_lem tx t ts = (
  unlock_pauses tx (t ∷ ts) 2 (omega arith),
  unlock_through tx (t ∷ ts) 2,
  λ b. unfold remote_stop_and_unlock in rw (b, remote_stop_and_unlock) (refl, refl),
)

is_own : (a b : String) → (a != b) ≡ false → a ≡ b
is_own a b h = ground arith

module _ {F : Type 0} ⦃f : Float F⦄ where
  hook_closed-keeps :
      (hooks : Option (HookSink F (MemoryStore F)))
      → HooksKeep hooks
      → (h : Hal F (MemoryStore F)) (now : Time) (tx : Transaction F)
      → (hook_closed memory_transaction_store hooks h now tx).store.transactions
        ≡ h.store.transactions
  hook_closed-keeps none keep h now tx = refl
  hook_closed-keeps (some sink) keep h now tx = (keep h.store now tx).1

  stop_open :
      (s : MemoryStore F) (now : Time) (input : StopTransactionInput F) (tx : Transaction F)
      → get input.transaction_id s.transactions ≡ some tx
      → tx.charger_id ≡ input.charger_id
      → is_some tx.stop_time ≡ false
      → stop_transaction s now input ≡ (
        ok (stopped now input.meter_stop tx),
        write s input.transaction_id (stopped now input.meter_stop tx),
      )
  unfolding stop_transaction
  stop_open s now input tx e o c = rw (e, stop_transaction, c) (ground (arith, o))

  ghost_stopped :
      (hooks : Option (HookSink F (MemoryStore F)))
      → HooksKeep hooks
      → (h : Hal F (MemoryStore F)) (now : Time) (tx : Transaction F)
      → get tx.transaction_id h.store.transactions ≡ some tx
      → is_some tx.stop_time ≡ false
      → get tx.transaction_id
          (force_close_ghost_transaction memory_transaction_store hooks h now tx).store.transactions
        ≡ some (stopped now (or_start tx) tx)
  unfolding force_close_ghost_transaction force_close_transaction
  ghost_stopped hooks keep h now tx e o =
      rw
        (
          stop_open h.store now
              (record {
                charger_id = tx.charger_id;
                transaction_id = tx.transaction_id;
                meter_stop = or_start tx;
              })
              tx e refl o,
          hook_closed-keeps hooks keep,
        )
        (get-put_self tx.transaction_id _ h.store.transactions)

  hydrated_shown :
      (hooks : Option (HookSink F (MemoryStore F))) (h : Hal F (MemoryStore F)) (now : Time)
      (tx : Transaction F)
      → (transaction_id_for_connector
            (hydrate_open_transaction memory_transaction_store hooks h now tx).registry
            tx.charger_id
            tx.connector_id
          ≡ some tx.transaction_id)
        × ((hydrate_open_transaction memory_transaction_store hooks h now tx).store ≡ h.store)
  unfolding hydrate_open_transaction
  hydrated_shown hooks h now tx = elim (Option-cases tx.meter_stop) [
    | inl e ↦
        rw (e, hydrate_open_transaction)
          (
            (transaction_shown h.registry tx.charger_id tx.connector_id tx.transaction_id
                tx.meter_start now).0,
            refl,
          )
    | inr (m, e) ↦
        rw (e, hydrate_open_transaction)
          (
            (transaction_shown
                (apply_start_transaction h.registry tx.charger_id tx.connector_id tx.transaction_id
                  tx.meter_start now)
                tx.charger_id tx.connector_id tx.transaction_id m now).2,
            refl,
          )
  ]

  -- How recover_one leaves a transaction that is open at its charger: a ghost is closed in the store,
  -- with the last reading, and not asked for at the charger; any other one is to be stopped at the
  -- charger, stays as it is in the store, and is shown on its connector again.
  abbrev pub IsRecovered :
      Hal F (MemoryStore F)
      → Time
      → Transaction F
      → Hal F (MemoryStore F) × Option (Transaction F)
      → Type 0
  IsRecovered h now tx (h', stop) =
      ((is_ghost_available_transaction h.registry tx ≡ true)
        × (stop ≡ none)
        × (get tx.transaction_id h'.store.transactions ≡ some (stopped now (or_start tx) tx)))
      ⊎ ((is_ghost_available_transaction h.registry tx ≡ false)
          × (stop ≡ some tx)
          × (h'.store ≡ h.store)
          × (transaction_id_for_connector h'.registry tx.charger_id tx.connector_id
              ≡ some tx.transaction_id))

  IsRecovered-open :
      (hooks : Option (HookSink F (MemoryStore F)))
      → HooksKeep hooks
      → (h : Hal F (MemoryStore F)) (now : Time) (tx : Transaction F)
      → get tx.transaction_id h.store.transactions ≡ some tx
      → is_some tx.stop_time ≡ false
      → IsRecovered h now tx (
          if is_ghost_available_transaction h.registry tx
          then (force_close_ghost_transaction memory_transaction_store hooks h now tx, none)
          else (hydrate_open_transaction memory_transaction_store hooks h now tx, some tx))
  IsRecovered-open hooks keep h now tx e o =
      elim (Bool-cases (is_ghost_available_transaction h.registry tx)) [
        | inl b ↦ rw b (inl (refl, refl, ghost_stopped hooks keep h now tx e o))
        | inr b ↦
            let (again, same) = hydrated_shown hooks h now tx in
            rw b (inr (refl, refl, same, again))
      ]

  -- The recovery of one transaction after a boot, over a valid MemoryStore: where the charger has no
  -- such transaction, or it was stopped since, nothing changes; else it is recovered as IsRecovered
  -- says.
  pub recover_one_lem :
      (hooks : Option (HookSink F (MemoryStore F)))
      → HooksKeep hooks
      → (h : Hal F (MemoryStore F)) (now : Time) (c : String) (boot : Transaction F)
      → IsValid h.store
      → let after = recover_one memory_transaction_store hooks h now c boot in
        ((after ≡ (h, none))
          × ((tx : Transaction F)
              → get boot.transaction_id h.store.transactions ≡ some tx
              → tx.charger_id ≡ c
              → is_some tx.stop_time ≡ true))
        ⊎ ((tx : Transaction F) × (get boot.transaction_id h.store.transactions ≡ some tx)
            × (tx.charger_id ≡ c)
            × (is_some tx.stop_time ≡ false)
            × IsRecovered h now tx after)
  unfolding recover_one get_by_transaction_id
  recover_one_lem hooks keep h now c boot v =
      elim (Option-cases (get boot.transaction_id h.store.transactions)) [
        | inl e ↦ inl (rw (e, recover_one) (refl, λ tx g. cc (e, g)))
        | inr (tx, e) ↦ elim (Bool-cases (tx.charger_id != c)) [
          | inl b ↦ inl (rw (e, recover_one, b) (refl, λ x g o. ground (arith, b, e, g, o)))
          | inr b ↦ elim (Bool-cases (is_some tx.stop_time)) [
            | inl s ↦ inl (rw (e, recover_one, b, s) (refl, λ x g o. ground (arith, s, e, g)))
            | inr s ↦ inr (
              tx,
              e,
              is_own _ _ b,
              s,
              (let keyed =
                    (get-Entries (IsSound h.store.next_row_id) boot.transaction_id tx
                      h.store.transactions v.sound e).keyed in
                  rw (e, recover_one, b, s)
                    (IsRecovered-open hooks keep h now tx
                      (subst (λ k. get k h.store.transactions ≡ some tx) (sym keyed) e) s)),
            )
          ]
        ]
      ]
