-- ===== src/Hal/Recovery.antt =====
-- internal/ocpp16hal/recovery.go: what becomes of the transactions that were open when a charger
-- booted.
pub mod Boot
use ocpphal_go.Prelude.{
  ℕ, zero, suc, ◌+◌, ◌*◌, String, Bool, true, false, not, ◌&&◌, Option, none, some, List, [], ◌∷◌,
  ◌++◌, ℤ, Float, get, ltb, is_some, if◌then◌else◌, ◌==◌, String_key, ℤ_key, itoa,
  trimmed_equal_fold,
}
use ocpphal_go.Store.Types.{Time, Transaction, Error, Result, ok, err}
use ocpphal_go.Store.Interface.{TransactionStore}
use ocpphal_go.Registry.{
  Registry, ConnectorState, ChargerState, snapshot, apply_start_transaction, apply_meter_value,
  apply_stop_transaction,
}
use ocpphal_go.Hal.{Hal, HookSink}
use ocpphal_go.Hal.Outbound.{CentralSystem, remote_stop_transaction, unlock_connector_call}

abbrev pub or_start : {F : Type 0} → Transaction F → F
or_start tx = elim tx.meter_stop [ none ↦ tx.meter_start | some reading ↦ reading ]

-- The tests of isGhostAvailableTransaction on the connector's state.
unfoldable pub is_ghost_on : {F : Type 0} → ConnectorState F → Transaction F → Bool
is_ghost_on conn tx =
    trimmed_equal_fold conn.status "Available"
    && (elim conn.transaction_id [ none ↦ true | some t ↦ t == tx.transaction_id ])

unfoldable pub is_ghost_available_transaction :
    {F : Type 0} ⦃f : Float F⦄ → Registry F → Transaction F → Bool
unfolding is_ghost_on
is_ghost_available_transaction r tx = elim (snapshot r tx.charger_id) [
  | none ↦ false
  | some cp ↦ elim (get (itoa tx.connector_id) cp.connectors) [
    | none ↦ false
    | some conn ↦ is_ghost_on conn tx
  ]
]

-- One pass of the loop of remoteStopAndUnlockWithRetry: what the library makes of the two calls, and
-- whether the context ends during the pause after a failure.
pub record Try : Type 0 where
  pub cs : CentralSystem
  pub times_out : Bool

-- `delay *= 2`, with the cap of one minute
abbrev pub next_retry : ℕ → ℕ
next_retry delay = if ltb 60 (delay * 2) then 60 else delay * 2

abbrev pub is_ok : {A : Type 0} → Result A → Bool
is_ok (ok _) = true
is_ok (err _) = false

-- The loop, over the passes that the context leaves time for: whether both calls went through, and
-- the pauses. A pass is not begun once the context has ended.
unfoldable pub remote_stop_and_unlock : {F : Type 0} → Transaction F → List Try → ℕ → Bool × List ℕ
unfolding remote_stop_transaction unlock_connector_call
remote_stop_and_unlock tx [] delay = (false, [])
remote_stop_and_unlock tx (t ∷ ts) delay =
    let rest = remote_stop_and_unlock tx ts (next_retry delay) in
    if is_ok (remote_stop_transaction t.cs tx.charger_id tx.transaction_id)
      && is_ok (unlock_connector_call t.cs tx.charger_id tx.connector_id)
    then (true, [])
    else if t.times_out
    then (false, delay ∷ [])
    else (rest.0, delay ∷ rest.1)

module _ {F S : Type 0} ⦃f : Float F⦄ (st : TransactionStore F S)
    (hooks : Option (HookSink F S)) where
  -- A failing hook is only logged.
  abbrev pub hook_closed : Hal F S → Time → Transaction F → Hal F S
  hook_closed h now tx = elim hooks [
    | none ↦ h
    | some sink ↦ record h { store = (sink.enqueue_completed_transaction h.store now tx).1 }
  ]

  abbrev pub ghost_closed : Hal F S → Time → Transaction F → Result (Transaction F) → Hal F S
  ghost_closed h now tx (err e) = h
  ghost_closed h now tx (ok closed) =
      hook_closed
        (record h {
          registry =
              apply_stop_transaction h.registry tx.charger_id tx.connector_id (or_start tx) now;
        })
        now closed

  unfoldable pub force_close_ghost_transaction : Hal F S → Time → Transaction F → Hal F S
  force_close_ghost_transaction h now tx =
      let (r, s) = st.force_close_transaction h.store now (record {
        charger_id = tx.charger_id;
        transaction_id = tx.transaction_id;
        meter_stop = or_start tx;
        reason = "boot_recovery_ghost_available";
      }) in
      ghost_closed (record h { store = s }) now tx r

  unfoldable pub hydrate_open_transaction : Hal F S → Time → Transaction F → Hal F S
  hydrate_open_transaction h now tx =
      let r =
        apply_start_transaction h.registry tx.charger_id tx.connector_id tx.transaction_id
          tx.meter_start now in
      elim tx.meter_stop [
        | none ↦ record h { registry = r }
        | some reading ↦ record h {
          registry =
              apply_meter_value r tx.charger_id tx.connector_id (some tx.transaction_id) reading
                now;
        }
      ]

  -- The body of the loop of recoverOpenTransactions: the state that it leaves, and the transaction
  -- that is to be stopped at the charger, if it comes to that.
  unfoldable pub recover_one :
      Hal F S → Time → String → Transaction F → Hal F S × Option (Transaction F)
  unfolding force_close_ghost_transaction hydrate_open_transaction is_ghost_available_transaction
  recover_one h now charger_id boot_tx =
      elim (st.get_by_transaction_id h.store charger_id boot_tx.transaction_id) [
        | err e ↦ (h, none)
        | ok tx ↦
            if is_some tx.stop_time
            then (h, none)
            else if is_ghost_available_transaction h.registry tx
            then (force_close_ghost_transaction h now tx, none)
            else (hydrate_open_transaction h now tx, some tx)
      ]

  -- The loop, where nothing else happens to the state during the calls to the charger.
  unfoldable pub recover_open_transactions :
      Hal F S → Time → String → List (Transaction F) → Hal F S × List (Transaction F)
  unfolding recover_one
  recover_open_transactions h now charger_id [] = (h, [])
  recover_open_transactions h now charger_id (boot_tx ∷ rest) =
      let (h', stop) = recover_one h now charger_id boot_tx in
      let (h'', stops) = recover_open_transactions h' now charger_id rest in
      (h'', elim stop [ none ↦ stops | some tx ↦ tx ∷ stops ])
