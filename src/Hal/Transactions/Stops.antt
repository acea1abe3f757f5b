-- ===== src/Hal/Transactions/Stops.antt =====
-- What a StopTransaction that was handled leaves behind.
use ocpphal_go.Prelude.{
  ◌≡◌, refl, String, true, Option, none, some, ℤ, pos, Float, get, is_some, String_key, ℤ_key,
}
use ocpphal_go.Store.Types.{Time, Transaction, Result, ok, err}
use ocpphal_go.Store.Memory.{MemoryStore}
use ocpphal_go.Store.Memory.Billing.{stop_stores}
use ocpphal_go.Store.Interface.{memory_transaction_store}
use ocpphal_go.Registry.{transaction_id_for_connector}
use ocpphal_go.Registry.Transactions.{transaction_shown}
use ocpphal_go.Hal.{Hal, HookSink}
use ocpphal_go.Hal.Transactions.{
  StopTransactionRequest, on_stop_transaction, hook_completed, stop_hooked, stop_stored,
}
use ocpphal_go.Hal.Transactions.OneOpen.{HooksKeep}
use ocpphal_go.Hal.Transactions.Reachable.{completed-keep}

module _ {F : Type 0} ⦃f : Float F⦄ where
  -- The transaction of the message is the charger's own, is stopped in the store, and no longer shown
  -- on its connector.
  abbrev pub IsEnded : Hal F (MemoryStore F) → String → ℤ → Type 0
  IsEnded h c tid =
      (tx : Transaction F) × (get tid h.store.transactions ≡ some tx)
      × (tx.charger_id ≡ c)
      × (is_some tx.stop_time ≡ true)
      × (transaction_id_for_connector h.registry c tx.connector_id ≡ none)

module _ {F : Type 0} ⦃f : Float F⦄ (hooks : Option (HookSink F (MemoryStore F))) (now : Time)
    (c : String) (q : StopTransactionRequest) where
  hooked-IsEnded :
      (h : Hal F (MemoryStore F)) (tx : Transaction F) (r : Result (Unit {0}))
      → get q.transaction_id h.store.transactions ≡ some tx
      → tx.charger_id ≡ c
      → is_some tx.stop_time ≡ true
      → (stop_hooked memory_transaction_store hooks now c q tx r h).0 ≡ ok tt
      → IsEnded (stop_hooked memory_transaction_store hooks now c q tx r h).1 c q.transaction_id
  hooked-IsEnded h tx (ok _) g o s e = (
    tx,
    g,
    o,
    s,
    (transaction_shown h.registry c tx.connector_id (pos 0) (f.of_int q.meter_stop) now).4,
  )
  hooked-IsEnded h tx (err x) g o s e = cc

  stored-IsEnded :
      (h : Hal F (MemoryStore F)) (r : Result (Transaction F))
      → HooksKeep hooks
      → ((tx : Transaction F)
          → r ≡ ok tx
          → (get q.transaction_id h.store.transactions ≡ some tx)
            × (tx.charger_id ≡ c)
            × (is_some tx.stop_time ≡ true))
      → (stop_stored memory_transaction_store hooks h now c q r).0 ≡ ok tt
      → IsEnded (stop_stored memory_transaction_store hooks h now c q r).1 c q.transaction_id
  stored-IsEnded h (err x) keep own e = cc
  stored-IsEnded h (ok tx) keep own e =
      let (g, o, s) = own tx refl in
      hooked-IsEnded (hook_completed memory_transaction_store hooks h now tx).1 tx
        (hook_completed memory_transaction_store hooks h now tx).0
        (rw (completed-keep hooks keep) g) o s e

  -- When OnStopTransaction returns no error, over a MemoryStore and with hooks that leave the
  -- transactions alone, the transaction that the message names belongs to the charger, is stopped in
  -- the store, and the registry shows no transaction on its connector.
  pub on_stop-IsEnded :
      (h : Hal F (MemoryStore F))
      → HooksKeep hooks
      → (on_stop_transaction memory_transaction_store hooks h now c q).0 ≡ ok tt
      → IsEnded (on_stop_transaction memory_transaction_store hooks h now c q).1 c q.transaction_id
  unfolding on_stop_transaction
  on_stop-IsEnded h keep e = stored-IsEnded _ _ keep (λ tx r. stop_stores h.store now _ tx r) e
