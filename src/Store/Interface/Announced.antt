-- ===== src/Store/Interface/Announced.antt =====
-- The store with updates of transaction_updates.go, against the store inside it.
use ocpphal_go.Prelude.{ℕ, ◌≡◌, refl, String, true, ℤ, get, ℕ_key, ℤ_key}
use ocpphal_go.Store.Types.{
  UpdateLiveMeterInput, StopTransactionInput, ForceCloseTransactionInput, Time, Error, Result, ok,
  err,
}
use ocpphal_go.Store.Updates.{TransactionUpdates, publish, receive, inner}
use ocpphal_go.Store.Updates.Signals.{Subscribed, signal_all_sets}
use ocpphal_go.Store.Interface.{TransactionStore, publish_ok, with_transaction_updates}

-- The outer call has the inner one's result and store, wakes the subscriber when it succeeds, and
-- sends nothing when it fails.
abbrev pub Announces :
    {A S : Type 0}
    → TransactionUpdates
    → ℕ
    → Result A × S
    → Result A × (S × TransactionUpdates)
    → Type 0
Announces {A} u id within outer =
    (outer.0 ≡ within.0)
    × (outer.1.0 ≡ within.1)
    × ((a : A) → outer.0 ≡ ok a → (receive outer.1.1 id).0 ≡ true)
    × ((e : Error) → outer.0 ≡ err e → outer.1.1 ≡ u)

publish-receive :
    (u : TransactionUpdates) (tid : ℤ) (id : ℕ)
    → Subscribed u tid id
    → (receive (publish u tid) id).0 ≡ true
unfolding publish receive
publish-receive u tid id h =
    rw (signal_all_sets (inner (get tid u.subscribers)) u.signals id h, receive) refl

publish_ok-Announces :
    {A S : Type 0} (r : Result A) (s : S) (u : TransactionUpdates) (tid : ℤ) (id : ℕ)
    → Subscribed u tid id
    → Announces u id (r, s) (r, (s, publish_ok r u tid))
publish_ok-Announces (ok a) s u tid id h =
    (refl, refl, λ b e. publish-receive u tid id h, λ x e. cc)
publish_ok-Announces (err x) s u tid id h = (refl, refl, λ b e. cc, λ y e. refl)

-- Around any store, WithTransactionUpdates makes every change of a transaction that succeeds wake the
-- transaction's live subscribers, for the changes by UpdateLiveMeter, StopTransaction,
-- ForceCloseTransaction, UpdateTransactionMaxKWh and ReleaseLimitStopRequest. It returns what the
-- store inside returns, leaves it in the same state, and sends nothing when the call fails.
pub with_transaction_updates-Announces :
    {F S : Type 0} (st : TransactionStore F S) (s : S) (u : TransactionUpdates) (tid : ℤ) (id : ℕ)
    (c : String) (reading : F) (now : Time) (reason : String)
    → Subscribed u tid id
    → let w = with_transaction_updates st in
      let update : UpdateLiveMeterInput F = record {
        charger_id = c;
        transaction_id = tid;
        meter_stop = reading;
      } in
      let stop : StopTransactionInput F = record {
        charger_id = c;
        transaction_id = tid;
        meter_stop = reading;
      } in
      let close : ForceCloseTransactionInput F = record {
        charger_id = c;
        transaction_id = tid;
        meter_stop = reading;
        reason = reason;
      } in
      Announces u id (st.update_live_meter s update) (w.update_live_meter (s, u) update)
      × Announces u id (st.stop_transaction s now stop) (w.stop_transaction (s, u) now stop)
      × Announces u id
          (st.force_close_transaction s now close)
          (w.force_close_transaction (s, u) now close)
      × Announces u id
          (st.update_transaction_max_kwh s tid reading)
          (w.update_transaction_max_kwh (s, u) tid reading)
      × Announces u id
          (st.release_limit_stop_request s c tid)
          (w.release_limit_stop_request (s, u) c tid)
unfolding with_transaction_updates
with_transaction_updates-Announces st s u tid id c reading now reason h = (
  publish_ok-Announces _ _ u tid id h,
  publish_ok-Announces _ _ u tid id h,
  publish_ok-Announces _ _ u tid id h,
  publish_ok-Announces _ _ u tid id h,
  publish_ok-Announces _ _ u tid id h,
)
