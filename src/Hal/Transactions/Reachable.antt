-- ===== src/Hal/Transactions/Reachable.antt =====
-- The transaction messages of chargers, in any order, over a MemoryStore.
use ocpphal_go.Prelude.{
  ◌≡◌, inl, inr, refl, String, Option, none, some, arith, List, [], ◌∷◌, ℤ, Float, GoMap, get, put,
  is_some, Option-cases, Bool-cases, String_key, ℤ_key, get-put, ◌==◌, ◌!=◌,
}
use ocpphal_go.Store.Types.{
  Time, Transaction, UpdateLiveMeterInput, StopTransactionInput, Result, ok, err,
}
use ocpphal_go.Store.Memory.{MemoryStore, Env, update_live_meter, stop_transaction}
use ocpphal_go.Store.Memory.LimitStop.{check_and_mark_limit_stop, should_mark}
use ocpphal_go.Store.Interface.{memory_transaction_store}
use ocpphal_go.Hal.{Hal, HookSink}
use ocpphal_go.Hal.Meter.{extract_meter_value_wh}
use ocpphal_go.Hal.Transactions.{
  StartTransactionRequest, MeterValuesRequest, StopTransactionRequest, on_start_transaction,
  on_meter_values, on_stop_transaction, check_and_request_limit_stop, after_update, live_update,
  hook_completed, stop_hooked, stop_stored,
}
use ocpphal_go.Hal.Transactions.OneOpen.{OneOpen, IsOpenOn, HooksKeep, on_start-OneOpen}

module _ {F : Type 0} where
  -- The entry keeps its connector, and is open only if it was.
  abbrev pub Narrows : Transaction F → Transaction F → Type 0
  Narrows x y =
      (y.charger_id ≡ x.charger_id)
      × (y.connector_id ≡ x.connector_id)
      × (y.stop_time ≡ none → x.stop_time ≡ none)

  before :
      (txs : GoMap ℤ (Transaction F)) (i : ℤ) (x y : Transaction F) (c : String) (k a : ℤ)
      (p : Transaction F)
      → get i txs ≡ some x
      → Narrows x y
      → get a (put i y txs) ≡ some p
      → IsOpenOn c k p
      → (q : Transaction F) × (get a txs ≡ some q) × IsOpenOn c k q
  before txs i x y c k a p g n h o = elim (Bool-cases (i == a)) [
    | inl b ↦
        let e : y ≡ p = ground (arith, get-put i a y txs, b, h) in
        (x, ground (arith, b, g), ground (arith, n, e, o))
    | inr b ↦ (p, ground (arith, get-put i a y txs, b, h), o)
  ]

  narrowed-OneOpen :
      (txs : GoMap ℤ (Transaction F)) (i : ℤ) (x y : Transaction F)
      → get i txs ≡ some x
      → Narrows x y
      → OneOpen txs
      → OneOpen (put i y txs)
  narrowed-OneOpen txs i x y g n one c k a b p q ga gb op oq =
      let (p', hp, op') = before txs i x y c k a p g n ga op in
      let (q', hq, oq') = before txs i x y c k b q g n gb oq in one c k a b p' q' hp hq op' oq'

module _ {F : Type 0} ⦃f : Float F⦄ where
  update-OneOpen :
      (s : MemoryStore F) (input : UpdateLiveMeterInput F)
      → OneOpen s.transactions
      → OneOpen (update_live_meter s input).1.transactions
  unfolding update_live_meter
  update-OneOpen s input one = elim (Option-cases (get input.transaction_id s.transactions)) [
    | inl e ↦ rw (e, update_live_meter) one
    | inr (x, e) ↦ elim (Bool-cases (x.charger_id != input.charger_id)) [
      | inl b ↦ rw (e, update_live_meter, b) one
      | inr b ↦
          rw (e, update_live_meter, b)
            (narrowed-OneOpen s.transactions input.transaction_id x _ e (refl, refl, λ o. o) one)
    ]
  ]

  stop-OneOpen :
      (s : MemoryStore F) (now : Time) (input : StopTransactionInput F)
      → OneOpen s.transactions
      → OneOpen (stop_transaction s now input).1.transactions
  unfolding stop_transaction
  stop-OneOpen s now input one = elim (Option-cases (get input.transaction_id s.transactions)) [
    | inl e ↦ rw (e, stop_transaction) one
    | inr (x, e) ↦ elim (Bool-cases (x.charger_id != input.charger_id)) [
      | inl b ↦ rw (e, stop_transaction, b) one
      | inr b ↦ elim (Bool-cases (is_some x.stop_time)) [
        | inl c ↦ rw (e, stop_transaction, b, c) one
        | inr c ↦
            rw (e, stop_transaction, b, c)
              (narrowed-OneOpen s.transactions input.transaction_id x _ e (refl, refl, λ o. cc) one)
      ]
    ]
  ]

  mark-OneOpen :
      (s : MemoryStore F) (c : String) (tid : ℤ)
      → OneOpen s.transactions
      → OneOpen (check_and_mark_limit_stop s c tid).1.transactions
  unfolding check_and_mark_limit_stop
  mark-OneOpen s c tid one = elim (Option-cases (get tid s.transactions)) [
    | inl e ↦ rw (e, check_and_mark_limit_stop) one
    | inr (x, e) ↦ elim (Bool-cases (should_mark c x)) [
      | inl b ↦
          rw (e, check_and_mark_limit_stop, b)
            (narrowed-OneOpen s.transactions tid x _ e (refl, refl, λ o. o) one)
      | inr b ↦ rw (e, check_and_mark_limit_stop, b) one
    ]
  ]

module _ {F : Type 0} ⦃f : Float F⦄ where
  pub completed-keep :
      (hooks : Option (HookSink F (MemoryStore F)))
      → HooksKeep hooks
      → (h : Hal F (MemoryStore F)) (now : Time) (tx : Transaction F)
      → (hook_completed memory_transaction_store hooks h now tx).1.store.transactions
        ≡ h.store.transactions
  completed-keep none keep h now tx = refl
  completed-keep (some sink) keep h now tx = (keep h.store now tx).1

module _ {F : Type 0} ⦃f : Float F⦄ (hooks : Option (HookSink F (MemoryStore F)))
    (keep : HooksKeep hooks) where
  limit-OneOpen :
      (h : Hal F (MemoryStore F)) (c : String) (tid : ℤ)
      → OneOpen h.store.transactions
      → OneOpen
          (check_and_request_limit_stop memory_transaction_store hooks h c tid).store.transactions
  unfolding check_and_request_limit_stop
  limit-OneOpen h c tid one = elim (Bool-cases (check_and_mark_limit_stop h.store c tid).0) [
    | inl b ↦ rw (b, check_and_request_limit_stop) (mark-OneOpen h.store c tid one)
    | inr b ↦ rw (b, check_and_request_limit_stop) (mark-OneOpen h.store c tid one)
  ]

  updated-OneOpen :
      (h : Hal F (MemoryStore F)) (c : String) (tid : ℤ) (r : Result (Transaction F))
      → OneOpen h.store.transactions
      → OneOpen (after_update memory_transaction_store hooks h c tid r).store.transactions
  updated-OneOpen h c tid (ok x) one = limit-OneOpen h c tid one
  updated-OneOpen h c tid (err e) one = one

  live-OneOpen :
      (h : Hal F (MemoryStore F)) (c : String) (reading : F) (tid : Option ℤ)
      → OneOpen h.store.transactions
      → OneOpen (live_update memory_transaction_store hooks h c reading tid).store.transactions
  live-OneOpen h c reading none one = one
  live-OneOpen h c reading (some tid) one = updated-OneOpen _ c tid _ (update-OneOpen h.store _ one)

  meter-OneOpen :
      (h : Hal F (MemoryStore F)) (now : Time) (c : String) (q : MeterValuesRequest)
      → OneOpen h.store.transactions
      → OneOpen (on_meter_values memory_transaction_store hooks h now c q).store.transactions
  unfolding on_meter_values
  meter-OneOpen h now c q one = elim (Option-cases (extract_meter_value_wh ⦃f = f⦄ q.meter_value)) [
    | inl e ↦ rw (e, on_meter_values) one
    | inr (v, e) ↦ rw (e, on_meter_values) (live-OneOpen _ c v _ one)
  ]

  hooked-keep :
      (h : Hal F (MemoryStore F)) (now : Time) (c : String) (q : StopTransactionRequest)
      (tx : Transaction F) (r : Result (Unit {0}))
      → (stop_hooked memory_transaction_store hooks now c q tx r h).1.store ≡ h.store
  hooked-keep h now c q tx (ok _) = refl
  hooked-keep h now c q tx (err e) = refl

  stored-OneOpen :
      (h : Hal F (MemoryStore F)) (now : Time) (c : String) (q : StopTransactionRequest)
      (r : Result (Transaction F))
      → OneOpen h.store.transactions
      → OneOpen (stop_stored memory_transaction_store hooks h now c q r).1.store.transactions
  stored-OneOpen h now c q (err e) one = one
  stored-OneOpen h now c q (ok tx) one = rw (hooked-keep, completed-keep hooks keep) one

  on_stop-OneOpen :
      (h : Hal F (MemoryStore F)) (now : Time) (c : String) (q : StopTransactionRequest)
      → OneOpen h.store.transactions
      → OneOpen (on_stop_transaction memory_transaction_store hooks h now c q).1.store.transactions
  unfolding on_stop_transaction
  on_stop-OneOpen h now c q one = stored-OneOpen _ now c q _ (stop-OneOpen h.store now _ one)

-- A charger's message, with the clock and the draws that its handling meets.
pub data Message : Type 0 where
  start : Env → String → StartTransactionRequest → Message
  meter : Time → String → MeterValuesRequest → Message
  stop : Time → String → StopTransactionRequest → Message

module _ {F : Type 0} ⦃f : Float F⦄ (hooks : Option (HookSink F (MemoryStore F))) where
  unfoldable pub handle : Hal F (MemoryStore F) → Message → Hal F (MemoryStore F)
  handle h (start env c q) = (on_start_transaction memory_transaction_store hooks h env c q).1
  handle h (meter now c q) = on_meter_values memory_transaction_store hooks h now c q
  handle h (stop now c q) = (on_stop_transaction memory_transaction_store hooks h now c q).1

  unfoldable pub handle_all : Hal F (MemoryStore F) → List Message → Hal F (MemoryStore F)
  handle_all h [] = h
  handle_all h (m ∷ ms) = handle_all (handle h m) ms

  handle-OneOpen :
      (h : Hal F (MemoryStore F)) (m : Message)
      → HooksKeep hooks
      → OneOpen h.store.transactions
      → OneOpen (handle h m).store.transactions
  unfolding handle
  handle-OneOpen h (start env c q) keep one = on_start-OneOpen hooks keep h env c q one
  handle-OneOpen h (meter now c q) keep one = meter-OneOpen hooks keep h now c q one
  handle-OneOpen h (stop now c q) keep one = on_stop-OneOpen hooks keep h now c q one

  -- After any StartTransaction, MeterValues and StopTransaction messages of any chargers, in any order
  -- and with any outcome of each, no connector has two open transactions, if none had before the
  -- first message. The store is a MemoryStore, one message is handled after the other, and the hooks
  -- leave the transactions alone.
  pub handle_all-OneOpen :
      (h : Hal F (MemoryStore F)) (ms : List Message)
      → HooksKeep hooks
      → OneOpen h.store.transactions
      → OneOpen (handle_all h ms).store.transactions
  unfolding handle_all
  handle_all-OneOpen h [] keep one = one
  handle_all-OneOpen h (m ∷ ms) keep one =
      handle_all-OneOpen (handle h m) ms keep (handle-OneOpen h m keep one)
