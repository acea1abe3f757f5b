-- ===== src/Hal/Transactions/Retries.antt =====
-- A StartTransaction that a charger sends again, and one for a connector that is in use.
use ocpphal_go.Prelude.{
  ◌≡◌, ◌≢◌, ◌⊎◌, inl, inr, refl, sym, ◌∙◌, String, true, false, Option, some, arith, ℤ, Float,
  Option-cases, String_key, ℤ_key,
}
use ocpphal_go.Store.Types.{Time, Transaction, Error, wrapped, Result, ok, err}
use ocpphal_go.Store.Memory.{MemoryStore, Env, open_by_charger, list_open_transactions_by_charger}
use ocpphal_go.Store.Interface.{memory_transaction_store}
use ocpphal_go.Hal.{Hal, HookSink, touched}
use ocpphal_go.Hal.Transactions.{
  StartTransactionRequest, accept, block, find_on_connector, on_start_transaction, start_again,
  same_start, confirm_start,
}
use ocpphal_go.Hal.Transactions.OneOpen.{HooksKeep, Runs, again-Runs, new-Runs, start_again_keeps}

module _ {F : Type 0} ⦃f : Float F⦄ where
  start-Runs :
      (hooks : Option (HookSink F (MemoryStore F)))
      → HooksKeep hooks
      → (h : Hal F (MemoryStore F)) (env : Env) (c : String) (q : StartTransactionRequest) (tid : ℤ)
      → f.feq (f.of_int q.meter_start) (f.of_int q.meter_start) ≡ true
      → (on_start_transaction memory_transaction_store hooks h env c q).0 ≡ accept tid
      → Runs (on_start_transaction memory_transaction_store hooks h env c q).1 c q tid
  unfolding on_start_transaction list_open_transactions_by_charger
  start-Runs hooks keep h env c q tid same a =
      elim (Option-cases
        (find_on_connector q.connector_id (open_by_charger c h.store.transactions))) [
          | inl n ↦
              rw (n, on_start_transaction)
                (new-Runs hooks keep (touched h c env.now) env c q tid same n
                  (rw (n, on_start_transaction) at a))
          | inr (x, n) ↦
              rw (n, on_start_transaction)
                (again-Runs hooks keep (touched h c env.now) env.now c q x tid n
                  (rw (n, on_start_transaction) at a))
        ]

  on_start_found :
      (hooks : Option (HookSink F (MemoryStore F))) (h : Hal F (MemoryStore F)) (env : Env)
      (c : String) (q : StartTransactionRequest) (x : Transaction F)
      → find_on_connector q.connector_id (open_by_charger c h.store.transactions) ≡ some x
      → on_start_transaction memory_transaction_store hooks h env c q
        ≡ start_again memory_transaction_store hooks (touched h c env.now) env.now c q x
  unfolding on_start_transaction list_open_transactions_by_charger
  on_start_found hooks h env c q x n = rw (n, on_start_transaction) refl

  again_blocked :
      (hooks : Option (HookSink F (MemoryStore F))) (h : Hal F (MemoryStore F)) (now : Time)
      (c : String) (q : StartTransactionRequest) (x : Transaction F)
      → same_start x q ≡ false
      → start_again memory_transaction_store hooks h now c q x ≡ (block, h)
  unfolding start_again
  again_blocked hooks h now c q x b = rw b refl

  same_start-tag :
      (x : Transaction F) (q : StartTransactionRequest)
      → same_start x q ≡ true
      → x.id_tag ≡ q.id_tag
  unfolding same_start
  same_start-tag x q b = ground arith

  other_start :
      (x : Transaction F) (q : StartTransactionRequest)
      → x.id_tag ≢ q.id_tag
      → same_start x q ≡ false
  unfolding same_start
  other_start x q ne = ground arith

  confirm_start_result :
      (text : String) (r : Result (Unit {0})) (h : Hal F (MemoryStore F)) (tid : ℤ)
      → ((confirm_start text r h tid).0 ≡ accept tid)
        ⊎ ((e : Error) × ((confirm_start text r h tid).0 ≡ err (wrapped text e)))
  confirm_start_result text (ok _) h tid = inl refl
  confirm_start_result text (err e) h tid = inr (e, refl)

  again_result :
      (hooks : Option (HookSink F (MemoryStore F))) (h : Hal F (MemoryStore F)) (now : Time)
      (c : String) (q : StartTransactionRequest) (x : Transaction F) (tid : ℤ)
      → x.transaction_id ≡ tid
      → same_start x q ≡ true
      → ((start_again memory_transaction_store hooks h now c q x).0 ≡ accept tid)
        ⊎ ((e : Error) × ((start_again memory_transaction_store hooks h now c q x).0
              ≡ err (wrapped "enqueue retried start transaction callback" e)))
  unfolding start_again
  again_result hooks h now c q x tid i b =
      rw (← i) (rw b (confirm_start_result _ _ _ x.transaction_id))

  -- A StartTransaction that was accepted can be sent again, with any clock and any draws: the second
  -- handling opens no transaction and changes none, and it answers with the id of the first one
  -- unless the hooks fail to enqueue, in which case it returns their error. The hooks leave the
  -- transactions alone, and the reading is equal to itself as a float64.
  pub start_retry :
      (hooks : Option (HookSink F (MemoryStore F)))
      → HooksKeep hooks
      → (h : Hal F (MemoryStore F)) (env later : Env) (c : String) (q : StartTransactionRequest)
        (tid : ℤ)
      → f.feq (f.of_int q.meter_start) (f.of_int q.meter_start) ≡ true
      → (on_start_transaction memory_transaction_store hooks h env c q).0 ≡ accept tid
      → let h' = (on_start_transaction memory_transaction_store hooks h env c q).1 in
        let again = on_start_transaction memory_transaction_store hooks h' later c q in
        (again.1.store.transactions ≡ h'.store.transactions)
        × ((again.0 ≡ accept tid)
            ⊎ ((e : Error) × (again.0
                  ≡ err (wrapped "enqueue retried start transaction callback" e))))
  start_retry hooks keep h env later c q tid same a =
      let h' = (on_start_transaction memory_transaction_store hooks h env c q).1 in
      let (x, n, i, b) = start-Runs hooks keep h env c q tid same a in
      rw (on_start_found hooks h' later c q x n) (
        start_again_keeps hooks keep (touched h' c later.now) later.now c q x,
        again_result hooks (touched h' c later.now) later.now c q x tid i b,
      )

  -- Right after a start was accepted on a connector, a start there with another tag is answered
  -- Blocked, and the state changes only in that the registry notes the charger's message. The hooks
  -- leave the transactions alone, and the first reading is equal to itself as a float64.
  pub start_other_blocked :
      (hooks : Option (HookSink F (MemoryStore F)))
      → HooksKeep hooks
      → (h : Hal F (MemoryStore F)) (env later : Env) (c : String)
        (q other : StartTransactionRequest) (tid : ℤ)
      → f.feq (f.of_int q.meter_start) (f.of_int q.meter_start) ≡ true
      → (on_start_transaction memory_transaction_store hooks h env c q).0 ≡ accept tid
      → other.connector_id ≡ q.connector_id
      → other.id_tag ≢ q.id_tag
      → let h' = (on_start_transaction memory_transaction_store hooks h env c q).1 in
        on_start_transaction memory_transaction_store hooks h' later c other
        ≡ (block, touched h' c later.now)
  start_other_blocked hooks keep h env later c q other tid same a k ne =
      let h' = (on_start_transaction memory_transaction_store hooks h env c q).1 in
      let (x, n, i, b) = start-Runs hooks keep h env c q tid same a in
      rw (on_start_found hooks h' later c other x (rw k n)) (
        again_blocked hooks (touched h' c later.now) later.now c other x
          (other_start x other (λ e. ne (sym e ∙ same_start-tag x q b))))
