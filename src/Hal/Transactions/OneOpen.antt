-- ===== src/Hal/Transactions/OneOpen.antt =====
-- OnStartTransaction over a MemoryStore, and the open transactions of a connector.
use ocpphal_go.Prelude.{
  ◌≡◌, inl, inr, refl, String, true, Option, none, some, arith, [], ◌∷◌, ℤ, Float, GoMap, get, put,
  Option-cases, Bool-cases, String_key, ℤ_key, get-put,
}
use ocpphal_go.Store.Types.{Time, Transaction, Result, ok, err}
use ocpphal_go.Store.Memory.{
  MemoryStore, Env, free_id, open_by_charger, list_open_transactions_by_charger, create_transaction,
  new_transaction,
}
use ocpphal_go.Store.Memory.Invariant.{free_id_free}
use ocpphal_go.Store.Interface.{memory_transaction_store}
use ocpphal_go.Hal.{Hal, HookSink, touched}
use ocpphal_go.Hal.Transactions.{
  StartTransactionRequest, accept, find_on_connector, on_start_transaction, start_again, start_new,
  same_start, hook_start, registered, confirm_start,
}

module _ {F : Type 0} where
  -- The transaction is open on the charger's connector.
  abbrev pub IsOpenOn : String → ℤ → Transaction F → Type 0
  IsOpenOn charger_id connector_id tx =
      (tx.charger_id ≡ charger_id) × (tx.connector_id ≡ connector_id) × (tx.stop_time ≡ none)

  -- No connector has two open transactions.
  abbrev pub OneOpen : GoMap ℤ (Transaction F) → Type 0
  OneOpen txs =
      (c : String) (k : ℤ) (i j : ℤ) (x y : Transaction F)
      → get i txs ≡ some x
      → get j txs ≡ some y
      → IsOpenOn c k x
      → IsOpenOn c k y
      → i ≡ j

module _ {F : Type 0} ⦃f : Float F⦄ where
  none_open :
      (c : String) (k : ℤ) (txs : GoMap ℤ (Transaction F)) (i : ℤ) (x : Transaction F)
      → find_on_connector k (open_by_charger c txs) ≡ none
      → get i txs ≡ some x
      → IsOpenOn c k x
      → ⊥
  unfolding find_on_connector open_by_charger get
  none_open c k [] i x n g o = cc
  none_open c k ((j, y) ∷ txs) i x n g o = ground (arith, none_open c k txs i x)

  found_open :
      (c : String) (k : ℤ) (txs : GoMap ℤ (Transaction F)) (x : Transaction F)
      → find_on_connector k (open_by_charger c txs) ≡ some x
      → IsOpenOn c k x
  unfolding find_on_connector open_by_charger
  found_open c k [] x e = cc
  found_open c k ((j, y) ∷ txs) x e = ground (arith, found_open c k txs x)

  -- The new transaction is what the next start finds.
  find_new :
      (c : String) (k : ℤ) (txs : GoMap ℤ (Transaction F)) (i : ℤ) (x : Transaction F)
      → find_on_connector k (open_by_charger c txs) ≡ none
      → get i txs ≡ none
      → IsOpenOn c k x
      → find_on_connector k (open_by_charger c (put i x txs)) ≡ some x
  unfolding find_on_connector open_by_charger get put
  find_new c k [] i x n g o = ground arith
  find_new c k ((j, y) ∷ txs) i x n g o = ground (arith, find_new c k txs i x)

  OneOpen-put :
      (c : String) (k : ℤ) (txs : GoMap ℤ (Transaction F)) (i : ℤ) (x : Transaction F)
      → find_on_connector k (open_by_charger c txs) ≡ none
      → IsOpenOn c k x
      → OneOpen txs
      → OneOpen (put i x txs)
  OneOpen-put c k txs i x n o one d l a b y z ga gb oy oz = ground (
    arith,
    get-put i a x txs,
    get-put i b x txs,
    one d l a b y z,
    none_open c k txs a y n,
    none_open c k txs b z n,
  )

-- What the handlers need of the hooks: they write to the outbox and leave the transactions alone.
abbrev pub HooksKeep : {F : Type 0} → Option (HookSink F (MemoryStore F)) → Type 0
HooksKeep none = Unit {0}
HooksKeep {F} (some sink) =
    (s : MemoryStore F) (now : Time) (tx : Transaction F)
    → (((sink.enqueue_start_transaction s now tx).1.transactions ≡ s.transactions)
        × ((sink.enqueue_completed_transaction s now tx).1.transactions ≡ s.transactions))

module _ {F : Type 0} ⦃f : Float F⦄ where
  pub hook_start_keeps :
      (hooks : Option (HookSink F (MemoryStore F)))
      → HooksKeep hooks
      → (h : Hal F (MemoryStore F)) (now : Time) (tx : Transaction F)
      → (hook_start memory_transaction_store hooks h now tx).1.store.transactions
        ≡ h.store.transactions
  hook_start_keeps none keep h now tx = refl
  hook_start_keeps (some sink) keep h now tx = (keep h.store now tx).0

  pub confirm_start_state :
      (text : String) (r : Result (Unit {0})) (h : Hal F (MemoryStore F)) (tid : ℤ)
      → (confirm_start text r h tid).1 ≡ h
  confirm_start_state text (ok _) h tid = refl
  confirm_start_state text (err _) h tid = refl

  pub start_again_keeps :
      (hooks : Option (HookSink F (MemoryStore F)))
      → HooksKeep hooks
      → (h : Hal F (MemoryStore F)) (now : Time) (c : String) (q : StartTransactionRequest)
        (x : Transaction F)
      → (start_again memory_transaction_store hooks h now c q x).1.store.transactions
        ≡ h.store.transactions
  unfolding start_again
  start_again_keeps hooks keep h now c q x = elim (Bool-cases (same_start x q)) [
    | inl b ↦
        rw (b, confirm_start_state)
          (hook_start_keeps hooks keep (registered h c q x.transaction_id now) now x)
    | inr b ↦ rw b refl
  ]

  start_new_keeps :
      (hooks : Option (HookSink F (MemoryStore F)))
      → HooksKeep hooks
      → (h : Hal F (MemoryStore F)) (env : Env) (c : String) (q : StartTransactionRequest)
      → find_on_connector q.connector_id (open_by_charger c h.store.transactions) ≡ none
      → OneOpen h.store.transactions
      → OneOpen (start_new memory_transaction_store hooks h env c q).1.store.transactions
  unfolding start_new create_transaction
  start_new_keeps hooks keep h env c q n one =
      elim (Option-cases (free_id 100 0 env.draws h.store.transactions)) [
        | inl e ↦ rw (e, start_new) one
        | inr (tid, e) ↦
            rw (e, start_new, confirm_start_state, hook_start_keeps hooks keep)
              (OneOpen-put c q.connector_id h.store.transactions tid _ n (refl, refl, refl) one)
      ]

  -- OnStartTransaction never opens a second transaction on a connector: over a MemoryStore in which
  -- no connector has two open transactions, and with hooks that leave the transactions alone, every
  -- outcome of the handler, errors included, leaves at most one open transaction per connector.
  pub on_start-OneOpen :
      (hooks : Option (HookSink F (MemoryStore F)))
      → HooksKeep hooks
      → (h : Hal F (MemoryStore F)) (env : Env) (c : String) (q : StartTransactionRequest)
      → OneOpen h.store.transactions
      → OneOpen (on_start_transaction memory_transaction_store hooks h env c q).1.store.transactions
  unfolding on_start_transaction list_open_transactions_by_charger
  on_start-OneOpen hooks keep h env c q one =
      elim (Option-cases
        (find_on_connector q.connector_id (open_by_charger c h.store.transactions))) [
          | inl n ↦
              rw (n, on_start_transaction)
                (start_new_keeps hooks keep (touched h c env.now) env c q n one)
          | inr (x, n) ↦ rw (n, on_start_transaction, start_again_keeps hooks keep) one
        ]

  confirmed_id :
      (text : String) (r : Result (Unit {0})) (h : Hal F (MemoryStore F)) (i tid : ℤ)
      → (confirm_start text r h i).0 ≡ accept tid
      → i ≡ tid
  confirmed_id text (ok _) h i tid e = ground arith
  confirmed_id text (err x) h i tid e = ground arith

  -- What the handler finds on the connector after it accepted a start.
  abbrev pub Runs : Hal F (MemoryStore F) → String → StartTransactionRequest → ℤ → Type 0
  Runs h c q tid =
      (x : Transaction F) × (find_on_connector q.connector_id
          (open_by_charger c h.store.transactions)
        ≡ some x)
      × (x.transaction_id ≡ tid)
      × (same_start x q ≡ true)

  pub again-Runs :
      (hooks : Option (HookSink F (MemoryStore F)))
      → HooksKeep hooks
      → (h : Hal F (MemoryStore F)) (now : Time) (c : String) (q : StartTransactionRequest)
        (x : Transaction F) (tid : ℤ)
      → find_on_connector q.connector_id (open_by_charger c h.store.transactions) ≡ some x
      → (start_again memory_transaction_store hooks h now c q x).0 ≡ accept tid
      → Runs (start_again memory_transaction_store hooks h now c q x).1 c q tid
  unfolding start_again
  again-Runs hooks keep h now c q x tid e a = elim (Bool-cases (same_start x q)) [
    | inl b ↦
        rw (b, confirm_start_state, hook_start_keeps hooks keep)
          (x, e, confirmed_id _ _ _ x.transaction_id tid (rw b at a), b)
    | inr b ↦ ground (arith, b)
  ]

  pub new-Runs :
      (hooks : Option (HookSink F (MemoryStore F)))
      → HooksKeep hooks
      → (h : Hal F (MemoryStore F)) (env : Env) (c : String) (q : StartTransactionRequest) (tid : ℤ)
      → f.feq (f.of_int q.meter_start) (f.of_int q.meter_start) ≡ true
      → find_on_connector q.connector_id (open_by_charger c h.store.transactions) ≡ none
      → (start_new memory_transaction_store hooks h env c q).0 ≡ accept tid
      → Runs (start_new memory_transaction_store hooks h env c q).1 c q tid
  unfolding start_new create_transaction same_start
  new-Runs hooks keep h env c q tid same n a =
      elim (Option-cases (free_id 100 0 env.draws h.store.transactions)) [
        | inl e ↦ ground (arith, e)
        | inr (i, e) ↦
            rw (e, start_new, confirm_start_state, hook_start_keeps hooks keep)
              (
                new_transaction h.store env _ i,
                find_new c q.connector_id h.store.transactions i _ n
                    (free_id_free 100 0 env.draws h.store.transactions i e).0 (refl, refl, refl),
                confirmed_id _ _ _ i tid (rw (e, start_new) at a),
                ground (arith, same),
              )
      ]
