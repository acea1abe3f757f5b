-- ===== src/Store/Memory/Run.antt =====
-- Histories of a MemoryStore: the methods that change it, in any order.
use ocpphal_go.Prelude.{arith, ℕ, ◌≡◌, refl, String, List, [], ◌∷◌, ℤ, Float}
use ocpphal_go.Store.Types.{
  Time, CreateTransactionInput, UpdateLiveMeterInput, StopTransactionInput,
  ForceCloseTransactionInput, EnqueueCallbackInput,
}
use ocpphal_go.Store.Memory.{
  MemoryStore, Env, new_memory_store, create_transaction, update_live_meter, stop_transaction,
  force_close_transaction, update_transaction_max_kwh,
}
use ocpphal_go.Store.Memory.LimitStop.{check_and_mark_limit_stop, release_limit_stop_request}
use ocpphal_go.Store.Memory.Outbox.{
  enqueue_callback, claim_due_callbacks, mark_callback_sent, mark_callback_retry,
  mark_callback_fatal,
}
use ocpphal_go.Store.Memory.Invariant
use ocpphal_go.Store.Memory.Invariant.{
  create-IsValid, update-IsValid, stop-IsValid, max_kwh-IsValid, mark-IsValid, release-IsValid,
}
use ocpphal_go.Store.Memory.Outbox.Unique
use ocpphal_go.Store.Memory.Outbox.Unique.{
  enqueue-IsValid, claim_due-IsValid, sent-IsValid, retry-IsValid, fatal-IsValid,
}

pub data Op (F : Type 0) : Type 0 where
  create : Env → CreateTransactionInput F → Op F
  update : UpdateLiveMeterInput F → Op F
  stop : Time → StopTransactionInput F → Op F
  force_close : Time → ForceCloseTransactionInput F → Op F
  set_max : ℤ → F → Op F
  mark : String → ℤ → Op F
  release : String → ℤ → Op F
  enqueue : Time → EnqueueCallbackInput → Op F
  claims : Time → ℕ → Op F
  sends : ℕ → Op F
  retries : ℕ → ℕ → Time → String → Op F
  fails : ℕ → String → Op F

module _ {F : Type 0} ⦃f : Float F⦄ where
  unfoldable pub step : MemoryStore F → Op F → MemoryStore F
  step s (create env input) = (create_transaction s env input).1
  step s (update input) = (update_live_meter s input).1
  step s (stop now input) = (stop_transaction s now input).1
  step s (force_close now input) = (force_close_transaction s now input).1
  step s (set_max tid max) = update_transaction_max_kwh s tid max
  step s (mark c tid) = (check_and_mark_limit_stop s c tid).1
  step s (release c tid) = release_limit_stop_request s c tid
  step s (enqueue now input) = (enqueue_callback s now input).1
  step s (claims now limit) = (claim_due_callbacks s now limit).1
  step s (sends id) = mark_callback_sent s id
  step s (retries id n at e) = mark_callback_retry s id n at e
  step s (fails id e) = mark_callback_fatal s id e

  unfoldable pub run : MemoryStore F → List (Op F) → MemoryStore F
  run s [] = s
  run s (o ∷ os) = run (step s o) os

  -- The invariant of the whole store.
  pub record IsValid (s : MemoryStore F) : Type 0 where
    pub transactions : Invariant.IsValid s
    pub outbox : Unique.IsValid s

  -- A method of one half leaves the other as it was.
  abbrev KeepsOutbox : MemoryStore F → MemoryStore F → Type 0
  KeepsOutbox s t = (t.outbox ≡ s.outbox) × (t.memory_outbox_id ≡ s.memory_outbox_id)

  abbrev pub KeepsTransactions : MemoryStore F → MemoryStore F → Type 0
  KeepsTransactions s t = (t.transactions ≡ s.transactions) × (t.next_row_id ≡ s.next_row_id)

  with_outbox : (s t : MemoryStore F) → KeepsOutbox s t → Unique.IsValid s → Unique.IsValid t
  with_outbox s t (o, i) v = rw (o, i) v

  with_transactions :
      (s t : MemoryStore F) → KeepsTransactions s t → Invariant.IsValid s → Invariant.IsValid t
  with_transactions s t (m, n) v = record { distinct = rw m v.distinct; sound = rw (m, n) v.sound }

  create-keeps :
      (s : MemoryStore F) (env : Env) (input : CreateTransactionInput F)
      → KeepsOutbox s (create_transaction s env input).1
  unfolding create_transaction
  create-keeps s env input = ground arith

  update-keeps :
      (s : MemoryStore F) (input : UpdateLiveMeterInput F)
      → KeepsOutbox s (update_live_meter s input).1
  unfolding update_live_meter
  update-keeps s input = ground arith

  stop-keeps :
      (s : MemoryStore F) (now : Time) (input : StopTransactionInput F)
      → KeepsOutbox s (stop_transaction s now input).1
  unfolding stop_transaction
  stop-keeps s now input = ground arith

  pub set_max-keeps :
      (s : MemoryStore F) (tid : ℤ) (max : F) → KeepsOutbox s (update_transaction_max_kwh s tid max)
  unfolding update_transaction_max_kwh
  set_max-keeps s tid max = ground arith

  mark-keeps :
      (s : MemoryStore F) (c : String) (tid : ℤ)
      → KeepsOutbox s (check_and_mark_limit_stop s c tid).1
  unfolding check_and_mark_limit_stop
  mark-keeps s c tid = ground arith

  release-keeps :
      (s : MemoryStore F) (c : String) (tid : ℤ)
      → KeepsOutbox s (release_limit_stop_request s c tid)
  unfolding release_limit_stop_request
  release-keeps s c tid = ground arith

  pub enqueue-keeps :
      (s : MemoryStore F) (now : Time) (input : EnqueueCallbackInput)
      → KeepsTransactions s (enqueue_callback s now input).1
  unfolding enqueue_callback
  enqueue-keeps s now input = ground arith

  pub sends-keeps : (s : MemoryStore F) (id : ℕ) → KeepsTransactions s (mark_callback_sent s id)
  unfolding mark_callback_sent
  sends-keeps s id = ground arith

  pub retries-keeps :
      (s : MemoryStore F) (id n : ℕ) (at : Time) (e : String)
      → KeepsTransactions s (mark_callback_retry s id n at e)
  unfolding mark_callback_retry
  retries-keeps s id n at e = ground arith

  pub fails-keeps :
      (s : MemoryStore F) (id : ℕ) (e : String) → KeepsTransactions s (mark_callback_fatal s id e)
  unfolding mark_callback_fatal
  fails-keeps s id e = ground arith

  changed_transactions :
      (s t : MemoryStore F)
      → KeepsOutbox s t
      → (Invariant.IsValid s → Invariant.IsValid t)
      → IsValid s
      → IsValid t
  changed_transactions s t k h v = record {
    transactions = h v.transactions;
    outbox = with_outbox s t k v.outbox;
  }

  changed_outbox :
      (s t : MemoryStore F)
      → KeepsTransactions s t
      → (Unique.IsValid s → Unique.IsValid t)
      → IsValid s
      → IsValid t
  changed_outbox s t k h v = record {
    transactions = with_transactions s t k v.transactions;
    outbox = h v.outbox;
  }

  -- Every method, whether it fails or not, keeps a store consistent.
  step-IsValid : (s : MemoryStore F) (o : Op F) → IsValid s → IsValid (step s o)
  unfolding step
  step-IsValid s (create env input) =
      changed_transactions s _ (create-keeps s env input) (create-IsValid s env input)
  step-IsValid s (update input) =
      changed_transactions s _ (update-keeps s input) (update-IsValid s input)
  step-IsValid s (stop now input) =
      changed_transactions s _ (stop-keeps s now input) (stop-IsValid s now input)
  step-IsValid s (force_close now input) =
      unfold force_close_transaction in
      changed_transactions s _ (stop-keeps s now _) (stop-IsValid s now _)
  step-IsValid s (set_max tid max) =
      changed_transactions s _ (set_max-keeps s tid max) (max_kwh-IsValid s tid max)
  step-IsValid s (mark c tid) = changed_transactions s _ (mark-keeps s c tid) (mark-IsValid s c tid)
  step-IsValid s (release c tid) =
      changed_transactions s _ (release-keeps s c tid) (release-IsValid s c tid)
  step-IsValid s (enqueue now input) =
      changed_outbox s _ (enqueue-keeps s now input) (enqueue-IsValid s now input)
  step-IsValid s (claims now limit) =
      changed_outbox s _ (unfold claim_due_callbacks in (refl, refl))
        (claim_due-IsValid s now limit)
  step-IsValid s (sends id) = changed_outbox s _ (sends-keeps s id) (sent-IsValid s id)
  step-IsValid s (retries id n at e) =
      changed_outbox s _ (retries-keeps s id n at e) (retry-IsValid s id n at e)
  step-IsValid s (fails id e) = changed_outbox s _ (fails-keeps s id e) (fatal-IsValid s id e)

  run_from-IsValid : (s : MemoryStore F) (os : List (Op F)) → IsValid s → IsValid (run s os)
  unfolding run
  run_from-IsValid s [] v = v
  run_from-IsValid s (o ∷ os) v = run_from-IsValid (step s o) os (step-IsValid s o v)

  -- After any calls of its methods, failing or not, a new store holds at most one transaction for
  -- each id and at most one callback for each dedupe key. Each entry stands under its own id, which
  -- for a transaction is a positive 32-bit integer; a stopped transaction has its final reading and
  -- consumption; and one whose stop was requested has a limit and a consumption.
  pub run-IsValid : (os : List (Op F)) → IsValid (run new_memory_store os)
  run-IsValid os = run_from-IsValid new_memory_store os (
      unfold new_memory_store in
      record {
        transactions = record { distinct = tt; sound = tt };
        outbox = record { distinct = tt; numbered = tt; unique = tt };
      })
