-- ===== src/Store/Memory/Reconcile/Complete.antt =====
-- What listTransactionsMissingCallback of callback_reconcile_memory.go lists.
use ocpphal_go.Prelude.{
  ℕ, zero, suc, ◌+◌, ◌≤◌, ◌<◌, ◌≡◌, refl, String, Bool, true, false, not, ◌&&◌, arith, [], ◌∷◌, ℤ,
  GoMap, All, length, if◌then◌else◌, is_some,
}
use ocpphal_go.Store.Types.{Transaction}
use ocpphal_go.Store.Memory.{MemoryStore, MemoryCallback}
use ocpphal_go.Store.Memory.Outbox.{has_key}
use ocpphal_go.Store.Memory.Reconcile.{
  missing, dedupe_key, kind_start_transaction, kind_completed_transaction,
  list_transactions_missing_start_callbacks, list_transactions_missing_completed_callbacks,
}

module _ {F : Type 0} (kind : String) (completed_only : Bool)
    (outbox : GoMap ℕ MemoryCallback) where
  -- The transaction should have a callback of this kind, and has none.
  abbrev pub lacks : Transaction F → Bool
  lacks tx =
      not (completed_only && not (is_some tx.stop_time))
      && not (has_key (dedupe_key kind tx.transaction_id) outbox)

  abbrev pub count_lacking : GoMap ℤ (Transaction F) → ℕ
  count_lacking [] = 0
  count_lacking ((_, tx) ∷ txs) = (if lacks tx then 1 else 0) + count_lacking txs

  missing_counts :
      (n : ℕ) (txs : GoMap ℤ (Transaction F))
      → (length (missing kind completed_only n txs outbox) ≤ n)
        × (length (missing kind completed_only n txs outbox) ≤ count_lacking txs)
        × (length (missing kind completed_only n txs outbox) < n
            → length (missing kind completed_only n txs outbox) ≡ count_lacking txs)
  unfolding missing
  missing_counts zero txs = (omega arith, omega arith, λ h. absurd (omega arith))
  missing_counts (suc n) [] = (omega arith, omega arith, λ h. refl)
  missing_counts (suc n) ((j, tx) ∷ txs) =
      let taken = missing_counts n txs in
      let passed = missing_counts (suc n) txs in
      (ground (arith, taken, passed), ground (arith, taken, passed), ground (arith, taken, passed))

  missing_lack :
      (n : ℕ) (txs : GoMap ℤ (Transaction F))
      → All (λ tx. lacks tx ≡ true) (missing kind completed_only n txs outbox)
  unfolding missing
  missing_lack zero txs = tt
  missing_lack (suc n) [] = tt
  missing_lack (suc n) ((j, tx) ∷ txs) =
      ground (arith, missing_lack n txs, missing_lack (suc n) txs)

-- The reconciliation lists only transactions that lack their callback: the start callback, or for a
-- transaction that is stopped the completion callback. It lists no more than the limit, and when it
-- lists fewer, it lists as many as there are transactions that lack one.
pub reconcile_lists :
    {F : Type 0} (s : MemoryStore F) (limit : ℕ)
    → let starts = list_transactions_missing_start_callbacks s limit in
      let completions = list_transactions_missing_completed_callbacks s limit in
      All (λ tx. lacks kind_start_transaction false s.outbox tx ≡ true) starts
      × All (λ tx. lacks kind_completed_transaction true s.outbox tx ≡ true) completions
      × (length starts ≤ limit)
      × (length completions ≤ limit)
      × (length starts < limit
          → length starts ≡ count_lacking kind_start_transaction false s.outbox s.transactions)
      × (length completions < limit
          → length completions
            ≡ count_lacking kind_completed_transaction true s.outbox s.transactions)
unfolding list_transactions_missing_start_callbacks list_transactions_missing_completed_callbacks
reconcile_lists s limit =
    let starts = missing_counts kind_start_transaction false s.outbox limit s.transactions in
    let completions =
      missing_counts kind_completed_transaction true s.outbox limit s.transactions in
    (
      missing_lack kind_start_transaction false s.outbox limit s.transactions,
      missing_lack kind_completed_transaction true s.outbox limit s.transactions,
      starts.0,
      completions.0,
      starts.2,
      completions.2,
    )
