-- ===== src/Http/Frontend/Private.antt =====
-- Who sees a transaction through the WebSocket, with the MemoryStore behind it.
use ocpphal_go.Prelude.{
  ◌≡◌, ◌≢◌, ◌⊎◌, Bool-cases, refl, arith, String, Bool, true, false, Option, none, some, List, [],
  ◌∷◌, ℤ, Float, get, delete, get-delete_self, sym, ◌∙◌, ◌!=◌, String_key, ℤ_key, Option-cases, inl,
  inr, if◌then◌else◌,
}
use ocpphal_go.Store.Types.{Transaction, transaction_not_found, Result, ok, err}
use ocpphal_go.Store.Memory.{MemoryStore, clone_transaction, get_by_transaction_id_and_id_tag}
use ocpphal_go.Store.Interface.{memory_transaction_store}
use ocpphal_go.Store.Updates.{TransactionUpdates}
use ocpphal_go.Http.Frontend.{
  FrontendTransactionSnapshot, parse_frontend_transaction_id, first_query_value, Event, woken,
  closed, open_stream, watch, new_frontend_transaction_snapshot,
}

module _ {F : Type 0} ⦃f : Float F⦄ where
  -- The lookup, once the map has answered.
  abbrev looked_up : Option (Transaction F) → String → Result (Transaction F)
  looked_up none tag = err transaction_not_found
  looked_up (some tx) tag =
      if tx.id_tag != tag then err transaction_not_found else ok (clone_transaction tx)

  looked_up_lem :
      (s : MemoryStore F) (tid : ℤ) (tag : String)
      → get_by_transaction_id_and_id_tag s tid tag ≡ looked_up (get tid s.transactions) tag
  unfolding get_by_transaction_id_and_id_tag
  looked_up_lem s tid tag = elim (Option-cases (get tid s.transactions)) [
    | inl e ↦ rw (e, get_by_transaction_id_and_id_tag) refl
    | inr (tx, e) ↦ rw (e, get_by_transaction_id_and_id_tag) refl
  ]

  -- What a session may send while these events happen. Each event with a store that has a transaction
  -- under the id with the tag, and with a connection that takes the frame, sends the snapshot of that
  -- transaction and goes on; any other event sends nothing and ends the session.
  abbrev pub ShownBy :
      ℤ → String → List (Event (MemoryStore F)) → List (FrontendTransactionSnapshot F) → Type 0
  ShownBy tid tag [] snapshots = snapshots ≡ []
  ShownBy tid tag (closed ∷ events) snapshots = snapshots ≡ []
  ShownBy tid tag (woken s now writable ∷ events) snapshots =
      ((tx : Transaction F) × (later : List (FrontendTransactionSnapshot F)) × (writable ≡ true)
        × (get tid s.transactions ≡ some tx)
        × (tx.id_tag ≡ tag)
        × (snapshots ≡ new_frontend_transaction_snapshot tx now ∷ later)
        × ShownBy tid tag events later)
      ⊎ (((writable ≡ false)
            ⊎ ((tx : Transaction F) → get tid s.transactions ≡ some tx → tx.id_tag ≢ tag))
          × (snapshots ≡ []))

  found_or_not :
      (s : MemoryStore F) (tid : ℤ) (tag : String)
      → ((tx : Transaction F) × (get tid s.transactions ≡ some tx)
          × (tx.id_tag ≡ tag)
          × (get_by_transaction_id_and_id_tag s tid tag ≡ ok tx))
        ⊎ (((tx : Transaction F) → get tid s.transactions ≡ some tx → tx.id_tag ≢ tag)
            × (get_by_transaction_id_and_id_tag s tid tag ≡ err transaction_not_found))
  found_or_not s tid tag = elim (Option-cases (get tid s.transactions)) [
    | inl e ↦ inr (λ tx h. cc (e, h), looked_up_lem s tid tag ∙ rw e refl)
    | inr (tx, e) ↦ elim (Bool-cases (tx.id_tag != tag)) [
      | inl b ↦ inr (λ x h q. ground (arith, e, b, h, q), looked_up_lem s tid tag ∙ rw (e, b) refl)
      | inr b ↦ inl (tx, e, ground (arith, b), looked_up_lem s tid tag ∙ rw (e, b) refl)
    ]
  ]

  -- In every session, whatever its events are and whatever the store is at each of them: each event
  -- sends the snapshot of the transaction that the store has at that event under the id that was asked
  -- for, with the tag that was asked for, at the time of the event. The session ends at the first event
  -- where there is none, where the frame cannot be written, or where the connection closes.
  pub watch-ShownBy :
      (tid : ℤ) (tag : String) (events : List (Event (MemoryStore F)))
      → ShownBy tid tag events (watch memory_transaction_store tid tag events)
  unfolding watch
  watch-ShownBy tid tag [] = refl
  watch-ShownBy tid tag (closed ∷ events) = refl
  watch-ShownBy tid tag (woken s now false ∷ events) = elim (found_or_not s tid tag) [
    | inl (tx, e, t, h) ↦ rw (h, watch) (inr (inl refl, refl))
    | inr (n, h) ↦ rw (h, watch) (inr (inl refl, refl))
  ]
  watch-ShownBy tid tag (woken s now true ∷ events) = elim (found_or_not s tid tag) [
    | inl (tx, e, t, h) ↦
        rw (h, watch) (inl (tx, _, refl, e, t, refl, watch-ShownBy tid tag events))
    | inr (n, h) ↦ rw (h, watch) (inr (inr n, refl))
  ]

  hidden :
      (s : MemoryStore F) (tid : ℤ) (tag : String) (tx : Transaction F)
      → get tid s.transactions ≡ some tx
      → tx.id_tag ≢ tag
      → get_by_transaction_id_and_id_tag s tid tag
        ≡ get_by_transaction_id_and_id_tag
            (record s { transactions = delete tid s.transactions })
            tid
            tag
  hidden s tid tag tx h n =
      let s' : MemoryStore F = record s { transactions = delete tid s.transactions } in
      looked_up_lem s tid tag
      ∙ rw (h, get-delete_self tid s.transactions) (ground (arith, n))
      ∙ sym (looked_up_lem s' tid tag)

  -- Where the store has the transaction that is asked for with another tag than the one that is given,
  -- the answer and the subscriptions are those of a store without that transaction: nothing tells that
  -- the id is in use.
  pub open_stream_hides :
      (s : MemoryStore F) (u : TransactionUpdates) (available : Bool) (method : String)
      (query : String → String) (upgrades : Bool) (tid : ℤ) (tx : Transaction F)
      → parse_frontend_transaction_id
          (first_query_value query ("transaction_id" ∷ "transactionId" ∷ []))
        ≡ some tid
      → get tid s.transactions ≡ some tx
      → tx.id_tag ≢ first_query_value query ("id_tag" ∷ "idTag" ∷ [])
      → open_stream memory_transaction_store available s u method query upgrades
        ≡ open_stream memory_transaction_store available
            (record s { transactions = delete tid s.transactions })
            u
            method
            query
            upgrades
  unfolding open_stream
  open_stream_hides s u available method query upgrades tid tx e h n =
      let tag = first_query_value query ("id_tag" ∷ "idTag" ∷ []) in
      rw (e, open_stream, hidden s tid tag tx h n) refl
