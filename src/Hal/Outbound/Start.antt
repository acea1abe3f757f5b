-- ===== src/Hal/Outbound/Start.antt =====
-- RemoteStartTransactionWithOptions: what it returns, and what it leaves behind.
use ocpphal_go.Prelude.{
  ◌≡◌, refl, String, true, false, none, arith, ℤ, get, get-put, get-delete_self,
}
use ocpphal_go.Store.Types.{Error, Result, ok, err}
use ocpphal_go.Hal.Pending.{
  PendingStarts, pending_key, key_of, record_pending, clear_pending, consume_pending,
}
use ocpphal_go.Hal.Outbound.{
  CentralSystem, after_start, remote_start_transaction, remote_start_transaction_with_options,
}

after_single :
    (p : PendingStarts) (c t : String) (k : ℤ) (r : Result String)
    → let (answer, q) = after_start (record_pending p c k t) c k t true r in
      (answer ≡ r)
      × ((a : String) → answer ≡ ok a → (consume_pending q c k t).0 ≡ true)
      × ((e : Error) → answer ≡ err e → get (key_of c k t) q ≡ none)
unfolding record_pending clear_pending consume_pending
after_single p c t k (ok a) = (refl, λ b h. grind (arith, get-put), λ e h. cc)
after_single p c t k (err e) = (refl, λ b h. cc, λ x h. grind (arith, get-put, get-delete_self))

after_plain :
    (p : PendingStarts) (c t : String) (k : ℤ) (r : Result String)
    → (after_start p c k t false r).1 ≡ p
after_plain p c t k (ok a) = refl
after_plain p c t k (err e) = refl

-- A remote start that shall become a single session returns what the charger's call returns. When the
-- call succeeds the session waits for the start on its connector, and when it fails no session waits
-- there. A remote start without that option never adds a session.
pub start_single :
    (cs : CentralSystem) (p : PendingStarts) (c t : String) (k : ℤ)
    → let (answer, q) = remote_start_transaction_with_options cs p c t k true in
      (answer ≡ remote_start_transaction cs c t k)
      × ((a : String) → answer ≡ ok a → (consume_pending q c k t).0 ≡ true)
      × ((e : Error) → answer ≡ err e → get (key_of c k t) q ≡ none)
      × ((remote_start_transaction_with_options cs p c t k false).1 ≡ p)
unfolding remote_start_transaction_with_options
start_single cs p c t k =
    let (same, waits, gone) = after_single p c t k (remote_start_transaction cs c t k) in
    (same, waits, gone, after_plain p c t k (remote_start_transaction cs c t k))

pub plain_failed :
    (cs : CentralSystem) (p : PendingStarts) (c t : String) (k : ℤ) (e : Error)
    → remote_start_transaction cs c t k ≡ err e
    → remote_start_transaction_with_options cs p c t k false ≡ (ok "", p)
unfolding remote_start_transaction_with_options
plain_failed cs p c t k e h = rw (h, remote_start_transaction_with_options) refl

pub plain_passed :
    (cs : CentralSystem) (p : PendingStarts) (c t : String) (k : ℤ) (a : String)
    → remote_start_transaction cs c t k ≡ ok a
    → remote_start_transaction_with_options cs p c t k false ≡ (ok a, p)
unfolding remote_start_transaction_with_options
plain_passed cs p c t k a h = rw (h, remote_start_transaction_with_options) refl
