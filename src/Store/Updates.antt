-- ===== src/Store/Updates.antt =====
-- TransactionUpdates of internal/store/transaction_updates.go. Its mutex makes a method one step.
-- The channel of a subscription is named by the subscription's number; it holds one signal at most.
pub mod Signals
use ocpphal_go.Prelude.{
  ℕ, suc, ◌+◌, Bool, true, false, Option, none, some, List, [], ◌∷◌, ℤ, GoMap, get, put, delete,
  if◌then◌else◌, ℤ_key, ℕ_key,
}

-- `signals` says of each channel whether a signal waits in it, `done` of which subscriptions the
-- cancel function has run.
pub record TransactionUpdates : Type 0 where
  pub next_id : ℕ
  pub subscribers : GoMap ℤ (GoMap ℕ (Unit {0}))
  pub signals : GoMap ℕ Bool
  pub done : GoMap ℕ (Unit {0})

unfoldable pub new_transaction_updates : TransactionUpdates
new_transaction_updates = record { next_id = 0; subscribers = []; signals = []; done = [] }

-- A missing inner map is an empty one.
abbrev pub inner : Option (GoMap ℕ (Unit {0})) → GoMap ℕ (Unit {0})
inner none = []
inner (some m) = m

-- The subscription's number names its channel and its cancel function.
unfoldable pub subscribe : TransactionUpdates → ℤ → ℕ × TransactionUpdates
subscribe u tid =
    let id = u.next_id + 1 in
    (
      id,
      record u {
        next_id = id;
        subscribers = put tid (put id tt (inner (get tid u.subscribers))) u.subscribers;
        signals = put id false u.signals;
      },
    )

abbrev pub prune :
    ℤ → GoMap ℕ (Unit {0}) → GoMap ℤ (GoMap ℕ (Unit {0})) → GoMap ℤ (GoMap ℕ (Unit {0}))
prune tid [] subs = delete tid subs
prune tid (x ∷ m) subs = put tid (x ∷ m) subs

-- The function that Subscribe returns; `sync.Once` lets it run once.
unfoldable pub cancel : TransactionUpdates → ℤ → ℕ → TransactionUpdates
cancel u tid id = elim (get id u.done) [
  | some _ ↦ u
  | none ↦ record u {
    subscribers = prune tid (delete id (inner (get tid u.subscribers))) u.subscribers;
    done = put id tt u.done;
  }
]

-- The loop of Publish: a send that would block is dropped.
unfoldable pub signal_all : GoMap ℕ (Unit {0}) → GoMap ℕ Bool → GoMap ℕ Bool
signal_all [] signals = signals
signal_all ((id, _) ∷ m) signals = signal_all m (put id true signals)

unfoldable pub publish : TransactionUpdates → ℤ → TransactionUpdates
unfolding signal_all
publish u tid = record u { signals = signal_all (inner (get tid u.subscribers)) u.signals }

-- `<-ch` on a subscriber's side, where a signal waits.
unfoldable pub receive : TransactionUpdates → ℕ → Bool × TransactionUpdates
receive u id = elim (get id u.signals) [
  | some true ↦ (true, record u { signals = put id false u.signals })
  | _ ↦ (false, u)
]
