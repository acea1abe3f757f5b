-- ===== src/Hal/LimitStop.antt =====
-- internal/ocpp16hal/limit_stop.go: stopping a transaction that has passed its limit.
pub mod Bounds
use ocpphal_go.Prelude.{
  ℕ, zero, suc, ◌+◌, ◌*◌, String, Bool, true, false, not, ◌&&◌, Option, none, some, List, [], ◌∷◌,
  ◌++◌, ℤ, Float, ltb, if◌then◌else◌, is_some, trimmed_equal_fold,
}
use ocpphal_go.Store.Types.{Time, Transaction, Error, Result, ok, err}
use ocpphal_go.Store.Interface.{TransactionStore}
use ocpphal_go.Hal.Outbound.{CentralSystem, remote_stop_transaction}

-- Durations are counted in seconds.
abbrev pub limit_stop_max_attempts : ℕ
limit_stop_max_attempts = 6

abbrev pub limit_stop_initial_retry : ℕ
limit_stop_initial_retry = 2

abbrev pub limit_stop_max_retry : ℕ
limit_stop_max_retry = 30

-- `delay *= 2`, with the cap
abbrev pub next_delay : ℕ → ℕ
next_delay delay = if ltb limit_stop_max_retry (delay * 2) then limit_stop_max_retry else delay * 2

module _ {F S : Type 0} (st : TransactionStore F S) where
  unfoldable pub transaction_closed : S → String → ℤ → Result Bool
  transaction_closed s charger_id tid = elim (st.get_by_transaction_id s charger_id tid) [
    | err e ↦ err e
    | ok tx ↦ ok (is_some tx.stop_time)
  ]

  -- `err == nil && closed`
  abbrev pub is_closed : S → String → ℤ → Bool
  is_closed s charger_id tid = elim (transaction_closed s charger_id tid) [
    | ok b ↦ b
    | err _ ↦ false
  ]

  -- waitForTransactionClosed: the store at each poll before the deadline.
  unfoldable pub wait_for_transaction_closed : String → ℤ → List S → Bool
  wait_for_transaction_closed charger_id tid [] = false
  wait_for_transaction_closed charger_id tid (s ∷ polls) =
      if is_closed s charger_id tid then true else wait_for_transaction_closed charger_id tid polls

  -- What other goroutines and the charger do in one attempt: the store when the attempt begins, the
  -- library, and the store at each poll.
  pub record Round : Type 0 where
    pub before : S
    pub cs : CentralSystem
    pub polls : List S

  -- `stopErr == nil && strings.EqualFold(strings.TrimSpace(status), "Accepted")`
  abbrev pub is_accepted : Result String → Bool
  is_accepted (ok status) = trimmed_equal_fold status "Accepted"
  is_accepted (err _) = false

  -- How the loop ends: it saw the transaction closed, or it used up its attempts. With it, the
  -- pauses that it made, and the number of stop requests that it sent.
  pub record Outcome : Type 0 where
    pub closed : Bool
    pub pauses : List ℕ
    pub requests : ℕ

  -- The end of one attempt, from what it saw: `closed` before it asked, `stopped` after an accepted
  -- request. Where neither was seen, it pauses if attempts are `left`, and `rest` is theirs.
  unfoldable pub conclude : Bool → Bool → ℕ → ℕ → Outcome → Outcome
  conclude true stopped left delay rest = record { closed = true; pauses = []; requests = 0 }
  conclude false true left delay rest = record { closed = true; pauses = []; requests = 1 }
  conclude false false zero delay rest = record { closed = false; pauses = []; requests = 1 }
  conclude false false (suc left) delay rest = record {
    closed = rest.closed;
    pauses = delay ∷ rest.pauses;
    requests = suc rest.requests;
  }

  -- The loop, with `left` attempts left, from the attempt number `i`.
  unfoldable pub attempts : String → ℤ → (ℕ → Round) → ℕ → ℕ → ℕ → Outcome
  unfolding transaction_closed wait_for_transaction_closed remote_stop_transaction conclude
  attempts charger_id tid rounds zero i delay = record { closed = false; pauses = []; requests = 0 }
  attempts charger_id tid rounds (suc left) i delay =
      let round = rounds i in
      conclude (is_closed round.before charger_id tid)
        (is_accepted (remote_stop_transaction round.cs charger_id tid)
          && wait_for_transaction_closed charger_id tid round.polls)
        left delay (attempts charger_id tid rounds left (i + 1) (next_delay delay))

  -- requestLimitStopUntilClosed: the outcome, and the store that it leaves, where `last` is the
  -- store when the attempts are used up.
  unfoldable pub request_limit_stop_until_closed : String → ℤ → (ℕ → Round) → S → Outcome × S
  unfolding attempts
  request_limit_stop_until_closed charger_id tid rounds last =
      let outcome =
        attempts charger_id tid rounds limit_stop_max_attempts 0 limit_stop_initial_retry in
      if outcome.closed
      then (outcome, last)
      else (outcome, (st.release_limit_stop_request last charger_id tid).1)
