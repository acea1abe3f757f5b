-- ===== src/Hal/LimitStop/Bounds.antt =====
-- The attempts of a limit stop (limit_stop.go), their pauses and how they end.
use ocpphal_go.Prelude.{
  ℕ, zero, suc, ◌+◌, ◌≤◌, ◌≡◌, ◌⊎◌, inl, inr, refl, ap, String, Bool, true, false, ◌&&◌, arith,
  List, [], ◌∷◌, ℤ, if◌then◌else◌, Bool-cases,
}
use ocpphal_go.Store.Interface.{TransactionStore}
use ocpphal_go.Hal.Outbound.{remote_stop_transaction}
use ocpphal_go.Hal.LimitStop.{
  Round, Outcome, conclude, attempts, request_limit_stop_until_closed, is_closed, is_accepted,
  wait_for_transaction_closed, next_delay,
}

-- The pauses from `delay` on.
abbrev pub schedule : ℕ → ℕ → List ℕ
schedule zero delay = []
schedule (suc n) delay = delay ∷ schedule n (next_delay delay)

abbrev pub Prefix : List ℕ → List ℕ → Type 0
Prefix [] ys = Unit {0}
Prefix (x ∷ xs) [] = ⊥
Prefix (x ∷ xs) (y ∷ ys) = (x ≡ y) × Prefix xs ys

module _ {F S : Type 0} (st : TransactionStore F S) (charger_id : String) (tid : ℤ) where
  -- In this attempt the transaction was seen closed: before the request, or after an accepted one.
  abbrev pub sees_closed : Round st → Bool
  sees_closed round =
      if is_closed st round.before charger_id tid
      then true
      else is_accepted st (remote_stop_transaction round.cs charger_id tid)
        && wait_for_transaction_closed st charger_id tid round.polls

  -- None of the `n` attempts from the `i`-th on saw it closed.
  abbrev pub NeverSeen : (ℕ → Round st) → ℕ → ℕ → Type 0
  NeverSeen rounds zero i = Unit {0}
  NeverSeen rounds (suc n) i = (sees_closed (rounds i) ≡ false) × NeverSeen rounds n (i + 1)

  -- One of them did.
  abbrev pub SomeSeen : (ℕ → Round st) → ℕ → ℕ → Type 0
  SomeSeen rounds zero i = ⊥
  SomeSeen rounds (suc n) i = (sees_closed (rounds i) ≡ true) ⊎ SomeSeen rounds n (i + 1)

  -- The pauses between `n` attempts.
  abbrev pub between : ℕ → ℕ → List ℕ
  between zero delay = []
  between (suc n) delay = schedule n delay

  -- What `n` attempts, the first of them the `i`-th and after it a pause of `delay`, come to.
  pub record Ends (rounds : ℕ → Round st) (n i delay : ℕ) (o : Outcome st) : Type 0 where
    pub bounded : o.requests ≤ n
    pub paused : Prefix o.pauses (between n delay)
    pub exhausted : o.closed ≡ false → (o.requests ≡ n) × NeverSeen rounds n i
    pub seen : o.closed ≡ true → SomeSeen rounds n i

  conclude-Ends :
      (rounds : ℕ → Round st) (n i delay : ℕ) (closed stopped : Bool) (o : Outcome st)
      → sees_closed (rounds i) ≡ (if closed then true else stopped)
      → Ends rounds n (i + 1) (next_delay delay) o
      → Ends rounds (suc n) i delay (conclude st closed stopped n delay o)
  unfolding conclude
  conclude-Ends rounds n i delay true stopped o e h = record {
    bounded = omega arith;
    paused = tt;
    exhausted = λ x. cc;
    seen = λ x. inl e;
  }
  conclude-Ends rounds n i delay false true o e h = record {
    bounded = omega arith;
    paused = tt;
    exhausted = λ x. cc;
    seen = λ x. inl e;
  }
  conclude-Ends rounds zero i delay false false o e h = record {
    bounded = omega arith;
    paused = tt;
    exhausted = λ x. (refl, (e, tt));
    seen = λ x. cc;
  }
  conclude-Ends rounds (suc n) i delay false false o e h = record {
    bounded = omega (arith, h.bounded);
    paused = (refl, h.paused);
    exhausted = λ x. (ap suc (h.exhausted x).0, (e, (h.exhausted x).1));
    seen = λ x. inr (h.seen x);
  }

  attempts-Ends :
      (rounds : ℕ → Round st) (n i delay : ℕ)
      → Ends rounds n i delay (attempts st charger_id tid rounds n i delay)
  unfolding attempts
  attempts-Ends rounds zero i delay = record {
    bounded = omega arith;
    paused = tt;
    exhausted = λ _. (refl, tt);
    seen = λ e. cc;
  }
  attempts-Ends rounds (suc n) i delay =
      conclude-Ends rounds n i delay _ _ _ refl (attempts-Ends rounds n (i + 1) (next_delay delay))

  -- requestLimitStopUntilClosed ends, whatever the charger and the other goroutines do: after at most
  -- six requests, with at most the pauses of 2, 4, 8, 16 and 30 seconds between them. Either it saw
  -- the transaction closed in one of the attempts, and leaves the store alone, or all six requests
  -- were sent, no attempt saw it closed, and the claim is released.
  pub request_limit_stop_ends :
      (rounds : ℕ → Round st) (last : S)
      → let (o, s) = request_limit_stop_until_closed st charger_id tid rounds last in
        (o.requests ≤ 6)
        × Prefix o.pauses (2 ∷ 4 ∷ 8 ∷ 16 ∷ 30 ∷ [])
        × (((o.closed ≡ true) × SomeSeen rounds 6 0 × (s ≡ last))
            ⊎ ((o.closed ≡ false)
                × (o.requests ≡ 6)
                × NeverSeen rounds 6 0
                × (s ≡ (st.release_limit_stop_request last charger_id tid).1)))
  unfolding request_limit_stop_until_closed
  request_limit_stop_ends rounds last =
      let h = attempts-Ends rounds 6 0 2 in
      elim (Bool-cases (attempts st charger_id tid rounds 6 0 2).closed) [
        | inl b ↦
            rw (b, request_limit_stop_until_closed) (h.bounded, h.paused, inl (b, h.seen b, refl))
        | inr b ↦
            rw (b, request_limit_stop_until_closed)
              (h.bounded, h.paused, inr (b, (h.exhausted b).0, (h.exhausted b).1, refl))
      ]
