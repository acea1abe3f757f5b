-- ===== src/Hal/Pending/Consume.antt =====
-- Taking a remembered single session (consumePendingSingleSession of single_session.go).
use ocpphal_go.Prelude.{
  ◌≢◌, ◌⊎◌, sym, subst, get-delete_self, get-delete_ne, ◌≡◌, inl, inr, refl, String, true, false,
  none, some, arith, get, delete, ℤ, [], ◌∷◌, Entries, get-Entries, Option-cases, map_laws,
}
use ocpphal_go.Hal.Pending.{
  PendingStarts, PendingRemoteStartKey, pending_key, key_of, record_pending, clear_pending,
  consume_pending, find_candidate,
}

-- The program stores no `false`.
abbrev pub AllTrue : PendingStarts → Type 0
AllTrue p = Entries (λ _ b. b ≡ true) p

-- A remote start of the charger and the tag waits, on some connector.
abbrev pub Waits : PendingStarts → String → String → Type 0
Waits p charger_id id_tag = (k : ℤ) × (get (key_of charger_id k id_tag) p ≡ some true)

find_candidate-some :
    (p : PendingStarts) (c t : String) (k : PendingRemoteStartKey)
    → AllTrue p
    → find_candidate c t p ≡ some k
    → (k ≡ key_of c k.connector_id t) × (get k p ≡ some true)
unfolding find_candidate get
find_candidate-some [] c t k h e = cc
find_candidate-some ((j, b) ∷ p) c t k h e = ground (arith, find_candidate-some p c t k h.1)

find_candidate-none :
    (p : PendingStarts) (c t : String) (k : ℤ)
    → find_candidate c t p ≡ none
    → get (key_of c k t) p ≡ none
unfolding find_candidate get
find_candidate-none [] c t k e = refl
find_candidate-none ((j, b) ∷ p) c t k e = ground (arith, find_candidate-none p c t k)

-- Whose entry is taken: one of the charger and the tag that waits, and that on the connector of the
-- start if it waits. It goes, and all other entries stay.
abbrev pub Takes : PendingStarts → String → ℤ → String → PendingStarts → Type 0
Takes p charger_id k id_tag q =
    (j : ℤ) × (get (key_of charger_id j id_tag) p ≡ some true)
    × (get (key_of charger_id k id_tag) p ≡ some true → j ≡ k)
    × (get (key_of charger_id j id_tag) q ≡ none)
    × ((other : PendingRemoteStartKey)
        → other ≢ key_of charger_id j id_tag
        → get other q ≡ get other p)

delete-Takes :
    (p : PendingStarts) (c t : String) (k j : ℤ)
    → get (key_of c j t) p ≡ some true
    → (get (key_of c k t) p ≡ some true → j ≡ k)
    → Takes p c k t (delete (key_of c j t) p)
delete-Takes p c t k j e own = (
  j,
  e,
  own,
  get-delete_self (key_of c j t) p,
  λ other n. get-delete_ne (key_of c j t) other p (λ q. n (sym q)),
)

consume_candidate :
    (p : PendingStarts) (c t : String) (k : ℤ) (i : PendingRemoteStartKey)
    → get (key_of c k t) p ≡ none
    → find_candidate c t p ≡ some i
    → consume_pending p c k t ≡ (true, delete i p)
unfolding consume_pending
consume_candidate p c t k i e s = rw (e, s, consume_pending) refl

consume_none :
    (p : PendingStarts) (c t : String) (k : ℤ)
    → get (key_of c k t) p ≡ none
    → find_candidate c t p ≡ none
    → consume_pending p c k t ≡ (false, p)
unfolding consume_pending
consume_none p c t k e s = rw (e, s, consume_pending) refl

consume_own :
    (p : PendingStarts) (c t : String) (k : ℤ)
    → get (key_of c k t) p ≡ some true
    → consume_pending p c k t ≡ (true, delete (key_of c k t) p)
unfolding consume_pending
consume_own p c t k e = rw (e, consume_pending) refl

-- consumePendingSingleSession answers true exactly when a remote start of the same charger and tag
-- waits, on whatever connector. Then one such entry is gone, that on the connector of the start if it
-- waits, and every other entry is as it was; and when it answers false the map is unchanged. The map
-- holds no false, which the program never stores.
pub consume_iff_Waits :
    (p : PendingStarts) (c t : String) (k : ℤ)
    → AllTrue p
    → let (taken, q) = consume_pending p c k t in
      (Waits p c t × (taken ≡ true) × Takes p c k t q) ⊎ (¬ Waits p c t × (taken ≡ false) × (q ≡ p))
consume_iff_Waits p c t k h = elim (Option-cases (get (key_of c k t) p)) [
  | inr (b, e) ↦
      let v : b ≡ true = get-Entries (λ _ x. x ≡ true) (key_of c k t) b p h e in
      let e' : get (key_of c k t) p ≡ some true = rw v at e in
      rw (consume_own p c t k e') (inl ((k, e'), refl, delete-Takes p c t k k e' (λ _. refl)))
  | inl e ↦ elim (Option-cases (find_candidate c t p)) [
    | inl n ↦
        rw (consume_none p c t k e n)
          (inr (λ w. cc (find_candidate-none p c t w.0 n, w.1), refl, refl))
    | inr (i, s) ↦
        let (shape, held) = find_candidate-some p c t i h s in
        let j = i.connector_id in
        let there : get (key_of c j t) p ≡ some true = rw shape at held in
        rw (consume_candidate p c t k i e s) (
          inl (
            (j, there),
            refl,
            subst (λ x. Takes p c k t (delete x p)) (sym shape)
                (delete-Takes p c t k j there (λ q. cc (e, q))),
          ))
  ]
]

-- A session that was recorded is handed out to the next start on its connector, which leaves no
-- entry for it; a cleared one is not found under its connector.
pub consume-record :
    (p : PendingStarts) (c t : String) (k : ℤ)
    → let (taken, q) = consume_pending (record_pending p c k t) c k t in
      (taken ≡ true)
      × (get (key_of c k t) q ≡ none)
      × (get (key_of c k t) (clear_pending (record_pending p c k t) c k t) ≡ none)
unfolding consume_pending record_pending clear_pending
consume-record p c t k = grind (arith, map_laws)
