-- ===== src/Store/Analytics/Asked.antt =====
-- ChargerAnalytics of the MemoryStore: which chargers it reports on.
use ocpphal_go.Prelude.{
  ℕ, ◌≡◌, ◌≢◌, refl, arith, String, Bool, true, false, ◌||◌, Option, none, some, is_some, [], ◌∷◌,
  ℤ, Float, GoMap, get, put, get-put, Distinct, put-Distinct, Entries, if◌then◌else◌, String_key,
  ℤ_key, ◌==◌, Bool-cases, inl, inr,
}
use ocpphal_go.Store.Types.{Transaction}
use ocpphal_go.Store.Analytics.{is_all, charger_ids, or_asked}

-- How often the charger is in the map: at most once.
abbrev pub times : Option Bool → ℕ
times none = 0
times (some _) = 1

put_if-keeps :
    (b : Bool) (c k : String) (ids : GoMap String Bool)
    → is_some (get k ids) ≡ true
    → is_some (get k (if b then put c true ids else ids)) ≡ true
put_if-keeps true c k ids h = ground (arith, get-put c k true ids)
put_if-keeps false c k ids h = h

put_if-has :
    (b : Bool) (c : String) (ids : GoMap String Bool)
    → b ≡ true
    → is_some (get c (if b then put c true ids else ids)) ≡ true
put_if-has true c ids h = ground (arith, get-put c c true ids)
put_if-has false c ids h = cc

put_if-only :
    (b : Bool) (c k : String) (ids : GoMap String Bool)
    → (b ≡ true → c ≢ k)
    → get k ids ≡ none
    → get k (if b then put c true ids else ids) ≡ none
put_if-only true c k ids n h = ground (arith, get-put c k true ids, n refl)
put_if-only false c k ids n h = h

pub or_asked-Distinct :
    (asked : String) (ids : GoMap String Bool) → Distinct ids → Distinct (or_asked asked ids)
unfolding get
or_asked-Distinct asked [] d = ground arith
or_asked-Distinct asked (id ∷ ids) d = d

module _ {F : Type 0} ⦃f : Float F⦄ where
  abbrev pub is_asked : String → Transaction F → Bool
  is_asked asked tx = is_all asked || tx.charger_id == asked

  -- Every transaction's charger is in the map exactly when it is asked for.
  unfoldable pub InPlace : String → GoMap String Bool → Transaction F → Type 0
  InPlace asked ids tx = times (get tx.charger_id ids) ≡ (if is_asked asked tx then 1 else 0)

  pub charger_ids-Distinct :
      (asked : String) (txs : GoMap ℤ (Transaction F)) (ids : GoMap String Bool)
      → Distinct ids
      → Distinct (charger_ids asked txs ids)
  unfolding charger_ids
  charger_ids-Distinct asked [] ids d = d
  charger_ids-Distinct asked ((_, tx) ∷ rest) ids d =
      charger_ids-Distinct asked rest
        (if is_asked asked tx then put tx.charger_id true ids else ids)
        (elim (is_asked asked tx)
          as (λ b. Distinct (if b then put tx.charger_id true ids else ids)) [
            | true ↦ put-Distinct tx.charger_id true ids d
            | false ↦ d
          ])

  -- A charger that is in the map stays, and so is one with a transaction that is asked for.
  charger_ids-keeps :
      (asked : String) (txs : GoMap ℤ (Transaction F)) (ids : GoMap String Bool) (k : String)
      → is_some (get k ids) ≡ true
      → is_some (get k (charger_ids asked txs ids)) ≡ true
  unfolding charger_ids
  charger_ids-keeps asked [] ids k h = h
  charger_ids-keeps asked ((_, tx) ∷ rest) ids k h =
      charger_ids-keeps asked rest (if is_asked asked tx then put tx.charger_id true ids else ids) k
        (put_if-keeps (is_asked asked tx) tx.charger_id k ids h)

  pub charger_ids-has :
      (asked : String) (txs : GoMap ℤ (Transaction F)) (ids : GoMap String Bool)
      → Entries
          (λ _ tx.
            is_asked asked tx ≡ true
            → is_some (get tx.charger_id (charger_ids asked txs ids)) ≡ true)
          txs
  unfolding charger_ids
  charger_ids-has asked [] ids = tt
  charger_ids-has asked ((_, tx) ∷ rest) ids =
      let ids' = if is_asked asked tx then put tx.charger_id true ids else ids in
      (
        λ h.
            charger_ids-keeps asked rest ids' tx.charger_id
              (put_if-has (is_asked asked tx) tx.charger_id ids h),
        charger_ids-has asked rest ids',
      )

  -- No other charger comes in.
  charger_ids-only :
      (asked : String) (txs : GoMap ℤ (Transaction F)) (ids : GoMap String Bool) (k : String)
      → (is_all asked || k == asked) ≡ false
      → get k ids ≡ none
      → get k (charger_ids asked txs ids) ≡ none
  unfolding charger_ids
  charger_ids-only asked [] ids k n h = h
  charger_ids-only asked ((_, tx) ∷ rest) ids k n h =
      charger_ids-only asked rest (if is_asked asked tx then put tx.charger_id true ids else ids) k
        n (put_if-only (is_asked asked tx) tx.charger_id k ids (λ b. grind (arith, b, n)) h)

  chosen_one :
      (asked : String) (ids : GoMap String Bool) (tx : Transaction F)
      → (is_asked asked tx ≡ true → is_some (get tx.charger_id ids) ≡ true)
      → (is_asked asked tx ≡ false → get tx.charger_id ids ≡ none)
      → InPlace asked (or_asked asked ids) tx
  unfolding InPlace get
  chosen_one asked [] tx has only = ground (arith, has, only)
  chosen_one asked (id ∷ ids) tx has only = elim (Bool-cases (is_asked asked tx)) [
    | inl e ↦ rw e (grind (arith, has e))
    | inr e ↦ rw (e, only e) refl
  ]

  pub chosen :
      (asked : String) (all txs : GoMap ℤ (Transaction F))
      → Entries
          (λ _ tx.
            is_asked asked tx ≡ true
            → is_some (get tx.charger_id (charger_ids asked all [])) ≡ true)
          txs
      → Entries (λ _ tx. InPlace asked (or_asked asked (charger_ids asked all [])) tx) txs
  chosen asked all [] h = tt
  chosen asked all ((k, tx) ∷ rest) h = (
    chosen_one asked (charger_ids asked all []) tx h.0
        (λ e. charger_ids-only asked all [] tx.charger_id e (unfold get in refl)),
    chosen asked all rest h.1,
  )
