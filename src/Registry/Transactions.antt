-- ===== src/Registry/Transactions.antt =====
-- What the registry says of the transactions that run.
use ocpphal_go.Prelude.{
  ◌∙◌, ◌≡◌, ◌≢◌, sym, String_discrete, ◌⊎◌, inl, inr, refl, String, Option, none, some, ℤ, Float,
  get, put, get-put_self, get-put_ne, String_key, ℤ_key, Option-cases, atoi-itoa, IsInt64,
}
use ocpphal_go.Store.Types.{Time}
use ocpphal_go.Registry.{
  ConnectorState, ChargerState, Registry, connector_key, connector, ensure,
  apply_status_notification, apply_start_transaction, apply_meter_value, apply_stop_transaction,
  transaction_id_for_connector, notified, started, metered, finished,
}

other_key : (k j : ℤ) → IsInt64 k → IsInt64 j → j ≢ k → connector_key k ≢ connector_key j
other_key k j a b n e = n (cc (e, atoi-itoa k a, atoi-itoa j b))

module _ {F : Type 0} ⦃f : Float F⦄ where
  ensured :
      (r : Registry F) (c : String) (k : ℤ) (now : Time)
      → (connector (ensure r c now) (connector_key k)).transaction_id
        ≡ transaction_id_for_connector r c k
  unfolding ensure transaction_id_for_connector get
  ensured r c k now = elim (Option-cases (get c r)) [
    | inl e ↦ rw (e, ensure, transaction_id_for_connector) refl
    | inr (cp, e) ↦ elim (Option-cases (get (connector_key k) cp.connectors)) [
      | inl g ↦ rw (e, ensure, transaction_id_for_connector, g) refl
      | inr (conn, g) ↦ rw (e, ensure, transaction_id_for_connector, g) refl
    ]
  ]

  -- What the registry shows once a connector was written.
  written :
      (r : Registry F) (c : String) (k : ℤ) (cp : ChargerState F) (conn : ConnectorState F)
      → get (connector_key k) cp.connectors ≡ some conn
      → transaction_id_for_connector (put c cp r) c k ≡ conn.transaction_id
  unfolding transaction_id_for_connector
  written r c k cp conn h = rw (get-put_self, transaction_id_for_connector, h) refl

  -- Through the life of a transaction the registry shows it on its connector: from the start on, on
  -- readings that do not name another one and status notifications, and no longer after the stop.
  pub transaction_shown :
      (r : Registry F) (c : String) (k : ℤ) (tid : ℤ) (reading : F) (now : Time)
      → (transaction_id_for_connector (apply_start_transaction r c k tid reading now) c k
          ≡ some tid)
        × (transaction_id_for_connector (apply_meter_value r c k none reading now) c k
            ≡ transaction_id_for_connector r c k)
        × (transaction_id_for_connector (apply_meter_value r c k (some tid) reading now) c k
            ≡ some tid)
        × ((status error_code : String)
            → transaction_id_for_connector
                (apply_status_notification r c k status error_code now)
                c
                k
              ≡ transaction_id_for_connector r c k)
        × (transaction_id_for_connector (apply_stop_transaction r c k reading now) c k ≡ none)
  unfolding apply_start_transaction apply_meter_value apply_status_notification
      apply_stop_transaction started metered notified finished
  transaction_shown r c k tid reading now =
      let set = λ (conn : ConnectorState F).
        get-put_self (connector_key k) conn (ensure r c now).connectors in
      (
        written r c k _ _ (set _),
        written r c k _ _ (set _) ∙ ensured r c k now,
        written r c k _ _ (set _),
        λ status error_code. written r c k _ _ (set _) ∙ ensured r c k now,
        written r c k _ _ (set _),
      )

  other_charger :
      (r : Registry F) (c d : String) (j : ℤ) (cp : ChargerState F)
      → d ≢ c
      → transaction_id_for_connector (put c cp r) d j ≡ transaction_id_for_connector r d j
  unfolding transaction_id_for_connector
  other_charger r c d j cp n =
      rw (get-put_ne c d cp r (λ e. n (sym e)), transaction_id_for_connector) refl

  other_connector :
      (r : Registry F) (c : String) (k j : ℤ) (now : Time) (cp : ChargerState F)
      (conn : ConnectorState F)
      → cp.connectors ≡ put (connector_key k) conn (ensure r c now).connectors
      → connector_key k ≢ connector_key j
      → transaction_id_for_connector (put c cp r) c j ≡ transaction_id_for_connector r c j
  unfolding transaction_id_for_connector ensure get
  other_connector r c k j now cp conn h n =
      rw
        (
          get-put_self,
          transaction_id_for_connector,
          h,
          get-put_ne (connector_key k) (connector_key j) conn (ensure r c now).connectors n,
        )
        (elim (Option-cases (get c r)) [
          | inl e ↦ rw (e, ensure, transaction_id_for_connector) refl
          | inr (old, e) ↦ rw (e, ensure, transaction_id_for_connector) refl
        ])

  -- A write to one connector leaves what is shown of every other one.
  abbrev pub Spares : Registry F → Registry F → String → ℤ → Type 0
  Spares r after c k =
      (d : String) (j : ℤ)
      → IsInt64 j
      → (d ≢ c) ⊎ (j ≢ k)
      → transaction_id_for_connector after d j ≡ transaction_id_for_connector r d j

  spared :
      (r : Registry F) (c : String) (k : ℤ) (now : Time) (cp : ChargerState F)
      (conn : ConnectorState F)
      → cp.connectors ≡ put (connector_key k) conn (ensure r c now).connectors
      → IsInt64 k
      → Spares r (put c cp r) c k
  spared r c k now cp conn h a d j b (inl n) = other_charger r c d j cp n
  spared r c k now cp conn h a d j b (inr n) = elim (String_discrete d c) [
    | yes e ↦ rw e (other_connector r c k j now cp conn h (other_key k j a b n))
    | no m ↦ other_charger r c d j cp m
  ]

  -- What a message of one connector does to the registry leaves the transaction that is shown of
  -- every other connector, of the same charger or another, as it was. The connectors' numbers are
  -- 64-bit integers, so no two share a text.
  pub others_spared :
      (r : Registry F) (c : String) (k tid : ℤ) (told : Option ℤ) (reading : F)
      (status error_code : String) (now : Time)
      → IsInt64 k
      → Spares r (apply_start_transaction r c k tid reading now) c k
        × Spares r (apply_meter_value r c k told reading now) c k
        × Spares r (apply_status_notification r c k status error_code now) c k
        × Spares r (apply_stop_transaction r c k reading now) c k
  unfolding apply_start_transaction apply_meter_value apply_status_notification
      apply_stop_transaction
  others_spared r c k tid told reading status error_code now a = (
    spared r c k now _ _ refl a,
    spared r c k now _ _ refl a,
    spared r c k now _ _ refl a,
    spared r c k now _ _ refl a,
  )
