-- ===== src/Http/Status/Listed.antt =====
-- Which chargers a status answer lists, and what it shows of a connector.
use ocpphal_go.Prelude.{
  ◌≡◌, ◌↔◌, refl, arith, String, Bool, true, false, Option, none, some, is_some, List, [], ◌∷◌, ℤ,
  Float, GoMap, get, put, get-put, String_key, ◌==◌, String_discrete, if◌then◌else◌, Within,
}
use ocpphal_go.Store.Types.{Time}
use ocpphal_go.Registry.{ConnectorState, ChargerState, Registry, snapshot}
use ocpphal_go.Http.Status.{
  Shown, nil, text, float, integer, Item, Payload, encoded, legacy_item, known_online, known_all,
  add_online, payload_or_offline, legacy_status_payload,
}

module _ {F : Type 0} ⦃f : Float F⦄ where
  abbrev pub is_online : Option (ChargerState F) → Bool
  is_online none = false
  is_online (some cp) = cp.online

  get-add_online :
      (o : Option (ChargerState F)) (id k : String) (later : GoMap String (Payload F))
      → is_some (get k (add_online o id later)) ≡ (
          if id == k
          then (if is_online o then true else is_some (get k later))
          else is_some (get k later))
  get-add_online none id k later = ground arith
  get-add_online (some cp) id k later =
      ground (arith, get-put id k (legacy_status_payload cp "all_online" id) later)

  -- With a list of known chargers, the answer for `all_online` has an entry for exactly those of the
  -- list that the registry has and has online, and the answer for `all` one for exactly those of the
  -- list, whether the registry has them or not.
  pub listed_lem :
      (r : Registry F) (ids : List String) (mode k : String)
      → ((is_some (get k (known_online r ids)) ≡ true)
          ↔ (Within k ids × (is_online (snapshot r k) ≡ true)))
        × ((is_some (get k (known_all r mode ids)) ≡ true) ↔ Within k ids)
  unfolding known_online known_all get
  listed_lem r [] mode k = ground arith
  listed_lem r (id ∷ ids) mode k = (
    ground
        (arith, listed_lem r ids mode k, get-add_online (snapshot r id) id k (known_online r ids)),
    ground (
      arith,
      listed_lem r ids mode k,
      get-put id k (payload_or_offline (snapshot r id) mode id) (known_all r mode ids),
    ),
  )

  abbrev pub shown_float : Option F → Shown F
  shown_float none = nil
  shown_float (some x) = float x

  abbrev pub shown_integer : Option ℤ → Shown F
  shown_integer none = nil
  shown_integer (some n) = integer n

  -- What a connector's object has to have.
  abbrev pub Shows : Item F → ConnectorState F → Type 0
  Shows item conn =
      (get "last_meter_value" item ≡ some (shown_float conn.last_meter_value))
      × (get "latest_meter_value" item ≡ some (shown_float conn.last_meter_value))
      × (get "last_transaction_consumption_kwh" item
          ≡ some (float conn.last_transaction_consumption_kwh))
      × (get "latest_transaction_consumption_kwh" item
          ≡ some (float conn.last_transaction_consumption_kwh))
      × (get "transaction_id" item ≡ some (shown_integer conn.transaction_id))
      × (get "latest_transaction_id" item ≡ some (shown_integer conn.transaction_id))
      × (get "error_code" item ≡ some (text conn.error_code))
      × (get "status" item ≡ some (text conn.status))

  shows :
      (status error_code : String) (last : Option F) (used : F) (tid : Option ℤ) (at : Option Time)
      → let conn : ConnectorState F = record {
        status = status;
        last_meter_value = last;
        last_transaction_consumption_kwh = used;
        error_code = error_code;
        transaction_id = tid;
        last_meter_received = at;
      } in
        Shows (legacy_item (encoded conn)) conn
  unfolding legacy_item encoded get put String_discrete
  shows status error_code none used none none = (refl, refl, refl, refl, refl, refl, refl, refl)
  shows status error_code none used none (some t) = (refl, refl, refl, refl, refl, refl, refl, refl)
  shows status error_code none used (some n) none = (refl, refl, refl, refl, refl, refl, refl, refl)
  shows status error_code none used (some n) (some t) =
      (refl, refl, refl, refl, refl, refl, refl, refl)
  shows status error_code (some x) used none none = (refl, refl, refl, refl, refl, refl, refl, refl)
  shows status error_code (some x) used none (some t) =
      (refl, refl, refl, refl, refl, refl, refl, refl)
  shows status error_code (some x) used (some n) none =
      (refl, refl, refl, refl, refl, refl, refl, refl)
  shows status error_code (some x) used (some n) (some t) =
      (refl, refl, refl, refl, refl, refl, refl, refl)

  -- A connector is shown with its status and error code, and with its reading, its last consumption and
  -- its transaction under the old and the new name, where null stands for a reading or a transaction
  -- that it does not have.
  pub shown_lem : (conn : ConnectorState F) → Shows (legacy_item (encoded conn)) conn
  shown_lem conn =
      shows conn.status conn.error_code conn.last_meter_value conn.last_transaction_consumption_kwh
        conn.transaction_id conn.last_meter_received
