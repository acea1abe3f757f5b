-- ===== src/Directory/Extract.antt =====
-- extractIDs of internal/chargerdir/service.go: which ids it finds.
use ocpphal_go.Prelude.{
  ◌≡◌, ◌≢◌, ◌↔◌, ◌⊎◌, inl, inr, refl, sym, ap, subst, ◌∙◌, arith, String, Bool, true, Option, none,
  some, [], get, get-put, String_key, trim_space, Json, Items, Members, null, boolean, number, str,
  array, object, no_items, item, no_members, member, members, Bool-cases,
}
use ocpphal_go.Directory.{
  IdSet, sprint, add_id, add_uid, is_nested, walk, walk_items, walk_members, extract_ids,
}

-- The value is an element of the array.
abbrev pub HasItem : Json → Items → Type 0
HasItem w no_items = ⊥
HasItem w (item v vs) = (v ≡ w) ⊎ HasItem w vs

-- The object has this member.
abbrev pub HasMember : String → Json → Members → Type 0
HasMember key w no_members = ⊥
HasMember key w (member k v ms) = ((k ≡ key) × (v ≡ w)) ⊎ HasMember key w ms

-- The second value stands inside the first, under arrays and under members with one of the four
-- names.
pub data Reach : Json → Json → Type 0 where
  here : (v : Json) → Reach v v
  among : (vs : Items) (w v : Json) → HasItem w vs → Reach w v → Reach (array vs) v
  inside :
      (ms : Members) (key : String) (w v : Json)
      → HasMember key w ms
      → is_nested key ≡ true
      → Reach w v
      → Reach (object ms) v

module _ (float_text : String → String) where
  -- The id that an object with this member `uid` has.
  abbrev pub OwnId : Option Json → String → Type 0
  OwnId none id = ⊥
  OwnId (some v) id = (trim_space (sprint float_text v) ≡ id) × (id ≢ "")

  -- Some object inside the value has the id.
  abbrev pub HasId : Json → String → Type 0
  HasId v id = (ms : Members) × Reach v (object ms) × OwnId (get "uid" (members ms)) id

  abbrev HasIdItems : Items → String → Type 0
  HasIdItems vs id = (w : Json) × HasItem w vs × HasId w id

  abbrev HasIdMembers : Members → String → Type 0
  HasIdMembers ms id =
      (key : String) × (w : Json) × HasMember key w ms × (is_nested key ≡ true) × HasId w id

  get-add_uid :
      (o : Option Json) (ids : IdSet) (id : String)
      → (get id (add_uid float_text o ids) ≡ some tt) ↔ (OwnId o id ⊎ (get id ids ≡ some tt))
  unfolding add_id
  get-add_uid none ids id = ground arith
  get-add_uid (some v) ids id = grind (arith, get-put (trim_space (sprint float_text v)) id tt ids)

  HasId-null : (id : String) → HasId null id → ⊥
  HasId-null id (ms, r, o) = elim r [ ]

  HasId-boolean : (b : Bool) (id : String) → HasId (boolean b) id → ⊥
  HasId-boolean b id (ms, r, o) = elim r [ ]

  HasId-number : (n id : String) → HasId (number n) id → ⊥
  HasId-number n id (ms, r, o) = elim r [ ]

  HasId-str : (s id : String) → HasId (str s) id → ⊥
  HasId-str s id (ms, r, o) = elim r [ ]

  HasId-array : (vs : Items) (id : String) → HasId (array vs) id ↔ HasIdItems vs id
  HasId-array vs id = (apart, λ (w, i, (ms, r, o)). (ms, among vs w (object ms) i r, o))
    where
      apart : HasId (array vs) id → HasIdItems vs id
      apart (ms, among _ w _ i r, o) = (w, i, (ms, r, o))

  HasId-object :
      (ms : Members) (id : String)
      → HasId (object ms) id ↔ (OwnId (get "uid" (members ms)) id ⊎ HasIdMembers ms id)
  HasId-object ms id = (apart, joined)
    where
      apart : HasId (object ms) id → OwnId (get "uid" (members ms)) id ⊎ HasIdMembers ms id
      apart (ms', here _, o) = inl o
      apart (ms', inside _ key w _ i n r, o) = inr (key, w, i, n, (ms', r, o))

      joined : OwnId (get "uid" (members ms)) id ⊎ HasIdMembers ms id → HasId (object ms) id
      joined (inl o) = (ms, here (object ms), o)
      joined (inr (key, w, i, n, (ms', r, o))) = (ms', inside ms key w (object ms') i n r, o)

  HasIdItems-item :
      (v : Json) (vs : Items) (id : String)
      → HasIdItems (item v vs) id ↔ (HasId v id ⊎ HasIdItems vs id)
  HasIdItems-item v vs id = (apart, joined)
    where
      apart : HasIdItems (item v vs) id → HasId v id ⊎ HasIdItems vs id
      apart (w, inl e, h) = inl (subst (λ x. HasId x id) (sym e) h)
      apart (w, inr i, h) = inr (w, i, h)

      joined : HasId v id ⊎ HasIdItems vs id → HasIdItems (item v vs) id
      joined (inl h) = (v, inl refl, h)
      joined (inr (w, i, h)) = (w, inr i, h)

  HasIdMembers-member :
      (k : String) (v : Json) (ms : Members) (id : String)
      → HasIdMembers (member k v ms) id ↔ (((is_nested k ≡ true) × HasId v id) ⊎ HasIdMembers ms id)
  HasIdMembers-member k v ms id = (apart, joined)
    where
      apart :
          HasIdMembers (member k v ms) id → ((is_nested k ≡ true) × HasId v id) ⊎ HasIdMembers ms id
      apart (key, w, inl e, n, h) = inl (ap is_nested e.0 ∙ n, subst (λ x. HasId x id) (sym e.1) h)
      apart (key, w, inr i, n, h) = inr (key, w, i, n, h)

      joined :
          ((is_nested k ≡ true) × HasId v id) ⊎ HasIdMembers ms id → HasIdMembers (member k v ms) id
      joined (inl h) = (k, v, inl (refl, refl), h.0, h.1)
      joined (inr (key, w, i, n, h)) = (key, w, inr i, n, h)

  abbrev Held : String → IdSet → Type 0
  Held id ids = get id ids ≡ some tt

  mutual
    unfolding walk

    get-walk :
        (v : Json) (ids : IdSet) (id : String)
        → Held id (walk float_text v ids) ↔ (HasId v id ⊎ Held id ids)
    get-walk null ids id = (inr, λ h. elim h [ inl x ↦ absurd (HasId-null id x) | inr e ↦ e ])
    get-walk (boolean b) ids id =
        (inr, λ h. elim h [ inl x ↦ absurd (HasId-boolean b id x) | inr e ↦ e ])
    get-walk (number n) ids id =
        (inr, λ h. elim h [ inl x ↦ absurd (HasId-number n id x) | inr e ↦ e ])
    get-walk (str s) ids id = (inr, λ h. elim h [ inl x ↦ absurd (HasId-str s id x) | inr e ↦ e ])
    get-walk (array vs) ids id = ground (arith, get-walk_items vs ids id, HasId-array vs id)
    get-walk (object ms) ids id =
        let own = get "uid" (members ms) in
        ground (
          arith,
          get-walk_members ms (add_uid float_text own ids) id,
          get-add_uid own ids id,
          HasId-object ms id,
        )

    get-walk_items :
        (vs : Items) (ids : IdSet) (id : String)
        → Held id (walk_items float_text vs ids) ↔ (HasIdItems vs id ⊎ Held id ids)
    get-walk_items no_items ids id = (inr, λ h. elim h [ inl x ↦ absurd x.1 | inr e ↦ e ])
    get-walk_items (item v vs) ids id = ground (
      arith,
      get-walk_items vs (walk float_text v ids) id,
      get-walk v ids id,
      HasIdItems-item v vs id,
    )

    get-walk_members :
        (ms : Members) (ids : IdSet) (id : String)
        → Held id (walk_members float_text ms ids) ↔ (HasIdMembers ms id ⊎ Held id ids)
    get-walk_members no_members ids id = (inr, λ h. elim h [ inl x ↦ absurd x.2 | inr e ↦ e ])
    get-walk_members (member k v ms) ids id = elim (Bool-cases (is_nested k)) [
      | inl e ↦ rw e (
          ground (
            arith,
            get-walk_members ms (walk float_text v ids) id,
            get-walk v ids id,
            HasIdMembers-member k v ms id,
          ))
      | inr e ↦ rw e (ground (arith, get-walk_members ms ids id, HasIdMembers-member k v ms id))
    ]

  -- The ids that a refresh of the charger directory takes from the answer are exactly the texts, not
  -- empty, that some object in it has under `uid` after the spaces around it are cut, where the object
  -- is the answer itself or stands in it under arrays and under members named data, chargers,
  -- charger_data or user_chargerunit_details.
  pub extract_ids_lem :
      (raw : Json) (id : String)
      → (get id (extract_ids float_text raw) ≡ some tt)
        ↔ ((ms : Members) × Reach raw (object ms) × OwnId (get "uid" (members ms)) id)
  unfolding extract_ids get
  extract_ids_lem raw id =
      let (apart, joined) = get-walk raw [] id in
      (λ h. elim (apart h) [ inl x ↦ x | inr e ↦ cc ], λ x. joined (inl x))
