-- ===== src/Directory/Cache.antt =====
-- The cache of internal/chargerdir/service.go: when the service is asked, and what is answered.
use ocpphal_go.Prelude.{
  ◌≡◌, ◌≢◌, ◌↔◌, ◌⊎◌, ◌<◌, ◌≤◌, inl, inr, refl, arith, String, Bool, true, false, Option, none,
  some, List, [], ◌∷◌, get, ◌==◌, ◌!=◌, String_key, trim_space, Bool-cases, if◌then◌else◌, is_some,
  ◌&&◌, ◌||◌, leb, Sorted, Within, sort_strings, sort-Sorted, Within-sort, ltb,
}
use ocpphal_go.Store.Types.{Time, Error, Result, ok, err}
use ocpphal_go.Config.{Config}
use ocpphal_go.Directory.{
  IdSet, Service, Call, Reply, is_valid, unmade, undone, answered, received, enabled, extract_ids,
  fetch_and_cache, get_ids, is_known_charger, known_charger_ids, sorted_keys, known_in, keys,
  validate_incoming_charger, charger_directory,
}

Within-keys : (id : String) (ids : IdSet) → Within id (keys ids) ↔ (get id ids ≡ some tt)
unfolding get
Within-keys id [] = ground arith
Within-keys id ((j, tt) ∷ ids) = ground (arith, Within-keys id ids)

is_some_tt : (o : Option (Unit {0})) → (is_some o ≡ true) ↔ (o ≡ some tt)
is_some_tt none = ground arith
is_some_tt (some tt) = ground arith

-- What the two answers say of each other, for ids from anywhere.
abbrev pub SameView : String → Result (List String) → Result Bool → Type 0
SameView id listed known =
    ((e : Error) × (listed ≡ err e) × ((id ≡ "") ⊎ (known ≡ err e)))
    ⊎ ((ids : List String) × (listed ≡ ok ids)
        × Sorted ids
        × ((known ≡ ok true) ↔ ((id ≢ "") × Within id ids)))

agree :
    (id : String) (r : Result IdSet)
    → SameView id (sorted_keys r) (if id == "" then ok false else known_in id r)
agree id (err e) = inl (e, refl, ground arith)
agree id (ok ids) = inr (
  sort_strings (keys ids),
  refl,
  sort-Sorted (keys ids),
  ground (arith, Within-sort id (keys ids), Within-keys id ids, is_some_tt (get id ids)),
)

module _ (float_text : String → String) (c : Config) where
  -- A call that finds the cache still valid answers from it and leaves it as it is, whatever the
  -- service would say: a charger is known when its trimmed id is not empty and is one of the ids.
  pub fresh_cache :
      (s : Service) (call : Call) (charger_id : String)
      → enabled c ≡ true
      → call.now < s.expires_at
      → is_known_charger float_text c s call charger_id ≡ (
        ok (trim_space charger_id != "" && is_some (get (trim_space charger_id) s.cached_ids)),
        s,
      )
  unfolding is_known_charger
  fresh_cache s call charger_id on h = ground (arith, h)

  listed_lem :
      (s : Service) (call : Call)
      → enabled c ≡ true
      → (known_charger_ids float_text c s call).0 ≡ sorted_keys (get_ids float_text c s call).0
  unfolding known_charger_ids
  listed_lem s call on = rw on refl

  known_lem :
      (s : Service) (call : Call) (charger_id : String)
      → enabled c ≡ true
      → (is_known_charger float_text c s call charger_id).0 ≡ (
          if trim_space charger_id == ""
          then ok false
          else known_in (trim_space charger_id) (get_ids float_text c s call).0)
  unfolding is_known_charger
  known_lem s call charger_id on = rw on (ground arith)

  -- With the directory enabled and in the same state, during the same call, the list of the known
  -- chargers and the question about one charger agree. Both give the same error (the question
  -- about an empty id gives none), or there are ids: the
  -- list is in order, it holds an id exactly when that id is among them, and a charger is known exactly
  -- when its id without the spaces around it is in the list and not empty.
  pub lists_agree :
      (s : Service) (call : Call) (charger_id : String)
      → enabled c ≡ true
      → SameView
          (trim_space charger_id)
          (known_charger_ids float_text c s call).0
          (is_known_charger float_text c s call charger_id).0
  lists_agree s call charger_id on =
      rw (listed_lem s call on, known_lem s call charger_id on)
        (agree (trim_space charger_id) (get_ids float_text c s call).0)

  -- What the service answers to a call.
  abbrev pub reply : Call → Reply
  reply call =
      call.client c.charger_data_url (if c.api_auth_key != "" then some c.api_auth_key else none)

  -- The answer has a status of success and a body of JSON in which the id is found.
  abbrev pub Delivers : Reply → String → Type 0
  Delivers (unmade e) id = ⊥
  Delivers (undone e) id = ⊥
  Delivers (answered code (err e)) id = ⊥
  Delivers (answered code (ok raw)) id =
      (200 ≤ code) × (code < 300) × (get id (extract_ids float_text raw) ≡ some tt)

  abbrev Finds : Result IdSet → String → Type 0
  Finds (err e) id = ⊥
  Finds (ok ids) id = get id ids ≡ some tt

  valid_known : (id : String) (r : Result IdSet) → (is_valid (known_in id r) ≡ true) ↔ Finds r id
  valid_known id (err e) = (λ h. cc, λ h. absurd h)
  valid_known id (ok ids) = is_some_tt (get id ids)

  received-Delivers :
      (s : Service) (t : Time) (r : Reply) (id : String)
      → Finds (received float_text c s t r).0 id ↔ Delivers r id
  received-Delivers s t (unmade e) id = ground arith
  received-Delivers s t (undone e) id = ground arith
  received-Delivers s t (answered code (err e)) id =
      elim (Bool-cases (ltb code 200 || leb 300 code)) [
        | inl e' ↦ rw e' (ground arith)
        | inr e' ↦ rw e' (ground arith)
      ]
  received-Delivers s t (answered code (ok raw)) id =
      elim (Bool-cases (ltb code 200 || leb 300 code)) [
        | inl e' ↦ rw e' (ground arith)
        | inr e' ↦ rw e' (ground arith)
      ]

  got-Finds :
      (s : Service) (call : Call) (id : String)
      → Finds (get_ids float_text c s call).0 id ↔ (
          ((call.now < s.expires_at) × (get id s.cached_ids ≡ some tt))
          ⊎ ((s.expires_at ≤ call.now) × Delivers (reply call) id))
  unfolding get_ids fetch_and_cache
  got-Finds s call id = elim (Bool-cases (ltb call.now s.expires_at)) [
    | inl e ↦ rw e (ground arith)
    | inr e ↦ rw e (ground (arith, received-Delivers s call.answered_at (reply call) id))
  ]

  looked_up :
      (id : String) (r : Result IdSet)
      → (is_valid (if id == "" then ok false else known_in id r) ≡ true) ↔ ((id ≢ "") × Finds r id)
  looked_up id r = ground (arith, valid_known id r)

  -- With a directory that is enabled, a charger that connects is let in exactly when its id without the
  -- spaces around it is not empty and either the cache is still valid and holds that id, or the cache
  -- has run out and the service now answers, with a status from 200 to 299, JSON in which the id is
  -- found. So once the cache has run out, every failure to reach the service keeps the charger out.
  pub validate_lem :
      (s : Service) (call : Call) (charger_id : String)
      → enabled c ≡ true
      → let id = trim_space charger_id in
        ((validate_incoming_charger (some (charger_directory float_text c)) s call charger_id).0
          ≡ true)
        ↔ ((id ≢ "")
            × (((call.now < s.expires_at) × (get id s.cached_ids ≡ some tt))
                ⊎ ((s.expires_at ≤ call.now) × Delivers (reply call) id)))
  unfolding validate_incoming_charger
  validate_lem s call charger_id on = rw (known_lem s call charger_id on) (
      ground (
        arith,
        looked_up (trim_space charger_id) (get_ids float_text c s call).0,
        got-Finds s call (trim_space charger_id),
      ))
