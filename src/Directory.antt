-- ===== src/Directory.antt =====
-- internal/chargerdir/service.go: which chargers the system knows, read from a service and kept for a
-- while; the two places that ask are internal/ocpp16hal/charger_validation.go and
-- internal/httpapi/charger_directory.go.
pub mod Extract
pub mod Cache
use ocpphal_go.Prelude.{
  ℕ, ◌+◌, ◌-◌, ◌*◌, ◌%◌, ◌^◌, String, Bool, true, false, not, ◌&&◌, ◌||◌, Option, none, some, List,
  [], ◌∷◌, ◌++◌, ℤ, pos, negsuc, suc, GoMap, get, put, ◌==◌, ◌!=◌, String_key, is_some, is_blank,
  trim_space, itoa, sort_strings, text_leb, ltb, leb, if◌then◌else◌, ◌<>◌, Json, Items, Members,
  null, boolean, number, str, array, object, no_items, item, no_members, member, members,
}
use ocpphal_go.Store.Types.{Time, Error, failure, Result, ok, err}
use ocpphal_go.Config.{Config}

-- A Go map to struct{}.
abbrev pub IdSet : Type 0
IdSet = GoMap String (Unit {0})

-- `cachedIDs` is never nil: NewService makes it, and a fetch replaces it by a map.
pub record Service : Type 0 where
  pub cached_ids : IdSet
  pub expires_at : Time

abbrev pub new_service : Service
new_service = record { cached_ids = []; expires_at = 0 }

unfoldable pub enabled : Config → Bool
enabled c = not (is_blank c.charger_data_url)

-- The texts with a space between them.
unfoldable pub spaced : List String → String
spaced [] = ""
spaced (s ∷ []) = s
spaced (s ∷ t ∷ ss) = s <> " " <> spaced (t ∷ ss)

-- Printing a Go map goes by the order of its keys.
unfoldable pub insert_key : String → String → List (String × String) → List (String × String)
insert_key k v [] = (k, v) ∷ []
insert_key k v ((j, w) ∷ m) =
    if text_leb k j then (k, v) ∷ (j, w) ∷ m else (j, w) ∷ insert_key k v m

abbrev pub with_colons : List (String × String) → List String
with_colons [] = []
with_colons ((k, v) ∷ m) = (k <> ":" <> v) ∷ with_colons m

abbrev pub is_nested : String → Bool
is_nested key =
    key == "data" || key == "chargers" || key == "charger_data" || key == "user_chargerunit_details"

-- `float_text` is the text that fmt prints for the float64 that a JSON number is read as.
module _ (float_text : String → String) where
  -- fmt.Sprint of a value that encoding/json made.
  unfoldable mutual
    pub sprint : Json → String
    sprint null = "<nil>"
    sprint (boolean true) = "true"
    sprint (boolean false) = "false"
    sprint (number n) = float_text n
    sprint (str s) = s
    sprint (array vs) = "[" <> spaced (sprint_items vs) <> "]"
    sprint (object ms) = "map[" <> spaced (with_colons (sprint_members ms)) <> "]"

    sprint_items : Items → List String
    sprint_items no_items = []
    sprint_items (item v vs) = sprint v ∷ sprint_items vs

    sprint_members : Members → List (String × String)
    sprint_members no_members = []
    sprint_members (member k v ms) = insert_key k (sprint v) (sprint_members ms)

  unfoldable pub add_id : Json → IdSet → IdSet
  add_id uid_raw ids =
      let uid = trim_space (sprint uid_raw) in if uid != "" then put uid tt ids else ids

  abbrev pub add_uid : Option Json → IdSet → IdSet
  add_uid none ids = ids
  add_uid (some uid_raw) ids = add_id uid_raw ids

  -- The closure `walk` of extractIDs.
  unfoldable mutual
    pub walk : Json → IdSet → IdSet
    walk (object ms) ids = walk_members ms (add_uid (get "uid" (members ms)) ids)
    walk (array vs) ids = walk_items vs ids
    walk null ids = ids
    walk (boolean b) ids = ids
    walk (number n) ids = ids
    walk (str s) ids = ids

    walk_items : Items → IdSet → IdSet
    walk_items no_items ids = ids
    walk_items (item v vs) ids = walk_items vs (walk v ids)

    walk_members : Members → IdSet → IdSet
    walk_members no_members ids = ids
    walk_members (member key value ms) ids =
        walk_members ms (if is_nested key then walk value ids else ids)

  unfoldable pub extract_ids : Json → IdSet
  extract_ids raw = walk raw []

-- What becomes of a request to the service: it cannot be made, it fails, or there is an answer with
-- its status and what the JSON decoder made of its body.
pub data Reply : Type 0 where
  unmade : Error → Reply
  undone : Error → Reply
  answered : ℕ → Result Json → Reply

-- The world during one call: the clock when it starts, the clock when it has an answer, and what the
-- HTTP client does with a URL and the header `apiauthkey`.
pub record Call : Type 0 where
  pub now : Time
  pub answered_at : Time
  pub client : String → Option String → Reply

-- `t.Add(time.Duration(seconds) * time.Second)`, with the product in 64 bits
unfoldable pub add_seconds : Time → ℤ → Time
add_seconds t (pos n) =
    let d = n * 1000000000 % 2 ^ 64 in if ltb d (2 ^ 63) then t + d else t - (2 ^ 64 - d)
add_seconds t (negsuc n) =
    let d = (n + 1) * 1000000000 % 2 ^ 64 in if leb d (2 ^ 63) then t - d else t + (2 ^ 64 - d)

abbrev pub only_error : Result IdSet → Result (Unit {0})
only_error (ok ids) = ok tt
only_error (err e) = err e

abbrev pub known_in : String → Result IdSet → Result Bool
known_in id (err e) = err e
known_in id (ok ids) = ok (is_some (get id ids))

abbrev pub keys : IdSet → List String
keys [] = []
keys ((id, _) ∷ ids) = id ∷ keys ids

abbrev pub sorted_keys : Result IdSet → Result (List String)
sorted_keys (err e) = err e
sorted_keys (ok ids) = ok (sort_strings (keys ids))

module _ (float_text : String → String) where
  abbrev pub stored : Config → Service → Time → Result Json → Result IdSet × Service
  stored c s t (err e) = (err e, s)
  stored c s t (ok raw) =
      let ids = extract_ids float_text raw in
      (
        ok ids,
        record { cached_ids = ids; expires_at = add_seconds t c.charger_data_cache_ttl_seconds },
      )

  abbrev pub received : Config → Service → Time → Reply → Result IdSet × Service
  received c s t (unmade e) = (err e, s)
  received c s t (undone e) = (err e, s)
  received c s t (answered code body) =
      if ltb code 200 || leb 300 code
      then (err (failure ("charger data endpoint returned HTTP " <> itoa (pos code))), s)
      else stored c s t body

  unfoldable pub fetch_and_cache : Config → Service → Call → Result IdSet × Service
  fetch_and_cache c s call =
      received c s call.answered_at (
        call.client c.charger_data_url (if c.api_auth_key != "" then some c.api_auth_key else none))

  unfoldable pub refresh : Config → Service → Call → Result (Unit {0}) × Service
  unfolding fetch_and_cache
  refresh c s call = let (ids, s') = fetch_and_cache c s call in (only_error ids, s')

  unfoldable pub get_ids : Config → Service → Call → Result IdSet × Service
  get_ids c s call =
      if ltb call.now s.expires_at then (ok s.cached_ids, s) else fetch_and_cache c s call

  unfoldable pub is_known_charger : Config → Service → Call → String → Result Bool × Service
  unfolding get_ids
  is_known_charger c s call charger_id =
      let id = trim_space charger_id in
      let (ids, s') = get_ids c s call in
      if id == ""
      then (ok false, s)
      else if not (enabled c)
      then (ok true, s)
      else (known_in id ids, s')

  unfoldable pub known_charger_ids : Config → Service → Call → Result (List String) × Service
  unfolding get_ids
  known_charger_ids c s call =
      let (ids, s') = get_ids c s call in
      if not (enabled c) then (ok [], s) else (sorted_keys ids, s')

-- The interfaces ChargerDirectory of the two clients, on the directory's state `D`.
pub record ChargerDirectory (D : Type 0) : Type 0 where
  pub is_known_charger : D → Call → String → Result Bool × D
  pub known_charger_ids : D → Call → Result (List String) × D

abbrev pub charger_directory : (String → String) → Config → ChargerDirectory Service
charger_directory float_text c = record {
  is_known_charger = is_known_charger float_text c;
  known_charger_ids = known_charger_ids float_text c;
}

abbrev pub is_valid : Result Bool → Bool
is_valid (err e) = false
is_valid (ok known) = known

-- The variable `chargerDirectory`, nil where it is not set, with the directory's state.
module _ {D : Type 0} where
  -- charger_validation.go
  unfoldable pub validate_incoming_charger :
      Option (ChargerDirectory D) → D → Call → String → Bool × D
  validate_incoming_charger none d call charge_point_id = (true, d)
  validate_incoming_charger (some dir) d call charge_point_id =
      let (known, d') = dir.is_known_charger d call charge_point_id in (is_valid known, d')

  -- isKnownCharger and knownChargerIDs of httpapi/charger_directory.go
  unfoldable pub is_known : Option (ChargerDirectory D) → D → Call → String → Result Bool × D
  is_known none d call charger_id = (ok true, d)
  is_known (some dir) d call charger_id = dir.is_known_charger d call charger_id

  unfoldable pub known_ids : Option (ChargerDirectory D) → D → Call → Result (List String) × D
  known_ids none d call = (ok [], d)
  known_ids (some dir) d call = dir.known_charger_ids d call
