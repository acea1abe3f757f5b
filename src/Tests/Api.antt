-- ===== src/Tests/Api.antt =====
-- The theorems on the HTTP API, the charger directory, the configuration of a charger and the report,
-- on concrete inputs.
use native.Mathlib.Decide.{ℕ_discrete}
use ocpphal_go.Prelude.{
  ℤ_discrete, ◌≡◌, ◌≢◌, ◌↔◌, ◌⊎◌, refl, arith, ℕ, delete, if◌then◌else◌, ◌==◌, ◌^◌, ◌<◌, ◌≤◌,
  String, true, false, ◌&&◌, none, some, [], ◌∷◌, pos, get, ◌!=◌, String_key, ℤ_key,
  String_discrete, itoa, atoi, trim_space, Json, null, number, str, object, array, item, no_items,
  member, no_members, members, Members, equal_fold, is_blank, put,
}
use ocpphal_go.Config.{Config, load}
use ocpphal_go.Store.Types.{Error, failure, ok, err}
use ocpphal_go.Store.Updates.{TransactionUpdates}
use ocpphal_go.Store.Memory.{MemoryStore}
use ocpphal_go.Store.Analytics.{charger_analytics}
use ocpphal_go.Store.Analytics.Asked.{is_asked}
use ocpphal_go.Store.Analytics.Totals.{count_where, in_window, given, totals_lem}
use ocpphal_go.Store.Interface.{memory_transaction_store}
use ocpphal_go.Directory.{
  Service, Call, answered, undone, charger_directory, sprint, add_id, walk, extract_ids,
  validate_incoming_charger, known_charger_ids, is_known_charger, enabled,
}
use ocpphal_go.Directory.Extract.{Reach, OwnId, extract_ids_lem}
use ocpphal_go.Directory.Cache.{SameView, Delivers, reply, validate_lem, lists_agree}
use ocpphal_go.Hal.Outbound.{waits, confirmed, refused, remote_start_transaction}
use ocpphal_go.Hal.Extra.{Central}
use ocpphal_go.Http.Exchange.{Request, Server, World, Moment, status}
use ocpphal_go.Http.Requests.{RemoteStartRequest, decode_remote_start, charger_id_of}
use ocpphal_go.Http.Decode.{flexible_int, flexible_bool}
use ocpphal_go.Http.Handlers.{remote_start}
use ocpphal_go.Http.Handlers.Single.{Tells, single_start_answered}
use ocpphal_go.Http.Handlers.Plain.{plain_start_answered}
use ocpphal_go.Http.Routes.{routes}
use ocpphal_go.Http.Routes.Guarded.{Kept, routes-Kept}
use ocpphal_go.Http.Frontend.{
  parse_frontend_transaction_id, first_query_value, open_stream, woken, closed, watch,
}
use ocpphal_go.Http.Frontend.Ids.{parse_frontend_transaction_id_lem}
use ocpphal_go.Http.Frontend.Private.{ShownBy, watch-ShownBy, open_stream_hides}
use ocpphal_go.Tests.{whole_numbers, open_transaction, with_open, state_of}

-- A service with an API key and a charger directory.
abbrev cfg : Config
cfg = record (load (λ key. "")) { api_key = "secret"; charger_data_url = "http://data" }

-- Two chargers, one of them inside an array.
abbrev document : Json
document = object (
    member "data" (array (item (object (member "uid" (str " A ") no_members)) no_items)) no_members)

abbrev keep_text : String → String
keep_text n = n

abbrev up : Call
up = record { now = 50; answered_at = 51; client = λ url key. answered 200 (ok document) }

abbrev down : Call
down = record { now = 50; answered_at = 51; client = λ url key. undone (failure "down") }

abbrev empty_service : Service
empty_service = record { cached_ids = []; expires_at = 0 }

abbrev central : Central
central = record {
  call = λ c r. waits (confirmed (some "Accepted"));
  get_configuration = λ c keys. waits (confirmed none);
  get_diagnostics = λ c r. waits (confirmed (some "file"));
  update_firmware = λ c r. waits (confirmed (some tt));
  trigger_message = λ c message k. waits (confirmed (some "Accepted"));
}

abbrev moment : Moment
moment = record { central = central; call = up; now = 50 }

abbrev other_moment : Moment
other_moment = record { central = central; call = down; now = 60 }

abbrev server : Server ℕ (MemoryStore ℕ) Service
server = record {
  cfg = cfg;
  store = memory_transaction_store;
  directory = some (charger_directory keep_text cfg);
  parse_time = λ t. err (failure "no time");
}

abbrev world : World ℕ (MemoryStore ℕ) Service
world = record { hal = state_of with_open; directory = empty_service }

abbrev start_fields : Json
start_fields = object (
    member "uid" (str "A") (
      member "id_tag" (str "tag")
        (member "is_single_session" (str "true") (member "connector_id" (number "1") no_members))))

abbrev wrong_key : Request
wrong_key = record {
  method = "POST";
  path = "/api/start_transaction";
  api_key = "guess";
  body = some start_fields;
}

differs : (a b : String) → (a != b) ≡ true → a ≢ b
differs a b h e = ground arith

abbrev right_key : Request
right_key = record wrong_key { api_key = "secret" }

routes-Kept_example : Kept world (routes server moment world right_key).1
routes-Kept_example = routes-Kept server moment world right_key

is_on : enabled cfg ≡ true
unfolding enabled is_blank
is_on = refl

validate_lem_example :
    let id = trim_space "A" in
    ((validate_incoming_charger (some (charger_directory keep_text cfg)) empty_service up "A").0
      ≡ true)
    ↔ ((id ≢ "")
        × (((50 < 0) × (get id [] ≡ some tt))
            ⊎ ((0 ≤ 50) × Delivers keep_text cfg (reply keep_text cfg up) id)))
validate_lem_example = validate_lem keep_text cfg empty_service up "A" is_on

lists_agree_example :
    SameView
      (trim_space "A")
      (known_charger_ids keep_text cfg empty_service up).0
      (is_known_charger keep_text cfg empty_service up "A").0
lists_agree_example = lists_agree keep_text cfg empty_service up "A" is_on

extract_ids_lem_example :
    (get "A" (extract_ids keep_text document) ≡ some tt)
    ↔ ((ms : Members) × Reach document (object ms) × OwnId keep_text (get "uid" (members ms)) "A")
extract_ids_lem_example = extract_ids_lem keep_text document "A"

abbrev start_request : RemoteStartRequest
start_request = record {
  base = record { uid = "A"; charge_point_id = ""; client_id = "" };
  id_tag_snake = "tag";
  id_tag_camel = "";
  connector_id = pos 1;
  connector_id_camel = pos 0;
  is_single_session = true;
  single_session = false;
  single_session_camel = false;
}

start_fields_read : decode_remote_start (some start_fields) ≡ some start_request
unfolding decode_remote_start flexible_int flexible_bool equal_fold atoi trim_space String_discrete
start_fields_read = refl

A-empty : charger_id_of start_request.base ≢ ""
unfolding String_discrete charger_id_of
A-empty = differs "A" "" refl

tag-empty : ◌≢◌ {A = String} "tag" ""
unfolding String_discrete
tag-empty = differs "tag" "" refl

single_start_answered_example :
    Tells
      (remote_start moment world (some start_fields))
      (charger_id_of start_request.base)
      (pos 1)
      "tag"
unfolding String_discrete
single_start_answered_example =
    single_start_answered moment world (some start_fields) start_request start_fields_read A-empty
      tag-empty refl

abbrev plain_fields : Json
plain_fields = object (member "uid" (str "A") (member "id_tag" (str "tag") no_members))

abbrev plain_request : RemoteStartRequest
plain_request = record start_request { connector_id = pos 0; is_single_session = false }

plain_fields_read : decode_remote_start (some plain_fields) ≡ some plain_request
unfolding decode_remote_start flexible_int flexible_bool equal_fold atoi trim_space String_discrete
plain_fields_read = refl

-- The charger refuses every call.
abbrev refused_moment : Moment
refused_moment = record moment {
  central = record central { call = λ c q. refused (failure "gone") };
}

plain_start_answered_example :
    let called = remote_start_transaction refused_moment.central.call "A" "tag" (pos 0) in
    ((a : String) × (called ≡ ok a)
      × (remote_start refused_moment world (some plain_fields)
          ≡ (record { code = 200; body = status a }, world)))
    ⊎ ((e : Error) × (called ≡ err e)
        × (remote_start refused_moment world (some plain_fields)
            ≡ (record { code = 200; body = status "" }, world)))
unfolding String_discrete charger_id_of
plain_start_answered_example =
    plain_start_answered refused_moment world (some plain_fields) plain_request plain_fields_read
      A-empty tag-empty refl

watch-ShownBy_example :
    ShownBy
      (pos 8)
      "tag"
      (woken with_open 60 true ∷ closed ∷ [])
      (watch memory_transaction_store (pos 8) "tag" (woken with_open 60 true ∷ closed ∷ []))
watch-ShownBy_example = watch-ShownBy (pos 8) "tag" (woken with_open 60 true ∷ closed ∷ [])

-- Somebody asks for transaction 8 with another tag than its own.
abbrev guesses : String → String
guesses name = if name == "transaction_id" then "8" else if name == "id_tag" then "guess" else ""

abbrev nobody : TransactionUpdates
nobody = record { next_id = 0; subscribers = []; signals = []; done = [] }

asks_eight :
    parse_frontend_transaction_id
      (first_query_value guesses ("transaction_id" ∷ "transactionId" ∷ []))
    ≡ some (pos 8)
unfolding parse_frontend_transaction_id first_query_value atoi String_discrete
asks_eight = refl

tag-guess : ◌≢◌ {A = String} "tag" (first_query_value guesses ("id_tag" ∷ "idTag" ∷ []))
unfolding String_discrete first_query_value
tag-guess = differs "tag" "guess" refl

open_stream_hides_example :
    open_stream memory_transaction_store true with_open nobody "GET" guesses true
    ≡ open_stream memory_transaction_store true
        (record with_open { transactions = delete (pos 8) with_open.transactions })
        nobody
        "GET"
        guesses
        true
unfolding get ℤ_discrete ℕ_discrete
open_stream_hides_example =
    open_stream_hides with_open nobody true "GET" guesses true (pos 8) open_transaction asks_eight
      refl tag-guess

totals_lem_example :
    (charger_analytics with_open 90 (given "A" 0 100)).total_transactions
    ≡ count_where (λ tx. is_asked "A" tx && in_window 0 100 tx) with_open.transactions
totals_lem_example = totals_lem with_open 90 0 100 "A"

parse_frontend_transaction_id_lem_example :
    (parse_frontend_transaction_id "120" ≡ some (pos 120))
    ↔ ((0 < 120) × (120 < 2 ^ 31) × (itoa (pos 120) ≡ "120"))
parse_frontend_transaction_id_lem_example = parse_frontend_transaction_id_lem "120" 120

-- A null `uid` gives the id that fmt prints for it.
null_uid : get "<nil>" (extract_ids keep_text (object (member "uid" null no_members))) ≡ some tt
unfolding extract_ids walk sprint add_id trim_space get put String_discrete
null_uid = refl
