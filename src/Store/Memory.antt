-- ===== src/Store/Memory.antt =====
-- MemoryStore of internal/store: memory.go, limit_stop_memory.go, outbox_memory.go and
-- callback_reconcile_memory.go. A method holds the mutex from its first line to its last, so it is
-- one step of the store. A pointer out of the map is the entry, and a change through it is written
-- back; `clone_transaction` hands out a copy, so nothing outside aliases the map.
pub mod LimitStop
pub mod Outbox
pub mod Reconcile
pub mod Invariant
pub mod Run
pub mod Billing
pub mod Claims
use ocpphal_go.Prelude.{
  ℕ, zero, suc, ◌+◌, String, Bool, true, false, not, ◌&&◌, ◌||◌, Option, none, some, List, [], ◌∷◌,
  ℤ, Float, Key, ◌==◌, ◌!=◌, GoMap, get, put, ltb, leb, if◌then◌else◌, is_some, itoa, String_key,
  ℤ_key, ℕ_key, length,
}
use ocpphal_go.Store.Types.{
  Time, Transaction, CreateTransactionInput, UpdateLiveMeterInput, StopTransactionInput,
  ForceCloseTransactionInput, Value, text, flag, opaque, Payload, EnqueueCallbackInput,
  CallbackTask, Error, transaction_not_found, no_unique_id, marshal_failed, Result, ok, err,
  random_transaction_id, delta_kwh,
}

pub data Status : Type 0 where
  pending processing sent fatal : Status

pub record MemoryCallback : Type 0 where
  pub id : ℕ
  pub kind : String
  pub dedupe_key : String
  pub transaction_id : Option ℤ
  pub uuid_db : String
  pub target_url : String
  pub payload : Payload
  pub status : Status
  pub retries : ℕ
  pub max_retries : ℕ
  pub next_retry_at : Time
  pub last_error : String

-- `memory_outbox_id` is the package's counter, which numbers the callbacks. The counters are
-- int64 and go up by one for each insert; their overflow is out of reach.
pub record MemoryStore (F : Type 0) : Type 0 where
  pub next_row_id : ℕ
  pub transactions : GoMap ℤ (Transaction F)
  pub outbox : GoMap ℕ MemoryCallback
  pub memory_outbox_id : ℕ

-- What the surroundings give to one call: the clock, a new UUID, and the random draws.
pub record Env : Type 0 where
  pub now : Time
  pub uuid : String
  pub draws : ℕ → ℕ

module _ {F : Type 0} where
  abbrev pub write : MemoryStore F → ℤ → Transaction F → MemoryStore F
  write s tid tx = record s { transactions = put tid tx s.transactions }

module _ {F : Type 0} ⦃f : Float F⦄ where
  unfoldable pub new_memory_store : MemoryStore F
  new_memory_store = record {
    next_row_id = 1;
    transactions = [];
    outbox = [];
    memory_outbox_id = 0;
  }

  abbrev pub clone_transaction : Transaction F → Transaction F
  clone_transaction tx = tx

  -- The loop of CreateTransaction: the first drawn id that is free, within `n` attempts.
  unfoldable pub free_id : ℕ → ℕ → (ℕ → ℕ) → GoMap ℤ (Transaction F) → Option ℤ
  free_id zero attempt draws txs = none
  free_id (suc n) attempt draws txs =
      let later = free_id n (attempt + 1) draws txs in
      let tid = random_transaction_id (draws attempt) in
      if is_some (get tid txs) then later else some tid

  abbrev pub new_transaction : MemoryStore F → Env → CreateTransactionInput F → ℤ → Transaction F
  new_transaction s env input tid = record {
    id = s.next_row_id;
    uuid_db = env.uuid;
    charger_id = input.charger_id;
    connector_id = input.connector_id;
    meter_start = input.meter_start;
    meter_stop = none;
    total_consumption = none;
    start_time = env.now;
    stop_time = none;
    id_tag = input.id_tag;
    transaction_id = tid;
    is_single_session = input.is_single_session;
    max_kwh = none;
    limit_stop_requested = false;
  }

  abbrev pub insert_transaction :
      MemoryStore F
      → Env
      → CreateTransactionInput F
      → Option ℤ
      → Result (Transaction F) × MemoryStore F
  insert_transaction s env input none = (err no_unique_id, s)
  insert_transaction s env input (some tid) =
      let tx = new_transaction s env input tid in
      (
        ok (clone_transaction tx),
        record s { next_row_id = s.next_row_id + 1; transactions = put tid tx s.transactions },
      )

  unfoldable pub create_transaction :
      MemoryStore F → Env → CreateTransactionInput F → Result (Transaction F) × MemoryStore F
  create_transaction s env input =
      insert_transaction s env input (free_id 100 0 env.draws s.transactions)

  -- `tx.MeterStop` and `tx.TotalConsumption` from a new reading.
  abbrev pub metered : F → Transaction F → Transaction F
  metered reading tx = record tx {
    meter_stop = some reading;
    total_consumption = some (delta_kwh tx.meter_start reading);
  }

  abbrev pub update_found :
      MemoryStore F
      → UpdateLiveMeterInput F
      → Option (Transaction F)
      → Result (Transaction F) × MemoryStore F
  update_found s input none = (err transaction_not_found, s)
  update_found s input (some tx) =
      let tx' = metered input.meter_stop tx in
      if tx.charger_id != input.charger_id
      then (err transaction_not_found, s)
      else (ok (clone_transaction tx'), write s input.transaction_id tx')

  unfoldable pub update_live_meter :
      MemoryStore F → UpdateLiveMeterInput F → Result (Transaction F) × MemoryStore F
  update_live_meter s input = update_found s input (get input.transaction_id s.transactions)

  abbrev pub stopped : Time → F → Transaction F → Transaction F
  stopped now reading tx = record (metered reading tx) { stop_time = some now }

  abbrev pub stop_found :
      MemoryStore F
      → Time
      → StopTransactionInput F
      → Option (Transaction F)
      → Result (Transaction F) × MemoryStore F
  stop_found s now input none = (err transaction_not_found, s)
  stop_found s now input (some tx) =
      let tx' = stopped now input.meter_stop tx in
      if tx.charger_id != input.charger_id
      then (err transaction_not_found, s)
      else if is_some tx.stop_time
      then (ok (clone_transaction tx), s)
      else (ok (clone_transaction tx'), write s input.transaction_id tx')

  unfoldable pub stop_transaction :
      MemoryStore F → Time → StopTransactionInput F → Result (Transaction F) × MemoryStore F
  stop_transaction s now input = stop_found s now input (get input.transaction_id s.transactions)

  unfoldable pub force_close_transaction :
      MemoryStore F → Time → ForceCloseTransactionInput F → Result (Transaction F) × MemoryStore F
  unfolding stop_transaction
  force_close_transaction s now input = stop_transaction s now (record {
    charger_id = input.charger_id;
    transaction_id = input.transaction_id;
    meter_stop = input.meter_stop;
  })

  unfoldable pub get_by_transaction_id : MemoryStore F → String → ℤ → Result (Transaction F)
  get_by_transaction_id s charger_id transaction_id = elim (get transaction_id s.transactions) [
    | none ↦ err transaction_not_found
    | some tx ↦
        if tx.charger_id != charger_id then err transaction_not_found else ok (clone_transaction tx)
  ]

  unfoldable pub get_by_transaction_id_and_id_tag :
      MemoryStore F → ℤ → String → Result (Transaction F)
  get_by_transaction_id_and_id_tag s transaction_id id_tag =
      elim (get transaction_id s.transactions) [
        | none ↦ err transaction_not_found
        | some tx ↦
            if tx.id_tag != id_tag then err transaction_not_found else ok (clone_transaction tx)
      ]

  -- The loop of ListOpenTransactionsByCharger.
  unfoldable pub open_by_charger : String → GoMap ℤ (Transaction F) → List (Transaction F)
  open_by_charger charger_id [] = []
  open_by_charger charger_id ((_, tx) ∷ txs) =
      let out = open_by_charger charger_id txs in
      if tx.charger_id != charger_id
      then out
      else if is_some tx.stop_time
      then out
      else clone_transaction tx ∷ out

  unfoldable pub list_open_transactions_by_charger : MemoryStore F → String → List (Transaction F)
  unfolding open_by_charger
  list_open_transactions_by_charger s charger_id = open_by_charger charger_id s.transactions

  abbrev pub set_max_kwh : MemoryStore F → ℤ → F → Option (Transaction F) → MemoryStore F
  set_max_kwh s tid max none = s
  set_max_kwh s tid max (some tx) = write s tid (record tx { max_kwh = some max })

  unfoldable pub update_transaction_max_kwh : MemoryStore F → ℤ → F → MemoryStore F
  update_transaction_max_kwh s tid max = set_max_kwh s tid max (get tid s.transactions)
