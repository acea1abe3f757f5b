-- ===== src/Tests.antt =====
-- Concrete inputs on which the theorems are applied: readings in whole numbers, a charger `A` with
-- one open transaction, and the state of the service around it.
pub mod Stores
pub mod Handlers
pub mod Callbacks
pub mod Chargers
pub mod Api
pub mod Console
use ocpphal_go.Prelude.{
  ℕ, ◌+◌, ◌-◌, ◌*◌, ◌/◌, String, true, false, Option, none, some, List, [], ◌∷◌, ℤ, pos, negsuc,
  Float, ltb, leb, eqb, atoi, itoa,
}
use ocpphal_go.Store.Types.{
  Transaction, CreateTransactionInput, StopTransactionInput, EnqueueCallbackInput, text,
  CallbackTask,
}
use ocpphal_go.Store.Memory.{MemoryStore, MemoryCallback, Env, pending}
use ocpphal_go.Hal.{Hal}
use ocpphal_go.Hal.Transactions.{StartTransactionRequest}
use ocpphal_go.Hooks.{Config}

abbrev pub whole : ℤ → ℕ
whole (pos n) = n
whole (negsuc n) = 0

abbrev pub whole_text : Option ℤ → Option ℕ
whole_text none = none
whole_text (some i) = some (whole i)

instance abbrev pub whole_numbers : Float ℕ
whole_numbers = record {
  of_int = whole;
  add = λ a b. a + b;
  sub = λ a b. a - b;
  mul = λ a b. a * b;
  div = λ a b. a / b;
  flt = ltb;
  fle = leb;
  feq = eqb;
  parse = λ t. whole_text (atoi t);
  seconds = λ n. n / 1000000000;
  format = λ n. itoa (pos n);
  is_finite = λ n. true;
  round = λ n. n;
  to_int = pos;
}

-- An open transaction over its limit.
abbrev pub open_transaction : Transaction ℕ
open_transaction = record {
  id = 1;
  uuid_db = "u";
  charger_id = "A";
  connector_id = pos 1;
  meter_start = 100;
  meter_stop = some 9100;
  total_consumption = some 9;
  start_time = 10;
  stop_time = none;
  id_tag = "tag";
  transaction_id = pos 8;
  is_single_session = false;
  max_kwh = some 5;
  limit_stop_requested = false;
}

abbrev pub waiting : MemoryCallback
waiting = record {
  id = 1;
  kind = "start_transaction";
  dedupe_key = "start_transaction:8";
  transaction_id = some (pos 8);
  uuid_db = "u";
  target_url = "http://cms";
  payload = ("transactionid", text "8") ∷ [];
  status = pending;
  retries = 0;
  max_retries = 6;
  next_retry_at = 10;
  last_error = "";
}

abbrev pub with_open : MemoryStore ℕ
with_open = record {
  next_row_id = 2;
  transactions = (pos 8, open_transaction) ∷ [];
  outbox = (1, waiting) ∷ [];
  memory_outbox_id = 1;
}

abbrev pub no_transactions : MemoryStore ℕ
no_transactions = record { next_row_id = 1; transactions = []; outbox = []; memory_outbox_id = 0 }

abbrev pub state_of : MemoryStore ℕ → Hal ℕ (MemoryStore ℕ)
state_of s = record {
  registry = [];
  store = s;
  connections = record { next = 0; active = [] };
  pending = [];
  sync_once = [];
  boot_running = [];
  started = [];
}

abbrev pub env : Env
env = record { now = 20; uuid = "v"; draws = λ i. i + 7 }

abbrev pub later : Env
later = record { now = 30; uuid = "w"; draws = λ i. i + 70 }

abbrev pub new_input : CreateTransactionInput ℕ
new_input = record {
  charger_id = "A";
  connector_id = pos 2;
  meter_start = 50;
  id_tag = "tag";
  is_single_session = false;
}

abbrev pub stop_input : StopTransactionInput ℕ
stop_input = record { charger_id = "A"; transaction_id = pos 8; meter_stop = 10100 }

abbrev pub request : StartTransactionRequest
request = record { connector_id = pos 1; id_tag = "tag"; meter_start = pos 100 }

abbrev pub other_request : StartTransactionRequest
other_request = record { connector_id = pos 1; id_tag = "other"; meter_start = pos 100 }

abbrev pub config : Config
config = record {
  main_cms_start_txn_hook_url = "http://cms/start";
  single_session_start_txn_hook_url = "";
  main_cms_completed_txn_url = "http://cms/done";
  single_session_completed_txn_url = "";
  rfc3339 = λ t. itoa (pos t);
}
