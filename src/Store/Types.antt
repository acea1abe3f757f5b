-- ===== src/Store/Types.antt =====
-- The data of internal/store/store.go and the helpers of internal/store/util.go.
use ocpphal_go.Prelude.{ℕ, ◌+◌, ◌%◌, String, Bool, Option, List, ℤ, pos, Float, if◌then◌else◌}

-- time.Time as nanoseconds; 0 is the zero time.
abbrev pub Time : Type 0
Time = ℕ

-- `F` is float64. A `*float64` or `*time.Time` that may be nil is an option.
pub record Transaction (F : Type 0) : Type 0 where
  pub id : ℕ
  pub uuid_db : String
  pub charger_id : String
  pub connector_id : ℤ
  pub meter_start : F
  pub meter_stop : Option F
  pub total_consumption : Option F
  pub start_time : Time
  pub stop_time : Option Time
  pub id_tag : String
  pub transaction_id : ℤ
  pub is_single_session : Bool
  pub max_kwh : Option F
  pub limit_stop_requested : Bool

pub record CreateTransactionInput (F : Type 0) : Type 0 where
  pub charger_id : String
  pub connector_id : ℤ
  pub meter_start : F
  pub id_tag : String
  pub is_single_session : Bool

pub record UpdateLiveMeterInput (F : Type 0) : Type 0 where
  pub charger_id : String
  pub transaction_id : ℤ
  pub meter_stop : F

pub record StopTransactionInput (F : Type 0) : Type 0 where
  pub charger_id : String
  pub transaction_id : ℤ
  pub meter_stop : F

pub record ForceCloseTransactionInput (F : Type 0) : Type 0 where
  pub charger_id : String
  pub transaction_id : ℤ
  pub meter_stop : F
  pub reason : String

-- A value of a payload. `opaque` stands for a Go value that encoding/json refuses.
pub data Value : Type 0 where
  text : String → Value
  flag : Bool → Value
  opaque : Value

abbrev pub Payload : Type 0
Payload = List (String × Value)

pub record EnqueueCallbackInput : Type 0 where
  pub kind : String
  pub dedupe_key : String
  pub transaction_id : Option ℤ
  pub uuid_db : String
  pub target_url : String
  pub payload : Payload
  pub max_retries : ℕ

-- `payload` is the JSON text, given by the object that it encodes.
pub record CallbackTask : Type 0 where
  pub id : ℕ
  pub kind : String
  pub dedupe_key : String
  pub transaction_id : Option ℤ
  pub uuid_db : String
  pub target_url : String
  pub payload : Payload
  pub retries : ℕ
  pub max_retries : ℕ

pub data Error : Type 0 where
  transaction_not_found : Error
  no_unique_id : Error
  marshal_failed : Error
  failure : String → Error
  wrapped : String → Error → Error

pub data Result {ℓ} (A : Type ℓ) : Type ℓ where
  ok : A → Result A
  err : Error → Result A

abbrev pub max_transaction_id : ℕ
max_transaction_id = 2147483647

-- `mathrand.Int63n(max) + 1`, from the number that was drawn.
unfoldable pub random_transaction_id : ℕ → ℤ
random_transaction_id drawn = pos (drawn % max_transaction_id + 1)

-- The energy between two readings of a 32-bit counter.
unfoldable pub delta_wh : {F : Type 0} ⦃f : Float F⦄ → F → F → F
delta_wh ⦃f⦄ previous current =
    let rollover = f.of_int (pos 4294967295) in
    let delta = f.sub current previous in
    if f.fle (f.of_int (pos 0)) delta
    then delta
    else f.add (f.add current (f.sub rollover previous)) (f.of_int (pos 1))

-- `DeltaWh(start, stop) / 1000.0`
unfoldable pub delta_kwh : {F : Type 0} ⦃f : Float F⦄ → F → F → F
unfolding delta_wh
delta_kwh ⦃f⦄ start stop = f.div (delta_wh start stop) (f.of_int (pos 1000))
