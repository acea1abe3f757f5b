-- ===== src/Http/Exchange.antt =====
-- What goes into a handler of the HTTP API and what comes out of it.
use ocpphal_go.Prelude.{ℕ, String, Option, GoMap, Json}
use ocpphal_go.Config.{Config}
use ocpphal_go.Store.Types.{Time, Error, Result}
use ocpphal_go.Store.Analytics.{AnalyticsOutput}
use ocpphal_go.Store.Interface.{TransactionStore}
use ocpphal_go.Registry.Inactivity.{InactivityResult}
use ocpphal_go.Directory.{Call, ChargerDirectory}
use ocpphal_go.Hal.{Hal}
use ocpphal_go.Hal.Extra.{Central, Configuration}
use ocpphal_go.Http.Status.{Payload}

-- A request: its method, path and header `x-api-key`, and what the JSON decoder finds in its body,
-- `none` when that is no JSON.
pub record Request : Type 0 where
  pub method : String
  pub path : String
  pub api_key : String
  pub body : Option Json

-- The object that is written back.
pub data Body (F : Type 0) : Type 0 where
  no_body : Body F
  detail : String → Body F
  error : Error → Body F
  message : String → Body F
  status : String → Body F
  configuration : Configuration → Body F
  diagnostics : String → Body F
  triggered : String → Body F
  analytics : AnalyticsOutput F → Body F
  inactivity : InactivityResult F → Body F
  charger : Payload F → Body F
  chargers : GoMap String (Payload F) → Body F
  not_implemented : String → Body F

pub record Response (F : Type 0) : Type 0 where
  pub code : ℕ
  pub body : Body F

-- The fields of Server that do not change, with the package's variable `chargerDirectory`, and
-- time.Parse with the layout RFC3339Nano.
pub record Server (F S D : Type 0) : Type 0 where
  pub cfg : Config
  pub store : TransactionStore F S
  pub directory : Option (ChargerDirectory D)
  pub parse_time : String → Result Time

-- The state that the handlers read and write.
pub record World (F S D : Type 0) : Type 0 where
  pub hal : Hal F S
  pub directory : D

-- What the surroundings do during one request: the OCPP library, the service behind the charger
-- directory, and the clock.
pub record Moment : Type 0 where
  pub central : Central
  pub call : Call
  pub now : Time
