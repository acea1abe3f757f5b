-- ===== src/Lib.antt =====
-- OCPPHAL Go: the service between OCPP 1.6 chargers and a charging management system (CMS).
--
-- A charger connects over OCPP. Its messages reach the handlers of internal/ocpp16hal, which keep the
-- live view of the chargers (internal/state), the transactions (internal/store), and an outbox of
-- callbacks that internal/hooks delivers to the CMS over HTTP. The CMS answers a start callback with
-- a limit, and a transaction over its limit is stopped at the charger. After a boot of a charger its
-- open transactions are recovered. internal/httpapi lets the CMS and the frontend start and stop
-- transactions, configure chargers and watch them; internal/chargerdir knows which chargers there are.
--
-- The modules and the code that they are about:
--   Prelude             numbers, Go maps (GoMap, with its laws), strconv's Itoa and Atoi, text
--                       comparison, and the interface Float, which stands for float64
--   Store.Types         internal/store/store.go, util.go: the records, random ids, DeltaWh
--   Config              internal/config/config.go
--   Store.Memory        internal/store/memory.go; its child modules LimitStop, Outbox and Reconcile
--                       are limit_stop_memory.go, outbox_memory.go and callback_reconcile_memory.go.
--                       Invariant, Run, Billing, Claims, Outbox.Unique, Outbox.Delivery and
--                       Reconcile.Complete are their theorems; Run has histories of any calls
--   Store.Updates       internal/store/transaction_updates.go (Subscribe, Publish, cancel);
--                       theorems in Updates.Signals
--   Store.Analytics     internal/store/analytics_memory.go and analytics_types.go; its texts are in
--                       Format (theorems in Exact); theorems in Asked and Totals
--   Store.Interface     the interface TransactionStore as a record of operations on a state, the
--                       MemoryStore as one, and WithTransactionUpdates as another around it;
--                       theorems in Announced
--   Registry            internal/state/registry.go, and Registry.Inactivity inactivity.go; theorems
--                       in Registry.Transactions and Registry.Inactivity.Once
--   Directory           internal/chargerdir/service.go, internal/ocpp16hal/charger_validation.go and
--                       internal/httpapi/charger_directory.go; theorems in Extract and Cache
--   Hal                 internal/ocpp16hal: the HAL's state, and the plain handlers of hal.go
--   Hal.Connections     connections.go; theorems in Order
--   Hal.Pending         single_session.go; theorems in Consume
--   Hal.Meter           extractMeterValueWh of hal.go; theorem in Last, and Reading says what a reading is
--   Hal.Outbound        the calls to a charger of hal.go and single_session.go; theorems in Start
--   Hal.Extra           extra.go, and GetConfiguration of hal.go
--   Hal.RemoteOnly      remote_only.go (EnforceRemoteOnlyMode); theorem in Settled
--   Hal.LimitStop       limit_stop.go; theorems in Bounds
--   Hal.Transactions    StartTransaction, MeterValues, StopTransaction and BootNotification of
--                       hal.go; theorems in OneOpen, Retries, Reachable
--                       (any messages in any order) and Stops
--   Hal.Recovery        recovery.go; theorems in Boot
--   Hooks               internal/hooks/manager.go: what is enqueued, and the reconciliation; the
--                       theorems in Enqueue say what the handlers need of it
--   Hooks.Worker        the worker of manager.go; theorems in Outcome and Exhausted, over Marks
--   Http.Decode         internal/httpapi/compat_json.go, and how encoding/json fills a field; theorem
--                       in Integers
--   Http.Requests       the requests of server.go and analytics_inactivity.go; FirmwareRequests has
--                       those of firmware_trigger.go
--   Http.Status         status_compat.go and the payload of frontend_ws.go; theorems in Listed
--   Http.Exchange       what goes into a handler and what comes out
--   Http.Handlers       the handlers of server.go (theorems in Single and Plain); FirmwareHandlers has those of
--                       firmware_trigger.go, Reports those of analytics_inactivity.go
--   Http.Routes         Routes, requireAPIKey and api of server.go; theorems in Guarded
--   Http.Frontend       frontend_transaction_ws.go; theorems in Ids and Private
--   Simulator           cmd/cpconsole/main.go: the simulated charger's state and operations; theorems
--                       in Session and Configured
--   Tests               the theorems on concrete inputs, with readings in whole numbers
--
-- A function of the program has the program's name in snake_case. State is passed explicitly: a
-- method takes the state and returns its result with the new state. A method that holds its mutex
-- from its first line to its last is one step. The handlers and the manager take the TransactionStore
-- as a record of operations, so they run on every store; their theorems take the MemoryStore where
-- they need what it does. The hooks are a record HookSink, which Hooks.Enqueue fills.
--
-- Bounds. A transaction id is drawn at most 100 times, and the retries of a limit stop are at most
-- 6, as in the program; nothing else is bounded by a number that the program does not have. The loop
-- of remoteStopAndUnlockWithRetry runs over the passes that its context leaves time for. int and
-- int64 are integers without overflow, but in Atoi, which has the 64 bits; the longest backoff is 60
-- seconds times 2 to the 8th, far from the end of a Duration. time.Time is
-- a number of nanoseconds, given by the clock. A Go map is an association list, and its iteration
-- order is the order of the list; the theorems hold for every list, so for every order. What a Go
-- routine would do beside a handler is noted in the list `started`. Inside one handler the calls
-- happen in a row: what other goroutines do between them is not modelled, but for the limit stop,
-- where each round has the store that it finds.
--
-- Not modelled: the Postgres store and the migrations (SQL for an external database); the other
-- commands, which wire the service or test it, and the console of the simulator; the goroutines and
-- timers of the WebSockets, whose sessions are lists of events; CORS headers. The OCPP library, the
-- HTTP client of the charger directory and of the hooks, and time.Parse are arguments of the
-- definitions that call them, and so is the text that fmt prints for a float64. A request's body is
-- given by the JSON value in it. Logging is left out.
pub mod Prelude
pub mod Config
pub mod Store
pub mod Registry
pub mod Directory
pub mod Hal
pub mod Hooks
pub mod Http
pub mod Simulator
pub mod Tests
