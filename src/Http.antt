-- ===== src/Http.antt =====
-- internal/httpapi: the HTTP API of the service.
pub mod Decode
pub mod Requests
pub mod FirmwareRequests
pub mod Status
pub mod Exchange
pub mod Handlers
pub mod Routes
pub mod FirmwareHandlers
pub mod Reports
pub mod Frontend
