-- ===== src/Store.antt =====
-- internal/store: transactions, the callback outbox and the update notifications.
pub mod Types
pub mod Memory
pub mod Analytics
pub mod Updates
pub mod Interface
