-- ===== src/Sqlite.antt =====
-- token_throttle/_limiter_backends/_sqlite: how long state is kept, the tables, and the engine that
-- runs each operation in a transaction.
pub mod Ttl
pub mod Tables
pub mod Engine
pub mod Initialize
pub mod Rows
pub mod Load
pub mod Write
pub mod Markers
pub mod Operations
pub mod Refunds
pub mod Overrides
pub mod Frame
pub mod Isolation
pub mod Run
