-- ===== src/Memory.antt =====
-- token_throttle/_limiter_backends/_memory: the in-memory backend of the synchronous limiter.
pub mod Bucket
pub mod State
pub mod Reservations
pub mod Invariant
pub mod Consume
pub mod Wait
pub mod Refund
pub mod Config
