-- ===== src/Kernel.antt =====
-- src/kernel: results, domain events, event-sourced aggregates, event stores, and the coordination
-- of workers.
pub mod Result
pub mod Event
pub mod Aggregate
pub mod EventStore
pub mod Stream
pub mod PostgresStore
pub mod Limiter
