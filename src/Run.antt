-- ===== src/Run.antt =====
-- One synchronisation run of a data source: its counters, the two repositories that count for it,
-- and the projector that turns document events into counts and announces the end of a run.
pub mod Entity
pub mod Repository
pub mod InMemory
pub mod Postgres
pub mod Projector
pub mod Effects
pub mod Completion
