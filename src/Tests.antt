-- ===== src/Tests.antt =====
-- Runs of the model on small inputs, and the theorems at concrete inputs.
mod Documents
mod Stores
mod Runs
mod Limiters
mod Syncs
mod Retries
mod Barriers
mod Chunks
mod KnowledgeBases
mod UseCases
