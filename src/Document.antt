-- ===== src/Document.antt =====
-- src/modules/knowledge/domain/aggregates/document_aggregate.py: the life cycle of one document.
pub mod State
pub mod Commands
pub mod Lifecycle
pub mod Repository
