-- ===== src/KnowledgeBase.antt =====
-- src/modules/knowledge/domain/aggregates/knowledge_base_aggregate.py: a knowledge base with the
-- table of its documents.
pub mod State
pub mod Commands
pub mod Lookup
pub mod Entries
pub mod Agreement
pub mod Removal
