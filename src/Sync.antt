-- ===== src/Sync.antt =====
-- src/modules/knowledge/application/use_cases/sync_data_source: one synchronisation of a data
-- source. The connector and the use case that attaches a document are parameters.
pub mod Item
pub mod Execute
pub mod Retries
pub mod Accounting
pub mod Cursor
pub mod Stuck
