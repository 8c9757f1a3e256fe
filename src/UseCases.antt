-- ===== src/UseCases.antt =====
-- The use cases of src/modules/knowledge/application that work on single documents, the handler that
-- replaces a document by its new version, and the watchdog.
pub mod World
pub mod Saving
pub mod Attach
pub mod Reprocess
pub mod DeleteDocument
pub mod Swap
pub mod Watchdog
