-- ===== src/Chunking.antt =====
-- src/modules/knowledge/infrastructure/chunking: a Markdown text is lexed into blocks, the blocks
-- are packed into parent chunks, and each parent is cut into child chunks.
pub mod Blocks
pub mod Lexer
pub mod Parents
pub mod Children
