-- ===== src/Lib.antt =====
-- The ingestion core of the knowledge substrate: event-sourced documents and knowledge bases, the
-- use cases that work on documents, the chunking of their texts, the runs that count them, and the
-- synchronisation that feeds them from an external source of files.
--
-- A data source (src/modules/knowledge/domain/entities/data_source.py) remembers a cursor up to
-- which its folder has been read. A synchronisation asks a connector for the changes since,
-- attaches each file as a document, and opens a run (data_source_run.py) that counts how the
-- files end. Documents are aggregates over event streams (src/kernel/domain/aggregate_root.py,
-- document_aggregate.py); their last events, knowledge indexed or processing failed, reach the
-- projector of runs, which counts them in a repository and announces the end of the run. Files
-- that failed are retried later. When the new version of a file is indexed, a handler deletes the
-- version that it replaces. A watchdog leases documents that have been left in progress and
-- reprocesses them. The text of a document is cut into blocks, which are packed into parent chunks,
-- which give overlapping child chunks.
--
-- Which file models which part:
--   Prelude: the names and the lemmas on lists, tests and texts that all parts share.
--   Text: Python's `str` methods on lists of code points, as far as the program calls them.
--   Kernel.Result, Kernel.Event, Kernel.Aggregate: src/kernel/domain, generic in state and
--     events.
--   Kernel.EventStore: src/kernel/infrastructure/in_memory_event_store.py; Kernel.PostgresStore:
--     postgres_event_store.py on two tables, refined in Kernel.PostgresStore.Refinement;
--     Kernel.Stream: what is true of streams that a store numbers.
--   Kernel.Limiter: src/kernel/infrastructure/async_token_bucket_limiter.py.
--   Events, SourceTypes: src/modules/knowledge/domain/events and its value objects.
--   Document: src/modules/knowledge/domain/aggregates/document_aggregate.py. State has the fields
--     and the handlers, Commands the methods, Repository
--     src/modules/knowledge/infrastructure/adapters/postgres_document_repository.py.
--   Run: Entity is src/modules/knowledge/domain/entities/data_source_run.py, Repository the
--     interface of the repositories as operations with laws, InMemory and Postgres its two
--     implementations, Projector
--     src/modules/knowledge/application/handlers/data_source_run_projector.py.
--   DataSource: src/modules/knowledge/domain/entities/data_source.py.
--   Sync: src/modules/knowledge/application/use_cases/sync_data_source. Item is `_process_item`,
--     Execute is `execute`.
--   Retry: src/modules/knowledge/application/use_cases/retry_failed_data_source_items.
--   Chunking: src/modules/knowledge/infrastructure/chunking. Blocks and Lexer are
--     atomic_block_lexer.py, Parents the packing and Children the rest of
--     structure_tolerant_markdown_chunker.py.
--   KnowledgeBase: src/modules/knowledge/domain/aggregates/knowledge_base_aggregate.py. State has
--     the fields, the table of documents and the handlers, Commands the methods; Entries says which
--     entry the events of a document call for.
--   Storage: src/modules/knowledge/infrastructure/adapters/local_file_system_storage_adapter.py,
--     as a list of paths with contents.
--   UseCases: src/modules/knowledge/application. World is what the use cases share; Attach,
--     Reprocess and DeleteDocument are the use cases of those names, Swap is
--     handlers/blue_green_document_swap_handler.py, Watchdog is workers/ingestion_watchdog.py.
--   Barrier: src/kernel/infrastructure/atomic_job_barrier.py, over the commands of Redis.
--   Tests: runs on small inputs, and the theorems at concrete inputs.
--
-- How state and calls correspond: an object with fields is a record, a method that changes it is
-- a function to the new record, a call that may raise or answer an error gives a `Result`. The
-- names of the functions are those of the methods. Identifiers and times are natural numbers;
-- `uuid4()`, the clock and the jitter of the limiter are inputs. A table is a function from
-- identifiers to optional rows. Repositories of values save copies, so that an object which was
-- loaded twice has two lives; what other tasks do to stored runs while a use case waits is a
-- function on the table. The order in which the files of a synchronisation are finished is a
-- function on the list of them.
--
-- Bounds: the retry loops of a file run on the number of attempts that are left, three for a
-- download and four for an attachment, as in the code; the retry of a run recurs on the list of
-- its failures. The lexer, the packing and the splitting recur on lists of lines, blocks and
-- sentences; the decimal text of a number has as many steps as the number, which are more than its
-- digits. Nothing else runs on fuel: `acquire` of the limiter is a list of rounds, one for each
-- time at which the task wakes up.
--
-- Parameters: the commands of Redis with their documented laws, the connector, the graph store, the
-- class of digits of regular expressions, and the text form of identifiers, with the law that
-- parsing undoes printing. A synchronisation and a retry take the use cases for attaching and
-- reprocessing as parameters, the watchdog that for reprocessing.
--
-- Not modelled: the saga that parses, chunks and indexes a document, the job queue and its
-- workers, the projections of the read model, search, the adapters of external services, the HTTP
-- interface and the frontend. Texts of errors are shortened, and logging is left out. JSON encoding
-- of stored events is taken to give the event back. The deletion of a document is modelled with a
-- repository of documents, and the paths of objects are taken to stay below the base directory.
pub mod Prelude
pub mod Text
pub mod Kernel
pub mod Events
pub mod SourceTypes
pub mod Document
pub mod Run
pub mod DataSource
pub mod Sync
pub mod Retry
pub mod Barrier
pub mod Chunking
pub mod KnowledgeBase
pub mod Storage
pub mod UseCases
pub mod Tests
