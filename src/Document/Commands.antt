-- ===== src/Document/Commands.antt =====
-- document_aggregate.py: `create` and the commands, each of which records one event unless the
-- document is deleted.
use agentic_substrate.Prelude.{
  ℕ, Bool, true, false, Option, none, some, List, [], String, Metadata, if◌then◌else◌, foldl,
}
use agentic_substrate.Text.{codes}
use agentic_substrate.SourceTypes.{infer}
use agentic_substrate.Kernel.Event.{Event}
use agentic_substrate.Kernel.Aggregate.{record_event}
use agentic_substrate.Events.{
  DocumentStatus, deleted, SourceType, ChunkSummary, ExtractedGraph, Payload, document_attached,
  document_stored, document_parsed, document_chunked, graph_extracted, knowledge_indexed,
  processing_failed, document_deleted,
}
use agentic_substrate.Document.State.{DocumentAggregate, new_document, apply_event}

abbrev pub get_or {ℓ} : {A : Type ℓ} → Option A → A → A
get_or none b = b
get_or (some a) b = a

pub record CreateArguments : Type 0 where
  pub document_id : ℕ
  pub kb_id : ℕ
  pub file_name : String
  pub content_type : String
  pub storage_path : String
  pub enable_ocr : Bool
  pub ocr_instructions : Option String
  pub source_type : Option SourceType
  pub ingested_at : Option ℕ
  pub metadata : Option Metadata

-- `now` is the value of `time.time()`.
unfoldable pub create : ℕ → CreateArguments → DocumentAggregate
unfolding record_event apply_event infer
create now a = record_event apply_event (new_document a.document_id) (record {
  aggregate_id = a.document_id;
  aggregate_type = "DocumentAggregate";
  event_version = 1;
  metadata = get_or a.metadata [];
  payload = document_attached (record {
    document_id = a.document_id;
    file_name = a.file_name;
    content_type = a.content_type;
    storage_path = a.storage_path;
    kb_id = some a.kb_id;
    source_type = get_or a.source_type (infer (codes a.file_name) (codes a.content_type));
    ingested_at = get_or a.ingested_at now;
    enable_ocr = a.enable_ocr;
    ocr_instructions = a.ocr_instructions;
  });
})

unfoldable pub is_deleted : DocumentStatus → Bool
is_deleted deleted = true
is_deleted _ = false

-- A call of one of the methods that change a document, with its arguments.
pub data Command : Type 0 where
  mark_stored : (storage_path : String) (byte_size : ℕ) → Command
  mark_parsed : (markdown_storage_path markdown_preview : String) → Command
  mark_chunked :
      (total_parents total_children : ℕ) (chunks_summary : Option (List ChunkSummary)) → Command
  mark_graph_extracted :
      (node_count edge_count : ℕ) (subgraph_storage_path : Option String)
      (extracted_graph : Option ExtractedGraph)
      → Command
  mark_knowledge_indexed : (indexed_nodes indexed_edges : ℕ) (metadata : Option Metadata) → Command
  mark_processing_failed : (step error_message : String) (metadata : Option Metadata) → Command
  delete : Command

-- The fields of the event that are left to `DomainEvent`, and its own.
unfoldable pub event_of : DocumentAggregate → Metadata → Payload → Event Payload
event_of d m p = record {
  aggregate_id = d.id;
  aggregate_type = "DocumentAggregate";
  event_version = 1;
  metadata = m;
  payload = p;
}

-- The event that a method records.
unfoldable pub event_for : DocumentAggregate → Command → Event Payload
unfolding event_of
event_for d (mark_stored path size) = event_of d [] (
    document_stored
      (record { document_id = d.id; storage_path = path; byte_size = size; kb_id = d.state.kb_id }))
event_for d (mark_parsed path preview) = event_of d [] (
    document_parsed (record {
      document_id = d.id;
      markdown_storage_path = path;
      markdown_preview = preview;
      kb_id = d.state.kb_id;
    }))
event_for d (mark_chunked parents children summary) = event_of d [] (
    document_chunked (record {
      document_id = d.id;
      total_parents = parents;
      total_children = children;
      chunks_summary = get_or summary [];
      kb_id = d.state.kb_id;
    }))
event_for d (mark_graph_extracted nodes edges path graph) = event_of d [] (
    graph_extracted (record {
      document_id = d.id;
      node_count = nodes;
      edge_count = edges;
      extracted_graph = graph;
      subgraph_storage_path = path;
      kb_id = d.state.kb_id;
    }))
event_for d (mark_knowledge_indexed nodes edges metadata) =
    event_of d (get_or metadata d.state.metadata) (
      knowledge_indexed (record {
        document_id = d.id;
        indexed_nodes_count = nodes;
        indexed_edges_count = edges;
        kb_id = d.state.kb_id;
      }))
event_for d (mark_processing_failed step message metadata) =
    event_of d (get_or metadata d.state.metadata) (
      processing_failed (record {
        document_id = d.id;
        step = step;
        error_message = message;
        kb_id = d.state.kb_id;
      }))
event_for d delete =
    event_of d [] (document_deleted (record { document_id = d.id; kb_id = d.state.kb_id }))

-- Every method first tests `self.status == DocumentStatus.DELETED`, and then returns.
unfoldable pub execute : DocumentAggregate → Command → DocumentAggregate
unfolding event_for is_deleted record_event apply_event
execute d c = if is_deleted d.state.status then d else record_event apply_event d (event_for d c)

unfoldable pub execute_all : DocumentAggregate → List Command → DocumentAggregate
unfolding execute
execute_all d commands = foldl execute d commands
