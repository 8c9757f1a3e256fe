-- ===== src/KnowledgeBase/Commands.antt =====
-- knowledge_base_aggregate.py: `create` and the commands. The new identifiers and the time are
-- arguments.
use agentic_substrate.Prelude.{
  ℕ, Bool, Option, none, some, List, [], String, Metadata, foldl, length,
}
use Prim.Native.String.{◌++◌ as append}
use agentic_substrate.Text.{codes}
use agentic_substrate.SourceTypes.{infer}
use agentic_substrate.Kernel.Event.{Event}
use agentic_substrate.Kernel.Aggregate.{record_event}
use agentic_substrate.Events.{
  SourceType, ChunkSummary, ExtractedGraph, OntologySchema, Payload, document_attached,
  document_stored, document_parsed, document_chunked, graph_extracted, knowledge_indexed,
  processing_failed, document_deleted, knowledge_base_created, knowledge_base_deleted,
}
use agentic_substrate.Document.State.{DocumentAggregate}
use agentic_substrate.Document.Commands.{get_or}
use agentic_substrate.Document.Commands.{create as create_aggregate}
use agentic_substrate.KnowledgeBase.State.{
  KnowledgeBaseAggregate, new_knowledge_base, DocumentEntry, get_document, apply_event,
}

-- `f"kb-{id}"` and `f"{storage_partition}/raw/{document_id}-{file_name}"`, where `uuid_text` stands
-- for `str` on identifiers.
unfoldable pub partition_of : (ℕ → String) → ℕ → String
partition_of uuid_text id = append "kb-" (uuid_text id)

unfoldable pub raw_path :
    (ℕ → String) → (storage_partition : String) → ℕ → (file_name : String) → String
raw_path uuid_text storage_partition document_id file_name =
    append storage_partition
      (append "/raw/" (append (uuid_text document_id) (append "-" file_name)))

-- The fields of the event that are left to `DomainEvent`, and its own.
unfoldable pub event_of : ℕ → Metadata → Payload → Event Payload
event_of id m p = record {
  aggregate_id = id;
  aggregate_type = "KnowledgeBaseAggregate";
  event_version = 1;
  metadata = m;
  payload = p;
}

unfoldable pub create :
    (ℕ → String) → ℕ → (name description : String) → OntologySchema → KnowledgeBaseAggregate
unfolding event_of record_event apply_event partition_of
create uuid_text id name description ontology = record_event apply_event (new_knowledge_base id) (
    event_of id [] (
      knowledge_base_created (record {
        name = name;
        description = description;
        ontology = ontology;
        storage_partition = partition_of uuid_text id;
      })))

-- The arguments of `attach_document` and of `create_document`, with the identifier that is taken.
pub record AttachArguments : Type 0 where
  pub document_id : ℕ
  pub file_name : String
  pub content_type : String
  pub enable_ocr : Bool
  pub ocr_instructions : Option String
  pub source_type : Option SourceType
  pub ingested_at : Option ℕ
  pub metadata : Option Metadata

-- A document of its own, whose event is not one of the knowledge base.
unfoldable pub create_document :
    (ℕ → String) → ℕ → KnowledgeBaseAggregate → AttachArguments → DocumentAggregate
unfolding create_aggregate raw_path
create_document uuid_text now kb a = create_aggregate now (record {
  document_id = a.document_id;
  kb_id = kb.id;
  file_name = a.file_name;
  content_type = a.content_type;
  storage_path = raw_path uuid_text kb.state.storage_partition a.document_id a.file_name;
  enable_ocr = a.enable_ocr;
  ocr_instructions = a.ocr_instructions;
  source_type = a.source_type;
  ingested_at = a.ingested_at;
  metadata = a.metadata;
})

-- A call of one of the methods that change a knowledge base, with its arguments.
pub data Command : Type 0 where
  attach_document : (now : ℕ) → AttachArguments → Command
  mark_document_stored : (document_id : ℕ) (storage_path : String) (byte_size : ℕ) → Command
  mark_document_parsed :
      (document_id : ℕ) (markdown_storage_path markdown_preview : String) → Command
  mark_document_chunked :
      (document_id total_parents total_children : ℕ) (chunks_summary : Option (List ChunkSummary))
      → Command
  mark_graph_extracted : (document_id : ℕ) → ExtractedGraph → Command
  mark_knowledge_indexed :
      (document_id indexed_nodes indexed_edges : ℕ) (metadata : Option Metadata) → Command
  mark_processing_failed :
      (document_id : ℕ) (step error_message : String) (metadata : Option Metadata) → Command
  remove_document : (document_id : ℕ) → Command
  delete : Command

abbrev metadata_of : Option DocumentEntry → Metadata
metadata_of none = []
metadata_of (some entry) = entry.metadata

abbrev event_on : KnowledgeBaseAggregate → Metadata → Payload → Option (Event Payload)
event_on kb m p = some (event_of kb.id m p)

abbrev attach_event : (ℕ → String) → KnowledgeBaseAggregate → ℕ → AttachArguments → Payload
attach_event uuid_text kb now a = document_attached (record {
  document_id = a.document_id;
  file_name = a.file_name;
  content_type = a.content_type;
  storage_path = raw_path uuid_text kb.state.storage_partition a.document_id a.file_name;
  kb_id = none;
  source_type = get_or a.source_type (infer (codes a.file_name) (codes a.content_type));
  ingested_at = get_or a.ingested_at now;
  enable_ocr = a.enable_ocr;
  ocr_instructions = a.ocr_instructions;
})

abbrev pub removal_event :
    KnowledgeBaseAggregate → ℕ → Option DocumentEntry → Option (Event Payload)
removal_event kb d none = none
removal_event kb d (some entry) =
    event_on kb [] (document_deleted (record { document_id = d; kb_id = none }))

-- The event that a method records, if any.
unfoldable pub event_for : (ℕ → String) → KnowledgeBaseAggregate → Command → Option (Event Payload)
unfolding event_of infer get_document raw_path
event_for uuid_text kb (attach_document now a) =
    event_on kb (get_or a.metadata []) (attach_event uuid_text kb now a)
event_for uuid_text kb (mark_document_stored d path size) = event_on kb [] (
    document_stored
      (record { document_id = d; storage_path = path; byte_size = size; kb_id = none }))
event_for uuid_text kb (mark_document_parsed d path preview) = event_on kb [] (
    document_parsed (record {
      document_id = d;
      markdown_storage_path = path;
      markdown_preview = preview;
      kb_id = none;
    }))
event_for uuid_text kb (mark_document_chunked d parents children summary) = event_on kb [] (
    document_chunked (record {
      document_id = d;
      total_parents = parents;
      total_children = children;
      chunks_summary = get_or summary [];
      kb_id = none;
    }))
event_for uuid_text kb (mark_graph_extracted d graph) = event_on kb [] (
    graph_extracted (record {
      document_id = d;
      node_count = length graph.nodes;
      edge_count = length graph.edges;
      extracted_graph = some graph;
      subgraph_storage_path = none;
      kb_id = none;
    }))
event_for uuid_text kb (mark_knowledge_indexed d nodes edges metadata) =
    event_on kb (get_or metadata (metadata_of (get_document d kb.state.documents))) (
      knowledge_indexed (record {
        document_id = d;
        indexed_nodes_count = nodes;
        indexed_edges_count = edges;
        kb_id = none;
      }))
event_for uuid_text kb (mark_processing_failed d step message metadata) =
    event_on kb (get_or metadata (metadata_of (get_document d kb.state.documents))) (
      processing_failed
        (record { document_id = d; step = step; error_message = message; kb_id = none }))
event_for uuid_text kb (remove_document d) = removal_event kb d (get_document d kb.state.documents)
event_for uuid_text kb delete = event_on kb [] knowledge_base_deleted

abbrev pub record_option : KnowledgeBaseAggregate → Option (Event Payload) → KnowledgeBaseAggregate
record_option kb none = kb
record_option kb (some e) = record_event apply_event kb e

unfoldable pub execute : (ℕ → String) → KnowledgeBaseAggregate → Command → KnowledgeBaseAggregate
unfolding event_for record_event apply_event
execute uuid_text kb c = record_option kb (event_for uuid_text kb c)

unfoldable pub execute_all :
    (ℕ → String) → KnowledgeBaseAggregate → List Command → KnowledgeBaseAggregate
unfolding execute
execute_all uuid_text kb commands = foldl (execute uuid_text) kb commands
