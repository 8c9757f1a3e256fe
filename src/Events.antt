-- ===== src/Events.antt =====
-- src/modules/knowledge/domain/events and the value objects that the events carry. `Payload` has a
-- constructor for each event class; the fields of `DomainEvent` itself are those of `Kernel.Event`.
use agentic_substrate.Prelude.{ℕ, Bool, Option, List, String, Metadata}
use agentic_substrate.Kernel.Event.{Event}

pub data DocumentStatus : Type 0 where
  pending_upload uploaded parsed chunked graph_extracted indexed failed deleted : DocumentStatus

pub data SourceType : Type 0 where
  document image audio : SourceType

pub record GraphNode : Type 0 where
  pub id : String
  pub node_type : String
  pub properties : Metadata

pub record GraphEdge : Type 0 where
  pub source_id : String
  pub target_id : String
  pub relationship_type : String
  pub properties : Metadata

pub record ExtractedGraph : Type 0 where
  pub nodes : List GraphNode
  pub edges : List GraphEdge

-- An entry of `chunks_summary`, as the saga builds it.
pub record ChunkSummary : Type 0 where
  pub parent_id : String
  pub header_path : String
  pub token_count : ℕ

-- `OntologySchema`, whose node and relationship types the aggregates only carry.
pub record OntologySchema : Type 0 where
  pub name : String
  pub description : String

-- Times are counted in a fixed small unit.
pub record DocumentAttached : Type 0 where
  pub document_id : ℕ
  pub file_name : String
  pub content_type : String
  pub storage_path : String
  pub kb_id : Option ℕ
  pub source_type : SourceType
  pub ingested_at : ℕ
  pub enable_ocr : Bool
  pub ocr_instructions : Option String

pub record DocumentStored : Type 0 where
  pub document_id : ℕ
  pub storage_path : String
  pub byte_size : ℕ
  pub kb_id : Option ℕ

pub record DocumentParsed : Type 0 where
  pub document_id : ℕ
  pub markdown_storage_path : String
  pub markdown_preview : String
  pub kb_id : Option ℕ

pub record DocumentChunked : Type 0 where
  pub document_id : ℕ
  pub total_parents : ℕ
  pub total_children : ℕ
  pub chunks_summary : List ChunkSummary
  pub kb_id : Option ℕ

pub record GraphExtracted : Type 0 where
  pub document_id : ℕ
  pub node_count : ℕ
  pub edge_count : ℕ
  pub extracted_graph : Option ExtractedGraph
  pub subgraph_storage_path : Option String
  pub kb_id : Option ℕ

pub record KnowledgeIndexed : Type 0 where
  pub document_id : ℕ
  pub indexed_nodes_count : ℕ
  pub indexed_edges_count : ℕ
  pub kb_id : Option ℕ

pub record ProcessingFailed : Type 0 where
  pub document_id : ℕ
  pub step : String
  pub error_message : String
  pub kb_id : Option ℕ

pub record DocumentDeleted : Type 0 where
  pub document_id : ℕ
  pub kb_id : Option ℕ

pub record KnowledgeBaseCreated : Type 0 where
  pub name : String
  pub description : String
  pub ontology : OntologySchema
  pub storage_partition : String

pub data Payload : Type 0 where
  document_attached : DocumentAttached → Payload
  document_stored : DocumentStored → Payload
  document_parsed : DocumentParsed → Payload
  document_chunked : DocumentChunked → Payload
  graph_extracted : GraphExtracted → Payload
  knowledge_indexed : KnowledgeIndexed → Payload
  processing_failed : ProcessingFailed → Payload
  document_deleted : DocumentDeleted → Payload
  knowledge_base_created : KnowledgeBaseCreated → Payload
  knowledge_base_deleted : Payload

abbrev pub KnowledgeEvent : Type 0
KnowledgeEvent = Event Payload
