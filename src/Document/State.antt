-- ===== src/Document/State.antt =====
-- document_aggregate.py: the fields of `DocumentAggregate` and its event handlers.
use agentic_substrate.Prelude.{
  ℕ, Bool, false, Option, none, some, List, [], String, Metadata, or_else,
}
use agentic_substrate.Kernel.Event.{Event}
use agentic_substrate.Kernel.Aggregate.{Aggregate}
use agentic_substrate.Events.{
  DocumentStatus, pending_upload, uploaded, parsed, chunked, graph_extracted, indexed, failed,
  deleted, SourceType, document, ChunkSummary, ExtractedGraph, DocumentAttached, DocumentStored,
  DocumentParsed, DocumentChunked, GraphExtracted, KnowledgeIndexed, ProcessingFailed, Payload,
}

-- The fields of `DocumentAggregate` beside those of `AggregateRoot`.
pub record DocumentState : Type 0 where
  pub kb_id : Option ℕ
  pub file_name : String
  pub content_type : String
  pub storage_path : String
  pub source_type : SourceType
  pub ingested_at : ℕ
  pub status : DocumentStatus
  pub enable_ocr : Bool
  pub ocr_instructions : Option String
  pub byte_size : ℕ
  pub markdown_storage_path : String
  pub markdown_preview : String
  pub total_parents : ℕ
  pub total_children : ℕ
  pub chunks_summary : List ChunkSummary
  pub node_count : ℕ
  pub edge_count : ℕ
  pub subgraph_storage_path : Option String
  pub extracted_graph : Option ExtractedGraph
  pub indexed_nodes_count : ℕ
  pub indexed_edges_count : ℕ
  pub error_step : Option String
  pub error_message : Option String
  pub metadata : Metadata

abbrev pub initial : DocumentState
initial = record {
  kb_id = none;
  file_name = "";
  content_type = "";
  storage_path = "";
  source_type = document;
  ingested_at = 0;
  status = pending_upload;
  enable_ocr = false;
  ocr_instructions = none;
  byte_size = 0;
  markdown_storage_path = "";
  markdown_preview = "";
  total_parents = 0;
  total_children = 0;
  chunks_summary = [];
  node_count = 0;
  edge_count = 0;
  subgraph_storage_path = none;
  extracted_graph = none;
  indexed_nodes_count = 0;
  indexed_edges_count = 0;
  error_step = none;
  error_message = none;
  metadata = [];
}

abbrev pub DocumentAggregate : Type 0
DocumentAggregate = Aggregate DocumentState Payload

-- `cls(id=document_id)`
abbrev pub new_document : ℕ → DocumentAggregate
new_document id = record { id = id; state = initial; version = 0; uncommitted = [] }

unfoldable pub apply_attached : DocumentState → Metadata → DocumentAttached → DocumentState
apply_attached s m e = record s {
  kb_id = e.kb_id;
  file_name = e.file_name;
  content_type = e.content_type;
  storage_path = e.storage_path;
  source_type = e.source_type;
  ingested_at = e.ingested_at;
  enable_ocr = e.enable_ocr;
  ocr_instructions = e.ocr_instructions;
  metadata = m;
  status = pending_upload;
}

unfoldable pub apply_stored : DocumentState → DocumentStored → DocumentState
apply_stored s e = record s {
  status = uploaded;
  storage_path = e.storage_path;
  byte_size = e.byte_size;
  kb_id = or_else e.kb_id s.kb_id;
  error_step = none;
  error_message = none;
}

unfoldable pub apply_parsed : DocumentState → DocumentParsed → DocumentState
apply_parsed s e = record s {
  status = parsed;
  markdown_storage_path = e.markdown_storage_path;
  markdown_preview = e.markdown_preview;
  kb_id = or_else e.kb_id s.kb_id;
}

unfoldable pub apply_chunked : DocumentState → DocumentChunked → DocumentState
apply_chunked s e = record s {
  status = chunked;
  total_parents = e.total_parents;
  total_children = e.total_children;
  chunks_summary = e.chunks_summary;
  kb_id = or_else e.kb_id s.kb_id;
}

unfoldable pub apply_graph_extracted : DocumentState → GraphExtracted → DocumentState
apply_graph_extracted s e = record s {
  status = graph_extracted;
  node_count = e.node_count;
  edge_count = e.edge_count;
  subgraph_storage_path = e.subgraph_storage_path;
  extracted_graph = e.extracted_graph;
  kb_id = or_else e.kb_id s.kb_id;
}

unfoldable pub apply_knowledge_indexed : DocumentState → KnowledgeIndexed → DocumentState
apply_knowledge_indexed s e = record s {
  status = indexed;
  indexed_nodes_count = e.indexed_nodes_count;
  indexed_edges_count = e.indexed_edges_count;
  kb_id = or_else e.kb_id s.kb_id;
}

unfoldable pub apply_processing_failed : DocumentState → ProcessingFailed → DocumentState
apply_processing_failed s e = record s {
  status = failed;
  error_step = some e.step;
  error_message = some e.error_message;
  kb_id = or_else e.kb_id s.kb_id;
}

-- `apply_event`: the handler for the event's class. `DocumentAggregate` has none for the events of
-- knowledge bases.
unfoldable pub dispatch : DocumentState → Metadata → Payload → DocumentState
unfolding apply_attached apply_stored apply_parsed apply_chunked apply_graph_extracted
    apply_knowledge_indexed apply_processing_failed
dispatch s m (Payload.document_attached e) = apply_attached s m e
dispatch s m (Payload.document_stored e) = apply_stored s e
dispatch s m (Payload.document_parsed e) = apply_parsed s e
dispatch s m (Payload.document_chunked e) = apply_chunked s e
dispatch s m (Payload.graph_extracted e) = apply_graph_extracted s e
dispatch s m (Payload.knowledge_indexed e) = apply_knowledge_indexed s e
dispatch s m (Payload.processing_failed e) = apply_processing_failed s e
dispatch s m (Payload.document_deleted e) = record s { status = deleted }
dispatch s m (Payload.knowledge_base_created e) = s
dispatch s m Payload.knowledge_base_deleted = s

unfoldable pub apply_event : DocumentState → Event Payload → DocumentState
unfolding dispatch
apply_event s e = dispatch s e.metadata e.payload
