-- ===== src/KnowledgeBase/State.antt =====
-- knowledge_base_aggregate.py: the fields of `KnowledgeBaseAggregate` and its event handlers.
use agentic_substrate.Prelude.{
  ℕ, Bool, true, false, Option, none, some, List, [], ◌∷◌, String, Metadata, ◌==◌,
}
use agentic_substrate.Kernel.Event.{Event}
use agentic_substrate.Kernel.Aggregate.{Aggregate}
use agentic_substrate.Events.{
  DocumentStatus, pending_upload, uploaded, parsed, chunked, graph_extracted, indexed, failed,
  SourceType, ChunkSummary, ExtractedGraph, OntologySchema, DocumentAttached, DocumentStored,
  DocumentParsed, DocumentChunked, GraphExtracted, KnowledgeIndexed, ProcessingFailed,
  KnowledgeBaseCreated, Payload,
}

pub data KnowledgeBaseStatus : Type 0 where
  initializing active archived : KnowledgeBaseStatus

-- The dictionary that stands for a document in `documents`. A key that only some events set is an
-- option; the keys `error_step` and `error_message`, which are only ever set to null, are left out.
pub record DocumentEntry : Type 0 where
  pub id : ℕ
  pub file_name : String
  pub content_type : String
  pub storage_path : String
  pub source_type : SourceType
  pub ingested_at : ℕ
  pub status : DocumentStatus
  pub enable_ocr : Bool
  pub ocr_instructions : Option String
  pub metadata : Metadata
  pub byte_size : Option ℕ
  pub markdown_path : Option String
  pub total_parents : Option ℕ
  pub total_children : Option ℕ
  pub chunks_summary : Option (List ChunkSummary)
  pub extracted_graph : Option ExtractedGraph
  pub node_count : Option ℕ
  pub edge_count : Option ℕ
  pub indexed_nodes_count : Option ℕ
  pub indexed_edges_count : Option ℕ
  pub error : Option (String × String)

abbrev pub Documents : Type 0
Documents = List (ℕ × DocumentEntry)

unfoldable pub get_document : ℕ → Documents → Option DocumentEntry
get_document d [] = none
get_document d ((i, entry) ∷ documents) = elim (i == d) [
  | true ↦ some entry
  | false ↦ get_document d documents
]

-- `documents[d] = entry`
unfoldable pub set_document : ℕ → DocumentEntry → Documents → Documents
set_document d entry [] = (d, entry) ∷ []
set_document d entry ((i, old) ∷ documents) = elim (i == d) [
  | true ↦ (i, entry) ∷ documents
  | false ↦ (i, old) ∷ set_document d entry documents
]

-- An update of the entry of `d`, if there is one.
unfoldable pub update_document : ℕ → (DocumentEntry → DocumentEntry) → Documents → Documents
update_document d f [] = []
update_document d f ((i, entry) ∷ documents) = elim (i == d) [
  | true ↦ (i, f entry) ∷ documents
  | false ↦ (i, entry) ∷ update_document d f documents
]

-- `documents.pop(d, None)`
unfoldable pub pop_document : ℕ → Documents → Documents
pop_document d [] = []
pop_document d ((i, entry) ∷ documents) = elim (i == d) [
  | true ↦ pop_document d documents
  | false ↦ (i, entry) ∷ pop_document d documents
]

-- The fields of `KnowledgeBaseAggregate` beside those of `AggregateRoot`.
pub record KnowledgeBaseState : Type 0 where
  pub name : String
  pub description : String
  pub status : KnowledgeBaseStatus
  pub ontology : Option OntologySchema
  pub storage_partition : String
  pub documents : Documents

abbrev pub initial : KnowledgeBaseState
initial = record {
  name = "";
  description = "";
  status = initializing;
  ontology = none;
  storage_partition = "";
  documents = [];
}

abbrev pub KnowledgeBaseAggregate : Type 0
KnowledgeBaseAggregate = Aggregate KnowledgeBaseState Payload

abbrev pub new_knowledge_base : ℕ → KnowledgeBaseAggregate
new_knowledge_base id = record { id = id; state = initial; version = 0; uncommitted = [] }

unfoldable pub entry_of : Metadata → DocumentAttached → DocumentEntry
entry_of m e = record {
  id = e.document_id;
  file_name = e.file_name;
  content_type = e.content_type;
  storage_path = e.storage_path;
  source_type = e.source_type;
  ingested_at = e.ingested_at;
  status = pending_upload;
  enable_ocr = e.enable_ocr;
  ocr_instructions = e.ocr_instructions;
  metadata = m;
  byte_size = none;
  markdown_path = none;
  total_parents = none;
  total_children = none;
  chunks_summary = none;
  extracted_graph = none;
  node_count = none;
  edge_count = none;
  indexed_nodes_count = none;
  indexed_edges_count = none;
  error = none;
}

unfoldable pub entry_stored : DocumentStored → DocumentEntry → DocumentEntry
entry_stored e entry = record entry {
  status = uploaded;
  byte_size = some e.byte_size;
  storage_path = e.storage_path;
  error = none;
}

unfoldable pub entry_parsed : DocumentParsed → DocumentEntry → DocumentEntry
entry_parsed e entry = record entry {
  status = parsed;
  markdown_path = some e.markdown_storage_path;
}

unfoldable pub entry_chunked : DocumentChunked → DocumentEntry → DocumentEntry
entry_chunked e entry = record entry {
  status = chunked;
  total_parents = some e.total_parents;
  total_children = some e.total_children;
  chunks_summary = some e.chunks_summary;
}

unfoldable pub entry_graph_extracted : GraphExtracted → DocumentEntry → DocumentEntry
entry_graph_extracted e entry = record entry {
  status = graph_extracted;
  extracted_graph = e.extracted_graph;
  node_count = some e.node_count;
  edge_count = some e.edge_count;
}

unfoldable pub entry_knowledge_indexed : KnowledgeIndexed → DocumentEntry → DocumentEntry
entry_knowledge_indexed e entry = record entry {
  status = indexed;
  indexed_nodes_count = some e.indexed_nodes_count;
  indexed_edges_count = some e.indexed_edges_count;
}

unfoldable pub entry_failed : ProcessingFailed → DocumentEntry → DocumentEntry
entry_failed e entry = record entry { status = failed; error = some (e.step, e.error_message) }

unfoldable pub apply_created : KnowledgeBaseState → KnowledgeBaseCreated → KnowledgeBaseState
apply_created s e = record s {
  name = e.name;
  description = e.description;
  ontology = some e.ontology;
  storage_partition = e.storage_partition;
  status = active;
}

-- What the handlers make of the documents.
unfoldable pub dispatch_documents : Documents → Metadata → Payload → Documents
unfolding entry_of entry_stored entry_parsed entry_chunked entry_graph_extracted
    entry_knowledge_indexed entry_failed set_document update_document pop_document
dispatch_documents ds m (Payload.document_attached e) = set_document e.document_id (entry_of m e) ds
dispatch_documents ds m (Payload.document_stored e) =
    update_document e.document_id (entry_stored e) ds
dispatch_documents ds m (Payload.document_parsed e) =
    update_document e.document_id (entry_parsed e) ds
dispatch_documents ds m (Payload.document_chunked e) =
    update_document e.document_id (entry_chunked e) ds
dispatch_documents ds m (Payload.graph_extracted e) =
    update_document e.document_id (entry_graph_extracted e) ds
dispatch_documents ds m (Payload.knowledge_indexed e) =
    update_document e.document_id (entry_knowledge_indexed e) ds
dispatch_documents ds m (Payload.processing_failed e) =
    update_document e.document_id (entry_failed e) ds
dispatch_documents ds m (Payload.document_deleted e) = pop_document e.document_id ds
dispatch_documents ds m (Payload.knowledge_base_created e) = ds
dispatch_documents ds m Payload.knowledge_base_deleted = []

-- What they make of the other fields.
unfoldable pub dispatch_fields : KnowledgeBaseState → Payload → KnowledgeBaseState
unfolding apply_created
dispatch_fields s (Payload.knowledge_base_created e) = apply_created s e
dispatch_fields s Payload.knowledge_base_deleted = record s { status = archived }
dispatch_fields s _ = s

-- `apply_event`: the handler for the event's class.
unfoldable pub apply_event : KnowledgeBaseState → Event Payload → KnowledgeBaseState
unfolding dispatch_documents dispatch_fields
apply_event s e = record (dispatch_fields s e.payload) {
  documents = dispatch_documents s.documents e.metadata e.payload;
}
