-- ===== src/KnowledgeBase/Entries.antt =====
-- The entry that a knowledge base is to have for a document, from the document's own aggregate.
use agentic_substrate.Prelude.{
  ℕ, Bool, true, false, Option, none, some, String, ◌==◌, if◌then◌else◌,
}
use agentic_substrate.Kernel.Event.{Event}
use agentic_substrate.Events.{Payload}
use agentic_substrate.Document.State.{DocumentState}
use agentic_substrate.Document.State.{apply_event as apply_document_event}
use agentic_substrate.KnowledgeBase.State.{DocumentEntry}

-- The document that an event tells of.
unfoldable pub concerns : ℕ → Payload → Bool
concerns d (Payload.document_attached e) = e.document_id == d
concerns d (Payload.document_stored e) = e.document_id == d
concerns d (Payload.document_parsed e) = e.document_id == d
concerns d (Payload.document_chunked e) = e.document_id == d
concerns d (Payload.graph_extracted e) = e.document_id == d
concerns d (Payload.knowledge_indexed e) = e.document_id == d
concerns d (Payload.processing_failed e) = e.document_id == d
concerns d (Payload.document_deleted e) = e.document_id == d
concerns d _ = false

-- One step of the document `d` on its own, which takes no notice of other documents' events.
unfoldable pub follow : ℕ → DocumentState → Event Payload → DocumentState
unfolding concerns apply_document_event
follow d x e = if concerns d e.payload then apply_document_event x e else x

-- What has happened to a document since it was last attached; `failed` since it was last stored.
pub record Seen : Type 0 where
  pub attached : Bool
  pub stored : Bool
  pub parsed : Bool
  pub chunked : Bool
  pub extracted : Bool
  pub indexed : Bool
  pub failed : Bool

-- Of a document that is not, or no longer, attached.
abbrev pub unseen : Seen
unseen = record {
  attached = false;
  stored = false;
  parsed = false;
  chunked = false;
  extracted = false;
  indexed = false;
  failed = false;
}

abbrev pub saw : Seen → Payload → Seen
saw seen (Payload.document_attached e) = record unseen { attached = true }
saw seen (Payload.document_stored e) = record seen { stored = true; failed = false }
saw seen (Payload.document_parsed e) = record seen { parsed = true }
saw seen (Payload.document_chunked e) = record seen { chunked = true }
saw seen (Payload.graph_extracted e) = record seen { extracted = true }
saw seen (Payload.knowledge_indexed e) = record seen { indexed = true }
saw seen (Payload.processing_failed e) = record seen { failed = true }
saw seen _ = unseen

abbrev pub is_end : Payload → Bool
is_end Payload.knowledge_base_deleted = true
is_end _ = false

-- The events of the document itself count, and the end of the knowledge base.
unfoldable pub see : ℕ → Seen → Event Payload → Seen
unfolding concerns
see d seen e =
    if is_end e.payload then unseen else if concerns d e.payload then saw seen e.payload else seen

abbrev pub known : {A : Type 0} → Bool → A → Option A
known false a = none
known true a = some a

abbrev pub known_graph {ℓ} : {A : Type ℓ} → Bool → Option A → Option A
known_graph false a = none
known_graph true a = a

abbrev pub known_error : Bool → Option String → Option String → Option (String × String)
known_error true (some step) (some message) = some (step, message)
known_error _ _ _ = none

-- What the aggregate of the document says, as an entry: a key is there if its event has been seen.
abbrev pub entry_for : ℕ → Seen → DocumentState → DocumentEntry
entry_for d seen x = record {
  id = d;
  file_name = x.file_name;
  content_type = x.content_type;
  storage_path = x.storage_path;
  source_type = x.source_type;
  ingested_at = x.ingested_at;
  status = x.status;
  enable_ocr = x.enable_ocr;
  ocr_instructions = x.ocr_instructions;
  metadata = x.metadata;
  byte_size = known seen.stored x.byte_size;
  markdown_path = known seen.parsed x.markdown_storage_path;
  total_parents = known seen.chunked x.total_parents;
  total_children = known seen.chunked x.total_children;
  chunks_summary = known seen.chunked x.chunks_summary;
  extracted_graph = known_graph seen.extracted x.extracted_graph;
  node_count = known seen.extracted x.node_count;
  edge_count = known seen.extracted x.edge_count;
  indexed_nodes_count = known seen.indexed x.indexed_nodes_count;
  indexed_edges_count = known seen.indexed x.indexed_edges_count;
  error = known_error seen.failed x.error_step x.error_message;
}

abbrev pub expected : ℕ → Seen → DocumentState → Option DocumentEntry
expected d seen x = if seen.attached then some (entry_for d seen x) else none
