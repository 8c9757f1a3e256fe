-- ===== src/UseCases/Attach.antt =====
-- src/modules/knowledge/application/use_cases/attach_and_store_document.
pub mod Stored
use Prim.Native.Char.{code}
use Prim.Native.String.{◌++◌ as append}
use agentic_substrate.Prelude.{
  ℕ, Bool, true, false, Option, none, some, List, [], ◌∷◌, length, String, str_eq, Metadata, ◌==◌,
  if◌then◌else◌,
}
use agentic_substrate.Text.{codes}
use agentic_substrate.Kernel.Result.{Result, ok, err, DomainError}
use agentic_substrate.Document.State.{DocumentAggregate}
use agentic_substrate.Document.Commands.{CreateArguments, create, mark_stored, execute}
use agentic_substrate.KnowledgeBase.State.{KnowledgeBaseAggregate}
use agentic_substrate.KnowledgeBase.Commands.{raw_path}
use agentic_substrate.Storage.{put_object}
use agentic_substrate.Run.Projector.{UuidText}
use agentic_substrate.UseCases.World.{World, not_found, save_document, reply}

pub record AttachAndStoreDocumentRequest : Type 0 where
  pub kb_id : ℕ
  pub file_name : String
  pub content_type : String
  pub file_content : List ℕ
  pub enable_ocr : Bool
  pub ocr_instructions : Option String
  pub source_metadata : Metadata

pub record AttachAndStoreDocumentResponse : Type 0 where
  pub document_id : ℕ
  pub storage_path : String
  pub status : String

-- What a run meets: the new identifier, the time, and the error of the storage, if it raises one.
pub record Attempt : Type 0 where
  pub document_id : ℕ
  pub now : ℕ
  pub storage_error : Option String

-- `os.path.basename`; `part` is what has been read of the last part.
unfoldable pub basename_onto : String → String → String
basename_onto part String.[] = part
basename_onto part (String.◌∷◌ c s) =
    basename_onto (if code c == b'/' then "" else append part (String.◌∷◌ c String.[])) s

unfoldable pub safe_file_name : String → String
unfolding basename_onto
safe_file_name name =
    let base = basename_onto "" name in if str_eq base "" then "document" else base

module _ (uuid : UuidText) where
  abbrev pub path_in : KnowledgeBaseAggregate → Attempt → AttachAndStoreDocumentRequest → String
  path_in kb at request =
      raw_path uuid.show kb.state.storage_partition at.document_id
        (safe_file_name request.file_name)

  abbrev pub creation :
      KnowledgeBaseAggregate → Attempt → AttachAndStoreDocumentRequest → CreateArguments
  creation kb at request = record {
    document_id = at.document_id;
    kb_id = request.kb_id;
    file_name = safe_file_name request.file_name;
    content_type = request.content_type;
    storage_path = path_in kb at request;
    enable_ocr = request.enable_ocr;
    ocr_instructions = request.ocr_instructions;
    source_type = none;
    ingested_at = none;
    metadata = some request.source_metadata;
  }

  -- The new document, with its two events.
  unfoldable pub new_upload :
      KnowledgeBaseAggregate → Attempt → AttachAndStoreDocumentRequest → DocumentAggregate
  unfolding create execute raw_path safe_file_name
  new_upload kb at request =
      execute (create at.now (creation kb at request))
        (mark_stored (path_in kb at request) (length request.file_content))

  abbrev pub response_of :
      KnowledgeBaseAggregate
      → Attempt
      → AttachAndStoreDocumentRequest
      → AttachAndStoreDocumentResponse
  response_of kb at request = record {
    document_id = at.document_id;
    storage_path = path_in kb at request;
    status = "UPLOADED";
  }

module _ {Graph : Type 0} (uuid : UuidText) where
  unfoldable pub store_content :
      World Graph → KnowledgeBaseAggregate → Attempt → AttachAndStoreDocumentRequest → World Graph
  unfolding put_object raw_path safe_file_name
  store_content w kb at request = record w {
    objects = put_object (codes (path_in uuid kb at request)) request.file_content w.objects;
  }

  abbrev pub attach_to :
      World Graph
      → Attempt
      → AttachAndStoreDocumentRequest
      → Option KnowledgeBaseAggregate
      → Option String
      → Result AttachAndStoreDocumentResponse DomainError × World Graph
  attach_to w at request none e =
      (err (not_found "Knowledge Base " (uuid.show request.kb_id) ""), w)
  attach_to w at request (some kb) (some e) =
      (err (record { message = e; code = "INTERNAL_ERROR" }), w)
  attach_to w at request (some kb) none =
      reply (response_of uuid kb at request)
        (save_document (store_content w kb at request) (new_upload uuid kb at request))

  -- `execute`
  unfoldable pub attach_and_store :
      World Graph
      → Attempt
      → AttachAndStoreDocumentRequest
      → Result AttachAndStoreDocumentResponse DomainError × World Graph
  unfolding store_content new_upload save_document
  attach_and_store w at request =
      attach_to w at request (w.knowledge_bases request.kb_id) at.storage_error
