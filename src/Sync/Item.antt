-- ===== src/Sync/Item.antt =====
-- sync_data_source_use_case.py, `_process_item`: what becomes of one discovered file.
use Prim.Native.Char.{Char, code}
use agentic_substrate.Prelude.{
  ℕ, zero, suc, ◌+◌, Bool, true, false, ◌||◌, ◌&&◌, Option, none, some, List, [], ◌∷◌, String,
  Value, null, str, Metadata, get_value, str_eq, ltb, ◌==◌, if◌then◌else◌,
}
use agentic_substrate.Kernel.Result.{Result, ok, err, DomainError}
use agentic_substrate.Text.{codes, contains}
use agentic_substrate.Events.{DocumentStatus, indexed, uploaded, chunked, parsed}
use agentic_substrate.Run.Entity.{FailureItem}

pub record DiscoveredItem : Type 0 where
  pub external_id : String
  pub name : String
  pub mime_type : String
  pub version_hash : String
  pub size_bytes : ℕ

-- What `download_document` returns; `content` may be `None`.
pub record Downloaded : Type 0 where
  pub content : Option (List ℕ)
  pub mime_type : String
  pub version_hash : String

-- `AttachAndStoreDocumentRequest`, with the entries of `source_metadata` as fields.
pub record AttachRequest : Type 0 where
  pub kb_id : ℕ
  pub file_name : String
  pub content_type : String
  pub content : List ℕ
  pub data_source_id : ℕ
  pub sync_run_id : ℕ
  pub external_id : String
  pub version_hash : String
  pub replaces_doc_id : Option ℕ

pub data AttachReply : Type 0 where
  returned : Result ℕ DomainError → AttachReply
  raised : String → AttachReply

-- The parameters: each call is given its arguments and the number of the attempt. An exception of
-- the connector is its text.
pub record Services : Type 0 where
  pub download : (external_id mime_type : String) (attempt : ℕ) → Result Downloaded String
  pub attach : AttachRequest → (attempt : ℕ) → AttachReply

-- A document that the knowledge base lists.
pub record DocumentInfo : Type 0 where
  pub doc_id : ℕ
  pub file_name : String
  pub status : DocumentStatus
  pub metadata : Metadata

-- The facts that hold for all items of a synchronisation.
pub record Context : Type 0 where
  pub kb_id : ℕ
  pub data_source_id : ℕ
  pub run_id : ℕ
  pub max_file_size_bytes : ℕ
  pub documents : List DocumentInfo

unfoldable pub snoc : String → Char → String
snoc String.[] d = String.◌∷◌ d String.[]
snoc (String.◌∷◌ c s) d = String.◌∷◌ c (snoc s d)

-- The last part of a path, in the sense of `PurePosixPath`; `kept` is the last part so far.
unfoldable pub keep_part : String → String → String
keep_part kept part = if str_eq part "" || str_eq part "." then kept else part

unfoldable pub last_part : String → String → String → String
unfolding keep_part snoc
last_part kept part String.[] = keep_part kept part
last_part kept part (String.◌∷◌ c s) =
    let slash = code c == b'/' in
    last_part (if slash then keep_part kept part else kept) (if slash then "" else snoc part c) s

-- `Path(item.name).name or item.name`
unfoldable pub safe_name : String → String
unfolding last_part
safe_name name = let base = last_part "" "" name in if str_eq base "" then name else base

abbrev later_or {ℓ} : {A : Type ℓ} → Option A → Option A → Option A
later_or none o = o
later_or (some a) o = some a

-- `existing_docs_by_name.get(name)`: a later document of a name takes the place of an earlier one.
unfoldable pub existing_by_name : String → List DocumentInfo → Option ℕ
existing_by_name name [] = none
existing_by_name name (d ∷ documents) = later_or (existing_by_name name documents) (
    if str_eq d.file_name "" then none else if str_eq d.file_name name then some d.doc_id else none)

-- The code lists `INGESTING` as well, which is no status of a document.
unfoldable pub is_held : DocumentStatus → Bool
is_held indexed = true
is_held uploaded = true
is_held chunked = true
is_held parsed = true
is_held _ = false

unfoldable pub is_text : Value → String → Bool
is_text null s = false
is_text (str t) s = str_eq t s

-- The version hash of `existing_docs_by_external_id.get(external_id)`. An empty id is none.
unfoldable pub existing_version : String → List DocumentInfo → Option Value
unfolding is_held is_text get_value
existing_version external_id [] = none
existing_version external_id (d ∷ documents) =
    let here = is_text (get_value "external_id" d.metadata) external_id && is_held d.status in
    later_or (existing_version external_id documents) (
      if str_eq external_id ""
      then none
      else if here
      then some (get_value "version_hash" d.metadata)
      else none)

-- The idempotency gate: the knowledge base holds this version of the file.
unfoldable pub is_unchanged : Context → DiscoveredItem → Bool
unfolding existing_version is_text
is_unchanged c item = elim (existing_version item.external_id c.documents) [
  | none ↦ false
  | some version ↦ is_text version item.version_hash
]

-- The download loop: `left` attempts may still fail after this one.
unfoldable pub download_from : (ℕ → Result Downloaded String) → ℕ → ℕ → Result Downloaded String
download_from call zero attempt = call attempt
download_from call (suc left) attempt = elim (call attempt) [
  | ok d ↦ ok d
  | err e ↦ download_from call left (attempt + 1)
]

unfoldable pub is_conflict : DomainError → Bool
unfolding contains
is_conflict e =
    contains (codes e.message) (codes "Concurrency conflict")
    || contains (codes e.code) (codes "CONCURRENCY")

abbrev pub settle : AttachReply → Result ℕ DomainError
settle (returned r) = r
settle (raised message) = err (record { message = message; code = "ATTACH_EXCEPTION" })

-- The attach loop: only a conflict is tried again.
unfoldable pub attach_from : (ℕ → AttachReply) → ℕ → ℕ → Result ℕ DomainError
unfolding is_conflict
attach_from call zero attempt = settle (call attempt)
attach_from call (suc left) attempt =
    let again = attach_from call left (attempt + 1) in
    elim (settle (call attempt)) [ ok id ↦ ok id | err e ↦ if is_conflict e then again else err e ]

-- What becomes of an item: nothing to do, a new document, or an entry in the run's failures.
pub data ItemOutcome : Type 0 where
  unchanged : ItemOutcome
  attached : (doc_id : ℕ) → ItemOutcome
  not_attached : FailureItem → ItemOutcome

unfoldable pub failure_of : DiscoveredItem → String → FailureItem
unfolding safe_name
failure_of item error = record {
  doc_id = none;
  file_name = safe_name item.name;
  error = error;
  external_id = some item.external_id;
  mime_type = some item.mime_type;
  version_hash = some item.version_hash;
  size_bytes = some item.size_bytes;
}

unfoldable pub request_for : Context → DiscoveredItem → Downloaded → List ℕ → AttachRequest
unfolding safe_name existing_by_name
request_for c item d content = record {
  kb_id = c.kb_id;
  file_name = safe_name item.name;
  content_type = d.mime_type;
  content = content;
  data_source_id = c.data_source_id;
  sync_run_id = c.run_id;
  external_id = item.external_id;
  version_hash = d.version_hash;
  replaces_doc_id = existing_by_name (safe_name item.name) c.documents;
}

-- The error texts are shortened: they leave out the names and sizes that the program puts in.
unfoldable pub attach_downloaded : Services → Context → DiscoveredItem → Downloaded → ItemOutcome
unfolding attach_from request_for failure_of
attach_downloaded sv c item d = elim d.content [
  | none ↦ not_attached (failure_of item "empty content")
  | some content ↦ elim (attach_from (sv.attach (request_for c item d content)) 3 1) [
    | ok id ↦ attached id
    | err e ↦ not_attached (failure_of item e.message)
  ]
]

unfoldable pub process_item : Services → Context → DiscoveredItem → ItemOutcome
unfolding is_unchanged download_from attach_downloaded failure_of
process_item sv c item =
    if is_unchanged c item
    then unchanged
    else if ltb c.max_file_size_bytes item.size_bytes
    then not_attached (failure_of item "exceeds maximum allowed size")
    else elim (download_from (sv.download item.external_id item.mime_type) 2 1) [
      | ok d ↦ attach_downloaded sv c item d
      | err e ↦ not_attached (failure_of item e)
    ]
