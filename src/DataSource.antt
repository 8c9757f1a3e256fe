-- ===== src/DataSource.antt =====
-- src/modules/knowledge/domain/entities/data_source.py: a source of documents, with the cursor up
-- to which it has been read. `now` is the value of `datetime.now(UTC)`.
pub mod Cursor
use agentic_substrate.Prelude.{
  ℕ, Bool, true, false, Option, none, some, List, [], ◌∷◌, String, Value, null, str, Metadata,
  get_value, str_eq, if◌then◌else◌, or_else, ◌||◌,
}
use agentic_substrate.Kernel.Result.{Result, ok, err}

pub data DataSourceStatus : Type 0 where
  idle syncing failed disabled : DataSourceStatus

pub data DataSourceType : Type 0 where
  google_drive_folder local_directory : DataSourceType

pub record DataSource : Type 0 where
  pub id : ℕ
  pub kb_id : ℕ
  pub name : String
  pub data_source_type : DataSourceType
  pub status : DataSourceStatus
  pub cursor : Option String
  pub sync_interval_minutes : ℕ
  pub last_synced_at : Option ℕ
  pub error_message : Option String
  pub config : Metadata
  pub created_at : ℕ
  pub updated_at : ℕ

-- `key in d`
unfoldable pub has_key : String → Metadata → Bool
has_key k [] = false
has_key k ((j, v) ∷ m) = str_eq j k || has_key k m

-- `del d[key]`
unfoldable pub remove_key : String → Metadata → Metadata
remove_key k [] = []
remove_key k ((j, v) ∷ m) = let rest = remove_key k m in if str_eq j k then rest else (j, v) ∷ rest

-- `d[key] = value`. The order of the keys is not modelled.
unfoldable pub set_key : String → Value → Metadata → Metadata
unfolding remove_key
set_key k v m = (k, v) ∷ remove_key k m

-- `ValueError` if a synchronisation is under way.
unfoldable pub start_sync : ℕ → DataSource → Result DataSource String
start_sync now d = elim d.status [
  | syncing ↦ err "already syncing"
  | _ ↦ ok (record d { status = syncing; error_message = none; updated_at = now })
]

-- `synced_at` is not given by the callers, so it is the present time.
unfoldable pub complete_sync : ℕ → DataSource → Option String → DataSource
complete_sync now d new_cursor = record d {
  status = idle;
  last_synced_at = some now;
  cursor = or_else new_cursor d.cursor;
  error_message = none;
  updated_at = now;
}

unfoldable pub fail_sync : ℕ → DataSource → String → DataSource
fail_sync now d message = record d {
  status = failed;
  error_message = some message;
  updated_at = now;
}

abbrev pub text_of : Value → Option String
text_of null = none
text_of (str s) = some s

unfoldable pub pending_cursor : DataSource → Option String
unfolding get_value
pending_cursor d = text_of (get_value "pending_cursor" d.config)

unfoldable pub set_pending_cursor : ℕ → DataSource → Option String → DataSource
unfolding set_key remove_key
set_pending_cursor now d (some cursor) = record d {
  config = set_key "pending_cursor" (str cursor) d.config;
  updated_at = now;
}
set_pending_cursor now d none = record d {
  config = remove_key "pending_cursor" d.config;
  updated_at = now;
}

unfoldable pub promote_pending_cursor : ℕ → DataSource → DataSource
unfolding has_key remove_key pending_cursor
promote_pending_cursor now d =
    if has_key "pending_cursor" d.config
    then record d {
      cursor = pending_cursor d;
      config = remove_key "pending_cursor" d.config;
      updated_at = now;
    }
    else d

unfoldable pub disable : ℕ → DataSource → DataSource
disable now d = record d { status = disabled; updated_at = now }

unfoldable pub enable : ℕ → DataSource → DataSource
enable now d = record d { status = idle; updated_at = now }
