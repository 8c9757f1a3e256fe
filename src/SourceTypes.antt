-- ===== src/SourceTypes.antt =====
-- src/modules/knowledge/domain/value_objects/document_source_type.py: the kind of a document, told
-- from its MIME type or else from the extension of its file name.
use agentic_substrate.Prelude.{
  Bool, ◌||◌, Option, none, some, List, [], ◌∷◌, String, ◌==◌, if◌then◌else◌, any,
}
use agentic_substrate.Text.{
  Text, codes, is_nil, text_eq, starts_with, reverse, strip, lower, split_at,
}
use agentic_substrate.Events.{SourceType, document, image, audio}

-- The parts of a path that `PurePosixPath` keeps, the last one that is left.
unfoldable pub last_part : Text → List Text → Text
unfolding text_eq is_nil
last_part name [] = name
last_part name (part ∷ parts) =
    last_part (if is_nil part || text_eq part (codes ".") then name else part) parts

-- `Path(s).name`
unfoldable pub path_name : Text → Text
unfolding last_part split_at
path_name s = last_part [] (split_at b'/' s)

-- The text from its last dot on, without the dot, and whether there is a dot. Both are reversed.
unfoldable pub after_last_dot : Text → Text → Option (Text × Text)
after_last_dot acc [] = none
after_last_dot acc (c ∷ s) =
    let rest = after_last_dot (c ∷ acc) s in if c == b'.' then some (acc, s) else rest

-- `Path(s).suffix`: empty if the only dot begins or the last dot ends the name.
unfoldable pub path_suffix : Text → Text
unfolding path_name after_last_dot reverse is_nil
path_suffix s = elim (after_last_dot [] (reverse (path_name s))) [
  | none ↦ []
  | some (after, before) ↦ if is_nil before || is_nil after then [] else b'.' ∷ after
]

abbrev one_of : Text → List String → Bool
one_of s names = any (λ name. text_eq s (codes name)) names

abbrev image_extensions : List String
image_extensions = ".png" ∷ ".jpg" ∷ ".jpeg" ∷ ".webp" ∷ ".heic" ∷ ".heif" ∷ []

abbrev audio_extensions : List String
audio_extensions =
    ".mp3" ∷ ".m4a" ∷ ".ogg" ∷ ".opus" ∷ ".oga" ∷ ".webm" ∷ ".wav" ∷ ".aac" ∷ ".caf" ∷ ".amr"
    ∷ ".3gp" ∷ []

abbrev document_types : List String
document_types =
    "application/pdf" ∷ "application/json"
    ∷ "application/vnd.openxmlformats-officedocument.wordprocessingml.document"
    ∷ "application/vnd.openxmlformats-officedocument.presentationml.presentation"
    ∷ "application/vnd.openxmlformats-officedocument.spreadsheetml.sheet" ∷ "application/x-subrip"
    ∷ []

unfoldable pub infer_from_name : Text → SourceType
unfolding path_suffix lower text_eq
infer_from_name file_name =
    let ext = lower (path_suffix file_name) in
    if one_of ext image_extensions
    then image
    else if one_of ext audio_extensions
    then audio
    else document

-- `some` where the MIME type decides.
unfoldable pub infer_from_type : Text → Option SourceType
unfolding strip lower starts_with text_eq
infer_from_type content_type =
    let ct = strip (lower content_type) in
    if starts_with ct (codes "image/")
    then some image
    else if starts_with ct (codes "audio/") || text_eq ct (codes "video/3gpp")
    then some audio
    else if starts_with ct (codes "text/") || one_of ct document_types
    then some document
    else none

abbrev or_infer : Option SourceType → SourceType → SourceType
or_infer none s = s
or_infer (some t) s = t

-- An empty MIME type counts as none.
unfoldable pub infer : Text → Text → SourceType
unfolding infer_from_name infer_from_type is_nil
infer file_name content_type =
    if is_nil content_type
    then infer_from_name file_name
    else or_infer (infer_from_type content_type) (infer_from_name file_name)
