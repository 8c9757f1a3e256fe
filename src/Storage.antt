-- ===== src/Storage.antt =====
-- src/modules/knowledge/infrastructure/adapters/local_file_system_storage_adapter.py, as the list of
-- its files with their contents. A path is the text below the base directory; directories are the
-- beginnings of paths.
pub mod Prefixes
use agentic_substrate.Prelude.{
  ℕ, Bool, true, false, not, ◌&&◌, ◌||◌, Option, none, some, List, [], ◌∷◌, ◌++◌, if◌then◌else◌,
  ◌==◌,
}
use agentic_substrate.Text.{Text, text_eq, starts_with}

abbrev pub Objects : Type 0
Objects = List (Text × List ℕ)

-- The objects whose path passes the test.
unfoldable pub keep_objects : (Text → Bool) → Objects → Objects
keep_objects test [] = []
keep_objects test ((path, content) ∷ objects) = elim (test path) [
  | true ↦ (path, content) ∷ keep_objects test objects
  | false ↦ keep_objects test objects
]

unfoldable pub get_object : Text → Objects → Option (List ℕ)
unfolding text_eq
get_object path [] = none
get_object path ((p, content) ∷ objects) = elim (text_eq p path) [
  | true ↦ some content
  | false ↦ get_object path objects
]

-- A file that exists is written anew.
unfoldable pub put_object : Text → List ℕ → Objects → Objects
unfolding keep_objects text_eq
put_object path content objects = (path, content) ∷ keep_objects (λ p. not (text_eq p path)) objects

-- The path itself, or a path below it.
unfoldable pub is_under : Text → Text → Bool
unfolding text_eq starts_with
is_under prefix path = text_eq path prefix || starts_with path (prefix ++ b'/' ∷ [])

-- `target_path.exists()`
unfoldable pub exists : Text → Objects → Bool
unfolding is_under
exists path [] = false
exists path ((p, content) ∷ objects) = is_under path p || exists path objects

-- A file or a directory of that name goes, or else all that the name begins.
unfoldable pub delete_prefix : Text → Objects → Objects
unfolding exists keep_objects starts_with
delete_prefix prefix objects =
    if exists prefix objects
    then keep_objects (λ p. not (is_under prefix p)) objects
    else keep_objects (λ p. not (starts_with p prefix)) objects
