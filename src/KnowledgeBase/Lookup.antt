-- ===== src/KnowledgeBase/Lookup.antt =====
-- Lookup in the table of documents after it has been changed.
use agentic_substrate.Prelude.{ℕ, ◌≡◌, Option, none, some, [], ◌∷◌, ◌==◌, if◌then◌else◌, arith}
use agentic_substrate.KnowledgeBase.State.{
  DocumentEntry, Documents, get_document, set_document, update_document, pop_document,
}

unfoldable pub map_entry :
    (DocumentEntry → DocumentEntry) → Option DocumentEntry → Option DocumentEntry
map_entry f none = none
map_entry f (some entry) = some (f entry)

pub get-set :
    (d i : ℕ) (entry : DocumentEntry) (ds : Documents)
    → get_document d (set_document i entry ds) ≡ (if i == d then some entry else get_document d ds)
unfolding get_document set_document
get-set d i entry [] = ground arith
get-set d i entry ((j, old) ∷ ds) = ground (arith, get-set d i entry ds)

pub get-update :
    (d i : ℕ) (f : DocumentEntry → DocumentEntry) (ds : Documents)
    → get_document d (update_document i f ds)
      ≡ (if i == d then map_entry f (get_document d ds) else get_document d ds)
unfolding get_document update_document map_entry
get-update d i f [] = ground arith
get-update d i f ((j, old) ∷ ds) = ground (arith, get-update d i f ds)

pub get-pop :
    (d i : ℕ) (ds : Documents)
    → get_document d (pop_document i ds) ≡ (if i == d then none else get_document d ds)
unfolding get_document pop_document
get-pop d i [] = ground arith
get-pop d i ((j, old) ∷ ds) = ground (arith, get-pop d i ds)
