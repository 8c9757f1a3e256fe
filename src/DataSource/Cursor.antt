-- ===== src/DataSource/Cursor.antt =====
-- The pending cursor in a data source's configuration.
use agentic_substrate.Prelude.{
  ℕ, false, Option, none, some, [], ◌∷◌, String, null, Metadata, get_value, str_eq, eq_iff,
  if◌then◌else◌, ◌≡◌, refl, arith,
}
use agentic_substrate.DataSource.{
  DataSource, has_key, remove_key, pending_cursor, set_pending_cursor, promote_pending_cursor,
  complete_sync,
}

pub get_value-remove_key :
    (k j : String) (m : Metadata)
    → get_value j (remove_key k m) ≡ (if str_eq k j then null else get_value j m)
unfolding get_value remove_key
get_value-remove_key k j [] = ground arith
get_value-remove_key k j ((i, v) ∷ m) =
    ground (arith, get_value-remove_key k j m, eq_iff i k, eq_iff i j, eq_iff k j)

has_key-remove_key : (k : String) (m : Metadata) → has_key k (remove_key k m) ≡ false
unfolding has_key remove_key
has_key-remove_key k [] = refl
has_key-remove_key k ((i, v) ∷ m) = ground (arith, has_key-remove_key k m)

-- A cursor that was set aside is read back, and clearing leaves none.
pub pending_cursor-set :
    (now : ℕ) (d : DataSource) (c : Option String) → pending_cursor (set_pending_cursor now d c) ≡ c
unfolding pending_cursor set_pending_cursor
pending_cursor-set now d (some c) = refl
pending_cursor-set now d none = simp get_value-remove_key

-- Setting a cursor aside leaves the active cursor; promoting makes it the active one and leaves
-- none aside.
pub promote-set_pending :
    (now later : ℕ) (d : DataSource) (c : String)
    → ((set_pending_cursor now d (some c)).cursor ≡ d.cursor)
      × ((promote_pending_cursor later (set_pending_cursor now d (some c))).cursor ≡ some c)
      × (pending_cursor (promote_pending_cursor later (set_pending_cursor now d (some c))) ≡ none)
unfolding pending_cursor set_pending_cursor promote_pending_cursor
promote-set_pending now later d c = (refl, refl, simp get_value-remove_key)

-- With none set aside, promoting changes nothing.
pub promote-none :
    (now : ℕ) (d : DataSource)
    → has_key "pending_cursor" d.config ≡ false
    → promote_pending_cursor now d ≡ d
unfolding promote_pending_cursor
promote-none now d h = rw h

pub pending_cursor-complete_sync :
    (now : ℕ) (d : DataSource) (c : Option String)
    → pending_cursor (complete_sync now d c) ≡ pending_cursor d
unfolding pending_cursor complete_sync
pending_cursor-complete_sync now d c = refl

pub cursor-set_pending :
    (now : ℕ) (d : DataSource) (c : Option String) → (set_pending_cursor now d c).cursor ≡ d.cursor
unfolding set_pending_cursor
cursor-set_pending now d none = refl
cursor-set_pending now d (some c) = refl
