-- ===== src/Prelude/Texts.antt =====
-- Texts: the test for equality, and dictionaries with text keys as association lists.
use mathlib.Core.List.{List, [], ◌∷◌}
use Prim.Native.String.{String}
use agentic_substrate.Prelude.Tests.{if◌then◌else◌}
use text.Mathlib.Text.{◌==◌}
pub use text.Mathlib.Text.{◌==◌ as str_eq}
pub use text.Mathlib.TextEquality.{eq_iff}
pub use text.Mathlib.TextPositions.{eq_refl}

-- A value of a JSON-like dictionary, as far as the program reads it: an absent text or a text.
pub data Value : Type 0 where
  null : Value
  str : String → Value

abbrev pub Metadata : Type 0
Metadata = List (String × Value)

-- `d.get(key)`, with null for both a missing key and a null value; the first binding counts.
unfoldable pub get_value : String → Metadata → Value
get_value k [] = null
get_value k ((j, v) ∷ m) = if j == k then v else get_value k m
