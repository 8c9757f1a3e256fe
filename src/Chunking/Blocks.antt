-- ===== src/Chunking/Blocks.antt =====
-- src/modules/knowledge/domain/value_objects/atomic_block.py, and what the lexer tells of one line.
use agentic_substrate.Prelude.{
  ℕ, zero, suc, ◌/◌, max, Bool, false, not, ◌&&◌, ◌||◌, Option, none, some, [], ◌∷◌, length, leb,
  ◌==◌, if◌then◌else◌,
}
use agentic_substrate.Text.{Text, is_space, is_nil, starts_with, ends_with, strip, codes}

pub data BlockType : Type 0 where
  heading paragraph code_block table list blockquote thematic_break : BlockType

pub record AtomicBlock : Type 0 where
  pub content : Text
  pub block_type : BlockType
  pub estimated_tokens : ℕ
  pub header_level : Option ℕ
  pub header_title : Option Text

-- `len(text) // chars_per_token`, at least 1 unless the text is empty.
unfoldable pub estimate_tokens : ℕ → Text → ℕ
estimate_tokens chars_per_token [] = 0
estimate_tokens chars_per_token (c ∷ s) = max 1 (length (c ∷ s) / chars_per_token)

-- The length of the run of `#` at the front, and what follows it.
unfoldable pub hash_run : Text → ℕ × Text
hash_run [] = (0, [])
hash_run (c ∷ s) = let (n, rest) = hash_run s in if c == b'#' then (suc n, rest) else (0, c ∷ s)

-- At least one white space and something after it, which a stripped text has.
abbrev pub spaced : Text → Bool
spaced [] = false
spaced (c ∷ s) = is_space c && not (is_nil s)

-- `^(#{1,6})\s+(.+)$` on a stripped line: the level and the title, stripped.
unfoldable pub heading_match : Text → Option (ℕ × Text)
unfolding hash_run strip is_space
heading_match stripped =
    let (level, rest) = hash_run stripped in
    if leb 1 level && leb level 6 && spaced rest then some (level, strip rest) else none

abbrev is_marker : ℕ → Bool
is_marker c = c == b'-' || c == b'*' || c == b'_'

unfoldable pub markers : Text → Option ℕ
unfolding is_space
markers [] = some 0
markers (c ∷ s) = elim (markers s) [
  | none ↦ none
  | some n ↦ if is_marker c then some (suc n) else if is_space c then some n else none
]

abbrev at_least_three : Option ℕ → Bool
at_least_three none = false
at_least_three (some n) = leb 3 n

-- `^(?:[-*_]\s*){3,}$` on a stripped line, which does not begin with white space.
unfoldable pub is_thematic_break : Text → Bool
unfolding markers
is_thematic_break stripped = at_least_three (markers stripped)

unfoldable pub is_table_row : Text → Bool
unfolding starts_with ends_with
is_table_row stripped = starts_with stripped (b'|' ∷ []) && ends_with stripped (b'|' ∷ [])

unfoldable pub is_quote : Text → Bool
unfolding starts_with
is_quote stripped = starts_with stripped (b'>' ∷ [])

-- `\d*\.\s+(.+)$`, where `is_decimal` stands for `\d`.
unfoldable pub numbered_item : (ℕ → Bool) → Text → Bool
unfolding is_space
numbered_item is_decimal [] = false
numbered_item is_decimal (c ∷ s) =
    let more = numbered_item is_decimal s in if is_decimal c then more else c == b'.' && spaced s

-- `^(\*|-|\+|\d+\.)\s+(.+)$` on a stripped line.
unfoldable pub is_list_item : (ℕ → Bool) → Text → Bool
unfolding numbered_item is_space
is_list_item is_decimal [] = false
is_list_item is_decimal (c ∷ s) =
    (c == b'*' || c == b'-' || c == b'+') && spaced s || is_decimal c && numbered_item is_decimal s

unfoldable pub is_fence : Text → Bool
unfolding starts_with
is_fence stripped = starts_with stripped (codes "```") || starts_with stripped (codes "~~~")

unfoldable pub take : ℕ → Text → Text
take zero s = []
take (suc n) [] = []
take (suc n) (c ∷ s) = c ∷ take n s
