-- ===== src/Chunking/Parents.antt =====
-- structure_tolerant_markdown_chunker.py: the packing of blocks into parent chunks, and
-- `_split_large_block`.
pub mod Ink
pub mod Bounds
pub mod Numbers
use agentic_substrate.Prelude.{
  ℕ, suc, ◌+◌, ◌*◌, max, Bool, true, false, ◌&&◌, ◌||◌, not, Option, none, some, List, [], ◌∷◌,
  ◌++◌, map, foldl, length, ltb, leb, ◌==◌, if◌then◌else◌,
}
use agentic_substrate.Events.{SourceType}
use agentic_substrate.Text.{Text, is_nil, strip, join, codes}
use agentic_substrate.Text.Splits.{split_lines, split_words, split_sentences, decimal}
use agentic_substrate.Chunking.Blocks.{AtomicBlock, BlockType, heading, estimate_tokens}
use agentic_substrate.Chunking.Lexer.{newline}

-- The settings of the chunker; its lexer is the one that its constructor makes.
pub record Chunker : Type 0 where
  pub max_parent_tokens : ℕ
  pub child_chunk_tokens : ℕ
  pub child_overlap_tokens : ℕ
  pub chars_per_token : ℕ
  pub is_decimal : ℕ → Bool

unfoldable pub new_chunker : (max_parent child overlap chars_per_token : ℕ) → (ℕ → Bool) → Chunker
new_chunker max_parent child overlap chars_per_token is_decimal = record {
  max_parent_tokens = max_parent;
  child_chunk_tokens = child;
  child_overlap_tokens = overlap;
  chars_per_token = max 1 chars_per_token;
  is_decimal = is_decimal;
}

-- What `chunk` is told of the document.
pub record Source : Type 0 where
  pub document_id : Text
  pub document_name : Text
  pub source_type : Option SourceType
  pub ingested_at : Option ℕ

-- `ParentChunk`, whose `id` is `{document_id}-p{parent_index}`; `part` holds the entries `part` and
-- `total_parts`, and `source` the entries that all chunks of the document share.
pub record ParentChunk : Type 0 where
  pub header_path : Text
  pub content : Text
  pub token_count : ℕ
  pub parent_index : ℕ
  pub part : Option (ℕ × ℕ)
  pub source : Source

unfoldable pub is_sentence_end : ℕ → Bool
is_sentence_end c = c == b'.' || c == b'!' || c == b'?'

abbrev pub blank : Text
blank = b' ' ∷ []

-- The loop that fills parts with pieces: `cur` is the part begun and `cur_len` its length, to which
-- a piece adds its own and `extra`. The last part is closed at the end, if it is begun.
unfoldable pub gather : Text → ℕ → ℕ → List Text → ℕ → List Text → List Text
unfolding strip join
gather sep extra max_chars [] cur_len [] = []
gather sep extra max_chars (c ∷ cur) cur_len [] = strip (join sep (c ∷ cur)) ∷ []
gather sep extra max_chars [] cur_len (piece ∷ pieces) =
    gather sep extra max_chars (piece ∷ []) (cur_len + (length piece + extra)) pieces
gather sep extra max_chars (c ∷ cur) cur_len (piece ∷ pieces) =
    elim (leb (cur_len + (length piece + extra)) max_chars) [
      | true ↦
          gather sep extra max_chars ((c ∷ cur) ++ piece ∷ []) (cur_len + (length piece + extra))
            pieces
      | false ↦
          strip (join sep (c ∷ cur))
          ∷ gather sep extra max_chars (piece ∷ []) (length piece + extra) pieces
    ]

-- `len(pieces) > 1`
abbrev pub several : List Text → Bool
several pieces = ltb 1 (length pieces)

module _ (chunker : Chunker) (source : Source) where
  unfoldable pub split_large_block : Text → ℕ → List Text
  unfolding split_sentences is_sentence_end split_lines split_words gather
  split_large_block text max_tokens =
      let max_chars = max_tokens * chunker.chars_per_token in
      let sentences = split_sentences is_sentence_end text in
      let lines = split_lines text in
      if leb (length text) max_chars
      then text ∷ []
      else if several sentences
      then gather blank 0 max_chars [] 0 sentences
      else if several lines
      then gather newline 0 max_chars [] 0 lines
      else gather blank 1 max_chars [] 0 (split_words text)

  -- `[Doc: {document_name}]`
  unfoldable pub document_label : Text
  document_label = codes "[Doc: " ++ source.document_name ++ codes "]"

  abbrev arrow : Text
  arrow = codes " > "

  -- `active_headers`, whose levels are in ascending order: the new one is above those that stay.
  unfoldable pub lower_headers : ℕ → List (ℕ × Text) → List (ℕ × Text)
  lower_headers level [] = []
  lower_headers level ((k, v) ∷ headers) =
      let rest = lower_headers level headers in if ltb k level then (k, v) ∷ rest else rest

  unfoldable pub build_breadcrumb : List (ℕ × Text) → Text
  unfolding document_label join
  build_breadcrumb headers = join arrow (document_label ∷ map (λ h. h.1) headers)

  -- The local variables of `chunk` while it packs.
  pub record Packing : Type 0 where
    pub parent_chunks : List ParentChunk
    pub current_blocks : List AtomicBlock
    pub current_tokens : ℕ
    pub parent_counter : ℕ
    pub active_headers : List (ℕ × Text)
    pub current_header_path : Text
    pub had_explicit_headers : Bool

  abbrev pub start_packing : Packing
  start_packing = record {
    parent_chunks = [];
    current_blocks = [];
    current_tokens = 0;
    parent_counter = 0;
    active_headers = [];
    current_header_path = document_label;
    had_explicit_headers = false;
  }

  unfoldable pub parent_path : Packing → ℕ → Text
  unfolding document_label decimal
  parent_path x counter =
      if x.had_explicit_headers
      then x.current_header_path
      else document_label ++ codes " > Part " ++ decimal counter

  unfoldable pub packed_parent : Packing → List AtomicBlock → ParentChunk
  unfolding parent_path strip join estimate_tokens
  packed_parent x blocks =
      let content =
        strip (join (newline ++ newline) (map (λ (b : AtomicBlock). b.content) blocks)) in
      record {
        header_path = parent_path x (x.parent_counter + 1);
        content = content;
        token_count = estimate_tokens chunker.chars_per_token content;
        parent_index = x.parent_counter + 1;
        part = none;
        source = source;
      }

  abbrev pub flush_blocks : Packing → List AtomicBlock → Packing
  flush_blocks x [] = x
  flush_blocks x (b ∷ blocks) = record x {
    parent_chunks = x.parent_chunks ++ packed_parent x (b ∷ blocks) ∷ [];
    current_blocks = [];
    current_tokens = 0;
    parent_counter = x.parent_counter + 1;
  }

  unfoldable pub flush_current_parent : Packing → Packing
  unfolding packed_parent
  flush_current_parent x = flush_blocks x x.current_blocks

  abbrev enter_level : Packing → AtomicBlock → Option ℕ → Packing
  enter_level x b none = x
  enter_level x b (some level) =
      let headers = lower_headers level x.active_headers ++ (level, b.content) ∷ [] in
      if level == 0 then x else record x {
        had_explicit_headers = true;
        active_headers = headers;
        current_header_path = build_breadcrumb headers;
      }

  -- A heading changes the path of headings.
  unfoldable pub enter_heading : Packing → AtomicBlock → Packing
  unfolding lower_headers build_breadcrumb
  enter_heading x b = elim b.block_type [ heading ↦ enter_level x b b.header_level | _ ↦ x ]

  unfoldable pub part_path : Text → ℕ → ℕ → Text
  unfolding decimal
  part_path path index total =
      if ltb 1 total
      then path ++ codes " (Part " ++ decimal index ++ codes "/" ++ decimal total ++ codes ")"
      else path

  -- The loop over the parts of a block that is too large, from the part `index` on.
  unfoldable pub add_parts : Packing → ℕ → ℕ → List Text → Packing
  unfolding part_path estimate_tokens
  add_parts x index total [] = x
  add_parts x index total (text ∷ texts) =
      add_parts
        (record x {
          parent_chunks =
              x.parent_chunks
              ++ record {
                header_path = part_path x.current_header_path index total;
                content = text;
                token_count = estimate_tokens chunker.chars_per_token text;
                parent_index = x.parent_counter + 1;
                part = some (index, total);
                source = source;
              }
                ∷ [];
          parent_counter = x.parent_counter + 1;
        })
        (index + 1) total texts

  unfoldable pub add_large : Packing → AtomicBlock → Packing
  unfolding flush_current_parent split_large_block add_parts
  add_large x b =
      let parts = split_large_block b.content chunker.max_parent_tokens in
      add_parts (flush_current_parent x) 1 (length parts) parts

  abbrev pub hold : Packing → AtomicBlock → Packing
  hold x b = record x {
    current_blocks = x.current_blocks ++ b ∷ [];
    current_tokens = x.current_tokens + b.estimated_tokens;
  }

  abbrev pub any_block : List AtomicBlock → Bool
  any_block [] = false
  any_block (b ∷ blocks) = true

  unfoldable pub add_small : Packing → AtomicBlock → Packing
  unfolding flush_current_parent
  add_small x b =
      let flushed = flush_current_parent x in
      if ltb chunker.max_parent_tokens (x.current_tokens + b.estimated_tokens)
        && any_block x.current_blocks
      then hold flushed b
      else hold x b

  abbrev place : Packing → AtomicBlock → Packing
  place x b =
      if ltb chunker.max_parent_tokens b.estimated_tokens then add_large x b else add_small x b

  -- One round of the loop.
  unfoldable pub pack_block : Packing → AtomicBlock → Packing
  unfolding enter_heading add_large add_small
  pack_block x b = place (enter_heading x b) b

  unfoldable pub pack : List AtomicBlock → List ParentChunk
  unfolding pack_block flush_current_parent
  pack blocks = (flush_current_parent (foldl pack_block start_packing blocks)).parent_chunks
