-- ===== src/Chunking/Children.antt =====
-- structure_tolerant_markdown_chunker.py: the child chunks of the parents, and `chunk` as a whole.
pub mod Members
pub mod Overlaps
pub mod Inside
pub mod Whole
use agentic_substrate.Prelude.{
  ℕ, suc, ◌+◌, ◌*◌, Bool, true, false, ◌&&◌, ◌||◌, not, Option, none, some, List, [], ◌∷◌, ◌++◌,
  map, foldl, length, ltb, leb, ◌==◌, if◌then◌else◌,
}
use agentic_substrate.Text.{Text, is_nil, text_eq, reverse, strip, join}
use agentic_substrate.Text.Splits.{split_sentences}
use agentic_substrate.Chunking.Blocks.{AtomicBlock}
use agentic_substrate.Chunking.Lexer.{new_lexer, lex}
use agentic_substrate.Chunking.Parents.{Chunker, Source, ParentChunk, is_sentence_end, blank, pack}

-- `ChildChunk` without its embedding, which is not set here; its `id` is
-- `{parent_chunk_id}-c{number}`; `parent_index` stands for the identifier of the parent.
pub record ChildChunk : Type 0 where
  pub parent_index : ℕ
  pub number : ℕ
  pub chunk_index : ℕ
  pub header_path : Text
  pub content : Text
  pub source : Source

pub record DocumentChunkCollection : Type 0 where
  pub document_id : Text
  pub parents : List ParentChunk
  pub children : List ChildChunk

unfoldable pub is_child_end : ℕ → Bool
unfolding is_sentence_end
is_child_end c = is_sentence_end c || c == b'\n'

-- The last sentences, given from the last to the first, as long as they stay within the overlap.
unfoldable pub overlap_onto : ℕ → ℕ → List Text → List Text → List Text
overlap_onto overlap_chars accum acc [] = acc
overlap_onto overlap_chars accum acc (prev ∷ prevs) =
    elim (leb (accum + length prev) overlap_chars) [
      | true ↦ overlap_onto overlap_chars (accum + length prev) (prev ∷ acc) prevs
      | false ↦ acc
    ]

unfoldable pub reversed : List Text → List Text → List Text
reversed acc [] = acc
reversed acc (s ∷ texts) = reversed (s ∷ acc) texts

unfoldable pub overlap : ℕ → List Text → List Text
unfolding overlap_onto reversed
overlap overlap_chars current = overlap_onto overlap_chars 0 [] (reversed [] current)

-- `sum(len(s) for s in texts)`
unfoldable pub total_length : List Text → ℕ
total_length [] = 0
total_length (s ∷ texts) = length s + total_length texts

-- `chunks[-1] != text`, or no chunk.
abbrev pub differs : Option Text → Text → Bool
differs none text = true
differs (some s) text = not (text_eq s text)

-- The loop over the sentences: `last` is the last chunk that has been closed.
unfoldable pub overlapping :
    (child_chars overlap_chars : ℕ) → Option Text → List Text → ℕ → List Text → List Text
unfolding strip join text_eq overlap total_length
overlapping child_chars overlap_chars last [] len [] = []
overlapping child_chars overlap_chars last (c ∷ current) len [] =
    let text = strip (join blank (c ∷ current)) in if differs last text then text ∷ [] else []
overlapping child_chars overlap_chars last [] len (s ∷ sentences) =
    overlapping child_chars overlap_chars last (s ∷ []) (len + length s) sentences
overlapping child_chars overlap_chars last (c ∷ current) len (s ∷ sentences) =
    elim (leb (len + length s) child_chars) [
      | true ↦
          overlapping child_chars overlap_chars last ((c ∷ current) ++ s ∷ []) (len + length s)
            sentences
      | false ↦
          let text = strip (join blank (c ∷ current)) in
          let next = overlap overlap_chars (c ∷ current) ++ s ∷ [] in
          text
          ∷ overlapping child_chars overlap_chars (some text) next (total_length next + length next)
              sentences
    ]

module _ (chunker : Chunker) where
  unfoldable pub create_child_chunks_from_parent :
      Text → (child_tokens overlap_tokens : ℕ) → List Text
  unfolding is_child_end split_sentences overlapping
  create_child_chunks_from_parent parent_content child_tokens overlap_tokens =
      let child_chars = child_tokens * chunker.chars_per_token in
      if leb (length parent_content) child_chars
      then parent_content ∷ []
      else overlapping child_chars (overlap_tokens * chunker.chars_per_token) none [] 0
          (split_sentences is_child_end parent_content)

  -- The inner loop over the texts of a parent, from the text `number` and the index `index` on.
  unfoldable pub number_children : ParentChunk → (number index : ℕ) → List Text → List ChildChunk
  number_children parent number index [] = []
  number_children parent number index (text ∷ texts) =
      record {
        parent_index = parent.parent_index;
        number = number;
        chunk_index = index;
        header_path = parent.header_path;
        content = text;
        source = parent.source;
      }
      ∷ number_children parent (number + 1) (index + 1) texts

  unfoldable pub children_of : ℕ → List ParentChunk → List ChildChunk
  unfolding create_child_chunks_from_parent number_children
  children_of index [] = []
  children_of index (parent ∷ parents) =
      let texts =
        create_child_chunks_from_parent parent.content chunker.child_chunk_tokens
          chunker.child_overlap_tokens in
      number_children parent 1 index texts ++ children_of (index + length texts) parents

  abbrev no_chunks : Source → DocumentChunkCollection
  no_chunks source = record { document_id = source.document_id; parents = []; children = [] }

  abbrev pub chunk_blocks : Source → List AtomicBlock → DocumentChunkCollection
  chunk_blocks source [] = no_chunks source
  chunk_blocks source (b ∷ blocks) =
      let parents = pack chunker source (b ∷ blocks) in
      record {
        document_id = source.document_id;
        parents = parents;
        children = children_of 0 parents;
      }

  unfoldable pub chunk : Source → Text → DocumentChunkCollection
  unfolding strip new_lexer lex pack children_of
  chunk source markdown_text =
      if is_nil (strip markdown_text)
      then no_chunks source
      else chunk_blocks source
          (lex (new_lexer chunker.chars_per_token chunker.is_decimal) markdown_text)
