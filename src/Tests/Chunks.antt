-- ===== src/Tests/Chunks.antt =====
-- Tests of the chunking, with the digits of ASCII for the class `\d`.
use agentic_substrate.Prelude.{
  ℕ, ◌≡◌, refl, Bool, ◌&&◌, none, List, [], ◌∷◌, ◌++◌, map, length, leb, All, arith,
}
use agentic_substrate.Text.{Text, codes, is_nil}
use agentic_substrate.Text.Splits.{split_sentences}
use agentic_substrate.Text.Ink.{ink}
use agentic_substrate.Chunking.Blocks.{
  AtomicBlock, BlockType, heading, paragraph, code_block, table, list, thematic_break,
}
use agentic_substrate.Chunking.Lexer.{AtomicBlockLexer, new_lexer, newline, lex}
use agentic_substrate.Chunking.Lexer.Ink.{ink_of, lex-ink}
use agentic_substrate.Chunking.Lexer.Sizes.{Fits, lex-Fits}
use agentic_substrate.Chunking.Parents.{Chunker, new_chunker, Source, ParentChunk}
use agentic_substrate.Chunking.Parents.Ink.{ink_parents}
use agentic_substrate.Chunking.Parents.Bounds.{IsLimited}
use agentic_substrate.Chunking.Parents.Numbers.{indexes, count_from}
use agentic_substrate.Chunking.Children.{is_child_end, create_child_chunks_from_parent, chunk}
use agentic_substrate.Chunking.Children.Members.{positions, BelongsTo}
use agentic_substrate.Chunking.Children.Overlaps.{Held, create_child_chunks-Held}
use agentic_substrate.Chunking.Children.Whole.{
  chunk-ink, chunk-Numbered, chunk-BelongsTo, chunk-IsLimited,
}

abbrev is_digit : ℕ → Bool
is_digit c = leb 48 c && leb c 57

abbrev small_chunker : Chunker
small_chunker = new_chunker 4 2 1 4 is_digit

abbrev some_lexer : AtomicBlockLexer
some_lexer = new_lexer 4 is_digit

abbrev some_source : Source
some_source = record {
  document_id = codes "d1";
  document_name = codes "notes.md";
  source_type = none;
  ingested_at = none;
}

abbrev some_document : Text
some_document =
    codes "# Title"
    ++ newline
    ++ codes "One two. Three four! Five six seven eight?"
    ++ newline
    ++ newline
    ++ codes "- item"
    ++ newline
    ++ codes "1. item"
    ++ newline
    ++ codes "| a | b |"
    ++ newline
    ++ codes "---"
    ++ newline
    ++ codes "```"
    ++ newline
    ++ codes "# code"
    ++ newline
    ++ codes "```"

abbrev types_of : List AtomicBlock → List BlockType
types_of blocks = map (λ (b : AtomicBlock). b.block_type) blocks

lexed_types :
    types_of (lex some_lexer some_document)
    ≡ heading ∷ paragraph ∷ list ∷ table ∷ thematic_break ∷ code_block ∷ []
unfolding lex new_lexer is_nil
lexed_types = refl

abbrev token_counts : List ParentChunk → List ℕ
token_counts parents = map (λ (p : ParentChunk). p.token_count) parents

-- Four paragraphs of seven letters, of one token each by their own estimates.
abbrev four_paragraphs : Text
four_paragraphs =
    codes "abcdefg"
    ++ newline
    ++ newline
    ++ codes "abcdefg"
    ++ newline
    ++ newline
    ++ codes "abcdefg"
    ++ newline
    ++ newline
    ++ codes "abcdefg"

-- They make one parent of 8 tokens, with a limit of 4.
packed_beyond_limit :
    token_counts (chunk small_chunker some_source four_paragraphs).parents ≡ 8 ∷ []
unfolding chunk new_chunker is_nil
packed_beyond_limit = refl

-- A paragraph of two sentences, the second of which is 40 letters long.
abbrev long_sentence : Text
long_sentence = codes "Short one. abcdefghijabcdefghijabcdefghijabcdefghij"

-- The second sentence is not split, with a limit of 4 tokens.
long_sentence_kept :
    token_counts (chunk small_chunker some_source long_sentence).parents ≡ 2 ∷ 10 ∷ []
unfolding chunk new_chunker is_nil
long_sentence_kept = refl

child_texts :
    create_child_chunks_from_parent small_chunker (codes "Go on. Do. Hi. End.") 2 1
    ≡ codes "Go on." ∷ codes "Do. Hi." ∷ codes "Hi. End." ∷ []
unfolding create_child_chunks_from_parent new_chunker
child_texts = refl

lex-ink_example : ink_of (lex some_lexer some_document) ≡ ink some_document
lex-ink_example = lex-ink some_lexer some_document

lex-Fits_example : All (Fits some_lexer.chars_per_token) (lex some_lexer some_document)
unfolding new_lexer
lex-Fits_example = lex-Fits some_lexer (omega arith) some_document

chunk-ink_example :
    ink_parents (chunk small_chunker some_source some_document).parents ≡ ink some_document
chunk-ink_example = chunk-ink small_chunker some_source some_document

chunk-Numbered_example :
    (indexes (chunk small_chunker some_source some_document).parents
      ≡ count_from 0 (length (chunk small_chunker some_source some_document).parents))
    × (positions (chunk small_chunker some_source some_document).children
        ≡ count_from 0 (length (chunk small_chunker some_source some_document).children))
chunk-Numbered_example = chunk-Numbered small_chunker some_source some_document

chunk-BelongsTo_example :
    All
      (λ c. BelongsTo c (chunk small_chunker some_source some_document).parents)
      (chunk small_chunker some_source some_document).children
chunk-BelongsTo_example = chunk-BelongsTo small_chunker some_source some_document

chunk-IsLimited_example :
    All
      (IsLimited small_chunker some_source)
      (chunk small_chunker some_source some_document).parents
unfolding new_chunker
chunk-IsLimited_example = chunk-IsLimited small_chunker some_source some_document (omega arith)

create_child_chunks-Held_example :
    All
      (λ s.
        Held s (create_child_chunks_from_parent small_chunker (codes "Go on. Do. Hi. End.") 2 1))
      (split_sentences is_child_end (codes "Go on. Do. Hi. End."))
create_child_chunks-Held_example =
    create_child_chunks-Held small_chunker (codes "Go on. Do. Hi. End.") 2 1

-- Two sections that fit into one parent: it has the path of the second.
abbrev two_sections : Text
two_sections =
    codes "# A" ++ newline ++ codes "one" ++ newline ++ codes "# B" ++ newline ++ codes "two"

path_of_last_heading :
    map (λ (p : ParentChunk). p.header_path) (chunk small_chunker some_source two_sections).parents
    ≡ codes "[Doc: notes.md] > # B" ∷ []
unfolding chunk new_chunker is_nil
path_of_last_heading = refl
