-- ===== src/Chunking/Children/Whole.antt =====
-- The chunking of a document as a whole: lexing, packing and the making of the children.
use agentic_substrate.Prelude.{
  ◌<◌, max, ◌≡◌, refl, ◌∙◌, sym, subst, Bool, true, false, List, [], ◌∷◌, length, All,
  if◌then◌else◌, arith,
}
use agentic_substrate.Text.{Text, is_nil, strip}
use agentic_substrate.Text.Ink.{ink}
use agentic_substrate.Chunking.Blocks.{AtomicBlock}
use agentic_substrate.Chunking.Lexer.{AtomicBlockLexer, new_lexer, lex}
use agentic_substrate.Chunking.Lexer.Ink.{lex-ink, blank_ink}
use agentic_substrate.Chunking.Lexer.Sizes.{Fits, lex-Fits}
use agentic_substrate.Chunking.Parents.{Chunker, Source, ParentChunk, pack}
use agentic_substrate.Chunking.Parents.Ink.{ink_parents, pack-ink}
use agentic_substrate.Chunking.Parents.Bounds.{IsLimited, pack-IsLimited}
use agentic_substrate.Chunking.Parents.Numbers.{count_from, indexes, pack-Numbered}
use agentic_substrate.Chunking.Children.{
  ChildChunk, DocumentChunkCollection, children_of, chunk_blocks, chunk,
}
use agentic_substrate.Chunking.Children.Members.{
  positions, positions-children_of, BelongsTo, children_of-BelongsTo,
}

collection-if :
    (Q : DocumentChunkCollection → Type 0) (b : Bool) (x y : DocumentChunkCollection)
    → (b ≡ true → Q x)
    → Q y
    → Q (if b then x else y)
collection-if Q true x y h k = h refl
collection-if Q false x y h k = k

module _ (chunker : Chunker) (source : Source) where
  abbrev lexer_of : AtomicBlockLexer
  lexer_of = new_lexer chunker.chars_per_token chunker.is_decimal

  -- What holds of nothing, where the text is blank, and of what has been packed from the blocks of
  -- the text, holds of the chunks.
  chunk-induction :
      (P : List ParentChunk → List ChildChunk → Type 0) (markdown_text : Text)
      → (is_nil (strip markdown_text) ≡ true → P [] [])
      → P
          (pack chunker source (lex lexer_of markdown_text))
          (children_of chunker 0 (pack chunker source (lex lexer_of markdown_text)))
      → P (chunk chunker source markdown_text).parents (chunk chunker source markdown_text).children
  unfolding chunk pack children_of
  chunk-induction P markdown_text h k =
      collection-if (λ c. P c.parents c.children) (is_nil (strip markdown_text)) _
        (chunk_blocks chunker source (lex lexer_of markdown_text)) h
        (of_blocks (lex lexer_of markdown_text) k)
    where
      of_blocks :
          (bs : List AtomicBlock)
          → P (pack chunker source bs) (children_of chunker 0 (pack chunker source bs))
          → P (chunk_blocks chunker source bs).parents (chunk_blocks chunker source bs).children
      of_blocks [] p = p
      of_blocks (b ∷ bs) p = p

  -- The parents of a document have all the ink of its text, in its order: outside of white space,
  -- chunking drops, repeats and moves nothing.
  pub chunk-ink :
      (markdown_text : Text)
      → ink_parents (chunk chunker source markdown_text).parents ≡ ink markdown_text
  chunk-ink markdown_text =
      chunk-induction (λ parents children. ink_parents parents ≡ ink markdown_text) markdown_text
        (λ e. unfold ink_parents in sym (blank_ink lexer_of markdown_text e))
        (pack-ink chunker source (lex lexer_of markdown_text) ∙ lex-ink lexer_of markdown_text)

  -- The parents of a document are numbered from 1 and its children from 0, each in their order and
  -- without a gap.
  pub chunk-Numbered :
      (markdown_text : Text)
      → (indexes (chunk chunker source markdown_text).parents
          ≡ count_from 0 (length (chunk chunker source markdown_text).parents))
        × (positions (chunk chunker source markdown_text).children
            ≡ count_from 0 (length (chunk chunker source markdown_text).children))
  unfolding count_from
  chunk-Numbered markdown_text =
      chunk-induction
        (λ parents children.
          (indexes parents ≡ count_from 0 (length parents))
          × (positions children ≡ count_from 0 (length children)))
        markdown_text (λ e. (refl, refl))
        (
          pack-Numbered chunker source (lex lexer_of markdown_text),
          positions-children_of chunker 0 (pack chunker source (lex lexer_of markdown_text)),
        )

  -- Each child has the number, the path of headings and the document of one of the parents of its
  -- document, and its text stands in the text of that parent, in one piece up to white space.
  pub chunk-BelongsTo :
      (markdown_text : Text)
      → All
          (λ c. BelongsTo c (chunk chunker source markdown_text).parents)
          (chunk chunker source markdown_text).children
  chunk-BelongsTo markdown_text =
      chunk-induction (λ parents children. All (λ c. BelongsTo c parents) children) markdown_text
        (λ e. tt)
        (children_of-BelongsTo chunker 0 (pack chunker source (lex lexer_of markdown_text)))

  -- A parent of a document that is packed of whole blocks has at most `2 * chars_per_token + 1` code
  -- points for each token of the limit for parents, where a token has some code point.
  pub chunk-IsLimited :
      (markdown_text : Text)
      → 0 < chunker.chars_per_token
      → All (IsLimited chunker source) (chunk chunker source markdown_text).parents
  unfolding new_lexer
  chunk-IsLimited markdown_text some_chars =
      let same : max 1 chunker.chars_per_token ≡ chunker.chars_per_token =
        omega (arith, some_chars) in
      chunk-induction (λ parents children. All (IsLimited chunker source) parents) markdown_text
        (λ e. tt)
        (pack-IsLimited chunker source (lex lexer_of markdown_text) (
          subst (λ n. All (Fits n) (lex lexer_of markdown_text)) same
            (lex-Fits lexer_of (omega arith) markdown_text)))
