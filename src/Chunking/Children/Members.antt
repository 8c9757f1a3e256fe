-- ===== src/Chunking/Children/Members.antt =====
-- The child chunks of a document, and the parents to which they belong.
use agentic_substrate.Prelude.{
  ℕ, zero, suc, ◌+◌, ◌≡◌, refl, ◌∙◌, ap, sym, List, [], ◌∷◌, ◌++◌, map, length, All, All-append,
  length-append, arith,
}
use agentic_substrate.Text.{Text}
use agentic_substrate.Chunking.Parents.{Chunker, ParentChunk}
use agentic_substrate.Chunking.Parents.Numbers.{count_from}
use agentic_substrate.Chunking.Children.{
  ChildChunk, create_child_chunks_from_parent, number_children, children_of,
}
use agentic_substrate.Chunking.Children.Overlaps.{InkIn}
use agentic_substrate.Chunking.Children.Inside.{create_child_chunks-Inside}

abbrev pub positions : List ChildChunk → List ℕ
positions children = map (λ (c : ChildChunk). suc c.chunk_index) children

count_from-append : (k m n : ℕ) → count_from k (m + n) ≡ count_from k m ++ count_from (k + m) n
unfolding count_from
count_from-append k zero n =
    let e : zero + n ≡ n = omega arith in
    let d : k ≡ k + zero = omega arith in ap (count_from k) e ∙ ap (λ i. count_from i n) d
count_from-append k (suc m) n =
    let e : suc m + n ≡ suc (m + n) = omega arith in
    let d : suc k + m ≡ k + suc m = omega arith in
    ap (count_from k) e
    ∙ ap (λ l. suc k ∷ l)
        (count_from-append (suc k) m n ∙ ap (λ i. count_from (suc k) m ++ count_from i n) d)

positions-append : (xs ys : List ChildChunk) → positions (xs ++ ys) ≡ positions xs ++ positions ys
positions-append [] ys = refl
positions-append (x ∷ xs) ys = ap (λ l. suc x.chunk_index ∷ l) (positions-append xs ys)

-- The place of a child under the parents: it has the number, the path and the document of one of them,
-- and its text stands in the text of that one, in one piece up to white space.
pub data BelongsTo (child : ChildChunk) : List ParentChunk → Type 0 where
  here :
      {parent : ParentChunk} {parents : List ParentChunk}
      → child.parent_index ≡ parent.parent_index
      → child.header_path ≡ parent.header_path
      → child.source ≡ parent.source
      → InkIn child.content parent.content
      → BelongsTo child (parent ∷ parents)
  there :
      {parent : ParentChunk} {parents : List ParentChunk}
      → BelongsTo child parents
      → BelongsTo child (parent ∷ parents)

All-map :
    {P Q : ChildChunk → Type 0}
    → ((c : ChildChunk) → P c → Q c)
    → (cs : List ChildChunk) → All P cs
    → All Q cs
All-map f [] h = tt
All-map f (c ∷ cs) h = (f c h.0, All-map f cs h.1)

module _ (chunker : Chunker) where
  texts_of : ParentChunk → List Text
  texts_of parent =
      create_child_chunks_from_parent chunker parent.content chunker.child_chunk_tokens
        chunker.child_overlap_tokens

  positions-number_children :
      (parent : ParentChunk) (number index : ℕ) (texts : List Text)
      → positions (number_children chunker parent number index texts)
        ≡ count_from index (length texts)
  unfolding number_children count_from
  positions-number_children parent number index [] = refl
  positions-number_children parent number index (text ∷ texts) =
      ap (λ l. suc index ∷ l)
        (positions-number_children parent (number + 1) (index + 1) texts
          ∙ ap (λ i. count_from i (length texts)) (omega arith))

  length-number_children :
      (parent : ParentChunk) (number index : ℕ) (texts : List Text)
      → length (number_children chunker parent number index texts) ≡ length texts
  unfolding number_children
  length-number_children parent number index [] = refl
  length-number_children parent number index (text ∷ texts) =
      ap suc (length-number_children parent (number + 1) (index + 1) texts)

  pub positions-children_of :
      (index : ℕ) (parents : List ParentChunk)
      → positions (children_of chunker index parents)
        ≡ count_from index (length (children_of chunker index parents))
  unfolding children_of count_from texts_of
  positions-children_of index [] = refl
  positions-children_of index (parent ∷ parents) =
      let texts = texts_of parent in
      let first = number_children chunker parent 1 index texts in
      let rest = children_of chunker (index + length texts) parents in
      positions-append first rest
      ∙ ap (λ l. l ++ positions rest) (positions-number_children parent 1 index texts)
      ∙ ap (λ l. count_from index (length texts) ++ l)
          (positions-children_of (index + length texts) parents)
      ∙ sym (count_from-append index (length texts) (length rest))
      ∙ ap (count_from index)
          (omega (arith, length-append first rest, length-number_children parent 1 index texts))

  number_children-BelongsTo :
      (parent : ParentChunk) (parents : List ParentChunk) (number index : ℕ) (texts : List Text)
      → All (λ s. InkIn s parent.content) texts
      → All
          (λ c. BelongsTo c (parent ∷ parents))
          (number_children chunker parent number index texts)
  unfolding number_children
  number_children-BelongsTo parent parents number index [] h = tt
  number_children-BelongsTo parent parents number index (text ∷ texts) h = (
    here refl refl refl h.0,
    number_children-BelongsTo parent parents (number + 1) (index + 1) texts h.1,
  )

  pub children_of-BelongsTo :
      (index : ℕ) (parents : List ParentChunk)
      → All (λ c. BelongsTo c parents) (children_of chunker index parents)
  unfolding children_of texts_of
  children_of-BelongsTo index [] = tt
  children_of-BelongsTo index (parent ∷ parents) =
      let texts = texts_of parent in
      All-append (λ c. BelongsTo c (parent ∷ parents))
        (number_children chunker parent 1 index texts)
        (children_of chunker (index + length texts) parents)
        (number_children-BelongsTo parent parents 1 index texts (
          create_child_chunks-Inside chunker parent.content chunker.child_chunk_tokens
            chunker.child_overlap_tokens))
        (All-map (λ c h. there h) (children_of chunker (index + length texts) parents)
          (children_of-BelongsTo (index + length texts) parents))
