-- ===== src/Chunking/Parents/Ink.antt =====
-- What the parent chunks keep of the blocks.
pub mod Gather
use agentic_substrate.Prelude.{
  ℕ, ◌+◌, ◌*◌, ◌≡◌, refl, ◌∙◌, ap, sym, Bool, true, false, ◌&&◌, Option, none, some, List, [], ◌∷◌,
  ◌++◌, append_assoc, append-nil, map, foldl, length, leb, ltb, ◌==◌, if◌then◌else◌, Bool-cases,
  inl, inr, arith,
}
use agentic_substrate.Text.{Text, is_space, strip, join}
use agentic_substrate.Text.Splits.{split_lines, split_words, split_sentences}
use agentic_substrate.Text.Ink.{ink, ink_all, ink_all-append, ink-strip, ink-join}
use agentic_substrate.Text.Ink.Pieces.{
  ink_all-split_lines, ink_all-split_words, ink_all-split_sentences,
}
use agentic_substrate.Chunking.Blocks.{AtomicBlock, BlockType, heading}
use agentic_substrate.Chunking.Lexer.{newline}
use agentic_substrate.Chunking.Lexer.Ink.{ink_all_one, ink_of, ink_of-append, ink-newline}
use agentic_substrate.Chunking.Parents.{
  Chunker, Source, ParentChunk, is_sentence_end, blank, gather, several, split_large_block, Packing,
  start_packing, packed_parent, flush_blocks, flush_current_parent, enter_level, enter_heading,
  add_parts, add_large, hold, any_block, add_small, pack_block, pack,
}
use agentic_substrate.Chunking.Parents.Ink.Gather.{ink_all-split_large_block}

-- The ink of the contents of parents, in order.
unfoldable pub ink_parents : List ParentChunk → Text
ink_parents [] = []
ink_parents (p ∷ parents) = ink p.content ++ ink_parents parents

ink_parents-append :
    (xs ys : List ParentChunk) → ink_parents (xs ++ ys) ≡ ink_parents xs ++ ink_parents ys
unfolding ink_parents
ink_parents-append [] ys = refl
ink_parents-append (x ∷ xs) ys =
    ap (λ t. ink x.content ++ t) (ink_parents-append xs ys)
    ∙ sym (append_assoc (ink x.content) (ink_parents xs) (ink_parents ys))

ink_parents-snoc :
    (xs : List ParentChunk) (p : ParentChunk)
    → ink_parents (xs ++ p ∷ []) ≡ ink_parents xs ++ ink p.content
ink_parents-snoc xs p =
    ink_parents-append xs (p ∷ [])
    ∙ ap (λ t. ink_parents xs ++ t) (unfold ink_parents in append-nil (ink p.content))

contents_ink :
    (blocks : List AtomicBlock)
    → ink_all (map (λ (b : AtomicBlock). b.content) blocks) ≡ ink_of blocks
unfolding ink_all ink_of
contents_ink [] = refl
contents_ink (b ∷ blocks) = ap (λ t. ink b.content ++ t) (contents_ink blocks)

ink_of_one : (b : AtomicBlock) → ink_of (b ∷ []) ≡ ink b.content
unfolding ink_of
ink_of_one b = append-nil (ink b.content)

two_newlines : ink (newline ++ newline) ≡ []
unfolding ink is_space
two_newlines = refl

module _ (chunker : Chunker) (source : Source) where
  -- The ink of what has been packed.
  abbrev packed : Packing chunker source → Text
  packed x = ink_parents x.parent_chunks ++ ink_of x.current_blocks

  packed-if :
      (b : Bool) (x y : Packing chunker source) (t : Text)
      → packed x ≡ t
      → packed y ≡ t
      → packed (if b then x else y) ≡ t
  packed-if true x y t h k = h
  packed-if false x y t h k = k

  ink-packed_parent :
      (x : Packing chunker source) (blocks : List AtomicBlock)
      → ink (packed_parent chunker source x blocks).content ≡ ink_of blocks
  unfolding packed_parent
  ink-packed_parent x blocks =
      ink-strip (join (newline ++ newline) (map (λ (b : AtomicBlock). b.content) blocks))
      ∙ ink-join (newline ++ newline) (map (λ (b : AtomicBlock). b.content) blocks) two_newlines
      ∙ contents_ink blocks

  ink-flush_blocks :
      (x : Packing chunker source) (blocks : List AtomicBlock)
      → ink_parents (flush_blocks chunker source x blocks).parent_chunks
        ≡ ink_parents x.parent_chunks ++ ink_of blocks
  unfolding ink_of
  ink-flush_blocks x [] = sym (append-nil (ink_parents x.parent_chunks))
  ink-flush_blocks x (b ∷ blocks) =
      ink_parents-snoc x.parent_chunks _
      ∙ ap (λ t. ink_parents x.parent_chunks ++ t) (ink-packed_parent x (b ∷ blocks))

  flush_blocks-nil :
      (x : Packing chunker source) (blocks : List AtomicBlock)
      → x.current_blocks ≡ blocks
      → (flush_blocks chunker source x blocks).current_blocks ≡ []
  flush_blocks-nil x [] e = e
  flush_blocks-nil x (b ∷ blocks) e = refl

  flushed_ink :
      (x : Packing chunker source)
      → ink_parents (flush_current_parent chunker source x).parent_chunks ≡ packed x
  unfolding flush_current_parent
  flushed_ink x = ink-flush_blocks x x.current_blocks

  flushed_blocks :
      (x : Packing chunker source) → (flush_current_parent chunker source x).current_blocks ≡ []
  unfolding flush_current_parent
  flushed_blocks x = flush_blocks-nil x x.current_blocks refl

  packed-flush :
      (x : Packing chunker source) → packed (flush_current_parent chunker source x) ≡ packed x
  unfolding ink_of
  packed-flush x =
      ap (λ bs. ink_parents (flush_current_parent chunker source x).parent_chunks ++ ink_of bs)
        (flushed_blocks x)
      ∙ append-nil (ink_parents (flush_current_parent chunker source x).parent_chunks)
      ∙ flushed_ink x

  packed-hold :
      (x : Packing chunker source) (b : AtomicBlock)
      → packed (hold chunker source x b) ≡ packed x ++ ink b.content
  packed-hold x b =
      ap (λ t. ink_parents x.parent_chunks ++ t)
        (ink_of-append x.current_blocks (b ∷ [])
          ∙ ap (λ t. ink_of x.current_blocks ++ t) (ink_of_one b))
      ∙ sym (append_assoc (ink_parents x.parent_chunks) (ink_of x.current_blocks) (ink b.content))

  packed-add_small :
      (x : Packing chunker source) (b : AtomicBlock)
      → packed (add_small chunker source x b) ≡ packed x ++ ink b.content
  unfolding add_small
  packed-add_small x b =
      packed-if
        (ltb chunker.max_parent_tokens (x.current_tokens + b.estimated_tokens)
          && any_block chunker source x.current_blocks)
        _ _ _
        (packed-hold (flush_current_parent chunker source x) b
          ∙ ap (λ t. t ++ ink b.content) (packed-flush x))
        (packed-hold x b)

  -- With no block begun, the parts of a large block go straight to the parents.
  packed-add_parts :
      (texts : List Text) (x : Packing chunker source) (index total : ℕ)
      → x.current_blocks ≡ []
      → packed (add_parts chunker source x index total texts)
        ≡ ink_parents x.parent_chunks ++ ink_all texts
  unfolding add_parts ink_all ink_of
  packed-add_parts [] x index total e = ap (λ bs. ink_parents x.parent_chunks ++ ink_of bs) e
  packed-add_parts (text ∷ texts) x index total e =
      packed-add_parts texts _ (index + 1) total e
      ∙ ap (λ t. t ++ ink_all texts) (ink_parents-snoc x.parent_chunks _)
      ∙ append_assoc (ink_parents x.parent_chunks) (ink text) (ink_all texts)

  packed-add_large :
      (x : Packing chunker source) (b : AtomicBlock)
      → packed (add_large chunker source x b) ≡ packed x ++ ink b.content
  unfolding add_large
  packed-add_large x b =
      packed-add_parts (split_large_block chunker source b.content chunker.max_parent_tokens)
        (flush_current_parent chunker source x) 1 _ (flushed_blocks x)
      ∙ ap
          (λ t. t ++ ink_all (split_large_block chunker source b.content chunker.max_parent_tokens))
          (flushed_ink x)
      ∙ ap (λ t. packed x ++ t)
          (ink_all-split_large_block chunker source b.content chunker.max_parent_tokens)

  packed-enter_level :
      (x : Packing chunker source) (b : AtomicBlock) (level : Option ℕ)
      → packed (enter_level chunker source x b level) ≡ packed x
  packed-enter_level x b none = refl
  packed-enter_level x b (some level) = packed-if (level == 0) _ _ _ refl refl

  packed-enter_heading :
      (x : Packing chunker source) (b : AtomicBlock)
      → packed (enter_heading chunker source x b) ≡ packed x
  packed-enter_heading x b = at b.block_type refl
    where
      at :
          (type : BlockType)
          → b.block_type ≡ type
          → packed (enter_heading chunker source x b) ≡ packed x
      at heading e = unfold enter_heading in rw e (packed-enter_level x b b.header_level)
      at _ e = unfold enter_heading in rw e refl

  packed-pack_block :
      (x : Packing chunker source) (b : AtomicBlock)
      → packed (pack_block chunker source x b) ≡ packed x ++ ink b.content
  unfolding pack_block
  packed-pack_block x b =
      packed-if (ltb chunker.max_parent_tokens b.estimated_tokens) _ _ _
        (packed-add_large (enter_heading chunker source x b) b)
        (packed-add_small (enter_heading chunker source x b) b)
      ∙ ap (λ t. t ++ ink b.content) (packed-enter_heading x b)

  packed_all :
      (blocks : List AtomicBlock) (x : Packing chunker source)
      → packed (foldl (pack_block chunker source) x blocks) ≡ packed x ++ ink_of blocks
  unfolding ink_of
  packed_all [] x = sym (append-nil (packed x))
  packed_all (b ∷ blocks) x =
      packed_all blocks (pack_block chunker source x b)
      ∙ ap (λ t. t ++ ink_of blocks) (packed-pack_block x b)
      ∙ append_assoc (packed x) (ink b.content) (ink_of blocks)

  -- The parent chunks have all the ink of the blocks, in its order.
  pub pack-ink :
      (blocks : List AtomicBlock) → ink_parents (pack chunker source blocks) ≡ ink_of blocks
  unfolding pack ink_parents ink_of
  pack-ink blocks =
      flushed_ink (foldl (pack_block chunker source) (start_packing chunker source) blocks)
      ∙ packed_all blocks (start_packing chunker source)
