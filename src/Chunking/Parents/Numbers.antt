-- ===== src/Chunking/Parents/Numbers.antt =====
-- The numbers of the parent chunks.
use agentic_substrate.Prelude.{
  ℕ, zero, suc, ◌+◌, ◌&&◌, ◌≡◌, refl, ◌∙◌, ap, sym, Bool, true, false, Option, none, some, List, [],
  ◌∷◌, ◌++◌, map, foldl, length, length-map, ltb, ◌==◌, if◌then◌else◌, arith,
}
use agentic_substrate.Text.{Text}
use agentic_substrate.Chunking.Blocks.{AtomicBlock, BlockType, heading}
use agentic_substrate.Chunking.Parents.{
  Chunker, Source, ParentChunk, split_large_block, Packing, start_packing, packed_parent,
  flush_blocks, flush_current_parent, enter_level, enter_heading, add_parts, add_large, hold,
  any_block, add_small, pack_block, pack,
}

-- `n` numbers from `k + 1` on.
unfoldable pub count_from : (k n : ℕ) → List ℕ
count_from k zero = []
count_from k (suc n) = suc k ∷ count_from (suc k) n

count_from-suc : (k n : ℕ) → count_from k (suc n) ≡ count_from k n ++ (k + n + 1) ∷ []
unfolding count_from
count_from-suc k zero = ap (λ m. m ∷ []) (omega arith)
count_from-suc k (suc n) =
    ap (λ l. suc k ∷ l)
      (count_from-suc (suc k) n ∙ ap (λ m. count_from (suc k) n ++ m ∷ []) (omega arith))

length-count_from : (k n : ℕ) → length (count_from k n) ≡ n
unfolding count_from
length-count_from k zero = refl
length-count_from k (suc n) = ap suc (length-count_from (suc k) n)

abbrev pub indexes : List ParentChunk → List ℕ
indexes parents = map (λ (p : ParentChunk). p.parent_index) parents

indexes-snoc :
    (parents : List ParentChunk) (p : ParentChunk)
    → indexes (parents ++ p ∷ []) ≡ indexes parents ++ p.parent_index ∷ []
indexes-snoc [] p = refl
indexes-snoc (q ∷ parents) p = ap (λ l. q.parent_index ∷ l) (indexes-snoc parents p)

module _ (chunker : Chunker) (source : Source) where
  -- The parents are numbered from 1, and the counter is the last number.
  record Numbered (x : Packing chunker source) : Type 0 where
    numbers : indexes x.parent_chunks ≡ count_from 0 x.parent_counter

  start_Numbered : Numbered (start_packing chunker source)
  unfolding count_from
  start_Numbered = record { numbers = refl }

  Numbered-snoc :
      (x : Packing chunker source) (p : ParentChunk)
      → p.parent_index ≡ x.parent_counter + 1
      → Numbered x
      → indexes (x.parent_chunks ++ p ∷ []) ≡ count_from 0 (x.parent_counter + 1)
  Numbered-snoc x p e h =
      indexes-snoc x.parent_chunks p
      ∙ ap (λ l. l ++ p.parent_index ∷ []) h.numbers
      ∙ ap (λ m. count_from 0 x.parent_counter ++ m ∷ []) (omega (arith, e))
      ∙ sym (count_from-suc 0 x.parent_counter)
      ∙ ap (count_from 0) (omega arith)

  flush_blocks-Numbered :
      (x : Packing chunker source) (blocks : List AtomicBlock)
      → Numbered x
      → Numbered (flush_blocks chunker source x blocks)
  unfolding packed_parent
  flush_blocks-Numbered x [] h = h
  flush_blocks-Numbered x (b ∷ blocks) h = record { numbers = Numbered-snoc x _ refl h }

  flush-Numbered :
      (x : Packing chunker source) → Numbered x → Numbered (flush_current_parent chunker source x)
  unfolding flush_current_parent
  flush-Numbered x h = flush_blocks-Numbered x x.current_blocks h

  Numbered-if :
      (b : Bool) (x y : Packing chunker source)
      → Numbered x
      → Numbered y
      → Numbered (if b then x else y)
  Numbered-if true x y h k = h
  Numbered-if false x y h k = k

  add_parts-Numbered :
      (texts : List Text) (x : Packing chunker source) (index total : ℕ)
      → Numbered x
      → Numbered (add_parts chunker source x index total texts)
  unfolding add_parts
  add_parts-Numbered [] x index total h = h
  add_parts-Numbered (text ∷ texts) x index total h =
      add_parts-Numbered texts _ (index + 1) total (record { numbers = Numbered-snoc x _ refl h })

  enter_level-Numbered :
      (x : Packing chunker source) (b : AtomicBlock) (level : Option ℕ)
      → Numbered x
      → Numbered (enter_level chunker source x b level)
  enter_level-Numbered x b none h = h
  enter_level-Numbered x b (some level) h =
      Numbered-if (level == 0) x _ h (record { numbers = h.numbers })

  enter_heading-Numbered :
      (x : Packing chunker source) (b : AtomicBlock)
      → Numbered x
      → Numbered (enter_heading chunker source x b)
  enter_heading-Numbered x b h = at b.block_type refl
    where
      at : (type : BlockType) → b.block_type ≡ type → Numbered (enter_heading chunker source x b)
      at heading e = unfold enter_heading in rw e (enter_level-Numbered x b b.header_level h)
      at _ e = unfold enter_heading in rw e h

  add_small-Numbered :
      (x : Packing chunker source) (b : AtomicBlock)
      → Numbered x
      → Numbered (add_small chunker source x b)
  unfolding add_small
  add_small-Numbered x b h =
      Numbered-if
        (ltb chunker.max_parent_tokens (x.current_tokens + b.estimated_tokens)
          && any_block chunker source x.current_blocks)
        (hold chunker source (flush_current_parent chunker source x) b) (hold chunker source x b)
        (record { numbers = (flush-Numbered x h).numbers }) (record { numbers = h.numbers })

  pack_block-Numbered :
      (x : Packing chunker source) (b : AtomicBlock)
      → Numbered x
      → Numbered (pack_block chunker source x b)
  unfolding pack_block add_large
  pack_block-Numbered x b h =
      let entered = enter_heading-Numbered x b h in
      Numbered-if (ltb chunker.max_parent_tokens b.estimated_tokens)
        (add_large chunker source (enter_heading chunker source x b) b)
        (add_small chunker source (enter_heading chunker source x b) b)
        (add_parts-Numbered (split_large_block chunker source b.content chunker.max_parent_tokens)
          (flush_current_parent chunker source (enter_heading chunker source x b)) 1
          (length (split_large_block chunker source b.content chunker.max_parent_tokens))
          (flush-Numbered (enter_heading chunker source x b) entered))
        (add_small-Numbered (enter_heading chunker source x b) b entered)

  packing-Numbered :
      (blocks : List AtomicBlock) (x : Packing chunker source)
      → Numbered x
      → Numbered (foldl (pack_block chunker source) x blocks)
  packing-Numbered [] x h = h
  packing-Numbered (b ∷ blocks) x h = packing-Numbered blocks _ (pack_block-Numbered x b h)

  -- The parents of a document are numbered from 1 in their order, without a gap.
  pub pack-Numbered :
      (blocks : List AtomicBlock)
      → indexes (pack chunker source blocks) ≡ count_from 0 (length (pack chunker source blocks))
  unfolding pack
  pack-Numbered blocks =
      let last = foldl (pack_block chunker source) (start_packing chunker source) blocks in
      let h =
        flush-Numbered last
          (packing-Numbered blocks (start_packing chunker source) start_Numbered) in
      let counter = (flush_current_parent chunker source last).parent_counter in
      h.numbers
      ∙ ap (count_from 0) (
          omega (
            arith,
            length-count_from 0 counter,
            ap length h.numbers,
            length-map (λ (p : ParentChunk). p.parent_index)
                (flush_current_parent chunker source last).parent_chunks,
          ))
