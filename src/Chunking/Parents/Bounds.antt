-- ===== src/Chunking/Parents/Bounds.antt =====
-- How long a parent chunk is that was packed of whole blocks.
use native.Mathlib.Nat.{mul-le-mul_right, add-mul, le-mul_of_pos_right, mul_comm, mul-add}
use agentic_substrate.Prelude.{
  ℕ, ◌+◌, ◌*◌, ◌≤◌, ◌≡◌, refl, ◌∙◌, ap, sym, subst, false, ◌&&◌, Option, none, some, List, [], ◌∷◌,
  ◌++◌, map, foldl, length, length-append, ltb, ◌==◌, All, All-snoc, Bool-cases, inl, inr, arith,
}
use agentic_substrate.Text.{Text, join}
use agentic_substrate.Text.Lengths.{length-strip-le}
use agentic_substrate.Chunking.Blocks.{AtomicBlock, BlockType, heading}
use agentic_substrate.Chunking.Lexer.{newline}
use agentic_substrate.Chunking.Lexer.Sizes.{Fits}
use agentic_substrate.Chunking.Parents.{
  Chunker, Source, ParentChunk, split_large_block, Packing, start_packing, packed_parent,
  flush_blocks, flush_current_parent, enter_level, enter_heading, add_parts, add_large, hold,
  any_block, add_small, pack_block, pack,
}

-- What a token of a block may come to in a parent: its code points, and as many again with the
-- two newlines before the next block.
abbrev pub weight : ℕ → ℕ
weight chars_per_token = chars_per_token + (chars_per_token + 1)

Fits-weight :
    (cpt : ℕ) (b : AtomicBlock)
    → Fits cpt b
    → length b.content + 2 ≤ b.estimated_tokens * weight cpt
Fits-weight cpt b h = omega (
  arith,
  h.short,
  mul-add b.estimated_tokens cpt (cpt + 1),
  le-mul_of_pos_right (cpt + 1) h.some_token,
  mul_comm b.estimated_tokens (cpt + 1),
)

unfoldable pub total_tokens : List AtomicBlock → ℕ
total_tokens [] = 0
total_tokens (b ∷ blocks) = b.estimated_tokens + total_tokens blocks

total_tokens-snoc :
    (blocks : List AtomicBlock) (b : AtomicBlock)
    → total_tokens (blocks ++ b ∷ []) ≡ total_tokens blocks + b.estimated_tokens
unfolding total_tokens
total_tokens-snoc [] b = omega arith
total_tokens-snoc (c ∷ blocks) b = omega (arith, total_tokens-snoc blocks b)

-- Blocks joined by two newlines.
length-joined :
    (cpt : ℕ) (blocks : List AtomicBlock)
    → All (Fits cpt) blocks
    → length (join (newline ++ newline) (map (λ (b : AtomicBlock). b.content) blocks))
      ≤ total_tokens blocks * weight cpt
unfolding join total_tokens
length-joined cpt [] h = omega arith
length-joined cpt (b ∷ []) h =
    omega (arith, Fits-weight cpt b h.0, add-mul b.estimated_tokens 0 (weight cpt))
length-joined cpt (b ∷ c ∷ blocks) h = omega (
  arith,
  length-append (b.content ++ (newline ++ newline))
      (join (newline ++ newline) (map (λ (b : AtomicBlock). b.content) (c ∷ blocks))),
  length-append b.content (newline ++ newline),
  Fits-weight cpt b h.0,
  length-joined cpt (c ∷ blocks) h.1,
  add-mul b.estimated_tokens (total_tokens (c ∷ blocks)) (weight cpt),
)

-- The limit holds for a chunk that is no part of a block.
abbrev pub Limited : ℕ → Option (ℕ × ℕ) → Text → Type 0
Limited limit none content = length content ≤ limit
Limited limit (some part) content = Unit

no_tokens : total_tokens [] ≡ 0
unfolding total_tokens
no_tokens = refl

module _ (chunker : Chunker) (source : Source) where
  abbrev pub limit : ℕ
  limit = chunker.max_parent_tokens * weight chunker.chars_per_token

  abbrev pub IsLimited : ParentChunk → Type 0
  IsLimited p = Limited limit p.part p.content

  record Holds (x : Packing chunker source) : Type 0 where
    limited : All IsLimited x.parent_chunks
    fitting : All (Fits chunker.chars_per_token) x.current_blocks
    counted : x.current_tokens ≡ total_tokens x.current_blocks
    within : x.current_tokens ≤ chunker.max_parent_tokens

  packed_parent-IsLimited :
      (x : Packing chunker source) (blocks : List AtomicBlock)
      → All (Fits chunker.chars_per_token) blocks
      → total_tokens blocks ≤ chunker.max_parent_tokens
      → IsLimited (packed_parent chunker source x blocks)
  unfolding packed_parent
  packed_parent-IsLimited x blocks h w = omega (
    arith,
    length-strip-le (join (newline ++ newline) (map (λ (b : AtomicBlock). b.content) blocks)),
    length-joined chunker.chars_per_token blocks h,
    mul-le-mul_right (weight chunker.chars_per_token) w,
  )

  -- Flushing leaves no block and no token.
  record Flushed (x : Packing chunker source) : Type 0 where
    limited : All IsLimited x.parent_chunks
    no_block : x.current_blocks ≡ []
    no_token : x.current_tokens ≡ 0

  flush_blocks-Flushed :
      (x : Packing chunker source) (blocks : List AtomicBlock)
      → x.current_blocks ≡ blocks
      → Holds x
      → Flushed (flush_blocks chunker source x blocks)
  flush_blocks-Flushed x [] e h = record {
    limited = h.limited;
    no_block = e;
    no_token = h.counted ∙ ap total_tokens e ∙ no_tokens;
  }
  flush_blocks-Flushed x (b ∷ blocks) e h = record {
    limited = All-snoc IsLimited x.parent_chunks _ h.limited (
        packed_parent-IsLimited x (b ∷ blocks)
          (subst (All (Fits chunker.chars_per_token)) e h.fitting)
          (omega (arith, h.within, h.counted, ap total_tokens e)));
    no_block = refl;
    no_token = refl;
  }

  flush-Flushed :
      (x : Packing chunker source) → Holds x → Flushed (flush_current_parent chunker source x)
  unfolding flush_current_parent
  flush-Flushed x h = flush_blocks-Flushed x x.current_blocks refl h

  Flushed-Holds : (x : Packing chunker source) → Flushed x → Holds x
  Flushed-Holds x f = record {
    limited = f.limited;
    fitting = subst (All (Fits chunker.chars_per_token)) (sym f.no_block) tt;
    counted = f.no_token ∙ sym (ap total_tokens f.no_block ∙ no_tokens);
    within = omega (arith, f.no_token);
  }

  hold-Holds :
      (x : Packing chunker source) (b : AtomicBlock)
      → Fits chunker.chars_per_token b
      → x.current_tokens + b.estimated_tokens ≤ chunker.max_parent_tokens
      → Holds x
      → Holds (hold chunker source x b)
  hold-Holds x b f w h = record {
    limited = h.limited;
    fitting = All-snoc (Fits chunker.chars_per_token) x.current_blocks b h.fitting f;
    counted = omega (arith, h.counted, total_tokens-snoc x.current_blocks b);
    within = w;
  }

  -- With no block begun there is room for a block that is not too large.
  room :
      (x : Packing chunker source) (b : AtomicBlock) (blocks : List AtomicBlock)
      → x.current_blocks ≡ blocks
      → Holds x
      → b.estimated_tokens ≤ chunker.max_parent_tokens
      → (ltb chunker.max_parent_tokens (x.current_tokens + b.estimated_tokens)
          && any_block chunker source blocks)
        ≡ false
      → x.current_tokens + b.estimated_tokens ≤ chunker.max_parent_tokens
  room x b [] e h small full = omega (arith, h.counted, ap total_tokens e, no_tokens, small)
  room x b (c ∷ blocks) e h small full = ground arith

  add_small-Holds :
      (x : Packing chunker source) (b : AtomicBlock)
      → Fits chunker.chars_per_token b
      → b.estimated_tokens ≤ chunker.max_parent_tokens
      → Holds x
      → Holds (add_small chunker source x b)
  unfolding add_small
  add_small-Holds x b f small h =
      let flushed = flush-Flushed x h in
      elim (Bool-cases (
        ltb chunker.max_parent_tokens (x.current_tokens + b.estimated_tokens)
        && any_block chunker source x.current_blocks)) [
          | inl e ↦ rw e (
              hold-Holds (flush_current_parent chunker source x) b f
                (omega (arith, flushed.no_token, small))
                (Flushed-Holds (flush_current_parent chunker source x) flushed))
          | inr e ↦ rw e (hold-Holds x b f (room x b x.current_blocks refl h small e) h)
        ]

  add_parts-Flushed :
      (texts : List Text) (x : Packing chunker source) (index total : ℕ)
      → Flushed x
      → Flushed (add_parts chunker source x index total texts)
  unfolding add_parts
  add_parts-Flushed [] x index total f = f
  add_parts-Flushed (text ∷ texts) x index total f =
      add_parts-Flushed texts _ (index + 1) total (record {
        limited = All-snoc IsLimited x.parent_chunks _ f.limited tt;
        no_block = f.no_block;
        no_token = f.no_token;
      })

  add_large-Holds :
      (x : Packing chunker source) (b : AtomicBlock)
      → Holds x
      → Holds (add_large chunker source x b)
  unfolding add_large
  add_large-Holds x b h = Flushed-Holds _ (
      add_parts-Flushed (split_large_block chunker source b.content chunker.max_parent_tokens)
        (flush_current_parent chunker source x) 1 _ (flush-Flushed x h))

  enter_level-Holds :
      (x : Packing chunker source) (b : AtomicBlock) (level : Option ℕ)
      → Holds x
      → Holds (enter_level chunker source x b level)
  enter_level-Holds x b none h = h
  enter_level-Holds x b (some level) h = elim (Bool-cases (level == 0)) [
    | inl e ↦ rw e h
    | inr e ↦ rw e (record {
      limited = h.limited;
      fitting = h.fitting;
      counted = h.counted;
      within = h.within;
    })
  ]

  enter_heading-Holds :
      (x : Packing chunker source) (b : AtomicBlock)
      → Holds x
      → Holds (enter_heading chunker source x b)
  enter_heading-Holds x b h = at b.block_type refl
    where
      at : (type : BlockType) → b.block_type ≡ type → Holds (enter_heading chunker source x b)
      at heading e = unfold enter_heading in rw e (enter_level-Holds x b b.header_level h)
      at _ e = unfold enter_heading in rw e h

  pack_block-Holds :
      (x : Packing chunker source) (b : AtomicBlock)
      → Fits chunker.chars_per_token b
      → Holds x
      → Holds (pack_block chunker source x b)
  unfolding pack_block
  pack_block-Holds x b f h =
      let entered = enter_heading-Holds x b h in
      elim (Bool-cases (ltb chunker.max_parent_tokens b.estimated_tokens)) [
        | inl e ↦ rw e (add_large-Holds (enter_heading chunker source x b) b entered)
        | inr e ↦
            rw e (add_small-Holds (enter_heading chunker source x b) b f (ground arith) entered)
      ]

  packing-Holds :
      (blocks : List AtomicBlock) (x : Packing chunker source)
      → All (Fits chunker.chars_per_token) blocks
      → Holds x
      → Holds (foldl (pack_block chunker source) x blocks)
  packing-Holds [] x f h = h
  packing-Holds (b ∷ blocks) x f h =
      packing-Holds blocks (pack_block chunker source x b) f.1 (pack_block-Holds x b f.0 h)

  -- A parent that is packed of whole blocks, each as long as its tokens tell, has at most
  -- `2 * chars_per_token + 1` code points for each token of the limit for parents.
  pub pack-IsLimited :
      (blocks : List AtomicBlock)
      → All (Fits chunker.chars_per_token) blocks
      → All IsLimited (pack chunker source blocks)
  unfolding pack total_tokens
  pack-IsLimited blocks f =
      (flush-Flushed _ (
        packing-Holds blocks (start_packing chunker source) f
          (record { limited = tt; fitting = tt; counted = refl; within = omega arith }))).limited
