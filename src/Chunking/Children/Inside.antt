-- ===== src/Chunking/Children/Inside.antt =====
-- The child texts of a parent are runs of its sentences.
use agentic_substrate.Prelude.{
  ℕ, ◌+◌, ◌*◌, ◌≡◌, refl, ◌∙◌, ap, sym, subst, Bool, true, false, Option, none, some, List, [], ◌∷◌,
  ◌++◌, append_assoc, append-nil, length, leb, if◌then◌else◌, Bool-cases, inl, inr, All,
}
use agentic_substrate.Text.{Text, join}
use agentic_substrate.Text.Splits.{split_sentences}
use agentic_substrate.Text.Ink.{ink, ink_all, ink_all-append, ink-strip, ink-join}
use agentic_substrate.Text.Ink.Pieces.{ink_all-split_sentences}
use agentic_substrate.Chunking.Parents.{Chunker, blank}
use agentic_substrate.Chunking.Parents.Ink.Gather.{ink-blank}
use agentic_substrate.Chunking.Children.{
  is_child_end, overlap_onto, reversed, overlap, total_length, differs, overlapping,
  create_child_chunks_from_parent,
}
use agentic_substrate.Chunking.Children.Overlaps.{
  InkIn, closing, next_current, overlapping_add, overlapping_close, overlapping_first,
}

InkIn-self : (t : Text) → InkIn t t
InkIn-self t = record { before = []; after = []; around = sym (append-nil (ink t)) }

-- A run of the pieces of a text.
piece-InkIn :
    (t : Text) (pre texts post : List Text)
    → ink t ≡ ink_all (pre ++ (texts ++ post))
    → InkIn (closing texts) t
piece-InkIn t pre texts post e = record {
  before = ink_all pre;
  after = ink_all post;
  around =
      e
      ∙ ink_all-append pre (texts ++ post)
      ∙ ap (λ u. ink_all pre ++ u) (ink_all-append texts post)
      ∙ sym (append_assoc (ink_all pre) (ink_all texts) (ink_all post))
      ∙ ap (λ u. (ink_all pre ++ u) ++ ink_all post)
          (sym (ink-strip (join blank texts) ∙ ink-join blank texts ink-blank));
}

reversed-append : (acc texts : List Text) → reversed acc texts ≡ reversed [] texts ++ acc
unfolding reversed
reversed-append acc [] = refl
reversed-append acc (s ∷ texts) =
    reversed-append (s ∷ acc) texts
    ∙ sym (
        ap (λ u. u ++ acc) (reversed-append (s ∷ []) texts)
        ∙ append_assoc (reversed [] texts) (s ∷ []) acc)

reversed-reversed :
    (acc texts : List Text) → reversed [] (reversed acc texts) ≡ reversed [] acc ++ texts
unfolding reversed
reversed-reversed acc [] = sym (append-nil (reversed [] acc))
reversed-reversed acc (s ∷ texts) =
    reversed-reversed (s ∷ acc) texts
    ∙ ap (λ u. u ++ texts) (reversed-append (s ∷ []) acc)
    ∙ append_assoc (reversed [] acc) (s ∷ []) texts

overlap_onto-suffix :
    (overlap_chars accum : ℕ) (acc prevs : List Text)
    → (pre : List Text) × (reversed acc prevs ≡ pre ++ overlap_onto overlap_chars accum acc prevs)
unfolding reversed overlap_onto
overlap_onto-suffix overlap_chars accum acc [] = ([], refl)
overlap_onto-suffix overlap_chars accum acc (prev ∷ prevs) =
    elim (Bool-cases (leb (accum + length prev) overlap_chars)) [
      | inl e ↦
          rw (overlap_onto, e)
            (overlap_onto-suffix overlap_chars (accum + length prev) (prev ∷ acc) prevs)
      | inr e ↦
          rw (overlap_onto, e) (reversed [] (prev ∷ prevs), reversed-append acc (prev ∷ prevs))
    ]

-- The overlap is the end of what it overlaps.
overlap-suffix :
    (overlap_chars : ℕ) (current : List Text)
    → (pre : List Text) × (current ≡ pre ++ overlap overlap_chars current)
unfolding overlap reversed
overlap-suffix overlap_chars current =
    let (pre, e) = overlap_onto-suffix overlap_chars 0 [] (reversed [] current) in
    (pre, sym (reversed-reversed [] current) ∙ e)

regroup :
    (pre dropped kept : List Text) (s : Text) (texts : List Text)
    → pre ++ ((dropped ++ kept) ++ s ∷ texts) ≡ (pre ++ dropped) ++ ((kept ++ s ∷ []) ++ texts)
regroup pre dropped kept s texts =
    ap (λ u. pre ++ u) (append_assoc dropped kept (s ∷ texts))
    ∙ ap (λ u. pre ++ (dropped ++ u)) (sym (append_assoc kept (s ∷ []) texts))
    ∙ sym (append_assoc pre dropped ((kept ++ s ∷ []) ++ texts))

All-if :
    (P : Text → Type 0) (b : Bool) (xs ys : List Text)
    → All P xs
    → All P ys
    → All P (if b then xs else ys)
All-if P true xs ys h k = h
All-if P false xs ys h k = k

module _ (t : Text) (child_chars overlap_chars : ℕ) where
  -- `pre` are the sentences before the current ones.
  overlapping-Inside :
      (last : Option Text) (pre current : List Text) (len : ℕ) (sentences : List Text)
      → ink t ≡ ink_all (pre ++ (current ++ sentences))
      → All (λ s. InkIn s t) (overlapping child_chars overlap_chars last current len sentences)
  overlapping-Inside last pre [] len [] e = unfold overlapping in tt
  overlapping-Inside last pre (c ∷ current) len [] e =
      unfold overlapping in
      All-if (λ s. InkIn s t) (differs last (closing (c ∷ current))) (closing (c ∷ current) ∷ []) []
        (piece-InkIn t pre (c ∷ current) [] e, tt) tt
  overlapping-Inside last pre [] len (s ∷ sentences) e =
      subst (All (λ s. InkIn s t))
        (sym (overlapping_first child_chars overlap_chars last len s sentences))
        (overlapping-Inside last pre (s ∷ []) (len + length s) sentences e)
  overlapping-Inside last pre (c ∷ current) len (s ∷ sentences) e =
      elim (Bool-cases (leb (len + length s) child_chars)) [
        | inl fits ↦
            subst (All (λ s. InkIn s t))
              (sym (overlapping_add child_chars overlap_chars last c current len s sentences fits))
              (overlapping-Inside last pre ((c ∷ current) ++ s ∷ []) (len + length s) sentences (
                e
                ∙ ap (λ u. ink_all (pre ++ u))
                    (sym (append_assoc (c ∷ current) (s ∷ []) sentences))))
        | inr full ↦
            let (dropped, split) = overlap-suffix overlap_chars (c ∷ current) in
            let next = next_current child_chars overlap_chars (c ∷ current) s in
            subst (All (λ s. InkIn s t))
              (sym
                (overlapping_close child_chars overlap_chars last c current len s sentences full))
              (
                piece-InkIn t pre (c ∷ current) (s ∷ sentences) e,
                overlapping-Inside (some (closing (c ∷ current))) (pre ++ dropped) next
                    (total_length next + length next) sentences
                    (e
                      ∙ ap (λ u. ink_all (pre ++ (u ++ s ∷ sentences))) split
                      ∙ ap ink_all
                          (regroup pre dropped (overlap overlap_chars (c ∷ current)) s sentences)),
              )
      ]

module _ (chunker : Chunker) where
  -- Each child text of a parent stands in it, in one piece up to white space.
  pub create_child_chunks-Inside :
      (parent_content : Text) (child_tokens overlap_tokens : ℕ)
      → All
          (λ s. InkIn s parent_content)
          (create_child_chunks_from_parent chunker parent_content child_tokens overlap_tokens)
  unfolding create_child_chunks_from_parent
  create_child_chunks-Inside parent_content child_tokens overlap_tokens =
      let child_chars = child_tokens * chunker.chars_per_token in
      let overlap_chars = overlap_tokens * chunker.chars_per_token in
      let sentences = split_sentences is_child_end parent_content in
      All-if (λ s. InkIn s parent_content) (leb (length parent_content) child_chars)
        (parent_content ∷ []) (overlapping child_chars overlap_chars none [] 0 sentences)
        (InkIn-self parent_content, tt)
        (overlapping-Inside parent_content child_chars overlap_chars none [] [] 0 sentences
          (sym (ink_all-split_sentences is_child_end parent_content)))
