-- ===== src/Chunking/Parents/Ink/Gather.antt =====
-- What the parts of a large block keep of its text.
use agentic_substrate.Prelude.{
  ℕ, ◌+◌, ◌*◌, ◌≡◌, refl, ◌∙◌, ap, Bool, true, false, List, [], ◌∷◌, ◌++◌, append_assoc, append-nil,
  length, leb, if◌then◌else◌, Bool-cases, inl, inr, arith,
}
use agentic_substrate.Text.{Text, is_space, strip, join}
use agentic_substrate.Text.Splits.{split_lines, split_words, split_sentences}
use agentic_substrate.Text.Ink.{ink, ink_all, ink_all-append, ink-strip, ink-join}
use agentic_substrate.Text.Ink.Pieces.{
  ink_all-split_lines, ink_all-split_words, ink_all-split_sentences,
}
use agentic_substrate.Chunking.Lexer.{newline}
use agentic_substrate.Chunking.Lexer.Ink.{ink_all_one, ink-newline}
use agentic_substrate.Chunking.Parents.{
  Chunker, Source, is_sentence_end, blank, gather, several, split_large_block,
}

pub ink-blank : ink blank ≡ []
unfolding ink is_space
ink-blank = refl

module _ (sep : Text) (extra max_chars : ℕ) (white : ink sep ≡ []) where
  module _ (c : Text) (cur : List Text) (n : ℕ) (piece : Text) (pieces : List Text) where
    pub gather_add :
        leb (n + (length piece + extra)) max_chars ≡ true
        → gather sep extra max_chars (c ∷ cur) n (piece ∷ pieces)
          ≡ gather sep extra max_chars ((c ∷ cur) ++ piece ∷ []) (n + (length piece + extra)) pieces
    unfolding gather
    gather_add h = ground arith

    pub gather_close :
        leb (n + (length piece + extra)) max_chars ≡ false
        → gather sep extra max_chars (c ∷ cur) n (piece ∷ pieces)
          ≡ strip (join sep (c ∷ cur))
            ∷ gather sep extra max_chars (piece ∷ []) (length piece + extra) pieces
    unfolding gather
    gather_close h = ground arith

  pub gather_first :
      (n : ℕ) (piece : Text) (pieces : List Text)
      → gather sep extra max_chars [] n (piece ∷ pieces)
        ≡ gather sep extra max_chars (piece ∷ []) (n + (length piece + extra)) pieces
  unfolding gather
  gather_first n piece pieces = refl

  ink_part : (cur : List Text) → ink (strip (join sep cur)) ≡ ink_all cur
  ink_part cur = ink-strip (join sep cur) ∙ ink-join sep cur white

  ink_all-gather :
      (cur : List Text) (n : ℕ) (pieces : List Text)
      → ink_all (gather sep extra max_chars cur n pieces) ≡ ink_all cur ++ ink_all pieces
  unfolding ink_all
  ink_all-gather [] n [] = unfold gather in refl
  ink_all-gather (c ∷ cur) n [] = unfold gather in ap (λ t. t ++ []) (ink_part (c ∷ cur))
  ink_all-gather [] n (piece ∷ pieces) =
      ap ink_all (gather_first n piece pieces)
      ∙ ink_all-gather (piece ∷ []) (n + (length piece + extra)) pieces
      ∙ ap (λ t. t ++ ink_all pieces) (append-nil (ink piece))
  ink_all-gather (c ∷ cur) n (piece ∷ pieces) =
      elim (Bool-cases (leb (n + (length piece + extra)) max_chars)) [
        | inl e ↦
            ap ink_all (gather_add c cur n piece pieces e)
            ∙ ink_all-gather ((c ∷ cur) ++ piece ∷ []) (n + (length piece + extra)) pieces
            ∙ ap (λ t. t ++ ink_all pieces)
                (ink_all-append (c ∷ cur) (piece ∷ [])
                  ∙ ap (λ t. ink_all (c ∷ cur) ++ t) (append-nil (ink piece)))
            ∙ append_assoc (ink_all (c ∷ cur)) (ink piece) (ink_all pieces)
        | inr e ↦
            ap ink_all (gather_close c cur n piece pieces e)
            ∙ ap
                (λ t.
                  t
                  ++ ink_all
                      (gather sep extra max_chars (piece ∷ []) (length piece + extra) pieces))
                (ink_part (c ∷ cur))
            ∙ ap (λ t. ink_all (c ∷ cur) ++ t)
                (ink_all-gather (piece ∷ []) (length piece + extra) pieces
                  ∙ ap (λ t. t ++ ink_all pieces) (append-nil (ink piece)))
      ]

ink_all-if :
    (b : Bool) (xs ys : List Text) (t : Text)
    → ink_all xs ≡ t
    → ink_all ys ≡ t
    → ink_all (if b then xs else ys) ≡ t
ink_all-if true xs ys t h k = h
ink_all-if false xs ys t h k = k

gathered_ink :
    (sep : Text) (extra max_chars : ℕ) (pieces : List Text)
    → ink sep ≡ []
    → ink_all (gather sep extra max_chars [] 0 pieces) ≡ ink_all pieces
unfolding ink_all
gathered_ink sep extra max_chars pieces white = ink_all-gather sep extra max_chars white [] 0 pieces

module _ (chunker : Chunker) (source : Source) where
  -- Splitting a block keeps its ink.
  pub ink_all-split_large_block :
      (text : Text) (max_tokens : ℕ)
      → ink_all (split_large_block chunker source text max_tokens) ≡ ink text
  unfolding split_large_block
  ink_all-split_large_block text max_tokens =
      let max_chars = max_tokens * chunker.chars_per_token in
      ink_all-if (leb (length text) max_chars) _ _ _ (ink_all_one text) (
        ink_all-if (several (split_sentences is_sentence_end text)) _ _ _
          (gathered_ink blank 0 max_chars (split_sentences is_sentence_end text) ink-blank
            ∙ ink_all-split_sentences is_sentence_end text)
          (ink_all-if (several (split_lines text)) _ _ _
            (gathered_ink newline 0 max_chars (split_lines text) ink-newline
              ∙ ink_all-split_lines text)
            (gathered_ink blank 1 max_chars (split_words text) ink-blank
              ∙ ink_all-split_words text)))
