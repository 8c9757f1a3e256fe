-- ===== src/Chunking/Lexer/Sizes.antt =====
-- The sizes of blocks against the tokens that the lexer estimates.
use native.Mathlib.Nat.{lt-div-mul-add, mul-le-mul_right}
use agentic_substrate.Prelude.{
  ℕ, ◌+◌, ◌*◌, ◌/◌, ◌≤◌, ◌<◌, max, ◌≡◌, refl, Bool, true, false, ◌&&◌, Option, none, some, List, [],
  ◌∷◌, ◌++◌, foldl, length, All, All-append, All-snoc, if◌then◌else◌, Bool-cases, inl, inr, arith,
}
use agentic_substrate.Text.{Text, is_nil, text_eq, reverse_onto, reverse, lstrip, strip}
use agentic_substrate.Text.Splits.{split_lines}
use agentic_substrate.Text.Lengths.{length-strip-le}
use agentic_substrate.Chunking.Blocks.{
  AtomicBlock, BlockType, paragraph, estimate_tokens, take, table, blockquote, list, is_table_row,
  is_quote, is_list_item, is_thematic_break, is_fence, heading_match,
}
use agentic_substrate.Chunking.Lexer.{
  AtomicBlockLexer, Lexing, same_type, block_of, flush_current, flush_lines, add_line, add_to,
  end_of, add_paragraph, lex_text, add_heading, add_thematic_break, lex_prose, lex_unheaded,
  open_fence, close_fence, lex_code, lex_open, lex_line, start_lexing, lex,
}

-- At least one token, and fewer code points than the next number of tokens stands for.
pub record Fits (chars_per_token : ℕ) (b : AtomicBlock) : Type 0 where
  pub some_token : 0 < b.estimated_tokens
  pub short : length b.content < b.estimated_tokens * chars_per_token + chars_per_token

estimate_tokens-positive : (cpt : ℕ) (s : Text) → is_nil s ≡ false → 0 < estimate_tokens cpt s
unfolding estimate_tokens is_nil
estimate_tokens-positive cpt [] h = cc
estimate_tokens-positive cpt (c ∷ s) h = omega arith

length-estimate_tokens :
    (cpt : ℕ) (s : Text) → 0 < cpt → length s < estimate_tokens cpt s * cpt + cpt
unfolding estimate_tokens
length-estimate_tokens cpt [] h = omega (arith, h)
length-estimate_tokens cpt (c ∷ s) h =
    let n = length (c ∷ s) in
    let more : n / cpt * cpt ≤ max 1 (n / cpt) * cpt = mul-le-mul_right cpt (omega arith) in
    omega (arith, lt-div-mul-add {a = n} h, more)

module _ (lexer : AtomicBlockLexer) (some_chars : 0 < lexer.chars_per_token) where
  record AllFit (x : Lexing) : Type 0 where
    fit : All (Fits lexer.chars_per_token) x.blocks

  block_of-Fits :
      (type : BlockType) (content : Text)
      → All (Fits lexer.chars_per_token) (block_of lexer type content)
  unfolding block_of is_nil
  block_of-Fits type [] = tt
  block_of-Fits type (c ∷ content) = (
    record {
      some_token = estimate_tokens-positive lexer.chars_per_token (c ∷ content) refl;
      short = length-estimate_tokens lexer.chars_per_token (c ∷ content) some_chars;
    },
    tt,
  )

  flush_lines-AllFit :
      (x : Lexing) (lines : List Text) → AllFit x → AllFit (flush_lines lexer x lines)
  flush_lines-AllFit x [] h = h
  flush_lines-AllFit x (line ∷ lines) h = record {
    fit = All-append (Fits lexer.chars_per_token) x.blocks _ h.fit (block_of-Fits x.current_type _);
  }

  flush-AllFit : (x : Lexing) → AllFit x → AllFit (flush_current lexer x)
  unfolding flush_current
  flush-AllFit x h = flush_lines-AllFit x x.current_lines h

  AllFit-if : (b : Bool) (y z : Lexing) → AllFit y → AllFit z → AllFit (if b then y else z)
  AllFit-if true y z h k = h
  AllFit-if false y z h k = k

  end_of-AllFit : (type : BlockType) (x : Lexing) → AllFit x → AllFit (end_of lexer type x)
  unfolding end_of
  end_of-AllFit type x h = AllFit-if (same_type x.current_type type) _ _ (flush-AllFit x h) h

  add_to-AllFit :
      (type : BlockType) (x : Lexing) (line : Text) → AllFit x → AllFit (add_to lexer type x line)
  unfolding add_to
  add_to-AllFit type x line h = record {
    fit =
        (AllFit-if (same_type x.current_type type) x _ h
          (record { fit = (flush-AllFit x h).fit })).fit;
  }

  add_paragraph-AllFit : (x : Lexing) (line : Text) → AllFit x → AllFit (add_paragraph lexer x line)
  unfolding add_paragraph
  add_paragraph-AllFit x line h = record {
    fit = (AllFit-if (same_type x.current_type paragraph) x _ h (flush-AllFit x h)).fit;
  }

  lex_text-AllFit :
      (x : Lexing) (line stripped : Text) → AllFit x → AllFit (lex_text lexer x line stripped)
  unfolding lex_text
  lex_text-AllFit x line stripped h =
      let no_table = end_of-AllFit table x h in
      let no_quote = end_of-AllFit blockquote (end_of lexer table x) no_table in
      let no_list = end_of-AllFit list (end_of lexer blockquote (end_of lexer table x)) no_quote in
      AllFit-if (is_table_row stripped) _ _ (add_to-AllFit table x line h) (
        AllFit-if (is_quote stripped) _ _ (add_to-AllFit blockquote _ line no_table) (
          AllFit-if (is_list_item lexer.is_decimal stripped) _ _
            (add_to-AllFit list _ line no_quote) (add_paragraph-AllFit _ line no_list)))

  own_block-AllFit :
      (x : Lexing) (line : Text) (b : AtomicBlock)
      → is_nil line ≡ false
      → b.content ≡ strip line
      → b.estimated_tokens ≡ estimate_tokens lexer.chars_per_token line
      → AllFit x
      → AllFit
          (record (flush_current lexer x) { blocks = (flush_current lexer x).blocks ++ b ∷ [] })
  own_block-AllFit x line b some_line content tokens h = record {
    fit =
        All-snoc (Fits lexer.chars_per_token) (flush_current lexer x).blocks b
          (flush-AllFit x h).fit
          (record {
            some_token = rw tokens (estimate_tokens-positive lexer.chars_per_token line some_line);
            short =
                rw (tokens, content)
                  (omega (
                    arith,
                    length-strip-le line,
                    length-estimate_tokens lexer.chars_per_token line some_chars,
                  ));
          });
  }

  lex_unheaded-AllFit :
      (x : Lexing) (line stripped : Text) (o : Option (ℕ × Text))
      → is_nil line ≡ false
      → AllFit x
      → AllFit (lex_unheaded lexer x line stripped o)
  unfolding add_heading add_thematic_break
  lex_unheaded-AllFit x line stripped (some (level, title)) some_line h =
      own_block-AllFit x line _ some_line refl refl h
  lex_unheaded-AllFit x line stripped none some_line h =
      AllFit-if (is_thematic_break stripped) (add_thematic_break lexer x line)
        (lex_text lexer x line stripped) (own_block-AllFit x line _ some_line refl refl h)
        (lex_text-AllFit x line stripped h)

  strip_nil : (line : Text) → is_nil (strip line) ≡ false → is_nil line ≡ false
  unfolding strip lstrip reverse reverse_onto is_nil
  strip_nil [] h = h
  strip_nil (c ∷ line) h = refl

  lex_prose-AllFit :
      (x : Lexing) (line : Text) → AllFit x → AllFit (lex_prose lexer x line (strip line))
  unfolding lex_prose
  lex_prose-AllFit x line h = elim (Bool-cases (is_nil (strip line))) [
    | inl e ↦ rw e (flush-AllFit x h)
    | inr e ↦
        rw e (
          lex_unheaded-AllFit x line (strip line) (heading_match (strip line)) (strip_nil line e) h)
  ]

  lex_line-AllFit : (x : Lexing) (line : Text) → AllFit x → AllFit (lex_line lexer x line)
  unfolding lex_line open_fence close_fence
  lex_line-AllFit x line h =
      AllFit-if x.in_code_block (lex_code lexer x line (strip line))
        (lex_open lexer x line (strip line))
        (AllFit-if (is_fence (strip line) && text_eq x.code_fence (take 3 (strip line)))
          (close_fence lexer x line) (add_line lexer x line)
          (record { fit = (flush-AllFit (add_line lexer x line) (record { fit = h.fit })).fit })
          (record { fit = h.fit }))
        (AllFit-if (is_fence (strip line)) (open_fence lexer x line (strip line))
          (lex_prose lexer x line (strip line)) (record { fit = (flush-AllFit x h).fit })
          (lex_prose-AllFit x line h))

  lines-AllFit :
      (lines : List Text) (x : Lexing) → AllFit x → AllFit (foldl (lex_line lexer) x lines)
  lines-AllFit [] x h = h
  lines-AllFit (line ∷ lines) x h =
      lines-AllFit lines (lex_line lexer x line) (lex_line-AllFit x line h)

  -- Every block is estimated at one token at least, and is shorter than its tokens and one more.
  pub lex-Fits : (markdown_text : Text) → All (Fits lexer.chars_per_token) (lex lexer markdown_text)
  unfolding lex
  lex-Fits markdown_text = elim (Bool-cases (is_nil (strip markdown_text))) [
    | inl e ↦ rw e tt
    | inr e ↦
        rw e
          (flush-AllFit (foldl (lex_line lexer) start_lexing (split_lines markdown_text))
            (lines-AllFit (split_lines markdown_text) start_lexing (record { fit = tt }))).fit
  ]
