-- ===== src/Chunking/Lexer/Ink.antt =====
-- What the lexer keeps of a text.
use agentic_substrate.Prelude.{
  ℕ, ◌≡◌, refl, ◌∙◌, ap, sym, Bool, true, false, Option, none, some, List, [], ◌∷◌, ◌++◌,
  append_assoc, append-nil, foldl, if◌then◌else◌, Bool-cases, inl, inr, ◌&&◌,
}
use mathlib.Core.Bool.{true≢false}
use agentic_substrate.Text.{Text, is_nil, is_space, text_eq, strip, join}
use agentic_substrate.Text.Splits.{split_lines}
use agentic_substrate.Text.Ink.{ink, ink_all, ink_all-append, ink-strip, ink-join}
use agentic_substrate.Text.Ink.Pieces.{ink_all-split_lines}
use agentic_substrate.Chunking.Blocks.{
  AtomicBlock, BlockType, paragraph, table, blockquote, list, is_table_row, is_quote, is_list_item,
  code_block, take, is_thematic_break, is_fence, heading_match,
}
use agentic_substrate.Chunking.Lexer.{
  AtomicBlockLexer, Lexing, newline, same_type, block_of, flush_current, flush_lines, add_line,
  add_to, end_of, add_paragraph, lex_text, add_heading, add_thematic_break, lex_prose, lex_unheaded,
  open_fence, close_fence, lex_code, lex_open, lex_line, start_lexing, lex,
}

-- The ink of the contents of blocks, in order.
unfoldable pub ink_of : List AtomicBlock → Text
ink_of [] = []
ink_of (b ∷ blocks) = ink b.content ++ ink_of blocks

pub ink_of-append : (xs ys : List AtomicBlock) → ink_of (xs ++ ys) ≡ ink_of xs ++ ink_of ys
unfolding ink_of
ink_of-append [] ys = refl
ink_of-append (x ∷ xs) ys =
    ap (λ t. ink x.content ++ t) (ink_of-append xs ys)
    ∙ sym (append_assoc (ink x.content) (ink_of xs) (ink_of ys))

-- The ink of what has been read.
abbrev read : Lexing → Text
read x = ink_of x.blocks ++ ink_all x.current_lines

read-if :
    (b : Bool) (y z : Lexing) (t : Text) → read y ≡ t → read z ≡ t → read (if b then y else z) ≡ t
read-if true y z t h k = h
read-if false y z t h k = k

pub ink_all_one : (s : Text) → ink_all (s ∷ []) ≡ ink s
unfolding ink_all
ink_all_one s = append-nil (ink s)

is_nil-ink : (s : Text) → is_nil s ≡ true → ink s ≡ []
unfolding ink is_nil
is_nil-ink [] h = refl
is_nil-ink (c ∷ s) h = absurd (true≢false (sym h))

pub ink-newline : ink newline ≡ []
unfolding ink is_space
ink-newline = refl

module _ (lexer : AtomicBlockLexer) where
  ink_of-block_of :
      (type : BlockType) (content : Text) → ink_of (block_of lexer type content) ≡ ink content
  unfolding ink_of block_of
  ink_of-block_of type [] = unfold ink in refl
  ink_of-block_of type (c ∷ content) = append-nil (ink (c ∷ content))

  -- Flushing moves the lines to a block, and leaves none.
  ink-flush_lines :
      (x : Lexing) (lines : List Text)
      → ink_of (flush_lines lexer x lines).blocks ≡ ink_of x.blocks ++ ink_all lines
  unfolding ink_all
  ink-flush_lines x [] = sym (append-nil (ink_of x.blocks))
  ink-flush_lines x (line ∷ lines) =
      ink_of-append x.blocks _
      ∙ ap (λ t. ink_of x.blocks ++ t)
          (ink_of-block_of x.current_type (strip (join newline (line ∷ lines)))
            ∙ ink-strip (join newline (line ∷ lines))
            ∙ ink-join newline (line ∷ lines) ink-newline)

  flush_lines-nil :
      (x : Lexing) (lines : List Text)
      → x.current_lines ≡ lines
      → (flush_lines lexer x lines).current_lines ≡ []
  flush_lines-nil x [] e = e
  flush_lines-nil x (line ∷ lines) e = refl

  flushed_ink : (x : Lexing) → ink_of (flush_current lexer x).blocks ≡ read x
  unfolding flush_current
  flushed_ink x = ink-flush_lines x x.current_lines

  flushed_lines : (x : Lexing) → (flush_current lexer x).current_lines ≡ []
  unfolding flush_current
  flushed_lines x = flush_lines-nil x x.current_lines refl

  read-flush : (x : Lexing) → read (flush_current lexer x) ≡ read x
  unfolding ink_all
  read-flush x =
      ap (λ ls. ink_of (flush_current lexer x).blocks ++ ink_all ls) (flushed_lines x)
      ∙ append-nil (ink_of (flush_current lexer x).blocks)
      ∙ flushed_ink x

  read-add_line : (x : Lexing) (line : Text) → read (add_line lexer x line) ≡ read x ++ ink line
  read-add_line x line =
      ap (λ t. ink_of x.blocks ++ t)
        (ink_all-append x.current_lines (line ∷ [])
          ∙ ap (λ t. ink_all x.current_lines ++ t) (ink_all_one line))
      ∙ sym (append_assoc (ink_of x.blocks) (ink_all x.current_lines) (ink line))

  -- A step reads its line, whatever it does besides to the type and the fence.
  abbrev Reads : (Lexing → Lexing) → Text → Type 0
  Reads f line = (x : Lexing) → read (f x) ≡ read x ++ ink line

  read-end_of : (type : BlockType) (x : Lexing) → read (end_of lexer type x) ≡ read x
  unfolding end_of
  read-end_of type x = elim (Bool-cases (same_type x.current_type type)) [
    | inl e ↦ rw e (read-flush x)
    | inr e ↦ rw e refl
  ]

  read-add_to : (type : BlockType) (line : Text) → Reads (λ x. add_to lexer type x line) line
  unfolding add_to
  read-add_to type line x = elim (Bool-cases (same_type x.current_type type)) [
    | inl e ↦ rw e (read-add_line x line)
    | inr e ↦ rw e (
        read-add_line (record (flush_current lexer x) { current_type = type }) line
        ∙ ap (λ t. t ++ ink line) (read-flush x))
  ]

  read-add_paragraph : (line : Text) → Reads (λ x. add_paragraph lexer x line) line
  unfolding add_paragraph
  read-add_paragraph line x = elim (Bool-cases (same_type x.current_type paragraph)) [
    | inl e ↦ rw e (read-add_line x line)
    | inr e ↦
        rw e (read-add_line (flush_current lexer x) line ∙ ap (λ t. t ++ ink line) (read-flush x))
  ]

  -- A block made of the line itself, after a flush.
  read-own_block :
      (x : Lexing) (line : Text) (b : AtomicBlock)
      → b.content ≡ strip line
      → read (record (flush_current lexer x) { blocks = (flush_current lexer x).blocks ++ b ∷ [] })
        ≡ read x ++ ink line
  unfolding ink_all ink_of
  read-own_block x line b e =
      ap (λ ls. ink_of ((flush_current lexer x).blocks ++ b ∷ []) ++ ink_all ls) (flushed_lines x)
      ∙ append-nil (ink_of ((flush_current lexer x).blocks ++ b ∷ []))
      ∙ ink_of-append (flush_current lexer x).blocks (b ∷ [])
      ∙ ap (λ t. t ++ (ink b.content ++ [])) (flushed_ink x)
      ∙ ap (λ t. read x ++ t) (append-nil (ink b.content) ∙ ap ink e ∙ ink-strip line)

  read-add_heading : (line : Text) (h : ℕ × Text) → Reads (λ x. add_heading lexer x line h) line
  unfolding add_heading
  read-add_heading line (level, title) x = read-own_block x line _ refl

  read-add_thematic_break : (line : Text) → Reads (λ x. add_thematic_break lexer x line) line
  unfolding add_thematic_break
  read-add_thematic_break line x = read-own_block x line _ refl

  read-lex_text : (line stripped : Text) → Reads (λ x. lex_text lexer x line stripped) line
  unfolding lex_text
  read-lex_text line stripped x = elim (Bool-cases (is_table_row stripped)) [
    | inl e ↦ rw e (read-add_to table line x)
    | inr e ↦ elim (Bool-cases (is_quote stripped)) [
      | inl e' ↦
          rw (e, e')
            (read-add_to blockquote line (end_of lexer table x)
              ∙ ap (λ t. t ++ ink line) (read-end_of table x))
      | inr e' ↦ elim (Bool-cases (is_list_item lexer.is_decimal stripped)) [
        | inl e'' ↦
            rw (e, e', e'')
              (read-add_to list line (end_of lexer blockquote (end_of lexer table x))
                ∙ ap (λ t. t ++ ink line)
                    (read-end_of blockquote (end_of lexer table x) ∙ read-end_of table x))
        | inr e'' ↦
            rw (e, e', e'')
              (read-add_paragraph line
                  (end_of lexer list (end_of lexer blockquote (end_of lexer table x)))
                ∙ ap (λ t. t ++ ink line)
                    (read-end_of list (end_of lexer blockquote (end_of lexer table x))
                      ∙ read-end_of blockquote (end_of lexer table x)
                      ∙ read-end_of table x))
      ]
    ]
  ]

  read-lex_unheaded :
      (line stripped : Text) (o : Option (ℕ × Text))
      → Reads (λ x. lex_unheaded lexer x line stripped o) line
  read-lex_unheaded line stripped (some h) x = read-add_heading line h x
  read-lex_unheaded line stripped none x = elim (Bool-cases (is_thematic_break stripped)) [
    | inl e ↦ rw e (read-add_thematic_break line x)
    | inr e ↦ rw e (read-lex_text line stripped x)
  ]

  -- A text of which nothing is left when it is stripped has no ink.
  pub blank_ink : (s : Text) → is_nil (strip s) ≡ true → ink s ≡ []
  blank_ink s h = sym (ink-strip s) ∙ is_nil-ink (strip s) h

  read-lex_prose : (line : Text) → Reads (λ x. lex_prose lexer x line (strip line)) line
  unfolding lex_prose
  read-lex_prose line x = elim (Bool-cases (is_nil (strip line))) [
    | inl e ↦
        rw e (
          read-flush x ∙ sym (append-nil (read x)) ∙ ap (λ t. read x ++ t) (sym (blank_ink line e)))
    | inr e ↦ rw e (read-lex_unheaded line (strip line) (heading_match (strip line)) x)
  ]

  read-open_fence : (line stripped : Text) → Reads (λ x. open_fence lexer x line stripped) line
  unfolding open_fence
  read-open_fence line stripped x =
      read-add_line
        (record (flush_current lexer x) {
          current_type = code_block;
          in_code_block = true;
          code_fence = take 3 stripped;
        })
        line
      ∙ ap (λ t. t ++ ink line) (read-flush x)

  read-close_fence : (line : Text) → Reads (λ x. close_fence lexer x line) line
  unfolding close_fence
  read-close_fence line x = read-flush (add_line lexer x line) ∙ read-add_line x line

  read-lex_line : (line : Text) → Reads (λ x. lex_line lexer x line) line
  unfolding lex_line
  read-lex_line line x =
      read-if x.in_code_block (lex_code lexer x line (strip line))
        (lex_open lexer x line (strip line)) _
        (read-if (is_fence (strip line) && text_eq x.code_fence (take 3 (strip line))) _ _ _
          (read-close_fence line x) (read-add_line x line))
        (read-if (is_fence (strip line)) _ _ _ (read-open_fence line (strip line) x)
          (read-lex_prose line x))

  read-lines :
      (lines : List Text) (x : Lexing)
      → read (foldl (lex_line lexer) x lines) ≡ read x ++ ink_all lines
  unfolding ink_all
  read-lines [] x = sym (append-nil (read x))
  read-lines (line ∷ lines) x =
      read-lines lines (lex_line lexer x line)
      ∙ ap (λ t. t ++ ink_all lines) (read-lex_line line x)
      ∙ append_assoc (read x) (ink line) (ink_all lines)

  -- The blocks of a text have all its ink, in its order: outside of white space, lexing drops,
  -- repeats and moves nothing.
  pub lex-ink : (markdown_text : Text) → ink_of (lex lexer markdown_text) ≡ ink markdown_text
  unfolding lex ink_of ink_all
  lex-ink markdown_text = elim (Bool-cases (is_nil (strip markdown_text))) [
    | inl e ↦ rw e (sym (blank_ink markdown_text e))
    | inr e ↦ rw e (
        flushed_ink (foldl (lex_line lexer) start_lexing (split_lines markdown_text))
        ∙ read-lines (split_lines markdown_text) start_lexing
        ∙ ink_all-split_lines markdown_text)
  ]
