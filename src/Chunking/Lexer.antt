-- ===== src/Chunking/Lexer.antt =====
-- atomic_block_lexer.py: `lex` and its local function `flush_current`.
pub mod Ink
pub mod Sizes
use agentic_substrate.Prelude.{
  ℕ, ◌+◌, max, Bool, true, false, ◌&&◌, ◌||◌, not, Option, none, some, List, [], ◌∷◌, ◌++◌, foldl,
  if◌then◌else◌,
}
use agentic_substrate.Text.{Text, is_nil, text_eq, strip, join}
use agentic_substrate.Text.Splits.{split_lines}
use agentic_substrate.Chunking.Blocks.{
  BlockType, heading, paragraph, code_block, table, list, blockquote, thematic_break, AtomicBlock,
  estimate_tokens, heading_match, is_thematic_break, is_table_row, is_quote, is_list_item, is_fence,
  take,
}

-- `is_decimal` tells the code points of the class `\d`.
pub record AtomicBlockLexer : Type 0 where
  pub chars_per_token : ℕ
  pub is_decimal : ℕ → Bool

unfoldable pub new_lexer : ℕ → (ℕ → Bool) → AtomicBlockLexer
new_lexer chars_per_token is_decimal = record {
  chars_per_token = max 1 chars_per_token;
  is_decimal = is_decimal;
}

-- The local variables of `lex`.
pub record Lexing : Type 0 where
  pub blocks : List AtomicBlock
  pub current_lines : List Text
  pub current_type : BlockType
  pub in_code_block : Bool
  pub code_fence : Text

abbrev pub plain_block : ℕ → BlockType → Text → AtomicBlock
plain_block tokens type content = record {
  content = content;
  block_type = type;
  estimated_tokens = tokens;
  header_level = none;
  header_title = none;
}

abbrev pub newline : Text
newline = b'\n' ∷ []

abbrev pub same_type : BlockType → BlockType → Bool
same_type paragraph paragraph = true
same_type table table = true
same_type blockquote blockquote = true
same_type list list = true
same_type _ _ = false

abbrev pub start_lexing : Lexing
start_lexing = record {
  blocks = [];
  current_lines = [];
  current_type = paragraph;
  in_code_block = false;
  code_fence = [];
}

module _ (lexer : AtomicBlockLexer) where
  -- A content that is empty makes no block.
  unfoldable pub block_of : BlockType → Text → List AtomicBlock
  unfolding estimate_tokens
  block_of type [] = []
  block_of type (c ∷ content) =
      plain_block (estimate_tokens lexer.chars_per_token (c ∷ content)) type (c ∷ content) ∷ []

  abbrev flush_lines : Lexing → List Text → Lexing
  flush_lines x [] = x
  flush_lines x (line ∷ lines) = record x {
    blocks = x.blocks ++ block_of x.current_type (strip (join newline (line ∷ lines)));
    current_lines = [];
    current_type = paragraph;
  }

  unfoldable pub flush_current : Lexing → Lexing
  unfolding block_of strip join
  flush_current x = flush_lines x x.current_lines

  abbrev pub add_line : Lexing → Text → Lexing
  add_line x line = record x { current_lines = x.current_lines ++ line ∷ [] }

  -- A line of a table, a quotation or a list: it goes on with a block of its type or begins one.
  unfoldable pub add_to : BlockType → Lexing → Text → Lexing
  unfolding flush_current
  add_to type x line =
      let flushed = flush_current x in
      add_line (if same_type x.current_type type then x else record flushed { current_type = type })
        line

  -- A block of the given type ends before a line of another.
  unfoldable pub end_of : BlockType → Lexing → Lexing
  unfolding flush_current
  end_of type x =
      let flushed = flush_current x in if same_type x.current_type type then flushed else x

  unfoldable pub add_paragraph : Lexing → Text → Lexing
  unfolding flush_current
  add_paragraph x line =
      let flushed = flush_current x in
      add_line (if same_type x.current_type paragraph then x else flushed) line

  -- From the test for a table on.
  unfoldable pub lex_text : Lexing → Text → Text → Lexing
  unfolding add_to end_of add_paragraph is_table_row is_quote is_list_item
  lex_text x line stripped =
      let no_table = end_of table x in
      let no_quote = end_of blockquote no_table in
      if is_table_row stripped
      then add_to table x line
      else if is_quote stripped
      then add_to blockquote no_table line
      else if is_list_item lexer.is_decimal stripped
      then add_to list no_quote line
      else add_paragraph (end_of list no_quote) line

  -- A heading or a thematic break; its tokens are those of the whole line.
  unfoldable pub add_heading : Lexing → Text → ℕ × Text → Lexing
  unfolding flush_current estimate_tokens strip
  add_heading x line (level, title) =
      let flushed = flush_current x in
      record flushed {
        blocks =
            flushed.blocks
            ++ record {
              content = strip line;
              block_type = heading;
              estimated_tokens = estimate_tokens lexer.chars_per_token line;
              header_level = some level;
              header_title = some title;
            }
              ∷ [];
      }

  unfoldable pub add_thematic_break : Lexing → Text → Lexing
  unfolding flush_current estimate_tokens strip
  add_thematic_break x line =
      let flushed = flush_current x in
      record flushed {
        blocks =
            flushed.blocks
            ++ plain_block (estimate_tokens lexer.chars_per_token line) thematic_break (strip line)
              ∷ [];
      }

  abbrev lex_unheaded : Lexing → Text → Text → Option (ℕ × Text) → Lexing
  lex_unheaded x line stripped (some h) = add_heading x line h
  lex_unheaded x line stripped none =
      if is_thematic_break stripped then add_thematic_break x line else lex_text x line stripped

  -- A line outside of code.
  unfoldable pub lex_prose : Lexing → Text → Text → Lexing
  unfolding flush_current add_heading add_thematic_break lex_text heading_match is_thematic_break
  lex_prose x line stripped =
      if is_nil stripped
      then flush_current x
      else lex_unheaded x line stripped (heading_match stripped)

  unfoldable pub open_fence : Lexing → Text → Text → Lexing
  unfolding flush_current
  open_fence x line stripped =
      add_line
        (record (flush_current x) {
          current_type = code_block;
          in_code_block = true;
          code_fence = take 3 stripped;
        })
        line

  unfoldable pub close_fence : Lexing → Text → Lexing
  unfolding flush_current
  close_fence x line = record (flush_current (add_line x line)) {
    in_code_block = false;
    code_fence = [];
  }

  abbrev lex_code : Lexing → Text → Text → Lexing
  lex_code x line stripped =
      if is_fence stripped && text_eq x.code_fence (take 3 stripped)
      then close_fence x line
      else add_line x line

  abbrev lex_open : Lexing → Text → Text → Lexing
  lex_open x line stripped =
      if is_fence stripped then open_fence x line stripped else lex_prose x line stripped

  -- One round of the loop.
  unfoldable pub lex_line : Lexing → Text → Lexing
  unfolding is_fence text_eq take open_fence close_fence lex_prose strip
  lex_line x line =
      if x.in_code_block then lex_code x line (strip line) else lex_open x line (strip line)

  unfoldable pub lex : Text → List AtomicBlock
  unfolding split_lines lex_line flush_current strip
  lex markdown_text =
      if is_nil (strip markdown_text)
      then []
      else (flush_current (foldl lex_line start_lexing (split_lines markdown_text))).blocks
