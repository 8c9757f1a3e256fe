-- ===== src/Text/Splits.antt =====
-- The ways in which the program takes a text apart: `str.splitlines`, `str.split` at white space,
-- and `re.split` behind the end of a sentence; and the decimal text of a number.
use agentic_substrate.Prelude.{
  ℕ, zero, suc, ◌+◌, ◌/◌, ◌%◌, Bool, true, false, ◌&&◌, ◌||◌, List, [], ◌∷◌, leb, ltb, ◌==◌,
  if◌then◌else◌,
}
use agentic_substrate.Text.{Text, is_space, reverse}

-- The code points at which `str.splitlines` ends a line.
unfoldable pub is_line_break : ℕ → Bool
is_line_break c = leb 10 c && leb c 13 || leb 28 c && leb c 30 || c == 133 || c == 8232 || c == 8233

abbrev pub unless_nil : Text → List Text → List Text
unless_nil [] rest = rest
unless_nil (c ∷ cur) rest = reverse (c ∷ cur) ∷ rest

-- `cur` is the line begun, reversed; `after_cr` tells that the last code point was a carriage
-- return, which ends one line together with a line feed.
unfoldable pub lines_onto : Bool → Text → Text → List Text
unfolding is_line_break reverse
lines_onto after_cr cur [] = unless_nil cur []
lines_onto after_cr cur (c ∷ s) = elim (after_cr && c == 10) [
  | true ↦ lines_onto false cur s
  | false ↦ elim (is_line_break c) [
    | true ↦ reverse cur ∷ lines_onto (c == 13) [] s
    | false ↦ lines_onto false (c ∷ cur) s
  ]
]

-- `s.splitlines()`
unfoldable pub split_lines : Text → List Text
unfolding lines_onto
split_lines s = lines_onto false [] s

unfoldable pub words_onto : Text → Text → List Text
unfolding is_space reverse
words_onto cur [] = unless_nil cur []
words_onto cur (c ∷ s) = elim (is_space c) [
  | true ↦ unless_nil cur (words_onto [] s)
  | false ↦ words_onto (c ∷ cur) s
]

-- `s.split()`
unfoldable pub split_words : Text → List Text
unfolding words_onto
split_words s = words_onto [] s

-- A run of white space is a cut from the first of its code points on that follows an end, in the
-- sense of `ends`; `last` is the code point before, and `cutting` tells that it belongs to the cut.
unfoldable pub sentences_onto : (ℕ → Bool) → Bool → ℕ → Text → Text → List Text
unfolding is_space reverse
sentences_onto ends cutting last cur [] = reverse cur ∷ []
sentences_onto ends cutting last cur (c ∷ s) = elim (is_space c) [
  | false ↦ sentences_onto ends false c (c ∷ cur) s
  | true ↦ elim cutting [
    | true ↦ sentences_onto ends true c cur s
    | false ↦ elim (ends last) [
      | true ↦ reverse cur ∷ sentences_onto ends true c [] s
      | false ↦ sentences_onto ends false c (c ∷ cur) s
    ]
  ]
]

-- `re.split(r"(?<=[…])\s+", s)`. Before the first code point stands 0, which is no end.
unfoldable pub split_sentences : (ℕ → Bool) → Text → List Text
unfolding sentences_onto
split_sentences ends s = sentences_onto ends false 0 [] s

-- The decimal text of a number with at most `fuel + 1` digits.
unfoldable pub decimal_onto : ℕ → ℕ → Text → Text
decimal_onto zero n acc = (48 + n % 10) ∷ acc
decimal_onto (suc fuel) n acc =
    let more = decimal_onto fuel (n / 10) ((48 + n % 10) ∷ acc) in
    if ltb n 10 then (48 + n) ∷ acc else more

-- `str(n)`: a number has at most as many digits as itself, plus one.
unfoldable pub decimal : ℕ → Text
unfolding decimal_onto
decimal n = decimal_onto n n []
