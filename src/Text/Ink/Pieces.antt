-- ===== src/Text/Ink/Pieces.antt =====
-- The ink of the pieces of a text: its lines, words and sentences.
use agentic_substrate.Prelude.{
  ℕ, Bool, true, false, ◌&&◌, List, [], ◌∷◌, ◌++◌, ◌≡◌, refl, ◌∙◌, ap, sym, append_assoc, ◌==◌,
  arith, Bool-cases, inl, inr,
}
use agentic_substrate.Text.{Text, is_space, reverse_onto, reverse}
use agentic_substrate.Text.Splits.{
  unless_nil, is_line_break, lines_onto, split_lines, words_onto, split_words, sentences_onto,
  split_sentences,
}
use agentic_substrate.Text.Ink.{ink, ink_all, ink-append, reverse-cons, ink-cons_white}

-- What a piece begun, reversed, and the code points after it have of ink.
abbrev begun : Text → Text → Text
begun cur s = ink (reverse cur) ++ ink s

-- A white code point is dropped from the front, and another one goes on to the piece.
begun_white : (cur : Text) (c : ℕ) (s : Text) → is_space c ≡ true → begun cur (c ∷ s) ≡ begun cur s
begun_white cur c s h = ap (λ r. ink (reverse cur) ++ r) (ink-cons_white c s h)

begun_next : (cur : Text) (c : ℕ) (s : Text) → begun (c ∷ cur) s ≡ begun cur (c ∷ s)
begun_next cur c s =
    ap (λ r. r ++ ink s) (ap ink (reverse-cons c cur) ∙ ink-append (reverse cur) (c ∷ []))
    ∙ append_assoc (ink (reverse cur)) (ink (c ∷ [])) (ink s)
    ∙ ap (λ r. ink (reverse cur) ++ r) (sym (ink-append (c ∷ []) s))

begun_nil : (s : Text) → begun [] s ≡ ink s
unfolding reverse reverse_onto ink
begun_nil s = refl

is_line_break-white : (c : ℕ) → is_line_break c ≡ true → is_space c ≡ true
unfolding is_line_break is_space
is_line_break-white c h = ground arith

ink_all-unless_nil :
    (cur : Text) (rest : List Text)
    → ink_all (unless_nil cur rest) ≡ ink (reverse cur) ++ ink_all rest
unfolding ink_all
ink_all-unless_nil [] rest = unfold reverse in unfold reverse_onto in refl
ink_all-unless_nil (c ∷ cur) rest = refl

-- A piece that ends at a white code point, and the pieces of the rest.
cut_here :
    (cur : Text) (c : ℕ) (s : Text) (rest : List Text)
    → is_space c ≡ true
    → ink_all rest ≡ begun [] s
    → ink (reverse cur) ++ ink_all rest ≡ begun cur (c ∷ s)
cut_here cur c s rest white h =
    ap (λ r. ink (reverse cur) ++ r) (h ∙ begun_nil s) ∙ sym (begun_white cur c s white)

last_piece : (cur : Text) → ink_all (reverse cur ∷ []) ≡ begun cur []
unfolding ink_all ink
last_piece cur = refl

line_feed-white : (b : Bool) (c : ℕ) → (b && c == 10) ≡ true → is_space c ≡ true
unfolding is_space
line_feed-white b c h = ground arith

last_unless : (cur : Text) → ink_all (unless_nil cur []) ≡ begun cur []
unfolding ink_all ink
last_unless cur = ink_all-unless_nil cur []

-- The steps of the three loops.
module _ (cur : Text) (c : ℕ) (s : Text) where
  lines_feed :
      (b : Bool) → (b && c == 10) ≡ true → lines_onto b cur (c ∷ s) ≡ lines_onto false cur s
  unfolding lines_onto
  lines_feed b h = ground arith

  lines_break :
      (b : Bool)
      → (b && c == 10) ≡ false
      → is_line_break c ≡ true
      → lines_onto b cur (c ∷ s) ≡ reverse cur ∷ lines_onto (c == 13) [] s
  unfolding lines_onto
  lines_break b h k = ground arith

  lines_next :
      (b : Bool)
      → (b && c == 10) ≡ false
      → is_line_break c ≡ false
      → lines_onto b cur (c ∷ s) ≡ lines_onto false (c ∷ cur) s
  unfolding lines_onto
  lines_next b h k = ground arith

  words_cut : is_space c ≡ true → words_onto cur (c ∷ s) ≡ unless_nil cur (words_onto [] s)
  unfolding words_onto
  words_cut h = ground arith

  words_next : is_space c ≡ false → words_onto cur (c ∷ s) ≡ words_onto (c ∷ cur) s
  unfolding words_onto
  words_next h = ground arith

  module _ (ends : ℕ → Bool) (last : ℕ) where
    sentences_ink :
        (cutting : Bool)
        → is_space c ≡ false
        → sentences_onto ends cutting last cur (c ∷ s) ≡ sentences_onto ends false c (c ∷ cur) s
    unfolding sentences_onto
    sentences_ink cutting h = ground arith

    sentences_skip :
        is_space c ≡ true
        → sentences_onto ends true last cur (c ∷ s) ≡ sentences_onto ends true c cur s
    unfolding sentences_onto
    sentences_skip h = ground arith

    sentences_cut :
        is_space c ≡ true
        → ends last ≡ true
        → sentences_onto ends false last cur (c ∷ s) ≡ reverse cur ∷ sentences_onto ends true c [] s
    unfolding sentences_onto
    sentences_cut h k = ground arith

    sentences_next :
        is_space c ≡ true
        → ends last ≡ false
        → sentences_onto ends false last cur (c ∷ s) ≡ sentences_onto ends false c (c ∷ cur) s
    unfolding sentences_onto
    sentences_next h k = ground arith

-- A piece cut off before a white code point.
ink_all-cut :
    (cur : Text) (c : ℕ) (s : Text) (rest : List Text)
    → is_space c ≡ true
    → ink_all rest ≡ begun [] s
    → ink_all (reverse cur ∷ rest) ≡ begun cur (c ∷ s)
unfolding ink_all
ink_all-cut cur c s rest white h = cut_here cur c s rest white h

ink_all-lines_onto : (b : Bool) (cur s : Text) → ink_all (lines_onto b cur s) ≡ begun cur s
ink_all-lines_onto b cur [] = unfold lines_onto in last_unless cur
ink_all-lines_onto b cur (c ∷ s) = elim (Bool-cases (b && c == 10)) [
  | inl e ↦
      ap ink_all (lines_feed cur c s b e)
      ∙ ink_all-lines_onto false cur s
      ∙ sym (begun_white cur c s (line_feed-white b c e))
  | inr e ↦ elim (Bool-cases (is_line_break c)) [
    | inl e' ↦
        ap ink_all (lines_break cur c s b e e')
        ∙ ink_all-cut cur c s _ (is_line_break-white c e') (ink_all-lines_onto (c == 13) [] s)
    | inr e' ↦
        ap ink_all (lines_next cur c s b e e')
        ∙ ink_all-lines_onto false (c ∷ cur) s
        ∙ begun_next cur c s
  ]
]

pub ink_all-split_lines : (s : Text) → ink_all (split_lines s) ≡ ink s
unfolding split_lines
ink_all-split_lines s = ink_all-lines_onto false [] s ∙ begun_nil s

ink_all-words_onto : (cur s : Text) → ink_all (words_onto cur s) ≡ begun cur s
ink_all-words_onto cur [] = unfold words_onto in last_unless cur
ink_all-words_onto cur (c ∷ s) = elim (Bool-cases (is_space c)) [
  | inl e ↦
      ap ink_all (words_cut cur c s e)
      ∙ ink_all-unless_nil cur (words_onto [] s)
      ∙ cut_here cur c s (words_onto [] s) e (ink_all-words_onto [] s)
  | inr e ↦ ap ink_all (words_next cur c s e) ∙ ink_all-words_onto (c ∷ cur) s ∙ begun_next cur c s
]

pub ink_all-split_words : (s : Text) → ink_all (split_words s) ≡ ink s
unfolding split_words
ink_all-split_words s = ink_all-words_onto [] s ∙ begun_nil s

module _ (ends : ℕ → Bool) where
  ink_all-sentences_onto :
      (cutting : Bool) (last : ℕ) (cur s : Text)
      → ink_all (sentences_onto ends cutting last cur s) ≡ begun cur s
  ink_all-sentences_onto cutting last cur [] = unfold sentences_onto in last_piece cur
  ink_all-sentences_onto cutting last cur (c ∷ s) = elim (Bool-cases (is_space c)) [
    | inr e ↦
        ap ink_all (sentences_ink cur c s ends last cutting e)
        ∙ ink_all-sentences_onto false c (c ∷ cur) s
        ∙ begun_next cur c s
    | inl e ↦
        at_white cutting last cur c s e (ink_all-sentences_onto true c cur s)
          (ink_all-sentences_onto true c [] s) (ink_all-sentences_onto false c (c ∷ cur) s)
  ]
    where
      at_white :
          (cutting : Bool) (last : ℕ) (cur : Text) (c : ℕ) (s : Text)
          → is_space c ≡ true
          → ink_all (sentences_onto ends true c cur s) ≡ begun cur s
          → ink_all (sentences_onto ends true c [] s) ≡ begun [] s
          → ink_all (sentences_onto ends false c (c ∷ cur) s) ≡ begun (c ∷ cur) s
          → ink_all (sentences_onto ends cutting last cur (c ∷ s)) ≡ begun cur (c ∷ s)
      at_white true last cur c s e skip cut next =
          ap ink_all (sentences_skip cur c s ends last e) ∙ skip ∙ sym (begun_white cur c s e)
      at_white false last cur c s e skip cut next = elim (Bool-cases (ends last)) [
        | inl e' ↦ ap ink_all (sentences_cut cur c s ends last e e') ∙ ink_all-cut cur c s _ e cut
        | inr e' ↦ ap ink_all (sentences_next cur c s ends last e e') ∙ next ∙ begun_next cur c s
      ]

pub ink_all-split_sentences :
    (ends : ℕ → Bool) (s : Text) → ink_all (split_sentences ends s) ≡ ink s
unfolding split_sentences
ink_all-split_sentences ends s = ink_all-sentences_onto ends false 0 [] s ∙ begun_nil s
