-- ===== src/Text/Ink.antt =====
-- The ink of a text: its code points that are not white space. What the ways to strip, join and
-- split texts do to it.
pub mod Pieces
use agentic_substrate.Prelude.{
  ℕ, Bool, true, false, ◌&&◌, List, [], ◌∷◌, ◌++◌, ◌≡◌, refl, ◌∙◌, ap, sym, append_assoc,
  append-nil, if◌then◌else◌, ◌==◌, arith, Bool-cases, inl, inr,
}
use agentic_substrate.Text.{Text, is_space, reverse_onto, reverse, lstrip, strip, join}
use agentic_substrate.Text.Splits.{
  unless_nil, is_line_break, lines_onto, split_lines, words_onto, split_words, sentences_onto,
  split_sentences,
}

unfoldable pub ink : Text → Text
ink [] = []
ink (c ∷ s) = let rest = ink s in if is_space c then rest else c ∷ rest

unfoldable pub ink_all : List Text → Text
unfolding ink
ink_all [] = []
ink_all (s ∷ texts) = ink s ++ ink_all texts

pub ink-append : (s t : Text) → ink (s ++ t) ≡ ink s ++ ink t
unfolding ink
ink-append [] t = refl
ink-append (c ∷ s) t = ground (arith, ink-append s t)

pub ink_all-append : (xs ys : List Text) → ink_all (xs ++ ys) ≡ ink_all xs ++ ink_all ys
unfolding ink_all
ink_all-append [] ys = refl
ink_all-append (x ∷ xs) ys =
    ap (λ t. ink x ++ t) (ink_all-append xs ys)
    ∙ sym (append_assoc (ink x) (ink_all xs) (ink_all ys))

-- Reversal in terms of an append.
reverse_onto-append :
    (acc s t : Text) → reverse_onto acc (s ++ t) ≡ reverse_onto (reverse_onto acc s) t
unfolding reverse_onto
reverse_onto-append acc [] t = refl
reverse_onto-append acc (c ∷ s) t = reverse_onto-append (c ∷ acc) s t

reverse_onto_nil : (acc s : Text) → reverse_onto acc s ≡ reverse_onto [] s ++ acc
unfolding reverse_onto
reverse_onto_nil acc [] = refl
reverse_onto_nil acc (c ∷ s) =
    reverse_onto_nil (c ∷ acc) s
    ∙ sym (append_assoc (reverse_onto [] s) (c ∷ []) acc)
    ∙ ap (λ r. r ++ acc) (sym (reverse_onto_nil (c ∷ []) s))

pub reverse-cons : (c : ℕ) (s : Text) → reverse (c ∷ s) ≡ reverse s ++ c ∷ []
unfolding reverse reverse_onto
reverse-cons c s = reverse_onto_nil (c ∷ []) s

reverse-append_one : (s : Text) (c : ℕ) → reverse (s ++ c ∷ []) ≡ c ∷ reverse s
unfolding reverse reverse_onto
reverse-append_one s c = reverse_onto-append [] s (c ∷ [])

pub reverse-reverse : (s : Text) → reverse (reverse s) ≡ s
reverse-reverse [] = unfold reverse in unfold reverse_onto in refl
reverse-reverse (c ∷ s) =
    ap reverse (reverse-cons c s)
    ∙ reverse-append_one (reverse s) c
    ∙ ap (λ r. c ∷ r) (reverse-reverse s)

ink_one : (c : ℕ) → is_space c ≡ false → ink (c ∷ []) ≡ c ∷ []
unfolding ink
ink_one c h = rw h refl

ink_white : (c : ℕ) → is_space c ≡ true → ink (c ∷ []) ≡ []
unfolding ink
ink_white c h = rw h refl

pub ink-reverse : (s : Text) → ink (reverse s) ≡ reverse (ink s)
ink-reverse [] = unfold reverse in unfold ink in refl
ink-reverse (c ∷ s) =
    ap ink (reverse-cons c s) ∙ ink-append (reverse s) (c ∷ []) ∙ (elim (Bool-cases (is_space c)) [
      | inl e ↦
          ap (λ t. ink (reverse s) ++ t) (ink_white c e)
          ∙ append-nil (ink (reverse s))
          ∙ ink-reverse s
          ∙ ap reverse (sym (unfold ink in rw e refl))
      | inr e ↦
          ap (λ t. ink (reverse s) ++ t) (ink_one c e)
          ∙ ap (λ t. t ++ c ∷ []) (ink-reverse s)
          ∙ sym (reverse-cons c (ink s))
          ∙ ap reverse (sym (unfold ink in rw e refl))
    ])

pub ink-cons_ink : (c : ℕ) (s : Text) → is_space c ≡ false → ink (c ∷ s) ≡ c ∷ ink s
unfolding ink
ink-cons_ink c s h = rw h refl

pub ink-cons_white : (c : ℕ) (s : Text) → is_space c ≡ true → ink (c ∷ s) ≡ ink s
unfolding ink
ink-cons_white c s h = rw h refl

ink-lstrip : (s : Text) → ink (lstrip s) ≡ ink s
unfolding lstrip ink
ink-lstrip [] = refl
ink-lstrip (c ∷ s) = elim (Bool-cases (is_space c)) [
  | inl e ↦ rw (lstrip, e) (ink-lstrip s)
  | inr e ↦ rw (lstrip, e) (ink-cons_ink c s e)
]

pub ink-strip : (s : Text) → ink (strip s) ≡ ink s
unfolding strip
ink-strip s =
    ink-reverse (lstrip (reverse (lstrip s)))
    ∙ ap reverse
        (ink-lstrip (reverse (lstrip s)) ∙ ink-reverse (lstrip s) ∙ ap reverse (ink-lstrip s))
    ∙ reverse-reverse (ink s)

-- Joining with white space adds no ink.
pub ink-join :
    (sep : Text) (texts : List Text) → ink sep ≡ [] → ink (join sep texts) ≡ ink_all texts
unfolding join ink_all
ink-join sep [] h = unfold ink in refl
ink-join sep (s ∷ []) h = sym (append-nil (ink s))
ink-join sep (s ∷ t ∷ texts) h =
    ink-append (s ++ sep) (join sep (t ∷ texts))
    ∙ ap (λ r. r ++ ink (join sep (t ∷ texts)))
        (ink-append s sep ∙ ap (λ r. ink s ++ r) h ∙ append-nil (ink s))
    ∙ ap (λ r. ink s ++ r) (ink-join sep (t ∷ texts) h)
