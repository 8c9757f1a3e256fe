-- ===== src/Text/Equality.antt =====
-- The test for the equality of texts.
use agentic_substrate.Prelude.{
  ◌≡◌, refl, ◌∙◌, ap, true, false, [], ◌∷◌, Bool-cases, inl, inr, arith,
}
use agentic_substrate.Text.{Text, text_eq}

pub text_eq_refl : (s : Text) → text_eq s s ≡ true
unfolding text_eq
text_eq_refl [] = refl
text_eq_refl (c ∷ s) = ground (arith, text_eq_refl s)

pub text_eq_sound : (s t : Text) → text_eq s t ≡ true → s ≡ t
unfolding text_eq
text_eq_sound [] [] e = refl
text_eq_sound [] (d ∷ t) e = ground arith
text_eq_sound (c ∷ s) [] e = ground arith
text_eq_sound (c ∷ s) (d ∷ t) e = ground (arith, text_eq_sound s t)

pub text_eq-swap : (s t : Text) → text_eq s t ≡ false → text_eq t s ≡ false
text_eq-swap s t h = elim (Bool-cases (text_eq t s)) [
  | inl e ↦
      let same : text_eq s t ≡ true = ap (text_eq s) (text_eq_sound t s e) ∙ text_eq_refl s in
      ground arith
  | inr e ↦ e
]
