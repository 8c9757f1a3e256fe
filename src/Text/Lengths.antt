-- ===== src/Text/Lengths.antt =====
-- The lengths of stripped and joined texts.
use agentic_substrate.Prelude.{◌+◌, ◌≤◌, ◌≡◌, [], ◌∷◌, length, arith}
use agentic_substrate.Text.{Text, reverse_onto, reverse, lstrip, strip}

length-reverse_onto : (acc s : Text) → length (reverse_onto acc s) ≡ length acc + length s
unfolding reverse_onto
length-reverse_onto acc [] = omega arith
length-reverse_onto acc (c ∷ s) = omega (arith, length-reverse_onto (c ∷ acc) s)

length-reverse : (s : Text) → length (reverse s) ≡ length s
unfolding reverse
length-reverse s = omega (arith, length-reverse_onto [] s)

length-lstrip-le : (s : Text) → length (lstrip s) ≤ length s
unfolding lstrip
length-lstrip-le [] = omega arith
length-lstrip-le (c ∷ s) = ground (arith, length-lstrip-le s)

pub length-strip-le : (s : Text) → length (strip s) ≤ length s
unfolding strip
length-strip-le s = omega (
  arith,
  length-reverse (lstrip (reverse (lstrip s))),
  length-lstrip-le (reverse (lstrip s)),
  length-reverse (lstrip s),
  length-lstrip-le s,
)
