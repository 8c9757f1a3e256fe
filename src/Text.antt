-- ===== src/Text.antt =====
-- The methods of Python's `str` that the program uses, over lists of code points.
pub mod Splits
pub mod Ink
pub mod Equality
pub mod Lengths
use Prim.Native.Char.{code}
use agentic_substrate.Prelude.{
  ℕ, ◌+◌, Bool, true, false, ◌&&◌, ◌||◌, List, [], ◌∷◌, ◌++◌, String, leb, ◌==◌, if◌then◌else◌,
}

abbrev pub Text : Type 0
Text = List ℕ

abbrev pub codes : String → Text
codes String.[] = []
codes (String.◌∷◌ c s) = code c ∷ codes s

-- The code points for which `str.isspace` holds.
unfoldable pub is_space : ℕ → Bool
is_space c =
    leb 9 c && leb c 13
    || leb 28 c && leb c 32
    || c == 133
    || c == 160
    || c == 5760
    || leb 8192 c && leb c 8202
    || c == 8232
    || c == 8233
    || c == 8239
    || c == 8287
    || c == 12288

unfoldable pub is_nil : Text → Bool
is_nil [] = true
is_nil (c ∷ s) = false

unfoldable pub text_eq : Text → Text → Bool
text_eq [] [] = true
text_eq [] (d ∷ t) = false
text_eq (c ∷ s) [] = false
text_eq (c ∷ s) (d ∷ t) = c == d && text_eq s t

-- `s.startswith(p)`
unfoldable pub starts_with : Text → Text → Bool
starts_with s [] = true
starts_with [] (d ∷ p) = false
starts_with (c ∷ s) (d ∷ p) = c == d && starts_with s p

unfoldable pub reverse_onto : Text → Text → Text
reverse_onto acc [] = acc
reverse_onto acc (c ∷ s) = reverse_onto (c ∷ acc) s

unfoldable pub reverse : Text → Text
unfolding reverse_onto
reverse s = reverse_onto [] s

-- `s.endswith(p)`
unfoldable pub ends_with : Text → Text → Bool
unfolding starts_with reverse
ends_with s p = starts_with (reverse s) (reverse p)

unfoldable pub lstrip : Text → Text
lstrip [] = []
lstrip (c ∷ s) = elim (is_space c) [ true ↦ lstrip s | false ↦ c ∷ s ]

-- `s.strip()`
unfoldable pub strip : Text → Text
unfolding lstrip reverse is_space
strip s = reverse (lstrip (reverse (lstrip s)))

-- `s.lower()`, on ASCII letters. The program compares the result with ASCII texts only, none of
-- which holds a letter that another code point lowers to.
unfoldable pub lower : Text → Text
lower [] = []
lower (c ∷ s) = (if leb b'A' c && leb c b'Z' then c + 32 else c) ∷ lower s

unfoldable pub join : Text → List Text → Text
join sep [] = []
join sep (s ∷ []) = s
join sep (s ∷ t ∷ rest) = s ++ sep ++ join sep (t ∷ rest)

-- `s.split(c)` at a single code point: `cur` is the piece begun, reversed.
unfoldable pub split_at_onto : Text → ℕ → Text → List Text
unfolding reverse
split_at_onto cur d [] = reverse cur ∷ []
split_at_onto cur d (c ∷ s) =
    let here = reverse cur ∷ split_at_onto [] d s in
    let further = split_at_onto (c ∷ cur) d s in if c == d then here else further

unfoldable pub split_at : ℕ → Text → List Text
unfolding split_at_onto
split_at d s = split_at_onto [] d s

-- `p in s`
unfoldable pub contains : Text → Text → Bool
unfolding starts_with
contains [] p = starts_with [] p
contains (c ∷ s) p = starts_with (c ∷ s) p || contains s p
