-- ===== src/Chunking/Children/Overlaps.antt =====
-- What the overlapping child chunks of a parent keep of its sentences.
use agentic_substrate.Prelude.{
  ℕ, ◌+◌, ◌*◌, ◌≡◌, refl, ◌∙◌, ap, sym, subst, Bool, true, false, Option, none, some, List, [], ◌∷◌,
  ◌++◌, append_assoc, append-nil, length, leb, if◌then◌else◌, Bool-cases, inl, inr, All, All-append,
  arith,
}
use agentic_substrate.Text.{Text, text_eq, strip, join}
use agentic_substrate.Text.Equality.{text_eq_sound}
use agentic_substrate.Text.Splits.{split_sentences}
use agentic_substrate.Text.Ink.{ink, ink_all, ink_all-append, ink-strip, ink-join}
use agentic_substrate.Text.Ink.Pieces.{ink_all-split_sentences}
use agentic_substrate.Chunking.Parents.{Chunker, blank}
use agentic_substrate.Chunking.Parents.Ink.Gather.{ink-blank}
use agentic_substrate.Chunking.Children.{
  is_child_end, overlap, total_length, differs, overlapping, create_child_chunks_from_parent,
}

-- All the ink of `s` stands in `t`, in one piece.
pub record InkIn (s t : Text) : Type 0 where
  pub before : Text
  pub after : Text
  pub around : ink t ≡ before ++ ink s ++ after

-- One of the texts has the ink of `s`.
pub data Held (s : Text) : List Text → Type 0 where
  here : {t : Text} {texts : List Text} → InkIn s t → Held s (t ∷ texts)
  there : {t : Text} {texts : List Text} → Held s texts → Held s (t ∷ texts)

All-suffix : (P : Text → Type 0) (xs ys : List Text) → All P (xs ++ ys) → All P ys
All-suffix P [] ys h = h
All-suffix P (x ∷ xs) ys h = All-suffix P xs ys h.1

module _ {P Q : Text → Type 0} where
  All-weaken : (xs : List Text) → ((s : Text) → P s → Q s) → All P xs → All Q xs
  All-weaken [] f h = tt
  All-weaken (x ∷ xs) f h = (f x h.0, All-weaken xs f h.1)

-- With what stands before it and behind it.
ink_all_inside :
    (t : Text) (pre texts : List Text) → ink t ≡ ink_all (pre ++ texts) → All (λ s. InkIn s t) texts
ink_all_inside t pre [] e = tt
ink_all_inside t pre (x ∷ texts) e = (
  record {
    before = ink_all pre;
    after = ink_all texts;
    around =
        e
        ∙ ink_all-append pre (x ∷ texts)
        ∙ unfold ink_all in sym (append_assoc (ink_all pre) (ink x) (ink_all texts));
  },
  ink_all_inside t (pre ++ x ∷ []) texts (e ∙ ap ink_all (sym (append_assoc pre (x ∷ []) texts))),
)

joined-InkIn : (texts : List Text) → All (λ s. InkIn s (strip (join blank texts))) texts
joined-InkIn texts =
    ink_all_inside (strip (join blank texts)) [] texts
      (ink-strip (join blank texts) ∙ ink-join blank texts ink-blank)

abbrev onto : Option Text → List Text → List Text
onto none texts = texts
onto (some t) texts = t ∷ texts

Held-onto :
    (last : Option Text) (s : Text) (texts : List Text) → Held s texts → Held s (onto last texts)
Held-onto none s texts h = h
Held-onto (some t) s texts h = there h

-- The last chunk is left out where it is the same text as the one before.
closed-Held :
    (last : Option Text) (text s : Text)
    → InkIn s text
    → Held s (onto last (if differs last text then text ∷ [] else []))
closed-Held none text s h = here h
closed-Held (some t) text s h = elim (Bool-cases (text_eq t text)) [
  | inl e ↦ rw e (here (subst (λ u. InkIn s u) (sym (text_eq_sound t text e)) h))
  | inr e ↦ rw e (there (here h))
]

record AllHeld (chunks texts : List Text) : Type 0 where
  all : All (λ s. Held s chunks) texts

-- What is closed holds its own sentences; the chunks from it on hold those of the overlap and the
-- sentences to come.
closing-AllHeld :
    (last : Option Text) (text : Text) (chunks current overlapped sentences : List Text)
    → All (λ s. InkIn s text) current
    → AllHeld (text ∷ chunks) (overlapped ++ sentences)
    → AllHeld (onto last (text ∷ chunks)) (current ++ sentences)
closing-AllHeld last text chunks current overlapped sentences h k = record {
  all =
      All-append (λ s. Held s (onto last (text ∷ chunks))) current sentences
        (All-weaken current (λ s i. Held-onto last s (text ∷ chunks) (here i)) h)
        (All-weaken sentences (λ s i. Held-onto last s (text ∷ chunks) i)
          (All-suffix (λ s. Held s (text ∷ chunks)) overlapped sentences k.all));
}

AllHeld-if :
    (b : Bool) (xs ys texts : List Text)
    → AllHeld xs texts
    → AllHeld ys texts
    → AllHeld (if b then xs else ys) texts
AllHeld-if true xs ys texts h k = h
AllHeld-if false xs ys texts h k = k

abbrev pub closing : List Text → Text
closing current = strip (join blank current)

module _ (child_chars overlap_chars : ℕ) where
  abbrev pub next_current : List Text → Text → List Text
  next_current current s = overlap overlap_chars current ++ s ∷ []

  module _ (last : Option Text) (c : Text) (current : List Text) (len : ℕ) (s : Text)
      (sentences : List Text) where
    pub overlapping_add :
        leb (len + length s) child_chars ≡ true
        → overlapping child_chars overlap_chars last (c ∷ current) len (s ∷ sentences)
          ≡ overlapping child_chars overlap_chars last
              ((c ∷ current) ++ s ∷ [])
              (len + length s)
              sentences
    unfolding overlapping
    overlapping_add h = ground arith

    pub overlapping_close :
        leb (len + length s) child_chars ≡ false
        → overlapping child_chars overlap_chars last (c ∷ current) len (s ∷ sentences)
          ≡ closing (c ∷ current)
            ∷ overlapping child_chars overlap_chars
                (some (closing (c ∷ current)))
                (next_current (c ∷ current) s)
                (total_length (next_current (c ∷ current) s)
                  + length (next_current (c ∷ current) s))
                sentences
    unfolding overlapping
    overlapping_close h = ground arith

  pub overlapping_first :
      (last : Option Text) (len : ℕ) (s : Text) (sentences : List Text)
      → overlapping child_chars overlap_chars last [] len (s ∷ sentences)
        ≡ overlapping child_chars overlap_chars last (s ∷ []) (len + length s) sentences
  unfolding overlapping
  overlapping_first last len s sentences = refl

  overlapping-AllHeld :
      (last : Option Text) (current : List Text) (len : ℕ) (sentences : List Text)
      → AllHeld
          (onto last (overlapping child_chars overlap_chars last current len sentences))
          (current ++ sentences)
  overlapping-AllHeld last [] len [] = record { all = tt }
  overlapping-AllHeld last (c ∷ current) len [] =
      subst (AllHeld (onto last (overlapping child_chars overlap_chars last (c ∷ current) len [])))
        (sym (append-nil (c ∷ current)))
        (unfold overlapping in
          record {
            all =
                All-weaken (c ∷ current) (λ s h. closed-Held last (closing (c ∷ current)) s h)
                  (joined-InkIn (c ∷ current));
          })
  overlapping-AllHeld last [] len (s ∷ sentences) =
      subst (λ r. AllHeld (onto last r) (s ∷ sentences))
        (sym (overlapping_first last len s sentences))
        (overlapping-AllHeld last (s ∷ []) (len + length s) sentences)
  overlapping-AllHeld last (c ∷ current) len (s ∷ sentences) =
      elim (Bool-cases (leb (len + length s) child_chars)) [
        | inl e ↦
            subst (λ r. AllHeld (onto last r) ((c ∷ current) ++ s ∷ sentences))
              (sym (overlapping_add last c current len s sentences e))
              (subst (AllHeld _) (append_assoc (c ∷ current) (s ∷ []) sentences)
                (overlapping-AllHeld last ((c ∷ current) ++ s ∷ []) (len + length s) sentences))
        | inr e ↦
            let next = next_current (c ∷ current) s in
            let next_len = total_length next + length next in
            subst (λ r. AllHeld (onto last r) ((c ∷ current) ++ s ∷ sentences))
              (sym (overlapping_close last c current len s sentences e))
              (closing-AllHeld last (closing (c ∷ current)) _ (c ∷ current)
                (overlap overlap_chars (c ∷ current)) (s ∷ sentences) (joined-InkIn (c ∷ current))
                (subst (AllHeld _)
                  (append_assoc (overlap overlap_chars (c ∷ current)) (s ∷ []) sentences)
                  (overlapping-AllHeld (some (closing (c ∷ current))) next next_len sentences)))
      ]

module _ (chunker : Chunker) where
  -- Each sentence of a parent stands in one of its child texts, in one piece up to white space: the
  -- overlap and the leaving out of a repeated last text lose none.
  pub create_child_chunks-Held :
      (parent_content : Text) (child_tokens overlap_tokens : ℕ)
      → All
          (λ s.
            Held s
              (create_child_chunks_from_parent chunker parent_content child_tokens overlap_tokens))
          (split_sentences is_child_end parent_content)
  unfolding create_child_chunks_from_parent
  create_child_chunks-Held parent_content child_tokens overlap_tokens =
      let child_chars = child_tokens * chunker.chars_per_token in
      let overlap_chars = overlap_tokens * chunker.chars_per_token in
      let sentences = split_sentences is_child_end parent_content in
      (AllHeld-if (leb (length parent_content) child_chars) (parent_content ∷ [])
        (overlapping child_chars overlap_chars none [] 0 sentences) sentences
        (record {
          all =
              All-weaken sentences (λ s h. here h)
                (ink_all_inside parent_content [] sentences
                  (sym (ink_all-split_sentences is_child_end parent_content)));
        })
        (overlapping-AllHeld child_chars overlap_chars none [] 0 sentences)).all
