-- ===== src/Storage/Prefixes.antt =====
-- What putting an object and deleting a prefix do to the objects.
use agentic_substrate.Prelude.{
  ℕ, ◌≡◌, refl, ◌∙◌, ap, Bool, true, false, not, none, some, List, [], ◌∷◌, ◌++◌, Bool-cases, inl,
  inr, arith,
}
use agentic_substrate.Text.{Text, text_eq, starts_with}
use agentic_substrate.Text.Equality.{text_eq_refl, text_eq_sound, text_eq-swap}
use agentic_substrate.Storage.{
  Objects, keep_objects, get_object, put_object, is_under, exists, delete_prefix,
}

pub get-put :
    (path : Text) (content : List ℕ) (objects : Objects)
    → get_object path (put_object path content objects) ≡ some content
unfolding get_object put_object
get-put path content objects = ground (arith, text_eq_refl path)

starts_with_refl : (s : Text) → starts_with s s ≡ true
unfolding starts_with
starts_with_refl [] = refl
starts_with_refl (c ∷ s) = ground (arith, starts_with_refl s)

starts_with-append : (s p q : Text) → starts_with s (p ++ q) ≡ true → starts_with s p ≡ true
unfolding starts_with
starts_with-append s [] q e = refl
starts_with-append [] (d ∷ p) q e = e
starts_with-append (c ∷ s) (d ∷ p) q e = ground (arith, starts_with-append s p q)

-- A path that passes the test keeps its object.
get-keep :
    (test : Text → Bool) (path : Text) (objects : Objects)
    → test path ≡ true
    → get_object path (keep_objects test objects) ≡ get_object path objects
unfolding get_object keep_objects
get-keep test path [] h = refl
get-keep test path ((p, content) ∷ objects) h = elim (Bool-cases (text_eq p path)) [
  | inl e ↦
      let passed : test p ≡ true = ap test (text_eq_sound p path e) ∙ h in ground (arith, passed)
  | inr e ↦ ground (arith, get-keep test path objects h)
]

get-dropped :
    (test : Text → Bool) (path : Text) (objects : Objects)
    → test path ≡ false
    → get_object path (keep_objects test objects) ≡ none
unfolding get_object keep_objects
get-dropped test path [] h = refl
get-dropped test path ((p, content) ∷ objects) h = elim (Bool-cases (text_eq p path)) [
  | inl e ↦
      let failed : test p ≡ false = ap test (text_eq_sound p path e) ∙ h in
      ground (arith, failed, get-dropped test path objects h)
  | inr e ↦ ground (arith, get-dropped test path objects h)
]

pub get-put_other :
    (path other : Text) (content : List ℕ) (objects : Objects)
    → text_eq path other ≡ false
    → get_object other (put_object path content objects) ≡ get_object other objects
unfolding get_object put_object
get-put_other path other content objects h =
    let kept =
      get-keep (λ p. not (text_eq p path)) other objects (ap not (text_eq-swap path other h)) in
    ground (arith, kept)

is_under-starts :
    (prefix path : Text) → starts_with path prefix ≡ false → is_under prefix path ≡ false
unfolding is_under
is_under-starts prefix path h = elim (Bool-cases (text_eq path prefix)) [
  | inl e ↦
      let same : starts_with path prefix ≡ true =
        ap (λ q. starts_with q prefix) (text_eq_sound path prefix e) ∙ starts_with_refl prefix in
      ground arith
  | inr e ↦ elim (Bool-cases (starts_with path (prefix ++ b'/' ∷ []))) [
    | inl f ↦
        let begun : starts_with path prefix ≡ true = starts_with-append path prefix (b'/' ∷ []) f in
        ground arith
    | inr f ↦ ground arith
  ]
]

-- Deleting a prefix leaves the objects alone whose paths do not begin with it.
pub delete_prefix-keeps :
    (prefix path : Text) (objects : Objects)
    → starts_with path prefix ≡ false
    → get_object path (delete_prefix prefix objects) ≡ get_object path objects
unfolding delete_prefix
delete_prefix-keeps prefix path objects h = elim (Bool-cases (exists prefix objects)) [
  | inl e ↦ rw e (
      get-keep (λ p. not (is_under prefix p)) path objects (ap not (is_under-starts prefix path h)))
  | inr e ↦ rw e (get-keep (λ p. not (starts_with p prefix)) path objects (ap not h))
]

-- Where neither a file nor a directory has the prefix for its path, all objects whose paths begin
-- with it are gone.
pub delete_prefix-gone :
    (prefix path : Text) (objects : Objects)
    → exists prefix objects ≡ false
    → starts_with path prefix ≡ true
    → get_object path (delete_prefix prefix objects) ≡ none
unfolding delete_prefix
delete_prefix-gone prefix path objects e h =
    rw e (get-dropped (λ p. not (starts_with p prefix)) path objects (ap not h))

-- Where an object stands that the deletion of the prefix is to take away: the prefix is its path, or a
-- directory above it; or no path is the prefix or below it, and the path of the object begins with it.
pub data IsCleared (prefix : Text) (objects : Objects) (path : Text) : Type 0 where
  below : is_under prefix path ≡ true → IsCleared prefix objects path
  begun :
      exists prefix objects ≡ false → starts_with path prefix ≡ true → IsCleared prefix objects path

under-starts : (prefix path : Text) → is_under prefix path ≡ true → starts_with path prefix ≡ true
under-starts prefix path h = elim (Bool-cases (starts_with path prefix)) [
  | inl e ↦ e
  | inr e ↦ ground (arith, is_under-starts prefix path e)
]

pub delete_prefix-cleared :
    (prefix path : Text) (objects : Objects)
    → IsCleared prefix objects path
    → get_object path (delete_prefix prefix objects) ≡ none
delete_prefix-cleared prefix path objects (begun e h) = delete_prefix-gone prefix path objects e h
delete_prefix-cleared prefix path objects (below h) = elim (Bool-cases (exists prefix objects)) [
  | inl e ↦
      unfold delete_prefix in
      rw e (get-dropped (λ p. not (is_under prefix p)) path objects (ap not h))
  | inr e ↦ delete_prefix-gone prefix path objects e (under-starts prefix path h)
]

get-keep_none :
    (test : Text → Bool) (path : Text) (objects : Objects)
    → get_object path objects ≡ none
    → get_object path (keep_objects test objects) ≡ none
get-keep_none test path objects h = elim (Bool-cases (test path)) [
  | inl e ↦ get-keep test path objects e ∙ h
  | inr e ↦ get-dropped test path objects e
]

pub delete_prefix-none :
    (prefix path : Text) (objects : Objects)
    → get_object path objects ≡ none
    → get_object path (delete_prefix prefix objects) ≡ none
unfolding delete_prefix
delete_prefix-none prefix path objects h = elim (Bool-cases (exists prefix objects)) [
  | inl e ↦ rw e (get-keep_none (λ p. not (is_under prefix p)) path objects h)
  | inr e ↦ rw e (get-keep_none (λ p. not (starts_with p prefix)) path objects h)
]

exists-keep :
    (test : Text → Bool) (q : Text) (objects : Objects)
    → exists q objects ≡ false
    → exists q (keep_objects test objects) ≡ false
unfolding exists keep_objects
exists-keep test q [] h = refl
exists-keep test q ((p, content) ∷ objects) h =
    let rest : exists q objects ≡ false = ground arith in
    ground (arith, exists-keep test q objects rest)

-- What another deletion leaves is cleared as before.
pub delete_prefix-IsCleared :
    (prefix other path : Text) (objects : Objects)
    → IsCleared prefix objects path
    → IsCleared prefix (delete_prefix other objects) path
delete_prefix-IsCleared prefix other path objects (below h) = below h
delete_prefix-IsCleared prefix other path objects (begun e h) = begun (kept e) h
  where
    kept : exists prefix objects ≡ false → exists prefix (delete_prefix other objects) ≡ false
    kept e = elim (Bool-cases (exists other objects)) [
      | inl f ↦
          unfold delete_prefix in rw f (exists-keep (λ p. not (is_under other p)) prefix objects e)
      | inr f ↦
          unfold delete_prefix in
          rw f (exists-keep (λ p. not (starts_with p other)) prefix objects e)
    ]
