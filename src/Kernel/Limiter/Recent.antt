-- ===== src/Kernel/Limiter/Recent.antt =====
-- The grants of a window, and what purging leaves of them.
use agentic_substrate.Prelude.{
  ℕ, suc, ◌+◌, ◌-◌, ◌<◌, ◌≤◌, ◌≡◌, refl, ap, true, false, List, [], ◌∷◌, ◌++◌, ltb, leb,
  if◌then◌else◌, length, arith, map, Bool-cases, inl, inr,
}
use agentic_substrate.Kernel.Limiter.{purge_requests, purge_tokens}

-- The grants of the window that ends at `now`.
unfoldable pub recent : (now window : ℕ) → List (ℕ × ℕ) → List (ℕ × ℕ)
recent now window [] = []
recent now window ((t, n) ∷ grants) =
    let rest = recent now window grants in if ltb now (t + window) then (t, n) ∷ rest else rest

unfoldable pub tokens_of : List (ℕ × ℕ) → ℕ
tokens_of [] = 0
tokens_of ((t, n) ∷ grants) = n + tokens_of grants

abbrev pub time_of : ℕ × ℕ → ℕ
time_of (t, n) = t

-- Times from `lo` to `hi`, in order.
abbrev pub Ordered : (lo hi : ℕ) → List (ℕ × ℕ) → Type 0
Ordered lo hi [] = lo ≤ hi
Ordered lo hi ((t, n) ∷ grants) = (lo ≤ t) × Ordered t hi grants

pub Ordered-lower :
    (lo mid hi : ℕ) (es : List (ℕ × ℕ)) → lo ≤ mid → Ordered mid hi es → Ordered lo hi es
Ordered-lower lo mid hi [] h o = omega arith
Ordered-lower lo mid hi ((t, n) ∷ es) h o = (omega (arith, o.0), o.1)

pub Ordered-snoc :
    (lo hi now n : ℕ) (es : List (ℕ × ℕ))
    → hi ≤ now
    → Ordered lo hi es
    → Ordered lo now (es ++ (now, n) ∷ [])
Ordered-snoc lo hi now n [] h o = (omega arith, omega arith)
Ordered-snoc lo hi now n ((t, k) ∷ es) h o = (o.0, Ordered-snoc t hi now n es h o.1)

pub Ordered-raise :
    (lo hi now : ℕ) (es : List (ℕ × ℕ)) → hi ≤ now → Ordered lo hi es → Ordered lo now es
Ordered-raise lo hi now [] h o = omega arith
Ordered-raise lo hi now ((t, k) ∷ es) h o = (o.0, Ordered-raise t hi now es h o.1)

pub tokens_of-append : (xs ys : List (ℕ × ℕ)) → tokens_of (xs ++ ys) ≡ tokens_of xs + tokens_of ys
unfolding tokens_of
tokens_of-append [] ys = omega arith
tokens_of-append ((t, n) ∷ xs) ys = omega (arith, tokens_of-append xs ys)

pub tokens_of-one : (t n : ℕ) → tokens_of ((t, n) ∷ []) ≡ n
unfolding tokens_of
tokens_of-one t n = omega arith

pub recent-now : (now window n : ℕ) → 0 < window → recent now window ((now, n) ∷ []) ≡ (now, n) ∷ []
unfolding recent
recent-now now window n h = ground arith

module _ (now window : ℕ) where
  -- Within a window's time of an ordered list's start, all of it is recent.
  recent-all :
      (lo hi : ℕ) (es : List (ℕ × ℕ))
      → Ordered lo hi es
      → now < lo + window
      → recent now window es ≡ es
  unfolding recent
  recent-all lo hi [] o h = refl
  recent-all lo hi ((t, n) ∷ es) o h = ground (arith, recent-all t hi es o.1)

  old_test : (t : ℕ) → leb window (now - t) ≡ true → 0 < window → ltb now (t + window) ≡ false
  old_test t h w = ground arith

  young_test : (t : ℕ) → leb window (now - t) ≡ false → 0 < window → ltb now (t + window) ≡ true
  young_test t h w = ground arith

  young_lt : (t : ℕ) → leb window (now - t) ≡ false → now < t + window
  young_lt t h = ground arith

  give_back : (n m : ℕ) → n + m - n ≡ m
  give_back n m = omega arith

  -- Purging leaves the recent grants, and their tokens.
  pub purge_tokens-eq :
      (lo hi : ℕ) (es : List (ℕ × ℕ))
      → 0 < window
      → Ordered lo hi es
      → purge_tokens now window es (tokens_of es)
        ≡ (recent now window es, tokens_of (recent now window es))
  unfolding purge_tokens recent tokens_of
  purge_tokens-eq lo hi [] w o = refl
  purge_tokens-eq lo hi ((t, n) ∷ es) w o = elim (Bool-cases (leb window (now - t))) [
    | inl old ↦ rw (old, old_test t old w, give_back) (purge_tokens-eq t hi es w o.1)
    | inr young ↦ rw (young, young_test t young w, recent-all t hi es o.1 (young_lt t young))
  ]

  pub purge_requests-eq :
      (lo hi : ℕ) (es : List (ℕ × ℕ))
      → 0 < window
      → Ordered lo hi es
      → purge_requests now window (map time_of es) ≡ map time_of (recent now window es)
  unfolding purge_requests recent
  purge_requests-eq lo hi [] w o = refl
  purge_requests-eq lo hi ((t, n) ∷ es) w o = elim (Bool-cases (leb window (now - t))) [
    | inl old ↦ rw (old, old_test t old w) (purge_requests-eq t hi es w o.1)
    | inr young ↦ rw (young, young_test t young w, recent-all t hi es o.1 (young_lt t young))
  ]

  pub recent-append :
      (xs ys : List (ℕ × ℕ))
      → recent now window (xs ++ ys) ≡ recent now window xs ++ recent now window ys
  unfolding recent
  recent-append [] ys = refl
  recent-append ((t, n) ∷ xs) ys = ground (arith, recent-append xs ys)

  -- What is recent later was recent earlier.
  pub recent-recent :
      (before : ℕ) (es : List (ℕ × ℕ))
      → before ≤ now
      → recent now window (recent before window es) ≡ recent now window es
  unfolding recent
  recent-recent before [] h = refl
  recent-recent before ((t, n) ∷ es) h = ground (arith, recent-recent before es h)

pub Ordered-recent :
    (now window lo hi : ℕ) (es : List (ℕ × ℕ))
    → Ordered lo hi es
    → Ordered lo hi (recent now window es)
unfolding recent
Ordered-recent now window lo hi [] o = o
Ordered-recent now window lo hi ((t, n) ∷ es) o = elim (Bool-cases (ltb now (t + window))) [
  | inl e ↦ rw e (o.0, Ordered-recent now window t hi es o.1)
  | inr e ↦ rw e (Ordered-lower lo t hi _ o.0 (Ordered-recent now window t hi es o.1))
]

pub length-recent-le :
    (now window : ℕ) (es : List (ℕ × ℕ)) → length (recent now window es) ≤ length es
unfolding recent
length-recent-le now window [] = omega arith
length-recent-le now window ((t, n) ∷ es) = ground (arith, length-recent-le now window es)

pub tokens-recent-le :
    (now window : ℕ) (es : List (ℕ × ℕ)) → tokens_of (recent now window es) ≤ tokens_of es
unfolding recent tokens_of
tokens-recent-le now window [] = omega arith
tokens-recent-le now window ((t, n) ∷ es) = ground (arith, tokens-recent-le now window es)

pub length-map_time : (es : List (ℕ × ℕ)) → length (map time_of es) ≡ length es
length-map_time [] = refl
length-map_time (e ∷ es) = ap suc (length-map_time es)
