-- ===== src/Kernel/Limiter/Window.antt =====
-- The limiter along its history: what it holds of its grants, and how many lie in a window.
use agentic_substrate.Prelude.{
  ℕ, ◌+◌, ◌<◌, ◌≤◌, ◌≡◌, refl, ◌∙◌, ap, sym, true, Option, none, some, List, [], ◌∷◌, ◌++◌, length,
  length-append, arith, map, Bool-cases, inl, inr,
}
use mathlib.Core.List.{map-append}
use agentic_substrate.Kernel.Limiter.{
  Limiter, new_limiter, purge_requests, purge_tokens, purge, clamp_tokens, grant, attempt, has_room,
}
use agentic_substrate.Kernel.Limiter.Recent.{
  recent, tokens_of, time_of, Ordered, Ordered-snoc, Ordered-raise, tokens_of-append, tokens_of-one,
  recent-now, purge_tokens-eq, purge_requests-eq, recent-append, recent-recent, Ordered-recent,
  length-recent-le, tokens-recent-le, length-map_time,
}

-- The limiter at the time `now`, with `grants` all that it has granted.
pub record Tracks (l : Limiter) (grants : List (ℕ × ℕ)) (now : ℕ) : Type 0 where
  pub some_window : 0 < l.window
  pub some_rpm : 0 < l.max_rpm
  pub some_tpm : 0 < l.max_tpm
  pub ordered : Ordered 0 now grants
  pub events : l.token_events ≡ recent now l.window grants
  pub requests : l.requests ≡ map time_of l.token_events
  pub tokens : l.current_tokens ≡ tokens_of l.token_events
  pub rpm : length l.requests ≤ l.max_rpm
  pub tpm : l.current_tokens ≤ l.max_tpm

new_limiter-Tracks : (rpm tpm window : ℕ) → Tracks (new_limiter rpm tpm window) [] 0
unfolding new_limiter recent tokens_of
new_limiter-Tracks rpm tpm window = ground arith

module _ (l : Limiter) (grants : List (ℕ × ℕ)) (before now : ℕ) (h : Tracks l grants before)
    (later : before ≤ now) where
  events-Ordered : Ordered 0 before l.token_events
  events-Ordered = rw h.events (Ordered-recent before l.window 0 before grants h.ordered)

  purged_pair :
      purge_tokens now l.window l.token_events l.current_tokens
      ≡ (recent now l.window l.token_events, tokens_of (recent now l.window l.token_events))
  purged_pair =
      ap (purge_tokens now l.window l.token_events) h.tokens
      ∙ purge_tokens-eq now l.window 0 before l.token_events h.some_window events-Ordered

  purged_events : (purge now l).token_events ≡ recent now l.window l.token_events
  unfolding purge
  purged_events = ap (λ (p : List (ℕ × ℕ) × ℕ). p.0) purged_pair

  purged_tokens : (purge now l).current_tokens ≡ tokens_of (recent now l.window l.token_events)
  unfolding purge
  purged_tokens = ap (λ (p : List (ℕ × ℕ) × ℕ). p.1) purged_pair

  purged_requests : (purge now l).requests ≡ map time_of (recent now l.window l.token_events)
  unfolding purge
  purged_requests =
      ap (purge_requests now l.window) h.requests
      ∙ purge_requests-eq now l.window 0 before l.token_events h.some_window events-Ordered

  purge-Tracks : Tracks (purge now l) grants now
  unfolding purge
  purge-Tracks = record {
    some_window = h.some_window;
    some_rpm = h.some_rpm;
    some_tpm = h.some_tpm;
    ordered = Ordered-raise 0 before now grants later h.ordered;
    events =
        purged_events
        ∙ ap (recent now l.window) h.events
        ∙ recent-recent now l.window before grants later;
    requests = purged_requests ∙ ap (map time_of) (sym purged_events);
    tokens = purged_tokens ∙ ap tokens_of (sym purged_events);
    rpm = omega (
      arith,
      ap length purged_requests,
      length-map_time (recent now l.window l.token_events),
      length-recent-le now l.window l.token_events,
      ap length h.requests,
      length-map_time l.token_events,
      h.rpm,
    );
    tpm =
        omega (arith, purged_tokens, tokens-recent-le now l.window l.token_events, h.tokens, h.tpm);
  }

module _ (now tokens : ℕ) (l : Limiter) (grants : List (ℕ × ℕ)) (h : Tracks l grants now) where
  grant-Tracks :
      length l.requests < l.max_rpm
      → l.current_tokens + tokens ≤ l.max_tpm
      → Tracks (grant now l tokens) (grants ++ (now, tokens) ∷ []) now
  unfolding grant
  grant-Tracks more_requests more_tokens = record {
    some_window = h.some_window;
    some_rpm = h.some_rpm;
    some_tpm = h.some_tpm;
    ordered = Ordered-snoc 0 now now tokens grants (omega arith) h.ordered;
    events =
        ap (λ es. es ++ (now, tokens) ∷ []) h.events
        ∙ sym (
            recent-append now l.window grants ((now, tokens) ∷ [])
            ∙ ap (λ es. recent now l.window grants ++ es)
                (recent-now now l.window tokens h.some_window));
    requests = ap (λ ts. ts ++ now ∷ []) h.requests ∙ sym (map-append time_of l.token_events _);
    tokens = omega (
      arith,
      h.tokens,
      tokens_of-append l.token_events ((now, tokens) ∷ []),
      tokens_of-one now tokens,
    );
    rpm = omega (arith, length-append l.requests (now ∷ []));
    tpm = more_tokens;
  }

-- The grants, with the one of this attempt if it succeeds.
abbrev pub grants_after : List (ℕ × ℕ) → ℕ → ℕ → Option ℕ → List (ℕ × ℕ)
grants_after grants now tokens none = grants ++ (now, tokens) ∷ []
grants_after grants now tokens (some t) = grants

attempt-Tracks :
    (l : Limiter) (grants : List (ℕ × ℕ)) (before now jitter tokens : ℕ)
    → Tracks l grants before
    → before ≤ now
    → Tracks
        (attempt now jitter l tokens).0
        (grants_after grants now tokens (attempt now jitter l tokens).1)
        now
unfolding attempt
attempt-Tracks l grants before now jitter tokens h later =
    let p = purge-Tracks l grants before now h later in
    elim (Bool-cases (has_room (purge now l) tokens)) [
      | inl room ↦
          rw room (grant-Tracks now tokens (purge now l) grants p (ground arith) (ground arith))
      | inr full ↦ rw full p
    ]

-- The limiter from its creation on, through rounds of `acquire` by any tasks at times that do not
-- go back, with what has been granted so far and the time of the last round.
pub data History (max_rpm max_tpm window : ℕ) : Limiter → List (ℕ × ℕ) → ℕ → Type 0 where
  created : History max_rpm max_tpm window (new_limiter max_rpm max_tpm window) [] 0
  tried :
      {l : Limiter} {grants : List (ℕ × ℕ)} {before : ℕ} (now jitter estimated_tokens : ℕ)
      → History max_rpm max_tpm window l grants before
      → before ≤ now
      → History max_rpm max_tpm window
          (attempt now jitter l (clamp_tokens l estimated_tokens)).0
          (grants_after grants now
            (clamp_tokens l estimated_tokens)
            (attempt now jitter l (clamp_tokens l estimated_tokens)).1)
          now

History-Tracks :
    {rpm tpm window : ℕ} {l : Limiter} {grants : List (ℕ × ℕ)} {now : ℕ}
    → History rpm tpm window l grants now
    → Tracks l grants now
History-Tracks {rpm} {tpm} {window} created = new_limiter-Tracks rpm tpm window
History-Tracks (tried {l = l} {grants = grants} {before = before} now jitter estimated past later) =
    attempt-Tracks l grants before now jitter (clamp_tokens l estimated) (History-Tracks past) later

-- After every round of every sequence of rounds from the creation of the limiter, at times that do
-- not go back and for whatever estimates: at most `max_rpm` grants lie in the window that ends
-- then, and their tokens are at most `max_tpm`.
pub window_limits :
    {rpm tpm window : ℕ} {l : Limiter} {grants : List (ℕ × ℕ)} {now : ℕ}
    → History rpm tpm window l grants now
    → (length (recent now l.window grants) ≤ l.max_rpm)
      × (tokens_of (recent now l.window grants) ≤ l.max_tpm)
window_limits {l} {grants} {now} past =
    let h = History-Tracks past in
    (
      omega
          (arith, h.rpm, ap length h.requests, length-map_time l.token_events, ap length h.events),
      omega (arith, h.tpm, h.tokens, ap tokens_of h.events),
    )

clamp_tokens-le : (l : Limiter) (estimated : ℕ) → clamp_tokens l estimated ≤ l.max_tpm
unfolding clamp_tokens
clamp_tokens-le l estimated = ground arith

room-has_room :
    (l : Limiter) (tokens : ℕ)
    → length l.requests < l.max_rpm
    → l.current_tokens + tokens ≤ l.max_tpm
    → has_room l tokens ≡ true
room-has_room l tokens r t = ground arith

-- Along every sequence of rounds from the creation of the limiter, at times that do not go back, a
-- round at which every grant is out of the window succeeds, at whatever estimate.
pub attempt-after_window :
    {rpm tpm window : ℕ} {l : Limiter} {grants : List (ℕ × ℕ)} {before : ℕ}
    (now jitter estimated_tokens : ℕ)
    → History rpm tpm window l grants before
    → before ≤ now
    → recent now l.window grants ≡ []
    → (attempt now jitter l (clamp_tokens l estimated_tokens)).1 ≡ none
unfolding attempt tokens_of
attempt-after_window {l} {grants} {before} now jitter estimated past later old =
    let p = purge-Tracks l grants before now (History-Tracks past) later in
    let none_left = p.events ∙ old in
    rw
      (room-has_room (purge now l) (clamp_tokens l estimated)
        (omega (
          arith,
          ap length p.requests,
          length-map_time (purge now l).token_events,
          ap length none_left,
          p.some_rpm,
        ))
        (omega (arith, p.tokens, ap tokens_of none_left, clamp_tokens-le l estimated)))
      refl
