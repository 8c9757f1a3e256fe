-- ===== src/Kernel/Limiter.antt =====
-- src/kernel/infrastructure/async_token_bucket_limiter.py. Times are natural numbers of
-- milliseconds of `time.monotonic()`.
pub mod Recent
pub mod Window
use agentic_substrate.Prelude.{
  ℕ, zero, ◌+◌, ◌-◌, max, min, Bool, true, false, ◌&&◌, Option, none, some, List, [], ◌∷◌, ◌++◌,
  ltb, leb, if◌then◌else◌, length,
}

pub record Limiter : Type 0 where
  pub max_rpm : ℕ
  pub max_tpm : ℕ
  pub window : ℕ
  pub requests : List ℕ
  pub token_events : List (ℕ × ℕ)
  pub current_tokens : ℕ

unfoldable pub new_limiter : (max_rpm max_tpm window : ℕ) → Limiter
new_limiter max_rpm max_tpm window = record {
  max_rpm = max 1 max_rpm;
  max_tpm = max 1 max_tpm;
  window = max 100 window;
  requests = [];
  token_events = [];
  current_tokens = 0;
}

-- The first `while` loop: requests out of the window leave from the left.
unfoldable pub purge_requests : (now window : ℕ) → List ℕ → List ℕ
purge_requests now window [] = []
purge_requests now window (t ∷ requests) =
    let rest = purge_requests now window requests in
    if leb window (now - t) then rest else t ∷ requests

-- The second loop, which gives their tokens back.
unfoldable pub purge_tokens : (now window : ℕ) → List (ℕ × ℕ) → ℕ → List (ℕ × ℕ) × ℕ
purge_tokens now window [] current = ([], current)
purge_tokens now window ((t, n) ∷ events) current =
    let rest = purge_tokens now window events (current - n) in
    if leb window (now - t) then rest else ((t, n) ∷ events, current)

unfoldable pub purge : ℕ → Limiter → Limiter
unfolding purge_requests purge_tokens
purge now l =
    let (events, current) = purge_tokens now l.window l.token_events l.current_tokens in
    record l {
      requests = purge_requests now l.window l.requests;
      token_events = events;
      current_tokens = current;
    }

-- `min(max(1, estimated_tokens), max_tpm)`
unfoldable pub clamp_tokens : Limiter → ℕ → ℕ
clamp_tokens l estimated_tokens = min (max 1 estimated_tokens) l.max_tpm

abbrev head_or : ℕ → List ℕ → ℕ
head_or now [] = now
head_or now (t ∷ ts) = t

abbrev event_or : ℕ → List (ℕ × ℕ) → ℕ
event_or now [] = now
event_or now ((t, n) ∷ es) = t

-- The time to sleep. `jitter` is the value of `random.uniform(0.01, 0.05)`.
unfoldable pub sleep_time : (now jitter : ℕ) → Limiter → ℕ
sleep_time now jitter l =
    max 10 (min (head_or now l.requests) (event_or now l.token_events) + l.window + jitter - now)

abbrev pub has_room : Limiter → ℕ → Bool
has_room l tokens = ltb (length l.requests) l.max_rpm && leb (l.current_tokens + tokens) l.max_tpm

unfoldable pub grant : ℕ → Limiter → ℕ → Limiter
grant now l tokens = record l {
  requests = l.requests ++ now ∷ [];
  token_events = l.token_events ++ (now, tokens) ∷ [];
  current_tokens = l.current_tokens + tokens;
}

-- One round of `acquire`, as it runs under the lock: the limiter, and the time to sleep, or none if
-- the request is granted.
unfoldable pub attempt : (now jitter : ℕ) → Limiter → ℕ → Limiter × Option ℕ
unfolding purge sleep_time grant
attempt now jitter l tokens =
    let purged = purge now l in
    if has_room purged tokens
    then (grant now purged tokens, none)
    else (purged, some (sleep_time now jitter purged))

abbrev pub granted : Option ℕ → Bool
granted none = true
granted (some t) = false

abbrev go_on : Limiter × Option ℕ → (Limiter → Limiter × Bool) → Limiter × Bool
go_on (l, none) k = (l, true)
go_on (l, some t) k = k l

-- `acquire`, woken up at the given times, each with its jitter; whether it was granted by then.
unfoldable pub acquire : List (ℕ × ℕ) → Limiter → ℕ → Limiter × Bool
unfolding attempt clamp_tokens
acquire [] l estimated_tokens = (l, false)
acquire ((now, jitter) ∷ wakes) l estimated_tokens =
    go_on (attempt now jitter l (clamp_tokens l estimated_tokens))
      (λ l'. acquire wakes l' estimated_tokens)
