-- ===== src/Tests/Limiters.antt =====
-- Tests of the limiter.
use agentic_substrate.Prelude.{ℕ, ◌≤◌, ◌≡◌, refl, true, none, some, List, [], ◌∷◌, length, arith}
use agentic_substrate.Kernel.Limiter.{Limiter, new_limiter, clamp_tokens, attempt, acquire}
use agentic_substrate.Kernel.Limiter.Recent.{recent, tokens_of}
use agentic_substrate.Kernel.Limiter.Window.{
  History, created, tried, grants_after, window_limits, attempt-after_window,
}

-- One request a window, which is 100 long.
abbrev start : Limiter
start = new_limiter 1 50 100

abbrev after_one : Limiter
after_one = (attempt 7 10 start (clamp_tokens start 20)).0

one_granted : (attempt 7 10 start (clamp_tokens start 20)).1 ≡ none
unfolding attempt clamp_tokens new_limiter
one_granted = refl

abbrev one : List (ℕ × ℕ)
one = grants_after [] 7 (clamp_tokens start 20) (attempt 7 10 start (clamp_tokens start 20)).1

one_past : History 1 50 100 after_one one 7
one_past = tried 7 10 20 created (omega arith)

one_waits : (attempt 30 10 after_one (clamp_tokens after_one 20)).1 ≡ some 87
unfolding attempt clamp_tokens new_limiter
one_waits = refl

one_acquires : (acquire ((30, 10) ∷ (117, 10) ∷ []) after_one 20).1 ≡ true
unfolding acquire attempt clamp_tokens new_limiter
one_acquires = refl

window_limits_example :
    (length (recent 7 after_one.window one) ≤ after_one.max_rpm)
    × (tokens_of (recent 7 after_one.window one) ≤ after_one.max_tpm)
window_limits_example = window_limits one_past

one_old : recent 110 after_one.window one ≡ []
unfolding recent attempt clamp_tokens new_limiter
one_old = refl

attempt-after_window_example : (attempt 110 10 after_one (clamp_tokens after_one 70)).1 ≡ none
attempt-after_window_example = attempt-after_window 110 10 70 one_past (omega arith) one_old
