-- ===== src/Sync/Retries.antt =====
-- The attempts of the two retry loops of `_process_item`.
use agentic_substrate.Prelude.{
  ℕ, zero, suc, ◌+◌, ◌≤◌, ◌<◌, ◌≡◌, refl, ◌⊎◌, inl, inr, Bool, true, false, String, arith,
  Bool-cases, subst, ap, ◌∙◌, if◌then◌else◌,
}
use agentic_substrate.Kernel.Result.{Result, ok, err, DomainError}
use agentic_substrate.Sync.Item.{
  Downloaded, download_from, AttachReply, settle, is_conflict, attach_from,
}

-- Whether the loops go on after a result.
abbrev pub goes_on : Result ℕ DomainError → Bool
goes_on (ok id) = false
goes_on (err e) = is_conflict e

-- Attempt `first + n` is the one at which a loop with `left` more attempts stops: `again` holds of
-- the results before it, and not of its own unless it is the last.
pub record StopsAt {R : Type 0} (again : R → Bool) (call : ℕ → R) (first left n : ℕ) : Type 0 where
  pub in_reach : n ≤ left
  pub before : (k : ℕ) → k < n → again (call (first + k)) ≡ true
  pub at_end : (n ≡ left) ⊎ (again (call (first + n)) ≡ false)

module _ {R : Type 0} (again : R → Bool) (call : ℕ → R) where
  stops_now : (first left : ℕ) → again (call first) ≡ false → StopsAt again call first left 0
  stops_now first left h = record {
    in_reach = omega arith;
    before = λ k lt. absurd (omega arith);
    at_end = inr (subst (λ m. again (call m) ≡ false) (omega arith) h);
  }

  stops_last : (first : ℕ) → StopsAt again call first 0 0
  stops_last first = record {
    in_reach = omega arith;
    before = λ k lt. absurd (omega arith);
    at_end = inl refl;
  }

  before_suc :
      (first n : ℕ)
      → again (call first) ≡ true
      → ((k : ℕ) → k < n → again (call (first + 1 + k)) ≡ true)
      → (k : ℕ) → k < suc n
      → again (call (first + k)) ≡ true
  before_suc first n h earlier zero lt = subst (λ m. again (call m) ≡ true) (omega arith) h
  before_suc first n h earlier (suc k) lt =
      subst (λ m. again (call m) ≡ true) (omega arith) (earlier k (omega arith))

  stops_later :
      (first left n : ℕ)
      → again (call first) ≡ true
      → StopsAt again call (first + 1) left n
      → StopsAt again call first (suc left) (suc n)
  stops_later first left n h s = record {
    in_reach = omega (arith, s.in_reach);
    before = before_suc first n h s.before;
    at_end = elim s.at_end [
      | inl e ↦ inl (omega arith)
      | inr e ↦ inr (subst (λ m. again (call m) ≡ false) (omega arith) e)
    ];
  }

attach_step :
    (r again : Result ℕ DomainError)
    → (elim r [ ok id ↦ ok id | err e ↦ if is_conflict e then again else err e ])
      ≡ (if goes_on r then again else r)
attach_step (ok id) again = refl
attach_step (err e) again = refl

attach_from-suc :
    (call : ℕ → AttachReply) (left first : ℕ)
    → attach_from call (suc left) first ≡ (
        if goes_on (settle (call first))
        then attach_from call left (first + 1)
        else settle (call first))
unfolding attach_from
attach_from-suc call left first =
    attach_step (settle (call first)) (attach_from call left (first + 1))

-- Attaching is tried again after a concurrency conflict and after nothing else, until the attempts
-- are used up: the result is that of the attempt at which this stops.
pub attach_from-StopsAt :
    (call : ℕ → AttachReply) (left first : ℕ)
    → (n : ℕ) × (attach_from call left first ≡ settle (call (first + n)))
      × StopsAt goes_on (λ k. settle (call k)) first left n
attach_from-StopsAt call zero first = (
  0,
  unfold attach_from in ap (λ m. settle (call m)) (omega arith),
  stops_last goes_on (λ k. settle (call k)) first,
)
attach_from-StopsAt call (suc left) first = elim (Bool-cases (goes_on (settle (call first)))) [
  | inl more ↦
      let (n, same, stops) = attach_from-StopsAt call left (first + 1) in
      (
        suc n,
        attach_from-suc call left first ∙ rw more (same ∙ ap (λ m. settle (call m)) (omega arith)),
        stops_later goes_on (λ k. settle (call k)) first left n more stops,
      )
  | inr done ↦ (
    0,
    attach_from-suc call left first ∙ rw done (ap (λ m. settle (call m)) (omega arith)),
    stops_now goes_on (λ k. settle (call k)) first (suc left) done,
  )
]

abbrev pub is_error : Result Downloaded String → Bool
is_error (ok d) = false
is_error (err e) = true

download_step :
    (r again : Result Downloaded String)
    → (elim r [ ok d ↦ ok d | err e ↦ again ]) ≡ (if is_error r then again else r)
download_step (ok d) again = refl
download_step (err e) again = refl

download_from-suc :
    (call : ℕ → Result Downloaded String) (left first : ℕ)
    → download_from call (suc left) first
      ≡ (if is_error (call first) then download_from call left (first + 1) else call first)
unfolding download_from
download_from-suc call left first = download_step (call first) (download_from call left (first + 1))

-- A download is tried again after every error until the attempts are used up: the result is that of
-- the attempt at which this stops.
pub download_from-StopsAt :
    (call : ℕ → Result Downloaded String) (left first : ℕ)
    → (n : ℕ) × (download_from call left first ≡ call (first + n))
      × StopsAt is_error call first left n
download_from-StopsAt call zero first =
    (0, unfold download_from in ap call (omega arith), stops_last is_error call first)
download_from-StopsAt call (suc left) first = elim (Bool-cases (is_error (call first))) [
  | inl more ↦
      let (n, same, stops) = download_from-StopsAt call left (first + 1) in
      (
        suc n,
        download_from-suc call left first ∙ rw more (same ∙ ap call (omega arith)),
        stops_later is_error call first left n more stops,
      )
  | inr done ↦ (
    0,
    download_from-suc call left first ∙ rw done (ap call (omega arith)),
    stops_now is_error call first (suc left) done,
  )
]
