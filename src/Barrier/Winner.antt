-- ===== src/Barrier/Winner.antt =====
-- The workers that win the barrier, when the commands of several are mixed.
use agentic_substrate.Prelude.{
  ℕ, suc, ◌+◌, ◌<◌, ◌≤◌, ◌==◌, ◌≡◌, ◌≢◌, refl, ◌∙◌, ap, Option, none, some, List, [], ◌∷◌, String,
  length, leb, if◌then◌else◌, arith, Bool-cases, subst, inl, inr,
}
use agentic_substrate.Barrier.{
  get_field, get_or, Redis, init_barrier, increment, check_total, get_progress, progress_in,
  Meeting, Action, increments, checks, take_answer, skip_answer, act, check_answer, meet,
}

total≢completed : ◌≢◌ {A = String} "total" "completed"
total≢completed e = cc

-- How many of the workers in between got the answer `n`.
unfoldable pub hits : ℕ → List (ℕ × ℕ) → ℕ
hits n [] = 0
hits n ((worker, c) ∷ between) = (if c == n then 1 else 0) + hits n between

unfoldable pub increments_in : List Action → ℕ
increments_in [] = 0
increments_in (increments worker ∷ actions) = suc (increments_in actions)
increments_in (checks worker ∷ actions) = increments_in actions

-- Taking an answer out takes its hit out.
abbrev HitsTaken : ℕ → List (ℕ × ℕ) → Option (ℕ × List (ℕ × ℕ)) → Type 0
HitsTaken n between none = Unit
HitsTaken n between (some (c, rest)) = hits n between ≡ (if c == n then 1 else 0) + hits n rest

HitsTaken-skip :
    (n v c : ℕ) (between : List (ℕ × ℕ)) (o : Option (ℕ × List (ℕ × ℕ)))
    → HitsTaken n between o
    → HitsTaken n ((v, c) ∷ between) (skip_answer (v, c) o)
unfolding hits
HitsTaken-skip n v c between none h = tt
HitsTaken-skip n v c between (some (d, rest)) h = omega (arith, h)

take_answer-HitsTaken :
    (n worker : ℕ) (between : List (ℕ × ℕ)) → HitsTaken n between (take_answer worker between)
unfolding take_answer
take_answer-HitsTaken n worker [] = tt
take_answer-HitsTaken n worker ((v, c) ∷ between) = elim (Bool-cases (v == worker)) [
  | inl e ↦ rw e (unfold hits in refl)
  | inr e ↦ rw e (
      HitsTaken-skip n v c between (take_answer worker between)
        (take_answer-HitsTaken n worker between))
]

zero_add : (k : ℕ) → 0 + k ≡ k
zero_add k = omega arith

module _ (redis : Redis) (key : String) (n : ℕ) where
  -- After `k` increments: the counters, and one worker that has won or will win once `k` reaches `n`.
  pub record Gathers (m : Meeting redis) (k : ℕ) : Type 0 where
    pub total : redis.hget m.hashes key "total" ≡ some n
    pub completed : redis.hget m.hashes key "completed" ≡ some k
    pub won : hits n m.between + length m.winners ≡ (if leb n k then 1 else 0)

  increment-Gathers :
      (m : Meeting redis) (k worker : ℕ)
      → Gathers m k
      → Gathers (act redis key m (increments worker)) (suc k)
  unfolding act increment hits
  increment-Gathers m k worker g =
      let answer : (redis.hincrby m.hashes key "completed" 1).1 ≡ suc k =
        redis.hincrby_value m.hashes key "completed" 1
        ∙ ap (λ o. get_or o 0 + 1) g.completed
        ∙ omega arith in
      record {
        total =
            redis.hget-hincrby_other m.hashes key "completed" "total" 1 total≢completed ∙ g.total;
        completed = redis.hget-hincrby m.hashes key "completed" 1 ∙ ap some answer;
        won = rw answer (ground (arith, g.won));
      }

  check_answer-Gathers :
      (m : Meeting redis) (k worker : ℕ) (o : Option (ℕ × List (ℕ × ℕ)))
      → HitsTaken n m.between o
      → Gathers m k
      → Gathers (check_answer redis key m worker o) k
  unfolding check_total
  check_answer-Gathers m k worker none h g = g
  check_answer-Gathers m k worker (some (c, rest)) h g = record {
    total = g.total;
    completed = g.completed;
    won = rw g.total (ground (arith, h, g.won));
  }

  check-Gathers :
      (m : Meeting redis) (k worker : ℕ) → Gathers m k → Gathers (act redis key m (checks worker)) k
  unfolding act
  check-Gathers m k worker g =
      check_answer-Gathers m k worker (take_answer worker m.between)
        (take_answer-HitsTaken n worker m.between) g

  act-Gathers :
      (m : Meeting redis) (k : ℕ) (a : Action)
      → Gathers m k
      → Gathers (act redis key m a) (k + increments_in (a ∷ []))
  unfolding increments_in
  act-Gathers m k (increments worker) g =
      subst (Gathers (act redis key m (increments worker))) (omega arith)
        (increment-Gathers m k worker g)
  act-Gathers m k (checks worker) g =
      subst (Gathers (act redis key m (checks worker))) (omega arith) (check-Gathers m k worker g)

  meet-Gathers :
      (actions : List Action) (m : Meeting redis) (k : ℕ)
      → Gathers m k
      → Gathers (meet redis key m actions) (k + increments_in actions)
  unfolding meet increments_in
  meet-Gathers [] m k g = subst (Gathers m) (omega arith) g
  meet-Gathers (increments worker ∷ actions) m k g = subst (Gathers _) (omega arith) (
      meet-Gathers actions (act redis key m (increments worker)) _
        (act-Gathers m k (increments worker) g))
  meet-Gathers (checks worker ∷ actions) m k g =
      subst (Gathers _) (omega arith) (
        meet-Gathers actions (act redis key m (checks worker)) _
          (act-Gathers m k (checks worker) g))

  abbrev pub opened : redis.Hashes → ℕ → Meeting redis
  opened t ttl_seconds = record {
    hashes = init_barrier redis t key n ttl_seconds;
    between = [];
    winners = [];
  }

  opened-Gathers :
      (t : redis.Hashes) (ttl_seconds : ℕ)
      → 0 < ttl_seconds
      → 0 < n
      → Gathers (opened t ttl_seconds) 0
  unfolding init_barrier get_field hits
  opened-Gathers t ttl_seconds lives h = record {
    total = redis.hget-expire _ key key "total" ttl_seconds lives ∙ redis.hget-hset t key "total" _;
    completed =
        redis.hget-expire _ key key "completed" ttl_seconds lives
        ∙ redis.hget-hset t key "completed" _;
    won = ground arith;
  }

  progress_in_lem :
      (entries : List (String × ℕ)) (k : ℕ)
      → get_field "completed" entries ≡ some k
      → get_field "total" entries ≡ some n
      → progress_in redis entries ≡ (k, n)
  unfolding get_field
  progress_in_lem [] k c t = cc
  progress_in_lem (entry ∷ entries) k c t =
      ap (λ o. (get_or o 0, get_or (get_field "total" (entry ∷ entries)) 0)) c
      ∙ ap (λ o. (k, get_or o 0)) t

  -- From the opening of a barrier for `n` tasks, `n` not 0, with a time to live above 0, and for every
  -- sequence of the commands of any workers within that time: at most one call of
  -- `increment_and_check` has answered true; the calls that have, and those that got the answer `n`
  -- and have yet to check, are one if at least `n` increments were made, and none if fewer were; and
  -- the progress is the number of increments, of `n`.
  pub one_winner :
      0 < n
      → (t : redis.Hashes) (ttl_seconds : ℕ) (actions : List Action) → 0 < ttl_seconds
      → let m = meet redis key (opened t ttl_seconds) actions in
        (length m.winners ≤ 1)
        × (length m.winners + hits n m.between ≡ (if leb n (increments_in actions) then 1 else 0))
        × (get_progress redis m.hashes key ≡ (increments_in actions, n))
  unfolding get_progress
  one_winner some_tasks t ttl_seconds actions lives =
      let m = meet redis key (opened t ttl_seconds) actions in
      let g = subst (Gathers m) (zero_add (increments_in actions)) (
        meet-Gathers actions (opened t ttl_seconds) 0
          (opened-Gathers t ttl_seconds lives some_tasks)) in
      (
        ground (arith, g.won),
        omega (arith, g.won),
        progress_in_lem (redis.hgetall m.hashes key) (increments_in actions)
            (redis.get_field-hgetall m.hashes key "completed" ∙ g.completed)
            (redis.get_field-hgetall m.hashes key "total" ∙ g.total),
      )
