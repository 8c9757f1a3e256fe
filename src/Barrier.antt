-- ===== src/Barrier.antt =====
-- src/kernel/infrastructure/atomic_job_barrier.py: the barrier at which parallel workers meet, on a
-- hash of Redis. The values of the fields are decimal texts in Redis and numbers here.
pub mod Winner
use agentic_substrate.Prelude.{
  ℕ, ◌+◌, ◌<◌, ◌==◌, ◌≡◌, ◌≢◌, Bool, false, Option, none, some, List, [], ◌∷◌, String, str_eq,
  if◌then◌else◌,
}

-- `mapping.get(field)`
unfoldable pub get_field : String → List (String × ℕ) → Option ℕ
get_field f [] = none
get_field f ((g, n) ∷ mapping) =
    let rest = get_field f mapping in if str_eq g f then some n else rest

abbrev pub get_or : Option ℕ → ℕ → ℕ
get_or none n = n
get_or (some m) n = m

abbrev pub first_of : Option ℕ → Option ℕ → Option ℕ
first_of none o = o
first_of (some n) o = some n

-- The commands of Redis that the barrier sends, on the hashes as they are between two commands, and
-- what their documentation says of them: each is carried out as a whole, HINCRBY counts a missing
-- field as 0 and answers the new value, and a time to live above 0 takes nothing away before its end.
pub record Redis : Type 1 where
  pub Hashes : Type 0
  pub hset : Hashes → String → List (String × ℕ) → Hashes
  pub expire : Hashes → String → ℕ → Hashes
  pub hincrby : Hashes → String → String → ℕ → Hashes × ℕ
  pub hget : Hashes → String → String → Option ℕ
  pub hgetall : Hashes → String → List (String × ℕ)
  pub delete : Hashes → String → Hashes
  pub hget-hset :
      (t : Hashes) (key field : String) (mapping : List (String × ℕ))
      → hget (hset t key mapping) key field ≡ first_of (get_field field mapping) (hget t key field)
  pub hget-expire :
      (t : Hashes) (key other field : String) (seconds : ℕ)
      → 0 < seconds
      → hget (expire t key seconds) other field ≡ hget t other field
  pub hincrby_value :
      (t : Hashes) (key field : String) (n : ℕ)
      → (hincrby t key field n).1 ≡ get_or (hget t key field) 0 + n
  pub hget-hincrby :
      (t : Hashes) (key field : String) (n : ℕ)
      → hget (hincrby t key field n).0 key field ≡ some (hincrby t key field n).1
  pub hget-hincrby_other :
      (t : Hashes) (key field other : String) (n : ℕ)
      → other ≢ field
      → hget (hincrby t key field n).0 key other ≡ hget t key other
  pub get_field-hgetall :
      (t : Hashes) (key field : String) → get_field field (hgetall t key) ≡ hget t key field
  pub hget-delete : (t : Hashes) (key field : String) → hget (delete t key) key field ≡ none

module _ (redis : Redis) where
  open redis use {Hashes, hset, expire, hincrby, hget, hgetall, delete}

  -- `key` is what `_get_key` builds from the document and the step.
  unfoldable pub init_barrier : Hashes → String → (total_chunks ttl_seconds : ℕ) → Hashes
  init_barrier t key total_chunks ttl_seconds =
      expire (hset t key (("total", total_chunks) ∷ ("completed", 0) ∷ [])) key ttl_seconds

  -- The first command of `increment_and_check`, with the answer.
  unfoldable pub increment : Hashes → String → Hashes × ℕ
  increment t key = hincrby t key "completed" 1

  abbrev pub is_total : Option ℕ → ℕ → Bool
  is_total none completed = false
  is_total (some total) completed = completed == total

  -- The second command and the test, which may run after commands of other workers.
  unfoldable pub check_total : Hashes → String → ℕ → Bool
  check_total t key completed = is_total (hget t key "total") completed

  -- Both with nothing in between.
  unfoldable pub increment_and_check : Hashes → String → Hashes × Bool
  unfolding increment check_total
  increment_and_check t key =
      let (t', completed) = increment t key in (t', check_total t' key completed)

  unfoldable pub increment_and_status : Hashes → String → Hashes × (Bool × ℕ × ℕ)
  unfolding increment check_total
  increment_and_status t key =
      let (t', completed) = increment t key in
      (t', (check_total t' key completed, completed, get_or (hget t' key "total") 0))

  abbrev pub progress_in : List (String × ℕ) → ℕ × ℕ
  progress_in [] = (0, 0)
  progress_in (entry ∷ entries) = (
    get_or (get_field "completed" (entry ∷ entries)) 0,
    get_or (get_field "total" (entry ∷ entries)) 0,
  )

  unfoldable pub get_progress : Hashes → String → ℕ × ℕ
  unfolding get_field
  get_progress t key = progress_in (hgetall t key)

  unfoldable pub reset : Hashes → String → Hashes
  reset t key = delete t key

  -- The workers between their two commands, with the answer that each got, and those to which
  -- `increment_and_check` has returned true.
  pub record Meeting : Type 0 where
    pub hashes : Hashes
    pub between : List (ℕ × ℕ)
    pub winners : List ℕ

pub data Action : Type 0 where
  increments checks : (worker : ℕ) → Action

abbrev pub skip_answer : ℕ × ℕ → Option (ℕ × List (ℕ × ℕ)) → Option (ℕ × List (ℕ × ℕ))
skip_answer entry none = none
skip_answer entry (some (c, rest)) = some (c, entry ∷ rest)

-- The answer that a worker got, and those of the others.
unfoldable pub take_answer : ℕ → List (ℕ × ℕ) → Option (ℕ × List (ℕ × ℕ))
take_answer worker [] = none
take_answer worker ((v, c) ∷ between) =
    let later = skip_answer (v, c) (take_answer worker between) in
    if v == worker then some (c, between) else later

module _ (redis : Redis) (key : String) where
  abbrev pub check_answer : Meeting redis → ℕ → Option (ℕ × List (ℕ × ℕ)) → Meeting redis
  check_answer m worker none = m
  check_answer m worker (some (c, rest)) = record m {
    between = rest;
    winners = if check_total redis m.hashes key c then worker ∷ m.winners else m.winners;
  }

  -- One command of a worker; a worker that has not incremented has nothing to check.
  unfoldable pub act : Meeting redis → Action → Meeting redis
  unfolding increment check_total take_answer
  act m (increments worker) =
      let (hashes, completed) = increment redis m.hashes key in
      record m { hashes = hashes; between = (worker, completed) ∷ m.between }
  act m (checks worker) = check_answer m worker (take_answer worker m.between)

  -- The commands of all workers in the order in which Redis carries them out.
  unfoldable pub meet : Meeting redis → List Action → Meeting redis
  unfolding act
  meet m [] = m
  meet m (a ∷ actions) = meet (act m a) actions
