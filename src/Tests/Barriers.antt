-- ===== src/Tests/Barriers.antt =====
-- Tests of the barrier, on hashes that are lists of fields.
use agentic_substrate.Prelude.{
  ℕ, ◌+◌, ◌≤◌, ◌<◌, ◌==◌, ◌≡◌, ◌≢◌, refl, false, none, some, List, [], ◌∷◌, ◌++◌, String, str_eq,
  eq_iff, eq_refl, if◌then◌else◌, length, leb, arith,
}
use agentic_substrate.Barrier.{
  init_barrier, Redis, get_field, get_or, first_of, Action, increments, checks, meet, get_progress,
}
use agentic_substrate.Barrier.Winner.{opened, hits, increments_in, one_winner}

abbrev Fields : Type 0
Fields = String → List (String × ℕ)

set_fields : Fields → String → List (String × ℕ) → Fields
set_fields t key fields = λ j. if str_eq j key then fields else t j

set_fields-same :
    (t : Fields) (key : String) (fields : List (String × ℕ)) → set_fields t key fields key ≡ fields
unfolding set_fields
set_fields-same t key fields = rw eq_refl refl

get_field-append :
    (f : String) (xs ys : List (String × ℕ))
    → get_field f (xs ++ ys) ≡ first_of (get_field f xs) (get_field f ys)
unfolding get_field
get_field-append f [] ys = refl
get_field-append f ((g, n) ∷ xs) ys = ground (arith, get_field-append f xs ys)

get_field-head : (f : String) (n : ℕ) (xs : List (String × ℕ)) → get_field f ((f, n) ∷ xs) ≡ some n
unfolding get_field
get_field-head f n xs = rw eq_refl refl

get_field-tail :
    (f g : String) (n : ℕ) (xs : List (String × ℕ))
    → g ≢ f
    → get_field g ((f, n) ∷ xs) ≡ get_field g xs
unfolding get_field
get_field-tail f g n xs h = ground (arith, eq_iff f g)

get_field-nil : (f : String) → get_field f [] ≡ none
unfolding get_field
get_field-nil f = refl

expire_kept :
    (t : Fields) (key other f : String) (seconds : ℕ)
    → 0 < seconds
    → get_field f ((if seconds == 0 then set_fields t key [] else t) other) ≡ get_field f (t other)
expire_kept t key other f seconds h =
    let some_time : (seconds == 0) ≡ false = ground arith in rw some_time refl

-- A time to live of 0 takes the key away at once.
abbrev listed : Redis
listed = record {
  Hashes = Fields;
  hset = λ t key mapping. set_fields t key (mapping ++ t key);
  expire = λ t key seconds. if seconds == 0 then set_fields t key [] else t;
  hincrby = λ t key f n. (
    set_fields t key ((f, get_or (get_field f (t key)) 0 + n) ∷ t key),
    get_or (get_field f (t key)) 0 + n,
  );
  hget = λ t key f. get_field f (t key);
  hgetall = λ t key. t key;
  delete = λ t key. set_fields t key [];
  hget-hset = λ t key f mapping. rw set_fields-same (get_field-append f mapping (t key));
  hget-expire = λ t key other f seconds h. expire_kept t key other f seconds h;
  hincrby_value = λ t key f n. refl;
  hget-hincrby = λ t key f n. rw set_fields-same (get_field-head f _ (t key));
  hget-hincrby_other = λ t key f g n h. rw set_fields-same (get_field-tail f g _ (t key) h);
  get_field-hgetall = λ t key f. refl;
  hget-delete = λ t key f. rw set_fields-same (get_field-nil f);
}

-- The second worker increments before the first has checked.
abbrev mixed : List Action
mixed = increments 1 ∷ increments 2 ∷ checks 1 ∷ checks 2 ∷ []

second_wins :
    (meet listed "barrier" (opened listed "barrier" 2 (λ key. []) 60) mixed).winners ≡ 2 ∷ []
unfolding meet set_fields get_field init_barrier
second_wins = refl

one_winner_example :
    let m = meet listed "barrier" (opened listed "barrier" 2 (λ key. []) 60) mixed in
    (length m.winners ≤ 1)
    × (length m.winners + hits 2 m.between ≡ (if leb 2 (increments_in mixed) then 1 else 0))
    × (get_progress listed m.hashes "barrier" ≡ (increments_in mixed, 2))
one_winner_example = one_winner listed "barrier" 2 (omega arith) (λ key. []) 60 mixed (omega arith)
