-- ===== src/Kernel/PostgresStore.antt =====
-- src/kernel/infrastructure/postgres_event_store.py: two tables. `event_streams` has the version of
-- each aggregate, and `domain_events` a row for each event. A transaction that raises changes
-- neither.
pub mod Refinement
use agentic_substrate.Prelude.{
  ℕ, suc, ◌+◌, ◌==◌, leb, if◌then◌else◌, Option, none, some, List, [], ◌∷◌, ◌++◌, length, map,
}
use agentic_substrate.Kernel.Result.{Result, ok, err, DomainError}
use agentic_substrate.Kernel.Event.{Event}
use agentic_substrate.Kernel.EventStore.{concurrency_conflict, number_from}

-- A row of `domain_events`: the columns `aggregate_id` and `payload`. The column `event_version` is
-- the event's.
pub record Row (E : Type 0) : Type 0 where
  pub aggregate_id : ℕ
  pub event : Event E

pub record PostgresStore (E : Type 0) : Type 0 where
  pub event_streams : ℕ → Option ℕ
  pub domain_events : List (Row E)

abbrev pub version_or_zero : Option ℕ → ℕ
version_or_zero none = 0
version_or_zero (some n) = n

module _ {E : Type 0} where
  abbrev pub row_of : ℕ → Event E → Row E
  row_of id e = record { aggregate_id = id; event = e }

  -- The transaction of `append_events`, for at least one event.
  unfoldable pub append_some :
      PostgresStore E
      → ℕ
      → List (Event E)
      → ℕ
      → Result (PostgresStore E × List (Event E)) DomainError
  unfolding number_from
  append_some s id events expected_version =
      let current = version_or_zero (s.event_streams id) in
      let numbered = number_from current events in
      let committed : PostgresStore E = record {
        event_streams = λ j. if j == id then some (current + length events) else s.event_streams j;
        domain_events = s.domain_events ++ map (row_of id) numbered;
      } in
      if current == expected_version then ok (committed, numbered) else err concurrency_conflict

  unfoldable pub append_events :
      PostgresStore E
      → ℕ
      → List (Event E)
      → ℕ
      → Result (PostgresStore E × List (Event E)) DomainError
  unfolding append_some
  append_events s id [] expected_version = ok (s, [])
  append_events s id (e ∷ events) expected_version = append_some s id (e ∷ events) expected_version

  -- `WHERE aggregate_id = $1`
  unfoldable pub select_events : ℕ → List (Row E) → List (Event E)
  select_events id [] = []
  select_events id (r ∷ rows) =
      let rest = select_events id rows in if r.aggregate_id == id then r.event ∷ rest else rest

  unfoldable pub insert_by_version : Event E → List (Event E) → List (Event E)
  insert_by_version e [] = e ∷ []
  insert_by_version e (f ∷ events) =
      let further = f ∷ insert_by_version e events in
      if leb e.event_version f.event_version then e ∷ f ∷ events else further

  -- `ORDER BY event_version ASC`
  unfoldable pub order_by_version : List (Event E) → List (Event E)
  unfolding insert_by_version
  order_by_version [] = []
  order_by_version (e ∷ events) = insert_by_version e (order_by_version events)

  unfoldable pub get_events : PostgresStore E → ℕ → List (Event E)
  unfolding select_events order_by_version
  get_events s id = order_by_version (select_events id s.domain_events)
