-- ===== src/Run/InMemory/Laws.antt =====
-- The in-memory repository as an instance of the interface.
use agentic_substrate.Prelude.{
  ℕ, ◌==◌, ◌≡◌, ◌≢◌, refl, false, Option, none, some, String, arith, ==_refl, Bool-cases, inl, inr,
}
use agentic_substrate.Run.Entity.{
  is_terminal, DataSourceRun, record_document_indexed, record_document_failed,
}
use agentic_substrate.Run.Repository.{Counts, RunRepository, basic_item}
use agentic_substrate.Run.InMemory.{
  RunTable, find, store_at, count_run, count_indexed, read_item, count_failed,
}

ne_test : (j id : ℕ) → j ≢ id → (j == id) ≡ false
ne_test j id h = ground arith

pub store_at_self : (t : RunTable) (id : ℕ) (r : DataSourceRun) → store_at t id r id ≡ some r
unfolding store_at
store_at_self t id r = rw (==_refl id)

pub store_at_ne : (t : RunTable) (id j : ℕ) (r : DataSourceRun) → j ≢ id → store_at t id r j ≡ t j
unfolding store_at
store_at_ne t id j r h = rw (ne_test j id h)

count_run_others :
    (count : DataSourceRun → DataSourceRun) (t : RunTable) (id j : ℕ) (o : Option DataSourceRun)
    → j ≢ id
    → find (count_run count t id o).1 j ≡ find t j
unfolding count_run
count_run_others count t id j none h = refl
count_run_others count t id j (some r) h = elim (Bool-cases (is_terminal r.status)) [
  | inl e ↦ rw e
  | inr e ↦ rw e (store_at_ne t id j (count r) h)
]

count_run-Counts :
    (count : DataSourceRun → DataSourceRun)
    → Counts find (λ t id. count_run count t id (t id)) count
unfolding count_run
count_run-Counts count = record {
  live = λ t id r e l n. rw (e, l) (refl, store_at_self t id (count r));
  ended = λ t id r e l. rw (e, l) (refl, e);
  missing = λ t id e. rw e (refl, e);
  others = λ t id j h. count_run_others count t id j (t id) h;
}

pub count_indexed-Counts : (now : ℕ) → Counts find (count_indexed now) (record_document_indexed now)
unfolding count_indexed
count_indexed-Counts now = count_run-Counts (record_document_indexed now)

pub count_failed-Counts :
    (now doc : ℕ) (file_name error : String)
    → Counts find
        (count_failed now (basic_item doc file_name error))
        (λ r. record_document_failed now r (basic_item doc file_name error))
unfolding count_failed read_item basic_item
count_failed-Counts now doc file_name error =
    count_run-Counts (λ r. record_document_failed now r (basic_item doc file_name error))

-- The in-memory repository.
abbrev pub in_memory : RunRepository
in_memory = record {
  Table = RunTable;
  find = find;
  count_indexed = count_indexed;
  count_failed = count_failed;
  indexed_law = count_indexed-Counts;
  failed_law = count_failed-Counts;
}
