-- ===== src/Run/Postgres/Laws.antt =====
-- The SQL against the entity, and the Postgres repository as an instance of the interface.
use agentic_substrate.Prelude.{
  ℕ, ◌<◌, ◌≡◌, ◌≢◌, refl, Option, none, some, String, arith, Bool-cases, inl, inr,
}
use agentic_substrate.Run.Entity.{
  is_terminal, FailureItem, DataSourceRun, record_document_indexed, record_document_failed,
}
use agentic_substrate.Run.Repository.{Counts, RunRepository, basic_item}
use agentic_substrate.Run.InMemory.{RunTable, find}
use agentic_substrate.Run.InMemory.Laws.{store_at_self, store_at_ne}
use agentic_substrate.Run.Postgres.{
  update_indexed, update_failed, update_where, count_indexed, count_failed,
}

pub update_indexed-eq :
    (now : ℕ) (r : DataSourceRun)
    → 0 < r.total_files_discovered
    → update_indexed now r ≡ record_document_indexed now r
unfolding update_indexed record_document_indexed
update_indexed-eq now r h = ground arith

pub update_failed-eq :
    (now : ℕ) (item : FailureItem) (r : DataSourceRun)
    → 0 < r.total_files_discovered
    → update_failed now item r ≡ record_document_failed now r item
unfolding update_failed record_document_failed
update_failed-eq now item r h = ground arith

update_where_others :
    (update : DataSourceRun → DataSourceRun) (t : RunTable) (id j : ℕ) (o : Option DataSourceRun)
    → j ≢ id
    → find (update_where update t id o).1 j ≡ find t j
unfolding update_where
update_where_others update t id j none h = refl
update_where_others update t id j (some r) h = elim (Bool-cases (is_terminal r.status)) [
  | inl e ↦ rw e
  | inr e ↦ rw e (store_at_ne t id j (update r) h)
]

-- An update that agrees with `count` on runs with files counts as `Counts` asks.
update_where-Counts :
    (update count : DataSourceRun → DataSourceRun)
    → ((r : DataSourceRun) → 0 < r.total_files_discovered → update r ≡ count r)
    → Counts find (λ t id. update_where update t id (t id)) count
unfolding update_where
update_where-Counts update count agree = record {
  live = λ t id r e l n. rw (e, l, agree r n) (refl, store_at_self t id (count r));
  ended = λ t id r e l. rw (e, l) (refl, e);
  missing = λ t id e. rw e (refl, e);
  others = λ t id j h. update_where_others update t id j (t id) h;
}

pub count_indexed-Counts : (now : ℕ) → Counts find (count_indexed now) (record_document_indexed now)
unfolding count_indexed
count_indexed-Counts now =
    update_where-Counts (update_indexed now) (record_document_indexed now) (update_indexed-eq now)

pub count_failed-Counts :
    (now doc : ℕ) (file_name error : String)
    → Counts find
        (count_failed now (basic_item doc file_name error))
        (λ r. record_document_failed now r (basic_item doc file_name error))
unfolding count_failed
count_failed-Counts now doc file_name error =
    let item = basic_item doc file_name error in
    update_where-Counts (update_failed now item) (λ r. record_document_failed now r item)
      (update_failed-eq now item)

-- The repository over Postgres.
abbrev pub postgres : RunRepository
postgres = record {
  Table = RunTable;
  find = find;
  count_indexed = count_indexed;
  count_failed = count_failed;
  indexed_law = count_indexed-Counts;
  failed_law = count_failed-Counts;
}
