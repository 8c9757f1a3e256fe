-- ===== src/UseCases/Watchdog.antt =====
-- src/modules/knowledge/application/workers/ingestion_watchdog.py, over the rows of the table
-- `attached_documents`. What other processes write meanwhile is an argument.
pub mod Leases
use agentic_substrate.Prelude.{
  ℕ, zero, suc, ◌+◌, Bool, true, false, ◌&&◌, ◌||◌, Option, none, some, List, [], ◌∷◌, ◌++◌, String,
  ltb, leb, ◌==◌, if◌then◌else◌,
}
use agentic_substrate.Kernel.Result.{Result, ok, err, DomainError}

-- The statuses of a row that the watchdog tells apart; `other` stands for the rest.
pub data RowStatus : Type 0 where
  uploaded parsed chunked recovering failed other : RowStatus

pub record AttachedRow : Type 0 where
  pub id : ℕ
  pub kb_id : ℕ
  pub status : RowStatus
  pub updated_at : ℕ
  pub recovery_attempt : ℕ
  pub error_step : Option String
  pub error_message : Option String

abbrev pub Table : Type 0
Table = List AttachedRow

unfoldable pub same_status : RowStatus → RowStatus → Bool
same_status uploaded uploaded = true
same_status parsed parsed = true
same_status chunked chunked = true
same_status recovering recovering = true
same_status failed failed = true
same_status other other = true
same_status _ _ = false

unfoldable pub in_progress : RowStatus → Bool
in_progress uploaded = true
in_progress parsed = true
in_progress chunked = true
in_progress _ = false

unfoldable pub take_rows : ℕ → List AttachedRow → List AttachedRow
take_rows zero rows = []
take_rows (suc n) [] = []
take_rows (suc n) (row ∷ rows) = row ∷ take_rows n rows

unfoldable pub insert_row : AttachedRow → List AttachedRow → List AttachedRow
insert_row row [] = row ∷ []
insert_row row (r ∷ rows) =
    let rest = insert_row row rows in
    if leb row.updated_at r.updated_at then row ∷ r ∷ rows else r ∷ rest

-- The settings of a watchdog, the threshold in the unit of the times.
pub record IngestionWatchdog : Type 0 where
  pub max_attempts : ℕ
  pub threshold : ℕ

module _ (watchdog : IngestionWatchdog) where
  unfoldable pub is_stale : ℕ → AttachedRow → Bool
  unfolding in_progress
  is_stale now row =
      in_progress row.status
      && ltb (row.updated_at + watchdog.threshold) now
      && ltb row.recovery_attempt watchdog.max_attempts

  -- The stale rows in the order of their times.
  unfoldable pub stale_rows : ℕ → Table → List AttachedRow
  unfolding is_stale insert_row
  stale_rows now [] = []
  stale_rows now (row ∷ rows) =
      let rest = stale_rows now rows in if is_stale now row then insert_row row rest else rest

  -- `select_query`
  unfoldable pub select_stale : ℕ → Table → List AttachedRow
  unfolding stale_rows take_rows
  select_stale now table = take_rows 50 (stale_rows now table)

-- `WHERE id = $1 AND status = $2 AND updated_at = $3`
unfoldable pub is_leasable : AttachedRow → AttachedRow → Bool
unfolding same_status
is_leasable row r =
    r.id == row.id && same_status r.status row.status && r.updated_at == row.updated_at

abbrev leased : ℕ → AttachedRow → AttachedRow
leased now r = record r {
  status = recovering;
  recovery_attempt = r.recovery_attempt + 1;
  updated_at = now;
}

-- `lease_query` for a row as it was selected: the table, and whether a row is returned.
unfoldable pub lease : ℕ → AttachedRow → Table → Bool × Table
unfolding is_leasable
lease now row [] = (false, [])
lease now row (r ∷ table) =
    let (acquired, rest) = lease now row table in
    if is_leasable row r then (true, leased now r ∷ rest) else (acquired, r ∷ rest)

-- The update that gives a document up.
unfoldable pub give_up : ℕ → ℕ → String → Table → Table
give_up now id message [] = []
give_up now id message (r ∷ table) =
    let rest = give_up now id message table in
    if r.id == id
    then record r {
      status = failed;
      error_step = some "WATCHDOG_MAX_RETRIES";
      error_message = some message;
      updated_at = now;
    }
      ∷ rest
    else r ∷ rest

-- `reprocess` is the use case together with what the projections write; `meanwhile` is what other
-- processes write before a row is leased; `message_of` makes the text of the error.
module _ (watchdog : IngestionWatchdog) (now : ℕ)
    (reprocess : AttachedRow → Table → Result (Unit {0}) DomainError × Table)
    (meanwhile : AttachedRow → Table → Table) (message_of : DomainError → String) where
  abbrev pub after_reprocess : AttachedRow → Result (Unit {0}) DomainError × Table → List ℕ × Table
  after_reprocess row (ok u, table) = (row.id ∷ [], table)
  after_reprocess row (err e, table) =
      let given_up = give_up now row.id (message_of e) table in
      ([], if leb watchdog.max_attempts (row.recovery_attempt + 1) then given_up else table)

  abbrev after_lease : AttachedRow → Bool × Table → List ℕ × Table
  after_lease row (false, table) = ([], table)
  after_lease row (true, table) = after_reprocess row (reprocess row table)

  -- One round of the loop over the stale rows.
  unfoldable pub recover_row : AttachedRow → Table → List ℕ × Table
  unfolding lease give_up
  recover_row row table = after_lease row (lease now row (meanwhile row table))

  unfoldable pub recover_rows : List AttachedRow → Table → List ℕ × Table
  unfolding recover_row
  recover_rows [] table = ([], table)
  recover_rows (row ∷ rows) table =
      let (recovered, after) = recover_row row table in
      let (more, last) = recover_rows rows after in (recovered ++ more, last)

  unfoldable pub check_and_recover_stale_documents : Table → List ℕ × Table
  unfolding select_stale recover_rows
  check_and_recover_stale_documents table = recover_rows (select_stale watchdog now table) table
