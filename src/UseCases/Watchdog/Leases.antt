-- ===== src/UseCases/Watchdog/Leases.antt =====
-- Who may recover a document, and how often.
use agentic_substrate.Prelude.{
  ℕ, zero, suc, ◌+◌, ◌≤◌, ◌<◌, ◌≡◌, refl, sym, Bool, true, false, List, [], ◌∷◌, length, leb,
  if◌then◌else◌, Bool-cases, inl, inr, All, arith,
}
use agentic_substrate.UseCases.Watchdog.{
  RowStatus, uploaded, parsed, chunked, recovering, failed, other, AttachedRow, Table, same_status,
  in_progress, take_rows, insert_row, IngestionWatchdog, is_stale, stale_rows, select_stale,
  is_leasable, lease, leased,
}

not_recovering : (s : RowStatus) → in_progress s ≡ true → same_status recovering s ≡ false
unfolding in_progress same_status
not_recovering uploaded h = refl
not_recovering parsed h = refl
not_recovering chunked h = refl
not_recovering recovering h = sym h
not_recovering failed h = refl
not_recovering other h = refl

leased-not_leasable :
    (now : ℕ) (row r : AttachedRow)
    → in_progress row.status ≡ true
    → is_leasable row (leased now r) ≡ false
unfolding is_leasable
leased-not_leasable now row r h = ground (arith, not_recovering row.status h)

-- What others make of the table after the time `since`: they write a row, which sets its time to that
-- of the writing, as all updates of knowledge_base_projector.py and of the watchdog do, delete it, add
-- one, or leave it as it is.
pub data Written (since : ℕ) : Table → Table → Type 0 where
  done : Written since [] []
  kept : {t u : Table} (r : AttachedRow) → Written since t u → Written since (r ∷ t) (r ∷ u)
  rewritten :
      {t u : Table} (r q : AttachedRow)
      → since < q.updated_at
      → Written since t u
      → Written since (r ∷ t) (q ∷ u)
  deleted : {t u : Table} (r : AttachedRow) → Written since t u → Written since (r ∷ t) u
  inserted :
      {t u : Table} (q : AttachedRow)
      → since < q.updated_at
      → Written since t u
      → Written since t (q ∷ u)

-- No row of the table can be leased for this reading of it.
abbrev Spent : AttachedRow → Table → Type 0
Spent row table = All (λ r. is_leasable row r ≡ false) table

lease-Spent :
    (now : ℕ) (row : AttachedRow) (table : Table)
    → in_progress row.status ≡ true
    → Spent row (lease now row table).1
unfolding lease
lease-Spent now row [] h = tt
lease-Spent now row (r ∷ table) h = elim (Bool-cases (is_leasable row r)) [
  | inl e ↦ rw e (leased-not_leasable now row r h, lease-Spent now row table h)
  | inr e ↦ rw e (e, lease-Spent now row table h)
]

later-not_leasable :
    (row r : AttachedRow) → row.updated_at < r.updated_at → is_leasable row r ≡ false
unfolding is_leasable
later-not_leasable row r h = ground arith

Written-Spent :
    (row : AttachedRow) {t u : Table} → Written row.updated_at t u → Spent row t → Spent row u
Written-Spent row done h = tt
Written-Spent row (kept r w) h = (h.0, Written-Spent row w h.1)
Written-Spent row (rewritten r q l w) h = (later-not_leasable row q l, Written-Spent row w h.1)
Written-Spent row (deleted r w) h = Written-Spent row w h.1
Written-Spent row (inserted q l w) h = (later-not_leasable row q l, Written-Spent row w h)

Spent-lease :
    (later : ℕ) (row : AttachedRow) (table : Table)
    → Spent row table
    → (lease later row table).0 ≡ false
unfolding lease
Spent-lease later row [] h = refl
Spent-lease later row (r ∷ table) h = rw h.0 (Spent-lease later row table h.1)

-- After a lease of a row in progress, successful or not, no lease for the same reading of the row
-- succeeds, whatever else is written after that reading: also when the row is in the same status again.
pub lease_once :
    (now later : ℕ) (row : AttachedRow) (table : Table) {after : Table}
    → in_progress row.status ≡ true
    → Written row.updated_at (lease now row table).1 after
    → (lease later row after).0 ≡ false
lease_once now later row table {after} h w =
    Spent-lease later row after (Written-Spent row w (lease-Spent now row table h))

module _ (watchdog : IngestionWatchdog) (now : ℕ) where
  -- No later row of the selection has been written before an earlier one.
  abbrev pub InOrder : List AttachedRow → Type 0
  InOrder [] = Unit
  InOrder (row ∷ rows) = All (λ r. row.updated_at ≤ r.updated_at) rows × InOrder rows

  rows-if :
      (Q : List AttachedRow → Type 0) (b : Bool) (xs ys : List AttachedRow)
      → (b ≡ true → Q xs)
      → (b ≡ false → Q ys)
      → Q (if b then xs else ys)
  rows-if Q true xs ys h k = h refl
  rows-if Q false xs ys h k = k refl

  insert-All :
      (P : AttachedRow → Type 0) (row : AttachedRow) (rows : List AttachedRow)
      → P row
      → All P rows
      → All P (insert_row row rows)
  unfolding insert_row
  insert-All P row [] p h = (p, tt)
  insert-All P row (r ∷ rows) p h =
      rows-if (All P) (leb row.updated_at r.updated_at) (row ∷ r ∷ rows) (r ∷ insert_row row rows)
        (λ e. (p, h)) (λ e. (h.0, insert-All P row rows p h.1))

  All-le :
      (m n : ℕ) (rows : List AttachedRow)
      → m ≤ n
      → All (λ r. n ≤ r.updated_at) rows
      → All (λ r. m ≤ r.updated_at) rows
  All-le m n [] l h = tt
  All-le m n (r ∷ rows) l h = (omega (arith, l, h.0), All-le m n rows l h.1)

  insert-InOrder :
      (row : AttachedRow) (rows : List AttachedRow) → InOrder rows → InOrder (insert_row row rows)
  unfolding insert_row
  insert-InOrder row [] h = (tt, tt)
  insert-InOrder row (r ∷ rows) h =
      rows-if InOrder (leb row.updated_at r.updated_at) (row ∷ r ∷ rows) (r ∷ insert_row row rows)
        (λ e.
          let l : row.updated_at ≤ r.updated_at = ground (arith, e) in
          ((l, All-le row.updated_at r.updated_at rows l h.0), h))
        (λ e.
          let l : r.updated_at ≤ row.updated_at = ground (arith, e) in
          (
            insert-All (λ q. r.updated_at ≤ q.updated_at) row rows l h.0,
            insert-InOrder row rows h.1,
          ))

  stale_rows-InOrder : (table : Table) → InOrder (stale_rows watchdog now table)
  unfolding stale_rows
  stale_rows-InOrder [] = tt
  stale_rows-InOrder (row ∷ rows) =
      let rest = stale_rows-InOrder rows in
      rows-if InOrder (is_stale watchdog now row) (insert_row row (stale_rows watchdog now rows))
        (stale_rows watchdog now rows) (λ e. insert-InOrder row (stale_rows watchdog now rows) rest)
        (λ e. rest)

  stale_rows-All :
      (table : Table) → All (λ r. is_stale watchdog now r ≡ true) (stale_rows watchdog now table)
  unfolding stale_rows
  stale_rows-All [] = tt
  stale_rows-All (row ∷ rows) =
      let rest = stale_rows-All rows in
      rows-if (All (λ r. is_stale watchdog now r ≡ true)) (is_stale watchdog now row)
        (insert_row row (stale_rows watchdog now rows)) (stale_rows watchdog now rows)
        (λ e.
          insert-All (λ r. is_stale watchdog now r ≡ true) row (stale_rows watchdog now rows) e
            rest)
        (λ e. rest)

  take-All :
      (P : AttachedRow → Type 0) (n : ℕ) (rows : List AttachedRow)
      → All P rows
      → All P (take_rows n rows)
  unfolding take_rows
  take-All P zero rows h = tt
  take-All P (suc n) [] h = tt
  take-All P (suc n) (row ∷ rows) h = (h.0, take-All P n rows h.1)

  length-take : (n : ℕ) (rows : List AttachedRow) → length (take_rows n rows) ≤ n
  unfolding take_rows
  length-take zero rows = omega arith
  length-take (suc n) [] = omega arith
  length-take (suc n) (row ∷ rows) = omega (arith, length-take n rows)

  take-InOrder : (n : ℕ) (rows : List AttachedRow) → InOrder rows → InOrder (take_rows n rows)
  unfolding take_rows
  take-InOrder zero rows h = tt
  take-InOrder (suc n) [] h = tt
  take-InOrder (suc n) (row ∷ rows) h = (take-All _ n rows h.0, take-InOrder n rows h.1)

  stale_parts :
      (r : AttachedRow)
      → is_stale watchdog now r ≡ true
      → (in_progress r.status ≡ true)
        × (r.updated_at + watchdog.threshold < now)
        × (r.recovery_attempt < watchdog.max_attempts)
  unfolding is_stale
  stale_parts r e =
      let progress : in_progress r.status ≡ true = ground arith in
      let old : r.updated_at + watchdog.threshold < now = ground arith in
      let left : r.recovery_attempt < watchdog.max_attempts = ground arith in (progress, old, left)

  -- A check reads at most 50 rows, in the order of their times, each in progress, unwritten for longer
  -- than the threshold and with attempts left; a row that is being recovered is none of them.
  pub select_stale_sound :
      (table : Table)
      → (length (select_stale watchdog now table) ≤ 50)
        × InOrder (select_stale watchdog now table)
        × All
            (λ r.
              (in_progress r.status ≡ true)
              × (r.updated_at + watchdog.threshold < now)
              × (r.recovery_attempt < watchdog.max_attempts)
              × (same_status recovering r.status ≡ false))
            (select_stale watchdog now table)
  unfolding select_stale
  select_stale_sound table =
      let rows = stale_rows watchdog now table in
      (
        length-take 50 rows,
        take-InOrder 50 rows (stale_rows-InOrder table),
        All-criteria (take_rows 50 rows) (take-All _ 50 rows (stale_rows-All table)),
      )
    where
      criteria :
          (r : AttachedRow)
          → is_stale watchdog now r ≡ true
          → (in_progress r.status ≡ true)
            × (r.updated_at + watchdog.threshold < now)
            × (r.recovery_attempt < watchdog.max_attempts)
            × (same_status recovering r.status ≡ false)
      criteria r e =
          let parts = stale_parts r e in
          (parts.0, parts.1, parts.2, not_recovering r.status parts.0)

      All-criteria :
          (rows : List AttachedRow)
          → All (λ r. is_stale watchdog now r ≡ true) rows
          → All
              (λ r.
                (in_progress r.status ≡ true)
                × (r.updated_at + watchdog.threshold < now)
                × (r.recovery_attempt < watchdog.max_attempts)
                × (same_status recovering r.status ≡ false))
              rows
      All-criteria [] h = tt
      All-criteria (r ∷ rows) h = (criteria r h.0, All-criteria rows h.1)
