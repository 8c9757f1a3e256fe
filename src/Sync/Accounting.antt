-- ===== src/Sync/Accounting.antt =====
-- Where a file that failed shows up, and what becomes of the cursor.
use agentic_substrate.Prelude.{
  ℕ, ◌+◌, ◌<◌, ◌≤◌, ◌≡◌, refl, ◌∙◌, Bool, true, false, Option, none, some, List, [], ◌∷◌, String,
  foldl, any, length, length-append, ltb, if◌then◌else◌, or_else, arith, str_eq,
}
use agentic_substrate.Run.Entity.{
  FailureItem, DataSourceRun, record_document_failed, record_document_indexed,
}
use agentic_substrate.DataSource.{DataSource, complete_sync, pending_cursor}
use agentic_substrate.DataSource.Cursor.{
  pending_cursor-set, pending_cursor-complete_sync, cursor-set_pending,
}
use agentic_substrate.Sync.Item.{ItemOutcome, unchanged, attached, not_attached}
use agentic_substrate.Sync.Execute.{apply_outcome, carry_over, reconcile, settle_cursor}

ltb-true : (a b : ℕ) → a < b → ltb a b ≡ true
ltb-true a b h = ground arith

-- The failure count of a run is the length of its summary.
abbrev pub Listed : DataSourceRun → Type 0
Listed r = r.failed_files_count ≡ length r.failure_summary

abbrev pub is_failure : ItemOutcome → Bool
is_failure unchanged = false
is_failure (attached id) = false
is_failure (not_attached item) = true

-- How many of the outcomes are failures.
unfoldable pub failures : List ItemOutcome → ℕ
failures [] = 0
failures (o ∷ outcomes) = (if is_failure o then 1 else 0) + failures outcomes

apply_outcome-Listed :
    (now : ℕ) (r : DataSourceRun) (o : ItemOutcome) → Listed r → Listed (apply_outcome now r o)
unfolding apply_outcome record_document_indexed record_document_failed
apply_outcome-Listed now r unchanged h = ground arith
apply_outcome-Listed now r (attached id) h = h
apply_outcome-Listed now r (not_attached item) h =
    ground (arith, length-append r.failure_summary (item ∷ []))

apply_outcome-failed :
    (now : ℕ) (r : DataSourceRun) (o : ItemOutcome)
    → (apply_outcome now r o).failed_files_count
      ≡ r.failed_files_count + (if is_failure o then 1 else 0)
unfolding apply_outcome record_document_indexed record_document_failed
apply_outcome-failed now r unchanged = ground arith
apply_outcome-failed now r (attached id) = omega arith
apply_outcome-failed now r (not_attached item) = ground arith

-- Processing adds one to the failure count for each outcome that is a failure, and lists it.
pub outcomes_counted :
    (now : ℕ) (r : DataSourceRun) (outcomes : List ItemOutcome)
    → Listed r
    → Listed (foldl (apply_outcome now) r outcomes)
      × ((foldl (apply_outcome now) r outcomes).failed_files_count
          ≡ r.failed_files_count + failures outcomes)
unfolding failures
outcomes_counted now r [] h = (h, omega arith)
outcomes_counted now r (o ∷ outcomes) h =
    let (listed, count) =
      outcomes_counted now (apply_outcome now r o) outcomes (apply_outcome-Listed now r o h) in
    (listed, omega (arith, count, apply_outcome-failed now r o))

carry_over-Listed :
    (now : ℕ) (r : DataSourceRun) (f : FailureItem) → Listed r → Listed (carry_over now r f)
unfolding carry_over record_document_failed
carry_over-Listed now r f h = ground (arith, length-append r.failure_summary (f ∷ []))

carry_over-le :
    (now : ℕ) (r : DataSourceRun) (f : FailureItem)
    → r.failed_files_count ≤ (carry_over now r f).failed_files_count
unfolding carry_over record_document_failed
carry_over-le now r f = ground arith

any-positive :
    (test : FailureItem → Bool) (items : List FailureItem)
    → any test items ≡ true
    → 0 < length items
any-positive test [] h = cc
any-positive test (f ∷ items) h = omega arith

carry_over-positive :
    (now : ℕ) (r : DataSourceRun) (f : FailureItem)
    → Listed r
    → 0 < (carry_over now r f).failed_files_count
unfolding carry_over record_document_failed
carry_over-positive now r f h =
    ground (arith, any-positive (λ g. str_eq g.file_name f.file_name) r.failure_summary)

carried-le :
    (now : ℕ) (r : DataSourceRun) (fs : List FailureItem)
    → r.failed_files_count ≤ (foldl (carry_over now) r fs).failed_files_count
carried-le now r [] = omega arith
carried-le now r (f ∷ fs) =
    omega (arith, carry_over-le now r f, carried-le now (carry_over now r f) fs)

-- If a failure is listed, the run that is saved at the end has failures, whatever was reloaded.
pub reconcile-positive :
    (now : ℕ) (latest : Option DataSourceRun) (r : DataSourceRun)
    → Listed r
    → 0 < r.failed_files_count
    → ((l : DataSourceRun) → latest ≡ some l → Listed l)
    → 0 < (reconcile now latest r).failed_files_count
unfolding reconcile
reconcile-positive now none r h n k = n
reconcile-positive now (some l) r h n k = positive r.failure_summary (omega (arith, h))
  where
    positive :
        (fs : List FailureItem)
        → 0 < length fs
        → 0 < (foldl (carry_over now) l fs).failed_files_count
    positive [] lt = absurd (omega arith)
    positive (f ∷ fs) lt =
        omega
          (arith, carry_over-positive now l f (k l refl), carried-le now (carry_over now l f) fs)

pub length-zero : (fs : List FailureItem) → length fs ≡ 0 → fs ≡ []
length-zero [] h = refl
length-zero (f ∷ fs) h = absurd (omega arith)

-- With no failures listed, the run that is saved at the end has those of the reloaded one.
pub reconcile-zero :
    (now : ℕ) (latest : Option DataSourceRun) (r : DataSourceRun)
    → Listed r
    → r.failed_files_count ≡ 0
    → ((l : DataSourceRun) → latest ≡ some l → l.failed_files_count ≡ 0)
    → (reconcile now latest r).failed_files_count ≡ 0
unfolding reconcile
reconcile-zero now none r h z k = z
reconcile-zero now (some l) r h z k =
    rw (length-zero r.failure_summary (omega (arith, h))) (k l refl)

pub settle_cursor-held :
    (now : ℕ) (d : DataSource) (r : DataSourceRun) (next : Option String)
    → 0 < r.failed_files_count
    → ((settle_cursor now d r next).cursor ≡ d.cursor)
      × (pending_cursor (settle_cursor now d r next) ≡ next)
unfolding settle_cursor
settle_cursor-held now d r next h = rw (ltb-true 0 r.failed_files_count h) (
  unfold complete_sync in cursor-set_pending now d next,
  pending_cursor-complete_sync now _ none ∙ pending_cursor-set now d next,
)

pub settle_cursor-moved :
    (now : ℕ) (d : DataSource) (r : DataSourceRun) (next : Option String)
    → r.failed_files_count ≡ 0
    → ((settle_cursor now d r next).cursor ≡ or_else next d.cursor)
      × (pending_cursor (settle_cursor now d r next) ≡ none)
unfolding settle_cursor
settle_cursor-moved now d r next h = rw h (
  cursor-set_pending now (complete_sync now d next) none ∙ unfold complete_sync in refl,
  pending_cursor-set now (complete_sync now d next) none,
)
