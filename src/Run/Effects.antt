-- ===== src/Run/Effects.antt =====
-- What the handling of one event means for one run.
use agentic_substrate.Prelude.{
  ℕ, ◌+◌, ◌<◌, ◌==◌, ◌≡◌, refl, sym, ◌∙◌, ap, Bool, true, false, Option, none, some, List, [], ◌∷◌,
  ◌++◌, leb, if◌then◌else◌, arith, Bool-cases, inl, inr, ==_iff, Metadata,
}
use mathlib.Core.Bool.{false≢true}
use agentic_substrate.Kernel.Event.{Event}
use agentic_substrate.Events.{Payload, knowledge_indexed, processing_failed}
use agentic_substrate.Run.Entity.{
  is_terminal, final_status, FailureItem, DataSourceRun, record_document_indexed,
  record_document_failed,
}
use agentic_substrate.Run.Repository.{Progress, progress_of, Counts, RunRepository}
use agentic_substrate.Run.Projector.{
  UuidText, RunCompleted, counted, sync_run_id, completed_events, handle, handle_payload,
}

-- The announcements of the run `id`.
unfoldable pub completions : ℕ → List RunCompleted → List RunCompleted
completions id [] = []
completions id (c ∷ cs) = let rest = completions id cs in if c.run_id == id then c ∷ rest else rest

abbrev pub reported_by : UuidText → Metadata → Payload → Option ℕ
reported_by uuid m (knowledge_indexed e) = sync_run_id uuid m
reported_by uuid m (processing_failed e) = sync_run_id uuid m
reported_by uuid m _ = none

-- The run whose document an event reports as done or failed.
unfoldable pub target : UuidText → Event Payload → Option ℕ
target uuid e = reported_by uuid e.metadata e.payload

abbrev pub is_id : ℕ → Option ℕ → Bool
is_id id none = false
is_id id (some j) = j == id

-- How many of the events report on the run `id`.
unfoldable pub reports : UuidText → ℕ → List (ℕ × Event Payload) → ℕ
unfolding target
reports uuid id [] = 0
reports uuid id ((now, e) ∷ events) =
    (if is_id id (target uuid e) then 1 else 0) + reports uuid id events

pub reports-nil : (uuid : UuidText) (id : ℕ) → reports uuid id [] ≡ 0
unfolding reports
reports-nil uuid id = refl

module _ (uuid : UuidText) (id now : ℕ) (e : Event Payload)
    (events : List (ℕ × Event Payload)) where
  pub reports-other :
      is_id id (target uuid e) ≡ false
      → reports uuid id ((now, e) ∷ events) ≡ reports uuid id events
  unfolding reports
  reports-other h = rw h (omega arith)

  pub reports-this :
      is_id id (target uuid e) ≡ true
      → reports uuid id ((now, e) ∷ events) ≡ reports uuid id events + 1
  unfolding reports
  reports-this h = rw h (omega arith)

pub completions-append :
    (id : ℕ) (xs ys : List RunCompleted)
    → completions id (xs ++ ys) ≡ completions id xs ++ completions id ys
unfolding completions
completions-append id [] ys = refl
completions-append id (x ∷ xs) ys = ground (arith, completions-append id xs ys)

completions-other :
    (id j : ℕ) (p : Option Progress)
    → (j == id) ≡ false
    → completions id (completed_events j p) ≡ []
unfolding completions completed_events
completions-other id j none h = refl
completions-other id j (some p) h = ground arith

-- What counting one document does to a live run `r`.
pub record Advances (r r' : DataSourceRun) : Type 0 where
  pub same_total : r'.total_files_discovered ≡ r.total_files_discovered
  pub one_more :
      r'.indexed_files_count + r'.failed_files_count
      ≡ r.indexed_files_count + r.failed_files_count + 1
  pub status : r'.status ≡ (
      if leb r.total_files_discovered (r.indexed_files_count + r.failed_files_count + 1)
      then final_status r'.indexed_files_count r'.failed_files_count
      else r.status)

indexed-Advances : (now : ℕ) (r : DataSourceRun) → Advances r (record_document_indexed now r)
unfolding record_document_indexed
indexed-Advances now r = ground arith

failed-Advances :
    (now : ℕ) (r : DataSourceRun) (item : FailureItem)
    → Advances r (record_document_failed now r item)
unfolding record_document_failed
failed-Advances now r item = ground arith

module _ (uuid : UuidText) (repo : RunRepository) (id : ℕ) where
  open repo use {Table, find, count_indexed, count_failed, indexed_law, failed_law}

  -- Nothing is announced for the run `id`, and its row is as it was.
  abbrev pub Silent : Table → List RunCompleted × Table → Type 0
  Silent t (published, t') = (completions id published ≡ []) × (find t' id ≡ find t id)

  -- One more document of the run `id` is counted.
  abbrev pub Counted : DataSourceRun → List RunCompleted × Table → Type 0
  Counted r (published, t') =
      (r' : DataSourceRun) × Advances r r'
      × (find t' id ≡ some r')
      × (completions id published ≡ completions id (completed_events id (some (progress_of r'))))

  module _ {op : Table → ℕ → Option Progress × Table} {count : DataSourceRun → DataSourceRun}
      (law : Counts find op count) where
    counted_other :
        (t : Table) (o : Option ℕ) → is_id id o ≡ false → Silent t (counted uuid repo op t o)
    counted_other t none h = (unfold completions in refl, refl)
    counted_other t (some j) h = (
      completions-other id j (op t j).0 h,
      law.others t j id (λ e. false≢true (sym h ∙ (==_iff j id).1 (sym e))),
    )

    counted_ended :
        (t : Table) (o : Option ℕ) (r : DataSourceRun)
        → find t id ≡ some r
        → is_terminal r.status ≡ true
        → Silent t (counted uuid repo op t o)
    unfolding completed_events completions
    counted_ended t none r e ended = (refl, refl)
    counted_ended t (some j) r e ended = elim (Bool-cases (j == id)) [
      | inr other ↦ counted_other t (some j) other
      | inl this ↦ rw ((==_iff j id).0 this) (
        ap (λ p. completions id (completed_events id p)) (law.ended t id r e ended).0,
        (law.ended t id r e ended).1 ∙ sym e,
      )
    ]

    counted_live :
        (t : Table) (o : Option ℕ) (r : DataSourceRun)
        → is_id id o ≡ true
        → find t id ≡ some r
        → is_terminal r.status ≡ false
        → 0 < r.total_files_discovered
        → Advances r (count r)
        → Counted r (counted uuid repo op t o)
    counted_live t none r h e live files adv = cc
    counted_live t (some j) r h e live files adv = rw ((==_iff j id).0 h) (
      count r,
      adv,
      (law.live t id r e live files).1,
      ap (λ p. completions id (completed_events id p)) (law.live t id r e live files).0,
    )

  payload_other :
      (now : ℕ) (t : Table) (m : Metadata) (p : Payload)
      → is_id id (reported_by uuid m p) ≡ false
      → Silent t (handle_payload uuid repo now t m p)
  unfolding completions
  payload_other now t m (knowledge_indexed e) h = counted_other (indexed_law now) t _ h
  payload_other now t m (processing_failed e) h =
      counted_other (failed_law now e.document_id _ e.error_message) t _ h
  payload_other now t m _ h = (refl, refl)

  payload_ended :
      (now : ℕ) (t : Table) (m : Metadata) (p : Payload) (r : DataSourceRun)
      → find t id ≡ some r
      → is_terminal r.status ≡ true
      → Silent t (handle_payload uuid repo now t m p)
  unfolding completions
  payload_ended now t m (knowledge_indexed e) r f h = counted_ended (indexed_law now) t _ r f h
  payload_ended now t m (processing_failed e) r f h =
      counted_ended (failed_law now e.document_id _ e.error_message) t _ r f h
  payload_ended now t m _ r f h = (refl, refl)

  payload_live :
      (now : ℕ) (t : Table) (m : Metadata) (p : Payload) (r : DataSourceRun)
      → is_id id (reported_by uuid m p) ≡ true
      → find t id ≡ some r
      → is_terminal r.status ≡ false
      → 0 < r.total_files_discovered
      → Counted r (handle_payload uuid repo now t m p)
  payload_live now t m (knowledge_indexed e) r h f live files =
      counted_live (indexed_law now) t _ r h f live files (indexed-Advances now r)
  payload_live now t m (processing_failed e) r h f live files =
      counted_live (failed_law now e.document_id _ e.error_message) t _ r h f live files
        (failed-Advances now r _)
  payload_live now t m _ r h f live files = cc

  -- An event that reports on another run, or on none.
  pub handle_other :
      (now : ℕ) (t : Table) (e : Event Payload)
      → is_id id (target uuid e) ≡ false
      → Silent t (handle uuid repo now t e)
  unfolding handle target
  handle_other now t e h = payload_other now t e.metadata e.payload h

  -- Any event, once the run has ended.
  pub handle_ended :
      (now : ℕ) (t : Table) (e : Event Payload) (r : DataSourceRun)
      → find t id ≡ some r
      → is_terminal r.status ≡ true
      → Silent t (handle uuid repo now t e)
  unfolding handle
  handle_ended now t e r f h = payload_ended now t e.metadata e.payload r f h

  -- An event that reports on the run while it is live.
  pub handle_live :
      (now : ℕ) (t : Table) (e : Event Payload) (r : DataSourceRun)
      → is_id id (target uuid e) ≡ true
      → find t id ≡ some r
      → is_terminal r.status ≡ false
      → 0 < r.total_files_discovered
      → Counted r (handle uuid repo now t e)
  unfolding handle target
  handle_live now t e r h f live files = payload_live now t e.metadata e.payload r h f live files
