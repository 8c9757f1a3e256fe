-- ===== src/Run/Completion.antt =====
-- The announcement of the end of a run, for any repository with the laws of the interface.
use agentic_substrate.Prelude.{
  ℕ, ◌+◌, ◌<◌, ◌≤◌, ◌≡◌, refl, ◌∙◌, ap, true, false, some, List, [], ◌∷◌, ◌++◌, arith, Bool-cases,
  inl, inr, ==_refl, subst,
}
use native.Mathlib.Decide.{dec_lt}
use agentic_substrate.Kernel.Event.{Event}
use agentic_substrate.Events.{Payload}
use agentic_substrate.Run.Entity.{is_terminal, final_status, DataSourceRun}
use agentic_substrate.Run.Repository.{progress_of, RunRepository}
use agentic_substrate.Run.Projector.{UuidText, RunCompleted, completed_events, handle, handle_all}
use agentic_substrate.Run.Effects.{
  completions, completions-append, target, is_id, reports, Advances, handle_other, handle_ended,
  handle_live, reports-nil, reports-other, reports-this,
}

final_status_terminal : (i f : ℕ) → is_terminal (final_status i f) ≡ true
unfolding final_status is_terminal
final_status_terminal i f = ground arith

-- The next count is the last one.
last_count :
    (r r' : DataSourceRun)
    → Advances r r'
    → r.total_files_discovered ≤ r.indexed_files_count + r.failed_files_count + 1
    → r'.status ≡ final_status r'.indexed_files_count r'.failed_files_count
last_count r r' adv h = ground arith

-- The next count is not the last one.
early_count :
    (r r' : DataSourceRun)
    → Advances r r'
    → r.indexed_files_count + r.failed_files_count + 1 < r.total_files_discovered
    → r'.status ≡ r.status
early_count r r' adv h = ground arith

-- The announcement of a run whose files are all counted.
pub record Announces (id total : ℕ) (c : RunCompleted) : Type 0 where
  pub run : c.run_id ≡ id
  pub all_files : c.total_files ≡ total
  pub all_counted : c.indexed_files + c.failed_files ≡ total
  pub status : c.status ≡ final_status c.indexed_files c.failed_files

module _ (id : ℕ) (r : DataSourceRun) where
  announced_live :
      is_terminal r.status ≡ false
      → completions id (completed_events id (some (progress_of r))) ≡ []
  unfolding completions completed_events progress_of
  announced_live h = rw h

  announced_ended :
      (total : ℕ)
      → r.total_files_discovered ≡ total
      → r.indexed_files_count + r.failed_files_count ≡ total
      → r.status ≡ final_status r.indexed_files_count r.failed_files_count
      → (c : RunCompleted) × (completions id (completed_events id (some (progress_of r))) ≡ c ∷ [])
        × Announces id total c
  unfolding completions completed_events progress_of
  announced_ended total e n s = (
    record {
      run_id = id;
      data_source_id = r.data_source_id;
      kb_id = r.kb_id;
      status = r.status;
      total_files = r.total_files_discovered;
      indexed_files = r.indexed_files_count;
      failed_files = r.failed_files_count;
    },
    rw (s, final_status_terminal, ==_refl),
    record { run = refl; all_files = e; all_counted = n; status = s },
  )

module _ (uuid : UuidText) (repo : RunRepository) (id : ℕ) where
  open repo use {Table, find}

  abbrev pub announced : Table → List (ℕ × Event Payload) → List RunCompleted
  announced t events = completions id (handle_all uuid repo t events).0

  announced-cons :
      (t : Table) (now : ℕ) (e : Event Payload) (events : List (ℕ × Event Payload))
      → announced t ((now, e) ∷ events)
        ≡ completions id (handle uuid repo now t e).0
          ++ announced (handle uuid repo now t e).1 events
  unfolding handle_all
  announced-cons t now e events = completions-append id _ _

  -- A run that has ended is not announced by any sequence of events.
  pub announced_ended_run :
      (t : Table) (r : DataSourceRun) (events : List (ℕ × Event Payload))
      → find t id ≡ some r
      → is_terminal r.status ≡ true
      → announced t events ≡ []
  unfolding handle_all completions
  announced_ended_run t r [] f h = refl
  announced_ended_run t r ((now, e) ∷ events) f h =
      let (silent, same) = handle_ended uuid repo id now t e r f h in
      announced-cons t now e events
      ∙ rw silent (announced_ended_run (handle uuid repo now t e).1 r events (same ∙ f) h)

  -- For a live run with files still to count: however its documents' reports are mixed with other
  -- events, and whether they tell of success or of failure, nothing is announced for it while
  -- reports are missing.
  pub announced_not_yet :
      (t : Table) (r : DataSourceRun) (events : List (ℕ × Event Payload))
      → find t id ≡ some r
      → is_terminal r.status ≡ false
      → r.indexed_files_count + r.failed_files_count + reports uuid id events
        < r.total_files_discovered
      → announced t events ≡ []
  unfolding handle_all completions
  announced_not_yet t r [] f live n = refl
  announced_not_yet t r ((now, e) ∷ events) f live n =
      elim (Bool-cases (is_id id (target uuid e))) [
        | inr other ↦
            let (silent, same) = handle_other uuid repo id now t e other in
            announced-cons t now e events
            ∙ rw silent (
                announced_not_yet (handle uuid repo now t e).1 r events (same ∙ f) live
                  (omega (arith, reports-other uuid id now e events other)))
        | inl this ↦
            let (r', adv, found, quiet) =
              handle_live uuid repo id now t e r this f live (omega arith) in
            let more = reports-this uuid id now e events this in
            let same : r'.status ≡ r.status = early_count r r' adv (omega (arith, more)) in
            let live' : is_terminal r'.status ≡ false = ap is_terminal same ∙ live in
            announced-cons t now e events
            ∙ rw (quiet, announced_live id r' live')
                (announced_not_yet (handle uuid repo now t e).1 r' events found live'
                  (omega (arith, more, adv.one_more, adv.same_total)))
      ]

  -- For a live run with files still to count, in a repository with the laws of the interface: in
  -- whatever order its documents' reports come and whatever other events are among them, if there
  -- are at least as many as files to count, the run is announced exactly once, by an event with
  -- its id and its total, whose counts add up to the total and give its status.
  pub announced_once :
      (t : Table) (r : DataSourceRun) (events : List (ℕ × Event Payload))
      → find t id ≡ some r
      → is_terminal r.status ≡ false
      → r.indexed_files_count + r.failed_files_count < r.total_files_discovered
      → r.total_files_discovered
        ≤ r.indexed_files_count + r.failed_files_count + reports uuid id events
      → (c : RunCompleted) × (announced t events ≡ c ∷ []) × Announces id r.total_files_discovered c
  unfolding handle_all completions
  announced_once t r [] f live n enough = absurd (omega (arith, reports-nil uuid id))
  announced_once t r ((now, e) ∷ events) f live n enough =
      elim (Bool-cases (is_id id (target uuid e))) [
        | inr other ↦
            let (silent, same) = handle_other uuid repo id now t e other in
            let (c, one, right) =
              announced_once (handle uuid repo now t e).1 r events (same ∙ f) live n
                (omega (arith, reports-other uuid id now e events other)) in
            (c, announced-cons t now e events ∙ rw silent one, right)
        | inl this ↦
            let (r', adv, found, shown) =
              handle_live uuid repo id now t e r this f live (omega arith) in
            elim (dec_lt (r.indexed_files_count + r.failed_files_count + 1)
              r.total_files_discovered) [
                | yes early ↦
                    let live' : is_terminal r'.status ≡ false =
                      ap is_terminal (early_count r r' adv early) ∙ live in
                    let (c, one, right) =
                      announced_once (handle uuid repo now t e).1 r' events found live'
                        (omega (arith, adv.one_more, adv.same_total))
                        (omega (
                          arith,
                          reports-this uuid id now e events this,
                          adv.one_more,
                          adv.same_total,
                        )) in
                    (
                      c,
                      announced-cons t now e events ∙ rw (shown, announced_live id r' live') one,
                      subst (λ m. Announces id m c) adv.same_total right,
                    )
                | no last ↦
                    let ended : r'.status
                        ≡ final_status r'.indexed_files_count r'.failed_files_count =
                      last_count r r' adv (omega arith) in
                    let (c, one, right) =
                      announced_ended id r' r.total_files_discovered adv.same_total
                        (omega (arith, adv.one_more)) ended in
                    (
                      c,
                      announced-cons t now e events
                          ∙ rw (shown, one)
                              (ap (λ cs. c ∷ cs)
                                (announced_ended_run (handle uuid repo now t e).1 r' events found
                                  (ap is_terminal ended ∙ final_status_terminal _ _))),
                      right,
                    )
              ]
      ]
