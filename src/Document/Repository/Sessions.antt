-- ===== src/Document/Repository/Sessions.antt =====
-- The handlers of the program work on a document in sessions: load it by its id, call its methods,
-- save it. Here are any number of sessions, and one run of the calls in memory.
use agentic_substrate.Prelude.{
  ℕ, ◌<◌, ◌≤◌, ◌≡◌, refl, sym, ◌∙◌, ap, subst, Option, some, none, List, [], ◌∷◌, append-nil, foldl,
  length, arith,
}
use agentic_substrate.Kernel.Result.{Result, ok, err, DomainError}
use agentic_substrate.Kernel.Aggregate.{mark_events_as_committed, record_event}
use agentic_substrate.Kernel.EventStore.{EventStore}
use agentic_substrate.Events.{Payload}
use agentic_substrate.Document.State.{DocumentAggregate, initial, apply_event}
use agentic_substrate.Document.Commands.{Command, execute, execute_all}
use agentic_substrate.Document.Repository.{Saved, save, get_by_id}
use agentic_substrate.Document.Repository.RoundTrip.{
  IsSynced, execute-IsSynced, save-get_by_id, appended-IsNumbered, foldl-appended, length-appended,
}

-- `doc = await repo.get_by_id(id)`, the calls, and `await repo.save(doc)`. A missing document and a
-- conflict end the session with the store as it was.
abbrev pub store_after : EventStore Payload → Result Saved DomainError → EventStore Payload
store_after s (ok r) = r.store
store_after s (err e) = s

abbrev run_loaded :
    EventStore Payload → Option DocumentAggregate → List Command → EventStore Payload
run_loaded s none commands = s
run_loaded s (some d) commands = store_after s (save s (execute_all d commands))

abbrev pub session : EventStore Payload → ℕ → List Command → EventStore Payload
session s id commands = run_loaded s (get_by_id s id) commands

abbrev pub sessions : EventStore Payload → ℕ → List (List Command) → EventStore Payload
sessions s id [] = s
sessions s id (commands ∷ rest) = sessions (session s id commands) id rest

-- The same calls on the object in memory, with what is saved marked as such.
abbrev pub in_memory : DocumentAggregate → List (List Command) → DocumentAggregate
in_memory d [] = d
in_memory d (commands ∷ rest) = in_memory (mark_events_as_committed (execute_all d commands)) rest

execute_all-IsSynced :
    (s : EventStore Payload) (d : DocumentAggregate) (commands : List Command)
    → IsSynced s d
    → IsSynced s (execute_all d commands)
unfolding execute_all
execute_all-IsSynced s d [] h = h
execute_all-IsSynced s d (c ∷ commands) h =
    execute_all-IsSynced s (execute d c) commands (execute-IsSynced s d c h)

pub execute_id : (d : DocumentAggregate) (c : Command) → (execute d c).id ≡ d.id
unfolding execute record_event
execute_id d c = ground arith

pub execute_version : (d : DocumentAggregate) (c : Command) → d.version ≤ (execute d c).version
unfolding execute record_event
execute_version d c = ground arith

pub execute_all_keeps :
    (d : DocumentAggregate) (commands : List Command)
    → ((execute_all d commands).id ≡ d.id) × (d.version ≤ (execute_all d commands).version)
unfolding execute_all
execute_all_keeps d [] = (refl, omega arith)
execute_all_keeps d (c ∷ commands) =
    let rest = execute_all_keeps (execute d c) commands in
    (rest.0 ∙ execute_id d c, omega (arith, rest.1, execute_version d c))

-- `d` is what the store gives for its id.
pub record IsStored (s : EventStore Payload) (d : DocumentAggregate) : Type 0 where
  pub synced : IsSynced s d
  pub found : get_by_id s d.id ≡ some d
  pub recorded : 0 < d.version

-- Saving makes a document with a stream in step a stored one.
pub save-IsStored :
    (s : EventStore Payload) (d : DocumentAggregate)
    → IsSynced s d
    → 0 < d.version
    → IsStored (store_after s (save s d)) (mark_events_as_committed d)
unfolding mark_events_as_committed
save-IsStored s d h v =
    let (r, saved, same, published, found, stream) = save-get_by_id s d h v in
    rw saved (record {
      synced = record {
        numbered = rw stream (appended-IsNumbered s d h);
        state_eq =
            sym (ap (foldl apply_event initial) (append-nil _ ∙ stream) ∙ foldl-appended s d h);
        version_eq = omega (arith, ap length stream, length-appended s d h);
      };
      found = found;
      recorded = v;
    })

pub session-IsStored :
    (s : EventStore Payload) (d : DocumentAggregate) (commands : List Command)
    → IsStored s d
    → IsStored (session s d.id commands) (mark_events_as_committed (execute_all d commands))
session-IsStored s d commands h =
    let after = execute_all d commands in
    let kept = execute_all_keeps d commands in
    rw h.found (
      save-IsStored s after (execute_all-IsSynced s d commands h.synced)
        (omega (arith, kept.1, h.recorded)))

-- For a document that the store gives when it is loaded: however the calls are divided into
-- sessions of loading, calling and saving, the document that the store gives afterwards is the one
-- that the calls make in memory, so that no call is lost.
pub sessions_lem :
    (s : EventStore Payload) (d : DocumentAggregate) (css : List (List Command))
    → IsStored s d
    → get_by_id (sessions s d.id css) d.id ≡ some (in_memory d css)
unfolding mark_events_as_committed
sessions_lem s d [] h = h.found
sessions_lem s d (commands ∷ rest) h =
    let after = mark_events_as_committed (execute_all d commands) in
    let same : after.id ≡ d.id = (execute_all_keeps d commands).0 in
    subst
      (λ n. get_by_id (sessions (session s d.id commands) n rest) n ≡ some (in_memory after rest))
      same (sessions_lem (session s d.id commands) after rest (session-IsStored s d commands h))
