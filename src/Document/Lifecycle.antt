-- ===== src/Document/Lifecycle.antt =====
-- What every sequence of method calls keeps of a document.
use agentic_substrate.Prelude.{
  ℕ, ◌≡◌, ◌≢◌, refl, ◌∙◌, ap, none, List, [], ◌∷◌, ◌++◌, foldl-append, arith,
}
use agentic_substrate.Kernel.Aggregate.{record_event}
use agentic_substrate.Events.{DocumentStatus, deleted, failed, uploaded}
use agentic_substrate.Document.State.{DocumentState, DocumentAggregate, apply_event}
use agentic_substrate.Document.Commands.{
  CreateArguments, Command, create, execute, execute_all, event_for, is_deleted, mark_stored,
  delete,
}

execute_deleted : (d : DocumentAggregate) (c : Command) → d.state.status ≡ deleted → execute d c ≡ d
unfolding execute
execute_deleted d c h = rw h

execute_all_deleted :
    (d : DocumentAggregate) (commands : List Command)
    → d.state.status ≡ deleted
    → execute_all d commands ≡ d
unfolding execute_all
execute_all_deleted d [] h = refl
execute_all_deleted d (c ∷ commands) h =
    rw (execute_deleted d c h) (execute_all_deleted d commands h)

delete-deleted : (d : DocumentAggregate) → (execute d delete).state.status ≡ deleted
unfolding execute record_event apply_event event_for is_deleted
delete-deleted d = by_status d.state.status refl
  where
    by_status :
        (s : DocumentStatus) → d.state.status ≡ s → (execute d delete).state.status ≡ deleted
    by_status deleted e = rw e refl
    by_status _ e = rw e refl

calls_ignored :
    (d : DocumentAggregate) (before after : List Command)
    → execute_all d (before ++ delete ∷ after) ≡ execute (execute_all d before) delete
unfolding execute_all
calls_ignored d before after =
    foldl-append execute d before (delete ∷ after)
    ∙ execute_all_deleted (execute (execute_all d before) delete) after
        (delete-deleted (execute_all d before))

-- A document on which `delete` has been called stays deleted, and no calls that follow change it:
-- whatever was called before, the calls after the deletion leave state, version and events as the
-- deletion left them.
pub calls_after_delete :
    (d : DocumentAggregate) (before after : List Command)
    → ((execute_all d (before ++ delete ∷ after)).state.status ≡ deleted)
      × (execute_all d (before ++ delete ∷ after) ≡ execute (execute_all d before) delete)
calls_after_delete d before after =
    let same = calls_ignored d before after in
    (ap (λ x. x.state.status) same ∙ delete-deleted (execute_all d before), same)

-- What the attachment of a document fixes.
pub record SameIdentity (s t : DocumentState) : Type 0 where
  pub kb_id : s.kb_id ≡ t.kb_id
  pub file_name : s.file_name ≡ t.file_name
  pub content_type : s.content_type ≡ t.content_type
  pub source_type : s.source_type ≡ t.source_type
  pub ingested_at : s.ingested_at ≡ t.ingested_at
  pub enable_ocr : s.enable_ocr ≡ t.enable_ocr
  pub ocr_instructions : s.ocr_instructions ≡ t.ocr_instructions
  pub metadata : s.metadata ≡ t.metadata

execute-SameIdentity :
    (d : DocumentAggregate) (c : Command) → SameIdentity (execute d c).state d.state
unfolding execute record_event apply_event event_for
execute-SameIdentity d (mark_stored p n) = ground arith
execute-SameIdentity d _ = ground arith

-- A failed document says where and why it failed; a stored one says nothing of the kind.
pub record IsConsistent (s : DocumentState) : Type 0 where
  pub failure : s.status ≡ failed → (s.error_step ≢ none) × (s.error_message ≢ none)
  pub clean : s.status ≡ uploaded → (s.error_step ≡ none) × (s.error_message ≡ none)

execute-IsConsistent :
    (d : DocumentAggregate) (c : Command) → IsConsistent d.state → IsConsistent (execute d c).state
unfolding execute record_event apply_event event_for
execute-IsConsistent d (mark_stored p n) h = ground arith
execute-IsConsistent d _ h = ground arith

SameIdentity-trans :
    (s t u : DocumentState) → SameIdentity s t → SameIdentity t u → SameIdentity s u
SameIdentity-trans s t u h k = ground arith

execute_all_keeps :
    (d : DocumentAggregate) (commands : List Command)
    → IsConsistent d.state
    → SameIdentity (execute_all d commands).state d.state
      × IsConsistent (execute_all d commands).state
unfolding execute_all
execute_all_keeps d [] h = (ground arith, h)
execute_all_keeps d (c ∷ commands) h =
    let (same, consistent) =
      execute_all_keeps (execute d c) commands (execute-IsConsistent d c h) in
    (SameIdentity-trans _ _ _ same (execute-SameIdentity d c), consistent)

create-IsConsistent : (now : ℕ) (a : CreateArguments) → IsConsistent (create now a).state
unfolding create record_event apply_event
create-IsConsistent now a = ground arith

-- After a document is created and any sequence of calls: its knowledge base, file name, types, time
-- of ingestion, OCR options and metadata are those of its creation; if it is failed, the step and
-- the message of the failure are present; if it is uploaded, both are absent.
pub lifecycle_keeps :
    (now : ℕ) (a : CreateArguments) (commands : List Command)
    → SameIdentity (execute_all (create now a) commands).state (create now a).state
      × IsConsistent (execute_all (create now a) commands).state
lifecycle_keeps now a commands =
    execute_all_keeps (create now a) commands (create-IsConsistent now a)
