-- ===== src/Run/Projector.antt =====
-- src/modules/knowledge/application/handlers/data_source_run_projector.py: counts the documents of
-- a run by the events that tell of their end, and announces the run's own end.
use agentic_substrate.Prelude.{
  ℕ, ◌≡◌, Option, none, some, List, [], ◌∷◌, ◌++◌, String, if◌then◌else◌, Value, null, str,
  get_value, str_eq, Metadata,
}
use agentic_substrate.Kernel.Event.{Event}
use agentic_substrate.Events.{Payload, knowledge_indexed, processing_failed}
use agentic_substrate.Run.Entity.{RunStatus, is_terminal}
use agentic_substrate.Run.Repository.{Progress, RunRepository, basic_item}

-- The text form of identifiers: `str(id)`, and `UUID(text)` with none for its `ValueError`.
pub record UuidText : Type 0 where
  pub show : ℕ → String
  pub parse : String → Option ℕ
  pub parse-show : (id : ℕ) → parse (show id) ≡ some id

pub record RunCompleted : Type 0 where
  pub run_id : ℕ
  pub data_source_id : ℕ
  pub kb_id : ℕ
  pub status : RunStatus
  pub total_files : ℕ
  pub indexed_files : ℕ
  pub failed_files : ℕ

-- A text that is empty counts as missing, as null does.
abbrev pub present : Value → Option String
present null = none
present (str s) = if str_eq s "" then none else some s

abbrev pub bind {ℓ κ} : {A : Type ℓ} {B : Type κ} → Option A → (A → Option B) → Option B
bind none f = none
bind (some a) f = f a

module _ (uuid : UuidText) where
  -- The run that an event's metadata name.
  unfoldable pub sync_run_id : Metadata → Option ℕ
  unfolding get_value
  sync_run_id m = bind (present (get_value "sync_run_id" m)) uuid.parse

  abbrev or_text : Option String → String → String
  or_text none s = s
  or_text (some t) s = t

  -- `event.metadata.get("file_name") or event.document_id`, as a text.
  unfoldable pub failed_file_name : Metadata → ℕ → String
  unfolding get_value
  failed_file_name m document_id =
      or_text (present (get_value "file_name" m)) (uuid.show document_id)

-- The events that are published, `_publish_run_completed_raw` among the rest.
unfoldable pub completed_events : ℕ → Option Progress → List RunCompleted
unfolding is_terminal
completed_events run_id none = []
completed_events run_id (some p) =
    if is_terminal p.status
    then record {
      run_id = run_id;
      data_source_id = p.data_source_id;
      kb_id = p.kb_id;
      status = p.status;
      total_files = p.total;
      indexed_files = p.indexed;
      failed_files = p.failed;
    }
      ∷ []
    else []

module _ (uuid : UuidText) (repo : RunRepository) where
  open repo use {Table, count_indexed, count_failed}

  abbrev pub Outcome : Type 0
  Outcome = List RunCompleted × Table

  -- Counts a document for the run that its event names, and announces that run if it has ended.
  abbrev pub counted : (Table → ℕ → Option Progress × Table) → Table → Option ℕ → Outcome
  counted op t none = ([], t)
  counted op t (some run_id) = (completed_events run_id (op t run_id).0, (op t run_id).1)

  abbrev pub handle_payload : ℕ → Table → Metadata → Payload → Outcome
  handle_payload now t m (knowledge_indexed e) = counted (count_indexed now) t (sync_run_id uuid m)
  handle_payload now t m (processing_failed e) =
      counted
        (count_failed now
          (basic_item e.document_id (failed_file_name uuid m e.document_id) e.error_message))
        t (sync_run_id uuid m)
  handle_payload now t m _ = ([], t)

  -- What is published, with an event bus in place, and the table afterwards.
  unfoldable pub handle : ℕ → Table → Event Payload → Outcome
  unfolding sync_run_id failed_file_name completed_events basic_item
  handle now t e = handle_payload now t e.metadata e.payload

  -- The events in the order in which they are handled, each with its time.
  unfoldable pub handle_all : Table → List (ℕ × Event Payload) → Outcome
  unfolding handle
  handle_all t [] = ([], t)
  handle_all t ((now, e) ∷ events) =
      let (first, t') = handle now t e in
      let (rest, t'') = handle_all t' events in (first ++ rest, t'')
