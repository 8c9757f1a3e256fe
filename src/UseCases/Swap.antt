-- ===== src/UseCases/Swap.antt =====
-- src/modules/knowledge/application/handlers/blue_green_document_swap_handler.py.
pub mod Results
use agentic_substrate.Prelude.{
  ℕ, Bool, true, false, Option, none, some, List, [], ◌∷◌, String, str_eq, Metadata, get_value,
  if◌then◌else◌,
}
use agentic_substrate.Kernel.Event.{Event}
use agentic_substrate.Events.{Payload, knowledge_indexed, KnowledgeIndexed}
use agentic_substrate.Run.Projector.{UuidText, present}
use agentic_substrate.UseCases.World.{World}
use agentic_substrate.UseCases.DeleteDocument.{delete_by_request}

-- The knowledge base of the old version; `invalid` stands for the `ValueError` that `UUID` raises.
pub data Target : Type 0 where
  no_target invalid : Target
  target : ℕ → Target

abbrev parsed_target : Option ℕ → Target
parsed_target none = invalid
parsed_target (some id) = target id

abbrev named_target : UuidText → Event Payload → Option String → Target
named_target uuid event (some text) = parsed_target (uuid.parse text)
named_target uuid event none =
    if str_eq event.aggregate_type "KnowledgeBaseAggregate"
    then target event.aggregate_id
    else no_target

abbrev first_target : UuidText → Event Payload → Option ℕ → Target
first_target uuid event (some kb_id) = target kb_id
first_target uuid event none = named_target uuid event (present (get_value "kb_id" event.metadata))

unfoldable pub target_kb : UuidText → Event Payload → KnowledgeIndexed → Target
unfolding get_value
target_kb uuid event e = first_target uuid event e.kb_id

-- The identifier of the old version, if the metadata name a valid one.
abbrev pub parse_present : UuidText → Option String → Option ℕ
parse_present uuid none = none
parse_present uuid (some text) = uuid.parse text

unfoldable pub replaced_document : UuidText → Metadata → Option ℕ
unfolding get_value
replaced_document uuid m = parse_present uuid (present (get_value "replaces_doc_id" m))

module _ {Graph : Type 0} (uuid : UuidText) (delete_subgraph : ℕ → ℕ → Graph → Graph)
    (has_bus : Bool) where
  -- The world after the handling, and whether an error is raised.
  abbrev delete_replaced : World Graph → ℕ → Target → Bool × World Graph
  delete_replaced w old no_target = (false, w)
  delete_replaced w old invalid = (true, w)
  delete_replaced w old (target kb_id) = (
    false,
    (delete_by_request uuid delete_subgraph has_bus w
        (record { kb_id = kb_id; document_id = old })).1,
  )

  abbrev pub swap_for : World Graph → Target → Option ℕ → Bool × World Graph
  swap_for w t none = (false, w)
  swap_for w t (some old) = delete_replaced w old t

  abbrev pub swap_payload : World Graph → Event Payload → Payload → Bool × World Graph
  swap_payload w event (knowledge_indexed e) =
      swap_for w (target_kb uuid event e) (replaced_document uuid event.metadata)
  swap_payload w event _ = (false, w)

  unfoldable pub handle_swap : World Graph → Event Payload → Bool × World Graph
  unfolding target_kb replaced_document delete_by_request
  handle_swap w event = swap_payload w event event.payload
