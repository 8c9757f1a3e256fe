-- ===== src/Kernel/Event.antt =====
-- src/kernel/domain/domain_event.py. `payload` holds the fields that the event's class adds. The
-- random `event_id` and the time `occurred_at` are left out: nothing modelled reads them.
use agentic_substrate.Prelude.{ℕ, String, Metadata}

pub record Event (E : Type 0) : Type 0 where
  pub aggregate_id : ℕ
  pub aggregate_type : String
  pub event_version : ℕ
  pub metadata : Metadata
  pub payload : E
