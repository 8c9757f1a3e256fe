-- ===== src/Tests/Stores.antt =====
-- Tests of the event stores.
use agentic_substrate.Prelude.{
  ℕ, true, false, ◌≡◌, refl, none, some, [], ◌∷◌, ◌==◌, if◌then◌else◌, arith, Bool-cases, inl, inr,
}
use mathlib.Core.List.{Permᴰ}
use agentic_substrate.Kernel.Event.{Event}
use agentic_substrate.Kernel.EventStore
use agentic_substrate.Kernel.EventStore.{EventStore}
use agentic_substrate.Kernel.PostgresStore.{
  PostgresStore, append_events, get_events, row_of, select_events,
}
use agentic_substrate.Kernel.PostgresStore.Refinement.{
  Represents, SameOutcome, append_events-refines, get_events-eq,
}

abbrev empty_tables : PostgresStore ℕ
empty_tables = record { event_streams = λ id. none; domain_events = [] }

abbrev empty_store : EventStore ℕ
empty_store = record { streams = λ id. [] }

empty-Represents : Represents empty_tables empty_store
unfolding select_events
empty-Represents = record { rows = λ id. Permᴰ.nil; versions = λ id. refl; numbered = λ id. tt }

abbrev event : ℕ → Event ℕ
event n = record {
  aggregate_id = 3;
  aggregate_type = "Test";
  event_version = 1;
  metadata = [];
  payload = n;
}

append_events-refines_example :
    SameOutcome
      (append_events empty_tables 3 (event 10 ∷ event 11 ∷ []) 0)
      (EventStore.append_events empty_store 3 (event 10 ∷ event 11 ∷ []) 0)
append_events-refines_example =
    append_events-refines empty_tables empty_store 3 (event 10 ∷ event 11 ∷ []) 0 empty-Represents
      (omega arith)

abbrev versioned : ℕ → ℕ → Event ℕ
versioned version n = record (event n) { event_version = version }

-- Two events of the aggregate 3, the second one first.
abbrev shuffled : PostgresStore ℕ
shuffled = record {
  event_streams = λ id. if id == 3 then some 2 else none;
  domain_events = row_of 3 (versioned 2 11) ∷ row_of 3 (versioned 1 10) ∷ [];
}

abbrev held : EventStore ℕ
held = record { streams = λ id. if id == 3 then versioned 1 10 ∷ versioned 2 11 ∷ [] else [] }

test_of : (id : ℕ) → (id == 3) ≡ true → (3 == id) ≡ true
test_of id e = ground arith

test_not : (id : ℕ) → (id == 3) ≡ false → (3 == id) ≡ false
test_not id e = ground arith

shuffled-Represents : Represents shuffled held
unfolding select_events
shuffled-Represents = record {
  rows = λ id. elim (Bool-cases (id == 3)) [
    | inl e ↦ rw (e, test_of id e) (Permᴰ.swap refl refl)
    | inr e ↦ rw (e, test_not id e) Permᴰ.nil
  ];
  versions = λ id. elim (Bool-cases (id == 3)) [ inl e ↦ rw e refl | inr e ↦ rw e refl ];
  numbered =
      λ id. elim (Bool-cases (id == 3)) [ inl e ↦ rw e (refl, (refl, tt)) | inr e ↦ rw e tt ];
}

get_events-eq_example : get_events shuffled 3 ≡ EventStore.get_events held 3
get_events-eq_example = get_events-eq shuffled held shuffled-Represents 3
