-- ===== src/Kernel/PostgresStore/Refinement.antt =====
-- The two tables of the Postgres store against the streams of the in-memory store.
use agentic_substrate.Prelude.{
  ℕ, suc, ◌+◌, ◌<◌, ◌==◌, ◌≡◌, refl, sym, ◌∙◌, ap, All, List, [], ◌∷◌, ◌++◌, length, map, arith,
  Bool-cases, inl, inr, ==_iff, ==_refl, append-nil, length-append, false, ◌≤◌, if◌then◌else◌, some,
  subst,
}
use mathlib.Core.List.{Permᴰ}
use mathlib.Core.List.Permᴰ
use agentic_substrate.Kernel.Result.{Result, ok, err, DomainError}
use agentic_substrate.Kernel.Event.{Event}
use agentic_substrate.Kernel.EventStore
use agentic_substrate.Kernel.EventStore.{EventStore, number_from, put_stream, concurrency_conflict}
use agentic_substrate.Kernel.Stream.{
  IsNumbered, number_from-IsNumbered, IsNumbered-append, length-number_from,
}
use agentic_substrate.Kernel.PostgresStore.{
  Row, PostgresStore, version_or_zero, row_of, append_some, append_events, select_events,
  insert_by_version, order_by_version, get_events,
}

test_sym : (a b : ℕ) → (a == b) ≡ false → (b == a) ≡ false
test_sym a b h = ground arith

module _ {E : Type 0} where
  -- `p` holds what `m` holds: the rows of each aggregate are the events of its stream, in whatever
  -- order the table has them, and the version of its row is the length of the stream.
  pub record Represents (p : PostgresStore E) (m : EventStore E) : Type 0 where
    pub rows : (id : ℕ) → Permᴰ (m.streams id) (select_events id p.domain_events)
    pub versions : (id : ℕ) → version_or_zero (p.event_streams id) ≡ length (m.streams id)
    pub numbered : (id : ℕ) → IsNumbered 0 (m.streams id)

  select_events-append :
      (id : ℕ) (xs ys : List (Row E))
      → select_events id (xs ++ ys) ≡ select_events id xs ++ select_events id ys
  unfolding select_events
  select_events-append id [] ys = refl
  select_events-append id (r ∷ xs) ys = ground (arith, select_events-append id xs ys)

  select_events-map_self :
      (id : ℕ) (es : List (Event E)) → select_events id (map (row_of id) es) ≡ es
  unfolding select_events
  select_events-map_self id [] = refl
  select_events-map_self id (e ∷ es) =
      rw (==_refl id) (ap (λ t. e ∷ t) (select_events-map_self id es))

  select_events-map_ne :
      (id j : ℕ) (es : List (Event E))
      → (id == j) ≡ false
      → select_events j (map (row_of id) es) ≡ []
  unfolding select_events
  select_events-map_ne id j [] h = refl
  select_events-map_ne id j (e ∷ es) h = rw h (select_events-map_ne id j es h)

  -- Another version.
  abbrev Differs : Event E → Event E → Type 0
  Differs e f = (e.event_version == f.event_version) ≡ false

  Distinct : List (Event E) → Type 0
  Distinct [] = Unit
  Distinct (e ∷ es) = All (Differs e) es × Distinct es

  numbered-above :
      (k n : ℕ) (e : Event E) (es : List (Event E))
      → e.event_version ≤ n
      → IsNumbered n es
      → All (Differs e) es
  numbered-above k n e [] l h = tt
  numbered-above k n e (f ∷ es) l h =
      (ground (arith, l, h.0), numbered-above k (suc n) e es (omega (arith, l)) h.1)

  numbered-Distinct : (n : ℕ) (es : List (Event E)) → IsNumbered n es → Distinct es
  unfolding Distinct
  numbered-Distinct n [] h = tt
  numbered-Distinct n (e ∷ es) h =
      (numbered-above n (suc n) e es (omega (arith, h.0)) h.1, numbered-Distinct (suc n) es h.1)

  insert_comm :
      (e f : Event E) (es : List (Event E))
      → Differs e f
      → insert_by_version e (insert_by_version f es) ≡ insert_by_version f (insert_by_version e es)
  unfolding insert_by_version
  insert_comm e f [] h = ground arith
  insert_comm e f (g ∷ es) h = ground (arith, insert_comm e f es h)

  Differs-perm :
      (e : Event E) {xs ys : List (Event E)} → Permᴰ xs ys → All (Differs e) xs → All (Differs e) ys
  Differs-perm e Permᴰ.nil h = tt
  Differs-perm e (Permᴰ.cons same d) h = (subst (Differs e) same h.0, Differs-perm e d h.1)
  Differs-perm e (Permᴰ.swap p q) h = (subst (Differs e) q h.1.0, (subst (Differs e) p h.0, h.1.1))
  Differs-perm e (Permᴰ.trans d d') h = Differs-perm e d' (Differs-perm e d h)

  Differs-heads :
      (e f : Event E) (es : List (Event E)) → e ≡ f → All (Differs e) es → All (Differs f) es
  Differs-heads e f es same h = subst (λ g. All (Differs g) es) same h

  Differs-both : (e f g k : Event E) → e ≡ g → f ≡ k → Differs e f → Differs k g
  Differs-both e f g k p q h =
      test_sym g.event_version k.event_version
        (subst (λ a. Differs a k) p (subst (λ b. Differs e b) q h))

  Distinct-perm : {xs ys : List (Event E)} → Permᴰ xs ys → Distinct xs → Distinct ys
  unfolding Distinct
  Distinct-perm Permᴰ.nil h = tt
  Distinct-perm (Permᴰ.cons {a = a} {b = b} {l₂ = l} same d) h =
      (Differs-heads a b l same (Differs-perm a d h.0), Distinct-perm d h.1)
  Distinct-perm (Permᴰ.swap {a = a} {b = b} {a' = c} {b' = f} {l = l} p q) h = (
    (Differs-both a b f c p q h.0.0, Differs-heads b c l q h.1.0),
    (Differs-heads a f l p h.0.1, h.1.1),
  )
  Distinct-perm (Permᴰ.trans d d') h = Distinct-perm d' (Distinct-perm d h)

  -- The order does not tell two orders of the rows apart, where no version comes twice.
  order_by_version-perm :
      {xs ys : List (Event E)}
      → Permᴰ xs ys
      → Distinct xs
      → order_by_version xs ≡ order_by_version ys
  unfolding Distinct order_by_version
  order_by_version-perm Permᴰ.nil h = refl
  order_by_version-perm (Permᴰ.cons {a = a} {b = b} {l₁ = l} same d) h =
      ap (λ e. insert_by_version e (order_by_version l)) same
      ∙ ap (insert_by_version b) (order_by_version-perm d h.1)
  order_by_version-perm (Permᴰ.swap {a = a} {b = b} {b' = f} {l = l} p q) h =
      insert_comm a b (order_by_version l) h.0.0
      ∙ ap (λ e. insert_by_version b (insert_by_version e (order_by_version l))) p
      ∙ ap (λ e. insert_by_version e (insert_by_version f (order_by_version l))) q
  order_by_version-perm (Permᴰ.trans d d') h =
      order_by_version-perm d h ∙ order_by_version-perm d' (Distinct-perm d h)

  insert_first :
      (n : ℕ) (e : Event E) (es : List (Event E))
      → e.event_version ≤ n
      → IsNumbered n es
      → insert_by_version e es ≡ e ∷ es
  unfolding insert_by_version
  insert_first n e [] h k = refl
  insert_first n e (f ∷ es) h k = ground arith

  -- A numbered stream is already in the order that the query asks for.
  pub order_by_version_numbered :
      (n : ℕ) (es : List (Event E)) → IsNumbered n es → order_by_version es ≡ es
  unfolding order_by_version
  order_by_version_numbered n [] h = refl
  order_by_version_numbered n (e ∷ es) h =
      rw (order_by_version_numbered (suc n) es h.1) (insert_first (suc n) e es (omega arith) h.1)

  -- From tables that hold what the in-memory store holds, with the rows in any order, the query gives
  -- the events of the stream in the stream's order, for every id.
  pub get_events-eq :
      (p : PostgresStore E) (m : EventStore E)
      → Represents p m
      → (id : ℕ) → get_events p id ≡ EventStore.get_events m id
  unfolding get_events EventStore.get_events
  get_events-eq p m h id =
      sym (order_by_version-perm (h.rows id) (numbered-Distinct 0 (m.streams id) (h.numbered id)))
      ∙ order_by_version_numbered 0 (m.streams id) (h.numbered id)

  -- How the results of the two `append_events` agree: both fail alike, or both succeed, publish the
  -- same events, and leave stores that hold the same.
  abbrev pub SameOutcome :
      Result (PostgresStore E × List (Event E)) DomainError
      → Result (EventStore E × List (Event E)) DomainError
      → Type 0
  SameOutcome (ok (p, es)) (ok (m, fs)) = Represents p m × (es ≡ fs)
  SameOutcome (err d) (err e) = d ≡ e
  SameOutcome (ok a) (err e) = ⊥
  SameOutcome (err d) (ok b) = ⊥

  module _ (p : PostgresStore E) (m : EventStore E) (h : Represents p m) (id : ℕ)
      (events : List (Event E)) where
    abbrev numbered_events : List (Event E)
    numbered_events = number_from (length (m.streams id)) events

    committed-Represents :
        Represents
          (record {
            event_streams = λ j.
                if j == id then some (length (m.streams id) + length events) else p.event_streams j;
            domain_events = p.domain_events ++ map (row_of id) numbered_events;
          })
          (put_stream m id (m.streams id ++ numbered_events))
    unfolding put_stream
    committed-Represents = record {
      rows = λ j. elim (Bool-cases (j == id)) [
        | inl e ↦
            rw (e, (==_iff j id).0 e, select_events-append, select_events-map_self)
              (Permᴰ.append_right numbered_events (h.rows id))
        | inr e ↦
            rw
              (
                e,
                select_events-append,
                select_events-map_ne id j numbered_events (test_sym j id e),
                append-nil,
              )
              (h.rows j)
      ];
      versions = λ j. elim (Bool-cases (j == id)) [
        | inl e ↦ rw e (
            omega (
              arith,
              length-append (m.streams id) numbered_events,
              length-number_from (length (m.streams id)) events,
            ))
        | inr e ↦ rw e (h.versions j)
      ];
      numbered = λ j. elim (Bool-cases (j == id)) [
        | inl e ↦ rw e (
            IsNumbered-append 0 (m.streams id) numbered_events (h.numbered id) (
              subst (λ n. IsNumbered n numbered_events) (omega arith)
                (number_from-IsNumbered (length (m.streams id)) events)))
        | inr e ↦ rw e (h.numbered j)
      ];
    }

    append_some-refines :
        (expected_version : ℕ)
        → SameOutcome
            (append_some p id events expected_version)
            (EventStore.append_events m id events expected_version)
    unfolding append_some EventStore.append_events
    append_some-refines expected_version =
        rw (h.versions id) (elim (Bool-cases (length (m.streams id) == expected_version)) [
          | inl e ↦ rw e (committed-Represents, refl)
          | inr e ↦ rw e refl
        ])

  -- From tables that hold what the in-memory store holds, appending at least one event has the same
  -- outcome in both: both raise the concurrency error, or both publish the same numbered events and
  -- hold the same afterwards.
  pub append_events-refines :
      (p : PostgresStore E) (m : EventStore E) (id : ℕ) (events : List (Event E))
      (expected_version : ℕ)
      → Represents p m
      → 0 < length events
      → SameOutcome
          (append_events p id events expected_version)
          (EventStore.append_events m id events expected_version)
  unfolding append_events
  append_events-refines p m id [] expected_version h some_events = absurd (omega arith)
  append_events-refines p m id (e ∷ events) expected_version h some_events =
      append_some-refines p m h id (e ∷ events) expected_version
