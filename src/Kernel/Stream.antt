-- ===== src/Kernel/Stream.antt =====
-- A stream as `EventStore.append_events` leaves it is numbered from 1, and `load_from_history`
-- of a numbered stream counts it.
use agentic_substrate.Prelude.{
  ℕ, suc, ◌+◌, ◌≡◌, refl, sym, ◌∙◌, List, [], ◌∷◌, ◌++◌, foldl, length, arith, ==_refl, subst,
}
use agentic_substrate.Kernel.Event.{Event}
use agentic_substrate.Kernel.Aggregate.{Aggregate, load_event, load_from_history}
use agentic_substrate.Kernel.EventStore.{EventStore, number_from, put_stream}

-- The events carry the versions n + 1, n + 2, and so on.
abbrev pub IsNumbered : {E : Type 0} → ℕ → List (Event E) → Type 0
IsNumbered n [] = Unit
IsNumbered n (e ∷ events) = (e.event_version ≡ suc n) × IsNumbered (suc n) events

module _ {E : Type 0} where
  pub number_from-IsNumbered :
      (n : ℕ) (events : List (Event E)) → IsNumbered n (number_from n events)
  unfolding number_from
  number_from-IsNumbered n [] = tt
  number_from-IsNumbered n (e ∷ events) = (refl, number_from-IsNumbered (suc n) events)

  pub length-number_from :
      (n : ℕ) (events : List (Event E)) → length (number_from n events) ≡ length events
  unfolding number_from
  length-number_from n [] = refl
  length-number_from n (e ∷ events) = omega (arith, length-number_from (suc n) events)

  pub IsNumbered-append :
      (n : ℕ) (xs ys : List (Event E))
      → IsNumbered n xs
      → IsNumbered (n + length xs) ys
      → IsNumbered n (xs ++ ys)
  IsNumbered-append n [] ys h k = subst (λ m. IsNumbered m ys) (omega arith) k
  IsNumbered-append n (x ∷ xs) ys h k =
      (h.0, IsNumbered-append (suc n) xs ys h.1 (subst (λ m. IsNumbered m ys) (omega arith) k))

  pub put_stream-get :
      (s : EventStore E) (id : ℕ) (events : List (Event E))
      → (put_stream s id events).streams id ≡ events
  unfolding put_stream
  put_stream-get s id events = rw (==_refl id)

module _ {S E : Type 0} (apply : S → Event E → S) where
  -- The state after loading is the fold of the handlers, and the version counts the events.
  pub load_from_history_lem :
      (a : Aggregate S E) (events : List (Event E))
      → IsNumbered a.version events
      → load_from_history apply a events
        ≡ record a { state = foldl apply a.state events; version = a.version + length events }
  unfolding load_from_history load_event
  load_from_history_lem a [] h = ground arith
  load_from_history_lem a (e ∷ events) h =
      let next : (load_event apply a e).version ≡ suc a.version = omega arith in
      load_from_history_lem (load_event apply a e) events
        (subst (λ m. IsNumbered m events) (sym next) h.1)
      ∙ ground arith

  -- Numbering changes no state, if the handlers do not read the version.
  pub foldl-number_from :
      ((s : S) (e : Event E) (n : ℕ) → apply s (record e { event_version = n }) ≡ apply s e)
      → (s : S) (n : ℕ) (events : List (Event E))
      → foldl apply s (number_from n events) ≡ foldl apply s events
  unfolding number_from
  foldl-number_from blind s n [] = refl
  foldl-number_from blind s n (e ∷ events) =
      rw (foldl, blind s e (suc n)) (foldl-number_from blind (apply s e) (suc n) events)
