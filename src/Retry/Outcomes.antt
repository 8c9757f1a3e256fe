-- ===== src/Retry/Outcomes.antt =====
-- What the loop of a retry leaves in the summary of failures.
use agentic_substrate.Prelude.{
  ℕ, ◌+◌, ◌≡◌, refl, ◌∙◌, ◌⊎◌, inl, inr, ap, sym, Bool, true, false, List, [], ◌∷◌, ◌++◌, String,
  str_eq, eq_iff, eq_refl, All, length, arith, append_assoc, if◌then◌else◌,
}
use mathlib.Core.Bool.{true≢false}
use agentic_substrate.Kernel.Result.{ok}
use agentic_substrate.Run.Entity.{
  FailureItem, DataSourceRun, other_failures, resolve_item_success, check_completion,
}
use agentic_substrate.Retry.{
  RetryServices, RetryRequest, RetryEnvironment, RetryOutcome, resolved, kept, crashed, retry_item,
  retry_items,
}

abbrev pub is_kept : RetryOutcome → Bool
is_kept resolved = false
is_kept kept = true
is_kept (crashed message) = true

abbrev pub is_crash : RetryOutcome → Bool
is_crash resolved = false
is_crash kept = false
is_crash (crashed message) = true

-- The failures that are not resolved.
unfoldable pub unresolved : RetryServices → RetryRequest → ℕ → List FailureItem → List FailureItem
unresolved sv request position [] = []
unresolved sv request position (f ∷ items) =
    let rest = unresolved sv request (position + 1) items in
    if is_kept (retry_item sv request position f) then f ∷ rest else rest

-- No call raises an exception that ends the retry.
unfoldable pub Completes : RetryServices → RetryRequest → ℕ → List FailureItem → Type 0
Completes sv request position [] = Unit
Completes sv request position (f ∷ items) =
    (is_crash (retry_item sv request position f) ≡ false)
    × Completes sv request (position + 1) items

-- None of the items has the name.
abbrev pub Fresh : String → List FailureItem → Type 0
Fresh name items = All (λ g. str_eq g.file_name name ≡ false) items

-- The file names of the items differ from one another.
abbrev pub NamesDiffer : List FailureItem → Type 0
NamesDiffer [] = Unit
NamesDiffer (f ∷ items) = Fresh f.file_name items × NamesDiffer items

-- None of the items is named like one that is done.
abbrev Apart : (done items : List FailureItem) → Type 0
Apart done [] = Unit
Apart done (f ∷ items) = Fresh f.file_name done × Apart done items

pub Apart-nil : (items : List FailureItem) → Apart [] items
Apart-nil [] = tt
Apart-nil (f ∷ items) = (tt, Apart-nil items)

str_eq_sym : (s t : String) → str_eq s t ≡ false → str_eq t s ≡ false
str_eq_sym s t h = ground (arith, eq_iff s t, eq_iff t s)

Fresh-snoc :
    (name : String) (done : List FailureItem) (f : FailureItem)
    → Fresh name done
    → str_eq f.file_name name ≡ false
    → Fresh name (done ++ f ∷ [])
Fresh-snoc name [] f h e = (e, tt)
Fresh-snoc name (g ∷ done) f h e = (h.0, Fresh-snoc name done f h.1 e)

Apart-snoc :
    (done : List FailureItem) (f : FailureItem) (items : List FailureItem)
    → Apart done items
    → Fresh f.file_name items
    → Apart (done ++ f ∷ []) items
Apart-snoc done f [] a h = tt
Apart-snoc done f (g ∷ items) a h = (
  Fresh-snoc g.file_name done f a.0 (str_eq_sym g.file_name f.file_name h.0),
  Apart-snoc done f items a.1 h.1,
)

other_failures-append :
    (name : String) (xs ys : List FailureItem)
    → other_failures name (xs ++ ys) ≡ other_failures name xs ++ other_failures name ys
unfolding other_failures
other_failures-append name [] ys = refl
other_failures-append name (x ∷ xs) ys = ground (arith, other_failures-append name xs ys)

other_failures-Fresh :
    (name : String) (xs : List FailureItem) → Fresh name xs → other_failures name xs ≡ xs
unfolding other_failures
other_failures-Fresh name [] h = refl
other_failures-Fresh name (x ∷ xs) h = rw h.0 (ap (λ l. x ∷ l) (other_failures-Fresh name xs h.1))

-- A name that only the item after `done` has leaves the others.
other_failures-middle :
    (done : List FailureItem) (f : FailureItem) (items : List FailureItem)
    → Fresh f.file_name done
    → Fresh f.file_name items
    → other_failures f.file_name (done ++ f ∷ items) ≡ done ++ items
unfolding other_failures
other_failures-middle done f items before after =
    other_failures-append f.file_name done (f ∷ items)
    ∙ rw
        (
          eq_refl f.file_name,
          other_failures-Fresh f.file_name done before,
          other_failures-Fresh f.file_name items after,
        )
        refl

pub resolve_item_success_lem :
    (now : ℕ) (r : DataSourceRun) (name : String)
    → ((resolve_item_success now r name).failure_summary ≡ other_failures name r.failure_summary)
      × ((resolve_item_success now r name).failed_files_count
          ≡ length (other_failures name r.failure_summary))
      × ((resolve_item_success now r name).id ≡ r.id)
unfolding resolve_item_success check_completion
resolve_item_success_lem now r name = ground arith

pub outcome_cases :
    (o : RetryOutcome)
    → (o ≡ resolved) ⊎ ((o ≡ kept) ⊎ ((message : String) × (o ≡ crashed message)))
outcome_cases resolved = inl refl
outcome_cases kept = inr (inl refl)
outcome_cases (crashed message) = inr (inr (message, refl))

-- What the loop from `r` gives: the run lists what was before and the failures that are not
-- resolved, as many as it counts, and the resolved ones are counted.
pub record Loop (before items left : List FailureItem) (r r' : DataSourceRun) (count count' : ℕ)
    : Type 0 where
  pub summary : r'.failure_summary ≡ before ++ left
  pub listed : r'.failed_files_count ≡ length r'.failure_summary
  pub same_run : r'.id ≡ r.id
  pub counted : count' + length left ≡ count + length items

module _ (env : RetryEnvironment) (request : RetryRequest) where
  abbrev Ends : ℕ → List FailureItem → List FailureItem → DataSourceRun → ℕ → Type 0
  Ends position done items r count =
      (r' : DataSourceRun) × (count' : ℕ) × (retry_items env request position items r count
        ≡ ok (r', count'))
      × Loop done items (unresolved env.services request position items) r r' count count'

  module _ (position : ℕ) (f : FailureItem) (items : List FailureItem) (r : DataSourceRun)
      (count : ℕ) where
    pub after_resolved :
        retry_item env.services request position f ≡ resolved
        → retry_items env request position (f ∷ items) r count
          ≡ retry_items env request
              (position + 1)
              items
              (resolve_item_success env.later r f.file_name)
              (count + 1)
    unfolding retry_items
    after_resolved e = rw (retry_items, e) refl

    pub after_kept :
        retry_item env.services request position f ≡ kept
        → retry_items env request position (f ∷ items) r count
          ≡ retry_items env request (position + 1) items r count
    unfolding retry_items
    after_kept e = rw (retry_items, e) refl

  pub retry_items-Loop :
      (position : ℕ) (done items : List FailureItem) (r : DataSourceRun) (count : ℕ)
      → r.failure_summary ≡ done ++ items
      → r.failed_files_count ≡ length r.failure_summary
      → Apart done items
      → NamesDiffer items
      → Completes env.services request position items
      → Ends position done items r count
  unfolding unresolved Completes
  retry_items-Loop position done [] r count s l a n c = (
    r,
    count,
    unfold retry_items in refl,
    record { summary = s; listed = l; same_run = refl; counted = refl },
  )
  retry_items-Loop position done (f ∷ items) r count s l a n c =
      elim (outcome_cases (retry_item env.services request position f)) [
        | inl e ↦
            let (summary, failed, id) = resolve_item_success_lem env.later r f.file_name in
            let left =
              ap (other_failures f.file_name) s ∙ other_failures-middle done f items a.0 n.0 in
            let (r', count', ends, loop) =
              retry_items-Loop (position + 1) done items
                (resolve_item_success env.later r f.file_name) (count + 1) (summary ∙ left)
                (failed ∙ ap length (sym summary)) a.1 n.1 c.1 in
            (
              r',
              count',
              after_resolved position f items r count e ∙ ends,
              rw e (record {
                summary = loop.summary;
                listed = loop.listed;
                same_run = loop.same_run ∙ id;
                counted = omega (arith, loop.counted);
              }),
            )
        | inr (inl e) ↦
            let (r', count', ends, loop) =
              retry_items-Loop (position + 1) (done ++ f ∷ []) items r count
                (s ∙ sym (append_assoc done (f ∷ []) items)) l (Apart-snoc done f items a.1 n.0) n.1
                c.1 in
            (
              r',
              count',
              after_kept position f items r count e ∙ ends,
              rw e (record {
                summary = loop.summary ∙ append_assoc done (f ∷ []) _;
                listed = loop.listed;
                same_run = loop.same_run;
                counted = omega (arith, loop.counted);
              }),
            )
        | inr (inr (message, e)) ↦ absurd (true≢false (ap is_crash (sym e) ∙ c.0))
      ]
