-- ===== src/Run/Entity/Counts.antt =====
-- The counts, the summary and the status of a run, from the reports on its files.
use agentic_substrate.Prelude.{
  ℕ, zero, suc, ◌+◌, ◌≡◌, refl, ◌∙◌, ap, sym, subst, List, [], ◌∷◌, ◌++◌, append_assoc, append-nil,
  foldl, length, length-append, leb, if◌then◌else◌, arith,
}
use agentic_substrate.Run.Entity.{
  RunStatus, ingesting, completed, partially_failed, failed, FailureItem, DataSourceRun, new_run,
  mark_ingesting, final_status, check_completion, record_document_indexed, record_document_failed,
}

-- A document of the run is indexed, or it fails, at a time.
pub data Report : Type 0 where
  indexes : (now : ℕ) → Report
  fails : (now : ℕ) → FailureItem → Report

abbrev pub report : DataSourceRun → Report → DataSourceRun
report r (indexes now) = record_document_indexed now r
report r (fails now item) = record_document_failed now r item

abbrev pub indexed_in : List Report → ℕ
indexed_in [] = 0
indexed_in (indexes now ∷ reports) = suc (indexed_in reports)
indexed_in (fails now item ∷ reports) = indexed_in reports

abbrev pub failures_in : List Report → List FailureItem
failures_in [] = []
failures_in (indexes now ∷ reports) = failures_in reports
failures_in (fails now item ∷ reports) = item ∷ failures_in reports

-- How a run ends, by its indexed and its failed documents.
abbrev pub ending : (indexed failures : ℕ) → RunStatus
ending indexed zero = completed
ending zero (suc failures) = failed
ending (suc indexed) (suc failures) = partially_failed

final_status-ending : (i f : ℕ) → final_status i f ≡ ending i f
unfolding final_status
final_status-ending zero zero = ground arith
final_status-ending (suc i) zero = ground arith
final_status-ending zero (suc f) = ground arith
final_status-ending (suc i) (suc f) = ground arith

-- The run `r` of `total` files after `i` indexed ones and the failures `fs`.
record Counted (total i : ℕ) (fs : List FailureItem) (r : DataSourceRun) : Type 0 where
  total_files : r.total_files_discovered ≡ total
  indexed : r.indexed_files_count ≡ i
  failures : r.failed_files_count ≡ length fs
  summary : r.failure_summary ≡ fs
  status : r.status ≡ (if leb total (i + length fs) then ending i (length fs) else ingesting)

announced-Counted :
    (id ds kb start now total : ℕ)
    → Counted total 0 [] (mark_ingesting now (new_run id ds kb start) total)
unfolding mark_ingesting new_run
announced-Counted id ds kb start now total = ground arith

indexes-Counted :
    (total i now : ℕ) (fs : List FailureItem) (r : DataSourceRun)
    → Counted total i fs r
    → Counted total (suc i) fs (record_document_indexed now r)
unfolding record_document_indexed check_completion
indexes-Counted total i now fs r h = ground (arith, final_status-ending (suc i) (length fs))

fails-Counted :
    (total i now : ℕ) (fs : List FailureItem) (item : FailureItem) (r : DataSourceRun)
    → Counted total i fs r
    → Counted total i (fs ++ item ∷ []) (record_document_failed now r item)
unfolding record_document_failed check_completion
fails-Counted total i now fs item r h =
    ground (arith, length-append fs (item ∷ []), final_status-ending i (suc (length fs)))

reports-Counted :
    (total i : ℕ) (fs : List FailureItem) (r : DataSourceRun) (reports : List Report)
    → Counted total i fs r
    → Counted total (i + indexed_in reports) (fs ++ failures_in reports) (foldl report r reports)
reports-Counted total i fs r [] h =
    subst (λ j. Counted total j (fs ++ []) r) (omega arith)
      (subst (λ gs. Counted total i gs r) (sym (append-nil fs)) h)
reports-Counted total i fs r (indexes now ∷ reports) h =
    subst
      (λ j.
        Counted total j (fs ++ failures_in reports)
          (foldl report (record_document_indexed now r) reports))
      (omega arith)
      (reports-Counted total (suc i) fs (record_document_indexed now r) reports
        (indexes-Counted total i now fs r h))
reports-Counted total i fs r (fails now item ∷ reports) h =
    subst
      (λ gs.
        Counted total (i + indexed_in reports) gs
          (foldl report (record_document_failed now r item) reports))
      (append_assoc fs (item ∷ []) (failures_in reports))
      (reports-Counted total i (fs ++ item ∷ []) (record_document_failed now r item) reports
        (fails-Counted total i now fs item r h))

length-reports :
    (reports : List Report) → indexed_in reports + length (failures_in reports) ≡ length reports
length-reports [] = refl
length-reports (indexes now ∷ reports) = omega (arith, length-reports reports)
length-reports (fails now item ∷ reports) = omega (arith, length-reports reports)

-- After any reports on a new run to which `total` files have been announced, indexed and failed ones
-- in any order: the counts are the numbers of the two, the summary lists the failures in their order,
-- and the run is ingesting while there are fewer than `total` reports. From then on it is completed if
-- none failed, failed if none was indexed, and partially failed otherwise.
pub reports_counted :
    (id ds kb start now total : ℕ) (reports : List Report)
    → let r = foldl report (mark_ingesting now (new_run id ds kb start) total) reports in
      (r.indexed_files_count ≡ indexed_in reports)
      × (r.failed_files_count ≡ length (failures_in reports))
      × (r.failure_summary ≡ failures_in reports)
      × (r.status ≡ (
          if leb total (length reports)
          then ending (indexed_in reports) (length (failures_in reports))
          else ingesting))
reports_counted id ds kb start now total reports =
    let announced = mark_ingesting now (new_run id ds kb start) total in
    let h =
      subst (λ i. Counted total i (failures_in reports) (foldl report announced reports))
        (omega arith)
        (reports-Counted total 0 [] announced reports
          (announced-Counted id ds kb start now total)) in
    (
      h.indexed,
      h.failures,
      h.summary,
      h.status
          ∙ ap
              (λ n.
                if leb total n
                then ending (indexed_in reports) (length (failures_in reports))
                else ingesting)
              (length-reports reports),
    )
