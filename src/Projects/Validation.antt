-- ===== src/Projects/Validation.antt =====
-- Automated validation (backend/app/modules/projects/engines.py, `run_auto_validation`).
use blyns_ops.Prelude.{
  ℕ, ◌+◌, String, Bool, true, false, List, [], ◌∷◌, ◌++◌, not, ◌&&◌, ◌||◌, ◌==◌, ltb, str_eq,
  if◌then◌else◌, filter_by, mem, all_of,
}
use blyns_ops.Tenant.{
  Db, Project, Budget, StageDef, StageInstance, Report, ReportStatus, open_report,
  report_in_progress,
}
use blyns_ops.Projects.Engine.{Evaluation, is_empty, evaluate_stage}

-- A check by its key.
pub record Check : Type 0 where
  pub key : String
  pub passed : Bool

pub record Validation : Type 0 where
  pub checks : List Check
  pub evaluation : Evaluation

abbrev check : String → Bool → Check
check k b = record { key = k; passed = b }

abbrev pub all_passed : List Check → Bool
all_passed cs = all_of (λ c. c.passed) cs

-- `OPEN_REPORT_STATUSES`
abbrev pub is_open_status : ReportStatus → Bool
is_open_status open_report = true
is_open_status report_in_progress = true
is_open_status _ = false

-- `open_snags`
unfoldable pub open_snags : ℕ → Db → List Report
open_snags project s =
    filter_by
      (λ r.
        r.project_id == project
        && str_eq r.type_ "na"
        && is_open_status r.status
        && not r.is_deleted)
      s.pm.reports

-- Over the planned budget, if one is set.
abbrev pub over_budget : Budget → Bool
over_budget b = ltb 0 b.planned && ltb b.planned (b.actual + b.committed)

-- The check of the release checklist, for a definition that has one.
abbrev release_checks : StageDef → StageInstance → List Check
release_checks d i = elim d.release_checklist [
  | [] ↦ []
  | x ∷ xs ↦ check "release_checklist_complete" (all_of (λ y. mem y i.checklist_done) (x ∷ xs)) ∷ []
]

-- `HANDOVER_STAGE_KEY`
abbrev pub handover_stage_key : String
handover_stage_key = "final_inspection_handover"

abbrev snag_checks : Project → StageDef → Db → List Check
snag_checks project d s =
    if str_eq d.key handover_stage_key
    then check "snags_closed" (is_empty (open_snags project.id s) || project.client_acceptance) ∷ []
    else []

abbrev checks_of : Evaluation → Project → StageDef → StageInstance → Db → List Check
checks_of e project d i s =
    check "documents_present" (is_empty e.waiting_on)
    ∷ check "dependencies_complete" (is_empty e.blocked_by)
    ∷ check "quality_gates_passed" (is_empty e.gate_failures)
    ∷ check "budget_ok" (not (over_budget project.budget))
    ∷ (release_checks d i ++ snag_checks project d s)

-- `run_auto_validation`
unfoldable pub run_auto_validation : Project → StageDef → StageInstance → Db → Validation
unfolding open_snags
run_auto_validation project d i s = record {
  checks = checks_of (evaluate_stage project d i s) project d i s;
  evaluation = evaluate_stage project d i s;
}
