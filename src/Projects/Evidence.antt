-- ===== src/Projects/Evidence.antt =====
-- Documents, gate results and waivers of a stage (backend/app/modules/projects/service.py).
use blyns_ops.Prelude.{
  ℕ, ◌+++◌, String, Bool, true, false, Option, none, some, List, [], ◌∷◌, not, ◌&&◌, ◌==◌, str_eq,
  or_else, if◌then◌else◌, find_one, insert_one, mem, add, to_set, sorted,
}
use blyns_ops.Prelude.Int.{ℤ}
use blyns_ops.Tenant.{
  Principal, RawId, Exec, ok, pure, reads, or_raise, raise_if, modify, ◌>>=◌, ◌>>◌, domain_error,
  tenant_not_found, validation_error, permission_denied, oid, new_id, Project, ProjectStatus,
  engine_hold, StageDef, StageInstance, StageStatus, EntryGate, GateType, GateRule, GateResult,
  ChecklistResult, commented, Recovery, Deliverable,
}
use blyns_ops.Projects.Definitions.{
  scope_for_project, gate_rule, stage_def_by_key, stage_instance, set_stage_fields, update_project,
  find_project, log_project,
}
use blyns_ops.Projects.Approvers.{may_approve}
use blyns_ops.Projects.Gates.{Verdict, evaluate_gate_result}
use blyns_ops.Projects.Engine.{run_decision_engine}
use blyns_ops.Projects.Reports.{file_report}
use blyns_ops.Projects.Stages.{Stage, require_stage, instance_again}

-- `supply_document`: the entry gate, and the document that a document gate wants. The reference to the
-- document that the stage keeps is left out.
abbrev is_document : EntryGate → Bool
is_document g = elim g.type_ [ GateType.document ↦ true | _ ↦ false ]

unfoldable pub require_deliverable : Project → RawId → Exec Deliverable
unfolding oid
require_deliverable project raw = do
  id ← reads (λ s. oid raw)
  reads (λ s.
      or_raise
        (find_one (λ d. id == d.id && d.project_id == project.id && not d.is_deleted)
          s.pm.deliverables)
        (domain_error tenant_not_found 404))

unfoldable pub check_evidence : Project → EntryGate → Option RawId → Exec Unit
unfolding require_deliverable
check_evidence project g none = raise_if (is_document g) (domain_error validation_error 422)
check_evidence project g (some raw) = do _ ← require_deliverable project raw; pure tt

unfoldable pub supply_document : Principal → RawId → ℕ → String → Option RawId → Exec StageInstance
unfolding check_evidence
supply_document pr raw order key deliverable = do
  st ← require_stage raw order
  g ← reads (λ s.
      or_raise (find_one (λ (g : EntryGate). str_eq g.key key) st.stage_def.entry_gates)
        (domain_error validation_error 422))
  check_evidence st.project g deliverable
  _ ←
      set_stage_fields st.inst.id (λ i. record i {
        documents_supplied = sorted (add key (to_set st.inst.documents_supplied));
      })
  i ← instance_again st.project order
  placed ← run_decision_engine pr st.project st.stage_def i
  log_project pr "gate.passed" st.project
  pure placed.0

-- The rule of a gate that attaches to the stage; an empty list attaches to all.
abbrev attaches : GateRule → StageDef → Bool
attaches rule d = elim rule.attach_to_stages [ [] ↦ true | x ∷ xs ↦ mem d.key (x ∷ xs) ]

unfoldable pub require_rule : Stage → String → Exec GateRule
require_rule st key = reads (λ s.
    or_raise (gate_rule key (scope_for_project st.project s) s) (domain_error tenant_not_found 404))

abbrev measured :
    Principal → Stage → String → List (Option ℤ) → List ChecklistResult → Verdict → ℕ → GateResult
measured pr st key readings results v id = record {
  id = id;
  stage_instance_id = st.inst.id;
  project_id = st.project.id;
  gate_key = key;
  captured_by = pr.user_id;
  captured_at = pr.now;
  readings = readings;
  checklist_results = results;
  passed = v.passed;
  severe = v.severe;
  waived = false;
  reason = none;
}

unfoldable pub insert_gate_result : (ℕ → GateResult) → Exec GateResult
insert_gate_result row = do
  id ← new_id
  modify
      (λ s. record s { pm = record s.pm { gate_results = insert_one s.pm.gate_results (row id) } })
  pure (row id)

-- `_rollback_to`: the stage is given up, and an earlier one is reopened and placed again.
unfoldable pub give_up : Option StageInstance → Option String → Exec Unit
give_up none reason = pure tt
give_up (some i) reason = do
  _ ←
      set_stage_fields i.id
        (λ x. record x { status = StageStatus.rejected; blocking_reason = some (commented reason) })
  pure tt

unfoldable pub reopen_target :
    Principal → Project → StageDef → Option Project → Option StageInstance → Exec Unit
reopen_target pr project target (some reopened) (some i) = do
  _ ←
      set_stage_fields i.id
        (λ x. record x { status = StageStatus.in_progress; blocking_reason = none })
  again ← instance_again project target.order
  _ ← run_decision_engine pr reopened target again
  pure tt
reopen_target pr project target _ _ = pure tt

unfoldable pub return_to : Principal → Project → Option StageDef → Exec Unit
unfolding reopen_target
return_to pr project none = pure tt
return_to pr project (some target) = do
  _ ← update_project project.id (λ p. record p {
    status = ProjectStatus.active;
    current_stage_order = target.order;
    current_stage_key = target.key;
  })
  reopened ← reads (λ s. ok (find_project project.id s))
  i ← reads (λ s. ok (stage_instance project.id target.order s))
  reopen_target pr project target reopened i

unfoldable pub rollback_to : Principal → Project → StageDef → String → Option String → Exec Unit
unfolding give_up return_to
rollback_to pr project d key reason = do
  current ← reads (λ s. ok (stage_instance project.id d.order s))
  give_up current reason
  target ← reads (λ s. ok (stage_def_by_key key (scope_for_project project s) s))
  return_to pr project target
  log_project pr "stage.rolled_back" project

-- `a or b`, on texts that may be missing or empty
abbrev pub text_or : Option String → Option String → Option String
text_or none b = b
text_or (some a) b = if str_eq a "" then b else some a

abbrev pub breach_report : GateRule → Recovery → String
breach_report rule r =
    or_else (text_or rule.severe_report_type (text_or r.report_type none))
      (if r.return_to_stage then "change" else "issue")

abbrev pub rollback_target : Recovery → Option String
rollback_target r = if r.return_to_stage then text_or r.target none else none

-- After a severe breach: a report, and the way back, or a hold on the project.
unfoldable pub recover : Principal → Stage → GateRule → String → Exec Unit
unfolding rollback_to
recover pr st rule key = do
  _ ← file_report pr st.project (record {
    type_ = breach_report rule st.stage_def.recovery;
    title = "Severe " +++ key +++ " breach at " +++ st.stage_def.name;
    stage_instance_id = some st.inst.id;
    owner_id = none;
    dedupe = false;
  })
  elim (rollback_target st.stage_def.recovery) [
    | some target ↦ rollback_to pr st.project st.stage_def target none
    | none ↦ (do
      _ ←
          update_project st.project.id
            (λ p. record p { status = ProjectStatus.on_hold; hold = some engine_hold })
      pure tt)
  ]

unfoldable pub recover_if : Principal → Stage → GateRule → String → Bool → Exec Unit
unfolding recover
recover_if pr st rule key true = recover pr st rule key
recover_if pr st rule key false = pure tt

-- `record_gate_result`
unfoldable pub record_gate_result :
    Principal → RawId → ℕ → String → List (Option ℤ) → List ChecklistResult → Exec GateResult
unfolding insert_gate_result
record_gate_result pr raw order key readings results = do
  st ← require_stage raw order
  rule ← require_rule st key
  raise_if (not (attaches rule st.stage_def)) (domain_error validation_error 422)
  result ←
      insert_gate_result
        (measured pr st key readings results (evaluate_gate_result rule readings results))
  i ← instance_again st.project order
  _ ← run_decision_engine pr st.project st.stage_def i
  recover_if pr st rule key result.severe
  log_project pr (if result.passed then "gate.passed" else "gate.failed") st.project
  pure result

-- `waive_gate`: a passing result with its provenance, by the project's director only.
abbrev waiver : Principal → Stage → String → String → ℕ → GateResult
waiver pr st key reason id = record {
  id = id;
  stage_instance_id = st.inst.id;
  project_id = st.project.id;
  gate_key = key;
  captured_by = pr.user_id;
  captured_at = pr.now;
  readings = [];
  checklist_results = [];
  passed = true;
  severe = false;
  waived = true;
  reason = some reason;
}

unfoldable pub waive_gate : Principal → RawId → ℕ → String → String → Exec GateResult
waive_gate pr raw order key reason = do
  st ← require_stage raw order
  rule ← require_rule st key
  raise_if (not rule.blocking) (domain_error validation_error 422)
  raise_if (not (attaches rule st.stage_def)) (domain_error validation_error 422)
  allowed ← reads (λ s. ok (may_approve "project_director" pr s))
  raise_if (not allowed) (domain_error permission_denied 403)
  result ← insert_gate_result (waiver pr st key reason)
  i ← instance_again st.project order
  _ ← run_decision_engine pr st.project st.stage_def i
  log_project pr "gate.waived" st.project
  pure result
