-- ===== src/Projects/Decisions.antt =====
-- Submitting, approving and rejecting a stage (backend/app/modules/projects/service.py, `submit_stage`,
-- `_finalize_stage`, `approve_stage` and `reject_stage`).
pub mod Guarded
use blyns_ops.Prelude.{
  ℕ, ◌+◌, ◌+++◌, String, Bool, true, false, Option, none, some, List, [], ◌∷◌, ◌++◌, not, ◌&&◌,
  ◌||◌, ◌==◌, leb, ltb, str_eq, or_else, is_some, if◌then◌else◌, find_one, filter_by, update_one,
}
use blyns_ops.Tenant.{
  Db, Principal, RawId, Exec, ok, pure, reads, raise_if, modify, ◌>>=◌, ◌>>◌, asserted,
  domain_error, validation_error, permission_denied, Project, ProjectStatus, engine_hold, StageDef,
  StageInstance, StageStatus, StageExit, Approval, ApprovalState, auto_validation, draft_approval,
  manager_review, approved_approval, rejected_approval, Decision, Report, commented,
}
use blyns_ops.Finance.Pricing.{Rounding}
use blyns_ops.Projects.Definitions.{
  ConfigScope, scope_for_project, stage_defs, stage_def_by_key, stage_instance, stage_instances,
  set_stage_fields, update_project, log_project, require_project, definition, require_instance,
}
use blyns_ops.Projects.Approvers.{may_approve}
use blyns_ops.Projects.Engine.{
  is_empty, is_approved, open_approval, open_or_create_approval, run_decision_engine,
}
use blyns_ops.Projects.Validation.{Validation, all_passed, run_auto_validation}
use blyns_ops.Projects.Reports.{file_report}
use blyns_ops.Projects.Stages.{Stage, require_stage, instance_again, Entered, enter_unlocked_stages}
use blyns_ops.Projects.Evidence.{text_or, rollback_target, rollback_to}
use blyns_ops.Projects.Handover.{Integration, run_integrations}

abbrev pub last_stage_order : ℕ
last_stage_order = 9

unfoldable pub update_approval : ℕ → (Approval → Approval) → Exec Unit
update_approval id f = modify (λ s. record s {
  pm = record s.pm { approvals = update_one (λ a. id == a.id) f s.pm.approvals };
})

-- `_assert_may_approve`
unfoldable pub assert_may_approve : Principal → StageDef → Exec Unit
assert_may_approve pr d = do
  allowed ← reads (λ s. ok (may_approve (or_else d.approver_role "") pr s))
  raise_if (not allowed) (domain_error permission_denied 403)

-- What a finished stage answers.
pub record Finalized : Type 0 where
  pub project_status : ProjectStatus
  pub integration : Integration
  pub next_stages : List Entered

-- The open approval of a stage, if there is one, gets its decision.
unfoldable pub close_approval : Option Approval → (Approval → Approval) → Exec Unit
close_approval none f = pure tt
close_approval (some a) f = update_approval a.id f

abbrev decision_of : Principal → Option ℕ → Option String → Decision
decision_of pr by comment = record { by = by; at = pr.now; comment = comment }

abbrev exit_of : Principal → StageDef → StageInstance → Option ℕ → StageExit
exit_of pr d i by = record {
  order = d.order;
  key = d.key;
  entered_at = i.entered_at;
  exited_at = pr.now;
  auto = not (is_some by);
}

-- The dictionary of the definitions by order, which keeps the last one of an order.
abbrev pub def_of_order : ℕ → List StageDef → Option StageDef
def_of_order order [] = none
def_of_order order (d ∷ ds) =
    let rest = def_of_order order ds in
    elim rest [ some x ↦ some x | none ↦ if d.order == order then some d else none ]

-- The lowest order in flight, or that of the stage just approved.
abbrev pub cursor : ℕ → List StageInstance → ℕ
cursor order is = elim (filter_by (λ i. not (is_approved (some i))) is) [
  | [] ↦ order
  | i ∷ _ ↦ i.stage_order
]

unfoldable pub complete_project :
    Principal → Project → List StageExit → Integration → Exec Finalized
complete_project pr project history integration = do
  _ ← update_project project.id (λ p. record p {
    stage_history = history;
    status = ProjectStatus.completed;
    completed_at = some pr.now;
  })
  log_project pr "project.completed" project
  pure (record {
    project_status = ProjectStatus.completed;
    integration = integration;
    next_stages = [];
  })

unfoldable pub move_on :
    Principal → ConfigScope → Project → StageDef → List StageExit → Integration → Exec Finalized
move_on pr scope project d history integration = do
  found ← update_project project.id (λ p. record p { stage_history = history })
  updated ← asserted found
  newly ← enter_unlocked_stages pr updated
  defs ← reads (λ s. ok (stage_defs scope s))
  is ← reads (λ s. ok (stage_instances updated.id s))
  moved ← update_project updated.id (λ p. record p {
    current_stage_order = cursor d.order is;
    current_stage_key = (or_else (def_of_order (cursor d.order is) defs) d).key;
  })
  final ← asserted moved
  pure (record { project_status = final.status; integration = integration; next_stages = newly })

module _ (rounding : Rounding) (one : ℕ) where
  -- `_finalize_stage`; `by` is none for the system.
  unfoldable pub finalize_stage :
      Principal → Project → StageDef → StageInstance → Option ℕ → Option String → Exec Finalized
  unfolding close_approval complete_project move_on
  finalize_stage pr project d i by comment = do
    scope ← reads (λ s. ok (scope_for_project project s))
    defs ← reads (λ s. ok (stage_defs scope s))
    raise_if (is_empty defs) (domain_error validation_error 409)
    integration ← run_integrations rounding one pr project d
    approval ← reads (λ s. ok (open_approval i.id s))
    close_approval approval
        (λ a. record a { state = approved_approval; decision = some (decision_of pr by comment) })
    _ ← set_stage_fields i.id (λ x. record x { status = StageStatus.approved })
    if leb last_stage_order d.order
        then complete_project pr project (project.stage_history ++ (exit_of pr d i by ∷ []))
            integration
        else move_on pr scope project d (project.stage_history ++ (exit_of pr d i by ∷ []))
            integration

  -- `submit_stage`: what it answers, and what it does when the validation fails or passes.
  pub data Submitted : Type 0 where
    validation_failed : Validation → StageInstance → Report → Submitted
    auto_advanced : Validation → Finalized → Submitted
    awaits_decision : Validation → Option StageInstance → Submitted

  unfoldable pub submit_failed : Principal → Stage → Approval → Validation → Exec Submitted
  submit_failed pr st approval v = do
    report ← file_report pr st.project (record {
      type_ = "issue";
      title = "Automated validation failed at " +++ st.stage_def.name;
      stage_instance_id = some st.inst.id;
      owner_id = none;
      dedupe = true;
    })
    update_approval approval.id
        (λ a. record a { state = draft_approval; change_report_id = some report.id })
    again ← instance_again st.project st.stage_def.order
    now ← run_decision_engine pr st.project st.stage_def again
    log_project pr "stage.submitted" st.project
    pure (validation_failed v now.0 report)

  unfoldable pub submit_passed : Principal → Stage → Approval → Validation → Exec Submitted
  submit_passed pr st approval v =
      if st.stage_def.auto_advance || not (is_some st.stage_def.approver_role)
      then (do
        log_project pr "stage.auto_advanced" st.project
        done ← finalize_stage pr st.project st.stage_def st.inst none none
        pure (auto_advanced v done))
      else (do
        update_approval approval.id (λ a. record a { state = manager_review })
        updated ←
            set_stage_fields st.inst.id (λ i. record i { status = StageStatus.pending_approval })
        log_project pr "stage.submitted" st.project
        pure (awaits_decision v updated))

  abbrev submittable : StageStatus → Bool
  submittable StageStatus.approved = false
  submittable StageStatus.on_hold = false
  submittable _ = true

  unfoldable pub submit_stage : Principal → RawId → ℕ → Exec Submitted
  unfolding submit_failed submit_passed
  submit_stage pr raw order = do
    st ← require_stage raw order
    raise_if (not (submittable st.inst.status)) (domain_error validation_error 409)
    approval ← open_or_create_approval pr st.project st.stage_def st.inst
    _ ←
        set_stage_fields st.inst.id
          (λ i. record i { status = StageStatus.validation; approval_id = some approval.id })
    update_approval approval.id (λ a. record a { state = auto_validation })
    v ← reads (λ s. ok (run_auto_validation st.project st.stage_def st.inst s))
    update_approval approval.id (λ a. record a { auto_passed = some (all_passed v.checks) })
    if all_passed v.checks then submit_passed pr st approval v else submit_failed pr st approval v

  -- `approve_stage`
  abbrev pub is_pending_approval : StageStatus → Bool
  is_pending_approval StageStatus.pending_approval = true
  is_pending_approval _ = false

  unfoldable pub approve : Principal → ℕ → Option String → Project → StageDef → Exec Finalized
  approve pr order comment project d = do
    i ← require_instance project order
    raise_if (not (is_pending_approval i.status)) (domain_error validation_error 409)
    v ← reads (λ s. ok (run_auto_validation project d i s))
    raise_if (not (all_passed v.checks)) (domain_error validation_error 409)
    log_project pr "stage.approved" project
    finalize_stage pr project d i (some pr.user_id) comment

  unfoldable pub approve_stage : Principal → RawId → ℕ → Option String → Exec Finalized
  approve_stage pr raw order comment = do
    project ← require_project true raw
    d ← definition project order
    assert_may_approve pr d
    approve pr order comment project d

-- `bump_recovery`
unfoldable pub bump_recovery : ℕ → Exec ℕ
bump_recovery id = do
  found ← set_stage_fields id (λ i. record i { recovery_loops = i.recovery_loops + 1 })
  pure (elim found [ none ↦ 0 | some i ↦ i.recovery_loops ])

-- `reject_stage`: back to an earlier stage, a hold, or the same stage again.
abbrev awaits : StageStatus → Bool
awaits StageStatus.pending_approval = true
awaits StageStatus.validation = true
awaits _ = false

pub record Rejected : Type 0 where
  pub inst : Option StageInstance
  pub report : Report
  pub loops : ℕ

unfoldable pub rollback_def : Project → StageDef → ℕ → Db → Option StageDef
rollback_def project d order s = elim (rollback_target d.recovery) [
  | none ↦ none
  | some key ↦ elim (stage_def_by_key key (scope_for_project project s) s) [
    | none ↦ none
    | some t ↦ if ltb t.order order then some t else none
  ]
]

unfoldable pub hold_stage : Project → StageInstance → String → Exec Unit
hold_stage project i comment = do
  _ ← set_stage_fields i.id (λ x. record x {
    status = StageStatus.on_hold;
    blocking_reason = some (commented (some comment));
  })
  _ ←
      update_project project.id
        (λ p. record p { status = ProjectStatus.on_hold; hold = some engine_hold })
  pure tt

unfoldable pub redo_stage : Principal → Project → StageDef → StageInstance → String → Exec Unit
redo_stage pr project d i comment = do
  _ ← set_stage_fields i.id (λ x. record x {
    status = StageStatus.in_progress;
    blocking_reason = some (commented (some comment));
  })
  again ← instance_again project d.order
  _ ← run_decision_engine pr project d again
  pure tt

unfoldable pub after_rejection :
    Principal → Project → StageDef → StageInstance → String → Option StageDef → Exec Unit
unfolding hold_stage redo_stage
after_rejection pr project d i comment (some target) =
    rollback_to pr project d target.key (some comment)
after_rejection pr project d i comment none =
    if d.recovery.holds then hold_stage project i comment else redo_stage pr project d i comment

unfoldable pub reject :
    Principal → ℕ → String → Option String → Option ℕ → Project → StageDef → Exec Rejected
unfolding close_approval bump_recovery after_rejection
reject pr order comment report_type owner project d = do
  i ← require_instance project order
  raise_if (not (awaits i.status)) (domain_error validation_error 409)
  report ← file_report pr project (record {
    type_ = or_else (text_or report_type (text_or d.recovery.report_type none)) "change";
    title = d.name +++ " rejected";
    stage_instance_id = some i.id;
    owner_id = owner;
    dedupe = false;
  })
  approval ← reads (λ s. ok (open_approval i.id s))
  close_approval approval (λ a. record a {
    state = rejected_approval;
    decision = some (decision_of pr (some pr.user_id) (some comment));
    change_report_id = some report.id;
  })
  loops ← bump_recovery i.id
  target ← reads (λ s. ok (rollback_def project d order s))
  after_rejection pr project d i comment target
  log_project pr "stage.rejected" project
  final ← reads (λ s. ok (stage_instance project.id order s))
  pure (record { inst = final; report = report; loops = loops })

unfoldable pub reject_stage :
    Principal → RawId → ℕ → String → Option String → Option ℕ → Exec Rejected
reject_stage pr raw order comment report_type owner = do
  project ← require_project true raw
  d ← definition project order
  assert_may_approve pr d
  reject pr order comment report_type owner project d
