-- ===== src/Projects/Engine.antt =====
-- The decision engine (backend/app/modules/projects/engines.py; backend/app/modules/projects/repository.py).
pub mod Evaluated
pub mod Settled
use blyns_ops.Prelude.{
  ℕ, ◌+◌, String, Bool, true, false, Option, none, some, List, [], ◌∷◌, ◌++◌, not, ◌&&◌, ◌||◌, ◌==◌,
  str_eq, if◌then◌else◌, find_one, filter_by, mem, newest, map, or_else, insert_one, length,
}
use blyns_ops.Tenant.{
  Db, Principal, Exec, Result, ok, pure, reads, modify, ◌>>=◌, ◌>>◌, asserted, new_id, Project,
  StageDef, StageInstance, StageStatus, EntryGate, GateType, Missing, missing_document,
  missing_phase, Blocker, GateRule, GateResult, GateFailure, FailureReason, not_captured,
  gate_failed, BlockingReason, blocked_by_stages, waiting_on_items, failed_gates, TaskResult,
  Approval, ApprovalState, draft_approval, approved_approval, rejected_approval,
}
use blyns_ops.Projects.Definitions.{
  ConfigScope, in_scope, scope_for_project, stage_def_by_key, gate_rule, stage_instance,
  set_stage_fields,
}
use blyns_ops.Projects.Approvers.{resolve_approvers}

pub record Evaluation : Type 0 where
  pub waiting_on : List Missing
  pub blocked_by : List Blocker
  pub gate_failures : List GateFailure
  pub severe : Bool

abbrev pub is_empty {ℓ} : {A : Type ℓ} → List A → Bool
is_empty [] = true
is_empty (_ ∷ _) = false

-- `ready`
abbrev pub is_ready : Evaluation → Bool
is_ready e = is_empty e.waiting_on && is_empty e.blocked_by && is_empty e.gate_failures

-- `latest_gate_result`
unfoldable pub latest_gate_result : ℕ → String → Db → Option GateResult
latest_gate_result instance_id key s =
    newest (λ r. r.captured_at)
      (filter_by (λ r. r.stage_instance_id == instance_id && str_eq r.gate_key key)
        s.pm.gate_results)

-- The definition that the project runs, if the caller's is another configuration's.
unfoldable pub own_definition : Project → StageDef → Db → StageDef
own_definition project d s =
    if in_scope d (scope_for_project project s)
    then d
    else or_else (stage_def_by_key d.key (scope_for_project project s) s) d

abbrev is_type : GateType → GateType → Bool
is_type GateType.document GateType.document = true
is_type GateType.dependency GateType.dependency = true
is_type _ _ = false

-- The documents that are missing.
unfoldable pub missing_documents : List String → List EntryGate → List Missing
missing_documents supplied [] = []
missing_documents supplied (g ∷ gs) =
    let rest = missing_documents supplied gs in
    if is_type g.type_ GateType.document && g.blocking && not (mem g.key supplied)
    then missing_document g.key ∷ rest
    else rest

abbrev pub is_approved : Option StageInstance → Bool
is_approved none = false
is_approved (some i) = elim i.status [ StageStatus.approved ↦ true | _ ↦ false ]

-- The stage that a gate depends on, if the configuration has it.
abbrev pub dependency : (String → Option StageDef) → EntryGate → Option StageDef
dependency find_def g = elim g.depends_on [
  | none ↦ none
  | some key ↦ if str_eq key "" then none else find_def key
]

abbrev checks_dependency : EntryGate → Bool
checks_dependency g = is_type g.type_ GateType.dependency && g.blocking

-- The phases that are missing, and the stages that are not approved yet. `find_def` is the lookup of
-- definitions in the project's scope, `approved` tells whether the project's stage at an order is.
unfoldable pub missing_phases :
    (String → Option StageDef) → List String → List EntryGate → List Missing
missing_phases find_def supplied [] = []
missing_phases find_def supplied (g ∷ gs) =
    let rest = missing_phases find_def supplied gs in
    elim (dependency find_def g) [
      | none ↦
          if checks_dependency g && not (mem g.key supplied)
          then missing_phase g.depends_on ∷ rest
          else rest
      | some _ ↦ rest
    ]

abbrev pub add_blocker : EntryGate → Option StageDef → (ℕ → Bool) → List Blocker → List Blocker
add_blocker g none approved rest = rest
add_blocker g (some d) approved rest =
    if checks_dependency g && not (approved d.order)
    then record { order = d.order; key = d.key } ∷ rest
    else rest

unfoldable pub blocking_stages :
    (String → Option StageDef) → (ℕ → Bool) → List EntryGate → List Blocker
blocking_stages find_def approved [] = []
blocking_stages find_def approved (g ∷ gs) =
    add_blocker g (dependency find_def g) approved (blocking_stages find_def approved gs)

abbrev pub stage_approved : Project → Db → ℕ → Bool
stage_approved project s order = is_approved (stage_instance project.id order s)

-- A blocking gate without a passing result.
abbrev pub failure : String → FailureReason → GateFailure
failure key reason = record { gate_key = key; reason = reason }

abbrev gate_outcome : String → Option GateResult → List GateFailure
gate_outcome key none = failure key not_captured ∷ []
gate_outcome key (some r) = if r.passed then [] else failure key gate_failed ∷ []

abbrev is_severe : Option GateResult → Bool
is_severe none = false
is_severe (some r) = not r.passed && r.severe

abbrev is_blocking_rule : Option GateRule → Bool
is_blocking_rule none = false
is_blocking_rule (some rule) = rule.blocking

unfoldable pub failing_gates :
    (String → Option GateRule) → (String → Option GateResult) → List String → List GateFailure
failing_gates rule latest [] = []
failing_gates rule latest (key ∷ keys) =
    let rest = failing_gates rule latest keys in
    if is_blocking_rule (rule key) then gate_outcome key (latest key) ++ rest else rest

unfoldable pub any_severe :
    (String → Option GateRule) → (String → Option GateResult) → List String → Bool
any_severe rule latest [] = false
any_severe rule latest (key ∷ keys) =
    is_blocking_rule (rule key) && is_severe (latest key) || any_severe rule latest keys

-- The evaluation of the stage that has the definition `d` in the scope.
unfoldable pub evaluation_of : Project → ConfigScope → StageDef → StageInstance → Db → Evaluation
unfolding missing_documents missing_phases blocking_stages failing_gates any_severe
evaluation_of project scope d i s = record {
  waiting_on =
      missing_documents i.documents_supplied d.entry_gates
      ++ missing_phases (λ key. stage_def_by_key key scope s) i.documents_supplied d.entry_gates;
  blocked_by =
      blocking_stages (λ key. stage_def_by_key key scope s) (stage_approved project s)
        d.entry_gates;
  gate_failures =
      failing_gates (λ key. gate_rule key scope s) (λ key. latest_gate_result i.id key s)
        d.quality_gates;
  severe =
      any_severe (λ key. gate_rule key scope s) (λ key. latest_gate_result i.id key s)
        d.quality_gates;
}

-- `evaluate_stage`
unfoldable pub evaluate_stage : Project → StageDef → StageInstance → Db → Evaluation
unfolding own_definition evaluation_of
evaluate_stage project d i s =
    evaluation_of project (scope_for_project project s) (own_definition project d s) i s

-- `next_status`: a held stage stays held.
abbrev pub choose_status : Bool → Bool → Bool → StageStatus
choose_status severe blocked waiting =
    if severe
    then StageStatus.on_hold
    else if blocked
    then StageStatus.blocked
    else if waiting
    then StageStatus.waiting
    else StageStatus.in_progress

unfoldable pub next_status : Evaluation → StageStatus → StageStatus
next_status e StageStatus.on_hold = StageStatus.on_hold
next_status e _ = choose_status e.severe (not (is_empty e.blocked_by)) (not (is_empty e.waiting_on))

abbrev pub reason_for : Evaluation → Option BlockingReason
reason_for e =
    if not (is_empty e.blocked_by)
    then some (blocked_by_stages e.blocked_by)
    else if not (is_empty e.waiting_on)
    then some (waiting_on_items e.waiting_on)
    else if not (is_empty e.gate_failures)
    then some (failed_gates e.gate_failures)
    else none

-- What the engine writes. The status is from the instance that was read.
abbrev pub placed : Principal → StageDef → Evaluation → StageStatus → StageInstance → StageInstance
placed pr d e was i = record i {
  status = next_status e was;
  waiting_on = e.waiting_on;
  blocked_by = e.blocked_by;
  task_results = map (λ t. record { task = t; done = is_ready e }) d.automated_tasks;
  blocking_reason = reason_for e;
  last_evaluated_at = some pr.now;
}

-- `run_decision_engine`, with the instance and the evaluation
unfoldable pub apply_evaluation :
    Principal → StageDef → StageInstance → Evaluation → Exec (StageInstance × Evaluation)
apply_evaluation pr d i e = do
  updated ← set_stage_fields i.id (placed pr d e i.status)
  found ← asserted updated
  pure (found, e)

unfoldable pub run_decision_engine :
    Principal → Project → StageDef → StageInstance → Exec (StageInstance × Evaluation)
run_decision_engine pr project d i = do
  e ← reads (λ s. ok (evaluate_stage project d i s))
  apply_evaluation pr d i e

-- `open_approval` and `open_or_create_approval`
abbrev is_open : ApprovalState → Bool
is_open approved_approval = false
is_open rejected_approval = false
is_open _ = true

unfoldable pub open_approval : ℕ → Db → Option Approval
open_approval instance_id s =
    find_one (λ a. a.stage_instance_id == instance_id && is_open a.state) s.pm.approvals

-- A sole user of the position is the one it is assigned to.
abbrev sole : List ℕ → Option ℕ
sole [] = none
sole (u ∷ []) = some u
sole (u ∷ v ∷ us) = none

abbrev pub new_approval : Principal → Project → StageDef → StageInstance → List ℕ → ℕ → Approval
new_approval pr project d i users id = record {
  id = id;
  stage_instance_id = i.id;
  project_id = project.id;
  approver_role = d.approver_role;
  assigned_to = sole users;
  state = draft_approval;
  auto_passed = none;
  decision = none;
  change_report_id = none;
  created_by = pr.user_id;
}

unfoldable pub create_approval : Principal → Project → StageDef → StageInstance → Exec Approval
create_approval pr project d i = do
  resolved ← reads (λ s. ok (resolve_approvers (or_else d.approver_role "") s))
  id ← new_id
  modify (λ s. record s {
    pm = record s.pm {
      approvals = insert_one s.pm.approvals (new_approval pr project d i resolved.1 id);
    };
  })
  pure (new_approval pr project d i resolved.1 id)

unfoldable pub open_or_create_approval :
    Principal → Project → StageDef → StageInstance → Exec Approval
unfolding create_approval
open_or_create_approval pr project d i = do
  existing ← reads (λ s. ok (open_approval i.id s))
  elim existing [ some a ↦ pure a | none ↦ create_approval pr project d i ]
