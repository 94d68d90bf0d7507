-- ===== src/Projects/Stages.antt =====
-- The requests on a stage (backend/app/modules/projects/service.py).
use blyns_ops.Prelude.{
  ℕ, ◌+++◌, String, Bool, true, Option, none, some, List, [], ◌∷◌, not, ◌&&◌, ◌==◌, str_eq, or_else,
  if◌then◌else◌, find_one, insert_one, mem, add, discard, to_set, sorted, all_of, any_of,
}
use blyns_ops.Tenant.{
  Principal, RawId, Exec, ok, pure, reads, raise_if, modify, ◌>>=◌, ◌>>◌, asserted, domain_error,
  validation_error, new_id, Project, StageDef, StageInstance, StageStatus, EntryGate, GateType,
  Missing,
}
use blyns_ops.Projects.Definitions.{
  scope_for_project, stage_defs, stage_instance, stage_instances, set_stage_fields, require_project,
  definition, require_instance, log_project,
}
use blyns_ops.Projects.Engine.{run_decision_engine, is_empty, is_approved}
use blyns_ops.Projects.Reports.{file_report}

-- The project, the definition and the instance of a request that changes a stage.
pub record Stage : Type 0 where
  pub project : Project
  pub stage_def : StageDef
  pub inst : StageInstance

unfoldable pub require_stage : RawId → ℕ → Exec Stage
require_stage raw order = do
  project ← require_project true raw
  d ← definition project order
  i ← require_instance project order
  pure (record { project = project; stage_def = d; inst = i })

-- `assert` on the instance read again
unfoldable pub instance_again : Project → ℕ → Exec StageInstance
instance_again project order = do
  found ← reads (λ s. ok (stage_instance project.id order s))
  asserted found

-- `_enter_stage`
abbrev pub fresh_instance : Principal → Project → StageDef → ℕ → StageInstance
fresh_instance pr project d id = record {
  id = id;
  project_id = project.id;
  stage_order = d.order;
  stage_key = d.key;
  status = StageStatus.pending;
  entered_at = pr.now;
  documents_supplied = [];
  checklist_done = [];
  waiting_on = [];
  blocked_by = [];
  task_results = [];
  blocking_reason = none;
  approval_id = none;
  recovery_loops = 0;
  last_evaluated_at = none;
}

-- `upsert_stage_instance`: an instance that is there is left as it is.
unfoldable pub insert_instance : Principal → Project → StageDef → Exec StageInstance
insert_instance pr project d = do
  id ← new_id
  modify (λ s. record s {
    pm = record s.pm {
      stage_instances = insert_one s.pm.stage_instances (fresh_instance pr project d id);
    };
  })
  instance_again project d.order

unfoldable pub upsert_stage_instance : Principal → Project → StageDef → Exec StageInstance
unfolding insert_instance
upsert_stage_instance pr project d = do
  found ← reads (λ s. ok (stage_instance project.id d.order s))
  elim found [ some i ↦ pure i | none ↦ insert_instance pr project d ]

unfoldable pub enter_stage : Principal → Project → StageDef → Exec StageInstance
unfolding upsert_stage_instance
enter_stage pr project d = do
  i ← upsert_stage_instance pr project d
  placed ← run_decision_engine pr project d i
  log_project pr "stage.entered" project
  pure placed.0

-- `_enter_unlocked_stages`: the loop over the definitions in order, with what was read before it.
abbrev pub dependencies : List EntryGate → List String
dependencies [] = []
dependencies (g ∷ gs) =
    let rest = dependencies gs in
    elim g.type_ [ GateType.dependency ↦ or_else g.depends_on "" ∷ rest | _ ↦ rest ]

abbrev pub approved_keys : List StageInstance → List StageDef → List String
approved_keys is [] = []
approved_keys is (d ∷ ds) =
    let rest = approved_keys is ds in
    if is_approved (find_one (λ i. i.stage_order == d.order) is) then d.key ∷ rest else rest

abbrev pub is_unlocked : List StageInstance → List String → StageDef → Bool
is_unlocked is approved d =
    not (any_of (λ i. i.stage_order == d.order) is)
    && all_of (λ k. mem k approved) (dependencies d.entry_gates)

pub record Entered : Type 0 where
  pub stage_def : StageDef
  pub inst : StageInstance

unfoldable pub enter_each :
    Principal → Project → List StageInstance → List String → List StageDef → Exec (List Entered)
enter_each pr project is approved [] = pure []
enter_each pr project is approved (d ∷ ds) =
    let later = enter_each pr project is approved ds in
    if is_unlocked is approved d
    then (do
      i ← enter_stage pr project d
      rest ← later
      pure (record { stage_def = d; inst = i } ∷ rest))
    else later

unfoldable pub enter_unlocked_stages : Principal → Project → Exec (List Entered)
unfolding enter_each
enter_unlocked_stages pr project = do
  defs ← reads (λ s. ok (stage_defs (scope_for_project project s) s))
  is ← reads (λ s. ok (stage_instances project.id s))
  enter_each pr project is (approved_keys is defs) defs

-- `run_task`
unfoldable pub report_starved :
    Principal → Project → StageDef → StageInstance → List Missing → Exec Unit
report_starved pr project d i waiting =
    if not (is_empty waiting) && str_eq d.key "project_initiation"
    then (do
      _ ← file_report pr project (record {
        type_ = "missing_information";
        title = "Missing information at " +++ d.name;
        stage_instance_id = some i.id;
        owner_id = none;
        dedupe = true;
      })
      pure tt)
    else pure tt

unfoldable pub run_task : Principal → RawId → ℕ → String → Exec StageInstance
unfolding report_starved
run_task pr raw order task = do
  st ← require_stage raw order
  raise_if (not (mem task st.stage_def.automated_tasks)) (domain_error validation_error 422)
  placed ← run_decision_engine pr st.project st.stage_def st.inst
  report_starved pr st.project st.stage_def st.inst placed.1.waiting_on
  pure placed.0

-- `mark_checklist_section`
unfoldable pub mark_checklist_section :
    Principal → RawId → ℕ → String → Bool → Exec (Option StageInstance)
mark_checklist_section pr raw order section complete = do
  st ← require_stage raw order
  raise_if (not (mem section st.stage_def.release_checklist)) (domain_error validation_error 422)
  _ ← set_stage_fields st.inst.id (λ i. record i {
    checklist_done = sorted (
        if complete
        then add section (to_set st.inst.checklist_done)
        else discard section (to_set st.inst.checklist_done));
  })
  updated ← reads (λ s. ok (stage_instance st.project.id order s))
  log_project pr "stage.checklist_marked" st.project
  pure updated
