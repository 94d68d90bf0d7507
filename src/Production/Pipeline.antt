-- ===== src/Production/Pipeline.antt =====
-- What work orders drive in the project's pipeline (backend/app/modules/production/service.py,
-- `_recompute_pipeline` and `project_rollup`).
pub mod Exact
use blyns_ops.Prelude.{
  ℕ, ◌+◌, ◌*◌, String, Bool, true, false, Option, none, some, List, [], ◌∷◌, not, ◌&&◌, ◌||◌, ◌==◌,
  if◌then◌else◌, filter_by, length, mem, add, discard, same_set, is_subset, to_set, sorted, all_of,
  round_div, find_one,
}
use blyns_ops.Tenant.{
  Db, Principal, RawId, Exec, ok, pure, reads, modify, ◌>>=◌, ◌>>◌, Project, StageDef,
  StageInstance, StageStatus, WorkOrder, Sections, Rollup, write_activity,
}
use blyns_ops.Projects.Definitions.{
  legacy_scope, stage_def_by_key, stage_instance, set_stage_fields, log_project,
}
use blyns_ops.Production.Lifecycle.{
  is_one_of, Section, production, quality_control, packing_protection, delivery_planning,
  phase_cleared, driven_sections, section_key,
}
use blyns_ops.Production.Store.{live_work_orders, project_or_404}

abbrev pub factory_release_key : String
factory_release_key = "factory_release"

abbrev pub cleared : Section → WorkOrder → Bool
cleared sec w = is_one_of w.status (phase_cleared sec)

-- `round(100 * sum(…) / n)`
unfoldable pub section_pct : Section → List WorkOrder → ℕ
unfolding round_div
section_pct sec wos = round_div (100 * length (filter_by (cleared sec) wos)) (length wos)

unfoldable pub sections_pct : List WorkOrder → Sections
sections_pct wos = record {
  production = section_pct production wos;
  quality_control = section_pct quality_control wos;
  packing_protection = section_pct packing_protection wos;
  delivery_planning = section_pct delivery_planning wos;
}

-- `repo.upsert_rollup` and `repo.get_rollup`
abbrev pub put_rollup : ℕ → Sections → List Rollup → List Rollup
put_rollup project x [] = record { project_id = project; sections = x } ∷ []
put_rollup project x (r ∷ rs) =
    let rest = put_rollup project x rs in
    if r.project_id == project then record r { sections = x } ∷ rs else r ∷ rest

unfoldable pub upsert_rollup : ℕ → Sections → Exec Unit
upsert_rollup project x =
    modify
      (λ s. record s { shop = record s.shop { rollups = put_rollup project x s.shop.rollups } })

unfoldable pub get_rollup : ℕ → Db → Option Rollup
get_rollup project s = find_one (λ r. r.project_id == project) s.shop.rollups

-- The loop over `DRIVEN_SECTIONS`: one section of the definition's checklist, and all.
unfoldable pub drive : List String → List WorkOrder → Section → List String → List String
drive release wos sec done =
    if mem (section_key sec) release
    then (if all_of (cleared sec) wos
        then add (section_key sec) done
        else discard (section_key sec) done)
    else done

unfoldable pub drive_all : List String → List WorkOrder → List Section → List String → List String
unfolding drive
drive_all release wos [] done = done
drive_all release wos (sec ∷ secs) done = drive_all release wos secs (drive release wos sec done)

-- What is written when the set has changed.
unfoldable pub sync_checklist :
    Principal → Project → StageInstance → List String → List String → Exec Unit
sync_checklist pr project inst before done = if same_set done before then pure tt else (do
  _ ← set_stage_fields inst.id (λ i. record i { checklist_done = sorted done })
  log_project pr "production.pipeline_synced" project)

unfoldable pub drive_instance :
    Principal → Project → List WorkOrder → StageDef → Option StageInstance → Exec Unit
unfolding drive_all
drive_instance pr project wos sdef none = pure tt
drive_instance pr project wos sdef (some inst) =
    sync_checklist pr project inst (to_set inst.checklist_done)
      (drive_all sdef.release_checklist wos driven_sections (to_set inst.checklist_done))

unfoldable pub drive_stage : Principal → Project → List WorkOrder → Option StageDef → Exec Unit
drive_stage pr project wos none = pure tt
drive_stage pr project wos (some sdef) = do
  inst ← reads (λ s. ok (stage_instance project.id sdef.order s))
  drive_instance pr project wos sdef inst

unfoldable pub recompute_with : Principal → Project → List WorkOrder → Exec Unit
recompute_with pr project [] = pure tt
recompute_with pr project (w ∷ ws) = do
  upsert_rollup project.id (sections_pct (w ∷ ws))
  sdef ← reads (λ s. ok (stage_def_by_key factory_release_key (legacy_scope "sequential") s))
  drive_stage pr project (w ∷ ws) sdef

unfoldable pub recompute_pipeline : Principal → Project → Exec Unit
unfolding recompute_with
recompute_pipeline pr project = do
  wos ← reads (λ s. ok (live_work_orders project.id s))
  recompute_with pr project wos

-- `project_rollup`
pub record ProjectRollup : Type 0 where
  pub project_id : ℕ
  pub sections : Option Sections
  pub release_checklist : List String
  pub checklist_done : List String
  pub stage_order : Option ℕ
  pub stage_status : Option StageStatus
  pub releasable : Bool

abbrev rollup_view :
    Project → Option Rollup → Option StageDef → Option StageInstance → ProjectRollup
rollup_view project rollup sdef inst = record {
  project_id = project.id;
  sections = elim rollup [ none ↦ none | some r ↦ some r.sections ];
  release_checklist = elim sdef [ none ↦ [] | some d ↦ d.release_checklist ];
  checklist_done = elim inst [ none ↦ [] | some i ↦ i.checklist_done ];
  stage_order = elim sdef [ none ↦ none | some d ↦ some d.order ];
  stage_status = elim inst [ none ↦ none | some i ↦ some i.status ];
  releasable = elim inst [
    | none ↦ false
    | some i ↦ is_subset (elim sdef [ none ↦ [] | some d ↦ d.release_checklist ]) i.checklist_done
  ];
}

abbrev instance_of : Project → Option StageDef → Db → Option StageInstance
instance_of project none s = none
instance_of project (some d) s = stage_instance project.id d.order s

unfoldable pub project_rollup : RawId → Exec ProjectRollup
project_rollup raw = do
  project ← project_or_404 raw
  rollup ← reads (λ s. ok (get_rollup project.id s))
  sdef ← reads (λ s. ok (stage_def_by_key factory_release_key (legacy_scope "sequential") s))
  inst ← reads (λ s. ok (instance_of project sdef s))
  pure (rollup_view project rollup sdef inst)
