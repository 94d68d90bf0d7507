-- ===== src/Projects/Reports.antt =====
-- Reports, and the hold that they keep a project in (backend/app/modules/projects/service.py).
use blyns_ops.Prelude.{
  ℕ, String, Bool, true, false, Option, none, some, List, not, ◌&&◌, ◌||◌, ◌==◌, str_eq, or_else,
  if◌then◌else◌, find_one, filter_by, insert_one, update_one, is_some,
}
use blyns_ops.Tenant.{
  Db, Principal, RawId, Exec, ok, pure, reads, or_raise, modify, ◌>>=◌, ◌>>◌, asserted,
  domain_error, tenant_not_found, oid, new_id, write_activity, Project, ProjectStatus, HoldSource,
  manual_hold, StageInstance, StageStatus, Report, ReportStatus, open_report, resolved, closed,
}
use blyns_ops.Projects.Definitions.{
  require_project, update_project, stage_instance, set_stage_fields, log_project,
}
use blyns_ops.Projects.Engine.{is_empty}
use blyns_ops.Projects.Validation.{is_open_status}

-- What a caller of `_open_report` gives, without the details.
pub record NewReport : Type 0 where
  pub type_ : String
  pub title : String
  pub stage_instance_id : Option ℕ
  pub owner_id : Option ℕ
  pub dedupe : Bool

-- An open report of the same type and title
abbrev duplicate : ℕ → NewReport → Db → Option Report
duplicate project x s =
    if x.dedupe
    then find_one
        (λ r.
          r.project_id == project
          && str_eq r.type_ x.type_
          && str_eq r.title x.title
          && is_open_status r.status
          && not r.is_deleted)
        s.pm.reports
    else none

abbrev new_report : Principal → Project → NewReport → ℕ → Report
new_report pr project x id = record {
  id = id;
  project_id = project.id;
  stage_instance_id = x.stage_instance_id;
  type_ = x.type_;
  title = x.title;
  status = open_report;
  owner_id = or_else x.owner_id (or_else project.pm_id pr.user_id);
  resolved_at = none;
  is_deleted = false;
}

unfoldable pub insert_report : Principal → Project → NewReport → Exec Report
insert_report pr project x = do
  id ← new_id
  modify (λ s. record s {
    pm = record s.pm { reports = insert_one s.pm.reports (new_report pr project x id) };
  })
  write_activity pr "report.opened" "report" id
  pure (new_report pr project x id)

-- `_open_report`
unfoldable pub file_report : Principal → Project → NewReport → Exec Report
unfolding insert_report
file_report pr project x = do
  existing ← reads (λ s. ok (duplicate project.id x s))
  elim existing [ some r ↦ pure r | none ↦ insert_report pr project x ]

-- `create_report`, whose instance id may be malformed
pub record ReportCreate : Type 0 where
  pub type_ : String
  pub title : String
  pub stage_instance_id : Option RawId
  pub owner_id : Option ℕ

unfoldable pub instance_ref : Option RawId → Exec (Option ℕ)
instance_ref none = pure none
instance_ref (some raw) = do id ← reads (λ s. oid raw); pure (some id)

unfoldable pub create_report : Principal → RawId → ReportCreate → Exec Report
unfolding instance_ref
create_report pr raw x = do
  project ← require_project true raw
  instance_id ← instance_ref x.stage_instance_id
  file_report pr project (record {
    type_ = x.type_;
    title = x.title;
    stage_instance_id = instance_id;
    owner_id = x.owner_id;
    dedupe = false;
  })

-- `open_reports`
unfoldable pub open_reports : ℕ → Db → List Report
open_reports project s =
    filter_by (λ r. r.project_id == project && is_open_status r.status && not r.is_deleted)
      s.pm.reports

-- A hold that resolving reports may clear: one that no user placed.
abbrev pub is_manual : Option HoldSource → Bool
is_manual (some manual_hold) = true
is_manual _ = false

abbrev pub is_on_hold : ProjectStatus → Bool
is_on_hold ProjectStatus.on_hold = true
is_on_hold _ = false

abbrev pub is_clearable : Project → Bool
is_clearable project = is_on_hold project.status && not (is_manual project.hold)

-- The held stage that the project stands at is worked on again, without the engine.
unfoldable pub reopen_stage : Option StageInstance → Exec Unit
reopen_stage none = pure tt
reopen_stage (some i) = elim i.status [
  | StageStatus.on_hold ↦ (do
    _ ←
        set_stage_fields i.id
          (λ x. record x { status = StageStatus.in_progress; blocking_reason = none })
    pure tt)
  | _ ↦ pure tt
]

unfoldable pub resume : Principal → Project → Exec Unit
unfolding reopen_stage
resume pr project = do
  _ ← update_project project.id (λ p. record p { status = ProjectStatus.active; hold = none })
  i ← reads (λ s. ok (stage_instance project.id project.current_stage_order s))
  reopen_stage i
  log_project pr "project.hold_cleared" project

-- `_maybe_clear_hold`
unfoldable pub resume_if : Principal → Project → Bool → Exec Unit
resume_if pr project true = resume pr project
resume_if pr project false = pure tt

unfoldable pub maybe_clear_hold : Principal → Project → Exec Unit
unfolding resume_if
maybe_clear_hold pr project = do
  still_open ← reads (λ s. ok (open_reports project.id s))
  resume_if pr project (is_clearable project && is_empty still_open)

-- `patch_report`
pub record ReportPatch : Type 0 where
  pub status : Option ReportStatus
  pub title : Option String
  pub has_details : Bool
  pub owner_id : Option ℕ

abbrev pub is_resolution : Option ReportStatus → Bool
is_resolution (some resolved) = true
is_resolution (some closed) = true
is_resolution _ = false

abbrev patched : Principal → ReportPatch → Report → Report
patched pr x r = record r {
  status = or_else x.status r.status;
  title = or_else x.title r.title;
  owner_id = or_else x.owner_id r.owner_id;
  resolved_at = if is_resolution x.status then some pr.now else r.resolved_at;
}

unfoldable pub find_report : ℕ → RawId → Exec Report
unfolding oid
find_report project raw = do
  id ← reads (λ s. oid raw)
  reads (λ s.
      or_raise
        (find_one (λ r. id == r.id && r.project_id == project && not r.is_deleted) s.pm.reports)
        (domain_error tenant_not_found 404))

unfoldable pub after_resolution : Principal → Project → Report → Bool → Exec Unit
after_resolution pr project r true = do
  write_activity pr "report.resolved" "report" r.id
  maybe_clear_hold pr project
after_resolution pr project r false = pure tt

unfoldable pub write_report : Principal → Project → Report → ReportPatch → Exec Report
unfolding after_resolution
write_report pr project r x = do
  modify (λ s. record s {
    pm = record s.pm { reports = update_one (λ y. r.id == y.id) (patched pr x) s.pm.reports };
  })
  found ← reads (λ s. ok (find_one (λ y. r.id == y.id) s.pm.reports))
  updated ← asserted found
  after_resolution pr project updated (is_resolution x.status)
  pure updated

unfoldable pub patch_report : Principal → RawId → RawId → ReportPatch → Exec Report
unfolding write_report
patch_report pr raw report x = do
  project ← require_project true raw
  r ← find_report project.id report
  if is_some x.status || is_some x.title || x.has_details || is_some x.owner_id
      then write_report pr project r x
      else pure r
