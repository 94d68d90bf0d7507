-- ===== src/Projects/Status.antt =====
-- The managed status of a project (backend/app/modules/projects/permissions.py and service.py).
pub mod Managed
use blyns_ops.Prelude.{
  ℕ, String, Bool, true, false, Option, none, some, List, [], ◌∷◌, ◌++◌, not, ◌&&◌, ◌||◌, ◌==◌,
  if◌then◌else◌, any_of, is_some,
}
use blyns_ops.Tenant.{
  Db, Principal, RawId, Exec, pure, raise_if, ◌>>=◌, ◌>>◌, asserted, domain_error,
  invalid_status_transition, write_activity, Project, ProjectStatus, active, completed, archived,
  cancelled, StatusChange, HoldSource, manual_hold,
}
use blyns_ops.Projects.Definitions.{require_project, update_project, is_archived, log_project}
use blyns_ops.Projects.Reports.{is_on_hold, is_manual}

abbrev pub status_number : ProjectStatus → ℕ
status_number ProjectStatus.active = 0
status_number ProjectStatus.on_hold = 1
status_number ProjectStatus.completed = 2
status_number ProjectStatus.archived = 3
status_number ProjectStatus.cancelled = 4

abbrev pub same_status : ProjectStatus → ProjectStatus → Bool
same_status a b = status_number a == status_number b

-- `STATUS_TRANSITIONS`
abbrev pub status_transitions : ProjectStatus → List ProjectStatus
status_transitions ProjectStatus.active = ProjectStatus.on_hold ∷ ProjectStatus.archived ∷ []
status_transitions ProjectStatus.on_hold = ProjectStatus.active ∷ ProjectStatus.archived ∷ []
status_transitions ProjectStatus.completed = ProjectStatus.active ∷ ProjectStatus.archived ∷ []
status_transitions ProjectStatus.archived = ProjectStatus.active ∷ ProjectStatus.on_hold ∷ []
status_transitions ProjectStatus.cancelled = ProjectStatus.archived ∷ []

pub record ProjectStatusChange : Type 0 where
  pub status : ProjectStatus
  pub reason : Option String

-- A manual hold over the engine's is a change too.
abbrev pub upgrades_hold : Project → ProjectStatus → Bool
upgrades_hold project target = is_on_hold target && not (is_manual project.hold)

abbrev pub is_completed : ProjectStatus → Bool
is_completed ProjectStatus.completed = true
is_completed _ = false

-- Leaving `completed` clears its stamp.
abbrev leaves_completion : Project → Bool
leaves_completion project =
    is_completed project.status || is_archived project.status && is_some project.completed_at

abbrev pub changed : Principal → Project → ProjectStatusChange → Project → Project
changed pr was x p = record p {
  status = x.status;
  updated_by = some pr.user_id;
  hold =
      if is_on_hold x.status
      then some manual_hold
      else if is_on_hold was.status
      then none
      else p.hold;
  completed_at = if leaves_completion was then none else p.completed_at;
  status_history =
      was.status_history
      ++ (record {
        from_status = was.status;
        to_status = x.status;
        reason = x.reason;
        by = pr.user_id;
        at = pr.now;
      }
          ∷ []);
}

-- The name of the event: by the most meaningful half of the move.
abbrev event : ProjectStatus → ProjectStatus → String
event was target =
    if is_archived target
    then "project.archived"
    else if is_archived was
    then "project.restored"
    else if is_completed was
    then "project.reopened"
    else if is_on_hold target
    then "project.held"
    else "project.resumed"

unfoldable pub write_status : Principal → Project → ProjectStatusChange → Exec Project
write_status pr project x = do
  found ← update_project project.id (changed pr project x)
  updated ← asserted found
  log_project pr (event project.status x.status) updated
  pure updated

unfoldable pub move_status : Principal → Project → ProjectStatusChange → Exec Project
move_status pr project x = do
  raise_if (not (any_of (same_status x.status) (status_transitions project.status)))
      (domain_error invalid_status_transition 409)
  write_status pr project x

-- `change_status`
unfoldable pub change_status_of : Principal → Project → ProjectStatusChange → Exec Project
change_status_of pr project x =
    if same_status x.status project.status
    then (if upgrades_hold project x.status then write_status pr project x else pure project)
    else move_status pr project x

unfoldable pub change_status : Principal → RawId → ProjectStatusChange → Exec Project
change_status pr raw x = do project ← require_project false raw; change_status_of pr project x

-- `delete_project`
unfoldable pub delete_project : Principal → RawId → Exec Unit
delete_project pr raw = do
  project ← require_project false raw
  _ ← update_project project.id (λ p. record p { is_deleted = true; updated_by = some pr.user_id })
  log_project pr "project.deleted" project

-- `record_client_acceptance`
unfoldable pub record_client_acceptance : Principal → RawId → Exec Project
record_client_acceptance pr raw = do
  project ← require_project true raw
  found ← update_project project.id (λ p. record p { client_acceptance = true })
  updated ← asserted found
  log_project pr "project.client_acceptance" project
  pure updated
