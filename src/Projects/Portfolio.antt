-- ===== src/Projects/Portfolio.antt =====
-- Creating and patching projects (backend/app/modules/projects/service.py). The scope, the team, the
-- milestones, the schedule and the currency are left out.
use blyns_ops.Prelude.{
  ℕ, ◌+◌, ◌+++◌, String, Bool, true, false, Option, none, some, [], not, ◌&&◌, ◌||◌, ◌==◌, ltb,
  str_eq, or_else, is_some, if◌then◌else◌, find_one, insert_one, decimal,
}
use blyns_ops.Tenant.{
  Db, Principal, RawId, Result, Exec, ok, err, pure, reads, or_raise, raise_if, modify, ◌>>=◌, ◌>>◌,
  asserted, domain_error, tenant_not_found, validation_error, oid, new_id, Project, ProjectStatus,
  ProjectConfig, StageDef, StageInstance,
}
use blyns_ops.Projects.Definitions.{
  ConfigScope, legacy_scope, scope_of, system_config, default_project_config, stage_defs,
  definition_in, require_project, update_project, log_project,
}
use blyns_ops.Projects.Engine.{is_empty}
use blyns_ops.Projects.Stages.{enter_stage}

pub record ProjectCreate : Type 0 where
  pub name : String
  pub configuration_id : Option RawId
  pub workflow_type : String
  pub crm_account_id : Option RawId
  pub pm_id : Option ℕ
  pub planned_budget : ℕ

-- A text that is empty counts as not given.
abbrev non_blank : Option RawId → Option RawId
non_blank none = none
non_blank (some raw) = if str_eq raw.text "" then none else some raw

-- `_resolve_configuration`
unfoldable pub project_config : ℕ → Db → Option ProjectConfig
project_config id s = find_one (λ c. id == c.id && not c.is_deleted) s.pm.configs

unfoldable pub chosen_config : RawId → Exec (Option ProjectConfig)
unfolding project_config
chosen_config raw = do
  id ← reads (λ s. oid raw)
  c ← reads (λ s. or_raise (project_config id s) (domain_error tenant_not_found 404))
  raise_if (not c.is_active) (domain_error validation_error 422)
  pure (some c)

unfoldable pub resolve_configuration : ProjectCreate → Exec (Option ProjectConfig)
resolve_configuration x = elim (non_blank x.configuration_id) [
  | some raw ↦ chosen_config raw
  | none ↦
      if not (str_eq x.workflow_type "sequential")
      then reads (λ s. ok (system_config x.workflow_type s))
      else reads (λ s. ok (default_project_config s))
]

-- `next_code`: at least four digits
abbrev four_digits : ℕ → String
four_digits n =
    if ltb n 10
    then "000" +++ decimal n
    else if ltb n 100
    then "00" +++ decimal n
    else if ltb n 1000
    then "0" +++ decimal n
    else decimal n

unfoldable pub next_code : Exec String
next_code s = (
  ok ("PRJ-" +++ four_digits (s.pm.project_seq + 1)),
  record s { pm = record s.pm { project_seq = s.pm.project_seq + 1 } },
)

unfoldable pub linked_account : Option RawId → Exec (Option ℕ)
linked_account none = pure none
linked_account (some raw) = do
  id ← reads (λ s. oid raw)
  c ← reads (λ s.
      or_raise (find_one (λ c. id == c.id && not c.is_deleted) s.shop.clients)
        (domain_error tenant_not_found 404))
  pure (some c.id)

abbrev workflow_of : ProjectCreate → Option ProjectConfig → String
workflow_of x none = x.workflow_type
workflow_of x (some c) = c.workflow_shape

abbrev scope_of_choice : ProjectCreate → Option ProjectConfig → ConfigScope
scope_of_choice x none = legacy_scope x.workflow_type
scope_of_choice x (some c) = scope_of c

abbrev pinned_id : Option ProjectConfig → Option ℕ
pinned_id none = none
pinned_id (some c) = some c.id

-- Without a configuration the version is not read.
abbrev pinned_version : Option ProjectConfig → ℕ
pinned_version none = 1
pinned_version (some c) = c.current_version

abbrev pub new_project :
    Principal → ProjectCreate → Option ProjectConfig → Option ℕ → StageDef → String → ℕ → Project
new_project pr x config account first code id = record {
  id = id;
  code = code;
  name = x.name;
  status = ProjectStatus.active;
  hold = none;
  completed_at = none;
  status_history = [];
  workflow_type = workflow_of x config;
  configuration_id = pinned_id config;
  config_version = pinned_version config;
  current_stage_order = first.order;
  current_stage_key = first.key;
  stage_history = [];
  pm_id = some (or_else x.pm_id pr.user_id);
  crm_account_id = account;
  delivery_date = none;
  budget = record { planned = x.planned_budget; committed = 0; actual = 0 };
  client_acceptance = false;
  is_deleted = false;
  updated_by = none;
}

unfoldable pub insert_project :
    Principal → ProjectCreate → Option ProjectConfig → Option ℕ → StageDef → String → Exec Project
insert_project pr x config account first code = do
  id ← new_id
  modify (λ s. record s {
    pm = record s.pm {
      projects = insert_one s.pm.projects (new_project pr x config account first code id);
    };
  })
  pure (new_project pr x config account first code id)

-- `create_project`, with the instance of the first stage
unfoldable pub create_project : Principal → ProjectCreate → Exec (Project × StageInstance)
unfolding insert_project
create_project pr x = do
  config ← resolve_configuration x
  defs ← reads (λ s. ok (stage_defs (scope_of_choice x config) s))
  raise_if (is_empty defs) (domain_error validation_error 422)
  account ← linked_account (non_blank x.crm_account_id)
  first ← definition_in (scope_of_choice x config) 1
  code ← next_code
  project ← insert_project pr x config account first code
  i ← enter_stage pr project first
  log_project pr "project.created" project
  pure (project, i)

-- `patch_project`: what is not given stays, and a patch that gives nothing writes nothing.
pub record ProjectPatch : Type 0 where
  pub name : Option String
  pub crm_account_id : Option RawId
  pub pm_id : Option ℕ
  pub planned_budget : Option ℕ

abbrev gives_nothing : ProjectPatch → Bool
gives_nothing x =
    not (is_some x.name || is_some x.crm_account_id || is_some x.pm_id || is_some x.planned_budget)

unfoldable pub patched_account : Option RawId → Option ℕ → Result (Option ℕ)
patched_account none old = ok old
patched_account (some raw) old = elim (oid raw) [ ok id ↦ ok (some id) | err e ↦ err e ]

abbrev kept_pm : Option ℕ → Option ℕ → Option ℕ
kept_pm none old = old
kept_pm (some u) old = some u

abbrev pub patched_project : Principal → ProjectPatch → Project → Option ℕ → Project → Project
patched_project pr x was account p = record p {
  name = or_else x.name p.name;
  crm_account_id = if is_some x.crm_account_id then account else p.crm_account_id;
  pm_id = kept_pm x.pm_id p.pm_id;
  budget =
      if is_some x.planned_budget
      then record was.budget { planned = or_else x.planned_budget was.budget.planned }
      else p.budget;
  updated_by = some pr.user_id;
}

unfoldable pub write_project_patch : Principal → ProjectPatch → Project → Option ℕ → Exec Project
write_project_patch pr x project account = do
  found ← update_project project.id (patched_project pr x project account)
  updated ← asserted found
  log_project pr "project.updated" updated
  pure updated

unfoldable pub patch_project : Principal → RawId → ProjectPatch → Exec Project
unfolding write_project_patch
patch_project pr raw x = do
  project ← require_project true raw
  account ← reads (λ s. patched_account x.crm_account_id project.crm_account_id)
  if gives_nothing x then pure project else write_project_patch pr x project account
