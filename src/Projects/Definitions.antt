-- ===== src/Projects/Definitions.antt =====
-- The scope of definitions, and the lookups of the Projects module
-- (backend/app/modules/projects/repository.py; backend/app/modules/projects/service.py).
use blyns_ops.Prelude.{
  ℕ, String, Bool, true, false, Option, none, some, List, not, ◌&&◌, ◌||◌, ◌==◌, str_eq, or_else,
  if◌then◌else◌, find_one, filter_by, update_one, is_some, opt_eq, opt_str_eq, leb, sort_by, [],
  ◌∷◌,
}
use blyns_ops.Tenant.{
  Db, Principal, RawId, Exec, ok, pure, reads, or_raise, raise, raise_if, modify, ◌>>=◌, ◌>>◌,
  domain_error, tenant_not_found, validation_error, project_archived, oid, write_activity, Project,
  ProjectStatus, ProjectConfig, StageDef, StageInstance, GateRule,
}

-- `ConfigScope`
pub record ConfigScope : Type 0 where
  pub configuration_id : Option ℕ
  pub config_version : Option ℕ
  pub workflow_type : String

-- The scope of call sites that pass a bare workflow type, and of a tenant without configurations.
abbrev pub legacy_scope : String → ConfigScope
legacy_scope wf = record { configuration_id = none; config_version = none; workflow_type = wf }

-- `_legacy_wf_query`
unfoldable pub legacy_wf_query : String → Option String → Bool
legacy_wf_query wf field =
    if str_eq wf "sequential"
    then opt_str_eq field (some "sequential") || not (is_some field)
    else opt_str_eq field (some wf)

-- `_stage_scope_query`
unfoldable pub stage_scope_query : ConfigScope → StageDef → Bool
unfolding legacy_wf_query
stage_scope_query scope d = elim scope.configuration_id [
  | none ↦ legacy_wf_query scope.workflow_type d.workflow_type
  | some id ↦ opt_eq d.configuration_id (some id) && opt_eq d.config_version scope.config_version
]

-- `_gate_scope_query`
unfoldable pub gate_scope_query : ConfigScope → GateRule → Bool
gate_scope_query scope r = elim scope.configuration_id [
  | none ↦ true
  | some id ↦ opt_eq r.configuration_id (some id) && opt_eq r.config_version scope.config_version
]

-- `in_scope`
unfoldable pub in_scope : StageDef → ConfigScope → Bool
in_scope d scope = elim scope.configuration_id [
  | none ↦ str_eq (or_else d.workflow_type "sequential") scope.workflow_type
  | some id ↦ opt_eq d.configuration_id (some id) && opt_eq d.config_version scope.config_version
]

-- `scope_of`
unfoldable pub scope_of : ProjectConfig → ConfigScope
scope_of c = record {
  configuration_id = some c.id;
  config_version = some c.current_version;
  workflow_type = c.workflow_shape;
}

-- `system_config` and `default_project_config`
unfoldable pub system_config : String → Db → Option ProjectConfig
system_config shape s =
    find_one (λ c. c.is_system && str_eq c.workflow_shape shape && not c.is_deleted) s.pm.configs

unfoldable pub default_project_config : Db → Option ProjectConfig
unfolding system_config
default_project_config s = elim (find_one (λ c. c.is_default && not c.is_deleted) s.pm.configs) [
  | some c ↦ some c
  | none ↦ system_config "sequential" s
]

-- `scope_for_project`: the version that the project pinned, else version 1 of the system's configuration.
unfoldable pub scope_for_project : Project → Db → ConfigScope
unfolding system_config
scope_for_project p s = elim p.configuration_id [
  | some id ↦ record {
    configuration_id = some id;
    config_version = some p.config_version;
    workflow_type = p.workflow_type;
  }
  | none ↦ elim (system_config p.workflow_type s) [
    | some c ↦ record {
      configuration_id = some c.id;
      config_version = some 1;
      workflow_type = p.workflow_type;
    }
    | none ↦ legacy_scope p.workflow_type
  ]
]

-- `stage_defs`, by order
unfoldable pub stage_defs : ConfigScope → Db → List StageDef
unfolding stage_scope_query
stage_defs scope s =
    sort_by (λ a b. leb a.order b.order) (filter_by (stage_scope_query scope) s.pm.stage_defs)

unfoldable pub stage_def_by_order : ℕ → ConfigScope → Db → Option StageDef
unfolding stage_scope_query
stage_def_by_order order scope s =
    find_one (λ d. stage_scope_query scope d && d.order == order) s.pm.stage_defs

unfoldable pub stage_def_by_key : String → ConfigScope → Db → Option StageDef
unfolding stage_scope_query
stage_def_by_key key scope s =
    find_one (λ d. stage_scope_query scope d && str_eq d.key key) s.pm.stage_defs

-- `gate_rule`, with a scope
unfoldable pub gate_rule : String → ConfigScope → Db → Option GateRule
unfolding gate_scope_query
gate_rule key scope s = find_one (λ r. gate_scope_query scope r && str_eq r.key key) s.pm.gate_rules

unfoldable pub stage_instance : ℕ → ℕ → Db → Option StageInstance
stage_instance project order s =
    find_one (λ i. i.project_id == project && i.stage_order == order) s.pm.stage_instances

unfoldable pub stage_instances : ℕ → Db → List StageInstance
stage_instances project s =
    sort_by (λ a b. leb a.stage_order b.stage_order)
      (filter_by (λ i. i.project_id == project) s.pm.stage_instances)

-- `set_stage_fields`, whose result is read again
unfoldable pub set_stage_fields : ℕ → (StageInstance → StageInstance) → Exec (Option StageInstance)
set_stage_fields id f = do
  modify (λ s. record s {
    pm = record s.pm { stage_instances = update_one (λ i. id == i.id) f s.pm.stage_instances };
  })
  reads (λ s. ok (find_one (λ i. id == i.id) s.pm.stage_instances))

unfoldable pub find_project : ℕ → Db → Option Project
find_project id s = find_one (λ p. id == p.id && not p.is_deleted) s.pm.projects

-- `repo.update(db, repo.PROJECTS, …)`
unfoldable pub update_project : ℕ → (Project → Project) → Exec (Option Project)
unfolding find_project
update_project id f = do
  modify (λ s. record s {
    pm = record s.pm { projects = update_one (λ p. id == p.id) f s.pm.projects };
  })
  reads (λ s. ok (find_project id s))

abbrev pub is_archived : ProjectStatus → Bool
is_archived ProjectStatus.archived = true
is_archived _ = false

-- `_project`: a frozen project is refused when the request would change it.
unfoldable pub require_project : Bool → RawId → Exec Project
unfolding oid find_project
require_project mutating raw = do
  id ← reads (λ s. oid raw)
  project ← reads (λ s. or_raise (find_project id s) (domain_error tenant_not_found 404))
  raise_if (mutating && is_archived project.status) (domain_error project_archived 409)
  pure project

-- `_definition_in` and `_definition`
unfoldable pub definition_in : ConfigScope → ℕ → Exec StageDef
unfolding stage_def_by_order stage_defs
definition_in scope order = do
  found ← reads (λ s. ok (stage_def_by_order order scope s))
  defs ← reads (λ s. ok (stage_defs scope s))
  elim found [
    | some d ↦ pure d
    | none ↦ elim defs [
      | [] ↦ raise (domain_error validation_error 409)
      | _ ∷ _ ↦ raise (domain_error tenant_not_found 404)
    ]
  ]

unfoldable pub definition : Project → ℕ → Exec StageDef
unfolding scope_for_project
definition project order = do
  scope ← reads (λ s. ok (scope_for_project project s))
  definition_in scope order

unfoldable pub require_instance : Project → ℕ → Exec StageInstance
unfolding stage_instance
require_instance project order =
    reads (λ s. or_raise (stage_instance project.id order s) (domain_error tenant_not_found 404))

-- `_log`
abbrev pub log_project : Principal → String → Project → Exec Unit
log_project pr action project = write_activity pr action "project" project.id
