-- ===== src/Tests/Stages.antt =====
-- Tests of the projects module, and its theorems at a concrete project.
use blyns_ops.Prelude.{◌*◌, ◌≡◌, ◌⊎◌, refl, true, false, none, some, [], ◌∷◌}
use blyns_ops.Prelude.Int.{pos}
use blyns_ops.Tenant.{Db, ProjectStatus, GateRule, GateType, Threshold}
use blyns_ops.Projects.Definitions.{find_project}
use blyns_ops.Projects.Gates.{verdict, evaluate_measurement, single_bound}
use blyns_ops.Projects.Gates.Windows.{window_exact, bound_exact}
use blyns_ops.Projects.Engine.{run_decision_engine}
use blyns_ops.Projects.Engine.Settled.{Settles, engine-Settles}
use blyns_ops.Projects.Status.{ProjectStatusChange}
use blyns_ops.Tenant.{oid}
use blyns_ops.Tenant.Frame.{IsRefused}
use blyns_ops.Finance.Pricing.{Rounding}
use blyns_ops.Projects.Definitions.{
  require_project, definition, definition_in, stage_def_by_order, stage_defs, scope_for_project,
}
use blyns_ops.Projects.Decisions.{approve_stage, reject_stage}
use blyns_ops.Projects.Decisions.Guarded.{decided-IsRefused}
use blyns_ops.Projects.Approvers.Holders.{Holds}
use blyns_ops.Tests.Fixtures.{user, raw_id, empty_db, empty_pm, house, release_def, release_stage}

abbrev exact : Rounding
exact = record { line_amount = λ q p. q * p; line_tax = λ a r. a * r; cents = λ n. n }

abbrev unset : Threshold
unset = record {
  site_defined = false;
  min = none;
  max = none;
  max_deviation_mm = none;
  max_rh_pct = none;
  max_deviation_in = none;
  target_mm = none;
  tolerance_mm = none;
}

abbrev rule_with : Threshold → Threshold → GateRule
rule_with t severe = record {
  configuration_id = none;
  config_version = none;
  key = "humidity";
  type_ = GateType.measurement;
  threshold = t;
  severe_threshold = severe;
  severe_report_type = none;
  checklist = [];
  blocking = true;
  attach_to_stages = [];
}

abbrev window_rule : GateRule
window_rule = rule_with (record unset { min = some (pos 4); max = some (pos 9) }) unset

window_exact_example :
    (evaluate_measurement window_rule (some (pos 5) ∷ none ∷ some (pos 10) ∷ [])).passed ≡ false
window_exact_example = window_exact window_rule (some (pos 5) ∷ none ∷ some (pos 10) ∷ []) refl refl

abbrev bound_rule : GateRule
bound_rule =
    rule_with (record unset { max_rh_pct = some (pos 60) })
      (record unset { max_rh_pct = some (pos 75) })

bound_exact_example :
    evaluate_measurement bound_rule (some (pos 61) ∷ some (pos 80) ∷ []) ≡ verdict false true
unfolding single_bound
bound_exact_example =
    bound_exact bound_rule (some (pos 61) ∷ some (pos 80) ∷ []) (pos 60) (some (pos 75)) refl refl
      refl

abbrev site_db : Db
site_db = record empty_db {
  pm = record empty_pm {
    projects = house ∷ [];
    stage_defs = release_def ∷ [];
    stage_instances = release_stage ∷ [];
  };
}

engine-Settles_example :
    Settles user house release_def release_stage site_db
      (run_decision_engine user house release_def release_stage site_db)
engine-Settles_example = engine-Settles user house release_def release_stage site_db refl refl

abbrev hold_it : ProjectStatusChange
hold_it = record { status = ProjectStatus.on_hold; reason = none }

decided-IsRefused_example :
    Holds "production_manager" user site_db
    ⊎ (IsRefused site_db (approve_stage exact 1 user (raw_id "2" 2) 6 none site_db)
        × IsRefused site_db (reject_stage user (raw_id "2" 2) 6 "Too early" none none site_db))
unfolding require_project find_project oid definition definition_in stage_def_by_order stage_defs
    scope_for_project
decided-IsRefused_example =
    decided-IsRefused exact 1 user (raw_id "2" 2) 6 house release_def site_db none none "Too early"
      none refl refl
