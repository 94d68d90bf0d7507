-- ===== src/Tests/Shop.antt =====
-- Tests of the production module, and its theorems at a concrete shop floor.
use blyns_ops.Prelude.{
  ◌≡◌, ◌⊎◌, refl, true, false, none, some, List, [], ◌∷◌, Option, all_of, any_of,
}
use blyns_ops.Tenant.{
  write_activity, Db, WorkOrder, WoStatus, Move, Station, queued, released, in_progress, qc_pending,
  passed, dispatched,
}
use blyns_ops.Projects.Definitions.{find_project, stage_def_by_key, stage_defs, stage_instance}
use blyns_ops.Production.Lifecycle.{production}
use blyns_ops.Production.Store.{
  find_work_order, live_work_orders, wo_or_404, shop_oid, project_of, assert_transition, set_status,
  update_work_order,
}
use blyns_ops.Production.Stations.{wo_category, auto_station}
use blyns_ops.Production.Stations.Least.{Chooses, auto_station-Chooses}
use blyns_ops.Production.Pipeline.{
  sections_pct, cleared, recompute_pipeline, recompute_with, upsert_rollup, drive_stage,
  drive_instance,
}
use blyns_ops.Production.Pipeline.Exact.{recompute_pipeline_exact, is_done}
use blyns_ops.Production.Floor.{
  pass_result, record_qc, pass_order, finish, detail, revision_conflict,
}
use blyns_ops.Production.Floor.Tracked.{HasTrackedOrders}
use blyns_ops.Production.Requests.{
  Call, give_qc, auto_allocate_order, dispatch_order, handle, serve,
}
use blyns_ops.Production.Requests.Histories.{serve-HasTrackedOrders}
use blyns_ops.Production.Requests.Inspected.{is_pass, nothing_leaves_uninspected}
use blyns_ops.Production.Requests.Refused.{
  to_dispatch, auto_allocating, disallowed-IsRefused, managed-IsRefused,
}
use blyns_ops.Tenant.Frame.{IsRefused}
use blyns_ops.Projects.Approvers.Holders.{Holds}
use blyns_ops.Tests.Fixtures.{
  user, raw_id, empty_db, empty_pm, empty_shop, house, release_def, release_stage,
}

abbrev step : Option WoStatus → WoStatus → Move
step a b = record { at = 1; by = 7; from_status = a; to_status = b; note = none }

abbrev order_in : WoStatus → List Move → WorkOrder
order_in st moves = record {
  id = 3;
  code = "P-1-WO1";
  project_id = 2;
  client_name = none;
  item_name = "Door";
  source_drawing = none;
  bom_lines = [];
  qty = record { ordered = 4; done = 0 };
  station_route = [];
  current_station_id = none;
  due_date = none;
  status = st;
  blocked_by = none;
  history = moves;
  qc = none;
  packing = none;
  dispatch = none;
  created_by = 7;
  updated_by = 7;
  updated_at = 1;
  is_deleted = false;
}

abbrev awaiting : WorkOrder
awaiting = order_in qc_pending (
    step none queued
    ∷ step (some queued) released
    ∷ step (some released) in_progress
    ∷ step (some in_progress) qc_pending
    ∷ [])

-- A floor with one work order of the project.
abbrev floor_with : WorkOrder → Db
floor_with w = record empty_db {
  pm = record empty_pm { projects = house ∷ [] };
  shop = record empty_shop { work_orders = w ∷ [] };
}

abbrev floor_db : Db
floor_db = floor_with awaiting

abbrev accepted : Call
accepted = record { principal = user; request = give_qc (raw_id "3" 3) pass_result }

floor_db-HasTrackedOrders : HasTrackedOrders floor_db
floor_db-HasTrackedOrders = record {
  tracked = ((refl, refl, (refl, refl, (refl, refl, (refl, refl, refl)))), tt);
}

serve-HasTrackedOrders_example : HasTrackedOrders (serve (accepted ∷ []) floor_db)
serve-HasTrackedOrders_example =
    serve-HasTrackedOrders (accepted ∷ []) floor_db floor_db-HasTrackedOrders

disallowed-IsRefused_example :
    IsRefused floor_db (handle user (dispatch_order (raw_id "3" 3) none) floor_db)
unfolding find_work_order
disallowed-IsRefused_example =
    disallowed-IsRefused user (dispatch_order (raw_id "3" 3) none) (raw_id "3" 3) 3 awaiting
      dispatched floor_db (to_dispatch (raw_id "3" 3) none) refl refl refl

managed-IsRefused_example :
    Holds "production_manager" user floor_db
    ⊎ IsRefused floor_db (handle user (auto_allocate_order (raw_id "3" 3)) floor_db)
managed-IsRefused_example =
    managed-IsRefused user (auto_allocate_order (raw_id "3" 3)) floor_db
      (auto_allocating (raw_id "3" 3))

abbrev saw : Station
saw = record {
  id = 5;
  id_text = "5";
  code = "SAW";
  name = "Saw";
  material_types = "wood" ∷ [];
  capacity_units_per_day = 10;
  is_active = true;
}

abbrev stations_db : Db
stations_db = record floor_db { shop = record floor_db.shop { stations = saw ∷ [] } }

auto_station-Chooses_example :
    Chooses stations_db (wo_category [] stations_db) (auto_station awaiting stations_db)
auto_station-Chooses_example = auto_station-Chooses awaiting stations_db

-- The same floor with the release stage of the pipeline.
abbrev release_db : Db
release_db = record floor_db {
  pm = record floor_db.pm { stage_defs = release_def ∷ []; stage_instances = release_stage ∷ [] };
}

recompute_pipeline_exact_example :
    is_done house release_def "production" (recompute_pipeline user house release_db).1
    ≡ all_of (cleared production) (live_work_orders 2 release_db)
unfolding live_work_orders stage_def_by_key stage_defs stage_instance
recompute_pipeline_exact_example =
    recompute_pipeline_exact user house release_def release_stage production release_db refl refl
      refl refl refl

-- The work order once its inspection is passed.
abbrev inspected : WorkOrder
inspected = record awaiting {
  status = passed;
  history =
      step none queued
      ∷ step (some queued) released
      ∷ step (some released) in_progress
      ∷ step (some in_progress) qc_pending
      ∷ record { at = 1000; by = 7; from_status = some qc_pending; to_status = passed; note = none }
      ∷ [];
  qc = some (record { pass = true; defects = []; note = none; inspector_id = 7; at = 1000 });
  updated_at = 1000;
}

pass_accepted : find_work_order 3 (serve (accepted ∷ []) floor_db) ≡ some inspected
unfolding serve handle record_qc wo_or_404 shop_oid find_work_order project_of find_project
    assert_transition pass_order set_status update_work_order finish recompute_pipeline
    live_work_orders recompute_with upsert_rollup drive_stage stage_def_by_key stage_defs detail
    write_activity revision_conflict sections_pct drive_instance
pass_accepted = refl

nothing_leaves_uninspected_example : any_of is_pass inspected.history ≡ true
nothing_leaves_uninspected_example =
    nothing_leaves_uninspected (accepted ∷ []) floor_db 3 inspected floor_db-HasTrackedOrders
      pass_accepted refl
