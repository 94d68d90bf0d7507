-- ===== src/Production/Floor.antt =====
-- The handlers of the shop floor (backend/app/modules/production/service.py).
pub mod Apart
pub mod Tracked
use blyns_ops.Prelude.{
  ℕ, ◌+++◌, String, Bool, true, false, Option, none, some, List, [], ◌∷◌, ◌++◌, not, ◌&&◌, ◌||◌,
  ◌==◌, str_eq, ltb, if◌then◌else◌, length, or_else, find_one, mem,
}
use blyns_ops.Tenant.{
  Db, Principal, RawId, Exec, Result, ok, err, pure, reads, or_raise, raise, raise_if, modify,
  ◌>>=◌, ◌>>◌, domain_error, validation_error, invalid_id, Project, StageStatus, CostType, labor,
  WorkOrder, WoStatus, queued, released, in_progress, qc_pending, qc_hold, rework, passed, packed,
  staged, dispatched, Station, SourceDrawing, Quantity, BlockedBy, material_shortfall, held_by_qc,
  QcResult, Packing, DeliveryWindow, Staging, Departure, Dispatch, StageDef, StageInstance,
}
use blyns_ops.Projects.Definitions.{legacy_scope, stage_def_by_key, stage_instance}
use blyns_ops.Projects.Costs.{JobCostCreate}
use blyns_ops.Production.Lifecycle.{is_one_of}
use blyns_ops.Production.Store.{
  shop_oid, log_order, require_manager, find_station, station_by_text, wo_or_404, project_of,
  update_work_order, assert_transition, set_status,
}
use blyns_ops.Production.Stations.{wo_category, auto_station}
use blyns_ops.Production.Packing.{Protection, protection_for, suggest_vehicle}
use blyns_ops.Production.Pipeline.{factory_release_key, recompute_pipeline}
use blyns_ops.Production.Material.{post_job_cost, book_material_cost, rework_material}

-- What `_enrich` adds to a work order when it is read.
pub record WorkOrderView : Type 0 where
  pub work_order : WorkOrder
  pub station_name : Option String
  pub revision_conflict : Bool

-- The revision on record of a drawing, or the pinned one; a malformed id is not caught.
unfoldable pub current_revision : SourceDrawing → Db → Result ℕ
current_revision d s = elim d.deliverable_id.object_id [
  | none ↦ err invalid_id
  | some id ↦
      elim (find_one (λ x. id == x.id && str_eq x.id_text d.deliverable_id.text)
        s.pm.deliverables) [ none ↦ ok d.version | some x ↦ ok x.current_version ]
]

unfoldable pub revision_conflict : Option SourceDrawing → Exec Bool
unfolding current_revision
revision_conflict none = pure false
revision_conflict (some d) = do current ← reads (current_revision d); pure (ltb d.version current)

abbrev station_name : Option String → Db → Option String
station_name none s = none
station_name (some text) s = elim (station_by_text text s) [ none ↦ none | some t ↦ some t.name ]

-- `_enrich` and `_detail`
unfoldable pub detail : WorkOrder → Exec WorkOrderView
unfolding revision_conflict
detail wo = do
  name ← reads (λ s. ok (station_name wo.current_station_id s))
  conflict ← revision_conflict wo.source_drawing
  pure (record { work_order = wo; station_name = name; revision_conflict = conflict })

unfoldable pub details : List WorkOrder → Exec (List WorkOrderView)
details [] = pure []
details (w ∷ ws) = do v ← detail w; vs ← details ws; pure (v ∷ vs)

-- The end of a handler: the event, the pipeline, and the answer.
unfoldable pub finish : Principal → String → Project → WorkOrder → Exec WorkOrderView
unfolding detail
finish pr action project wo = do log_order pr action wo; recompute_pipeline pr project; detail wo

-- `_assert_materials_reserved`
abbrev is_approved : Option StageInstance → Bool
is_approved none = false
is_approved (some i) = elim i.status [ StageStatus.approved ↦ true | _ ↦ false ]

abbrev procurement_order : Option StageDef → ℕ
procurement_order none = 5
procurement_order (some d) = d.order

unfoldable pub materials_reserved : Project → Db → Bool
materials_reserved project s = is_approved (
    stage_instance project.id
      (procurement_order (stage_def_by_key "material_procurement" (legacy_scope "sequential") s)) s)

unfoldable pub assert_materials_reserved : Project → Exec Unit
assert_materials_reserved project = do
  reserved ← reads (λ s. ok (materials_reserved project s))
  raise_if (not reserved) (domain_error validation_error 422)

abbrev unblocked : WorkOrder → WorkOrder
unblocked w = record w { blocked_by = none }

-- `release_work_order`
unfoldable pub release_reserved : Principal → WorkOrder → Exec WorkOrderView
release_reserved pr wo = do
  project ← project_of wo
  assert_materials_reserved project
  updated ← set_status pr wo released none unblocked
  finish pr "production.wo_released" project updated

unfoldable pub release_work_order : Principal → RawId → Exec WorkOrderView
release_work_order pr raw = do
  require_manager pr
  wo ← wo_or_404 raw
  assert_transition wo released
  release_reserved pr wo

-- `start_work_order`: the material is booked on the first start only.
unfoldable pub book_on_first_start : Principal → Project → WorkOrder → Bool → Exec Unit
book_on_first_start pr project wo true = book_material_cost pr project wo
book_on_first_start pr project wo false = pure tt

unfoldable pub begin_work : Principal → WorkOrder → Exec WorkOrderView
begin_work pr wo = do
  project ← project_of wo
  updated ← set_status pr wo in_progress none unblocked
  book_on_first_start pr project updated (is_one_of wo.status (released ∷ []))
  finish pr "production.wo_started" project updated

unfoldable pub start_work_order : Principal → RawId → Exec WorkOrderView
start_work_order pr raw = do wo ← wo_or_404 raw; assert_transition wo in_progress; begin_work pr wo

-- `request_qc`
pub record RequestQcInput : Type 0 where
  pub qty_done : Option ℕ
  pub labor_hours : ℕ
  pub labor_rate : ℕ

abbrev labor_cost : RequestQcInput → JobCostCreate
labor_cost x = record {
  stage_key = some factory_release_key;
  cost_type = labor;
  hours = x.labor_hours;
  quantity = 0;
  unit_cost = x.labor_rate;
  post_to_finance = true;
}

unfoldable pub post_labor : Principal → Project → RequestQcInput → Exec Unit
post_labor pr project x =
    if x.labor_hours == 0 || x.labor_rate == 0
    then pure tt
    else post_job_cost pr project.id (labor_cost x)

unfoldable pub hand_to_qc : Principal → RequestQcInput → WorkOrder → Exec WorkOrderView
hand_to_qc pr x wo = do
  project ← project_of wo
  updated ←
      set_status pr wo qc_pending none
        (λ w. record w { qty = record wo.qty { done = or_else x.qty_done wo.qty.ordered } })
  post_labor pr project x
  finish pr "production.wo_qc_requested" project updated

unfoldable pub request_qc : Principal → RawId → RequestQcInput → Exec WorkOrderView
request_qc pr raw x = do wo ← wo_or_404 raw; assert_transition wo qc_pending; hand_to_qc pr x wo

-- `record_qc`
pub data QcInput : Type 0 where
  pass_result : QcInput
  hold_result : List String → Option String → QcInput

abbrev qc_pass : Principal → WorkOrder → WorkOrder
qc_pass pr w = record w {
  blocked_by = none;
  qc =
      some
        (record { pass = true; defects = []; note = none; inspector_id = pr.user_id; at = pr.now });
}

abbrev qc_held : Principal → List String → Option String → WorkOrder → WorkOrder
qc_held pr defects note w = record w {
  blocked_by = some (held_by_qc note);
  qc = some (record {
    pass = false;
    defects = defects;
    note = note;
    inspector_id = pr.user_id;
    at = pr.now;
  });
}

unfoldable pub pass_order : Principal → WorkOrder → Project → Exec WorkOrderView
pass_order pr wo project = do
  updated ← set_status pr wo passed none (qc_pass pr)
  finish pr "production.wo_qc_passed" project updated

unfoldable pub hold_order :
    Principal → List String → Option String → WorkOrder → Project → Exec WorkOrderView
hold_order pr defects note wo project = do
  updated ← set_status pr wo qc_hold none (qc_held pr defects note)
  finish pr "production.wo_qc_held" project updated

unfoldable pub record_qc : Principal → RawId → QcInput → Exec WorkOrderView
record_qc pr raw pass_result = do
  wo ← wo_or_404 raw
  project ← project_of wo
  assert_transition wo passed
  pass_order pr wo project
record_qc pr raw (hold_result defects note) = do
  wo ← wo_or_404 raw
  project ← project_of wo
  assert_transition wo qc_hold
  hold_order pr defects note wo project

-- `rework_work_order`: the material is drawn again before the status moves.
unfoldable pub redo : Principal → Option String → WorkOrder → Exec WorkOrderView
redo pr note wo = do
  project ← project_of wo
  rework_material pr project wo
  updated ← set_status pr wo rework note unblocked
  finish pr "production.wo_rework" project updated

unfoldable pub rework_work_order : Principal → RawId → Option String → Exec WorkOrderView
rework_work_order pr raw note = do wo ← wo_or_404 raw; assert_transition wo rework; redo pr note wo

-- `flag_shortfall`
unfoldable pub flag_shortfall : Principal → RawId → String → Exec WorkOrderView
unfolding detail
flag_shortfall pr raw note = do
  wo ← wo_or_404 raw
  updated ←
      update_work_order pr wo.id (λ w. record w { blocked_by = some (material_shortfall note) })
  log_order pr "production.wo_shortfall" updated
  detail updated

-- `pack_work_order`
pub record PackInput : Type 0 where
  pub packing_type : Option String
  pub labels : List String
  pub handling : List String
  pub note : Option String

-- `xs or ys` on lists
abbrev non_empty : List String → List String → List String
non_empty [] ys = ys
non_empty (x ∷ xs) ys = x ∷ xs

-- `text or default`
abbrev text_or : Option String → String → String
text_or none d = d
text_or (some t) d = if str_eq t "" then d else t

abbrev packing_for : Principal → PackInput → WorkOrder → Protection → Packing
packing_for pr x wo spec = record {
  type_ = text_or x.packing_type spec.type_;
  protection_spec = spec.protection_spec;
  moisture_barrier = spec.moisture_barrier;
  labels = non_empty x.labels (wo.code ∷ []);
  handling = non_empty x.handling spec.handling;
  packed_by = pr.user_id;
  packed_at = pr.now;
}

unfoldable pub pack : Principal → PackInput → WorkOrder → Exec WorkOrderView
pack pr x wo = do
  project ← project_of wo
  spec ← reads (λ s. ok (protection_for (wo_category wo.bom_lines s)))
  updated ←
      set_status pr wo packed x.note
        (λ w. record w { packing = some (packing_for pr x wo spec); blocked_by = none })
  finish pr "production.wo_packed" project updated

unfoldable pub pack_work_order : Principal → RawId → PackInput → Exec WorkOrderView
pack_work_order pr raw x = do wo ← wo_or_404 raw; assert_transition wo packed; pack pr x wo

-- `stage_work_order`
pub record StageInput : Type 0 where
  pub delivery_window_start : Option ℕ
  pub delivery_window_end : Option ℕ
  pub vehicle : Option String
  pub note : Option String

abbrev window_of : StageInput → Option DeliveryWindow
window_of x = elim x.delivery_window_start [
  | some start ↦ some (record { start = some start; end = x.delivery_window_end })
  | none ↦ elim x.delivery_window_end [
    | some end ↦ some (record { start = none; end = some end })
    | none ↦ none
  ]
]

abbrev staging_for : Principal → StageInput → WorkOrder → Dispatch
staging_for pr x wo = record {
  staging = some (record {
    units = wo.qty.ordered;
    lines = length wo.bom_lines;
    vehicle = text_or x.vehicle (suggest_vehicle wo.qty.ordered);
    window = window_of x;
    delivery_note_ref = "DN-" +++ wo.code;
    manifest_ref = "MF-" +++ wo.code;
    staged_by = pr.user_id;
    staged_at = pr.now;
  });
  departure = none;
}

unfoldable pub stage_for_dispatch : Principal → StageInput → WorkOrder → Exec WorkOrderView
stage_for_dispatch pr x wo = do
  project ← project_of wo
  updated ←
      set_status pr wo staged x.note
        (λ w. record w { dispatch = some (staging_for pr x wo); blocked_by = none })
  log_order pr "production.site_notified" updated
  finish pr "production.wo_staged" project updated

unfoldable pub stage_work_order : Principal → RawId → StageInput → Exec WorkOrderView
stage_work_order pr raw x = do
  wo ← wo_or_404 raw
  assert_transition wo staged
  stage_for_dispatch pr x wo

-- `dispatch_work_order`: what staging wrote is kept.
abbrev departed : Principal → WorkOrder → Dispatch
departed pr wo = record {
  staging = elim wo.dispatch [ none ↦ none | some d ↦ d.staging ];
  departure = some (record { dispatched_by = pr.user_id; dispatched_at = pr.now });
}

unfoldable pub depart : Principal → Option String → WorkOrder → Exec WorkOrderView
depart pr note wo = do
  project ← project_of wo
  updated ← set_status pr wo dispatched note (λ w. record w { dispatch = some (departed pr wo) })
  finish pr "production.wo_dispatched" project updated

unfoldable pub dispatch_work_order : Principal → RawId → Option String → Exec WorkOrderView
dispatch_work_order pr raw note = do
  wo ← wo_or_404 raw
  assert_transition wo dispatched
  depart pr note wo

-- `allocate_work_order`
unfoldable pub active_station : RawId → Exec Station
active_station raw = do
  id ← shop_oid raw
  station ← reads (λ s. or_raise (find_station id s) (domain_error validation_error 422))
  raise_if (not station.is_active) (domain_error validation_error 422)
  pure station

abbrev allocated : String → List String → WorkOrder → WorkOrder
allocated text route w = record w {
  current_station_id = some text;
  station_route = if mem text route then route else route ++ (text ∷ []);
}

unfoldable pub allocate : Principal → RawId → RawId → Exec WorkOrderView
unfolding active_station detail
allocate pr raw station = do
  wo ← wo_or_404 raw
  active_station station
  updated ← update_work_order pr wo.id (allocated station.text wo.station_route)
  log_order pr "production.wo_allocated" updated
  detail updated

unfoldable pub allocate_work_order : Principal → RawId → RawId → Exec WorkOrderView
allocate_work_order pr raw station = do require_manager pr; allocate pr raw station

-- `auto_allocate_work_order`
unfoldable pub auto_allocate_work_order : Principal → RawId → Exec WorkOrderView
auto_allocate_work_order pr raw = do
  wo ← wo_or_404 raw
  best ← reads (λ s. or_raise (auto_station wo s) (domain_error validation_error 422))
  allocate_work_order pr raw (record { text = best.id_text; object_id = some best.id })
