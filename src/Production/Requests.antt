-- ===== src/Production/Requests.antt =====
-- The requests that change work orders (backend/app/modules/production/router.py).
pub mod Histories
pub mod Inspected
pub mod Refused
use blyns_ops.Prelude.{String, Option, List, [], ◌∷◌}
use blyns_ops.Tenant.{Db, Principal, RawId, Exec, pure, ◌>>=◌, ◌>>◌}
use blyns_ops.Production.Floor.{
  RequestQcInput, QcInput, PackInput, StageInput, release_work_order, start_work_order, request_qc,
  record_qc, rework_work_order, flag_shortfall, pack_work_order, stage_work_order,
  dispatch_work_order, allocate_work_order, auto_allocate_work_order,
}
use blyns_ops.Production.Planning.{WorkOrderInput, create_work_orders}

pub data Request : Type 0 where
  create_orders : List WorkOrderInput → Request
  release_order : RawId → Request
  start_order : RawId → Request
  ask_for_qc : RawId → RequestQcInput → Request
  give_qc : RawId → QcInput → Request
  rework_order : RawId → Option String → Request
  report_shortfall : RawId → String → Request
  pack_order : RawId → PackInput → Request
  stage_order : RawId → StageInput → Request
  dispatch_order : RawId → Option String → Request
  allocate_order : RawId → RawId → Request
  auto_allocate_order : RawId → Request

abbrev done : {A : Type 0} → Exec A → Exec Unit
done m = m >>= λ _. pure tt

unfoldable pub handle : Principal → Request → Exec Unit
handle pr (create_orders xs) = done (create_work_orders pr xs)
handle pr (release_order raw) = done (release_work_order pr raw)
handle pr (start_order raw) = done (start_work_order pr raw)
handle pr (ask_for_qc raw x) = done (request_qc pr raw x)
handle pr (give_qc raw x) = done (record_qc pr raw x)
handle pr (rework_order raw n) = done (rework_work_order pr raw n)
handle pr (report_shortfall raw n) = done (flag_shortfall pr raw n)
handle pr (pack_order raw x) = done (pack_work_order pr raw x)
handle pr (stage_order raw x) = done (stage_work_order pr raw x)
handle pr (dispatch_order raw n) = done (dispatch_work_order pr raw n)
handle pr (allocate_order raw station) = done (allocate_work_order pr raw station)
handle pr (auto_allocate_order raw) = done (auto_allocate_work_order pr raw)

-- Requests of several users, one after the other; a refused one keeps what it has written.
pub record Call : Type 0 where
  pub principal : Principal
  pub request : Request

unfoldable pub serve : List Call → Db → Db
unfolding handle
serve [] s = s
serve (c ∷ cs) s = serve cs (handle c.principal c.request s).1
