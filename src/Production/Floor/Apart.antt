-- ===== src/Production/Floor/Apart.antt =====
-- What the shop floor calls in Inventory, Finance and Projects leaves the work orders as they were
-- (backend/app/modules/production/service.py).
use blyns_ops.Prelude.{
  ℕ, ◌+◌, String, Bool, true, false, Option, none, some, List, [], ◌∷◌, ◌≡◌, refl, ap, arith,
}
use blyns_ops.Prelude.Int.{ℤ}
use blyns_ops.Tenant.{
  Db, Principal, RawId, Movement, Product, Warehouse, JournalLine, SourceModule, Exec, ok, pure,
  reads, ◌>>=◌, ◌>>◌, new_id, write_activity, WorkOrder, Project, StageDef, StageInstance,
  WorkOrderLine, SourceDrawing,
}
use blyns_ops.Tenant.Frame.{Leaves, Leaves-bind, Leaves-query, Leaves-on_status, leaves_rules}
use blyns_ops.Inventory.Stock.Cache.{claim_stock_frame}
use blyns_ops.Inventory.Stock.{release_stock}
use blyns_ops.Inventory.Movements.{
  Posting, MovementCreate, post_movement, insert_movement, create_movement, resolve_movement,
  write_movement, claim,
}
use blyns_ops.Inventory.Movements.Direct.{resolve_movement-IsQuery}
use blyns_ops.Finance.Posting.{post_entry, write_entry, check_entry}
use blyns_ops.Finance.Accounts.{JournalEntryCreate, create_entry}
use blyns_ops.Finance.Queries.{resolve_lines-IsQuery}
use blyns_ops.Projects.Definitions.{update_project, require_project, set_stage_fields}
use blyns_ops.Projects.Costs.{
  JobCostCreate, post_cost, post_cost_if, insert_job_cost, create_job_cost,
}
use blyns_ops.Production.Store.{product_of, require_manager, project_of, shop_oid}
use blyns_ops.Production.Floor.{
  RequestQcInput, revision_conflict, detail, finish, post_labor, book_on_first_start,
  assert_materials_reserved, active_station,
}
use blyns_ops.Production.Pipeline.{
  upsert_rollup, sync_checklist, drive_instance, drive_stage, recompute_with, recompute_pipeline,
}
use blyns_ops.Production.Material.{
  line_value, post_job_cost, post_material, book_material_cost, issue_line, issue_lines,
  rework_material,
}

abbrev pub orders : Db → List WorkOrder
orders s = s.shop.work_orders

pub new_id-Leaves : Leaves orders new_id
unfolding new_id
new_id-Leaves = record { same = λ s. ground arith }

pub write_activity-Leaves :
    (p : Principal) (action kind : String) (id : ℕ)
    → Leaves orders (write_activity p action kind id)
unfolding write_activity
write_activity-Leaves p action kind id = record { same = λ s. refl }

claim-Leaves : (p w : ℕ) (d : ℤ) (an : Bool) → Leaves orders (claim p w d an)
claim-Leaves p w d an = record { same = λ s. ap orders (claim_stock_frame p w d an s) }

release-same : (p w : ℕ) (d : ℤ) (s : Db) → orders (release_stock p w d s) ≡ orders s
unfolding release_stock
release-same p w d s = refl

pub ruleset apart_rules = (leaves_rules, new_id-Leaves, write_activity-Leaves, Leaves-query)

insert_movement-Leaves : (row : ℕ → Movement) → Leaves orders (insert_movement row)
unfolding insert_movement
insert_movement-Leaves row = search apart_rules

post_movement-Leaves :
    (p w : ℕ) (d : ℤ) (x : Posting) (an : Bool) → Leaves orders (post_movement p w d x an)
unfolding post_movement
post_movement-Leaves p w d x an =
    search (apart_rules, insert_movement-Leaves, claim-Leaves, release-same)

write_movement-Leaves :
    (p : Principal) (x : MovementCreate) (product : Product) (warehouse : Warehouse)
    → Leaves orders (write_movement p x (product, warehouse))
unfolding write_movement
write_movement-Leaves p x product warehouse = search (apart_rules, post_movement-Leaves)

create_movement-Leaves : (p : Principal) (x : MovementCreate) → Leaves orders (create_movement p x)
create_movement-Leaves p x =
    unfold create_movement in
    Leaves-bind (resolve_movement x) (write_movement p x)
      (Leaves-query (resolve_movement x) (resolve_movement-IsQuery x))
      (λ found. write_movement-Leaves p x found.0 found.1)

post_entry-Leaves :
    (p : Principal) (date : ℕ) (source : SourceModule) (doc : Option ℕ) (lines : List JournalLine)
    → Leaves orders (post_entry p date source doc lines)
unfolding post_entry write_entry check_entry
post_entry-Leaves p date source doc lines = search apart_rules

create_entry-Leaves : (p : Principal) (x : JournalEntryCreate) → Leaves orders (create_entry p x)
unfolding create_entry
create_entry-Leaves p x = search (apart_rules, resolve_lines-IsQuery, post_entry-Leaves)

update_project-Leaves : (id : ℕ) (f : Project → Project) → Leaves orders (update_project id f)
unfolding update_project
update_project-Leaves id f = search apart_rules

set_stage_fields-Leaves :
    (id : ℕ) (f : StageInstance → StageInstance) → Leaves orders (set_stage_fields id f)
unfolding set_stage_fields
set_stage_fields-Leaves id f = search apart_rules

require_project-Leaves :
    (mutating : Bool) (raw : RawId) → Leaves orders (require_project mutating raw)
unfolding require_project
require_project-Leaves mutating raw = search apart_rules

post_cost_if-Leaves :
    (p : Principal) (b : Bool) (amount : ℕ) → Leaves orders (post_cost_if p b amount)
unfolding post_cost_if post_cost
post_cost_if-Leaves p true amount = search (apart_rules, create_entry-Leaves) depth 16
post_cost_if-Leaves p false amount = search apart_rules

insert_job_cost-Leaves :
    (p : Principal) (x : JobCostCreate) (project : Project) (amount : ℕ) (ref : Option ℕ)
    → Leaves orders (insert_job_cost p x project amount ref)
unfolding insert_job_cost
insert_job_cost-Leaves p x project amount ref = search apart_rules

create_job_cost-Leaves :
    (p : Principal) (raw : RawId) (x : JobCostCreate) → Leaves orders (create_job_cost p raw x)
unfolding create_job_cost
create_job_cost-Leaves p raw x =
    search
      (
        apart_rules, require_project-Leaves, post_cost_if-Leaves, insert_job_cost-Leaves,
        update_project-Leaves,
      )
      depth 16

pub post_job_cost-Leaves :
    (p : Principal) (id : ℕ) (x : JobCostCreate) → Leaves orders (post_job_cost p id x)
unfolding post_job_cost
post_job_cost-Leaves p id x =
    search (apart_rules, Leaves-on_status, create_job_cost-Leaves) depth 16

post_material-Leaves :
    (p : Principal) (project : Project) (v : ℕ) → Leaves orders (post_material p project v)
unfolding post_material
post_material-Leaves p project v = search (apart_rules, post_job_cost-Leaves)

pub book_material_cost-Leaves :
    (p : Principal) (project : Project) (wo : WorkOrder)
    → Leaves orders (book_material_cost p project wo)
unfolding book_material_cost
book_material_cost-Leaves p project wo = search (apart_rules, post_material-Leaves)

issue_line-Leaves :
    (p : Principal) (wo : WorkOrder) (w : Option Warehouse) (l : WorkOrderLine)
    → Leaves orders (issue_line p wo w l)
unfolding issue_line
issue_line-Leaves p wo none l = search apart_rules
issue_line-Leaves p wo (some w) l = search (apart_rules, create_movement-Leaves)

issue_next-Leaves :
    (p : Principal) (wo : WorkOrder) (w : Option Warehouse) (l : WorkOrderLine) (rest : Exec ℕ)
    → Leaves orders rest
    → Leaves orders (do
      product ← reads (λ s. ok (product_of l.product_id s))
      issue_line p wo w l
      value ← rest
      pure (line_value l product + value))
issue_next-Leaves p wo w l rest h = search (apart_rules, issue_line-Leaves) depth 16

issue_lines-Leaves :
    (p : Principal) (wo : WorkOrder) (w : Option Warehouse) (ls : List WorkOrderLine)
    → Leaves orders (issue_lines p wo w ls)
unfolding issue_lines
issue_lines-Leaves p wo w [] = search apart_rules
issue_lines-Leaves p wo w (l ∷ ls) =
    issue_next-Leaves p wo w l (issue_lines p wo w ls) (issue_lines-Leaves p wo w ls)

pub rework_material-Leaves :
    (p : Principal) (project : Project) (wo : WorkOrder)
    → Leaves orders (rework_material p project wo)
unfolding rework_material
rework_material-Leaves p project wo = search (apart_rules, issue_lines-Leaves, post_material-Leaves)

sync_checklist-Leaves :
    (p : Principal) (project : Project) (i : StageInstance) (before done : List String)
    → Leaves orders (sync_checklist p project i before done)
unfolding sync_checklist
sync_checklist-Leaves p project i before done = search (apart_rules, set_stage_fields-Leaves)

drive_instance-Leaves :
    (p : Principal) (project : Project) (wos : List WorkOrder) (d : StageDef)
    (i : Option StageInstance)
    → Leaves orders (drive_instance p project wos d i)
unfolding drive_instance
drive_instance-Leaves p project wos d none = search apart_rules
drive_instance-Leaves p project wos d (some i) = search (apart_rules, sync_checklist-Leaves)

drive_stage-Leaves :
    (p : Principal) (project : Project) (wos : List WorkOrder) (d : Option StageDef)
    → Leaves orders (drive_stage p project wos d)
unfolding drive_stage
drive_stage-Leaves p project wos none = search apart_rules
drive_stage-Leaves p project wos (some d) = search (apart_rules, drive_instance-Leaves)

recompute_with-Leaves :
    (p : Principal) (project : Project) (wos : List WorkOrder)
    → Leaves orders (recompute_with p project wos)
unfolding recompute_with upsert_rollup
recompute_with-Leaves p project [] = search apart_rules
recompute_with-Leaves p project (w ∷ ws) = search (apart_rules, drive_stage-Leaves)

pub recompute_pipeline-Leaves :
    (p : Principal) (project : Project) → Leaves orders (recompute_pipeline p project)
unfolding recompute_pipeline
recompute_pipeline-Leaves p project = search (apart_rules, recompute_with-Leaves)

revision_conflict-Leaves : (d : Option SourceDrawing) → Leaves orders (revision_conflict d)
unfolding revision_conflict
revision_conflict-Leaves none = search apart_rules
revision_conflict-Leaves (some d) = search apart_rules

pub detail-Leaves : (wo : WorkOrder) → Leaves orders (detail wo)
unfolding detail
detail-Leaves wo = search (apart_rules, revision_conflict-Leaves)

pub finish-Leaves :
    (p : Principal) (action : String) (project : Project) (wo : WorkOrder)
    → Leaves orders (finish p action project wo)
unfolding finish
finish-Leaves p action project wo = search (apart_rules, recompute_pipeline-Leaves, detail-Leaves)

pub post_labor-Leaves :
    (p : Principal) (project : Project) (x : RequestQcInput)
    → Leaves orders (post_labor p project x)
unfolding post_labor
post_labor-Leaves p project x = search (apart_rules, post_job_cost-Leaves)

pub book_on_first_start-Leaves :
    (p : Principal) (project : Project) (wo : WorkOrder) (b : Bool)
    → Leaves orders (book_on_first_start p project wo b)
unfolding book_on_first_start
book_on_first_start-Leaves p project wo true = search (apart_rules, book_material_cost-Leaves)
book_on_first_start-Leaves p project wo false = search apart_rules

pub require_manager-Leaves : (p : Principal) → Leaves orders (require_manager p)
unfolding require_manager
require_manager-Leaves p = search apart_rules

pub project_of-Leaves : (wo : WorkOrder) → Leaves orders (project_of wo)
unfolding project_of
project_of-Leaves wo = search apart_rules

pub assert_materials_reserved-Leaves :
    (project : Project) → Leaves orders (assert_materials_reserved project)
unfolding assert_materials_reserved
assert_materials_reserved-Leaves project = search apart_rules

pub active_station-Leaves : (raw : RawId) → Leaves orders (active_station raw)
unfolding active_station shop_oid
active_station-Leaves raw = search apart_rules
