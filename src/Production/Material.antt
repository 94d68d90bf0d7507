-- ===== src/Production/Material.antt =====
-- Material costs of work orders, and the stock that a rework draws
-- (backend/app/modules/production/service.py).
use blyns_ops.Prelude.{
  ℕ, ◌+◌, ◌*◌, true, false, Option, none, some, List, [], ◌∷◌, ◌==◌, if◌then◌else◌,
}
use blyns_ops.Prelude.Int.{pos}
use blyns_ops.Tenant.{
  Db, Principal, id_text, Exec, ok, pure, reads, ◌>>=◌, ◌>>◌, on_status, Product, Warehouse,
  Project, RefModule, material, WorkOrder, WorkOrderLine,
}
use blyns_ops.Inventory.Movements.{MovementCreate, DirectMovementType, create_movement}
use blyns_ops.Projects.Costs.{JobCostCreate, create_job_cost}
use blyns_ops.Production.Store.{product_of, default_warehouse}
use blyns_ops.Production.Pipeline.{factory_release_key}

-- `_post_job_cost`: if Finance refuses with 409, the cost is captured without it.
unfoldable pub post_job_cost : Principal → ℕ → JobCostCreate → Exec Unit
post_job_cost pr project x =
    on_status 409 (do _ ← create_job_cost pr (id_text project) x; pure tt)
      (do _ ← create_job_cost pr (id_text project) (record x { post_to_finance = false }); pure tt)

-- The value of a line at the product's cost price; a product that is not found costs nothing.
abbrev pub line_value : WorkOrderLine → Option Product → ℕ
line_value l none = 0
line_value l (some p) = p.cost_price * l.qty

-- `_material_value`
unfoldable pub material_value : List WorkOrderLine → Db → ℕ
unfolding product_of
material_value [] s = 0
material_value (l ∷ ls) s = line_value l (product_of l.product_id s) + material_value ls s

abbrev material_cost : ℕ → JobCostCreate
material_cost value = record {
  stage_key = some factory_release_key;
  cost_type = material;
  hours = 0;
  quantity = 1;
  unit_cost = value;
  post_to_finance = true;
}

unfoldable pub post_material : Principal → Project → ℕ → Exec Unit
post_material pr project value =
    if value == 0 then pure tt else post_job_cost pr project.id (material_cost value)

-- `_book_material_cost`
unfoldable pub book_material_cost : Principal → Project → WorkOrder → Exec Unit
unfolding material_value
book_material_cost pr project wo = do
  value ← reads (λ s. ok (material_value wo.bom_lines s))
  post_material pr project value

-- A line of the rework is issued from the default warehouse, if there is one.
abbrev pub rework_issue : WorkOrder → WorkOrderLine → Warehouse → MovementCreate
rework_issue wo l w = record {
  product_id = l.product_id;
  warehouse_id = id_text w.id;
  type_ = DirectMovementType.issue;
  qty = pos l.qty;
  note = some "Rework";
  occurred_at = none;
  ref_module = RefModule.production;
  ref_doc_id = some wo.id;
}

unfoldable pub issue_line : Principal → WorkOrder → Option Warehouse → WorkOrderLine → Exec Unit
issue_line pr wo none l = pure tt
issue_line pr wo (some w) l = do _ ← create_movement pr (rework_issue wo l w); pure tt

-- The loop of `_rework_material`, with the value of the lines.
unfoldable pub issue_lines : Principal → WorkOrder → Option Warehouse → List WorkOrderLine → Exec ℕ
unfolding issue_line
issue_lines pr wo warehouse [] = pure 0
issue_lines pr wo warehouse (l ∷ ls) = do
  product ← reads (λ s. ok (product_of l.product_id s))
  issue_line pr wo warehouse l
  rest ← issue_lines pr wo warehouse ls
  pure (line_value l product + rest)

-- `_rework_material`
unfoldable pub rework_material : Principal → Project → WorkOrder → Exec Unit
rework_material pr project wo = do
  warehouse ← reads (λ s. ok (default_warehouse s))
  value ← issue_lines pr wo warehouse wo.bom_lines
  post_material pr project value
