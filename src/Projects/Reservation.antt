-- ===== src/Projects/Reservation.antt =====
-- The reservation of a bill of materials (backend/app/modules/projects/service.py, `_reserve_stock`).
use blyns_ops.Prelude.{
  ℕ, ◌+◌, ◌*◌, Option, none, some, List, [], ◌∷◌, ◌++◌, ◌==◌, if◌then◌else◌, find_one, delete_one,
  or_else,
}
use blyns_ops.Prelude.Int.{pos}
use blyns_ops.Tenant.{
  Db, Principal, RawId, id_text, Exec, ok, pure, reads, or_raise, or_undo, ◌>>=◌, ◌>>◌,
  domain_error, invalid_id, validation_error, Product, Warehouse, RefModule, Project, BomLine,
  Deliverable,
}
use blyns_ops.Inventory.Stock.{release_stock}
use blyns_ops.Inventory.Movements.{MovementCreate, DirectMovementType, create_movement}
use blyns_ops.Projects.Definitions.{find_project, update_project, log_project}
use blyns_ops.Production.Store.{reservable_bom, default_warehouse}

pub record Reserved : Type 0 where
  pub product_id : RawId
  pub qty : ℕ
  pub value : ℕ
  pub movement_id : ℕ

-- `_release_movement`
unfoldable pub release_movement : ℕ → Db → Db
release_movement id s = elim (find_one (λ m. id == m.id) s.movements) [
  | none ↦ s
  | some m ↦
      let t = release_stock m.product_id m.warehouse_id m.qty s in
      record t { movements = delete_one (λ x. m.id == x.id) t.movements }
]

unfoldable pub release_all : List Reserved → Db → Db
unfolding release_movement
release_all [] s = s
release_all (r ∷ rs) s = release_all rs (release_movement r.movement_id s)

abbrev reserve_issue : Project → BomLine → Warehouse → MovementCreate
reserve_issue project l w = record {
  product_id = l.product_id;
  warehouse_id = id_text w.id;
  type_ = DirectMovementType.issue;
  qty = pos l.qty;
  note = some "Reserved";
  occurred_at = none;
  ref_module = RefModule.projects;
  ref_doc_id = some project.id;
}

abbrev line_cost : BomLine → Option Product → ℕ
line_cost l none = 0
line_cost l (some p) = p.cost_price * l.qty

-- One turn of the loop: here a malformed id is not caught on the spot.
unfoldable pub reserve_line : Principal → Project → Warehouse → BomLine → Exec Reserved
reserve_line pr project w l = do
  id ← reads (λ s. or_raise l.product_id.object_id invalid_id)
  product ← reads (λ s. ok (find_one (λ p. id == p.id) s.products))
  m ← create_movement pr (reserve_issue project l w)
  pure (record {
    product_id = l.product_id;
    qty = l.qty;
    value = line_cost l product;
    movement_id = m.id;
  })

-- The loop, which gives back what it has reserved when a line fails.
unfoldable pub reserve_lines :
    Principal → Project → Warehouse → List Reserved → List BomLine → Exec (List Reserved)
unfolding reserve_line release_all
reserve_lines pr project w done [] = pure done
reserve_lines pr project w done (l ∷ ls) = do
  r ← or_undo (reserve_line pr project w l) (release_all done)
  reserve_lines pr project w (done ++ (r ∷ [])) ls

abbrev pub committed : List Reserved → ℕ
committed [] = 0
committed (r ∷ rs) = r.value + committed rs

-- The commitment is added to the budget that is stored now.
unfoldable pub commit : Project → ℕ → Exec Unit
commit project value = if value == 0 then pure tt else (do
  current ← reads (λ s. ok (or_else (find_project project.id s) project))
  _ ← update_project project.id (λ p. record p {
    budget = record current.budget { committed = current.budget.committed + value };
  })
  pure tt)

unfoldable pub reserve_bom : Principal → Project → Deliverable → Exec (List Reserved)
unfolding reserve_lines commit
reserve_bom pr project bom = do
  w ← reads (λ s. or_raise (default_warehouse s) (domain_error validation_error 409))
  done ← reserve_lines pr project w [] bom.lines
  commit project (committed done)
  log_project pr "project.stock_reserved" project
  pure done

-- `_reserve_stock`: the newest bill of materials that has lines.
unfoldable pub reserve_stock : Principal → Project → Exec (List Reserved)
reserve_stock pr project = do
  bom ← reads (λ s. ok (reservable_bom project.id s))
  elim bom [ none ↦ pure [] | some d ↦ reserve_bom pr project d ]
