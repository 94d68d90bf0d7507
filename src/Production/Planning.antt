-- ===== src/Production/Planning.antt =====
-- The making of work orders (backend/app/modules/production/service.py).
use blyns_ops.Prelude.{
  ℕ, ◌+++◌, String, false, Option, none, some, List, [], ◌∷◌, str_eq, insert_one, if◌then◌else◌,
  map, two_digits, after_last_dash,
}
use blyns_ops.Tenant.{
  Principal, RawId, id_text, Exec, ok, pure, reads, raise, modify, ◌>>=◌, ◌>>◌, domain_error,
  validation_error, new_id, Product, Project, BomLine, Deliverable, WorkOrder, WorkOrderLine,
  queued, Station, SourceDrawing, Move,
}
use blyns_ops.Production.Store.{
  log_order, require_manager, project_or_404, product_of, client_name_of, reservable_bom,
  latest_shop_drawing, active_stations, next_wo_seq,
}
use blyns_ops.Production.Stations.{suggest_station}

-- `WorkOrderInput`, the shape of a draft
pub record WorkOrderInput : Type 0 where
  pub project_id : RawId
  pub item_name : String
  pub source_drawing : Option SourceDrawing
  pub bom_lines : List WorkOrderLine
  pub qty_ordered : ℕ
  pub station_id : Option String
  pub due_date : Option ℕ

-- A BOM without product lines is told from no BOM by the message only.
unfoldable pub require_bom : Project → Exec Deliverable
require_bom project = do
  bom ← reads (λ s. ok (reservable_bom project.id s))
  elim bom [ some d ↦ pure d | none ↦ raise (domain_error validation_error 422) ]

abbrev drawing_of : Option Deliverable → Option SourceDrawing
drawing_of none = none
drawing_of (some d) = some (record {
  deliverable_id = record { text = d.id_text; object_id = some d.id };
  title = d.title;
  version = d.current_version;
})

abbrev text_of : Option Product → (Product → String) → Option String
text_of none f = none
text_of (some p) f = some (f p)

abbrev category_of : Option Product → Option String
category_of none = none
category_of (some p) = p.category

-- `name or sku or "Manufactured item"`
abbrev name_or : Option String → Option String → String
name_or name sku = elim name [ some n ↦ if str_eq n "" then sku_or sku else n | none ↦ sku_or sku ]
  where
    sku_or : Option String → String
    sku_or none = "Manufactured item"
    sku_or (some t) = if str_eq t "" then "Manufactured item" else t

-- The draft of one line of the BOM.
unfoldable pub draft_for :
    Project → Option SourceDrawing → List Station → BomLine → Option Product → WorkOrderInput
draft_for project drawing stations line prod = record {
  project_id = id_text project.id;
  item_name = name_or (text_of prod (λ p. p.name)) (text_of prod (λ p. p.sku));
  source_drawing = drawing;
  bom_lines =
      record {
        product_id = line.product_id;
        sku = text_of prod (λ p. p.sku);
        description = text_of prod (λ p. p.name);
        qty = line.qty;
        uom = text_of prod (λ p. p.unit);
      }
      ∷ [];
  qty_ordered = line.qty;
  station_id = suggest_station stations (category_of prod);
  due_date = project.delivery_date;
}

-- `propose_work_orders`
unfoldable pub propose_work_orders : RawId → Exec (List WorkOrderInput)
unfolding require_bom draft_for
propose_work_orders raw = do
  project ← project_or_404 raw
  bom ← require_bom project
  reads (λ s. ok (
      map
        (λ l.
          draft_for project (drawing_of (latest_shop_drawing project.id s)) (active_stations s) l
            (product_of l.product_id s))
        bom.lines))

-- `_wo_code`
unfoldable pub wo_code : Project → ℕ → String
wo_code project seq = "WO-" +++ after_last_dash project.code +++ "-" +++ two_digits seq

abbrev route_of : Option String → List String
route_of none = []
route_of (some text) = if str_eq text "" then [] else text ∷ []

abbrev created : Principal → Move
created pr = record {
  at = pr.now;
  by = pr.user_id;
  from_status = none;
  to_status = queued;
  note = some "created";
}

abbrev pub new_work_order : Principal → WorkOrderInput → Project → Option String → ℕ → ℕ → WorkOrder
new_work_order pr x project client seq id = record {
  id = id;
  code = wo_code project seq;
  project_id = project.id;
  client_name = client;
  item_name = x.item_name;
  source_drawing = x.source_drawing;
  bom_lines = x.bom_lines;
  qty = record { ordered = x.qty_ordered; done = 0 };
  station_route = route_of x.station_id;
  current_station_id = x.station_id;
  due_date = x.due_date;
  status = queued;
  blocked_by = none;
  history = created pr ∷ [];
  qc = none;
  packing = none;
  dispatch = none;
  created_by = pr.user_id;
  updated_by = pr.user_id;
  updated_at = pr.now;
  is_deleted = false;
}

unfoldable pub insert_work_order :
    Principal → WorkOrderInput → Project → Option String → ℕ → Exec WorkOrder
unfolding wo_code
insert_work_order pr x project client seq = do
  id ← new_id
  modify (λ s. record s {
    shop = record s.shop {
      work_orders = insert_one s.shop.work_orders (new_work_order pr x project client seq id);
    };
  })
  pure (new_work_order pr x project client seq id)

unfoldable pub create_one : Principal → WorkOrderInput → Exec WorkOrder
unfolding insert_work_order
create_one pr x = do
  project ← project_or_404 x.project_id
  seq ← next_wo_seq project.id
  client ← reads (λ s. ok (client_name_of project.crm_account_id s))
  wo ← insert_work_order pr x project client seq
  log_order pr "production.wo_created" wo
  pure wo

unfoldable pub create_all : Principal → List WorkOrderInput → Exec (List WorkOrder)
unfolding create_one
create_all pr [] = pure []
create_all pr (x ∷ xs) = do wo ← create_one pr x; rest ← create_all pr xs; pure (wo ∷ rest)

-- `create_work_orders`. The projects that it remembers are not written by the loop.
unfoldable pub create_work_orders : Principal → List WorkOrderInput → Exec (List WorkOrder)
create_work_orders pr xs = do require_manager pr; create_all pr xs
