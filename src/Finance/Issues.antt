-- ===== src/Finance/Issues.antt =====
-- The inventory link of an invoice: its lines are issued as movements, and what was issued is
-- reversed if a later step raises (backend/app/modules/finance/service.py, `_validate_issue_lines`,
-- `_issue_stock_for` and `_reverse_issue`). A product or warehouse id that is empty counts as none;
-- the note of a movement is left out.
use Prim.Native.Char.{code}
use blyns_ops.Prelude.{
  ℕ, String, Bool, true, false, Option, none, some, List, [], ◌∷◌, not, ◌&&◌, ◌||◌, ◌==◌, ltb,
  is_some, if◌then◌else◌, find_one, insert_one, delete_one, any_of,
}
use blyns_ops.Prelude.Int.{pos}
use blyns_ops.Tenant.{
  Db, Principal, Warehouse, Movement, RefModule, PricedLine, Document, RawId, Exec, ok, pure, reads,
  or_raise, or_undo, raise_if, ◌>>=◌, ◌>>◌, domain_error, validation_error,
}
use blyns_ops.Inventory.Stock.{release_stock}
use blyns_ops.Inventory.Movements.{
  MovementCreate, DirectMovementType, create_movement, require_product, require_warehouse,
}

abbrev no_product : PricedLine → Bool
no_product l = not (is_some l.product_id)

-- A line that has a product names a live one.
unfoldable pub require_line : Option RawId → Exec Unit
require_line none = pure tt
require_line (some raw) = require_product raw >> pure tt

unfoldable pub require_products : List PricedLine → Exec Unit
unfolding require_line
require_products [] = pure tt
require_products (l ∷ ls) = require_line l.product_id >> require_products ls

abbrev is_live : Warehouse → Bool
is_live w = not w.is_deleted

unfoldable pub validate_warehouse : Option RawId → Exec Unit
validate_warehouse (some raw) = require_warehouse raw >> pure tt
validate_warehouse none = do
  exists ← reads (λ s. ok (any_of is_live s.warehouses))
  raise_if (not exists) (domain_error validation_error 409)

unfoldable pub validate_issue_lines : List PricedLine → Option RawId → Exec Unit
unfolding require_products validate_warehouse
validate_issue_lines lines warehouse = do
  raise_if (any_of no_product lines) (domain_error validation_error 422)
  require_products lines
  validate_warehouse warehouse

-- The order of texts by their code points, which is that of their UTF-8 bytes.
unfoldable pub text_ltb : String → String → Bool
text_ltb String.[] String.[] = false
text_ltb String.[] (String.◌∷◌ c t) = true
text_ltb (String.◌∷◌ c s) String.[] = false
text_ltb (String.◌∷◌ c s) (String.◌∷◌ d t) =
    ltb (code c) (code d) || code c == code d && text_ltb s t

-- `find_one(live, sort=[("code", 1)])`: the live warehouse with the least code.
unfoldable pub main_warehouse : List Warehouse → Option Warehouse
unfolding text_ltb
main_warehouse [] = none
main_warehouse (w ∷ ws) =
    let rest = main_warehouse ws in
    if w.is_deleted
    then rest
    else elim rest [ none ↦ some w | some v ↦ if text_ltb v.code w.code then some v else some w ]

-- An id of the database, written out by `str(oid)`.
abbrev pub id_text : ℕ → RawId
id_text id = record { text = "id"; object_id = some id }

unfoldable pub issue_warehouse : Option RawId → Exec RawId
unfolding main_warehouse
issue_warehouse (some raw) = pure raw
issue_warehouse none = do
  main ← reads (λ s. or_raise (main_warehouse s.warehouses) (domain_error validation_error 409))
  pure (id_text main.id)

-- `str(line["product_id"])` of a line without a product is the text "None".
abbrev no_id : RawId
no_id = record { text = "None"; object_id = none }

abbrev line_product : PricedLine → RawId
line_product l = elim l.product_id [ none ↦ no_id | some raw ↦ raw ]

abbrev pub issue_request : ℕ → RawId → PricedLine → MovementCreate
issue_request invoice warehouse l = record {
  product_id = line_product l;
  warehouse_id = warehouse;
  type_ = DirectMovementType.issue;
  qty = pos l.qty;
  note = none;
  occurred_at = none;
  ref_module = RefModule.finance;
  ref_doc_id = some invoice;
}

abbrev drop_movement : ℕ → Db → Db
drop_movement id s = record s { movements = delete_one (λ m. id == m.id) s.movements }

-- `_reverse_issue`: the stock is given back, and the row dropped.
unfoldable pub reverse_issue : ℕ → Db → Db
unfolding release_stock
reverse_issue id s = elim (find_one (λ (m : Movement). id == m.id) s.movements) [
  | none ↦ s
  | some m ↦ drop_movement id (release_stock m.product_id m.warehouse_id m.qty s)
]

unfoldable pub reverse_all : List ℕ → Db → Db
unfolding reverse_issue
reverse_all [] s = s
reverse_all (id ∷ ids) s = reverse_all ids (reverse_issue id s)

-- The loop over the lines, with the movements that are posted so far. Only `create_movement` can
-- raise in it, and what was posted is then reversed.
unfoldable pub issue_lines : Principal → ℕ → RawId → List PricedLine → List ℕ → Exec (List ℕ)
issue_lines pr invoice warehouse [] posted = pure posted
issue_lines pr invoice warehouse (l ∷ ls) posted = do
  m ← or_undo (create_movement pr (issue_request invoice warehouse l)) (reverse_all posted)
  issue_lines pr invoice warehouse ls (insert_one posted m.id)

unfoldable pub issue_stock_for : Principal → Document → Exec (List ℕ)
unfolding issue_warehouse issue_lines
issue_stock_for pr invoice = do
  warehouse ← issue_warehouse invoice.warehouse_id
  issue_lines pr invoice.id warehouse invoice.lines []
