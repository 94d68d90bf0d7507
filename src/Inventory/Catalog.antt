-- ===== src/Inventory/Catalog.antt =====
-- Products and warehouses (backend/app/modules/inventory/service.py). The address of a
-- warehouse, a dictionary, is kept as its text.
pub mod Deletion
use blyns_ops.Prelude.{
  ℕ, String, Bool, true, false, Option, none, some, List, [], ◌∷◌, not, ◌&&◌, ◌||◌, ◌==◌, str_eq,
  is_some, or_else, if◌then◌else◌, find_one, insert_one, update_one,
}
use blyns_ops.Prelude.Int.{ℤ, pos, eqb_ℤ}
use blyns_ops.Tenant.{
  Db, Principal, Product, Warehouse, Level, RawId, Exec, ok, pure, reads, or_raise, raise_if,
  modify, ◌>>=◌, ◌>>◌, domain_error, assertion_failed, validation_error, new_id, write_activity,
}
use blyns_ops.Inventory.Movements.{find_product, find_warehouse, require_product, require_warehouse}

pub record ProductCreate : Type 0 where
  pub sku : String
  pub name : String
  pub description : Option String
  pub category : Option String
  pub unit : String
  pub barcode : Option String
  pub cost_price : ℕ
  pub sale_price : ℕ
  pub currency : String
  pub reorder_point : ℕ
  pub reorder_qty : ℕ
  pub is_active : Bool

-- `none` is a field that is unset or null: both are dropped.
pub record ProductPatch : Type 0 where
  pub sku : Option String
  pub name : Option String
  pub description : Option String
  pub category : Option String
  pub unit : Option String
  pub barcode : Option String
  pub cost_price : Option ℕ
  pub sale_price : Option ℕ
  pub currency : Option String
  pub reorder_point : Option ℕ
  pub reorder_qty : Option ℕ
  pub is_active : Option Bool

-- `find_one({"sku": sku})`: also among the deleted.
unfoldable pub sku_taken : String → Db → Bool
sku_taken sku s = is_some (find_one (λ (p : Product). str_eq sku p.sku) s.products)

abbrev new_product : Principal → ProductCreate → ℕ → Product
new_product pr x id = record {
  id = id;
  sku = x.sku;
  name = x.name;
  description = x.description;
  category = x.category;
  unit = x.unit;
  barcode = x.barcode;
  cost_price = x.cost_price;
  sale_price = x.sale_price;
  currency = x.currency;
  reorder_point = x.reorder_point;
  reorder_qty = x.reorder_qty;
  is_active = x.is_active;
  is_deleted = false;
  updated_by = none;
}

abbrev add_product : Product → Db → Db
add_product p s = record s { products = insert_one s.products p }

unfoldable pub create_product : Principal → ProductCreate → Exec Product
unfolding new_id write_activity
create_product pr x = do
  taken ← reads (λ s. ok (sku_taken x.sku s))
  raise_if taken (domain_error validation_error 409)
  id ← new_id
  modify (add_product (new_product pr x id))
  write_activity pr "inventory.product.created" "product" id
  pure (new_product pr x id)

abbrev patched_fields : ProductPatch → List Bool
patched_fields x =
    is_some x.sku
    ∷ is_some x.name
    ∷ is_some x.description
    ∷ is_some x.category
    ∷ is_some x.unit
    ∷ is_some x.barcode
    ∷ is_some x.cost_price
    ∷ is_some x.sale_price
    ∷ is_some x.currency
    ∷ is_some x.reorder_point
    ∷ is_some x.reorder_qty
    ∷ is_some x.is_active
    ∷ []

abbrev none_set : List Bool → Bool
none_set [] = true
none_set (b ∷ bs) = not b && none_set bs

abbrev keep_or : Option String → Option String → Option String
keep_or none old = old
keep_or (some v) old = some v

-- `{"$set": fields}`
abbrev pub set_product : Principal → ProductPatch → Product → Product
set_product pr x p = record p {
  sku = or_else x.sku p.sku;
  name = or_else x.name p.name;
  description = keep_or x.description p.description;
  category = keep_or x.category p.category;
  unit = or_else x.unit p.unit;
  barcode = keep_or x.barcode p.barcode;
  cost_price = or_else x.cost_price p.cost_price;
  sale_price = or_else x.sale_price p.sale_price;
  currency = or_else x.currency p.currency;
  reorder_point = or_else x.reorder_point p.reorder_point;
  reorder_qty = or_else x.reorder_qty p.reorder_qty;
  is_active = or_else x.is_active p.is_active;
  updated_by = some pr.user_id;
}

abbrev pub update_product : ℕ → (Product → Product) → Db → Db
update_product id f s = record s { products = update_one (λ p. id == p.id) f s.products }

abbrev pub changes_sku : Option String → String → Bool
changes_sku none old = false
changes_sku (some sku) old = not (str_eq sku old)

-- The check of a new SKU, which an unchanged one passes.
abbrev check_sku : ProductPatch → Product → Db → Bool
check_sku x p s = changes_sku x.sku p.sku && sku_taken (or_else x.sku p.sku) s

abbrev write_patch : Principal → ProductPatch → Product → Exec Product
write_patch pr x p = do
  modify (update_product p.id (set_product pr x))
  updated ← reads (λ s. or_raise (find_product p.id s) assertion_failed)
  write_activity pr "inventory.product.updated" "product" p.id
  pure updated

unfoldable pub patch_product : Principal → RawId → ProductPatch → Exec Product
unfolding write_activity find_product
patch_product pr raw x = do
  p ← require_product raw
  clash ← reads (λ s. ok (check_sku x p s))
  raise_if clash (domain_error validation_error 409)
  if none_set (patched_fields x) then pure p else write_patch pr x p

-- `any_stock_for_product`
unfoldable pub any_stock_for_product : ℕ → Db → Bool
any_stock_for_product id s =
    is_some (find_one (λ (l : Level). id == l.product_id && not (eqb_ℤ l.on_hand (pos 0))) s.levels)

abbrev pub soft_delete_product : Principal → Product → Product
soft_delete_product pr p = record p { is_deleted = true; updated_by = some pr.user_id }

-- The rest of `delete_product`, once the product is found.
unfoldable pub drop_product : Principal → Product → Exec Unit
unfolding write_activity
drop_product pr p = do
  held ← reads (λ s. ok (any_stock_for_product p.id s))
  raise_if held (domain_error validation_error 409)
  modify (update_product p.id (soft_delete_product pr))
  write_activity pr "inventory.product.deleted" "product" p.id

unfoldable pub delete_product : Principal → RawId → Exec Unit
unfolding drop_product
delete_product pr raw = do p ← require_product raw; drop_product pr p

pub record WarehouseCreate : Type 0 where
  pub name : String
  pub code : String
  pub address : Option String
  pub is_active : Bool

pub record WarehousePatch : Type 0 where
  pub name : Option String
  pub code : Option String
  pub address : Option String
  pub is_active : Option Bool

unfoldable pub code_taken : String → Db → Bool
code_taken code s = is_some (find_one (λ (w : Warehouse). str_eq code w.code) s.warehouses)

abbrev new_warehouse : WarehouseCreate → ℕ → Warehouse
new_warehouse x id = record {
  id = id;
  name = x.name;
  code = x.code;
  address = x.address;
  is_active = x.is_active;
  is_deleted = false;
  updated_by = none;
}

unfoldable pub create_warehouse : Principal → WarehouseCreate → Exec Warehouse
unfolding new_id write_activity
create_warehouse pr x = do
  taken ← reads (λ s. ok (code_taken x.code s))
  raise_if taken (domain_error validation_error 409)
  id ← new_id
  modify (λ s. record s { warehouses = insert_one s.warehouses (new_warehouse x id) })
  write_activity pr "inventory.warehouse.created" "warehouse" id
  pure (new_warehouse x id)

abbrev pub update_warehouse : ℕ → (Warehouse → Warehouse) → Db → Db
update_warehouse id f s = record s { warehouses = update_one (λ w. id == w.id) f s.warehouses }

abbrev pub set_warehouse : Principal → WarehousePatch → Warehouse → Warehouse
set_warehouse pr x w = record w {
  name = or_else x.name w.name;
  code = or_else x.code w.code;
  address = keep_or x.address w.address;
  is_active = or_else x.is_active w.is_active;
  updated_by = some pr.user_id;
}

abbrev write_warehouse_patch : Principal → WarehousePatch → Warehouse → Exec Warehouse
write_warehouse_patch pr x w = do
  modify (update_warehouse w.id (set_warehouse pr x))
  updated ← reads (λ s. or_raise (find_warehouse w.id s) assertion_failed)
  write_activity pr "inventory.warehouse.updated" "warehouse" w.id
  pure updated

abbrev warehouse_fields : WarehousePatch → List Bool
warehouse_fields x = is_some x.name ∷ is_some x.code ∷ is_some x.address ∷ is_some x.is_active ∷ []

unfoldable pub patch_warehouse : Principal → RawId → WarehousePatch → Exec Warehouse
unfolding write_activity find_warehouse
patch_warehouse pr raw x = do
  w ← require_warehouse raw
  clash ← reads (λ s. ok (changes_sku x.code w.code && code_taken (or_else x.code w.code) s))
  raise_if clash (domain_error validation_error 409)
  if none_set (warehouse_fields x) then pure w else write_warehouse_patch pr x w

unfoldable pub holds_stock : ℕ → Db → Bool
holds_stock id s =
    is_some
      (find_one (λ (l : Level). id == l.warehouse_id && not (eqb_ℤ l.on_hand (pos 0))) s.levels)

-- The rest of `delete_warehouse`, once the warehouse is found.
unfoldable pub drop_warehouse : Principal → Warehouse → Exec Unit
unfolding write_activity
drop_warehouse pr w = do
  held ← reads (λ s. ok (holds_stock w.id s))
  raise_if held (domain_error validation_error 409)
  modify (update_warehouse w.id (λ x. record x { is_deleted = true; updated_by = some pr.user_id }))
  write_activity pr "inventory.warehouse.deleted" "warehouse" w.id

unfoldable pub delete_warehouse : Principal → RawId → Exec Unit
unfolding drop_warehouse
delete_warehouse pr raw = do w ← require_warehouse raw; drop_warehouse pr w
