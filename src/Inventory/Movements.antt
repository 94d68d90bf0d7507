-- ===== src/Inventory/Movements.antt =====
-- Movements and transfers (backend/app/modules/inventory/service.py). The proofs are in the modules
-- below.
pub mod Outcome
pub mod Named
pub mod Direct
pub mod Sound
pub mod Transfers
pub mod Paired
use Prim.Native.Char.{code}
use Prim.Native.String
use blyns_ops.Prelude.{
  ℕ, String, Bool, true, false, Option, none, some, List, [], ◌∷◌, not, ◌&&◌, ◌||◌, ◌==◌, leb,
  str_eq, is_space, or_else, if◌then◌else◌, find_one, insert_one, update_one, delete_one,
}
use blyns_ops.Prelude.Int.{ℤ, pos, neg, abs, eqb_ℤ, ltb_ℤ}
use blyns_ops.Tenant.{
  Db, Principal, Product, Warehouse, Movement, MovementType, RefModule, RawId, Exec, ok, pure,
  reads, or_raise, or_undo, raise_if, modify, ◌>>=◌, ◌>>◌, domain_error, tenant_not_found,
  validation_error, insufficient_stock, new_id, write_activity, oid,
}
use blyns_ops.Inventory.Stock.{claim_stock, release_stock}

-- `_require` on `products` and on `warehouses`, whose `get` skips what is deleted.
unfoldable pub find_product : ℕ → Db → Option Product
find_product id s = find_one (λ p. id == p.id && not p.is_deleted) s.products

unfoldable pub find_warehouse : ℕ → Db → Option Warehouse
find_warehouse id s = find_one (λ w. id == w.id && not w.is_deleted) s.warehouses

unfoldable pub require_product : RawId → Exec Product
unfolding oid find_product
require_product raw = do
  id ← reads (λ s. oid raw)
  reads (λ s. or_raise (find_product id s) (domain_error tenant_not_found 404))

unfoldable pub require_warehouse : RawId → Exec Warehouse
unfolding oid find_warehouse
require_warehouse raw = do
  id ← reads (λ s. oid raw)
  reads (λ s. or_raise (find_warehouse id s) (domain_error tenant_not_found 404))

-- The types that one request may post.
pub data DirectMovementType : Type 0 where
  receipt issue adjustment : DirectMovementType

abbrev pub movement_type : DirectMovementType → MovementType
movement_type DirectMovementType.receipt = MovementType.receipt
movement_type DirectMovementType.issue = MovementType.issue
movement_type DirectMovementType.adjustment = MovementType.adjustment

pub record MovementCreate : Type 0 where
  pub product_id : RawId
  pub warehouse_id : RawId
  pub type_ : DirectMovementType
  pub qty : ℤ
  pub note : Option String
  pub occurred_at : Option ℕ
  pub ref_module : RefModule
  pub ref_doc_id : Option ℕ

pub record TransferCreate : Type 0 where
  pub product_id : RawId
  pub from_warehouse_id : RawId
  pub to_warehouse_id : RawId
  pub qty : ℕ
  pub note : Option String
  pub occurred_at : Option ℕ

-- +receipt, -issue; an adjustment carries its own sign.
unfoldable pub signed_qty : DirectMovementType → ℤ → ℤ
unfolding abs neg
signed_qty DirectMovementType.receipt qty = abs qty
signed_qty DirectMovementType.issue qty = neg (abs qty)
signed_qty DirectMovementType.adjustment qty = qty

-- What a posting needs besides its product, warehouse and quantity.
pub record Posting : Type 0 where
  pub type_ : MovementType
  pub note : Option String
  pub occurred_at : ℕ
  pub ref_module : RefModule
  pub ref_doc_id : Option ℕ
  pub created_by : ℕ

abbrev pub new_movement : ℕ → ℕ → ℕ → ℤ → Posting → Movement
new_movement id product warehouse signed x = record {
  id = id;
  product_id = product;
  warehouse_id = warehouse;
  type_ = x.type_;
  qty = signed;
  ref_module = x.ref_module;
  ref_doc_id = x.ref_doc_id;
  note = x.note;
  occurred_at = x.occurred_at;
  transfer_pair_id = none;
  created_by = x.created_by;
}

abbrev pub add_movement : Movement → Db → Db
add_movement m s = record s { movements = insert_one s.movements m }

-- `repo.insert(db, repo.MOVEMENTS, …)`
unfoldable pub insert_movement : (ℕ → Movement) → Exec Movement
unfolding new_id
insert_movement row = do id ← new_id; modify (add_movement (row id)); pure (row id)

abbrev pub claim : ℕ → ℕ → ℤ → Bool → Exec Bool
claim product warehouse signed allow_negative s =
    let (claimed, s') = claim_stock product warehouse signed allow_negative s in (ok claimed, s')

-- The claim comes first, and is undone if the ledger write raises.
unfoldable pub post_movement : ℕ → ℕ → ℤ → Posting → Bool → Exec Movement
unfolding insert_movement
post_movement product warehouse signed x allow_negative = do
  claimed ← claim product warehouse signed allow_negative
  raise_if (not claimed) (domain_error insufficient_stock 409)
  or_undo (insert_movement (λ id. new_movement id product warehouse signed x))
      (release_stock product warehouse signed)

-- `not text.strip()`
unfoldable pub is_blank : String → Bool
is_blank String.[] = true
is_blank (String.◌∷◌ c text) = is_space (code c) && is_blank text

abbrev pub needs_note : DirectMovementType → Bool
needs_note DirectMovementType.adjustment = true
needs_note _ = false

abbrev pub log_action : DirectMovementType → String
log_action DirectMovementType.receipt = "inventory.receipt"
log_action DirectMovementType.issue = "inventory.issue"
log_action DirectMovementType.adjustment = "inventory.adjustment"

-- The checks of `create_movement` on the payload alone.
unfoldable pub check_movement : MovementCreate → Exec Unit
unfolding is_blank
check_movement x = do
  raise_if (needs_note x.type_ && is_blank (or_else x.note "")) (domain_error validation_error 422)
  raise_if (eqb_ℤ x.qty (pos 0)) (domain_error validation_error 422)
  raise_if (not (needs_note x.type_) && ltb_ℤ x.qty (pos 0)) (domain_error validation_error 422)

-- The lookups of `create_movement`, and of `create_transfer`, after the checks of the payload.
unfoldable pub resolve_movement : MovementCreate → Exec (Product × Warehouse)
resolve_movement x = do
  check_movement x
  product ← require_product x.product_id
  warehouse ← require_warehouse x.warehouse_id
  pure (product, warehouse)

abbrev pub movement_posting : Principal → MovementCreate → Posting
movement_posting p x = record {
  type_ = movement_type x.type_;
  note = x.note;
  occurred_at = or_else x.occurred_at p.now;
  ref_module = x.ref_module;
  ref_doc_id = x.ref_doc_id;
  created_by = p.user_id;
}

unfoldable pub write_movement : Principal → MovementCreate → Product × Warehouse → Exec Movement
write_movement p x (product, warehouse) = do
  allow_negative ← reads (λ s. ok s.allow_negative_stock)
  movement ←
      post_movement product.id warehouse.id (signed_qty x.type_ x.qty) (movement_posting p x)
        allow_negative
  write_activity p (log_action x.type_) "product" product.id
  pure movement

unfoldable pub create_movement : Principal → MovementCreate → Exec Movement
unfolding resolve_movement write_movement
create_movement p x = do found ← resolve_movement x; write_movement p x found

-- The unwinding of the issue side: its ledger row is dropped and the stock given back.
unfoldable pub undo_issue : Movement → ℕ → ℕ → ℤ → Db → Db
unfolding release_stock
undo_issue out product src signed s =
    release_stock product src signed
      (record s { movements = delete_one (λ m. out.id == m.id) s.movements })

-- `{"$set": {"ref.doc_id": other, "transfer_pair_id": other}}` on one movement
abbrev pub pair_with : ℕ → Movement → Movement
pair_with other m = record m { ref_doc_id = some other; transfer_pair_id = some other }

unfoldable pub tie : ℕ → ℕ → Db → Db
tie id other s = record s { movements = update_one (λ m. id == m.id) (pair_with other) s.movements }

-- The paired issue and receipt of a transfer.
unfoldable pub post_pair : ℕ → ℕ → ℕ → ℕ → Posting → Bool → Exec (Movement × Movement)
unfolding undo_issue
post_pair product src dst qty x allow_negative = do
  out ← post_movement product src (neg (pos qty)) x allow_negative
  into ←
      or_undo (post_movement product dst (pos qty) x allow_negative)
        (undo_issue out product src (neg (pos qty)))
  pure (out, into)

unfoldable pub resolve_transfer : TransferCreate → Exec (Product × Warehouse × Warehouse)
resolve_transfer x = do
  raise_if (str_eq x.from_warehouse_id.text x.to_warehouse_id.text)
      (domain_error validation_error 422)
  product ← require_product x.product_id
  src ← require_warehouse x.from_warehouse_id
  dst ← require_warehouse x.to_warehouse_id
  pure (product, src, dst)

abbrev pub transfer_posting : Principal → TransferCreate → Posting
transfer_posting p x = record {
  type_ = MovementType.transfer;
  note = x.note;
  occurred_at = or_else x.occurred_at p.now;
  ref_module = RefModule.transfers;
  ref_doc_id = none;
  created_by = p.user_id;
}

unfoldable pub write_transfer :
    Principal → TransferCreate → Product × Warehouse × Warehouse → Exec (Movement × Movement)
unfolding tie
write_transfer p x (product, src, dst) = do
  allow_negative ← reads (λ s. ok s.allow_negative_stock)
  pair ← post_pair product.id src.id dst.id x.qty (transfer_posting p x) allow_negative
  modify (tie pair.0.id pair.1.id)
  modify (tie pair.1.id pair.0.id)
  write_activity p "inventory.transfer" "product" product.id
  pure pair

unfoldable pub create_transfer : Principal → TransferCreate → Exec (Movement × Movement)
unfolding resolve_transfer write_transfer
create_transfer p x = do found ← resolve_transfer x; write_transfer p x found
