-- ===== src/Inventory/Movements/Direct.antt =====
-- `create_movement`, on every branch (backend/app/modules/inventory/service.py).
use blyns_ops.Prelude.{ℕ, String, ◌+◌, ◌≡◌, refl, some, sym, subst, ◌||◌, ap, true, insert_one}
use blyns_ops.Prelude.Int.{ℤ, pos, neg, leb_ℤ}
use blyns_ops.Tenant.{
  Db, Principal, Product, Warehouse, Movement, Result, pure, ◌>>◌, RawId, ok, err, write_activity,
}
use blyns_ops.Tenant.Rules.{IsQuery, query_rule, outcome_rule, query_rules}
use blyns_ops.Inventory.Stock.{on_hand}
use blyns_ops.Inventory.Stock.Cache.{UniqueKeys, add_at}
use blyns_ops.Inventory.Movements.{
  MovementCreate, signed_qty, movement_type, new_movement, require_product, require_warehouse,
  check_movement, create_movement, resolve_movement, write_movement, movement_posting, log_action,
  Posting, post_movement,
}
use blyns_ops.Inventory.Movements.Named.{Signed, IsResolved, resolve_movement-IsResolved}
use blyns_ops.Inventory.Movements.Outcome.{
  SameStock, SameStock-refl, IsPosted, Posts, post_movement-Posts,
}

pub require_product-IsQuery : (raw : RawId) → IsQuery (require_product raw)
unfolding require_product
require_product-IsQuery raw = search query_rules

pub require_warehouse-IsQuery : (raw : RawId) → IsQuery (require_warehouse raw)
unfolding require_warehouse
require_warehouse-IsQuery raw = search query_rules

check_movement-IsQuery : (x : MovementCreate) → IsQuery (check_movement x)
unfolding check_movement
check_movement-IsQuery x = search query_rules

-- One more row in the ledger, which the cache has taken up and was covered.
pub record HasMoved (s s' : Db) (m : Movement) : Type 0 where
  pub covered :
      (leb_ℤ (pos 0) m.qty
        || s.allow_negative_stock
        || leb_ℤ (neg m.qty) (on_hand s m.product_id m.warehouse_id))
      ≡ true
  pub ledger : s'.movements ≡ insert_one s.movements m
  pub quantities :
      (j k : ℕ) → on_hand s' j k ≡ add_at m.product_id m.warehouse_id m.qty j k (on_hand s j k)
  pub unique : UniqueKeys s'.levels
  pub id : m.id ≡ s.next_id
  pub ids : s'.next_id ≡ s.next_id + 1
  pub setting : s'.allow_negative_stock ≡ s.allow_negative_stock

-- The row of a request: its product, warehouse, type and quantity.
pub record IsAsked (x : MovementCreate) (m : Movement) : Type 0 where
  pub product_id : x.product_id.object_id ≡ some m.product_id
  pub warehouse_id : x.warehouse_id.object_id ≡ some m.warehouse_id
  pub type_ : m.type_ ≡ movement_type x.type_
  pub sign : Signed x.type_ x.qty m.qty

-- What `create_movement` leaves behind.
abbrev pub Moves : MovementCreate → Db → Result Movement × Db → Type 0
Moves x s (ok m, s') = IsAsked x m × HasMoved s s' m
Moves x s (err e, s') = SameStock s s'

pub IsPosted-HasMoved :
    {p w : ℕ} {d : ℤ} {x : Posting} {s s' : Db} {m : Movement}
    → IsPosted p w d x s.allow_negative_stock s s' m
    → HasMoved s s' m
IsPosted-HasMoved {p} {w} {d} {x} {s} {s'} {m} h = record {
  covered =
      subst
        (λ (a : Movement).
          (leb_ℤ (pos 0) a.qty
            || s.allow_negative_stock
            || leb_ℤ (neg a.qty) (on_hand s a.product_id a.warehouse_id))
          ≡ true)
        (sym h.row) h.covered;
  ledger = h.ledger;
  quantities = λ j k.
      subst
        (λ (a : Movement).
          on_hand s' j k ≡ add_at a.product_id a.warehouse_id a.qty j k (on_hand s j k))
        (sym h.row) (h.quantities j k);
  unique = h.unique;
  id = ap (λ (a : Movement). a.id) h.row;
  ids = h.ids;
  setting = ap (λ (t : Db). t.allow_negative_stock) h.rest;
}

pub resolve_movement-IsQuery : (x : MovementCreate) → IsQuery (resolve_movement x)
unfolding resolve_movement
resolve_movement-IsQuery x =
    search (query_rules, check_movement-IsQuery, require_product-IsQuery, require_warehouse-IsQuery)

log-HasMoved :
    (p : Principal) (action kind : String) (id : ℕ) (s s' : Db) (m : Movement)
    → HasMoved s s' m
    → HasMoved s (write_activity p action kind id s').1 m
unfolding write_activity on_hand
log-HasMoved p action kind id s s' m h = record {
  covered = h.covered;
  ledger = h.ledger;
  quantities = h.quantities;
  unique = h.unique;
  id = h.id;
  ids = h.ids;
  setting = h.setting;
}

asked :
    (p : Principal) (x : MovementCreate) (product : Product) (warehouse : Warehouse) (id : ℕ)
    → IsResolved x (product, warehouse)
    → IsAsked x
        (new_movement id product.id warehouse.id (signed_qty x.type_ x.qty) (movement_posting p x))
asked p x product warehouse id r = record {
  product_id = r.product;
  warehouse_id = r.warehouse;
  type_ = refl;
  sign = r.sign;
}

write_movement-Moves :
    (p : Principal) (x : MovementCreate) (product : Product) (warehouse : Warehouse) (s : Db)
    → IsResolved x (product, warehouse)
    → UniqueKeys s.levels
    → Moves x s (write_movement p x (product, warehouse) s)
unfolding write_movement
write_movement-Moves p x product warehouse s r u =
    outcome_rule
      (Posts product.id warehouse.id (signed_qty x.type_ x.qty) (movement_posting p x)
        s.allow_negative_stock s)
      (Moves x s)
      (post_movement product.id warehouse.id (signed_qty x.type_ x.qty) (movement_posting p x)
        s.allow_negative_stock)
      (λ m. write_activity p (log_action x.type_) "product" product.id >> pure m) s
      (post_movement-Posts product.id warehouse.id (signed_qty x.type_ x.qty) (movement_posting p x)
        s.allow_negative_stock s u)
      (λ e s' h. h)
      (λ m s' h.
        unfold write_activity in
        (
          subst (IsAsked x) (sym h.row) (asked p x product warehouse s.next_id r),
          log-HasMoved p (log_action x.type_) "product" product.id s s' m (IsPosted-HasMoved h),
        ))

-- Whatever the request, if the cache has at most one row for each product and warehouse: the movement
-- is written to the ledger and to the cache, for the product and the warehouse that the request names and
-- with its type; a receipt adds the quantity, an issue takes it away, an adjustment has the request's
-- sign. Or a refusal, or a failed write to the ledger, leaves the ledger and every quantity on hand as
-- they were.
pub create_movement-Moves :
    (p : Principal) (x : MovementCreate) (s : Db)
    → UniqueKeys s.levels
    → Moves x s (create_movement p x s)
create_movement-Moves p x s u =
    unfold create_movement in
    query_rule (Moves x s) (resolve_movement x) (write_movement p x) s (resolve_movement-IsQuery x)
      (λ e. SameStock-refl s u)
      (λ found e.
        write_movement-Moves p x found.0 found.1 s (resolve_movement-IsResolved x s found e) u)
