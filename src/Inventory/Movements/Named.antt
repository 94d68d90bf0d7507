-- ===== src/Inventory/Movements/Named.antt =====
-- What the lookups and the checks of a request let through
-- (backend/app/modules/inventory/service.py, `create_movement` and `create_transfer`).
use blyns_ops.Prelude.{
  ℕ, Bool, true, false, some, ◌≡◌, ◌≢◌, refl, ap, ◌∙◌, ◌==◌, ◌&&◌, not, str_eq, arith,
  find_one-fits, subst,
}
use blyns_ops.Prelude.Int.{ℤ, pos, ◌+ℤ◌, ◌≤ℤ◌, eqb_ℤ, ltb_ℤ, abs, neg}
use blyns_ops.Tenant.{
  Db, RawId, Product, Warehouse, Error, Result, Exec, ok, pure, reads, or_raise, raise_if, ◌>>=◌,
  ◌>>◌, domain_error, tenant_not_found, validation_error, oid,
}
use blyns_ops.Tenant.Rules.{bind_rule, same_ok}
use blyns_ops.Tenant.Frame.{or_raise_ok}
use blyns_ops.Inventory.Movements.{
  DirectMovementType, MovementCreate, TransferCreate, needs_note, signed_qty, check_movement,
  find_product, find_warehouse, require_product, require_warehouse, resolve_movement,
  resolve_transfer,
}

same_id : (a b : ℕ) (c : Bool) → a == b && c ≡ true → a ≡ b
same_id a b c h = ground arith

pub require_product_named :
    (raw : RawId) (s : Db) (p : Product)
    → (require_product raw s).0 ≡ ok p
    → raw.object_id ≡ some p.id
unfolding require_product oid find_product
require_product_named raw s =
    bind_rule
      (λ (rs : Result Product × Db). (p : Product) → rs.0 ≡ ok p → raw.object_id ≡ some p.id)
      (reads (λ s. oid raw))
      (λ id. reads (λ s. or_raise (find_product id s) (domain_error tenant_not_found 404))) s
      (λ e _ p h. cc)
      (λ id e p h.
        or_raise_ok raw.object_id (domain_error tenant_not_found 404) id e
        ∙ ap some (
            same_id id p.id (not p.is_deleted) (
              find_one-fits (λ (q : Product). id == q.id && not q.is_deleted) s.products p
                (or_raise_ok (find_product id s) (domain_error tenant_not_found 404) p h))))

pub require_warehouse_named :
    (raw : RawId) (s : Db) (w : Warehouse)
    → (require_warehouse raw s).0 ≡ ok w
    → raw.object_id ≡ some w.id
unfolding require_warehouse oid find_warehouse
require_warehouse_named raw s =
    bind_rule
      (λ (rs : Result Warehouse × Db). (w : Warehouse) → rs.0 ≡ ok w → raw.object_id ≡ some w.id)
      (reads (λ s. oid raw))
      (λ id. reads (λ s. or_raise (find_warehouse id s) (domain_error tenant_not_found 404))) s
      (λ e _ w h. cc)
      (λ id e w h.
        or_raise_ok raw.object_id (domain_error tenant_not_found 404) id e
        ∙ ap some (
            same_id id w.id (not w.is_deleted) (
              find_one-fits (λ (q : Warehouse). id == q.id && not q.is_deleted) s.warehouses w
                (or_raise_ok (find_warehouse id s) (domain_error tenant_not_found 404) w h))))

-- The sign of a posted quantity `v`, for the quantity `q` of the request: a receipt adds it, an issue
-- takes it away, and it is positive in both; an adjustment has its own sign and is not zero.
abbrev pub Signed : DirectMovementType → ℤ → ℤ → Type 0
Signed DirectMovementType.receipt q v = (v ≡ q) × (pos 1 ≤ℤ q)
Signed DirectMovementType.issue q v = (v +ℤ q ≡ pos 0) × (pos 1 ≤ℤ q)
Signed DirectMovementType.adjustment q v = (v ≡ q) × (q ≢ pos 0)

signed_qty-Signed :
    (t : DirectMovementType) (q : ℤ)
    → eqb_ℤ q (pos 0) ≡ false
    → not (needs_note t) && ltb_ℤ q (pos 0) ≡ false
    → Signed t q (signed_qty t q)
unfolding signed_qty abs neg ◌+ℤ◌
signed_qty-Signed DirectMovementType.receipt q h k = (ground arith, ground arith)
signed_qty-Signed DirectMovementType.issue q h k = (ground arith, ground arith)
signed_qty-Signed DirectMovementType.adjustment q h k = (refl, λ e. ground arith)

passed :
    (a b c : Bool) (e e' e'' : Error) (s : Db) (u : Unit)
    → ((raise_if a e >> (raise_if b e' >> raise_if c e'')) s).0 ≡ ok u
    → (b ≡ false) × (c ≡ false)
passed true b c e e' e'' s u h = cc
passed false true c e e' e'' s u h = cc
passed false false true e e' e'' s u h = cc
passed false false false e e' e'' s u h = (refl, refl)

check_movement-Signed :
    (x : MovementCreate) (s : Db) (u : Unit)
    → (check_movement x s).0 ≡ ok u
    → Signed x.type_ x.qty (signed_qty x.type_ x.qty)
unfolding check_movement
check_movement-Signed x s u h =
    let (nonzero, positive) = passed _ _ _ _ _ _ s u h in
    signed_qty-Signed x.type_ x.qty nonzero positive

-- What a request for a movement has named, and that its quantity gets the sign of its type.
pub record IsResolved (x : MovementCreate) (found : Product × Warehouse) : Type 0 where
  pub product : x.product_id.object_id ≡ some found.0.id
  pub warehouse : x.warehouse_id.object_id ≡ some found.1.id
  pub sign : Signed x.type_ x.qty (signed_qty x.type_ x.qty)

pub resolve_movement-IsResolved :
    (x : MovementCreate) (s : Db) (found : Product × Warehouse)
    → (resolve_movement x s).0 ≡ ok found
    → IsResolved x found
unfolding resolve_movement
resolve_movement-IsResolved x s =
    bind_rule Resolved (check_movement x)
      (λ _.
        require_product x.product_id >>= λ p. require_warehouse x.warehouse_id >>= λ w. pure (p, w))
      s (λ e _ found h. cc)
      (λ u checked.
        bind_rule Resolved (require_product x.product_id)
          (λ p. require_warehouse x.warehouse_id >>= λ w. pure (p, w)) _ (λ e _ found h. cc)
          (λ p product.
            bind_rule Resolved (require_warehouse x.warehouse_id) (λ w. pure (p, w)) _
              (λ e _ found h. cc)
              (λ w warehouse found h. subst (IsResolved x) (same_ok h) (record {
                product = require_product_named x.product_id _ p product;
                warehouse = require_warehouse_named x.warehouse_id _ w warehouse;
                sign = check_movement-Signed x s u checked;
              }))))
  where
    Resolved : Result (Product × Warehouse) × Db → Type 0
    Resolved rs = (found : Product × Warehouse) → rs.0 ≡ ok found → IsResolved x found

-- What a request for a transfer has named.
pub record AreNamed (x : TransferCreate) (product src dst : ℕ) : Type 0 where
  pub product_id : x.product_id.object_id ≡ some product
  pub from_id : x.from_warehouse_id.object_id ≡ some src
  pub to_id : x.to_warehouse_id.object_id ≡ some dst

abbrev pub Names : TransferCreate → Product × Warehouse × Warehouse → Type 0
Names x (p, src, dst) = AreNamed x p.id src.id dst.id

pub resolve_transfer-Names :
    (x : TransferCreate) (s : Db) (found : Product × Warehouse × Warehouse)
    → (resolve_transfer x s).0 ≡ ok found
    → Names x found
unfolding resolve_transfer
resolve_transfer-Names x s =
    bind_rule Resolved
      (raise_if (str_eq x.from_warehouse_id.text x.to_warehouse_id.text)
        (domain_error validation_error 422))
      (λ _. require_product x.product_id >>= λ p. lookups p) s (λ e _ found h. cc)
      (λ u _.
        bind_rule Resolved (require_product x.product_id) lookups _ (λ e _ found h. cc)
          (λ p product.
            bind_rule Resolved (require_warehouse x.from_warehouse_id) (second p) _
              (λ e _ found h. cc)
              (λ src from_id.
                bind_rule Resolved (require_warehouse x.to_warehouse_id) (λ dst. pure (p, src, dst))
                  _ (λ e _ found h. cc)
                  (λ dst to_id found h. subst (Names x) (same_ok h) (record {
                    product_id = require_product_named x.product_id _ p product;
                    from_id = require_warehouse_named x.from_warehouse_id _ src from_id;
                    to_id = require_warehouse_named x.to_warehouse_id _ dst to_id;
                  })))))
  where
    Resolved : Result (Product × Warehouse × Warehouse) × Db → Type 0
    Resolved rs = (found : Product × Warehouse × Warehouse) → rs.0 ≡ ok found → Names x found

    second : Product → Warehouse → Exec (Product × Warehouse × Warehouse)
    second p src = require_warehouse x.to_warehouse_id >>= λ dst. pure (p, src, dst)

    lookups : Product → Exec (Product × Warehouse × Warehouse)
    lookups p = require_warehouse x.from_warehouse_id >>= second p
