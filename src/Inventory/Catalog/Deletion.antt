-- ===== src/Inventory/Catalog/Deletion.antt =====
-- The deletion of products and warehouses and the stock (backend/app/modules/inventory/service.py).
use blyns_ops.Prelude.{
  ℕ, ◌≡◌, refl, sym, subst, ◌∙◌, false, List, [], ◌∷◌, arith, not, ◌&&◌, ◌==◌, is_some, find_one,
  Bool-cases, inl, inr,
}
use blyns_ops.Prelude.Int.{ℤ, pos, eqb_ℤ, eqb_ℤ→eq}
use blyns_ops.Tenant.{Db, Principal, Product, Warehouse, Level, RawId, Exec, ◌>>=◌, Result, ok, err}
use blyns_ops.Tenant.Rules.{IsQuery, query_rule, same_ok}
use blyns_ops.Inventory.Stock.{on_hand_in, on_hand}
use blyns_ops.Inventory.Movements.{require_product, require_warehouse}
use blyns_ops.Inventory.Movements.Direct.{require_product-IsQuery, require_warehouse-IsQuery}
use blyns_ops.Inventory.Catalog.{
  delete_product, drop_product, drop_warehouse, any_stock_for_product, delete_warehouse,
  holds_stock,
}

no_stock_of_product :
    (id w : ℕ) (ls : List Level)
    → is_some (find_one (λ (l : Level). id == l.product_id && not (eqb_ℤ l.on_hand (pos 0))) ls)
      ≡ false
    → on_hand_in ls id w ≡ pos 0
no_stock_of_product id w [] h = refl
no_stock_of_product id w (l ∷ ls) h =
    ground (arith, no_stock_of_product id w ls, eqb_ℤ→eq l.on_hand (pos 0))

no_stock_in_warehouse :
    (id p : ℕ) (ls : List Level)
    → is_some (find_one (λ (l : Level). id == l.warehouse_id && not (eqb_ℤ l.on_hand (pos 0))) ls)
      ≡ false
    → on_hand_in ls p id ≡ pos 0
no_stock_in_warehouse id p [] h = refl
no_stock_in_warehouse id p (l ∷ ls) h =
    ground (arith, no_stock_in_warehouse id p ls, eqb_ℤ→eq l.on_hand (pos 0))

-- What a deletion leaves: no stock of what is gone, or an untouched database.
abbrev pub Deletes : (Db → ℕ → ℤ) → Db → Result Unit × Db → Type 0
Deletes stock s (ok _, s') = (k : ℕ) → stock s' k ≡ pos 0
Deletes stock s (err e, s') = s' ≡ s

drop_product-Deletes :
    (pr : Principal) (p : Product) (s : Db)
    → Deletes (λ t k. on_hand t p.id k) s (drop_product pr p s)
unfolding drop_product any_stock_for_product on_hand
drop_product-Deletes pr p s = elim (Bool-cases (any_stock_for_product p.id s)) [
  | inl held ↦ rw held refl
  | inr empty ↦ rw empty (λ k. no_stock_of_product p.id k s.levels empty)
]

drop_warehouse-Deletes :
    (pr : Principal) (w : Warehouse) (s : Db)
    → Deletes (λ t k. on_hand t k w.id) s (drop_warehouse pr w s)
unfolding drop_warehouse holds_stock on_hand
drop_warehouse-Deletes pr w s = elim (Bool-cases (holds_stock w.id s)) [
  | inl held ↦ rw held refl
  | inr empty ↦ rw empty (λ k. no_stock_in_warehouse w.id k s.levels empty)
]

-- The database after a request for an id that leads to a product, or to a warehouse.
after_found :
    {A : Type 0} (stock : A → Db → ℕ → ℤ) (m : Exec A) (f : A → Exec Unit) (a : A) (s : Db)
    → IsQuery m
    → (m s).0 ≡ ok a
    → ((b : A) → Deletes (stock b) s (f b s))
    → Deletes (stock a) s ((m >>= f) s)
after_found stock m f a s q found h =
    query_rule (Deletes (stock a) s) m f s q (λ e. refl)
      (λ b other. subst (λ c. Deletes (stock c) s (f b s)) (same_ok (sym other ∙ found)) (h b))

-- For an id that leads to a live product: a deletion that returns leaves a product without stock in any
-- warehouse, and one that is refused leaves the database as it was.
pub delete_product-Deletes :
    (pr : Principal) (raw : RawId) (product : Product) (s : Db)
    → (require_product raw s).0 ≡ ok product
    → Deletes (λ t k. on_hand t product.id k) s (delete_product pr raw s)
delete_product-Deletes pr raw product s found =
    unfold delete_product in
    after_found (λ (p : Product) t k. on_hand t p.id k) (require_product raw) (drop_product pr)
      product s (require_product-IsQuery raw) found (λ p. drop_product-Deletes pr p s)

-- For an id that leads to a live warehouse: a deletion that returns leaves a warehouse that holds no
-- stock of any product, and one that is refused leaves the database as it was.
pub delete_warehouse-Deletes :
    (pr : Principal) (raw : RawId) (warehouse : Warehouse) (s : Db)
    → (require_warehouse raw s).0 ≡ ok warehouse
    → Deletes (λ t k. on_hand t k warehouse.id) s (delete_warehouse pr raw s)
delete_warehouse-Deletes pr raw warehouse s found =
    unfold delete_warehouse in
    after_found (λ (w : Warehouse) t k. on_hand t k w.id) (require_warehouse raw)
      (drop_warehouse pr) warehouse s (require_warehouse-IsQuery raw) found
      (λ w. drop_warehouse-Deletes pr w s)
