-- ===== src/Inventory/Reports.antt =====
-- The integrity check and the low-stock list (backend/app/modules/inventory/service.py, repository.py).
pub mod Integrity
pub mod LowStock
use blyns_ops.Prelude.{
  ℕ, suc, ◌+◌, ◌*◌, String, Bool, true, false, Option, none, some, List, [], ◌∷◌, not, ◌&&◌, ◌==◌,
  ltb, length, if◌then◌else◌, find_one,
}
use blyns_ops.Prelude.Int.{ℤ, pos, leb_ℤ, ltb_ℤ, abs, ◌-ℤ◌}
use blyns_ops.Tenant.{Db, Product, Level}
use blyns_ops.Inventory.Stock.{ledger_sum}

pub record Drift : Type 0 where
  pub product_id : ℕ
  pub warehouse_id : ℕ
  pub cached_on_hand : ℤ
  pub actual : ℤ

pub record Report : Type 0 where
  pub checked : ℕ
  pub drift : List Drift
  pub consistent : Bool

-- The loop of `reconcile` over `stock_levels`: `abs(actual - on_hand) > 1e-9`, where `tolerance` is that
-- bound in the unit of the quantities.
unfoldable pub drift_of : ℕ → Db → List Level → List Drift
unfolding abs ◌-ℤ◌
drift_of tolerance s [] = []
drift_of tolerance s (l ∷ ls) =
    let actual = ledger_sum s l.product_id l.warehouse_id in
    let rest = drift_of tolerance s ls in
    if ltb_ℤ (pos tolerance) (abs (actual -ℤ l.on_hand))
    then record {
      product_id = l.product_id;
      warehouse_id = l.warehouse_id;
      cached_on_hand = l.on_hand;
      actual = actual;
    }
      ∷ rest
    else rest

abbrev is_empty : List Drift → Bool
is_empty [] = true
is_empty (_ ∷ _) = false

unfoldable pub reconcile : ℕ → Db → Report
unfolding drift_of
reconcile tolerance s = record {
  checked = length s.levels;
  drift = drift_of tolerance s s.levels;
  consistent = is_empty (drift_of tolerance s s.levels);
}

-- The `$match` of `LOW_STOCK_AGG`, on a row with the product that `$lookup` joined to it.
abbrev pub is_low : Level → Product → Bool
is_low l p =
    p.is_active
    && not p.is_deleted
    && ltb 0 p.reorder_point
    && leb_ℤ l.on_hand (pos p.reorder_point)

-- `$lookup` on `_id` and `$unwind`: a row without its product falls out.
abbrev pub product_by_id : ℕ → List Product → Option Product
product_by_id id products = find_one (λ p. id == p.id) products

unfoldable pub low_rows : List Product → List Level → List (Level × Product)
low_rows products [] = []
low_rows products (l ∷ ls) =
    let rest = low_rows products ls in
    elim (product_by_id l.product_id products) [
      | none ↦ rest
      | some p ↦ if is_low l p then (l, p) ∷ rest else rest
    ]

-- `{"$sort": {"on_hand": 1}}`, which is stable
unfoldable pub insert_row : Level × Product → List (Level × Product) → List (Level × Product)
insert_row r [] = r ∷ []
insert_row r (x ∷ xs) = if leb_ℤ r.0.on_hand x.0.on_hand then r ∷ x ∷ xs else x ∷ insert_row r xs

unfoldable pub sort_rows : List (Level × Product) → List (Level × Product)
unfolding insert_row
sort_rows [] = []
sort_rows (r ∷ rs) = insert_row r (sort_rows rs)

unfoldable pub low_stock : Db → List (Level × Product)
unfolding low_rows sort_rows
low_stock s = sort_rows (low_rows s.products s.levels)

-- `{"$count": "n"}` over the same pipeline, without the sort; no row at all means 0.
unfoldable pub low_stock_count : Db → ℕ
unfolding low_rows
low_stock_count s = length (low_rows s.products s.levels)
