-- ===== src/Inventory/Stock.antt =====
-- The stock cache and the ledger's own sum (backend/app/modules/inventory/repository.py).
pub mod Cache
pub mod Ledger
use blyns_ops.Prelude.{
  ℕ, Bool, true, false, Option, none, some, List, [], ◌∷◌, ◌&&◌, ◌||◌, ◌==◌, is_some, if◌then◌else◌,
  find_one, insert_one, update_one,
}
use blyns_ops.Prelude.Int.{ℤ, pos, ◌+ℤ◌, neg, leb_ℤ}
use blyns_ops.Tenant.{Db, Level, Movement}

-- The query `{"product_id": p, "warehouse_id": w}` on `stock_levels`.
abbrev pub at_key : ℕ → ℕ → Level → Bool
at_key p w l = p == l.product_id && w == l.warehouse_id

-- `{"$inc": {"on_hand": delta}}`
abbrev pub inc_on_hand : ℤ → Level → Level
inc_on_hand delta l = record l { on_hand = l.on_hand +ℤ delta }

-- `update_one(key, {"$inc": …}, upsert=True)`: an absent row starts at 0.
unfoldable pub upsert_inc : ℕ → ℕ → ℤ → List Level → List Level
upsert_inc p w delta levels =
    if is_some (find_one (at_key p w) levels)
    then update_one (at_key p w) (inc_on_hand delta) levels
    else insert_one levels (record { product_id = p; warehouse_id = w; on_hand = pos 0 +ℤ delta })

-- The row that the conditional `find_one_and_update` looks for.
abbrev pub at_key_with : ℕ → ℕ → ℤ → Level → Bool
at_key_with p w needed l = at_key p w l && leb_ℤ needed l.on_hand

unfoldable pub claim_stock : ℕ → ℕ → ℤ → Bool → Db → Bool × Db
unfolding upsert_inc
claim_stock p w delta allow_negative s =
    if leb_ℤ (pos 0) delta || allow_negative
    then (true, record s { levels = upsert_inc p w delta s.levels })
    else if is_some (find_one (at_key_with p w (neg delta)) s.levels)
    then (
      true,
      record s { levels = update_one (at_key_with p w (neg delta)) (inc_on_hand delta) s.levels },
    )
    else (false, s)

unfoldable pub release_stock : ℕ → ℕ → ℤ → Db → Db
release_stock p w delta s = record s {
  levels = update_one (at_key p w) (inc_on_hand (neg delta)) s.levels;
}

abbrev on_hand_of : Option Level → ℤ
on_hand_of none = pos 0
on_hand_of (some l) = l.on_hand

abbrev pub on_hand_in : List Level → ℕ → ℕ → ℤ
on_hand_in levels p w = on_hand_of (find_one (at_key p w) levels)

unfoldable pub on_hand : Db → ℕ → ℕ → ℤ
on_hand s p w = on_hand_in s.levels p w

abbrev pub movement_at : ℕ → ℕ → Movement → Bool
movement_at p w m = p == m.product_id && w == m.warehouse_id

-- `$match` and `$sum` of the aggregation
abbrev pub sum_at : ℕ → ℕ → List Movement → ℤ
sum_at p w [] = pos 0
sum_at p w (m ∷ ms) = if movement_at p w m then m.qty +ℤ sum_at p w ms else sum_at p w ms

unfoldable pub ledger_sum : Db → ℕ → ℕ → ℤ
ledger_sum s p w = sum_at p w s.movements
