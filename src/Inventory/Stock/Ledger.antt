-- ===== src/Inventory/Stock/Ledger.antt =====
-- The signed sum of the ledger under the writes to it.
use blyns_ops.Prelude.{
  ℕ, ◌<◌, ◌≤◌, ◌≡◌, List, [], ◌∷◌, arith, ◌==◌, insert_one, update_one, delete_one, All,
}
use blyns_ops.Prelude.Int.{int_laws}
use blyns_ops.Tenant.{Movement}
use blyns_ops.Inventory.Stock.{sum_at}
use blyns_ops.Inventory.Stock.Cache.{add_at}

pub sum-insert :
    (j k : ℕ) (m : Movement) (ms : List Movement)
    → sum_at j k (insert_one ms m) ≡ add_at m.product_id m.warehouse_id m.qty j k (sum_at j k ms)
sum-insert j k m [] = grind int_laws
sum-insert j k m (x ∷ ms) = grind (int_laws, sum-insert j k m ms)

-- Every id in the ledger has been given out.
abbrev pub IdsBelow : ℕ → List Movement → Type 0
IdsBelow n ms = All (λ m. m.id < n) ms

pub IdsBelow-mono : (n k : ℕ) (ms : List Movement) → n ≤ k → IdsBelow n ms → IdsBelow k ms
IdsBelow-mono n k [] h i = tt
IdsBelow-mono n k (m ∷ ms) h i = (omega arith, IdsBelow-mono n k ms h i.1)

-- The row that was inserted last, under a fresh id, is the row that goes.
pub delete-insert :
    (m : Movement) (ms : List Movement)
    → IdsBelow m.id ms
    → delete_one (λ x. m.id == x.id) (insert_one ms m) ≡ ms
delete-insert m [] i = ground arith
delete-insert m (x ∷ ms) i = ground (arith, delete-insert m ms i.1)

-- A change of the row that was inserted last, or of the one before it.
pub update_last :
    (f : Movement → Movement) (m : Movement) (ms : List Movement)
    → IdsBelow m.id ms
    → update_one (λ x. m.id == x.id) f (insert_one ms m) ≡ insert_one ms (f m)
update_last f m [] i = ground arith
update_last f m (x ∷ ms) i = ground (arith, update_last f m ms i.1)

pub update_second_last :
    (f : Movement → Movement) (a b : Movement) (ms : List Movement)
    → IdsBelow a.id ms
    → update_one (λ x. a.id == x.id) f (insert_one (insert_one ms a) b)
      ≡ insert_one (insert_one ms (f a)) b
update_second_last f a b [] i = ground arith
update_second_last f a b (x ∷ ms) i = ground (arith, update_second_last f a b ms i.1)
