-- ===== src/Inventory/Movements/Sound.antt =====
-- The invariant of the stock: the cache agrees with the ledger, and no quantity is negative unless
-- the company allows it.
use blyns_ops.Prelude.{
  ℕ, ◌<◌, ◌≡◌, sym, subst, ◌∙◌, ap, true, false, List, arith, ◌||◌, All-insert_one,
}
use blyns_ops.Prelude.Int.{ℤ, pos, ◌+ℤ◌, ◌≤ℤ◌, neg, leb_ℤ, neg_parts, +ℤ_parts}
use blyns_ops.Tenant.{Db, Principal, Movement, Result, ok, err}
use blyns_ops.Inventory.Stock.{on_hand, sum_at, ledger_sum}
use blyns_ops.Inventory.Stock.Cache.{UniqueKeys, add_at}
use blyns_ops.Inventory.Stock.Ledger.{IdsBelow, IdsBelow-mono, sum-insert}
use blyns_ops.Inventory.Movements.{MovementCreate, create_movement}
use blyns_ops.Inventory.Movements.Outcome.{SameStock}
use blyns_ops.Inventory.Movements.Direct.{HasMoved, Moves, create_movement-Moves}

pub record IsSound (s : Db) : Type 0 where
  pub unique : UniqueKeys s.levels
  pub ids : IdsBelow s.next_id s.movements
  pub agrees : (j k : ℕ) → on_hand s j k ≡ ledger_sum s j k
  pub nonneg : s.allow_negative_stock ≡ false → (j k : ℕ) → pos 0 ≤ℤ on_hand s j k

pub SameStock-IsSound : {s s' : Db} → SameStock s s' → IsSound s → IsSound s'
unfolding ledger_sum
SameStock-IsSound {s} {s'} same h = record {
  unique = same.unique;
  ids =
      IdsBelow-mono s.next_id s'.next_id s'.movements same.ids
        (subst (λ (ms : List Movement). IdsBelow s.next_id ms) (sym same.ledger) h.ids);
  agrees = λ j k.
      same.quantities j k
      ∙ h.agrees j k
      ∙ ap (λ (ms : List Movement). sum_at j k ms) (sym same.ledger);
  nonneg = λ strict j k.
      subst (λ (q : ℤ). pos 0 ≤ℤ q) (sym (same.quantities j k))
        (h.nonneg (sym (ap (λ (t : Db). t.allow_negative_stock) same.rest) ∙ strict) j k);
}

covered_nonneg :
    (d q : ℤ) → (leb_ℤ (pos 0) d || leb_ℤ (neg d) q) ≡ true → pos 0 ≤ℤ q → pos 0 ≤ℤ q +ℤ d
covered_nonneg d q h n = ground (arith, neg_parts d, +ℤ_parts q d)

HasMoved-agrees :
    {s s' : Db} {m : Movement}
    → HasMoved s s' m
    → IsSound s
    → (j k : ℕ) → on_hand s' j k ≡ ledger_sum s' j k
unfolding ledger_sum
HasMoved-agrees {s} {s'} {m} moved h j k =
    moved.quantities j k
    ∙ ap (add_at m.product_id m.warehouse_id m.qty j k) (h.agrees j k)
    ∙ sym (sum-insert j k m s.movements)
    ∙ ap (λ (ms : List Movement). sum_at j k ms) (sym moved.ledger)

HasMoved-nonneg :
    {s s' : Db} {m : Movement}
    → HasMoved s s' m
    → IsSound s
    → s'.allow_negative_stock ≡ false
    → (j k : ℕ) → pos 0 ≤ℤ on_hand s' j k
HasMoved-nonneg {s} {s'} {m} moved h strict j k =
    let covered = moved.covered in
    let setting = moved.setting in
    let here = h.nonneg (sym moved.setting ∙ strict) j k in
    rw (moved.quantities j k)
      (ground (arith, covered_nonneg m.qty (on_hand s j k), covered, setting, here))

pub HasMoved-IsSound : {s s' : Db} {m : Movement} → HasMoved s s' m → IsSound s → IsSound s'
HasMoved-IsSound {s} {s'} {m} moved h = record {
  unique = moved.unique;
  ids =
      subst (λ (ms : List Movement). IdsBelow s'.next_id ms) (sym moved.ledger)
        (All-insert_one (λ x. x.id < s'.next_id) s.movements m
          (IdsBelow-mono s.next_id s'.next_id s.movements (omega (arith, moved.ids)) h.ids)
          (omega (arith, moved.ids, moved.id)));
  agrees = HasMoved-agrees moved h;
  nonneg = HasMoved-nonneg moved h;
}

-- Every `create_movement`, whether it returns or raises, keeps sound stock sound: one row of the cache
-- for each product and warehouse, ledger ids below the next one, the cache equal to the ledger's sums
-- and, unless the company allows negative stock, no negative quantity.
pub create_movement-IsSound :
    (p : Principal) (x : MovementCreate) (s : Db) → IsSound s → IsSound (create_movement p x s).1
create_movement-IsSound p x s h =
    go (create_movement p x s).0 (create_movement p x s).1 (create_movement-Moves p x s h.unique)
  where
    go : (r : Result Movement) (s' : Db) → Moves x s (r, s') → IsSound s'
    go (ok m) s' moved = HasMoved-IsSound moved.1 h
    go (err e) s' same = SameStock-IsSound same h
