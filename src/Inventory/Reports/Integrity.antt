-- ===== src/Inventory/Reports/Integrity.antt =====
-- The integrity check against the cache and the ledger (backend/app/modules/inventory/service.py).
use blyns_ops.Prelude.{
  ℕ, ◌≡◌, refl, sym, ◌∙◌, ◌↔◌, true, false, some, List, [], ◌∷◌, arith, All, find_one, Bool-cases,
  inl, inr,
}
use blyns_ops.Prelude.Int.{ℤ, pos, ltb_ℤ, abs, ◌-ℤ◌, ◌+ℤ◌, ◌≤ℤ◌, int_laws}
use blyns_ops.Tenant.{Db, Level}
use blyns_ops.Inventory.Stock.{at_key, on_hand, ledger_sum}
use blyns_ops.Inventory.Stock.Cache.{UniqueKeys}
use blyns_ops.Inventory.Movements.Sound.{IsSound}
use blyns_ops.Inventory.Reports.{drift_of, reconcile}

-- No row of the cache is further than the tolerance from the sum of its ledger rows.
abbrev pub IsNear : ℕ → ℤ → ℤ → Type 0
IsNear tolerance a b = (a ≤ℤ b +ℤ pos tolerance) × (b ≤ℤ a +ℤ pos tolerance)

abbrev pub RowsAgree : ℕ → Db → List Level → Type 0
RowsAgree tolerance s ls =
    All (λ l. IsNear tolerance (ledger_sum s l.product_id l.warehouse_id) l.on_hand) ls

near : (t : ℕ) (a b : ℤ) → ltb_ℤ (pos t) (abs (a -ℤ b)) ≡ false → IsNear t a b
unfolding abs ◌-ℤ◌ ◌+ℤ◌
near t a b h = (ground arith, ground arith)

far : (t : ℕ) (a b : ℤ) → ltb_ℤ (pos t) (abs (a -ℤ b)) ≡ true → IsNear t a b → ⊥
unfolding abs ◌-ℤ◌ ◌+ℤ◌
far t a b h k = ground (arith, k.0, k.1)

IsNear-self : (t : ℕ) (a b : ℤ) → a ≡ b → IsNear t a b
IsNear-self t a b e = (grind int_laws, grind int_laws)

drift-RowsAgree : (t : ℕ) (s : Db) (ls : List Level) → drift_of t s ls ≡ [] ↔ RowsAgree t s ls
unfolding drift_of
drift-RowsAgree t s [] = (λ _. tt, λ _. refl)
drift-RowsAgree t s (l ∷ ls) =
    elim (Bool-cases
      (ltb_ℤ (pos t) (abs (ledger_sum s l.product_id l.warehouse_id -ℤ l.on_hand)))) [
        | inl off ↦ rw off (λ e. cc, λ h. absurd (far t _ _ off h.0))
        | inr same ↦ rw same (
          λ e. (near t _ _ same, (drift-RowsAgree t s ls).0 e),
          λ h. (drift-RowsAgree t s ls).1 h.1,
        )
      ]

-- With any tolerance, the check says "consistent" exactly when no row of the cache is further than that
-- from the sum of its ledger rows.
pub reconcile_exact : (t : ℕ) (s : Db) → (reconcile t s).consistent ≡ true ↔ RowsAgree t s s.levels
unfolding reconcile
reconcile_exact t s = (
  λ c. (drift-RowsAgree t s s.levels).0 (ground arith),
  λ h. rw ((drift-RowsAgree t s s.levels).1 h),
)

-- With one row for each key, each row is the one that a lookup finds.
rows_found :
    (t : ℕ) (s : Db) (ls : List Level)
    → UniqueKeys ls
    → ((j k : ℕ) (l : Level) → find_one (at_key j k) ls ≡ some l → ledger_sum s j k ≡ l.on_hand)
    → RowsAgree t s ls
rows_found t s [] u h = tt
rows_found t s (l ∷ ls) u h = (
  IsNear-self t _ _ (h l.product_id l.warehouse_id l (ground arith)),
  rows_found t s ls u.1 (λ j k r e. h j k r (ground arith)),
)

found_on_hand :
    (s : Db) (j k : ℕ) (l : Level)
    → find_one (at_key j k) s.levels ≡ some l
    → on_hand s j k ≡ l.on_hand
unfolding on_hand
found_on_hand s j k l e = rw e

-- From sound stock the check finds no drift, whatever its tolerance.
pub reconcile_sound :
    (t : ℕ) (s : Db)
    → IsSound s
    → ((reconcile t s).drift ≡ []) × ((reconcile t s).consistent ≡ true)
unfolding reconcile
reconcile_sound t s h =
    let agree =
      rows_found t s s.levels h.unique (λ j k l e. sym (h.agrees j k) ∙ found_on_hand s j k l e) in
    ((drift-RowsAgree t s s.levels).1 agree, (reconcile_exact t s).1 agree)
