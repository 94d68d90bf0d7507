-- ===== src/Inventory/Movements/Transfers.antt =====
-- The pair of postings of `create_transfer`, and the unwinding of a half-done one
-- (backend/app/modules/inventory/service.py).
use blyns_ops.Prelude.{
  ℕ, ◌≡◌, refl, sym, subst, ◌∙◌, ap, Bool, true, arith, ◌==◌, delete_one, is_some, find_one,
}
use blyns_ops.Prelude.Int.{ℤ, pos, neg}
use blyns_ops.Tenant.{Db, Movement, Exec, Result, ok, err, pure, or_undo, ◌>>=◌}
use blyns_ops.Tenant.Rules.{outcome_rule, undo_rule}
use blyns_ops.Inventory.Stock.{at_key, on_hand, release_stock}
use blyns_ops.Inventory.Stock.Cache.{
  add_at, on_hand_eq, add_at_cancel, release_stock-on_hand, release_stock-UniqueKeys,
  release_stock_rows,
}
use blyns_ops.Inventory.Stock.Ledger.{delete-insert}
use blyns_ops.Inventory.Movements.{Posting, post_movement, undo_issue, post_pair}
use blyns_ops.Inventory.Movements.Outcome.{SameStock, IsPosted, Posts, post_movement-Posts}
use blyns_ops.Inventory.Movements.Direct.{HasMoved, IsPosted-HasMoved}
use blyns_ops.Inventory.Movements.Sound.{IsSound}

-- Both postings have gone through, one after the other.
pub record HasPaired (p src dst qty : ℕ) (s s' : Db) (out into : Movement) : Type 0 where
  pub mid : Db
  pub first : HasMoved s mid out
  pub second : HasMoved mid s' into
  pub out_product : out.product_id ≡ p
  pub out_warehouse : out.warehouse_id ≡ src
  pub out_qty : out.qty ≡ neg (pos qty)
  pub into_product : into.product_id ≡ p
  pub into_warehouse : into.warehouse_id ≡ dst
  pub into_qty : into.qty ≡ pos qty

abbrev pub Pairs : ℕ → ℕ → ℕ → ℕ → Db → Result (Movement × Movement) × Db → Type 0
Pairs p src dst qty s (ok (out, into), s') = HasPaired p src dst qty s s' out into
Pairs p src dst qty s (err e, s') = SameStock s s'

module _ (p w : ℕ) (d : ℤ) (x : Posting) (an : Bool) (s s1 s2 : Db) (out : Movement) where
  -- A posted issue is undone exactly: the row goes, and the quantity comes back.
  undo_issue-SameStock :
      IsSound s
      → IsPosted p w d x an s s1 out
      → SameStock s1 s2
      → SameStock s (undo_issue out p w d s2)
  unfolding undo_issue release_stock
  undo_issue-SameStock sound posted same = record {
    quantities = λ j k.
        release_stock-on_hand p w d dropped j k found
        ∙ ap (add_at p w (neg d) j k)
            (on_hand_eq dropped s2 j k refl ∙ same.quantities j k ∙ posted.quantities j k)
        ∙ add_at_cancel p w j k d (on_hand s j k);
    ledger =
        ap (delete_one (λ m. out.id == m.id)) (same.ledger ∙ posted.ledger)
        ∙ delete-insert out s.movements (rw posted.row sound.ids);
    unique = release_stock-UniqueKeys p w d dropped same.unique;
    rows = λ j k h. release_stock_rows p w d dropped j k (same.rows j k (posted.rows j k h));
    ids = omega (arith, posted.ids, same.ids);
    rest = same.rest ∙ posted.rest;
  }
    where
      dropped : Db
      dropped = record s2 { movements = delete_one (λ m. out.id == m.id) s2.movements }

      found : is_some (find_one (at_key p w) s2.levels) ≡ true
      found = same.rows p w posted.found

module _ (p src dst qty : ℕ) (x : Posting) (s : Db) where
  abbrev second_try : Movement → Exec Movement
  second_try out =
      or_undo (post_movement p dst (pos qty) x s.allow_negative_stock)
        (undo_issue out p src (neg (pos qty)))

  abbrev Rest : Db → Movement → Result Movement × Db → Type 0
  Rest mid out (ok into, s') = IsPosted p dst (pos qty) x s.allow_negative_stock mid s' into
  Rest mid out (err e, s') = SameStock s s'

  second_try-Rest :
      (mid : Db) (out : Movement)
      → IsSound s
      → IsPosted p src (neg (pos qty)) x s.allow_negative_stock s mid out
      → Rest mid out (second_try out mid)
  second_try-Rest mid out sound posted =
      undo_rule (Posts p dst (pos qty) x s.allow_negative_stock mid) (Rest mid out)
        (post_movement p dst (pos qty) x s.allow_negative_stock)
        (undo_issue out p src (neg (pos qty))) mid
        (post_movement-Posts p dst (pos qty) x s.allow_negative_stock mid posted.unique)
        (λ e s2 same.
          undo_issue-SameStock p src (neg (pos qty)) x s.allow_negative_stock s mid s2 out sound
            posted same)
        (λ into s2 h. h)

  paired :
      (mid s' : Db) (out into : Movement)
      → IsPosted p src (neg (pos qty)) x s.allow_negative_stock s mid out
      → IsPosted p dst (pos qty) x s.allow_negative_stock mid s' into
      → HasPaired p src dst qty s s' out into
  paired mid s' out into a b = record {
    mid = mid;
    first = IsPosted-HasMoved a;
    second = IsPosted-HasMoved (
        subst (λ (an : Bool). IsPosted p dst (pos qty) x an mid s' into)
          (sym (ap (λ (t : Db). t.allow_negative_stock) a.rest)) b);
    out_product = ap (λ (m : Movement). m.product_id) a.row;
    out_warehouse = ap (λ (m : Movement). m.warehouse_id) a.row;
    out_qty = ap (λ (m : Movement). m.qty) a.row;
    into_product = ap (λ (m : Movement). m.product_id) b.row;
    into_warehouse = ap (λ (m : Movement). m.warehouse_id) b.row;
    into_qty = ap (λ (m : Movement). m.qty) b.row;
  }

  -- Both halves are posted, or nothing of them is left.
  pub post_pair-Pairs :
      IsSound s → Pairs p src dst qty s (post_pair p src dst qty x s.allow_negative_stock s)
  unfolding post_pair
  post_pair-Pairs sound =
      outcome_rule (Posts p src (neg (pos qty)) x s.allow_negative_stock s) (Pairs p src dst qty s)
        (post_movement p src (neg (pos qty)) x s.allow_negative_stock)
        (λ out. second_try out >>= λ into. pure (out, into)) s
        (post_movement-Posts p src (neg (pos qty)) x s.allow_negative_stock s sound.unique)
        (λ e s' h. h)
        (λ out mid posted.
          outcome_rule (Rest mid out) (Pairs p src dst qty s) (second_try out)
            (λ into. pure (out, into)) mid (second_try-Rest mid out sound posted) (λ e s' h. h)
            (λ into s' h. paired mid s' out into posted h))
