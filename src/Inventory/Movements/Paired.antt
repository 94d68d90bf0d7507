-- ===== src/Inventory/Movements/Paired.antt =====
-- `create_transfer` as a whole (backend/app/modules/inventory/service.py).
use blyns_ops.Prelude.{
  ℕ, String, ◌<◌, ◌≡◌, ◌≢◌, refl, sym, subst, ◌∙◌, ap, Bool, some, List, [], ◌∷◌, arith, ◌==◌,
  insert_one, update_one, All-insert_one,
}
use blyns_ops.Prelude.Int.{pos, ◌+ℤ◌, neg, int_laws}
use blyns_ops.Tenant.{
  Db, Principal, Product, Warehouse, Movement, Exec, Result, ok, err, pure, modify, ◌>>◌,
  write_activity,
}
use blyns_ops.Tenant.Rules.{IsQuery, query_rules, query_rule, outcome_rule}
use blyns_ops.Inventory.Stock.{on_hand, sum_at, ledger_sum}
use blyns_ops.Inventory.Stock.Cache.{add_at, on_hand_eq}
use blyns_ops.Inventory.Stock.Ledger.{IdsBelow, IdsBelow-mono, update_last, update_second_last}
use blyns_ops.Inventory.Movements.{
  TransferCreate, pair_with, tie, post_pair, resolve_transfer, transfer_posting, write_transfer,
  create_transfer,
}
use blyns_ops.Inventory.Movements.Named.{AreNamed, Names, resolve_transfer-Names}
use blyns_ops.Inventory.Movements.Outcome.{SameStock, SameStock-refl}
use blyns_ops.Inventory.Movements.Direct.{require_product-IsQuery, require_warehouse-IsQuery}
use blyns_ops.Inventory.Movements.Sound.{IsSound, HasMoved-IsSound}
use blyns_ops.Inventory.Movements.Transfers.{HasPaired, Pairs, post_pair-Pairs}

-- What a transfer of `qty` leaves behind.
pub record HasTransferred (qty : ℕ) (s s' : Db) (out into : Movement) : Type 0 where
  pub product : into.product_id ≡ out.product_id
  pub out_qty : out.qty ≡ neg (pos qty)
  pub into_qty : into.qty ≡ pos qty
  pub ledger :
      s'.movements
      ≡ insert_one (insert_one s.movements (pair_with into.id out)) (pair_with out.id into)
  pub quantities :
      (j k : ℕ)
      → on_hand s' j k
        ≡ add_at out.product_id into.warehouse_id
            (pos qty)
            j
            k
            (add_at out.product_id out.warehouse_id (neg (pos qty)) j k (on_hand s j k))
  pub sound : IsSound s'

-- The rows are of the product and of the warehouses that the request names, and move its quantity.
abbrev pub Transfers : TransferCreate → Db → Result (Movement × Movement) × Db → Type 0
Transfers x s (ok (out, into), s') =
    AreNamed x out.product_id out.warehouse_id into.warehouse_id
    × HasTransferred x.qty s s' out into
Transfers x s (err e, s') = SameStock s s'

sum-tie :
    (q : Movement → Bool) (o j k : ℕ) (ms : List Movement)
    → sum_at j k (update_one q (pair_with o) ms) ≡ sum_at j k ms
sum-tie q o j k [] = refl
sum-tie q o j k (m ∷ ms) = ground (arith, sum-tie q o j k ms)

IdsBelow-tie :
    (q : Movement → Bool) (o n : ℕ) (ms : List Movement)
    → IdsBelow n ms
    → IdsBelow n (update_one q (pair_with o) ms)
IdsBelow-tie q o n [] h = tt
IdsBelow-tie q o n (m ∷ ms) h = ground (arith, IdsBelow-tie q o n ms h.1)

tie-IsSound : (id o : ℕ) (s : Db) → IsSound s → IsSound (tie id o s)
unfolding tie on_hand ledger_sum
tie-IsSound id o s h = record {
  unique = h.unique;
  ids = IdsBelow-tie (λ m. id == m.id) o s.next_id s.movements h.ids;
  agrees = λ j k. h.agrees j k ∙ sym (sum-tie (λ m. id == m.id) o j k s.movements);
  nonneg = h.nonneg;
}

log-IsSound :
    (p : Principal) (action kind : String) (id : ℕ) (s : Db)
    → IsSound s
    → IsSound (write_activity p action kind id s).1
unfolding write_activity on_hand ledger_sum
log-IsSound p action kind id s h = record {
  unique = h.unique;
  ids = h.ids;
  agrees = h.agrees;
  nonneg = h.nonneg;
}

module _ (p src dst qty : ℕ) (s s' : Db) (out into : Movement) where
  tied-ledger :
      IsSound s
      → HasPaired p src dst qty s s' out into
      → (tie into.id out.id (tie out.id into.id s')).movements
        ≡ insert_one (insert_one s.movements (pair_with into.id out)) (pair_with out.id into)
  unfolding tie
  tied-ledger sound h =
      ap (update_one (λ m. into.id == m.id) (pair_with out.id)) (
        ap (update_one (λ m. out.id == m.id) (pair_with into.id))
          (h.second.ledger ∙ ap (λ (ms : List Movement). insert_one ms into) h.first.ledger)
        ∙ update_second_last (pair_with into.id) out into s.movements below)
      ∙ update_last (pair_with out.id) into (insert_one s.movements (pair_with into.id out)) (
          All-insert_one (λ m. m.id < into.id) s.movements (pair_with into.id out)
            (IdsBelow-mono s.next_id into.id s.movements (omega (arith, h.first.ids, h.second.id))
              sound.ids)
            (omega (arith, h.first.id, h.first.ids, h.second.id)))
    where
      below : IdsBelow out.id s.movements
      below = rw h.first.id sound.ids

  paired-quantities :
      HasPaired p src dst qty s s' out into
      → (j k : ℕ)
      → on_hand s' j k
        ≡ add_at out.product_id into.warehouse_id
            (pos qty)
            j
            k
            (add_at out.product_id out.warehouse_id (neg (pos qty)) j k (on_hand s j k))
  paired-quantities h j k =
      h.second.quantities j k
      ∙ rw (h.into_product, h.out_product, h.into_qty)
          (ap (add_at p into.warehouse_id (pos qty) j k)
            (h.first.quantities j k ∙ rw (h.out_product, h.out_qty) refl))

  tied_levels :
      (pr : Principal)
      → (write_activity pr "inventory.transfer" "product" p
          (tie into.id out.id (tie out.id into.id s'))).1.levels
        ≡ s'.levels
  unfolding write_activity tie
  tied_levels pr = refl

  transferred :
      (pr : Principal)
      → IsSound s
      → HasPaired p src dst qty s s' out into
      → HasTransferred qty s
          (write_activity pr "inventory.transfer" "product" p
            (tie into.id out.id (tie out.id into.id s'))).1
          out
          into
  transferred pr sound h = record {
    product = h.into_product ∙ sym h.out_product;
    out_qty = h.out_qty;
    into_qty = h.into_qty;
    ledger = unfold write_activity in (tied-ledger sound h);
    quantities = λ j k. on_hand_eq _ s' j k (tied_levels pr) ∙ paired-quantities h j k;
    sound = log-IsSound pr "inventory.transfer" "product" p _ (
        tie-IsSound into.id out.id _ (
          tie-IsSound out.id into.id s'
            (HasMoved-IsSound h.second (HasMoved-IsSound h.first sound))));
  }

module _ (pr : Principal) (x : TransferCreate) where
  abbrev finish : ℕ → Movement × Movement → Exec (Movement × Movement)
  finish product pair =
      modify (tie pair.0.id pair.1.id)
      >> modify (tie pair.1.id pair.0.id)
      >> write_activity pr "inventory.transfer" "product" product
      >> pure pair

  named_rows :
      {product src dst : ℕ} {s s' : Db} {out into : Movement}
      → HasPaired product src dst x.qty s s' out into
      → AreNamed x product src dst
      → AreNamed x out.product_id out.warehouse_id into.warehouse_id
  named_rows h named = record {
    product_id = named.product_id ∙ ap some (sym h.out_product);
    from_id = named.from_id ∙ ap some (sym h.out_warehouse);
    to_id = named.to_id ∙ ap some (sym h.into_warehouse);
  }

  write_transfer-Transfers :
      (found : Product × Warehouse × Warehouse) (s : Db)
      → Names x found
      → IsSound s
      → Transfers x s (write_transfer pr x found s)
  unfolding write_transfer write_activity
  write_transfer-Transfers (product, src, dst) s named sound =
      outcome_rule (Pairs product.id src.id dst.id x.qty s) (Transfers x s)
        (post_pair product.id src.id dst.id x.qty (transfer_posting pr x) s.allow_negative_stock)
        (finish product.id) s
        (post_pair-Pairs product.id src.id dst.id x.qty (transfer_posting pr x) s sound)
        (λ e s' h. h)
        (λ pair s' h. (
          named_rows h named,
          transferred product.id src.id dst.id x.qty s s' pair.0 pair.1 pr sound h,
        ))

  resolve_transfer-IsQuery : IsQuery (resolve_transfer x)
  unfolding resolve_transfer
  resolve_transfer-IsQuery =
      search (query_rules, require_product-IsQuery, require_warehouse-IsQuery)

  pub create_transfer-Transfers : (s : Db) → IsSound s → Transfers x s (create_transfer pr x s)
  create_transfer-Transfers s sound =
      unfold create_transfer in
      query_rule (Transfers x s) (resolve_transfer x) (write_transfer pr x) s
        resolve_transfer-IsQuery (λ e. SameStock-refl s sound.unique)
        (λ found e. write_transfer-Transfers found s (resolve_transfer-Names x s found e) sound)

moved_total :
    (qty : ℕ) (s s' : Db) (out into : Movement)
    → HasTransferred qty s s' out into
    → out.warehouse_id ≢ into.warehouse_id
    → on_hand s' out.product_id out.warehouse_id +ℤ on_hand s' out.product_id into.warehouse_id
      ≡ on_hand s out.product_id out.warehouse_id +ℤ on_hand s out.product_id into.warehouse_id
moved_total qty s s' out into h ne =
    rw (h.quantities out.product_id out.warehouse_id, h.quantities out.product_id into.warehouse_id)
      (grind int_laws)

-- A transfer that returns, between two different warehouses, keeps the sum of what they hold of the product,
-- if the stock was sound before.
pub transfer_conserves :
    (pr : Principal) (x : TransferCreate) (s s' : Db) (out into : Movement)
    → IsSound s
    → create_transfer pr x s ≡ (ok (out, into), s')
    → out.warehouse_id ≢ into.warehouse_id
    → on_hand s' out.product_id out.warehouse_id +ℤ on_hand s' out.product_id into.warehouse_id
      ≡ on_hand s out.product_id out.warehouse_id +ℤ on_hand s out.product_id into.warehouse_id
transfer_conserves pr x s s' out into sound returned =
    moved_total x.qty s s' out into
      (subst (Transfers x s) returned (create_transfer-Transfers pr x s sound)).1
