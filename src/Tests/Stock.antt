-- ===== src/Tests/Stock.antt =====
-- Tests of the inventory, and its theorems at concrete requests.
use blyns_ops.Prelude.{ℕ, ◌≡◌, refl, true, false, none, some, [], ◌∷◌, arith, ◌↔◌, length}
use blyns_ops.Prelude.Members.{In}
use blyns_ops.Prelude.Int.{pos, negsuc, ◌+ℤ◌, neg}
use blyns_ops.Tenant.{
  Db, Product, Level, Movement, MovementType, RefModule, ok, err, domain_error, insufficient_stock,
  write_failed, write_activity,
}
use blyns_ops.Inventory.Stock.{claim_stock, on_hand, ledger_sum}
use blyns_ops.Inventory.Movements.{
  MovementCreate, DirectMovementType, TransferCreate, create_movement, create_transfer,
  find_product, check_movement, post_pair, post_movement, signed_qty, require_product,
  require_warehouse,
}
use blyns_ops.Inventory.Movements.Direct.{Moves, create_movement-Moves}
use blyns_ops.Inventory.Movements.Sound.{IsSound, create_movement-IsSound}
use blyns_ops.Inventory.Movements.Paired.{transfer_conserves}
use blyns_ops.Inventory.Reports.{reconcile, low_stock, low_stock_count}
use blyns_ops.Inventory.Reports.LowStock.{IsLow, IsSorted, low_stock_exact}
use blyns_ops.Inventory.Reports.Integrity.{RowsAgree, reconcile_exact, reconcile_sound}
use blyns_ops.Inventory.Catalog.{ProductPatch, patch_product, delete_product, delete_warehouse}
use blyns_ops.Inventory.Catalog.Deletion.{Deletes, delete_product-Deletes, delete_warehouse-Deletes}
use blyns_ops.Tests.Fixtures.{user, stocked, raw_id, plank, depot, opening}

abbrev issue_of : ℕ → MovementCreate
issue_of n = record {
  product_id = raw_id "01" 1;
  warehouse_id = raw_id "0a" 10;
  type_ = DirectMovementType.issue;
  qty = pos n;
  note = none;
  occurred_at = none;
  ref_module = RefModule.manual;
  ref_doc_id = none;
}

abbrev transfer_of : ℕ → TransferCreate
transfer_of n = record {
  product_id = raw_id "01" 1;
  from_warehouse_id = raw_id "0a" 10;
  to_warehouse_id = raw_id "14" 20;
  qty = n;
  note = none;
  occurred_at = none;
}

-- What the tests below run through.
stock_steps : Unit {0}
unfolding create_movement create_transfer check_movement require_product require_warehouse post_pair
    post_movement claim_stock signed_qty on_hand low_stock_count write_activity neg ◌+ℤ◌
stock_steps = tt

issue_three : on_hand (create_movement user (issue_of 3) stocked).1 1 10 ≡ pos 5
unfolding stock_steps
issue_three = refl

issue_too_many :
    create_movement user (issue_of 9) stocked ≡ (err (domain_error insufficient_stock 409), stocked)
unfolding stock_steps
issue_too_many = refl

transfer_three : on_hand (create_transfer user (transfer_of 3) stocked).1 1 20 ≡ pos 3
unfolding stock_steps
transfer_three = refl

-- The second write raises: the half-done transfer is unwound.
abbrev flaky : Db
flaky = record stocked { faults = false ∷ true ∷ [] }

flaky_transfer :
    let (r, s) = create_transfer user (transfer_of 3) flaky in
    (r ≡ err write_failed) × (s.movements ≡ stocked.movements) × (on_hand s 1 10 ≡ pos 8)
unfolding stock_steps
flaky_transfer = (refl, refl, refl)

low_after_issue : low_stock_count (create_movement user (issue_of 3) stocked).1 ≡ 1
unfolding stock_steps
low_after_issue = refl

abbrev described : ProductPatch
described = record {
  sku = none;
  name = none;
  description = some "Oak";
  category = none;
  unit = none;
  barcode = none;
  cost_price = none;
  sale_price = none;
  currency = none;
  reorder_point = none;
  reorder_qty = none;
  is_active = none;
}

patch_description :
    find_product 1 (patch_product user (raw_id "1" 1) described stocked).1
    ≡ some (record plank { description = some "Oak"; updated_by = some user.user_id })
unfolding patch_product find_product require_product
patch_description = refl

stocked-IsSound : IsSound stocked
unfolding on_hand ledger_sum ◌+ℤ◌
stocked-IsSound = record {
  unique = (refl, tt);
  ids = omega arith;
  agrees = λ j k. ground arith;
  nonneg = λ h j k. ground arith;
}

create_movement-Moves_example :
    Moves (issue_of 3) stocked (create_movement user (issue_of 3) stocked)
create_movement-Moves_example = create_movement-Moves user (issue_of 3) stocked (refl, tt)

create_movement-IsSound_example : IsSound (create_movement user (issue_of 9) stocked).1
create_movement-IsSound_example = create_movement-IsSound user (issue_of 9) stocked stocked-IsSound

abbrev issued : Movement
issued = record opening {
  id = 100;
  type_ = MovementType.transfer;
  qty = negsuc 2;
  ref_module = RefModule.transfers;
  occurred_at = 1000;
}

abbrev receipted : Movement
receipted = record issued { id = 101; warehouse_id = 20; qty = pos 3 }

transferred_db :
    create_transfer user (transfer_of 3) stocked
    ≡ (ok (issued, receipted), (create_transfer user (transfer_of 3) stocked).1)
unfolding stock_steps
transferred_db = refl

transfer_conserves_example :
    let s = (create_transfer user (transfer_of 3) stocked).1 in
    on_hand s 1 10 +ℤ on_hand s 1 20 ≡ on_hand stocked 1 10 +ℤ on_hand stocked 1 20
transfer_conserves_example =
    transfer_conserves user (transfer_of 3) stocked (create_transfer user (transfer_of 3) stocked).1
      issued receipted stocked-IsSound transferred_db (omega arith)

reconcile_exact_example :
    (reconcile 0 stocked).consistent ≡ true ↔ RowsAgree 0 stocked stocked.levels
reconcile_exact_example = reconcile_exact 0 stocked

reconcile_sound_example :
    ((reconcile 0 stocked).drift ≡ []) × ((reconcile 0 stocked).consistent ≡ true)
reconcile_sound_example = reconcile_sound 0 stocked stocked-IsSound

found_plank : (require_product (raw_id "01" 1) stocked).0 ≡ ok plank
unfolding require_product
found_plank = refl

delete_product-Deletes_example :
    Deletes (λ t k. on_hand t 1 k) stocked (delete_product user (raw_id "01" 1) stocked)
delete_product-Deletes_example =
    delete_product-Deletes user (raw_id "01" 1) plank stocked found_plank

found_depot : (require_warehouse (raw_id "14" 20) stocked).0 ≡ ok (depot 20 "B")
unfolding require_warehouse
found_depot = refl

delete_warehouse-Deletes_example :
    Deletes (λ t k. on_hand t k 20) stocked (delete_warehouse user (raw_id "14" 20) stocked)
delete_warehouse-Deletes_example =
    delete_warehouse-Deletes user (raw_id "14" 20) (depot 20 "B") stocked found_depot

-- Five planks are left, and the reorder point is above that.
abbrev after_issue : Db
after_issue = (create_movement user (issue_of 3) stocked).1

low_stock_exact_example :
    ((l : Level) (p : Product)
      → In (l, p) (low_stock after_issue) ↔ IsLow after_issue.products after_issue.levels l p)
    × IsSorted (low_stock after_issue)
    × (low_stock_count after_issue ≡ length (low_stock after_issue))
low_stock_exact_example = low_stock_exact after_issue
