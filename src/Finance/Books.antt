-- ===== src/Finance/Books.antt =====
-- The journal's invariant under the actions of the inventory and of the issue of stock, which invoices
-- call (backend/app/modules/finance/service.py, `send_invoice`).
use blyns_ops.Prelude.{
  ℕ, String, Bool, true, false, Option, none, some, List, [], ◌∷◌, ◌≡◌, sym, subst, ap, All, refl,
  ◌==◌, update_one, insert_one, arith, Bool-cases, inl, inr,
}
use blyns_ops.Prelude.Int.{ℤ}
use blyns_ops.Tenant.{
  Db, Principal, Movement, Product, Warehouse, PricedLine, Document, Entry, RawId, new_id, modify,
  write_activity, or_undo,
}
use blyns_ops.Tenant.Rules.{
  Keeps, Keeps-bind, keeps_rules, Keeps-query, Keeps-modify, IsQuery, IsQuery-bind, query_rules,
  new_id-Inserts, Inserts,
}
use blyns_ops.Inventory.Stock.{release_stock}
use blyns_ops.Inventory.Stock.Cache.{claim_stock_frame}
use blyns_ops.Inventory.Movements.{
  Posting, MovementCreate, post_movement, insert_movement, create_movement, resolve_movement,
  write_movement, claim,
}
use blyns_ops.Inventory.Movements.Direct.{
  resolve_movement-IsQuery, require_product-IsQuery, require_warehouse-IsQuery,
}
use blyns_ops.Finance.Issues.{
  require_line, require_products, validate_warehouse, validate_issue_lines, issue_warehouse,
  reverse_issue, reverse_all, issue_request, issue_lines, issue_stock_for,
}
use blyns_ops.Finance.Invoices.{issue_if}
use blyns_ops.Finance.Posting.Balance.{IsBalanced, HasBalancedBooks}

-- What leaves the journal alone keeps it.
same_books : {s s' : Db} → s'.journal ≡ s.journal → HasBalancedBooks s → HasBalancedBooks s'
same_books e h = record {
  entries = subst (λ (es : List Entry). All IsBalanced es) (sym e) h.entries;
}

pub new_id-books : Keeps HasBalancedBooks new_id
unfolding new_id
new_id-books = record { at = λ s h. same_books (ground arith) h }

pub write_activity-books :
    (p : Principal) (action kind : String) (id : ℕ)
    → Keeps HasBalancedBooks (write_activity p action kind id)
unfolding write_activity
write_activity-books p action kind id = record { at = λ s h. record { entries = h.entries } }

pub modify-books :
    (f : Db → Db) → ((s : Db) → (f s).journal ≡ s.journal) → Keeps HasBalancedBooks (modify f)
modify-books f e = record { at = λ s h. same_books (e s) h }

pub claim-books : (p w : ℕ) (d : ℤ) (an : Bool) → Keeps HasBalancedBooks (claim p w d an)
claim-books p w d an = record {
  at = λ s h. same_books (ap (λ (t : Db). t.journal) (claim_stock_frame p w d an s)) h;
}

release-books :
    (p w : ℕ) (d : ℤ) (s : Db) → HasBalancedBooks s → HasBalancedBooks (release_stock p w d s)
unfolding release_stock
release-books p w d s h = record { entries = h.entries }

-- The rules for the actions below.
pub ruleset book_rules =
    (keeps_rules, new_id-books, write_activity-books, modify-books, refl, claim-books, Keeps-query)

insert_movement-books : (row : ℕ → Movement) → Keeps HasBalancedBooks (insert_movement row)
unfolding insert_movement
insert_movement-books row = search book_rules

post_movement-books :
    (p w : ℕ) (d : ℤ) (x : Posting) (an : Bool) → Keeps HasBalancedBooks (post_movement p w d x an)
unfolding post_movement
post_movement-books p w d x an = search (book_rules, insert_movement-books, release-books)

write_movement-books :
    (p : Principal) (x : MovementCreate) (product : Product) (warehouse : Warehouse)
    → Keeps HasBalancedBooks (write_movement p x (product, warehouse))
unfolding write_movement
write_movement-books p x product warehouse = search (book_rules, post_movement-books)

create_movement-books :
    (p : Principal) (x : MovementCreate) → Keeps HasBalancedBooks (create_movement p x)
create_movement-books p x =
    unfold create_movement in
    Keeps-bind (resolve_movement x) (write_movement p x)
      (Keeps-query (resolve_movement x) (resolve_movement-IsQuery x))
      (λ found. write_movement-books p x found.0 found.1)

ruleset lookup_rules = (query_rules, require_product-IsQuery, require_warehouse-IsQuery)

require_line-IsQuery : (o : Option RawId) → IsQuery (require_line o)
unfolding require_line
require_line-IsQuery none = search lookup_rules
require_line-IsQuery (some raw) = search lookup_rules

require_products-IsQuery : (lines : List PricedLine) → IsQuery (require_products lines)
unfolding require_products
require_products-IsQuery [] = search lookup_rules
require_products-IsQuery (l ∷ ls) =
    IsQuery-bind (require_line l.product_id) (λ _. require_products ls)
      (require_line-IsQuery l.product_id) (λ _. require_products-IsQuery ls)

validate_warehouse-IsQuery : (w : Option RawId) → IsQuery (validate_warehouse w)
unfolding validate_warehouse
validate_warehouse-IsQuery none = search lookup_rules
validate_warehouse-IsQuery (some raw) = search lookup_rules

pub validate_issue_lines-IsQuery :
    (lines : List PricedLine) (w : Option RawId) → IsQuery (validate_issue_lines lines w)
unfolding validate_issue_lines
validate_issue_lines-IsQuery lines w =
    search (lookup_rules, require_products-IsQuery, validate_warehouse-IsQuery)

pub issue_warehouse-IsQuery : (w : Option RawId) → IsQuery (issue_warehouse w)
unfolding issue_warehouse
issue_warehouse-IsQuery none = search lookup_rules
issue_warehouse-IsQuery (some raw) = search lookup_rules

reverse_issue-books : (id : ℕ) (s : Db) → HasBalancedBooks s → HasBalancedBooks (reverse_issue id s)
unfolding reverse_issue
reverse_issue-books id s h = same_books (ground arith) h

pub reverse_all-books :
    (ids : List ℕ) (s : Db) → HasBalancedBooks s → HasBalancedBooks (reverse_all ids s)
unfolding reverse_all
reverse_all-books [] s h = h
reverse_all-books (id ∷ ids) s h =
    reverse_all-books ids (reverse_issue id s) (reverse_issue-books id s h)

issue_lines-books :
    (pr : Principal) (invoice : ℕ) (warehouse : RawId) (ls : List PricedLine) (posted : List ℕ)
    → Keeps HasBalancedBooks (issue_lines pr invoice warehouse ls posted)
unfolding issue_lines
issue_lines-books pr invoice warehouse [] posted = search book_rules
issue_lines-books pr invoice warehouse (l ∷ ls) posted =
    Keeps-bind
      (or_undo (create_movement pr (issue_request invoice warehouse l)) (reverse_all posted))
      (λ m. issue_lines pr invoice warehouse ls (insert_one posted m.id))
      (search (book_rules, create_movement-books, reverse_all-books))
      (λ m. issue_lines-books pr invoice warehouse ls (insert_one posted m.id))

issue_stock_for-books :
    (pr : Principal) (d : Document) → Keeps HasBalancedBooks (issue_stock_for pr d)
unfolding issue_stock_for
issue_stock_for-books pr d = search (book_rules, issue_warehouse-IsQuery, issue_lines-books)

pub issue_if-books :
    (b : Bool) (pr : Principal) (d : Document) → Keeps HasBalancedBooks (issue_if b pr d)
issue_if-books true pr d = search (book_rules, validate_issue_lines-IsQuery, issue_stock_for-books)
issue_if-books false pr d = search book_rules
