-- ===== src/Finance/Requests/Sound.antt =====
-- The journal's invariant under the requests of backend/app/modules/finance/router.py.
use blyns_ops.Prelude.{ℕ, Bool, List, [], ◌∷◌, update_one, All, ◌==◌, Bool-cases, inl, inr}
use blyns_ops.Tenant.{Db, Principal, Document, Account, Entry, DocType, RawId, modify, ◌>>=◌}
use blyns_ops.Tenant.Rules.{Keeps, Keeps-bind, Keeps-query, keeps_rules}
use blyns_ops.Finance.Posting.{require_account}
use blyns_ops.Finance.Posting.Balance.{IsBalanced, HasBalancedBooks, post_entry-Keeps}
use blyns_ops.Finance.Accounts.{
  AccountCreate, AccountPatch, JournalEntryCreate, create_account, patch_account, drop_account,
  delete_account, create_entry,
}
use blyns_ops.Finance.Pricing.{Rounding}
use blyns_ops.Finance.Invoices.{
  InvoiceCreate, InvoicePatch, update_invoice, create_invoice, patch_invoice, next_invoice_number,
  post_invoice, write_sent, send_invoice, write_void, void_invoice, delete_invoice, set_reverses,
  link_reversal,
}
use blyns_ops.Finance.Bills.{
  BillCreate, BillPatch, update_bill, create_bill, patch_bill, next_bill_number, post_bill,
  write_bill_sent, send_bill,
}
use blyns_ops.Finance.Payments.{
  PaymentCreate, payable_document, set_document, post_payment, record_payment, create_payment,
}
use blyns_ops.Finance.Books.{book_rules, write_activity-books, issue_if-books, reverse_all-books}
use blyns_ops.Finance.Requests.{
  Request, account_create, account_patch, account_delete, entry_create, invoice_create,
  invoice_patch, invoice_send, invoice_void, invoice_delete, bill_create, bill_patch, bill_send,
  payment_create, handle, serve,
}
use blyns_ops.Finance.Queries.{
  require_account-IsQuery, posting_account-IsQuery, parent_of-IsQuery, patched_parent-IsQuery,
  resolve_lines-IsQuery, require_invoice-IsQuery, require_bill-IsQuery, check_issue-IsQuery,
  invoice_lines-IsQuery, bill_lines-IsQuery, sendable_invoice-IsQuery, voidable_invoice-IsQuery,
  entry_to_reverse-IsQuery, sendable_bill-IsQuery, payable_document-IsQuery, payment_lines-IsQuery,
}

create_account-books :
    (pr : Principal) (x : AccountCreate) → Keeps HasBalancedBooks (create_account pr x)
unfolding create_account
create_account-books pr x = search (book_rules, parent_of-IsQuery) depth 16

create_entry-books :
    (pr : Principal) (x : JournalEntryCreate) → Keeps HasBalancedBooks (create_entry pr x)
unfolding create_entry
create_entry-books pr x = search (book_rules, resolve_lines-IsQuery, post_entry-Keeps)

patch_account-books :
    (pr : Principal) (raw : RawId) (x : AccountPatch)
    → Keeps HasBalancedBooks (patch_account pr raw x)
unfolding patch_account
patch_account-books pr raw x =
    search (book_rules, require_account-IsQuery, patched_parent-IsQuery) depth 16

drop_account-books : (pr : Principal) (a : Account) → Keeps HasBalancedBooks (drop_account pr a)
unfolding drop_account
drop_account-books pr a = search book_rules depth 16

delete_account-books :
    (pr : Principal) (raw : RawId) → Keeps HasBalancedBooks (delete_account pr raw)
delete_account-books pr raw =
    unfold delete_account in
    Keeps-bind (require_account raw) (drop_account pr)
      (Keeps-query (require_account raw) (require_account-IsQuery raw)) (drop_account-books pr)

update_invoice-books :
    (id : ℕ) (f : Document → Document) → Keeps HasBalancedBooks (update_invoice id f)
unfolding update_invoice
update_invoice-books id f = search book_rules

ruleset invoice_rules = (book_rules, require_invoice-IsQuery, update_invoice-books)

module _ (r : Rounding) (pr : Principal) where
  create_invoice-books : (x : InvoiceCreate) → Keeps HasBalancedBooks (create_invoice r pr x)
  unfolding create_invoice
  create_invoice-books x = search (invoice_rules, check_issue-IsQuery) depth 16

  patch_invoice-books :
      (raw : RawId) (x : InvoicePatch) → Keeps HasBalancedBooks (patch_invoice r pr raw x)
  unfolding patch_invoice
  patch_invoice-books raw x = search invoice_rules depth 16

post_invoice-books : (pr : Principal) (d : Document) → Keeps HasBalancedBooks (post_invoice pr d)
unfolding post_invoice
post_invoice-books pr d = search (book_rules, invoice_lines-IsQuery, post_entry-Keeps)

next_invoice_number-books : Keeps HasBalancedBooks next_invoice_number
unfolding next_invoice_number
next_invoice_number-books = record { at = λ s h. record { entries = h.entries } }

write_sent-books : (pr : Principal) (d : Document) → Keeps HasBalancedBooks (write_sent pr d)
unfolding write_sent
write_sent-books pr d =
    search
      (
        invoice_rules, next_invoice_number-books, issue_if-books, post_invoice-books,
        reverse_all-books,
      )
      depth 16

send_invoice-books : (pr : Principal) (raw : RawId) → Keeps HasBalancedBooks (send_invoice pr raw)
unfolding send_invoice
send_invoice-books pr raw = search (book_rules, sendable_invoice-IsQuery, write_sent-books)

link-All :
    (q : Entry → Bool) (o : ℕ) (es : List Entry)
    → All IsBalanced es
    → All IsBalanced (update_one q (set_reverses o) es)
link-All q o [] h = tt
link-All q o (e ∷ es) h = elim (Bool-cases (q e)) [
  | inl hit ↦
      rw hit (record { equal = h.0.equal; positive = h.0.positive; one_sided = h.0.one_sided }, h.1)
  | inr miss ↦ rw miss (h.0, link-All q o es h.1)
]

link_reversal-books :
    (reversal original : ℕ) → Keeps HasBalancedBooks (modify (link_reversal reversal original))
link_reversal-books reversal original = record {
  at = λ s h. record { entries = link-All (λ e. reversal == e.id) original s.journal h.entries };
}

write_void-books :
    (pr : Principal) (d : Document) (e : Entry) → Keeps HasBalancedBooks (write_void pr d e)
unfolding write_void
write_void-books pr d e =
    search
      (
        keeps_rules, write_activity-books, post_entry-Keeps, link_reversal-books,
        update_invoice-books,
      )
      depth 16

void_invoice-books : (pr : Principal) (raw : RawId) → Keeps HasBalancedBooks (void_invoice pr raw)
unfolding void_invoice
void_invoice-books pr raw =
    search (book_rules, voidable_invoice-IsQuery, entry_to_reverse-IsQuery, write_void-books)

delete_invoice-books :
    (pr : Principal) (raw : RawId) → Keeps HasBalancedBooks (delete_invoice pr raw)
unfolding delete_invoice
delete_invoice-books pr raw = search invoice_rules depth 16

update_bill-books : (id : ℕ) (f : Document → Document) → Keeps HasBalancedBooks (update_bill id f)
unfolding update_bill
update_bill-books id f = search book_rules

ruleset bill_rules = (book_rules, require_bill-IsQuery, update_bill-books)

module _ (r : Rounding) (pr : Principal) where
  create_bill-books : (x : BillCreate) → Keeps HasBalancedBooks (create_bill r pr x)
  unfolding create_bill
  create_bill-books x = search bill_rules depth 16

  patch_bill-books : (raw : RawId) (x : BillPatch) → Keeps HasBalancedBooks (patch_bill r pr raw x)
  unfolding patch_bill
  patch_bill-books raw x = search bill_rules depth 16

next_bill_number-books : Keeps HasBalancedBooks next_bill_number
unfolding next_bill_number
next_bill_number-books = record { at = λ s h. record { entries = h.entries } }

post_bill-books : (pr : Principal) (d : Document) → Keeps HasBalancedBooks (post_bill pr d)
unfolding post_bill
post_bill-books pr d = search (book_rules, bill_lines-IsQuery, post_entry-Keeps)

write_bill_sent-books :
    (pr : Principal) (d : Document) → Keeps HasBalancedBooks (write_bill_sent pr d)
unfolding write_bill_sent
write_bill_sent-books pr d = search (bill_rules, next_bill_number-books, post_bill-books) depth 16

send_bill-books : (pr : Principal) (raw : RawId) → Keeps HasBalancedBooks (send_bill pr raw)
unfolding send_bill
send_bill-books pr raw = search (book_rules, sendable_bill-IsQuery, write_bill_sent-books)

post_payment-books :
    (pr : Principal) (x : PaymentCreate) (d : Document)
    → Keeps HasBalancedBooks (post_payment pr x d)
unfolding post_payment
post_payment-books pr x d =
    search (book_rules, posting_account-IsQuery, payment_lines-IsQuery, post_entry-Keeps) depth 16

set_document-books :
    (t : DocType) (id : ℕ) (f : Document → Document)
    → Keeps HasBalancedBooks (modify (set_document t id f))
set_document-books DocType.invoice id f = search book_rules
set_document-books DocType.bill id f = search book_rules

record_payment-books :
    (pr : Principal) (x : PaymentCreate) (d : Document) (a : Account) (e : Entry)
    → Keeps HasBalancedBooks (record_payment pr x d (a, e))
unfolding record_payment
record_payment-books pr x d a e = search (set_document-books, book_rules) depth 16

create_payment-books :
    (pr : Principal) (x : PaymentCreate) → Keeps HasBalancedBooks (create_payment pr x)
create_payment-books pr x =
    unfold create_payment in
    Keeps-bind (payable_document x)
      (λ d. post_payment pr x d >>= λ posted. record_payment pr x d posted)
      (Keeps-query (payable_document x) (payable_document-IsQuery x))
      (λ d.
        Keeps-bind (post_payment pr x d) (record_payment pr x d) (post_payment-books pr x d)
          (λ posted. record_payment-books pr x d posted.0 posted.1))

module _ (r : Rounding) where
  handle-books :
      (pr : Principal) (q : Request) (s : Db)
      → HasBalancedBooks s
      → HasBalancedBooks (handle r pr q s)
  unfolding handle
  handle-books pr (account_create x) s h = (create_account-books pr x).at s h
  handle-books pr (account_patch id x) s h = (patch_account-books pr id x).at s h
  handle-books pr (account_delete id) s h = (delete_account-books pr id).at s h
  handle-books pr (entry_create x) s h = (create_entry-books pr x).at s h
  handle-books pr (invoice_create x) s h = (create_invoice-books r pr x).at s h
  handle-books pr (invoice_patch id x) s h = (patch_invoice-books r pr id x).at s h
  handle-books pr (invoice_send id) s h = (send_invoice-books pr id).at s h
  handle-books pr (invoice_void id) s h = (void_invoice-books pr id).at s h
  handle-books pr (invoice_delete id) s h = (delete_invoice-books pr id).at s h
  handle-books pr (bill_create x) s h = (create_bill-books r pr x).at s h
  handle-books pr (bill_patch id x) s h = (patch_bill-books r pr id x).at s h
  handle-books pr (bill_send id) s h = (send_bill-books pr id).at s h
  handle-books pr (payment_create x) s h = (create_payment-books pr x).at s h

  -- Whatever requests are made, refused ones and driver failures among them, a journal in which every
  -- entry balances stays one.
  pub serve-HasBalancedBooks :
      (qs : List (Principal × Request)) (s : Db)
      → HasBalancedBooks s
      → HasBalancedBooks (serve r qs s)
  unfolding serve
  serve-HasBalancedBooks [] s h = h
  serve-HasBalancedBooks ((pr, q) ∷ qs) s h =
      serve-HasBalancedBooks qs (handle r pr q s) (handle-books pr q s h)
