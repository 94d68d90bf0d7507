-- ===== src/Finance/Queries.antt =====
-- The actions of the module that write nothing.
use blyns_ops.Prelude.{ℕ, String, Bool, true, false, Option, none, some, List, [], ◌∷◌}
use blyns_ops.Tenant.{PricedLine, Document, Account, JournalLine, DocType, RawId, ◌>>=◌, pure}
use blyns_ops.Tenant.Rules.{IsQuery, IsQuery-bind, query_rules}
use blyns_ops.Finance.Posting.{require_account, posting_account}
use blyns_ops.Finance.Accounts.{LineInput, parent_of, patched_parent, resolve_lines}
use blyns_ops.Finance.Invoices.{
  require_invoice, sendable_invoice, invoice_lines, voidable_invoice, entry_to_reverse, check_issue,
  tax_lines,
}
use blyns_ops.Finance.Bills.{require_bill, sendable_bill, bill_lines}
use blyns_ops.Finance.Payments.{
  PaymentCreate, payable_document, require_document, payment_lines, PaymentType,
}
use blyns_ops.Finance.Books.{validate_issue_lines-IsQuery}

pub require_account-IsQuery : (raw : RawId) → IsQuery (require_account raw)
unfolding require_account
require_account-IsQuery raw = search query_rules

pub posting_account-IsQuery : (code : String) → IsQuery (posting_account code)
unfolding posting_account
posting_account-IsQuery code = search query_rules

pub parent_of-IsQuery : (o : Option RawId) → IsQuery (parent_of o)
unfolding parent_of
parent_of-IsQuery none = search query_rules
parent_of-IsQuery (some raw) = search (query_rules, require_account-IsQuery)

pub patched_parent-IsQuery : (o : Option RawId) → IsQuery (patched_parent o)
unfolding patched_parent
patched_parent-IsQuery none = search query_rules
patched_parent-IsQuery (some raw) = search query_rules

pub resolve_lines-IsQuery : (ls : List LineInput) → IsQuery (resolve_lines ls)
unfolding resolve_lines
resolve_lines-IsQuery [] = search query_rules
resolve_lines-IsQuery (l ∷ ls) =
    IsQuery-bind (require_account l.account_id)
      (λ a. resolve_lines ls >>= λ rest.
        pure (record { account_id = a.id; debit = l.debit; credit = l.credit } ∷ rest))
      (require_account-IsQuery l.account_id)
      (λ a.
        IsQuery-bind (resolve_lines ls)
          (λ rest. pure (record { account_id = a.id; debit = l.debit; credit = l.credit } ∷ rest))
          (resolve_lines-IsQuery ls) (λ rest. search query_rules))

pub require_invoice-IsQuery : (raw : RawId) → IsQuery (require_invoice raw)
unfolding require_invoice
require_invoice-IsQuery raw = search query_rules

pub require_bill-IsQuery : (raw : RawId) → IsQuery (require_bill raw)
unfolding require_bill
require_bill-IsQuery raw = search query_rules

pub check_issue-IsQuery :
    (b : Bool) (ls : List PricedLine) (w : Option RawId) → IsQuery (check_issue b ls w)
check_issue-IsQuery true ls w = validate_issue_lines-IsQuery ls w
check_issue-IsQuery false ls w = search query_rules

pub tax_lines-IsQuery : (b : Bool) (f : Account → JournalLine) → IsQuery (tax_lines b f)
tax_lines-IsQuery true f = search (query_rules, posting_account-IsQuery)
tax_lines-IsQuery false f = search query_rules

pub invoice_lines-IsQuery : (d : Document) → IsQuery (invoice_lines d)
unfolding invoice_lines
invoice_lines-IsQuery d = search (query_rules, posting_account-IsQuery, tax_lines-IsQuery) depth 16

pub bill_lines-IsQuery : (d : Document) → IsQuery (bill_lines d)
unfolding bill_lines
bill_lines-IsQuery d = search (query_rules, posting_account-IsQuery, tax_lines-IsQuery) depth 16

pub sendable_invoice-IsQuery : (raw : RawId) → IsQuery (sendable_invoice raw)
unfolding sendable_invoice
sendable_invoice-IsQuery raw = search (query_rules, require_invoice-IsQuery) depth 16

pub voidable_invoice-IsQuery : (raw : RawId) → IsQuery (voidable_invoice raw)
unfolding voidable_invoice
voidable_invoice-IsQuery raw = search (query_rules, require_invoice-IsQuery) depth 16

pub entry_to_reverse-IsQuery : (d : Document) → IsQuery (entry_to_reverse d)
unfolding entry_to_reverse
entry_to_reverse-IsQuery d = search query_rules

pub sendable_bill-IsQuery : (raw : RawId) → IsQuery (sendable_bill raw)
unfolding sendable_bill
sendable_bill-IsQuery raw = search (query_rules, require_bill-IsQuery) depth 16

pub require_document-IsQuery : (t : DocType) (raw : RawId) → IsQuery (require_document t raw)
require_document-IsQuery DocType.invoice raw = require_invoice-IsQuery raw
require_document-IsQuery DocType.bill raw = require_bill-IsQuery raw

pub payable_document-IsQuery : (x : PaymentCreate) → IsQuery (payable_document x)
unfolding payable_document
payable_document-IsQuery x = search (query_rules, require_document-IsQuery) depth 16

pub payment_lines-IsQuery : (t : PaymentType) (a : Account) (n : ℕ) → IsQuery (payment_lines t a n)
unfolding payment_lines
payment_lines-IsQuery PaymentType.customer_payment a n =
    search (query_rules, posting_account-IsQuery)
payment_lines-IsQuery PaymentType.vendor_payment a n = search (query_rules, posting_account-IsQuery)
