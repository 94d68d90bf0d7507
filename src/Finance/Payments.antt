-- ===== src/Finance/Payments.antt =====
-- Payments (backend/app/modules/finance/service.py, `create_payment`).
pub mod Settled
use blyns_ops.Prelude.{
  ℕ, ◌+◌, String, Bool, true, false, Option, some, List, [], ◌∷◌, not, ◌||◌, ltb, or_else,
  insert_one,
}
use blyns_ops.Tenant.{
  Db, Principal, Account, JournalLine, payment_entry, Entry, Document, DocType, Method, Payment,
  draft, void, RawId, Exec, pure, raise_if, modify, ◌>>=◌, ◌>>◌, domain_error, validation_error,
  new_id, write_activity,
}
use blyns_ops.Finance.Posting.{
  debit_line, credit_line, post_entry, posting_account, account_ar, account_ap, account_cash,
  account_bank,
}
use blyns_ops.Finance.Pricing.{status_for}
use blyns_ops.Finance.Invoices.{require_invoice, set_invoice, is_status}
use blyns_ops.Finance.Bills.{require_bill, set_bill}

pub data PaymentType : Type 0 where
  customer_payment vendor_payment : PaymentType

pub record PaymentCreate : Type 0 where
  pub type_ : PaymentType
  pub doc_type : DocType
  pub doc_id : RawId
  pub amount : ℕ
  pub date : Option ℕ
  pub method : Method

abbrev pub require_document : DocType → RawId → Exec Document
require_document DocType.invoice raw = require_invoice raw
require_document DocType.bill raw = require_bill raw

abbrev pub set_document : DocType → ℕ → (Document → Document) → Db → Db
set_document DocType.invoice id f s = set_invoice id f s
set_document DocType.bill id f s = set_bill id f s

-- An invoice takes a customer payment, a bill a vendor payment.
abbrev pub fits : DocType → PaymentType → Bool
fits DocType.invoice PaymentType.customer_payment = true
fits DocType.bill PaymentType.vendor_payment = true
fits _ _ = false

-- `METHOD_ACCOUNTS`
abbrev pub method_account : Method → String
method_account Method.cash = account_cash
method_account Method.bank = account_bank
method_account Method.other = account_cash

abbrev pub kind : DocType → String
kind DocType.invoice = "invoice"
kind DocType.bill = "bill"

-- The document that takes the payment: posted, and with as much outstanding. The test is
-- `amount > total - paid`, with `paid` on the other side.
unfoldable pub payable_document : PaymentCreate → Exec Document
payable_document x = do
  d ← require_document x.doc_type x.doc_id
  raise_if (not (fits x.doc_type x.type_)) (domain_error validation_error 422)
  raise_if (is_status d.status draft || is_status d.status void) (domain_error validation_error 409)
  raise_if (ltb d.total (d.paid_amount + x.amount)) (domain_error validation_error 422)
  pure d

unfoldable pub payment_lines : PaymentType → Account → ℕ → Exec (List JournalLine)
payment_lines PaymentType.customer_payment money amount = do
  ar ← posting_account account_ar
  pure (debit_line money amount ∷ credit_line ar amount ∷ [])
payment_lines PaymentType.vendor_payment money amount = do
  ap ← posting_account account_ap
  pure (debit_line ap amount ∷ credit_line money amount ∷ [])

abbrev pub new_payment : Principal → PaymentCreate → Document → Account → Entry → ℕ → Payment
new_payment pr x d money entry id = record {
  id = id;
  doc_type = x.doc_type;
  doc_id = d.id;
  amount = x.amount;
  date = or_else x.date pr.now;
  method = x.method;
  account_id = money.id;
  journal_entry_id = entry.id;
  created_by = pr.user_id;
}

-- `paid` and `total` are those that were read at the start.
abbrev pub mark_paid : Principal → ℕ → ℕ → Document → Document
mark_paid pr new_paid total d = record d {
  paid_amount = new_paid;
  status = status_for new_paid total;
  updated_by = some pr.user_id;
}

-- The journal entry of a payment.
unfoldable pub post_payment : Principal → PaymentCreate → Document → Exec (Account × Entry)
post_payment pr x d = do
  money ← posting_account (method_account x.method)
  lines ← payment_lines x.type_ money x.amount
  entry ← post_entry pr (or_else x.date pr.now) payment_entry (some d.id) lines
  pure (money, entry)

-- The row of the payment, and the document with the amount on it.
unfoldable pub record_payment :
    Principal → PaymentCreate → Document → Account × Entry → Exec Payment
record_payment pr x d (money, entry) = do
  id ← new_id
  modify (λ s. record s { payments = insert_one s.payments (new_payment pr x d money entry id) })
  modify (set_document x.doc_type d.id (mark_paid pr (d.paid_amount + x.amount) d.total))
  write_activity pr "finance.payment.recorded" (kind x.doc_type) d.id
  pure (new_payment pr x d money entry id)

unfoldable pub create_payment : Principal → PaymentCreate → Exec Payment
create_payment pr x = do
  d ← payable_document x
  posted ← post_payment pr x d
  record_payment pr x d posted
