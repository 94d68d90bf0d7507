-- ===== src/Tests/Books.antt =====
-- Tests of the finance module, and its theorems at concrete books.
use blyns_ops.Prelude.{
  ℕ, String, ◌+◌, ◌≡◌, refl, true, false, none, some, List, [], ◌∷◌, arith, map, if◌then◌else◌, ◌↔◌,
  ◌<◌, ◌≤◌,
}
use blyns_ops.Tenant.{
  new_id, write_activity, DocType, Method, ok, Db, Account, AccountType, JournalLine, Entry,
  invoice_entry, manual_entry, Document, Status, draft, sent, partly_paid, paid, err, domain_error,
  validation_error,
}
use blyns_ops.Finance.Posting.{post_entry, posting_account, account_tax}
use blyns_ops.Finance.Posting.Balance.{HasBalancedBooks, Enters, post_entry-Enters}
use blyns_ops.Finance.Accounts.{delete_account}
use blyns_ops.Finance.Accounts.Deletion.{Deletes, delete_account-Deletes}
use blyns_ops.Finance.Pricing.{Rounding, DocLine, price_line, price_loop, priced_lines, status_for}
use blyns_ops.Finance.Pricing.Totals.{AddsUp, priced_lines_sums, status_for_exact}
use blyns_ops.Finance.Invoices.{
  void_invoice, invoice_lines, InvoiceCreate, create_invoice, draft_document,
}
use blyns_ops.Finance.Invoices.Entries.{IsPostable, created_invoice-IsPostable}
use blyns_ops.Finance.Payments.{PaymentType, PaymentCreate, create_payment}
use blyns_ops.Finance.Payments.Settled.{Pays, create_payment-Pays}
use blyns_ops.Finance.Invoices.Voided.{Voids, void_invoice-Voids}
use blyns_ops.Finance.Bills.{
  send_bill, sendable_bill, require_bill, write_bill_sent, next_bill_number, post_bill, bill_lines,
}
use blyns_ops.Finance.Bills.Numbers.{is_ok, send_bill_numbers}
use blyns_ops.Finance.Requests.{invoice_void, invoice_send, serve}
use blyns_ops.Finance.Requests.Sound.{serve-HasBalancedBooks}
use blyns_ops.Finance.Reports.{trial_balance, balance_sheet}
use blyns_ops.Finance.Reports.Sums.{AllOnChart}
use blyns_ops.Finance.Reports.Balanced.{trial_balance_balanced, balance_sheet_balanced}
use blyns_ops.Finance.Aging.{AgingKind, documents_of, aging, buckets_total}
use blyns_ops.Finance.Aging.Totals.{open_total, open_count, buckets_count, aging_totals}
use blyns_ops.Tests.Fixtures.{user, empty_db, raw_id}

abbrev account_of : ℕ → String → AccountType → Account
account_of id code t = record {
  id = id;
  code = code;
  name = "Account";
  type_ = t;
  parent_id = none;
  is_active = true;
  is_deleted = false;
  updated_by = none;
}

-- An invoice of 120.00.
abbrev sale_lines : List JournalLine
sale_lines =
    record { account_id = 201; debit = 12000; credit = 0 }
    ∷ record { account_id = 202; debit = 0; credit = 12000 }
    ∷ []

abbrev posted : Entry
posted = record {
  id = 301;
  date = 500;
  source_module = invoice_entry;
  source_doc = some 401;
  lines = sale_lines;
  reverses = none;
  created_by = 7;
}

abbrev document_of : ℕ → Status → Document
document_of id status = record {
  id = id;
  number = none;
  party = "Acme";
  issue_date = 500;
  due_date = 600;
  lines = [];
  subtotal = 12000;
  tax_total = 0;
  total = 12000;
  paid_amount = 0;
  status = status;
  inventory_issue = false;
  warehouse_id = none;
  journal_entry_id = some 301;
  reversal_entry_id = none;
  movement_ids = [];
  is_deleted = false;
  updated_by = none;
}

-- One posted invoice, and one draft bill; the account for costs is missing.
abbrev books : Db
books = record empty_db {
  accounts =
      account_of 201 "1100" AccountType.asset ∷ account_of 202 "4000" AccountType.income ∷ [];
  journal = posted ∷ [];
  invoices = document_of 401 sent ∷ [];
  bills = document_of 501 draft ∷ [];
}

books-HasBalancedBooks : HasBalancedBooks books
books-HasBalancedBooks = record {
  entries = (record { equal = refl; positive = omega arith; one_sided = refl }, tt);
}

books-AllOnChart : AllOnChart books
books-AllOnChart = ((refl, (refl, tt)), tt)

abbrev rounding : Rounding
rounding = record {
  line_amount = λ qty price. qty + price;
  line_tax = λ amount rate. rate;
  cents = λ price. price;
}

abbrev service : DocLine
service = record {
  description = "Service";
  qty = 1;
  unit_price = 9999;
  tax_rate = 20;
  product_id = none;
}

post_entry-Enters_example :
    Enters user 500 manual_entry none sale_lines books
      (post_entry user 500 manual_entry none sale_lines books)
post_entry-Enters_example = post_entry-Enters user 500 manual_entry none sale_lines books

serve-HasBalancedBooks_example : HasBalancedBooks (
    serve rounding
      ((user, invoice_void (raw_id "191" 401)) ∷ (user, invoice_send (raw_id "191" 401)) ∷ [])
      books)
serve-HasBalancedBooks_example =
    serve-HasBalancedBooks rounding
      ((user, invoice_void (raw_id "191" 401)) ∷ (user, invoice_send (raw_id "191" 401)) ∷ []) books
      books-HasBalancedBooks

trial_balance_balanced_example :
    ((trial_balance none none books).debit_total ≡ (trial_balance none none books).credit_total)
    × ((trial_balance none none books).balanced ≡ true)
trial_balance_balanced_example =
    trial_balance_balanced none none books books-HasBalancedBooks books-AllOnChart

balance_sheet_balanced_example :
    ((balance_sheet none books).assets_total
      ≡ (balance_sheet none books).liabilities_and_equity_total)
    × ((balance_sheet none books).balanced ≡ true)
balance_sheet_balanced_example =
    balance_sheet_balanced none books books-HasBalancedBooks books-AllOnChart

void_invoice-Voids_example :
    Voids (raw_id "191" 401) books (void_invoice user (raw_id "191" 401) books)
void_invoice-Voids_example = void_invoice-Voids user (raw_id "191" 401) books

delete_account-Deletes_example :
    Deletes (raw_id "c9" 201) books (delete_account user (raw_id "c9" 201) books)
delete_account-Deletes_example = delete_account-Deletes user (raw_id "c9" 201) books

send_bill_numbers_example : (send_bill user (raw_id "1f5" 501) books).1.bill_seq ≡ (
    if is_ok (sendable_bill (raw_id "1f5" 501) books).0 then books.bill_seq + 1 else books.bill_seq)
send_bill_numbers_example = send_bill_numbers user (raw_id "1f5" 501) books

-- The send raises, as the account for costs is missing, and the number is gone.
lost_number :
    let (r, s) = send_bill user (raw_id "1f5" 501) books in
    (r ≡ err (domain_error validation_error 409)) × (s.bill_seq ≡ 1)
unfolding send_bill sendable_bill require_bill write_bill_sent next_bill_number post_bill bill_lines
    posting_account
lost_number = (refl, refl)

priced_lines_sums_example :
    ((priced_lines rounding (service ∷ [])).lines ≡ map (price_line rounding) (service ∷ []))
    × AddsUp 0 0 (priced_lines rounding (service ∷ []))
priced_lines_sums_example = priced_lines_sums rounding (service ∷ [])

abbrev part : ℕ
part = 500

status_for_exact_example :
    (status_for part 12000 ≡ sent ↔ part ≡ 0)
    × (status_for part 12000 ≡ partly_paid ↔ (0 < part) × (part < 12000))
    × (status_for part 12000 ≡ paid ↔ 12000 ≤ part)
status_for_exact_example = status_for_exact part 12000 (omega arith)

aging_totals_example :
    ((aging 1000 AgingKind.ar books).total ≡ open_total (documents_of AgingKind.ar books))
    × (buckets_total (aging 1000 AgingKind.ar books).buckets
        ≡ open_total (documents_of AgingKind.ar books))
    × (buckets_count (aging 1000 AgingKind.ar books).buckets
        ≡ open_count (documents_of AgingKind.ar books))
aging_totals_example = aging_totals 1000 AgingKind.ar books

abbrev small_payment : PaymentCreate
small_payment = record {
  type_ = PaymentType.customer_payment;
  doc_type = DocType.invoice;
  doc_id = raw_id "191" 401;
  amount = 500;
  date = none;
  method = Method.cash;
}

create_payment-Pays_example :
    Pays user small_payment books (create_payment user small_payment books)
create_payment-Pays_example = create_payment-Pays user small_payment books

-- The invoice that is made for the line.
abbrev new_sale : InvoiceCreate
new_sale = record {
  customer = "Acme";
  issue_date = none;
  due_date = 600;
  lines = service ∷ [];
  inventory_issue = false;
  warehouse_id = none;
}

abbrev drafted : Document
drafted = draft_document user "Acme" none 600 (priced_lines rounding (service ∷ [])) false none 100

drafted_sale :
    create_invoice rounding user new_sale books
    ≡ (ok drafted, (create_invoice rounding user new_sale books).1)
unfolding create_invoice new_id write_activity
drafted_sale = refl

has_value : 0 < drafted.total
unfolding priced_lines price_loop
has_value = omega arith

abbrev drafted_lines : List JournalLine
drafted_lines =
    record { account_id = 201; debit = drafted.total; credit = 0 }
    ∷ record { account_id = 202; debit = 0; credit = drafted.subtotal }
    ∷ record { account_id = 203; debit = 0; credit = drafted.tax_total }
    ∷ []

-- The books with an account for taxes.
abbrev taxed_books : Db
taxed_books = record books {
  accounts =
      account_of 201 "1100" AccountType.asset
      ∷ account_of 202 "4000" AccountType.income
      ∷ account_of 203 account_tax AccountType.liability
      ∷ [];
}

posts_three : (invoice_lines drafted taxed_books).0 ≡ ok drafted_lines
unfolding invoice_lines posting_account priced_lines price_loop
posts_three = refl

created_invoice-IsPostable_example : IsPostable drafted_lines
created_invoice-IsPostable_example =
    created_invoice-IsPostable rounding user new_sale books
      (create_invoice rounding user new_sale books).1 taxed_books drafted drafted_lines drafted_sale
      has_value posts_three
