-- ===== src/Finance/Invoices.antt =====
-- Invoices (backend/app/modules/finance/service.py). Notes and currency are left out.
pub mod Voided
pub mod Entries
use blyns_ops.Prelude.{
  ℕ, ◌+◌, String, Bool, true, false, Option, none, some, List, [], ◌∷◌, not, ◌&&◌, ◌||◌, ◌==◌, ltb,
  is_some, or_else, if◌then◌else◌, find_one, insert_one, update_one,
}
use blyns_ops.Tenant.{
  Db, Principal, Account, JournalLine, Entry, SourceModule, invoice_entry, PricedLine, Document,
  Status, draft, sent, void, RawId, Exec, Result, ok, err, pure, reads, or_raise, or_undo, raise_if,
  modify, ◌>>=◌, ◌>>◌, domain_error, tenant_not_found, validation_error, assertion_failed, new_id,
  oid, write_activity,
}
use blyns_ops.Finance.Posting.{
  debit_line, credit_line, post_entry, posting_account, account_ar, account_income, account_tax,
}
use blyns_ops.Finance.Pricing.{Rounding, DocLine, Priced, priced_lines}
use blyns_ops.Finance.Issues.{validate_issue_lines, issue_stock_for, reverse_all}

pub record InvoiceCreate : Type 0 where
  pub customer : String
  pub issue_date : Option ℕ
  pub due_date : ℕ
  pub lines : List DocLine
  pub inventory_issue : Bool
  pub warehouse_id : Option RawId

pub record InvoicePatch : Type 0 where
  pub customer : Option String
  pub issue_date : Option ℕ
  pub due_date : Option ℕ
  pub lines : Option (List DocLine)
  pub inventory_issue : Option Bool
  pub warehouse_id : Option RawId

-- A new draft, of an invoice or of a bill.
abbrev pub draft_document :
    Principal → String → Option ℕ → ℕ → Priced → Bool → Option RawId → ℕ → Document
draft_document pr party issue_date due_date priced inventory_issue warehouse id = record {
  id = id;
  number = none;
  party = party;
  issue_date = or_else issue_date pr.now;
  due_date = due_date;
  lines = priced.lines;
  subtotal = priced.subtotal;
  tax_total = priced.tax_total;
  total = priced.total;
  paid_amount = 0;
  status = draft;
  inventory_issue = inventory_issue;
  warehouse_id = warehouse;
  journal_entry_id = none;
  reversal_entry_id = none;
  movement_ids = [];
  is_deleted = false;
  updated_by = none;
}

abbrev pub find_document : ℕ → List Document → Option Document
find_document id docs = find_one (λ (d : Document). id == d.id && not d.is_deleted) docs

unfoldable pub require_invoice : RawId → Exec Document
unfolding oid
require_invoice raw = do
  id ← reads (λ s. oid raw)
  reads (λ s. or_raise (find_document id s.invoices) (domain_error tenant_not_found 404))

-- `repo.update(db, repo.INVOICES, …)`
abbrev pub set_invoice : ℕ → (Document → Document) → Db → Db
set_invoice id f s = record s { invoices = update_one (λ d. id == d.id) f s.invoices }

unfoldable pub update_invoice : ℕ → (Document → Document) → Exec Document
update_invoice id f = do
  modify (set_invoice id f)
  reads (λ s. or_raise (find_document id s.invoices) assertion_failed)

abbrev pub is_status : Status → Status → Bool
is_status Status.draft Status.draft = true
is_status Status.sent Status.sent = true
is_status Status.partly_paid Status.partly_paid = true
is_status Status.paid Status.paid = true
is_status Status.void Status.void = true
is_status _ _ = false

abbrev pub check_issue : Bool → List PricedLine → Option RawId → Exec Unit
check_issue true lines warehouse = validate_issue_lines lines warehouse
check_issue false lines warehouse = pure tt

module _ (r : Rounding) (pr : Principal) where
  unfoldable pub create_invoice : InvoiceCreate → Exec Document
  create_invoice x = do
    check_issue x.inventory_issue (priced_lines r x.lines).lines x.warehouse_id
    id ← new_id
    let doc =
        draft_document pr x.customer x.issue_date x.due_date (priced_lines r x.lines)
          x.inventory_issue x.warehouse_id id
    modify (λ s. record s { invoices = insert_one s.invoices doc })
    write_activity pr "finance.invoice.created" "invoice" id
    pure doc

  -- New lines come with new totals.
  abbrev pub set_lines : Option (List DocLine) → Document → Document
  set_lines none d = d
  set_lines (some ls) d = record d {
    lines = (priced_lines r ls).lines;
    subtotal = (priced_lines r ls).subtotal;
    tax_total = (priced_lines r ls).tax_total;
    total = (priced_lines r ls).total;
  }

  abbrev keep_raw : Option RawId → Option RawId → Option RawId
  keep_raw none old = old
  keep_raw (some v) old = some v

  abbrev pub patch_fields : InvoicePatch → Document → Document
  patch_fields x d = record (set_lines x.lines d) {
    party = or_else x.customer d.party;
    issue_date = or_else x.issue_date d.issue_date;
    due_date = or_else x.due_date d.due_date;
    inventory_issue = or_else x.inventory_issue d.inventory_issue;
    warehouse_id = keep_raw x.warehouse_id d.warehouse_id;
    updated_by = some pr.user_id;
  }

  abbrev nothing_set : InvoicePatch → Bool
  nothing_set x = not (
      is_some x.customer
      || is_some x.issue_date
      || is_some x.due_date
      || is_some x.lines
      || is_some x.inventory_issue
      || is_some x.warehouse_id)

  abbrev write_invoice_patch : ℕ → InvoicePatch → Exec Document
  write_invoice_patch id x = do
    updated ← update_invoice id (patch_fields x)
    write_activity pr "finance.invoice.updated" "invoice" id
    pure updated

  unfoldable pub patch_invoice : RawId → InvoicePatch → Exec Document
  patch_invoice raw x = do
    d ← require_invoice raw
    raise_if (not (is_status d.status draft)) (domain_error validation_error 409)
    if nothing_set x then pure d else write_invoice_patch d.id x

-- The invoice that may be sent: a draft with a value.
unfoldable pub sendable_invoice : RawId → Exec Document
sendable_invoice raw = do
  d ← require_invoice raw
  raise_if (not (is_status d.status draft)) (domain_error validation_error 409)
  raise_if (d.total == 0) (domain_error validation_error 422)
  pure d

-- `next_number(db, "invoice", "INV")`
unfoldable pub next_invoice_number : Exec ℕ
next_invoice_number s = (ok (s.invoice_seq + 1), record s { invoice_seq = s.invoice_seq + 1 })

-- A tax line is written only for a tax that is not zero.
abbrev pub tax_lines : Bool → (Account → JournalLine) → Exec (List JournalLine)
tax_lines true line = do tax ← posting_account account_tax; pure (line tax ∷ [])
tax_lines false line = pure []

unfoldable pub invoice_lines : Document → Exec (List JournalLine)
invoice_lines d = do
  ar ← posting_account account_ar
  income ← posting_account account_income
  tax ← tax_lines (ltb 0 d.tax_total) (λ a. credit_line a d.tax_total)
  pure (debit_line ar d.total ∷ credit_line income d.subtotal ∷ tax)

unfoldable pub post_invoice : Principal → Document → Exec Entry
post_invoice pr d = do
  lines ← invoice_lines d
  post_entry pr d.issue_date invoice_entry (some d.id) lines

abbrev pub issue_if : Bool → Principal → Document → Exec (List ℕ)
issue_if true pr d = do validate_issue_lines d.lines d.warehouse_id; issue_stock_for pr d
issue_if false pr d = pure []

abbrev pub mark_sent : Principal → ℕ → ℕ → List ℕ → Document → Document
mark_sent pr number entry movements d = record d {
  number = some number;
  status = sent;
  journal_entry_id = some entry;
  movement_ids = movements;
  updated_by = some pr.user_id;
}

-- The number is claimed, the stock is issued, the entry is posted; a posting that raises reverses
-- the issues.
unfoldable pub write_sent : Principal → Document → Exec Document
write_sent pr d = do
  number ← next_invoice_number
  movements ← issue_if d.inventory_issue pr d
  entry ← or_undo (post_invoice pr d) (reverse_all movements)
  updated ← update_invoice d.id (mark_sent pr number entry.id movements)
  write_activity pr "finance.invoice.sent" "invoice" d.id
  pure updated

unfoldable pub send_invoice : Principal → RawId → Exec Document
send_invoice pr raw = do d ← sendable_invoice raw; write_sent pr d

-- The invoice that may be voided: posted, and without payments.
unfoldable pub voidable_invoice : RawId → Exec Document
voidable_invoice raw = do
  d ← require_invoice raw
  raise_if (is_status d.status void) (domain_error validation_error 409)
  raise_if (is_status d.status draft) (domain_error validation_error 409)
  raise_if (ltb 0 d.paid_amount) (domain_error validation_error 409)
  pure d

abbrev pub has_id : ℕ → Option ℕ → Bool
has_id id none = false
has_id id (some n) = id == n

abbrev is_invoice_source : SourceModule → Bool
is_invoice_source SourceModule.invoice_entry = true
is_invoice_source _ = false

-- The query `{"source.module": "invoice", "source.doc_id": id, "reverses": None}`
abbrev pub original_of : ℕ → Entry → Bool
original_of id e =
    is_invoice_source e.source_module && has_id id e.source_doc && not (is_some e.reverses)

abbrev or_find : Option Entry → Option ℕ → List Entry → Option Entry
or_find (some e) id journal = some e
or_find none none journal = none
or_find none (some id) journal = find_one (λ (e : Entry). id == e.id) journal

-- The entry to reverse: by its source, or else by the id that the invoice keeps.
unfoldable pub entry_to_reverse : Document → Exec Entry
entry_to_reverse d = reads (λ s.
    or_raise (or_find (find_one (original_of d.id) s.journal) d.journal_entry_id s.journal)
      (domain_error validation_error 409))

-- Debits and credits change places.
abbrev pub reversed_lines : List JournalLine → List JournalLine
reversed_lines [] = []
reversed_lines (l ∷ ls) =
    record { account_id = l.account_id; debit = l.credit; credit = l.debit } ∷ reversed_lines ls

abbrev pub set_reverses : ℕ → Entry → Entry
set_reverses original e = record e { reverses = some original }

abbrev pub mark_void : Principal → ℕ → Document → Document
mark_void pr reversal d = record d {
  status = void;
  reversal_entry_id = some reversal;
  updated_by = some pr.user_id;
}

abbrev pub link_reversal : ℕ → ℕ → Db → Db
link_reversal reversal original s = record s {
  journal = update_one (λ e. reversal == e.id) (set_reverses original) s.journal;
}

-- The rest of `void_invoice`, once the invoice and its entry are found.
unfoldable pub write_void : Principal → Document → Entry → Exec Document
write_void pr d entry = do
  reversal ← post_entry pr pr.now invoice_entry (some d.id) (reversed_lines entry.lines)
  modify (link_reversal reversal.id entry.id)
  updated ← update_invoice d.id (mark_void pr reversal.id)
  write_activity pr "finance.invoice.voided" "invoice" d.id
  pure updated

unfoldable pub void_invoice : Principal → RawId → Exec Document
void_invoice pr raw = do d ← voidable_invoice raw; entry ← entry_to_reverse d; write_void pr d entry

unfoldable pub delete_invoice : Principal → RawId → Exec Unit
delete_invoice pr raw = do
  d ← require_invoice raw
  raise_if (not (is_status d.status draft)) (domain_error validation_error 409)
  modify (set_invoice d.id (λ x. record x { is_deleted = true; updated_by = some pr.user_id }))
  write_activity pr "finance.invoice.deleted" "invoice" d.id
