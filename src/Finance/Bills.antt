-- ===== src/Finance/Bills.antt =====
-- Bills, the mirror of invoices (backend/app/modules/finance/service.py). Notes and currency are left
-- out.
pub mod Numbers
use blyns_ops.Prelude.{
  ℕ, ◌+◌, String, Bool, true, false, Option, none, some, List, [], ◌∷◌, ◌++◌, not, ◌||◌, ◌==◌, ltb,
  is_some, or_else, if◌then◌else◌, insert_one, update_one,
}
use blyns_ops.Tenant.{
  Db, Principal, JournalLine, Entry, bill_entry, Document, draft, sent, RawId, Exec, ok, pure,
  reads, or_raise, raise_if, modify, ◌>>=◌, ◌>>◌, domain_error, tenant_not_found, validation_error,
  assertion_failed, new_id, oid, write_activity,
}
use blyns_ops.Finance.Posting.{
  debit_line, credit_line, post_entry, posting_account, account_ap, account_cogs,
}
use blyns_ops.Finance.Pricing.{Rounding, DocLine, priced_lines}
use blyns_ops.Finance.Invoices.{
  draft_document, find_document, is_status, set_lines, tax_lines, mark_sent,
}

pub record BillCreate : Type 0 where
  pub vendor : String
  pub issue_date : Option ℕ
  pub due_date : ℕ
  pub lines : List DocLine

pub record BillPatch : Type 0 where
  pub vendor : Option String
  pub issue_date : Option ℕ
  pub due_date : Option ℕ
  pub lines : Option (List DocLine)

unfoldable pub require_bill : RawId → Exec Document
unfolding oid
require_bill raw = do
  id ← reads (λ s. oid raw)
  reads (λ s. or_raise (find_document id s.bills) (domain_error tenant_not_found 404))

abbrev pub set_bill : ℕ → (Document → Document) → Db → Db
set_bill id f s = record s { bills = update_one (λ d. id == d.id) f s.bills }

unfoldable pub update_bill : ℕ → (Document → Document) → Exec Document
update_bill id f = do
  modify (set_bill id f)
  reads (λ s. or_raise (find_document id s.bills) assertion_failed)

module _ (r : Rounding) (pr : Principal) where
  unfoldable pub create_bill : BillCreate → Exec Document
  create_bill x = do
    id ← new_id
    let doc =
        draft_document pr x.vendor x.issue_date x.due_date (priced_lines r x.lines) false none id
    modify (λ s. record s { bills = insert_one s.bills doc })
    write_activity pr "finance.bill.created" "bill" id
    pure doc

  abbrev pub patch_bill_fields : BillPatch → Document → Document
  patch_bill_fields x d = record (set_lines r pr x.lines d) {
    party = or_else x.vendor d.party;
    issue_date = or_else x.issue_date d.issue_date;
    due_date = or_else x.due_date d.due_date;
    updated_by = some pr.user_id;
  }

  abbrev nothing_set : BillPatch → Bool
  nothing_set x =
      not (is_some x.vendor || is_some x.issue_date || is_some x.due_date || is_some x.lines)

  abbrev write_bill_patch : ℕ → BillPatch → Exec Document
  write_bill_patch id x = do
    updated ← update_bill id (patch_bill_fields x)
    write_activity pr "finance.bill.updated" "bill" id
    pure updated

  unfoldable pub patch_bill : RawId → BillPatch → Exec Document
  patch_bill raw x = do
    d ← require_bill raw
    raise_if (not (is_status d.status draft)) (domain_error validation_error 409)
    if nothing_set x then pure d else write_bill_patch d.id x

unfoldable pub sendable_bill : RawId → Exec Document
sendable_bill raw = do
  d ← require_bill raw
  raise_if (not (is_status d.status draft)) (domain_error validation_error 409)
  raise_if (d.total == 0) (domain_error validation_error 422)
  pure d

-- `next_number(db, "bill", "BILL")`
unfoldable pub next_bill_number : Exec ℕ
next_bill_number s = (ok (s.bill_seq + 1), record s { bill_seq = s.bill_seq + 1 })

unfoldable pub bill_lines : Document → Exec (List JournalLine)
bill_lines d = do
  cogs ← posting_account account_cogs
  ap ← posting_account account_ap
  tax ← tax_lines (ltb 0 d.tax_total) (λ a. debit_line a d.tax_total)
  pure (debit_line cogs d.subtotal ∷ tax ++ (credit_line ap d.total ∷ []))

unfoldable pub post_bill : Principal → Document → Exec Entry
post_bill pr d = do lines ← bill_lines d; post_entry pr d.issue_date bill_entry (some d.id) lines

abbrev pub mark_bill_sent : Principal → ℕ → ℕ → Document → Document
mark_bill_sent pr number entry d = record d {
  number = some number;
  status = sent;
  journal_entry_id = some entry;
  updated_by = some pr.user_id;
}

unfoldable pub write_bill_sent : Principal → Document → Exec Document
write_bill_sent pr d = do
  number ← next_bill_number
  entry ← post_bill pr d
  updated ← update_bill d.id (mark_bill_sent pr number entry.id)
  write_activity pr "finance.bill.sent" "bill" d.id
  pure updated

unfoldable pub send_bill : Principal → RawId → Exec Document
send_bill pr raw = do d ← sendable_bill raw; write_bill_sent pr d
