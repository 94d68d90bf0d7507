-- ===== src/Finance/Requests.antt =====
-- The state-changing requests of the finance module, and a server that answers them one by one: an
-- error ends its own request alone (backend/app/modules/finance/router.py).
pub mod Sound
use blyns_ops.Prelude.{List, [], ◌∷◌}
use blyns_ops.Tenant.{Db, Principal, RawId, Exec, Result}
use blyns_ops.Finance.Accounts.{
  AccountCreate, AccountPatch, JournalEntryCreate, create_account, patch_account, delete_account,
  create_entry,
}
use blyns_ops.Finance.Pricing.{Rounding}
use blyns_ops.Finance.Invoices.{
  InvoiceCreate, InvoicePatch, create_invoice, patch_invoice, send_invoice, void_invoice,
  delete_invoice,
}
use blyns_ops.Finance.Bills.{BillCreate, BillPatch, create_bill, patch_bill, send_bill}
use blyns_ops.Finance.Payments.{PaymentCreate, create_payment}

pub data Request : Type 0 where
  account_create : AccountCreate → Request
  account_patch : RawId → AccountPatch → Request
  account_delete : RawId → Request
  entry_create : JournalEntryCreate → Request
  invoice_create : InvoiceCreate → Request
  invoice_patch : RawId → InvoicePatch → Request
  invoice_send : RawId → Request
  invoice_void : RawId → Request
  invoice_delete : RawId → Request
  bill_create : BillCreate → Request
  bill_patch : RawId → BillPatch → Request
  bill_send : RawId → Request
  payment_create : PaymentCreate → Request

module _ (r : Rounding) where
  -- The database after a request, whether it was answered or refused.
  unfoldable pub handle : Principal → Request → Db → Db
  handle pr (account_create x) s = (create_account pr x s).1
  handle pr (account_patch id x) s = (patch_account pr id x s).1
  handle pr (account_delete id) s = (delete_account pr id s).1
  handle pr (entry_create x) s = (create_entry pr x s).1
  handle pr (invoice_create x) s = (create_invoice r pr x s).1
  handle pr (invoice_patch id x) s = (patch_invoice r pr id x s).1
  handle pr (invoice_send id) s = (send_invoice pr id s).1
  handle pr (invoice_void id) s = (void_invoice pr id s).1
  handle pr (invoice_delete id) s = (delete_invoice pr id s).1
  handle pr (bill_create x) s = (create_bill r pr x s).1
  handle pr (bill_patch id x) s = (patch_bill r pr id x s).1
  handle pr (bill_send id) s = (send_bill pr id s).1
  handle pr (payment_create x) s = (create_payment pr x s).1

  unfoldable pub serve : List (Principal × Request) → Db → Db
  unfolding handle
  serve [] s = s
  serve ((pr, q) ∷ qs) s = serve qs (handle pr q s)
