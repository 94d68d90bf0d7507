-- ===== src/Finance/Invoices/Entries.antt =====
-- The lines that `send_invoice` posts, against the checks of `_post_entry`
-- (backend/app/modules/finance/service.py).
use blyns_ops.Prelude.{
  ◌+◌, ◌<◌, ◌≡◌, refl, ap, ℕ, insert_one, subst, Bool, true, false, List, [], ◌∷◌, arith, ltb,
  any_of,
}
use blyns_ops.Tenant.{
  Db, Account, JournalLine, Document, Result, ok, Exec, Principal, pure, modify, new_id,
  write_activity, ◌>>=◌, ◌>>◌,
}
use blyns_ops.Tenant.Rules.{bind_rule, same_ok}
use blyns_ops.Finance.Posting.{
  sum_debit, sum_credit, two_sided, credit_line, debit_line, posting_account, account_ar,
  account_income, account_tax,
}
use blyns_ops.Finance.Pricing.{Rounding, priced_lines}
use blyns_ops.Finance.Pricing.Totals.{priced_lines_sums}
use blyns_ops.Finance.Invoices.{
  InvoiceCreate, draft_document, check_issue, create_invoice, tax_lines, invoice_lines,
}

-- Lines that `post_entry` does not refuse.
pub record IsPostable (ls : List JournalLine) : Type 0 where
  pub equal : sum_debit ls ≡ sum_credit ls
  pub positive : 0 < sum_debit ls
  pub one_sided : any_of two_sided ls ≡ false

abbrev Postable : Result (List JournalLine) × Db → Type 0
Postable rs = (ls : List JournalLine) → rs.0 ≡ ok ls → IsPostable ls

module _ (d : Document) (added : d.total ≡ d.subtotal + d.tax_total) (value : 0 < d.total) where
  taxed-IsPostable :
      (ar income tax : Account)
      → IsPostable
          (debit_line ar d.total ∷ credit_line income d.subtotal ∷ credit_line tax d.tax_total ∷ [])
  taxed-IsPostable ar income tax = record {
    equal = omega (arith, added);
    positive = omega (arith, value);
    one_sided = ground (arith, added);
  }

  untaxed-IsPostable :
      (ar income : Account)
      → ltb 0 d.tax_total ≡ false
      → IsPostable (debit_line ar d.total ∷ credit_line income d.subtotal ∷ [])
  untaxed-IsPostable ar income none = record {
    equal = ground (arith, added, none);
    positive = omega (arith, value);
    one_sided = ground (arith, added);
  }

  -- The lines of an invoice with the tax lines behind them.
  abbrev WithTax : Account → Account → Result (List JournalLine) × Db → Type 0
  WithTax ar income rs =
      (tax : List JournalLine)
      → rs.0 ≡ ok tax
      → IsPostable (debit_line ar d.total ∷ credit_line income d.subtotal ∷ tax)

  tax_lines-WithTax :
      (ar income : Account) (b : Bool) (s : Db)
      → ltb 0 d.tax_total ≡ b
      → WithTax ar income (tax_lines b (λ a. credit_line a d.tax_total) s)
  tax_lines-WithTax ar income true s h =
      bind_rule (WithTax ar income) (posting_account account_tax)
        (λ a. pure (credit_line a d.tax_total ∷ [])) s (λ e _ tax k. cc)
        (λ a _ tax k.
          subst
            (λ (ls : List JournalLine).
              IsPostable (debit_line ar d.total ∷ credit_line income d.subtotal ∷ ls))
            (same_ok k) (taxed-IsPostable ar income a))
  tax_lines-WithTax ar income false s h = λ tax k.
      subst
        (λ (ls : List JournalLine).
          IsPostable (debit_line ar d.total ∷ credit_line income d.subtotal ∷ ls))
        (same_ok k) (untaxed-IsPostable ar income h)

  -- The steps of `invoice_lines`.
  abbrev lines_with : Account → Account → List JournalLine → Exec (List JournalLine)
  lines_with ar income tax = pure (debit_line ar d.total ∷ credit_line income d.subtotal ∷ tax)

  abbrev after_income : Account → Account → Exec (List JournalLine)
  after_income ar income =
      tax_lines (ltb 0 d.tax_total) (λ a. credit_line a d.tax_total) >>= lines_with ar income

  abbrev after_ar : Account → Exec (List JournalLine)
  after_ar ar = posting_account account_income >>= after_income ar

  invoice_lines-Postable : (s : Db) → Postable (invoice_lines d s)
  unfolding invoice_lines
  invoice_lines-Postable s =
      bind_rule Postable (posting_account account_ar) after_ar s (λ e _ ls k. cc)
        (λ ar _.
          bind_rule Postable (posting_account account_income) (after_income ar)
            (posting_account account_ar s).1 (λ e _ ls k. cc)
            (λ income _.
              bind_rule Postable (tax_lines (ltb 0 d.tax_total) (λ a. credit_line a d.tax_total))
                (lines_with ar income)
                (posting_account account_income (posting_account account_ar s).1).1 (λ e _ ls k. cc)
                (λ tax found ls k. subst IsPostable (same_ok k) (
                  tax_lines-WithTax ar income (ltb 0 d.tax_total)
                    (posting_account account_income (posting_account account_ar s).1).1 refl tax
                    found))))

-- What pricing gives a new draft: its total is its subtotal and its tax together.
abbrev Adds : Result Document × Db → Type 0
Adds rs = (d : Document) → rs.0 ≡ ok d → d.total ≡ d.subtotal + d.tax_total

module _ (r : Rounding) (pr : Principal) (x : InvoiceCreate) where
  abbrev draft_of : ℕ → Document
  draft_of id =
      draft_document pr x.customer x.issue_date x.due_date (priced_lines r x.lines)
        x.inventory_issue x.warehouse_id id

  abbrev store_draft : ℕ → Exec Document
  store_draft id =
      modify (λ s. record s { invoices = insert_one s.invoices (draft_of id) })
      >> (write_activity pr "finance.invoice.created" "invoice" id >> pure (draft_of id))

  create_invoice-Adds : (s : Db) → Adds (create_invoice r pr x s)
  unfolding create_invoice write_activity
  create_invoice-Adds s =
      bind_rule Adds (check_issue x.inventory_issue (priced_lines r x.lines).lines x.warehouse_id)
        (λ _. new_id >>= store_draft) s (λ e _ d h. cc)
        (λ _ _.
          bind_rule Adds new_id store_draft _ (λ e _ d h. cc)
            (λ id _ d h.
              subst (λ (y : Document). y.total ≡ y.subtotal + y.tax_total) (same_ok h)
                (priced_lines_sums r x.lines).1.total))

-- An invoice that `create_invoice` has made and that has a value posts, in whatever state of the books the
-- posting accounts are found, lines that pass every check of the posting: debits equal credits, the entry
-- has a value, and no line has two sides.
pub created_invoice-IsPostable :
    (r : Rounding) (pr : Principal) (x : InvoiceCreate) (s s' t : Db) (d : Document)
    (ls : List JournalLine)
    → create_invoice r pr x s ≡ (ok d, s')
    → 0 < d.total
    → (invoice_lines d t).0 ≡ ok ls
    → IsPostable ls
created_invoice-IsPostable r pr x s s' t d ls created value found =
    invoice_lines-Postable d
      (create_invoice-Adds r pr x s d (ap (λ (rs : Result Document × Db). rs.0) created)) value t ls
      found
