-- ===== src/Finance/Payments/Settled.antt =====
-- What a payment does to the books and to its document.
use blyns_ops.Prelude.{
  ℕ, ◌+◌, ◌<◌, ◌≤◌, ◌≡◌, refl, ap, ◌∙◌, Bool, true, false, some, List, arith, insert_one,
  update_one, find_one-fits, Option, none, ◌&&◌, ◌↔◌, ◌==◌, Bool-cases, inl, inr, or_else, ltb, not,
  ◌||◌, subst,
}
use blyns_ops.Tenant.{
  Db, Principal, Account, JournalLine, payment_entry, Entry, Document, DocType, Payment, Result,
  Exec, ok, err, pure, ◌>>=◌, ◌>>◌, new_id, modify, write_activity, raise_if, Error, domain_error,
  validation_error, draft, void, Status, paid, partly_paid, RawId, reads, or_raise,
  tenant_not_found, oid,
}
use blyns_ops.Tenant.Rules.{query_rule, outcome_rule, bind_rule, same_ok, Inserts, new_id-Inserts}
use blyns_ops.Finance.Posting.{sum_debit, post_entry, posting_account}
use blyns_ops.Finance.Posting.Balance.{beside_journal, Enters, post_entry-Enters}
use blyns_ops.Finance.Payments.{
  PaymentType, PaymentCreate, require_document, set_document, fits, payable_document, payment_lines,
  method_account, mark_paid, kind, new_payment, post_payment, record_payment, create_payment,
}
use blyns_ops.Finance.Invoices.{is_status, require_invoice, find_document}
use blyns_ops.Finance.Bills.{require_bill}
use blyns_ops.Finance.Pricing.{status_for}
use blyns_ops.Tenant.Frame.{or_raise_ok}
use blyns_ops.Finance.Queries.{
  payable_document-IsQuery, payment_lines-IsQuery, posting_account-IsQuery,
}

-- The documents of a type, and the others.
abbrev pub docs_of : DocType → Db → List Document
docs_of DocType.invoice s = s.invoices
docs_of DocType.bill s = s.bills

abbrev pub docs_beside : DocType → Db → List Document
docs_beside DocType.invoice s = s.bills
docs_beside DocType.bill s = s.invoices

-- A payment that is recorded: its document could take it, the row is there, and the document carries
-- the new sum, with the status that tells whether something is left to pay.
pub record IsPaid (pr : Principal) (x : PaymentCreate) (s s' : Db) (p : Payment) : Type 0 where
  pub document : Document
  pub status : Status
  pub payable : (payable_document x s).0 ≡ ok document
  pub named : x.doc_id.object_id ≡ some document.id
  pub within : document.paid_amount + x.amount ≤ document.total
  pub positive : 0 < x.amount
  pub amount : (p.amount ≡ x.amount) × (p.doc_type ≡ x.doc_type) × (p.doc_id ≡ document.id)
  pub payments : s'.payments ≡ insert_one s.payments p
  pub settled : status ≡ paid ↔ document.paid_amount + x.amount ≡ document.total
  pub unsettled : status ≡ partly_paid ↔ document.paid_amount + x.amount < document.total
  pub documents :
      docs_of x.doc_type s'
      ≡ update_one
          (λ d. document.id == d.id)
          (λ d. record d {
            paid_amount = document.paid_amount + x.amount;
            status = status;
            updated_by = some pr.user_id;
          })
          (docs_of x.doc_type s)
  pub beside : docs_beside x.doc_type s' ≡ docs_beside x.doc_type s

abbrev pub Pays : Principal → PaymentCreate → Db → Result Payment × Db → Type 0
Pays pr x s (ok p, s') = IsPaid pr x s s' p
Pays pr x s (err e, s') =
    (s'.payments ≡ s.payments) × (s'.invoices ≡ s.invoices) × (s'.bills ≡ s.bills)

checks_passed :
    (b c : Bool) (n : ℕ) (d d' : Document) (e e' e'' : Error) (s : Db)
    → ((raise_if b e >> (raise_if c e' >> (raise_if (ltb d.total n) e'' >> pure d))) s).0 ≡ ok d'
    → (n ≤ d.total) × (d ≡ d')
checks_passed true c n d d' e e' e'' s h = cc
checks_passed false true n d d' e e' e'' s h = cc
checks_passed false false n d d' e e' e'' s h = elim (Bool-cases (ltb d.total n)) [
  | inl over ↦ cc (h, over)
  | inr within ↦ (ground (arith, within), same_ok (simp within at h))
]

-- The checks on the document that was found.
abbrev payable_checks : PaymentCreate → Document → Exec Document
payable_checks x d =
    raise_if (not (fits x.doc_type x.type_)) (domain_error validation_error 422)
    >> (raise_if (is_status d.status draft || is_status d.status void)
          (domain_error validation_error 409)
        >> (raise_if (ltb d.total (d.paid_amount + x.amount)) (domain_error validation_error 422)
            >> pure d))

payable_document_within :
    (x : PaymentCreate) (s : Db) (d : Document)
    → (payable_document x s).0 ≡ ok d
    → d.paid_amount + x.amount ≤ d.total
unfolding payable_document
payable_document_within x s =
    bind_rule
      (λ (rs : Result Document × Db).
        (d : Document) → rs.0 ≡ ok d → d.paid_amount + x.amount ≤ d.total)
      (require_document x.doc_type x.doc_id) (payable_checks x) s (λ e _ d h. cc)
      (λ a _ d h.
        let passed =
          checks_passed (not (fits x.doc_type x.type_))
            (is_status a.status draft || is_status a.status void) (a.paid_amount + x.amount) a d _ _
            _ _ h in
        subst (λ (y : Document). y.paid_amount + x.amount ≤ y.total) passed.1 passed.0)

payment_lines_debit :
    (t : PaymentType) (a : Account) (n : ℕ) (s : Db) (ls : List JournalLine)
    → (payment_lines t a n s).0 ≡ ok ls
    → sum_debit ls ≡ n
unfolding payment_lines
payment_lines_debit PaymentType.customer_payment a n s ls h = ground arith
payment_lines_debit PaymentType.vendor_payment a n s ls h = ground arith

-- The entry of a payment has a value, and nothing else is touched.
abbrev Posts : PaymentCreate → Db → Result (Account × Entry) × Db → Type 0
Posts x s (ok _, s') = (0 < x.amount) × (beside_journal s' ≡ beside_journal s)
Posts x s (err e, s') = beside_journal s' ≡ beside_journal s

post_payment-Posts :
    (pr : Principal) (x : PaymentCreate) (d : Document) (s : Db) → Posts x s (post_payment pr x d s)
post_payment-Posts pr x d s =
    unfold post_payment in
    query_rule (Posts x s) (posting_account (method_account x.method))
      (λ money. payment_lines x.type_ money x.amount >>= λ lines.
        post_entry pr (or_else x.date pr.now) payment_entry (some d.id) lines >>= λ entry.
        pure (money, entry))
      s (posting_account-IsQuery (method_account x.method)) (λ e. refl)
      (λ money _.
        query_rule (Posts x s) (payment_lines x.type_ money x.amount)
          (λ lines.
            post_entry pr (or_else x.date pr.now) payment_entry (some d.id) lines >>= λ entry.
            pure (money, entry))
          s (payment_lines-IsQuery x.type_ money x.amount) (λ e. refl)
          (λ lines found.
            outcome_rule (Enters pr (or_else x.date pr.now) payment_entry (some d.id) lines s)
              (Posts x s) (post_entry pr (or_else x.date pr.now) payment_entry (some d.id) lines)
              (λ entry. pure (money, entry)) s
              (post_entry-Enters pr (or_else x.date pr.now) payment_entry (some d.id) lines s)
              (λ e s' same. same.1)
              (λ e s' entered. (
                subst (λ n. 0 < n)
                    (ap (λ (q : Entry). sum_debit q.lines) entered.entry
                      ∙ payment_lines_debit x.type_ money x.amount s lines found)
                    entered.balanced.positive,
                entered.rest,
              ))))

same_id : (a b : ℕ) (c : Bool) → a == b && c ≡ true → a ≡ b
same_id a b c h = ground arith

found_named :
    (o : Option ℕ) (find : ℕ → Option Document) (s : Db)
    → ((id : ℕ) (d : Document) → find id ≡ some d → id ≡ d.id)
    → (d : Document)
    → ((reads (λ _. or_raise o (domain_error tenant_not_found 404)) >>= λ id.
          reads (λ _. or_raise (find id) (domain_error tenant_not_found 404)))
        s).0
      ≡ ok d
    → o ≡ some d.id
found_named none find s k d h = cc
found_named (some id) find s k d h =
    ap some (k id d (or_raise_ok (find id) (domain_error tenant_not_found 404) d h))

require_document_named :
    (k : DocType) (raw : RawId) (s : Db) (d : Document)
    → (require_document k raw s).0 ≡ ok d
    → raw.object_id ≡ some d.id
unfolding require_invoice require_bill oid
require_document_named DocType.invoice raw s d h =
    found_named raw.object_id (λ id. find_document id s.invoices) s
      (λ id d e.
        same_id id d.id (not d.is_deleted)
          (find_one-fits (λ (y : Document). id == y.id && not y.is_deleted) s.invoices d e))
      d h
require_document_named DocType.bill raw s d h =
    found_named raw.object_id (λ id. find_document id s.bills) s
      (λ id d e.
        same_id id d.id (not d.is_deleted)
          (find_one-fits (λ (y : Document). id == y.id && not y.is_deleted) s.bills d e))
      d h

payable_document_named :
    (x : PaymentCreate) (s : Db) (d : Document)
    → (payable_document x s).0 ≡ ok d
    → x.doc_id.object_id ≡ some d.id
unfolding payable_document
payable_document_named x s =
    bind_rule
      (λ (rs : Result Document × Db). (d : Document) → rs.0 ≡ ok d → x.doc_id.object_id ≡ some d.id)
      (require_document x.doc_type x.doc_id) (payable_checks x) s (λ e _ d h. cc)
      (λ a found d h.
        let passed =
          checks_passed (not (fits x.doc_type x.type_))
            (is_status a.status draft || is_status a.status void) (a.paid_amount + x.amount) a d _ _
            _ _ h in
        subst (λ (y : Document). x.doc_id.object_id ≡ some y.id) passed.1
          (require_document_named x.doc_type x.doc_id s a found))

docs-same :
    (k : DocType) (t u : Db)
    → t.invoices ≡ u.invoices
    → t.bills ≡ u.bills
    → (docs_of k t ≡ docs_of k u) × (docs_beside k t ≡ docs_beside k u)
docs-same DocType.invoice t u i b = (i, b)
docs-same DocType.bill t u i b = (b, i)

-- What is set on a document of a type depends on those alone, and leaves the others and the payments.
set_document-frame :
    (k : DocType) (id : ℕ) (f : Document → Document) (t u : Db)
    → t.invoices ≡ u.invoices
    → t.bills ≡ u.bills
    → (docs_of k (set_document k id f t) ≡ update_one (λ d. id == d.id) f (docs_of k u))
      × (docs_beside k (set_document k id f t) ≡ docs_beside k u)
      × ((set_document k id f t).payments ≡ t.payments)
set_document-frame DocType.invoice id f t u i b =
    (ap (λ ds. update_one (λ (d : Document). id == d.id) f ds) i, b, refl)
set_document-frame DocType.bill id f t u i b =
    (ap (λ ds. update_one (λ (d : Document). id == d.id) f ds) b, i, refl)

-- The status of a document that has been paid something, and not too much.
paid_status :
    (paid_now total : ℕ)
    → 0 < paid_now
    → paid_now ≤ total
    → (status_for paid_now total ≡ paid ↔ paid_now ≡ total)
      × (status_for paid_now total ≡ partly_paid ↔ paid_now < total)
unfolding status_for
paid_status n total h k =
    ((λ e. ground arith, λ e. ground arith), (λ e. ground arith, λ e. ground arith))

record_payment-Pays :
    (pr : Principal) (x : PaymentCreate) (d : Document) (a : Account) (e : Entry) (s t : Db)
    → (payable_document x s).0 ≡ ok d
    → 0 < x.amount
    → beside_journal t ≡ beside_journal s
    → Pays pr x s (record_payment pr x d (a, e) t)
unfolding write_activity
record_payment-Pays pr x d a e s t payable positive same =
    unfold record_payment in
    outcome_rule (Inserts t) (Pays pr x s) new_id
      (λ id.
        modify (λ s. record s { payments = insert_one s.payments (new_payment pr x d a e id) })
        >> (modify (set_document x.doc_type d.id (mark_paid pr (d.paid_amount + x.amount) d.total))
            >> (write_activity pr "finance.payment.recorded" (kind x.doc_type) d.id
                >> pure (new_payment pr x d a e id))))
      t (new_id-Inserts t)
      (λ e' t' h. (
        ap (λ (u : Db). u.payments) h ∙ ap (λ (u : Db). u.payments) same,
        ap (λ (u : Db). u.invoices) h ∙ ap (λ (u : Db). u.invoices) same,
        ap (λ (u : Db). u.bills) h ∙ ap (λ (u : Db). u.bills) same,
      ))
      (λ id t' h.
        let within = payable_document_within x s d payable in
        let status =
          paid_status (d.paid_amount + x.amount) d.total (omega (arith, positive)) within in
        let frame =
          set_document-frame x.doc_type d.id (mark_paid pr (d.paid_amount + x.amount) d.total)
            (record t' { payments = insert_one t'.payments (new_payment pr x d a e id) }) s
            (ap (λ (u : Db). u.invoices) h.1 ∙ ap (λ (u : Db). u.invoices) same)
            (ap (λ (u : Db). u.bills) h.1 ∙ ap (λ (u : Db). u.bills) same) in
        record {
          document = d;
          status = status_for (d.paid_amount + x.amount) d.total;
          payable = payable;
          named = payable_document_named x s d payable;
          within = within;
          positive = positive;
          amount = (refl, refl, refl);
          settled = status.0;
          unsettled = status.1;
          payments =
              frame.2
              ∙ ap (λ (u : Db). insert_one u.payments (new_payment pr x d a e id)) h.1
              ∙ ap (λ (u : Db). insert_one u.payments (new_payment pr x d a e id)) same;
          documents = (docs-same x.doc_type _ (marked t' id) refl refl).0 ∙ frame.0;
          beside = (docs-same x.doc_type _ (marked t' id) refl refl).1 ∙ frame.1;
        })
  where
    marked : Db → ℕ → Db
    marked t' id =
        set_document x.doc_type d.id (mark_paid pr (d.paid_amount + x.amount) d.total)
          (record t' { payments = insert_one t'.payments (new_payment pr x d a e id) })

-- A payment that returns was within what the document that the request names had outstanding, and has a
-- value; its row is added, and that document alone changes: what is paid is more by the amount, and the
-- status is `paid` exactly if nothing is left, else `partly_paid`. One that raises records no payment and
-- changes no document.
pub create_payment-Pays :
    (pr : Principal) (x : PaymentCreate) (s : Db) → Pays pr x s (create_payment pr x s)
create_payment-Pays pr x s =
    unfold create_payment in
    query_rule (Pays pr x s) (payable_document x)
      (λ d. post_payment pr x d >>= record_payment pr x d) s (payable_document-IsQuery x)
      (λ e. (refl, refl, refl))
      (λ d payable.
        outcome_rule (Posts x s) (Pays pr x s) (post_payment pr x d) (record_payment pr x d) s
          (post_payment-Posts pr x d s)
          (λ e s' same. (
            ap (λ (t : Db). t.payments) same,
            ap (λ (t : Db). t.invoices) same,
            ap (λ (t : Db). t.bills) same,
          ))
          (λ posted s' h. record_payment-Pays pr x d posted.0 posted.1 s s' payable h.0 h.1))
