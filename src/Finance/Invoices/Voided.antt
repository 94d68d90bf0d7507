-- ===== src/Finance/Invoices/Voided.antt =====
-- What voiding an invoice does to the balances of the accounts.
use blyns_ops.Prelude.{
  ℕ, ◌+◌, ◌≡◌, refl, ap, ◌∙◌, ◌⊎◌, inl, inr, Bool, Option, none, some, List, [], ◌∷◌, arith, ◌==◌,
  Bool-cases, if◌then◌else◌, insert_one, update_one,
}
use blyns_ops.Tenant.{
  Db, Principal, JournalLine, Entry, invoice_entry, Document, RawId, Exec, or_raise, Result, ok,
  err, assertion_failed, modify, pure, ◌>>=◌, ◌>>◌, write_activity,
}
use blyns_ops.Tenant.Rules.{outcome_rule, query_rule}
use blyns_ops.Finance.Posting.{post_entry}
use blyns_ops.Finance.Posting.Balance.{Enters, post_entry-Enters}
use blyns_ops.Finance.Invoices.{
  find_document, set_invoice, update_invoice, voidable_invoice, entry_to_reverse, reversed_lines,
  set_reverses, link_reversal, mark_void, write_void, void_invoice,
}
use blyns_ops.Finance.Queries.{voidable_invoice-IsQuery, entry_to_reverse-IsQuery}

-- What lines, and a journal, debit and credit to an account.
abbrev pub line_debit : ℕ → List JournalLine → ℕ
line_debit a [] = 0
line_debit a (l ∷ ls) = if a == l.account_id then l.debit + line_debit a ls else line_debit a ls

abbrev pub line_credit : ℕ → List JournalLine → ℕ
line_credit a [] = 0
line_credit a (l ∷ ls) = if a == l.account_id then l.credit + line_credit a ls else line_credit a ls

abbrev pub journal_debit : ℕ → List Entry → ℕ
journal_debit a [] = 0
journal_debit a (e ∷ es) = line_debit a e.lines + journal_debit a es

abbrev pub journal_credit : ℕ → List Entry → ℕ
journal_credit a [] = 0
journal_credit a (e ∷ es) = line_credit a e.lines + journal_credit a es

-- The entry's debits become credits and its credits debits, on every account.
pub record IsReversed (raw : RawId) (s s' : Db) : Type 0 where
  pub invoice : Document
  pub entry : Entry
  pub voidable : (voidable_invoice raw s).0 ≡ ok invoice
  pub original : (entry_to_reverse invoice s).0 ≡ ok entry
  pub debits :
      (a : ℕ) → journal_debit a s'.journal ≡ journal_debit a s.journal + line_credit a entry.lines
  pub credits :
      (a : ℕ) → journal_credit a s'.journal ≡ journal_credit a s.journal + line_debit a entry.lines

abbrev pub Voids : RawId → Db → Result Document × Db → Type 0
Voids raw s (ok d, s') = IsReversed raw s s'
Voids raw s (err e, s') = (s'.journal ≡ s.journal) ⊎ (e ≡ assertion_failed)

reversed-debit :
    (a : ℕ) (ls : List JournalLine) → line_debit a (reversed_lines ls) ≡ line_credit a ls
reversed-debit a [] = refl
reversed-debit a (l ∷ ls) = ground (arith, reversed-debit a ls)

reversed-credit :
    (a : ℕ) (ls : List JournalLine) → line_credit a (reversed_lines ls) ≡ line_debit a ls
reversed-credit a [] = refl
reversed-credit a (l ∷ ls) = ground (arith, reversed-credit a ls)

insert-debit :
    (a : ℕ) (es : List Entry) (e : Entry)
    → journal_debit a (insert_one es e) ≡ journal_debit a es + line_debit a e.lines
insert-debit a [] e = omega arith
insert-debit a (x ∷ es) e = omega (arith, insert-debit a es e)

insert-credit :
    (a : ℕ) (es : List Entry) (e : Entry)
    → journal_credit a (insert_one es e) ≡ journal_credit a es + line_credit a e.lines
insert-credit a [] e = omega arith
insert-credit a (x ∷ es) e = omega (arith, insert-credit a es e)

-- The link from the reversal to the original changes no line.
link-debit :
    (a o : ℕ) (q : Entry → Bool) (es : List Entry)
    → journal_debit a (update_one q (set_reverses o) es) ≡ journal_debit a es
link-debit a o q [] = refl
link-debit a o q (e ∷ es) = elim (Bool-cases (q e)) [
  | inl hit ↦ rw hit refl
  | inr miss ↦ rw miss (ap (λ n. line_debit a e.lines + n) (link-debit a o q es))
]

link-credit :
    (a o : ℕ) (q : Entry → Bool) (es : List Entry)
    → journal_credit a (update_one q (set_reverses o) es) ≡ journal_credit a es
link-credit a o q [] = refl
link-credit a o q (e ∷ es) = elim (Bool-cases (q e)) [
  | inl hit ↦ rw hit refl
  | inr miss ↦ rw miss (ap (λ n. line_credit a e.lines + n) (link-credit a o q es))
]

abbrev Updates : Db → Result Document × Db → Type 0
Updates s (ok d, s') = s'.journal ≡ s.journal
Updates s (err e, s') = e ≡ assertion_failed

update_invoice-Updates :
    (id : ℕ) (f : Document → Document) (s : Db) → Updates s (update_invoice id f s)
unfolding update_invoice
update_invoice-Updates id f s = go (find_document id (set_invoice id f s).invoices)
  where
    go : (o : Option Document) → Updates s (or_raise o assertion_failed, set_invoice id f s)
    go none = refl
    go (some d) = refl

-- The end of a void.
abbrev close_void : Principal → Document → Entry → Exec Document
close_void pr d r = do
  updated ← update_invoice d.id (mark_void pr r.id)
  write_activity pr "finance.invoice.voided" "invoice" d.id
  pure updated

write_void-Voids :
    (pr : Principal) (raw : RawId) (d : Document) (e : Entry) (s : Db)
    → (voidable_invoice raw s).0 ≡ ok d
    → (entry_to_reverse d s).0 ≡ ok e
    → Voids raw s (write_void pr d e s)
unfolding write_activity
write_void-Voids pr raw d e s voidable original =
    unfold write_void in
    outcome_rule (Enters pr pr.now invoice_entry (some d.id) (reversed_lines e.lines) s)
      (Voids raw s) (post_entry pr pr.now invoice_entry (some d.id) (reversed_lines e.lines))
      (λ r. modify (link_reversal r.id e.id) >> close_void pr d r) s
      (post_entry-Enters pr pr.now invoice_entry (some d.id) (reversed_lines e.lines) s)
      (λ e' s' same. inl same.0)
      (λ r s' entered.
        outcome_rule (Updates (link_reversal r.id e.id s')) (Voids raw s)
          (update_invoice d.id (mark_void pr r.id))
          (λ updated. write_activity pr "finance.invoice.voided" "invoice" d.id >> pure updated)
          (link_reversal r.id e.id s')
          (update_invoice-Updates d.id (mark_void pr r.id) (link_reversal r.id e.id s'))
          (λ e' s'' h. inr h)
          (λ updated s'' same. record {
            invoice = d;
            entry = e;
            voidable = voidable;
            original = original;
            debits = λ a.
                ap (λ es. journal_debit a es) same
                ∙ link-debit a e.id (λ x. r.id == x.id) s'.journal
                ∙ ap (λ es. journal_debit a es) entered.books
                ∙ insert-debit a s.journal r
                ∙ ap (λ (x : Entry). journal_debit a s.journal + line_debit a x.lines) entered.entry
                ∙ ap (λ n. journal_debit a s.journal + n) (reversed-debit a e.lines);
            credits = λ a.
                ap (λ es. journal_credit a es) same
                ∙ link-credit a e.id (λ x. r.id == x.id) s'.journal
                ∙ ap (λ es. journal_credit a es) entered.books
                ∙ insert-credit a s.journal r
                ∙ ap (λ (x : Entry). journal_credit a s.journal + line_credit a x.lines)
                    entered.entry
                ∙ ap (λ n. journal_credit a s.journal + n) (reversed-credit a e.lines);
          }))

-- A void that returns adds, on every account, what the invoice's entry credited to the debits and what
-- it debited to the credits, so that the two cancel out; one that raises leaves the journal as it was,
-- unless it is the `assert` on the updated invoice that failed.
pub void_invoice-Voids :
    (pr : Principal) (raw : RawId) (s : Db) → Voids raw s (void_invoice pr raw s)
void_invoice-Voids pr raw s =
    unfold void_invoice in
    query_rule (Voids raw s) (voidable_invoice raw) (λ d. entry_to_reverse d >>= write_void pr d) s
      (voidable_invoice-IsQuery raw) (λ e. inl refl)
      (λ d voidable.
        query_rule (Voids raw s) (entry_to_reverse d) (write_void pr d) s
          (entry_to_reverse-IsQuery d) (λ e. inl refl)
          (λ e original. write_void-Voids pr raw d e s voidable original))
