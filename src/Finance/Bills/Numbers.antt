-- ===== src/Finance/Bills/Numbers.antt =====
-- When a bill takes its number (backend/app/modules/finance/service.py, `send_bill`).
use blyns_ops.Prelude.{
  ℕ, ◌+◌, ◌≡◌, refl, ap, ◌∙◌, Bool, true, false, Option, String, if◌then◌else◌, List,
}
use blyns_ops.Tenant.{
  Db, Principal, Document, JournalLine, Entry, bill_entry, RawId, Result, ok, err, pure, ◌>>=◌,
  ◌>>◌, write_activity, modify,
}
use blyns_ops.Tenant.Rules.{Keeps, Keeps-query, keeps_rules, bind_rule}
use blyns_ops.Finance.Posting.{post_entry}
use blyns_ops.Finance.Posting.Balance.{Enters, post_entry-Enters}
use blyns_ops.Finance.Bills.{
  set_bill, sendable_bill, next_bill_number, post_bill, mark_bill_sent, update_bill,
  write_bill_sent, send_bill,
}
use blyns_ops.Finance.Queries.{sendable_bill-IsQuery, bill_lines-IsQuery}

-- The counter stands at `n`.
abbrev CountsTo : ℕ → Db → Type 0
CountsTo n s = s.bill_seq ≡ n

abbrev pub is_ok : {A : Type 0} → Result A → Bool
is_ok (ok a) = true
is_ok (err e) = false

post_entry-CountsTo :
    (n : ℕ) (pr : Principal) (date : ℕ) (doc : Option ℕ) (lines : List JournalLine)
    → Keeps (CountsTo n) (post_entry pr date bill_entry doc lines)
post_entry-CountsTo n pr date doc lines = record {
  at = λ s h.
      go s (post_entry pr date bill_entry doc lines s).0
        (post_entry pr date bill_entry doc lines s).1
        (post_entry-Enters pr date bill_entry doc lines s)
      ∙ h;
}
  where
    go :
        (s : Db) (r : Result Entry) (s' : Db)
        → Enters pr date bill_entry doc lines s (r, s')
        → s'.bill_seq ≡ s.bill_seq
    go s (ok e) s' h = ap (λ (t : Db). t.bill_seq) h.rest
    go s (err e) s' h = ap (λ (t : Db). t.bill_seq) h.1

post_bill-CountsTo : (n : ℕ) (pr : Principal) (d : Document) → Keeps (CountsTo n) (post_bill pr d)
unfolding post_bill
post_bill-CountsTo n pr d =
    search (keeps_rules, Keeps-query, bill_lines-IsQuery, post_entry-CountsTo)

update_bill-CountsTo : (n id : ℕ) (f : Document → Document) → Keeps (CountsTo n) (update_bill id f)
unfolding update_bill
update_bill-CountsTo n id f = search (keeps_rules, set_bill-CountsTo)
  where
    set_bill-CountsTo : Keeps (CountsTo n) (modify (set_bill id f))
    set_bill-CountsTo = record { at = λ s h. h }

write_activity-CountsTo :
    (n : ℕ) (pr : Principal) (action kind : String) (id : ℕ)
    → Keeps (CountsTo n) (write_activity pr action kind id)
unfolding write_activity
write_activity-CountsTo n pr action kind id = record { at = λ s h. h }

-- The rest of a send, once the number is taken.
posted-CountsTo :
    (n : ℕ) (pr : Principal) (d : Document) (f : Entry → Document → Document)
    → Keeps (CountsTo n) (
        post_bill pr d >>= λ entry. update_bill d.id (f entry) >>= λ updated.
        write_activity pr "finance.bill.sent" "bill" d.id >> pure updated)
posted-CountsTo n pr d f =
    search (keeps_rules, post_bill-CountsTo, update_bill-CountsTo, write_activity-CountsTo) depth 16

write_bill_sent_number :
    (pr : Principal) (d : Document) (s : Db) → (write_bill_sent pr d s).1.bill_seq ≡ s.bill_seq + 1
unfolding write_bill_sent next_bill_number
write_bill_sent_number pr d s =
    (posted-CountsTo (s.bill_seq + 1) pr d
        (λ entry. mark_bill_sent pr (s.bill_seq + 1) entry.id)).at
      (record s { bill_seq = s.bill_seq + 1 }) refl

-- Sending a bill takes a number if, and only if, the bill may be sent, whether the posting then
-- succeeds or raises: a number that was taken for a send that raised is lost.
pub send_bill_numbers :
    (pr : Principal) (raw : RawId) (s : Db)
    → (send_bill pr raw s).1.bill_seq
      ≡ (if is_ok (sendable_bill raw s).0 then s.bill_seq + 1 else s.bill_seq)
send_bill_numbers pr raw s =
    unfold send_bill in
    bind_rule
      (λ rs. rs.1.bill_seq ≡ (if is_ok (sendable_bill raw s).0 then s.bill_seq + 1 else s.bill_seq))
      (sendable_bill raw) (write_bill_sent pr) s
      (λ e refused. rw refused (ap (λ (t : Db). t.bill_seq) same))
      (λ d found. rw found (
        write_bill_sent_number pr d (sendable_bill raw s).1 ∙ ap (λ (t : Db). t.bill_seq + 1) same))
  where
    same : (sendable_bill raw s).1 ≡ s
    same = (sendable_bill-IsQuery raw).same s
