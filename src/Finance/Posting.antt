-- ===== src/Finance/Posting.antt =====
-- The double-entry core (backend/app/modules/finance/service.py, `_post_entry` and its helpers).
-- Amounts are cents, on which `money` is the identity and sums are exact.
pub mod Balance
use blyns_ops.Prelude.{
  ℕ, ◌+◌, String, Bool, true, false, Option, none, some, List, [], ◌∷◌, not, ◌&&◌, ◌||◌, ◌==◌,
  str_eq, ltb, find_one, insert_one, any_of,
}
use blyns_ops.Tenant.{
  Db, Principal, Account, JournalLine, SourceModule, Entry, RawId, Exec, ok, pure, reads, or_raise,
  raise_if, modify, ◌>>=◌, ◌>>◌, domain_error, tenant_not_found, validation_error, unbalanced_entry,
  new_id, oid,
}

abbrev pub sum_debit : List JournalLine → ℕ
sum_debit [] = 0
sum_debit (l ∷ ls) = l.debit + sum_debit ls

abbrev pub sum_credit : List JournalLine → ℕ
sum_credit [] = 0
sum_credit (l ∷ ls) = l.credit + sum_credit ls

-- A line with a debit and a credit.
abbrev pub two_sided : JournalLine → Bool
two_sided l = ltb 0 l.debit && ltb 0 l.credit

abbrev pub new_entry : Principal → ℕ → SourceModule → Option ℕ → List JournalLine → ℕ → Entry
new_entry pr date source doc lines id = record {
  id = id;
  date = date;
  source_module = source;
  source_doc = doc;
  lines = lines;
  reverses = none;
  created_by = pr.user_id;
}

abbrev pub add_entry : Entry → Db → Db
add_entry e s = record s { journal = insert_one s.journal e }

-- The refusals of `_post_entry`.
unfoldable pub check_entry : List JournalLine → Exec Unit
check_entry lines = do
  raise_if (not (sum_debit lines == sum_credit lines)) (domain_error unbalanced_entry 422)
  raise_if (sum_debit lines == 0) (domain_error unbalanced_entry 422)
  raise_if (any_of two_sided lines) (domain_error unbalanced_entry 422)

unfoldable pub write_entry : Principal → ℕ → SourceModule → Option ℕ → List JournalLine → Exec Entry
write_entry pr date source doc lines = do
  id ← new_id
  modify (add_entry (new_entry pr date source doc lines id))
  pure (new_entry pr date source doc lines id)

-- `_post_entry`: the only path that writes to the journal.
unfoldable pub post_entry : Principal → ℕ → SourceModule → Option ℕ → List JournalLine → Exec Entry
post_entry pr date source doc lines = do check_entry lines; write_entry pr date source doc lines

-- `_line`, with the debit or with the credit left at 0
abbrev pub debit_line : Account → ℕ → JournalLine
debit_line a amount = record { account_id = a.id; debit = amount; credit = 0 }

abbrev pub credit_line : Account → ℕ → JournalLine
credit_line a amount = record { account_id = a.id; debit = 0; credit = amount }

-- `_require(principal, repo.ACCOUNTS, …)`
unfoldable pub require_account : RawId → Exec Account
unfolding oid
require_account raw = do
  id ← reads (λ s. oid raw)
  reads (λ s.
      or_raise (find_one (λ (a : Account). id == a.id && not a.is_deleted) s.accounts)
        (domain_error tenant_not_found 404))

-- `_account`: a posting account by its code.
unfoldable pub account_by_code : String → Db → Option Account
account_by_code code s =
    find_one (λ (a : Account). str_eq code a.code && not a.is_deleted) s.accounts

unfoldable pub posting_account : String → Exec Account
unfolding account_by_code
posting_account code =
    reads (λ s. or_raise (account_by_code code s) (domain_error validation_error 409))

-- permissions.py
abbrev pub account_cash : String
account_cash = "1000"

abbrev pub account_bank : String
account_bank = "1010"

abbrev pub account_ar : String
account_ar = "1100"

abbrev pub account_ap : String
account_ap = "2000"

abbrev pub account_tax : String
account_tax = "2100"

abbrev pub account_income : String
account_income = "4000"

abbrev pub account_cogs : String
account_cogs = "5000"
