-- ===== src/Finance/Accounts/Deletion.antt =====
-- The deletion of accounts and the journal (backend/app/modules/finance/service.py, `delete_account`).
use blyns_ops.Prelude.{◌≡◌, refl, true, some, false, Bool-cases, inl, inr}
use blyns_ops.Tenant.{Db, Principal, Account, RawId, Result, ok, err, write_activity}
use blyns_ops.Tenant.Rules.{query_rule}
use blyns_ops.Finance.Posting.{require_account}
use blyns_ops.Finance.Accounts.{update_account, is_posted_to, drop_account, delete_account}
use blyns_ops.Finance.Queries.{require_account-IsQuery}

-- The account that is gone has no line in the journal, which is as before.
pub record IsUnused (raw : RawId) (s s' : Db) : Type 0 where
  pub account : Account
  pub found : (require_account raw s).0 ≡ ok account
  pub books : s'.journal ≡ s.journal
  pub unused : is_posted_to account.id s'.journal ≡ false

abbrev pub Deletes : RawId → Db → Result Unit × Db → Type 0
Deletes raw s (ok _, s') = IsUnused raw s s'
Deletes raw s (err e, s') = s' ≡ s

-- A deletion of an account that returns has found no entry that posts to it, and changes no entry; one
-- that is refused changes nothing.
pub delete_account-Deletes :
    (pr : Principal) (raw : RawId) (s : Db) → Deletes raw s (delete_account pr raw s)
unfolding drop_account write_activity
delete_account-Deletes pr raw s =
    unfold delete_account in
    query_rule (Deletes raw s) (require_account raw) (drop_account pr) s
      (require_account-IsQuery raw) (λ e. refl)
      (λ a found. elim (Bool-cases (is_posted_to a.id s.journal)) [
        | inl used ↦ rw used refl
        | inr unused ↦ rw unused (drop-IsUnused a found unused)
      ])
  where
    drop-IsUnused :
        (a : Account)
        → (require_account raw s).0 ≡ ok a
        → is_posted_to a.id s.journal ≡ false
        → IsUnused raw s
            (write_activity pr "finance.account.deleted" "account" a.id (
              update_account a.id
                (λ x. record x { is_deleted = true; updated_by = some pr.user_id })
                s)).1
    drop-IsUnused a found unused = record {
      account = a;
      found = found;
      books = refl;
      unused = unused;
    }
