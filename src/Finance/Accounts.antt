-- ===== src/Finance/Accounts.antt =====
-- The chart of accounts and manual entries (backend/app/modules/finance/service.py). An account's
-- currency is left out.
pub mod Deletion
use blyns_ops.Prelude.{
  ℕ, String, Bool, true, false, Option, none, some, List, [], ◌∷◌, not, ◌&&◌, ◌||◌, ◌==◌, str_eq,
  is_some, or_else, if◌then◌else◌, find_one, insert_one, update_one, any_of,
}
use blyns_ops.Tenant.{
  Db, Principal, Account, AccountType, JournalLine, manual_entry, Entry, RawId, Exec, ok, pure,
  reads, or_raise, raise_if, modify, ◌>>=◌, ◌>>◌, domain_error, assertion_failed, validation_error,
  new_id, oid, write_activity,
}
use blyns_ops.Finance.Posting.{require_account, post_entry}

pub record AccountCreate : Type 0 where
  pub code : String
  pub name : String
  pub type_ : AccountType
  pub parent_id : Option RawId
  pub is_active : Bool

pub record AccountPatch : Type 0 where
  pub code : Option String
  pub name : Option String
  pub type_ : Option AccountType
  pub parent_id : Option RawId
  pub is_active : Option Bool

-- `find_one({"code": code})`: also among the deleted.
unfoldable pub code_taken : String → Db → Bool
code_taken code s = is_some (find_one (λ (a : Account). str_eq code a.code) s.accounts)

-- A parent must be a live account.
unfoldable pub parent_of : Option RawId → Exec (Option ℕ)
parent_of none = pure none
parent_of (some raw) = do parent ← require_account raw; pure (some parent.id)

abbrev new_account : AccountCreate → Option ℕ → ℕ → Account
new_account x parent id = record {
  id = id;
  code = x.code;
  name = x.name;
  type_ = x.type_;
  parent_id = parent;
  is_active = x.is_active;
  is_deleted = false;
  updated_by = none;
}

unfoldable pub create_account : Principal → AccountCreate → Exec Account
create_account pr x = do
  taken ← reads (λ s. ok (code_taken x.code s))
  raise_if taken (domain_error validation_error 409)
  parent ← parent_of x.parent_id
  id ← new_id
  modify (λ s. record s { accounts = insert_one s.accounts (new_account x parent id) })
  write_activity pr "finance.account.created" "account" id
  pure (new_account x parent id)

-- A patched parent is parsed, and not looked up.
unfoldable pub patched_parent : Option RawId → Exec (Option ℕ)
unfolding oid
patched_parent none = pure none
patched_parent (some raw) = do id ← reads (λ s. oid raw); pure (some id)

abbrev keep_or : Option ℕ → Option ℕ → Option ℕ
keep_or none old = old
keep_or (some v) old = some v

abbrev set_account : Principal → AccountPatch → Option ℕ → Account → Account
set_account pr x parent a = record a {
  code = or_else x.code a.code;
  name = or_else x.name a.name;
  type_ = or_else x.type_ a.type_;
  parent_id = keep_or parent a.parent_id;
  is_active = or_else x.is_active a.is_active;
  updated_by = some pr.user_id;
}

abbrev nothing_set : AccountPatch → Bool
nothing_set x = not (
    is_some x.code
    || is_some x.name
    || is_some x.type_
    || is_some x.parent_id
    || is_some x.is_active)

abbrev find_account : ℕ → Db → Option Account
find_account id s = find_one (λ (a : Account). id == a.id && not a.is_deleted) s.accounts

abbrev update_account : ℕ → (Account → Account) → Db → Db
update_account id f s = record s { accounts = update_one (λ a. id == a.id) f s.accounts }

abbrev write_account_patch : Principal → AccountPatch → Option ℕ → Account → Exec Account
write_account_patch pr x parent a = do
  modify (update_account a.id (set_account pr x parent))
  updated ← reads (λ s. or_raise (find_account a.id s) assertion_failed)
  write_activity pr "finance.account.updated" "account" a.id
  pure updated

abbrev new_code : Option String → String → Bool
new_code none old = false
new_code (some code) old = not (str_eq code old)

unfoldable pub patch_account : Principal → RawId → AccountPatch → Exec Account
patch_account pr raw x = do
  a ← require_account raw
  clash ← reads (λ s. ok (new_code x.code a.code && code_taken (or_else x.code a.code) s))
  raise_if clash (domain_error validation_error 409)
  parent ← patched_parent x.parent_id
  if nothing_set x then pure a else write_account_patch pr x parent a

-- `count_documents({"lines.account_id": oid})` is not 0.
unfoldable pub is_posted_to : ℕ → List Entry → Bool
is_posted_to id journal =
    any_of (λ (e : Entry). any_of (λ (l : JournalLine). id == l.account_id) e.lines) journal

-- The rest of `delete_account`, once the account is found.
unfoldable pub drop_account : Principal → Account → Exec Unit
drop_account pr a = do
  used ← reads (λ s. ok (is_posted_to a.id s.journal))
  raise_if used (domain_error validation_error 409)
  modify (update_account a.id (λ x. record x { is_deleted = true; updated_by = some pr.user_id }))
  write_activity pr "finance.account.deleted" "account" a.id

unfoldable pub delete_account : Principal → RawId → Exec Unit
unfolding drop_account
delete_account pr raw = do a ← require_account raw; drop_account pr a

-- A line of a manual entry, in cents.
pub record LineInput : Type 0 where
  pub account_id : RawId
  pub debit : ℕ
  pub credit : ℕ

pub record JournalEntryCreate : Type 0 where
  pub date : Option ℕ
  pub lines : List LineInput

-- Every line must name a live account.
unfoldable pub resolve_lines : List LineInput → Exec (List JournalLine)
resolve_lines [] = pure []
resolve_lines (l ∷ ls) = do
  a ← require_account l.account_id
  rest ← resolve_lines ls
  pure (record { account_id = a.id; debit = l.debit; credit = l.credit } ∷ rest)

unfoldable pub create_entry : Principal → JournalEntryCreate → Exec Entry
create_entry pr x = do
  lines ← resolve_lines x.lines
  entry ← post_entry pr (or_else x.date pr.now) manual_entry none lines
  write_activity pr "finance.journal_entry.posted" "journal_entry" entry.id
  pure entry
