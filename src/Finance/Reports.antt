-- ===== src/Finance/Reports.antt =====
-- The reports over the journal (backend/app/modules/finance/repository.py, `trial_balance`; service.py,
-- `trial_balance`, `pnl`, `balance_sheet`).
pub mod Sums
pub mod Balanced
use blyns_ops.Prelude.{
  ℕ, ◌+◌, String, Bool, true, false, Option, none, some, List, [], ◌∷◌, ◌++◌, not, ◌&&◌, ◌==◌, leb,
  if◌then◌else◌, find_one, insert_one, update_one, is_some, filter_by,
}
use blyns_ops.Prelude.Int.{ℤ, pos, ◌+ℤ◌, ◌-ℤ◌, neg, eqb_ℤ, sub_ℕ}
use blyns_ops.Tenant.{Db, Account, AccountType, JournalLine, Entry}
use blyns_ops.Finance.Issues.{text_ltb}

-- `$gte` and `$lte` on the date, each only if it is given
abbrev pub in_period : Option ℕ → Option ℕ → ℕ → Bool
in_period none none d = true
in_period (some a) none d = leb a d
in_period none (some b) d = leb d b
in_period (some a) (some b) d = leb a d && leb d b

-- `$match` and `$unwind`: the lines of the entries in the period.
abbrev pub lines_in : (ℕ → Bool) → List Entry → List JournalLine
lines_in within [] = []
lines_in within (e ∷ es) =
    if within e.date then e.lines ++ lines_in within es else lines_in within es

pub record Group : Type 0 where
  pub account_id : ℕ
  pub debit : ℕ
  pub credit : ℕ

abbrev pub group_of : JournalLine → Group
group_of l = record { account_id = l.account_id; debit = l.debit; credit = l.credit }

abbrev pub add_to : JournalLine → Group → Group
add_to l g = record g { debit = g.debit + l.debit; credit = g.credit + l.credit }

abbrev pub same_account : ℕ → Group → Bool
same_account id g = id == g.account_id

-- `$group` by the account, with the two sums
unfoldable pub add_line : JournalLine → List Group → List Group
add_line l gs =
    if is_some (find_one (same_account l.account_id) gs)
    then update_one (same_account l.account_id) (add_to l) gs
    else insert_one gs (group_of l)

unfoldable pub group_lines : List JournalLine → List Group
unfolding add_line
group_lines [] = []
group_lines (l ∷ ls) = add_line l (group_lines ls)

pub record Row : Type 0 where
  pub account : Account
  pub debit : ℕ
  pub credit : ℕ
  pub balance : ℤ

abbrev pub row_of : Account → Group → Row
row_of a g = record {
  account = a;
  debit = g.debit;
  credit = g.credit;
  balance = sub_ℕ g.debit g.credit;
}

abbrev pub account_by_id : List Account → ℕ → Option Account
account_by_id accounts id = find_one (λ (a : Account). id == a.id) accounts

-- `$lookup` and `$unwind`: a group without its account falls out.
unfoldable pub with_accounts : List Account → List Group → List Row
with_accounts accounts [] = []
with_accounts accounts (g ∷ gs) =
    let rest = with_accounts accounts gs in
    elim (account_by_id accounts g.account_id) [ none ↦ rest | some a ↦ row_of a g ∷ rest ]

-- `{"$sort": {"account.code": 1}}`
unfoldable pub insert_row : Row → List Row → List Row
unfolding text_ltb
insert_row r [] = r ∷ []
insert_row r (x ∷ xs) =
    if text_ltb x.account.code r.account.code then x ∷ insert_row r xs else r ∷ x ∷ xs

unfoldable pub sort_rows : List Row → List Row
unfolding insert_row
sort_rows [] = []
sort_rows (r ∷ rs) = insert_row r (sort_rows rs)

unfoldable pub trial_rows : Option ℕ → Option ℕ → Db → List Row
unfolding sort_rows with_accounts group_lines
trial_rows start end s =
    sort_rows (with_accounts s.accounts (group_lines (lines_in (in_period start end) s.journal)))

abbrev pub total_debit : List Row → ℕ
total_debit [] = 0
total_debit (r ∷ rs) = r.debit + total_debit rs

abbrev pub total_credit : List Row → ℕ
total_credit [] = 0
total_credit (r ∷ rs) = r.credit + total_credit rs

pub record TrialBalance : Type 0 where
  pub rows : List Row
  pub debit_total : ℕ
  pub credit_total : ℕ
  pub balanced : Bool

unfoldable pub trial_balance : Option ℕ → Option ℕ → Db → TrialBalance
trial_balance start end s = record {
  rows = trial_rows start end s;
  debit_total = total_debit (trial_rows start end s);
  credit_total = total_credit (trial_rows start end s);
  balanced = total_debit (trial_rows start end s) == total_credit (trial_rows start end s);
}

abbrev pub same_type : AccountType → AccountType → Bool
same_type AccountType.asset AccountType.asset = true
same_type AccountType.liability AccountType.liability = true
same_type AccountType.equity AccountType.equity = true
same_type AccountType.income AccountType.income = true
same_type AccountType.expense AccountType.expense = true
same_type _ _ = false

abbrev pub is_type : AccountType → Row → Bool
is_type t r = same_type t r.account.type_

-- The balances of one type, debits positive.
abbrev pub sum_type : AccountType → List Row → ℤ
sum_type t [] = pos 0
sum_type t (r ∷ rs) = if is_type t r then r.balance +ℤ sum_type t rs else sum_type t rs

pub record ProfitAndLoss : Type 0 where
  pub income : List Row
  pub expense : List Row
  pub income_total : ℤ
  pub expense_total : ℤ
  pub net_profit : ℤ

unfoldable pub pnl : Option ℕ → Option ℕ → Db → ProfitAndLoss
pnl start end s =
    let rows = (trial_balance start end s).rows in
    record {
      income = filter_by (is_type AccountType.income) rows;
      expense = filter_by (is_type AccountType.expense) rows;
      income_total = neg (sum_type AccountType.income rows);
      expense_total = sum_type AccountType.expense rows;
      net_profit = neg (sum_type AccountType.income rows) -ℤ sum_type AccountType.expense rows;
    }

-- `_sum`: liabilities, equity and income grow on the credit side.
abbrev pub credit_normal : AccountType → Bool
credit_normal AccountType.liability = true
credit_normal AccountType.equity = true
credit_normal AccountType.income = true
credit_normal _ = false

abbrev pub sheet_sum : AccountType → List Row → ℤ
sheet_sum t rows = if credit_normal t then neg (sum_type t rows) else sum_type t rows

pub record BalanceSheet : Type 0 where
  pub assets_total : ℤ
  pub liabilities_total : ℤ
  pub equity_total : ℤ
  pub retained_earnings : ℤ
  pub liabilities_and_equity_total : ℤ
  pub balanced : Bool

abbrev sheet_of : List Row → BalanceSheet
sheet_of rows =
    let assets = sheet_sum AccountType.asset rows in
    let liabilities = sheet_sum AccountType.liability rows in
    let equity = sheet_sum AccountType.equity rows in
    let retained = sheet_sum AccountType.income rows -ℤ sheet_sum AccountType.expense rows in
    record {
      assets_total = assets;
      liabilities_total = liabilities;
      equity_total = equity;
      retained_earnings = retained;
      liabilities_and_equity_total = liabilities +ℤ equity +ℤ retained;
      balanced = eqb_ℤ assets (liabilities +ℤ equity +ℤ retained);
    }

unfoldable pub balance_sheet : Option ℕ → Db → BalanceSheet
balance_sheet end s = sheet_of (trial_balance none end s).rows
