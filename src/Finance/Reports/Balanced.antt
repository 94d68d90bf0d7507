-- ===== src/Finance/Reports/Balanced.antt =====
-- The totals of the trial balance and of the balance sheet (backend/app/modules/finance/service.py).
use blyns_ops.Prelude.{
  ℕ, ◌+◌, ◌≡◌, sym, ap, ◌∙◌, true, Option, none, List, [], ◌∷◌, arith, All, if◌then◌else◌,
}
use blyns_ops.Prelude.Int.{
  ℤ, pos, ◌+ℤ◌, ◌-ℤ◌, neg, eqb_ℤ, sub_ℕ, eq_of_parts, pos_part, neg_part, +ℤ_parts, int_laws,
}
use blyns_ops.Tenant.{Db, AccountType}
use blyns_ops.Finance.Posting.Balance.{HasBalancedBooks}
use blyns_ops.Finance.Reports.{
  in_period, Row, trial_rows, total_debit, total_credit, trial_balance, sum_type, same_type,
  balance_sheet,
}
use blyns_ops.Finance.Reports.Sums.{AllOnChart, lines_balance, trial_rows-rows}

-- In a journal of balanced entries whose lines all name an account of the chart, the trial balance of
-- any period has equal debits and credits and is reported as balanced.
pub trial_balance_balanced :
    (start end : Option ℕ) (s : Db)
    → HasBalancedBooks s
    → AllOnChart s
    → ((trial_balance start end s).debit_total ≡ (trial_balance start end s).credit_total)
      × ((trial_balance start end s).balanced ≡ true)
unfolding trial_balance
trial_balance_balanced start end s books chart =
    let rows = trial_rows-rows start end s chart in
    let even =
      rows.debits
      ∙ lines_balance (in_period start end) s.journal books.entries
      ∙ sym rows.credits in
    (even, ground arith)

-- The five types of account share the rows among them.
types_step :
    (t : AccountType) (y a l q i x : ℤ)
    → (if same_type AccountType.asset t then y +ℤ a else a)
        +ℤ (if same_type AccountType.liability t then y +ℤ l else l)
        +ℤ (if same_type AccountType.equity t then y +ℤ q else q)
        +ℤ (if same_type AccountType.income t then y +ℤ i else i)
        +ℤ (if same_type AccountType.expense t then y +ℤ x else x)
      ≡ y +ℤ (a +ℤ l +ℤ q +ℤ i +ℤ x)
types_step AccountType.asset y a l q i x = omega int_laws
types_step AccountType.liability y a l q i x = omega int_laws
types_step AccountType.equity y a l q i x = omega int_laws
types_step AccountType.income y a l q i x = omega int_laws
types_step AccountType.expense y a l q i x = omega int_laws

sub_ℕ_parts : (a b : ℕ) → pos_part (sub_ℕ a b) + b ≡ neg_part (sub_ℕ a b) + a
sub_ℕ_parts a b = ground arith

add-sub_ℕ : (d c td tc : ℕ) → sub_ℕ d c +ℤ sub_ℕ td tc ≡ sub_ℕ (d + td) (c + tc)
add-sub_ℕ d c td tc = eq_of_parts (sub_ℕ d c +ℤ sub_ℕ td tc) (sub_ℕ (d + td) (c + tc)) (
    sum_parts (sub_ℕ d c) (sub_ℕ td tc) (sub_ℕ (d + td) (c + tc)) (sub_ℕ_parts d c)
      (sub_ℕ_parts td tc) (sub_ℕ_parts (d + td) (c + tc)))
  where
    sum_parts :
        (y z w : ℤ)
        → pos_part y + c ≡ neg_part y + d
        → pos_part z + tc ≡ neg_part z + td
        → pos_part w + (c + tc) ≡ neg_part w + (d + td)
        → pos_part (y +ℤ z) + neg_part w ≡ pos_part w + neg_part (y +ℤ z)
    sum_parts y z w hy hz hw = omega (arith, +ℤ_parts y z, hy, hz, hw)

types_sum :
    (rows : List Row)
    → All (λ (r : Row). r.balance ≡ sub_ℕ r.debit r.credit) rows
    → sum_type AccountType.asset rows
        +ℤ sum_type AccountType.liability rows
        +ℤ sum_type AccountType.equity rows
        +ℤ sum_type AccountType.income rows
        +ℤ sum_type AccountType.expense rows
      ≡ sub_ℕ (total_debit rows) (total_credit rows)
types_sum [] h = omega int_laws
types_sum (r ∷ rows) h =
    let b = h.0 in
    types_step r.account.type_ r.balance (sum_type AccountType.asset rows)
      (sum_type AccountType.liability rows) (sum_type AccountType.equity rows)
      (sum_type AccountType.income rows) (sum_type AccountType.expense rows)
    ∙ rw b (
        rw (types_sum rows h.1) (add-sub_ℕ r.debit r.credit (total_debit rows) (total_credit rows)))

sub_ℕ-same : (n : ℕ) → sub_ℕ n n ≡ pos 0
sub_ℕ-same n = ground arith

sheet_equation :
    (a l q i x : ℤ) → a +ℤ l +ℤ q +ℤ i +ℤ x ≡ pos 0 → a ≡ neg l +ℤ neg q +ℤ (neg i -ℤ x)
sheet_equation a l q i x h = omega (int_laws, ap pos_part h, ap neg_part h)

eq→eqb_ℤ : (a b : ℤ) → a ≡ b → eqb_ℤ a b ≡ true
eq→eqb_ℤ a b h = ground (arith, ap pos_part h, ap neg_part h)

-- In a journal of balanced entries whose lines all name an account of the chart, the balance sheet at
-- any date balances: the assets are the liabilities, the equity and the retained earnings together,
-- and it is reported as balanced.
pub balance_sheet_balanced :
    (end : Option ℕ) (s : Db)
    → HasBalancedBooks s
    → AllOnChart s
    → ((balance_sheet end s).assets_total ≡ (balance_sheet end s).liabilities_and_equity_total)
      × ((balance_sheet end s).balanced ≡ true)
unfolding balance_sheet trial_balance
balance_sheet_balanced end s books chart = (
  equation,
  eq→eqb_ℤ (balance_sheet end s).assets_total (balance_sheet end s).liabilities_and_equity_total
      equation,
)
  where
    rows : List Row
    rows = trial_rows none end s

    nets :
        sum_type AccountType.asset rows
          +ℤ sum_type AccountType.liability rows
          +ℤ sum_type AccountType.equity rows
          +ℤ sum_type AccountType.income rows
          +ℤ sum_type AccountType.expense rows
        ≡ pos 0
    nets =
        types_sum rows (trial_rows-rows none end s chart).balances
        ∙ rw (trial_balance_balanced none end s books chart).0 (sub_ℕ-same (total_credit rows))

    equation :
        (balance_sheet end s).assets_total ≡ (balance_sheet end s).liabilities_and_equity_total
    equation =
        sheet_equation (sum_type AccountType.asset rows) (sum_type AccountType.liability rows)
          (sum_type AccountType.equity rows) (sum_type AccountType.income rows)
          (sum_type AccountType.expense rows) nets
