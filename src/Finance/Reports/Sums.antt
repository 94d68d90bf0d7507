-- ===== src/Finance/Reports/Sums.antt =====
-- The rows of the trial balance against the lines of the journal
-- (backend/app/modules/finance/repository.py, `trial_balance`).
use blyns_ops.Prelude.{
  ℕ, ◌+◌, ◌≡◌, refl, ap, ◌∙◌, Bool, true, Option, none, some, List, [], ◌∷◌, ◌++◌, arith, is_some,
  find_one, insert_one, update_one, All, Bool-cases, inl, inr,
}
use blyns_ops.Prelude.Int.{sub_ℕ}
use blyns_ops.Tenant.{Db, Account, JournalLine, Entry}
use blyns_ops.Finance.Posting.{sum_debit, sum_credit}
use blyns_ops.Finance.Posting.Balance.{IsBalanced}
use blyns_ops.Finance.Issues.{text_ltb}
use blyns_ops.Finance.Reports.{
  in_period, lines_in, Group, group_of, add_to, same_account, add_line, group_lines, Row, row_of,
  account_by_id, with_accounts, insert_row, sort_rows, trial_rows, total_debit, total_credit,
}

-- Every line of the journal names an account of the chart, live or deleted.
abbrev pub IsOnChart : List Account → JournalLine → Type 0
IsOnChart accounts l = is_some (account_by_id accounts l.account_id) ≡ true

abbrev pub AllOnChart : Db → Type 0
AllOnChart s = All (λ (e : Entry). All (IsOnChart s.accounts) e.lines) s.journal

abbrev group_debit : List Group → ℕ
group_debit [] = 0
group_debit (g ∷ gs) = g.debit + group_debit gs

abbrev group_credit : List Group → ℕ
group_credit [] = 0
group_credit (g ∷ gs) = g.credit + group_credit gs

-- The sums of the lines of balanced entries.
sum_debit-append : (a b : List JournalLine) → sum_debit (a ++ b) ≡ sum_debit a + sum_debit b
sum_debit-append [] b = omega arith
sum_debit-append (l ∷ a) b = omega (arith, sum_debit-append a b)

sum_credit-append : (a b : List JournalLine) → sum_credit (a ++ b) ≡ sum_credit a + sum_credit b
sum_credit-append [] b = omega arith
sum_credit-append (l ∷ a) b = omega (arith, sum_credit-append a b)

pub lines_balance :
    (within : ℕ → Bool) (es : List Entry)
    → All IsBalanced es
    → sum_debit (lines_in within es) ≡ sum_credit (lines_in within es)
lines_balance within [] h = refl
lines_balance within (e ∷ es) h =
    let equal = h.0.equal in
    ground (
      arith,
      equal,
      lines_balance within es h.1,
      sum_debit-append e.lines (lines_in within es),
      sum_credit-append e.lines (lines_in within es),
    )

update-group :
    (l : JournalLine) (gs : List Group)
    → is_some (find_one (same_account l.account_id) gs) ≡ true
    → (group_debit (update_one (same_account l.account_id) (add_to l) gs)
        ≡ l.debit + group_debit gs)
      × (group_credit (update_one (same_account l.account_id) (add_to l) gs)
          ≡ l.credit + group_credit gs)
update-group l [] h = cc
update-group l (g ∷ gs) h = ground (arith, update-group l gs)

insert-group :
    (l : JournalLine) (gs : List Group)
    → (group_debit (insert_one gs (group_of l)) ≡ l.debit + group_debit gs)
      × (group_credit (insert_one gs (group_of l)) ≡ l.credit + group_credit gs)
insert-group l [] = (refl, refl)
insert-group l (g ∷ gs) = omega (arith, insert-group l gs)

add_line-sums :
    (l : JournalLine) (gs : List Group)
    → (group_debit (add_line l gs) ≡ l.debit + group_debit gs)
      × (group_credit (add_line l gs) ≡ l.credit + group_credit gs)
unfolding add_line
add_line-sums l gs = elim (Bool-cases (is_some (find_one (same_account l.account_id) gs))) [
  | inl known ↦ rw known (update-group l gs known)
  | inr fresh ↦ rw fresh (insert-group l gs)
]

group_lines-sums :
    (ls : List JournalLine)
    → (group_debit (group_lines ls) ≡ sum_debit ls)
      × (group_credit (group_lines ls) ≡ sum_credit ls)
unfolding group_lines
group_lines-sums [] = (refl, refl)
group_lines-sums (l ∷ ls) = omega (arith, add_line-sums l (group_lines ls), group_lines-sums ls)

-- A group names the account of its lines.
abbrev GroupsOnChart : List Account → List Group → Type 0
GroupsOnChart accounts gs = All (λ g. is_some (account_by_id accounts g.account_id) ≡ true) gs

update-chart :
    (accounts : List Account) (q : Group → Bool) (l : JournalLine) (gs : List Group)
    → GroupsOnChart accounts gs
    → GroupsOnChart accounts (update_one q (add_to l) gs)
update-chart accounts q l [] h = tt
update-chart accounts q l (g ∷ gs) h = elim (Bool-cases (q g)) [
  | inl hit ↦ rw hit (h.0, h.1)
  | inr miss ↦ rw miss (h.0, update-chart accounts q l gs h.1)
]

insert-chart :
    (accounts : List Account) (l : JournalLine) (gs : List Group)
    → IsOnChart accounts l
    → GroupsOnChart accounts gs
    → GroupsOnChart accounts (insert_one gs (group_of l))
insert-chart accounts l [] k h = (k, tt)
insert-chart accounts l (g ∷ gs) k h = (h.0, insert-chart accounts l gs k h.1)

group-chart :
    (accounts : List Account) (ls : List JournalLine)
    → All (IsOnChart accounts) ls
    → GroupsOnChart accounts (group_lines ls)
unfolding group_lines add_line
group-chart accounts [] h = tt
group-chart accounts (l ∷ ls) h =
    elim (Bool-cases (is_some (find_one (same_account l.account_id) (group_lines ls)))) [
      | inl known ↦ rw known (
          update-chart accounts (same_account l.account_id) l (group_lines ls)
            (group-chart accounts ls h.1))
      | inr fresh ↦
          rw fresh (insert-chart accounts l (group_lines ls) h.0 (group-chart accounts ls h.1))
    ]

All-append : {A : Type 0} (P : A → Type 0) (a b : List A) → All P a → All P b → All P (a ++ b)
All-append P [] b h k = k
All-append P (x ∷ a) b h k = (h.0, All-append P a b h.1 k)

lines_in-chart :
    (accounts : List Account) (within : ℕ → Bool) (es : List Entry)
    → All (λ (e : Entry). All (IsOnChart accounts) e.lines) es
    → All (IsOnChart accounts) (lines_in within es)
lines_in-chart accounts within [] h = tt
lines_in-chart accounts within (e ∷ es) h = elim (Bool-cases (within e.date)) [
  | inl hit ↦ rw hit (
      All-append (IsOnChart accounts) e.lines (lines_in within es) h.0
        (lines_in-chart accounts within es h.1))
  | inr miss ↦ rw miss (lines_in-chart accounts within es h.1)
]

-- The two sums of the rows, and that each row's balance is their difference.
pub record IsRowsOf (debit credit : ℕ) (rows : List Row) : Type 0 where
  pub debits : total_debit rows ≡ debit
  pub credits : total_credit rows ≡ credit
  pub balances : All (λ (r : Row). r.balance ≡ sub_ℕ r.debit r.credit) rows

with_accounts-rows :
    (accounts : List Account) (gs : List Group)
    → GroupsOnChart accounts gs
    → IsRowsOf (group_debit gs) (group_credit gs) (with_accounts accounts gs)
unfolding with_accounts
with_accounts-rows accounts [] h = record { debits = refl; credits = refl; balances = tt }
with_accounts-rows accounts (g ∷ gs) h =
    go (account_by_id accounts g.account_id) h.0 (with_accounts-rows accounts gs h.1)
  where
    go :
        (found : Option Account)
        → is_some found ≡ true
        → IsRowsOf (group_debit gs) (group_credit gs) (with_accounts accounts gs)
        → IsRowsOf (group_debit (g ∷ gs)) (group_credit (g ∷ gs)) (elim found [
          | none ↦ with_accounts accounts gs
          | some a ↦ row_of a g ∷ with_accounts accounts gs
        ])
    go none k ih = ground arith
    go (some a) k ih =
        let d = ih.debits in
        let c = ih.credits in
        record { debits = rw d refl; credits = rw c refl; balances = (refl, ih.balances) }

-- Sorting the rows changes none of these.
insert_row-rows :
    (r : Row) (rows : List Row) (debit credit : ℕ)
    → r.balance ≡ sub_ℕ r.debit r.credit
    → IsRowsOf debit credit rows
    → IsRowsOf (r.debit + debit) (r.credit + credit) (insert_row r rows)
unfolding insert_row
insert_row-rows r [] debit credit b h = record {
  debits = ap (λ n. r.debit + n) h.debits;
  credits = ap (λ n. r.credit + n) h.credits;
  balances = (b, tt);
}
insert_row-rows r (x ∷ xs) debit credit b h =
    elim (Bool-cases (text_ltb x.account.code r.account.code)) [
      | inl later ↦
          let ih =
            insert_row-rows r xs (total_debit xs) (total_credit xs) b
              (record { debits = refl; credits = refl; balances = h.balances.1 }) in
          let d = ih.debits in
          let c = ih.credits in
          let hd = h.debits in
          let hc = h.credits in
          let rows : IsRowsOf (r.debit + debit) (r.credit + credit) (x ∷ insert_row r xs) = record {
            debits = omega (arith, d, hd);
            credits = omega (arith, c, hc);
            balances = (h.balances.0, ih.balances);
          } in
          rw later rows
      | inr here ↦
          let rows : IsRowsOf (r.debit + debit) (r.credit + credit) (r ∷ x ∷ xs) = record {
            debits = ap (λ n. r.debit + n) h.debits;
            credits = ap (λ n. r.credit + n) h.credits;
            balances = (b, h.balances);
          } in
          rw here rows
    ]

sort_rows-rows :
    (rows : List Row) (debit credit : ℕ)
    → IsRowsOf debit credit rows
    → IsRowsOf debit credit (sort_rows rows)
unfolding sort_rows
sort_rows-rows [] debit credit h = h
sort_rows-rows (r ∷ rs) debit credit h =
    let sorted = insert_row-rows r (sort_rows rs) (total_debit rs) (total_credit rs) h.balances.0 (
      sort_rows-rows rs (total_debit rs) (total_credit rs)
        (record { debits = refl; credits = refl; balances = h.balances.1 })) in
    record {
      debits = sorted.debits ∙ h.debits;
      credits = sorted.credits ∙ h.credits;
      balances = sorted.balances;
    }

pub trial_rows-rows :
    (start end : Option ℕ) (s : Db)
    → AllOnChart s
    → IsRowsOf
        (sum_debit (lines_in (in_period start end) s.journal))
        (sum_credit (lines_in (in_period start end) s.journal))
        (trial_rows start end s)
trial_rows-rows start end s h =
    unfold trial_rows in
    let lines = lines_in (in_period start end) s.journal in
    let sums = group_lines-sums lines in
    let rows = with_accounts-rows s.accounts (group_lines lines) (
      group-chart s.accounts lines (lines_in-chart s.accounts (in_period start end) s.journal h)) in
    sort_rows-rows (with_accounts s.accounts (group_lines lines)) (sum_debit lines)
      (sum_credit lines)
      (record {
        debits = rows.debits ∙ sums.0;
        credits = rows.credits ∙ sums.1;
        balances = rows.balances;
      })
