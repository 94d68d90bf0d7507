-- ===== src/Finance/Posting/Balance.antt =====
-- The journal's invariant and `_post_entry` (backend/app/modules/finance/service.py).
use blyns_ops.Prelude.{
  ℕ, ◌<◌, ◌≡◌, refl, ap, sym, subst, insert_one, false, Option, List, [], arith, any_of, All,
  All-insert_one,
}
use blyns_ops.Tenant.{
  Db, Principal, JournalLine, SourceModule, Entry, Result, ok, err, new_id, modify, pure, ◌>>◌,
}
use blyns_ops.Tenant.Rules.{
  Keeps, IsQuery, query_rules, query_rule, outcome_rule, Inserts, new_id-Inserts,
}
use blyns_ops.Finance.Posting.{
  sum_debit, sum_credit, two_sided, new_entry, add_entry, check_entry, write_entry, post_entry,
}

-- Debits equal credits, the entry has a value, and no line stands on both sides.
pub record IsBalanced (e : Entry) : Type 0 where
  pub equal : sum_debit e.lines ≡ sum_credit e.lines
  pub positive : 0 < sum_debit e.lines
  pub one_sided : any_of two_sided e.lines ≡ false

-- Every entry of the journal balances.
pub record HasBalancedBooks (s : Db) : Type 0 where
  pub entries : All IsBalanced s.journal

-- The database without the journal and the driver's part.
abbrev pub beside_journal : Db → Db
beside_journal s = record s { journal = []; next_id = 0; faults = [] }

-- What a posting does: one balanced entry more, or nothing in the journal.
pub record IsEntered (pr : Principal) (date : ℕ) (source : SourceModule) (doc : Option ℕ)
    (lines : List JournalLine) (s s' : Db) (e : Entry) : Type 0 where
  pub entry : e ≡ new_entry pr date source doc lines s.next_id
  pub balanced : IsBalanced e
  pub books : s'.journal ≡ insert_one s.journal e
  pub rest : beside_journal s' ≡ beside_journal s

abbrev pub Enters :
    Principal → ℕ → SourceModule → Option ℕ → List JournalLine → Db → Result Entry × Db → Type 0
Enters pr date source doc lines s (ok e, s') = IsEntered pr date source doc lines s s' e
Enters pr date source doc lines s (err e, s') =
    (s'.journal ≡ s.journal) × (beside_journal s' ≡ beside_journal s)

check_entry-IsQuery : (lines : List JournalLine) → IsQuery (check_entry lines)
unfolding check_entry
check_entry-IsQuery lines = search query_rules

check_entry_passed :
    (lines : List JournalLine) (s : Db) (u : Unit {0})
    → (check_entry lines s).0 ≡ ok u
    → (sum_debit lines ≡ sum_credit lines)
      × (0 < sum_debit lines)
      × (any_of two_sided lines ≡ false)
unfolding check_entry
check_entry_passed lines s u h = ground arith

module _ (pr : Principal) (date : ℕ) (source : SourceModule) (doc : Option ℕ)
    (lines : List JournalLine) (s : Db) where
  write_entry-Enters :
      (sum_debit lines ≡ sum_credit lines)
      → (0 < sum_debit lines)
      → (any_of two_sided lines ≡ false)
      → Enters pr date source doc lines s (write_entry pr date source doc lines s)
  unfolding write_entry
  write_entry-Enters equal positive one_sided =
      outcome_rule (Inserts s) (Enters pr date source doc lines s) new_id
        (λ id.
          modify (add_entry (new_entry pr date source doc lines id))
          >> pure (new_entry pr date source doc lines id))
        s (new_id-Inserts s) (λ e s' h. (ap (λ (t : Db). t.journal) h, ap beside_journal h))
        (λ id s' h. record {
          entry = rw h.0;
          balanced = record { equal = equal; positive = positive; one_sided = one_sided };
          books = ap (λ (t : Db). insert_one t.journal (new_entry pr date source doc lines id)) h.1;
          rest = ap beside_journal h.1;
        })

  -- A posting that returns has added one entry, which balances, has a value and has no line on both
  -- sides; any other leaves the journal as it was. Neither touches another collection.
  pub post_entry-Enters : Enters pr date source doc lines s (post_entry pr date source doc lines s)
  post_entry-Enters =
      unfold post_entry in
      query_rule (Enters pr date source doc lines s) (check_entry lines)
        (λ _. write_entry pr date source doc lines) s (check_entry-IsQuery lines)
        (λ e. (refl, refl))
        (λ u h.
          let passed = check_entry_passed lines s u h in
          write_entry-Enters passed.0 passed.1 passed.2)

  -- Whatever is posted, a journal of balanced entries stays one.
  pub post_entry-HasBalancedBooks :
      HasBalancedBooks s → HasBalancedBooks (post_entry pr date source doc lines s).1
  post_entry-HasBalancedBooks h =
      go (post_entry pr date source doc lines s).0 (post_entry pr date source doc lines s).1
        post_entry-Enters
    where
      go :
          (r : Result Entry) (s' : Db)
          → Enters pr date source doc lines s (r, s')
          → HasBalancedBooks s'
      go (ok e) s' entered = record {
        entries =
            subst (λ (es : List Entry). All IsBalanced es) (sym entered.books)
              (All-insert_one IsBalanced s.journal e h.entries entered.balanced);
      }
      go (err e) s' same = record {
        entries = subst (λ (es : List Entry). All IsBalanced es) (sym same.0) h.entries;
      }

pub post_entry-Keeps :
    (pr : Principal) (date : ℕ) (source : SourceModule) (doc : Option ℕ) (lines : List JournalLine)
    → Keeps HasBalancedBooks (post_entry pr date source doc lines)
post_entry-Keeps pr date source doc lines = record {
  at = λ s h. post_entry-HasBalancedBooks pr date source doc lines s h;
}
