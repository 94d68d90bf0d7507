-- ===== src/Inventory/Movements/Outcome.antt =====
-- `_post_movement`, on every branch (backend/app/modules/inventory/service.py).
use blyns_ops.Prelude.{
  ℕ, ◌+◌, ◌≤◌, ◌≡◌, refl, ◌∙◌, sym, subst, ap, ◌⊎◌, inl, inr, Bool, true, false, ◌||◌, List, [],
  ◌∷◌, arith, is_some, insert_one, find_one, Bool-cases,
}
use blyns_ops.Prelude.Int.{ℤ, pos, neg, leb_ℤ}
use blyns_ops.Tenant.{Db, Movement, Result, ok, err, write_failed, or_undo, undone}
use blyns_ops.Inventory.Stock.{at_key, claim_stock, release_stock, on_hand}
use blyns_ops.Inventory.Stock.Cache.{
  UniqueKeys, add_at, on_hand_eq, add_at_cancel, claim_stock_exact, claim_stock_refused,
  claim_stock_frame, claim_stock-on_hand, claim_stock-UniqueKeys, claim_stock_found,
  claim_stock_rows, release_stock_rows, release_stock-on_hand, release_stock-UniqueKeys,
}
use blyns_ops.Inventory.Movements.{Posting, new_movement, insert_movement, post_movement}

-- The database without the inventory's ledger and cache, and without the driver's part.
abbrev pub others : Db → Db
others s = record s { movements = []; levels = []; next_id = 0; faults = [] }

-- The stock is as it was at `s`: the same quantities and the same ledger.
pub record SameStock (s s' : Db) : Type 0 where
  pub quantities : (j k : ℕ) → on_hand s' j k ≡ on_hand s j k
  pub ledger : s'.movements ≡ s.movements
  pub unique : UniqueKeys s'.levels
  pub rows :
      (j k : ℕ)
      → is_some (find_one (at_key j k) s.levels) ≡ true
      → is_some (find_one (at_key j k) s'.levels) ≡ true
  pub ids : s.next_id ≤ s'.next_id
  pub rest : others s' ≡ others s

-- `m` has been posted: one more row in the ledger, and its quantity in the cache.
pub record IsPosted (product warehouse : ℕ) (d : ℤ) (x : Posting) (allow_negative : Bool)
    (s s' : Db) (m : Movement) : Type 0 where
  pub covered :
      (leb_ℤ (pos 0) d || allow_negative || leb_ℤ (neg d) (on_hand s product warehouse)) ≡ true
  pub row : m ≡ new_movement s.next_id product warehouse d x
  pub ledger : s'.movements ≡ insert_one s.movements m
  pub quantities : (j k : ℕ) → on_hand s' j k ≡ add_at product warehouse d j k (on_hand s j k)
  pub unique : UniqueKeys s'.levels
  pub rows :
      (j k : ℕ)
      → is_some (find_one (at_key j k) s.levels) ≡ true
      → is_some (find_one (at_key j k) s'.levels) ≡ true
  pub found : is_some (find_one (at_key product warehouse) s'.levels) ≡ true
  pub ids : s'.next_id ≡ s.next_id + 1
  pub rest : others s' ≡ others s

abbrev pub Posts : ℕ → ℕ → ℤ → Posting → Bool → Db → Result Movement × Db → Type 0
Posts p w d x allow_negative s (ok m, s') = IsPosted p w d x allow_negative s s' m
Posts p w d x allow_negative s (err e, s') = SameStock s s'

abbrev after_insert : (ℕ → Movement) → List Bool → Db → Db
after_insert row fs s = record s {
  movements = insert_one s.movements (row s.next_id);
  next_id = s.next_id + 1;
  faults = fs;
}

insert_movement-cases :
    (row : ℕ → Movement) (s : Db)
    → (fs : List Bool) × ((insert_movement row s ≡ (err write_failed, record s { faults = fs }))
        ⊎ (insert_movement row s ≡ (ok (row s.next_id), after_insert row fs s)))
unfolding insert_movement
insert_movement-cases row s = go s.faults refl
  where
    go :
        (fs : List Bool)
        → s.faults ≡ fs
        → (fs' : List Bool) × ((insert_movement row s
              ≡ (err write_failed, record s { faults = fs' }))
            ⊎ (insert_movement row s ≡ (ok (row s.next_id), after_insert row fs' s)))
    go [] e = ([], inr (ground arith))
    go (true ∷ fs) e = (fs, inl (ground arith))
    go (false ∷ fs) e = (fs, inr (ground arith))

pub SameStock-refl : (s : Db) → UniqueKeys s.levels → SameStock s s
SameStock-refl s u = record {
  quantities = λ j k. refl;
  ledger = refl;
  unique = u;
  rows = λ j k h. h;
  ids = omega arith;
  rest = refl;
}

module _ (p w : ℕ) (d : ℤ) (x : Posting) (allow_negative : Bool) (s : Db) where
  abbrev claimed_db : Db
  claimed_db = (claim_stock p w d allow_negative s).1

  claimed-movements : claimed_db.movements ≡ s.movements
  claimed-movements = ap (λ (t : Db). t.movements) (claim_stock_frame p w d allow_negative s)

  claimed-ids : claimed_db.next_id ≡ s.next_id
  claimed-ids = ap (λ (t : Db). t.next_id) (claim_stock_frame p w d allow_negative s)

  claimed-others : others claimed_db ≡ others s
  claimed-others = ap others (claim_stock_frame p w d allow_negative s)

  post_ok :
      (fs : List Bool)
      → UniqueKeys s.levels
      → (claim_stock p w d allow_negative s).0 ≡ true
      → IsPosted p w d x allow_negative s
          (after_insert (λ id. new_movement id p w d x) fs claimed_db)
          (new_movement claimed_db.next_id p w d x)
  post_ok fs u claimed = record {
    covered = sym (claim_stock_exact p w d allow_negative s u) ∙ claimed;
    row = rw claimed-ids;
    ledger = rw claimed-movements;
    quantities =
        λ j k. unfold on_hand in (claim_stock-on_hand p w d allow_negative s j k u claimed);
    unique = claim_stock-UniqueKeys p w d allow_negative s u;
    rows = claim_stock_rows p w d allow_negative s;
    found = claim_stock_found p w d allow_negative s claimed;
    ids = rw claimed-ids;
    rest = claimed-others;
  }

  released-on_hand :
      (fs : List Bool) (j k : ℕ)
      → UniqueKeys s.levels
      → (claim_stock p w d allow_negative s).0 ≡ true
      → on_hand (release_stock p w d (record claimed_db { faults = fs })) j k ≡ on_hand s j k
  released-on_hand fs j k u claimed =
      release_stock-on_hand p w d (record claimed_db { faults = fs }) j k
        (claim_stock_found p w d allow_negative s claimed)
      ∙ ap (add_at p w (neg d) j k) (
          on_hand_eq (record claimed_db { faults = fs }) claimed_db j k refl
          ∙ claim_stock-on_hand p w d allow_negative s j k u claimed)
      ∙ add_at_cancel p w j k d (on_hand s j k)

  post_undone :
      (fs : List Bool)
      → UniqueKeys s.levels
      → (claim_stock p w d allow_negative s).0 ≡ true
      → SameStock s (release_stock p w d (record claimed_db { faults = fs }))
  unfolding release_stock
  post_undone fs u claimed = record {
    quantities = λ j k. released-on_hand fs j k u claimed;
    ledger = claimed-movements;
    unique =
        release_stock-UniqueKeys p w d (record claimed_db { faults = fs })
          (claim_stock-UniqueKeys p w d allow_negative s u);
    rows = λ j k h.
        release_stock_rows p w d (record claimed_db { faults = fs }) j k
          (claim_stock_rows p w d allow_negative s j k h);
    ids = omega (arith, claimed-ids);
    rest = claimed-others;
  }

  abbrev post_insert : Result Movement × Db
  post_insert =
      or_undo (insert_movement (λ id. new_movement id p w d x)) (release_stock p w d) claimed_db

  abbrev AfterUndo : Result Movement × Db → Type 0
  AfterUndo r = Posts p w d x allow_negative s (undone (release_stock p w d) r)

  post_insert-Posts :
      UniqueKeys s.levels
      → (claim_stock p w d allow_negative s).0 ≡ true
      → Posts p w d x allow_negative s post_insert
  post_insert-Posts u claimed =
      let (fs, ended) = insert_movement-cases (λ id. new_movement id p w d x) claimed_db in
      elim ended [
        | inl e ↦ subst AfterUndo (sym e) (post_undone fs u claimed)
        | inr e ↦ subst AfterUndo (sym e) (post_ok fs u claimed)
      ]

  -- A posting writes its row and its quantity, or raises and leaves the stock as it was: also where
  -- the ledger write raises after the claim.
  pub post_movement-Posts :
      UniqueKeys s.levels → Posts p w d x allow_negative s (post_movement p w d x allow_negative s)
  unfolding post_movement
  post_movement-Posts u = elim (Bool-cases (claim_stock p w d allow_negative s).0) [
    | inr refused ↦
        rw (refused, claim_stock_refused p w d allow_negative s refused) (SameStock-refl s u)
    | inl claimed ↦ rw claimed (post_insert-Posts u claimed)
  ]
