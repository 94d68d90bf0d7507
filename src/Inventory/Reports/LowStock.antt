-- ===== src/Inventory/Reports/LowStock.antt =====
-- The low-stock list and its count (backend/app/modules/inventory/repository.py).
use blyns_ops.Prelude.{
  suc, true, false, some, none, Option, if◌then◌else◌, List, [], ◌∷◌, ◌≡◌, refl, sym, ◌∙◌, ap,
  subst, ◌<◌, ◌==◌, ◌↔◌, inl, inr, All, arith, length, find_one, Bool-cases, Option-cases,
}
use blyns_ops.Prelude.Int.{ℤ, pos, ◌≤ℤ◌, leb_ℤ}
use blyns_ops.Prelude.Members.{In, first, later, split}
use blyns_ops.Tenant.{Db, Product, Level}
use blyns_ops.Inventory.Reports.{
  is_low, product_by_id, low_rows, insert_row, sort_rows, low_stock, low_stock_count,
}

-- A row of the cache and its product that belong on the list: the product is active and not deleted, has a
-- reorder point, and the row holds no more than that.
pub record IsLow (products : List Product) (levels : List Level) (l : Level) (p : Product)
    : Type 0 where
  pub inside : In l levels
  pub product : find_one (λ q. l.product_id == q.id) products ≡ some p
  pub active : p.is_active ≡ true
  pub live : p.is_deleted ≡ false
  pub reorders : 0 < p.reorder_point
  pub low : l.on_hand ≤ℤ pos p.reorder_point

-- By rising quantity on hand.
abbrev pub IsSorted : List (Level × Product) → Type 0
IsSorted [] = Unit
IsSorted (r ∷ rs) = All (λ x. r.0.on_hand ≤ℤ x.0.on_hand) rs × IsSorted rs

-- What the pipeline adds for a row, with the product that `$lookup` found.
abbrev joined : Level → Option Product → List (Level × Product) → List (Level × Product)
joined l o rest = elim o [ none ↦ rest | some p ↦ if is_low l p then (l, p) ∷ rest else rest ]

module _ (ps : List Product) where
  skipped :
      (k : Level) (ls : List Level) (l : Level) (p : Product)
      → IsLow ps ls l p
      → IsLow ps (k ∷ ls) l p
  skipped k ls l p h = record {
    inside = later h.inside;
    product = h.product;
    active = h.active;
    live = h.live;
    reorders = h.reorders;
    low = h.low;
  }

  taken :
      (l : Level) (ls : List Level) (p : Product)
      → find_one (λ q. l.product_id == q.id) ps ≡ some p
      → is_low l p ≡ true
      → IsLow ps (l ∷ ls) l p
  taken l ls p found h = record {
    inside = first;
    product = found;
    active = ground arith;
    live = ground arith;
    reorders = ground arith;
    low = ground arith;
  }

  passes : (ls : List Level) (l : Level) (p : Product) → IsLow ps ls l p → is_low l p ≡ true
  passes ls l p h = ground (arith, h.active, h.live, h.reorders, h.low)

  row_absent :
      (k : Level) (ls : List Level)
      → product_by_id k.product_id ps ≡ none
      → low_rows ps (k ∷ ls) ≡ low_rows ps ls
  unfolding low_rows
  row_absent k ls e = ap (λ o. joined k o (low_rows ps ls)) e

  row_joined :
      (k : Level) (ls : List Level) (p : Product)
      → product_by_id k.product_id ps ≡ some p
      → low_rows ps (k ∷ ls) ≡ (if is_low k p then (k, p) ∷ low_rows ps ls else low_rows ps ls)
  unfolding low_rows
  row_joined k ls p e = ap (λ o. joined k o (low_rows ps ls)) e

  low_rows-IsLow :
      (ls : List Level) (l : Level) (p : Product) → In (l, p) (low_rows ps ls) → IsLow ps ls l p
  unfolding low_rows
  low_rows-IsLow [] l p h = elim h [ ]
  low_rows-IsLow (k ∷ ls) l p h = elim (Option-cases (product_by_id k.product_id ps)) [
    | inl e ↦ skipped k ls l p (low_rows-IsLow ls l p (simp (row_absent k ls e) at h))
    | inr found ↦ elim (Bool-cases (is_low k found.0)) [
      | inl low ↦ elim (split (simp (row_joined k ls found.0 found.1, low) at h)) [
        | inl same ↦
            subst (λ (x : Level × Product). IsLow ps (k ∷ ls) x.0 x.1) (sym same)
              (taken k ls found.0 found.1 low)
        | inr rest ↦ skipped k ls l p (low_rows-IsLow ls l p rest)
      ]
      | inr high ↦
          skipped k ls l p
            (low_rows-IsLow ls l p (simp (row_joined k ls found.0 found.1, high) at h))
    ]
  ]

  IsLow-low_rows :
      (ls : List Level) (l : Level) (p : Product)
      → In l ls
      → find_one (λ q. l.product_id == q.id) ps ≡ some p
      → is_low l p ≡ true
      → In (l, p) (low_rows ps ls)
  IsLow-low_rows [] l p h found low = elim h [ ]
  IsLow-low_rows (l ∷ ls) _ p first found low = rw (row_joined l ls p found, low) first
  IsLow-low_rows (k ∷ ls) l p (later h) found low =
      elim (Option-cases (product_by_id k.product_id ps)) [
        | inl e ↦ rw (row_absent k ls e) (IsLow-low_rows ls l p h found low)
        | inr other ↦ elim (Bool-cases (is_low k other.0)) [
          | inl hit ↦
              rw (row_joined k ls other.0 other.1, hit) (later (IsLow-low_rows ls l p h found low))
          | inr miss ↦
              rw (row_joined k ls other.0 other.1, miss) (IsLow-low_rows ls l p h found low)
        ]
      ]

behind : {A : Type 0} {x r : A} (y : A) {rs : List A} → In x (r ∷ rs) → In x (r ∷ y ∷ rs)
behind y first = first
behind y (later k) = later (later k)

module _ (r : Level × Product) where
  insert_row-In :
      (x : Level × Product) (rs : List (Level × Product)) → In x (insert_row r rs) → In x (r ∷ rs)
  unfolding insert_row
  insert_row-In x [] h = h
  insert_row-In x (y ∷ rs) h = elim (Bool-cases (leb_ℤ r.0.on_hand y.0.on_hand)) [
    | inl here ↦ simp here at h
    | inr there ↦ elim (split (simp there at h)) [
      | inl same ↦ later (subst (λ (z : Level × Product). In z (y ∷ rs)) (sym same) first)
      | inr rest ↦ behind y (insert_row-In x rs rest)
    ]
  ]

  In-insert_row :
      (x : Level × Product) (rs : List (Level × Product)) → In x (r ∷ rs) → In x (insert_row r rs)
  unfolding insert_row
  In-insert_row x [] h = h
  In-insert_row x (y ∷ rs) h = elim (Bool-cases (leb_ℤ r.0.on_hand y.0.on_hand)) [
    | inl here ↦ rw here h
    | inr there ↦ rw there (elim (split h) [
      | inl same ↦
          later
            (In-insert_row x rs (subst (λ (z : Level × Product). In z (r ∷ rs)) (sym same) first))
      | inr rest ↦ elim (split rest) [
        | inl same ↦ subst (λ (z : Level × Product). In z (y ∷ insert_row r rs)) (sym same) first
        | inr k ↦ later (In-insert_row x rs (later k))
      ]
    ])
  ]

  length-insert_row : (rs : List (Level × Product)) → length (insert_row r rs) ≡ suc (length rs)
  unfolding insert_row
  length-insert_row [] = refl
  length-insert_row (x ∷ rs) = ground (arith, length-insert_row rs)

  -- What is above everything in the list and above the new row is above all.
  All-insert_row :
      (b : ℤ) (rs : List (Level × Product))
      → b ≤ℤ r.0.on_hand
      → All (λ x. b ≤ℤ x.0.on_hand) rs
      → All (λ x. b ≤ℤ x.0.on_hand) (insert_row r rs)
  unfolding insert_row
  All-insert_row b [] h k = (h, tt)
  All-insert_row b (x ∷ rs) h k = elim (Bool-cases (leb_ℤ r.0.on_hand x.0.on_hand)) [
    | inl here ↦ rw here (h, k)
    | inr there ↦ rw there (k.0, All-insert_row b rs h k.1)
  ]

  raised :
      (x : ℤ) (rs : List (Level × Product))
      → r.0.on_hand ≤ℤ x
      → All (λ y. x ≤ℤ y.0.on_hand) rs
      → All (λ y. r.0.on_hand ≤ℤ y.0.on_hand) rs
  raised x [] h k = tt
  raised x (y ∷ rs) h k = (omega (arith, h, k.0), raised x rs h k.1)

  insert_row-IsSorted : (rs : List (Level × Product)) → IsSorted rs → IsSorted (insert_row r rs)
  unfolding insert_row
  insert_row-IsSorted [] h = (tt, tt)
  insert_row-IsSorted (x ∷ rs) h = elim (Bool-cases (leb_ℤ r.0.on_hand x.0.on_hand)) [
    | inl here ↦ rw here ((ground arith, raised x.0.on_hand rs (ground arith) h.0), h)
    | inr there ↦
        rw there (All-insert_row x.0.on_hand rs (ground arith) h.0, insert_row-IsSorted rs h.1)
  ]

sort_rows-In : (x : Level × Product) (rs : List (Level × Product)) → In x (sort_rows rs) ↔ In x rs
unfolding sort_rows
sort_rows-In x [] = (λ h. h, λ h. h)
sort_rows-In x (r ∷ rs) = (
  λ h. elim (split (insert_row-In r x (sort_rows rs) h)) [
    | inl same ↦ subst (λ (z : Level × Product). In z (r ∷ rs)) (sym same) first
    | inr k ↦ later ((sort_rows-In x rs).0 k)
  ],
  λ h. elim (split h) [
    | inl same ↦
        In-insert_row r x (sort_rows rs)
          (subst (λ (z : Level × Product). In z (r ∷ sort_rows rs)) (sym same) first)
    | inr k ↦ In-insert_row r x (sort_rows rs) (later ((sort_rows-In x rs).1 k))
  ],
)

sort_rows-IsSorted : (rs : List (Level × Product)) → IsSorted (sort_rows rs)
unfolding sort_rows
sort_rows-IsSorted [] = tt
sort_rows-IsSorted (r ∷ rs) = insert_row-IsSorted r (sort_rows rs) (sort_rows-IsSorted rs)

length-sort_rows : (rs : List (Level × Product)) → length (sort_rows rs) ≡ length rs
unfolding sort_rows
length-sort_rows [] = refl
length-sort_rows (r ∷ rs) = length-insert_row r (sort_rows rs) ∙ ap suc (length-sort_rows rs)

-- A row of the cache is on the low-stock list, with its product, exactly if the product is active and not
-- deleted, has a reorder point, and the row holds no more than that; the list is in the order of the
-- quantities on hand, and the dashboard's count is its length.
pub low_stock_exact :
    (s : Db)
    → ((l : Level) (p : Product) → In (l, p) (low_stock s) ↔ IsLow s.products s.levels l p)
      × IsSorted (low_stock s)
      × (low_stock_count s ≡ length (low_stock s))
unfolding low_stock low_stock_count
low_stock_exact s = (
  λ l p. (
    λ h.
        low_rows-IsLow s.products s.levels l p
          ((sort_rows-In (l, p) (low_rows s.products s.levels)).0 h),
    λ h. (sort_rows-In (l, p) (low_rows s.products s.levels)).1 (
        IsLow-low_rows s.products s.levels l p h.inside h.product
          (passes s.products s.levels l p h)),
  ),
  sort_rows-IsSorted (low_rows s.products s.levels),
  sym (length-sort_rows (low_rows s.products s.levels)),
)
