-- ===== src/Inventory/Stock/Cache.antt =====
-- What the writes to the stock cache do to the quantity on hand at each product and warehouse.
use blyns_ops.Prelude.{
  ℕ, ◌≡◌, refl, sym, ap, ◌∙◌, inl, inr, Bool, true, false, Option, none, some, List, [], ◌∷◌, arith,
  ◌&&◌, ◌||◌, ◌==◌, is_some, if◌then◌else◌, find_one, insert_one, update_one, Bool-cases,
}
use blyns_ops.Prelude.Int.{ℤ, pos, ◌+ℤ◌, neg, leb_ℤ, neg_parts, int_laws, +ℤ_neg}
use blyns_ops.Tenant.{Db, Level}
use blyns_ops.Inventory.Stock.{
  at_key, at_key_with, inc_on_hand, upsert_inc, claim_stock, release_stock, on_hand_in, on_hand,
}

-- The key `(j, k)` is `(p, w)`.
abbrev pub same_key : ℕ → ℕ → ℕ → ℕ → Bool
same_key p w j k = p == j && w == k

-- Adding `d` at `(p, w)` to a quantity at `(j, k)`.
abbrev pub add_at : ℕ → ℕ → ℤ → ℕ → ℕ → ℤ → ℤ
add_at p w d j k q = if same_key p w j k then q +ℤ d else q

-- Taking back what was added.
pub add_at_cancel : (p w j k : ℕ) (d q : ℤ) → add_at p w (neg d) j k (add_at p w d j k q) ≡ q
add_at_cancel p w j k d q = grind (int_laws, +ℤ_neg)

-- The quantity on hand is read off the rows alone.
pub on_hand_eq : (s t : Db) (j k : ℕ) → s.levels ≡ t.levels → on_hand s j k ≡ on_hand t j k
unfolding on_hand
on_hand_eq s t j k e = ap (λ (ls : List Level). on_hand_in ls j k) e

-- There is one row at most for each key.
abbrev pub UniqueKeys : List Level → Type 0
UniqueKeys [] = Unit
UniqueKeys (l ∷ ls) = (find_one (at_key l.product_id l.warehouse_id) ls ≡ none) × UniqueKeys ls

update-on_hand :
    (p w j k : ℕ) (d : ℤ) (ls : List Level)
    → is_some (find_one (at_key p w) ls) ≡ true
    → on_hand_in (update_one (at_key p w) (inc_on_hand d) ls) j k
      ≡ add_at p w d j k (on_hand_in ls j k)
update-on_hand p w j k d [] h = cc
update-on_hand p w j k d (l ∷ ls) h = ground (arith, update-on_hand p w j k d ls)

insert-on_hand :
    (p w j k : ℕ) (d : ℤ) (ls : List Level)
    → is_some (find_one (at_key p w) ls) ≡ false
    → on_hand_in
        (insert_one ls (record { product_id = p; warehouse_id = w; on_hand = pos 0 +ℤ d }))
        j
        k
      ≡ add_at p w d j k (on_hand_in ls j k)
insert-on_hand p w j k d [] h = ground arith
insert-on_hand p w j k d (l ∷ ls) h = ground (arith, insert-on_hand p w j k d ls)

upsert-on_hand :
    (p w j k : ℕ) (d : ℤ) (ls : List Level)
    → on_hand_in (upsert_inc p w d ls) j k ≡ add_at p w d j k (on_hand_in ls j k)
unfolding upsert_inc
upsert-on_hand p w j k d ls = elim (Bool-cases (is_some (find_one (at_key p w) ls))) [
  | inl found ↦ rw found (update-on_hand p w j k d ls found)
  | inr missing ↦ rw missing (insert-on_hand p w j k d ls missing)
]

-- Writes keep the keys of the rows.
find-update :
    (q : Level → Bool) (p w : ℕ) (d : ℤ) (ls : List Level)
    → is_some (find_one (at_key p w) (update_one q (inc_on_hand d) ls))
      ≡ is_some (find_one (at_key p w) ls)
find-update q p w d [] = refl
find-update q p w d (l ∷ ls) = ground (arith, find-update q p w d ls)

none_of : (o : Option Level) → is_some o ≡ false → o ≡ none
none_of none h = refl
none_of (some l) h = cc

update-UniqueKeys :
    (q : Level → Bool) (d : ℤ) (ls : List Level)
    → UniqueKeys ls
    → UniqueKeys (update_one q (inc_on_hand d) ls)
update-UniqueKeys q d [] u = tt
update-UniqueKeys q d (l ∷ ls) u = elim (Bool-cases (q l)) [
  | inl hit ↦ rw hit (u.0, u.1)
  | inr miss ↦ rw miss (
    none_of _ (cc (find-update q l.product_id l.warehouse_id d ls, u.0)),
    update-UniqueKeys q d ls u.1,
  )
]

find-insert :
    (p w : ℕ) (l : Level) (ls : List Level)
    → find_one (at_key p w) ls ≡ none
    → at_key p w l ≡ false
    → find_one (at_key p w) (insert_one ls l) ≡ none
find-insert p w l [] h n = ground arith
find-insert p w l (x ∷ ls) h n = ground (arith, find-insert p w l ls)

find-insert_self :
    (l : Level) (ls : List Level)
    → is_some (find_one (at_key l.product_id l.warehouse_id) (insert_one ls l)) ≡ true
find-insert_self l [] = ground arith
find-insert_self l (x ∷ ls) = ground (arith, find-insert_self l ls)

insert-UniqueKeys :
    (l : Level) (ls : List Level)
    → UniqueKeys ls
    → find_one (at_key l.product_id l.warehouse_id) ls ≡ none
    → UniqueKeys (insert_one ls l)
insert-UniqueKeys l [] u h = (refl, tt)
insert-UniqueKeys l (x ∷ ls) u h = (
  find-insert x.product_id x.warehouse_id l ls u.0 (ground arith),
  insert-UniqueKeys l ls u.1 (ground arith),
)

upsert-UniqueKeys :
    (p w : ℕ) (d : ℤ) (ls : List Level) → UniqueKeys ls → UniqueKeys (upsert_inc p w d ls)
unfolding upsert_inc
upsert-UniqueKeys p w d ls u = elim (Bool-cases (is_some (find_one (at_key p w) ls))) [
  | inl found ↦ rw found (update-UniqueKeys (at_key p w) d ls u)
  | inr missing ↦ rw missing (insert-UniqueKeys _ ls u (none_of _ missing))
]

-- With one row for each key the conditional query looks at the row of the key alone.
find_with-none :
    (p w : ℕ) (n : ℤ) (ls : List Level)
    → find_one (at_key p w) ls ≡ none
    → find_one (at_key_with p w n) ls ≡ none
find_with-none p w n [] h = refl
find_with-none p w n (l ∷ ls) h = ground (arith, find_with-none p w n ls)

find_with_exact :
    (p w : ℕ) (n : ℤ) (ls : List Level)
    → UniqueKeys ls
    → leb_ℤ n (pos 0) ≡ false
    → is_some (find_one (at_key_with p w n) ls) ≡ leb_ℤ n (on_hand_in ls p w)
find_with_exact p w n [] u h = sym h
find_with_exact p w n (l ∷ ls) u h =
    ground (arith, find_with_exact p w n ls u.1 h, find_with-none p w n ls)

update_with-eq :
    (p w : ℕ) (n d : ℤ) (ls : List Level)
    → UniqueKeys ls
    → is_some (find_one (at_key_with p w n) ls) ≡ true
    → update_one (at_key_with p w n) (inc_on_hand d) ls ≡ update_one (at_key p w) (inc_on_hand d) ls
update_with-eq p w n d [] u h = refl
update_with-eq p w n d (l ∷ ls) u h =
    ground (arith, update_with-eq p w n d ls u.1, find_with-none p w n ls)

find_with-found :
    (p w : ℕ) (n : ℤ) (ls : List Level)
    → is_some (find_one (at_key_with p w n) ls) ≡ true
    → is_some (find_one (at_key p w) ls) ≡ true
find_with-found p w n [] h = h
find_with-found p w n (l ∷ ls) h = ground (arith, find_with-found p w n ls)

upsert-found :
    (p w : ℕ) (d : ℤ) (ls : List Level)
    → is_some (find_one (at_key p w) (upsert_inc p w d ls)) ≡ true
unfolding upsert_inc
upsert-found p w d ls = elim (Bool-cases (is_some (find_one (at_key p w) ls))) [
  | inl found ↦ rw found (find-update (at_key p w) p w d ls ∙ found)
  | inr missing ↦ rw missing (find-insert_self _ ls)
]

insert_rows :
    (j k : ℕ) (l : Level) (ls : List Level)
    → is_some (find_one (at_key j k) ls) ≡ true
    → is_some (find_one (at_key j k) (insert_one ls l)) ≡ true
insert_rows j k l [] h = cc
insert_rows j k l (x ∷ ls) h = ground (arith, insert_rows j k l ls)

upsert_rows :
    (p w j k : ℕ) (d : ℤ) (ls : List Level)
    → is_some (find_one (at_key j k) ls) ≡ true
    → is_some (find_one (at_key j k) (upsert_inc p w d ls)) ≡ true
unfolding upsert_inc
upsert_rows p w j k d ls h = elim (Bool-cases (is_some (find_one (at_key p w) ls))) [
  | inl found ↦ rw found (find-update (at_key p w) j k d ls ∙ h)
  | inr missing ↦ rw missing (insert_rows j k _ ls h)
]

neg-positive : (d : ℤ) → leb_ℤ (pos 0) d ≡ false → leb_ℤ (neg d) (pos 0) ≡ false
neg-positive d h = ground (arith, neg_parts d)

module _ (p w : ℕ) (d : ℤ) (allow_negative : Bool) (s : Db) where
  -- A claim goes through if it adds stock, if negative stock is allowed, or if enough is on hand.
  pub claim_stock_exact :
      UniqueKeys s.levels
      → (claim_stock p w d allow_negative s).0
        ≡ (leb_ℤ (pos 0) d || allow_negative || leb_ℤ (neg d) (on_hand s p w))
  unfolding claim_stock on_hand
  claim_stock_exact u = ground (arith, find_with_exact p w (neg d) s.levels u, neg-positive d)

  -- A refused claim writes nothing.
  pub claim_stock_refused :
      (claim_stock p w d allow_negative s).0 ≡ false → (claim_stock p w d allow_negative s).1 ≡ s
  unfolding claim_stock
  claim_stock_refused h = ground arith

  -- A claim writes to the cache alone.
  pub claim_stock_frame :
      (claim_stock p w d allow_negative s).1
      ≡ record s { levels = (claim_stock p w d allow_negative s).1.levels }
  unfolding claim_stock
  claim_stock_frame = ground arith

  pub claim_stock-on_hand :
      (j k : ℕ)
      → UniqueKeys s.levels
      → (claim_stock p w d allow_negative s).0 ≡ true
      → on_hand (claim_stock p w d allow_negative s).1 j k ≡ add_at p w d j k (on_hand s j k)
  unfolding claim_stock on_hand
  claim_stock-on_hand j k u h = elim (Bool-cases (leb_ℤ (pos 0) d || allow_negative)) [
    | inl free ↦ rw free (upsert-on_hand p w j k d s.levels)
    | inr guarded ↦ elim (Bool-cases (is_some (find_one (at_key_with p w (neg d)) s.levels))) [
      | inl found ↦
          rw (guarded, found, update_with-eq p w (neg d) d s.levels u found)
            (update-on_hand p w j k d s.levels (find_with-found p w (neg d) s.levels found))
      | inr short ↦ ground arith
    ]
  ]

  pub claim_stock-UniqueKeys :
      UniqueKeys s.levels → UniqueKeys (claim_stock p w d allow_negative s).1.levels
  unfolding claim_stock
  claim_stock-UniqueKeys u = elim (Bool-cases (leb_ℤ (pos 0) d || allow_negative)) [
    | inl free ↦ rw free (upsert-UniqueKeys p w d s.levels u)
    | inr guarded ↦ elim (Bool-cases (is_some (find_one (at_key_with p w (neg d)) s.levels))) [
      | inl found ↦ rw (guarded, found) (update-UniqueKeys (at_key_with p w (neg d)) d s.levels u)
      | inr short ↦ rw (guarded, short) u
    ]
  ]

  -- A claim that went through leaves a row for its key, which a release will find.
  pub claim_stock_found :
      (claim_stock p w d allow_negative s).0 ≡ true
      → is_some (find_one (at_key p w) (claim_stock p w d allow_negative s).1.levels) ≡ true
  unfolding claim_stock
  claim_stock_found h = elim (Bool-cases (leb_ℤ (pos 0) d || allow_negative)) [
    | inl free ↦ rw free (upsert-found p w d s.levels)
    | inr guarded ↦ elim (Bool-cases (is_some (find_one (at_key_with p w (neg d)) s.levels))) [
      | inl found ↦
          rw (guarded, found)
            (find-update (at_key_with p w (neg d)) p w d s.levels
              ∙ find_with-found p w (neg d) s.levels found)
      | inr short ↦ ground arith
    ]
  ]

  -- No row is lost.
  pub claim_stock_rows :
      (j k : ℕ)
      → is_some (find_one (at_key j k) s.levels) ≡ true
      → is_some (find_one (at_key j k) (claim_stock p w d allow_negative s).1.levels) ≡ true
  unfolding claim_stock
  claim_stock_rows j k h = ground (
    arith,
    upsert_rows p w j k d s.levels h,
    find-update (at_key_with p w (neg d)) j k d s.levels,
  )

module _ (p w : ℕ) (d : ℤ) (s : Db) where
  pub release_stock_rows :
      (j k : ℕ)
      → is_some (find_one (at_key j k) s.levels) ≡ true
      → is_some (find_one (at_key j k) (release_stock p w d s).levels) ≡ true
  unfolding release_stock
  release_stock_rows j k h = find-update (at_key p w) j k (neg d) s.levels ∙ h

  pub release_stock-on_hand :
      (j k : ℕ)
      → is_some (find_one (at_key p w) s.levels) ≡ true
      → on_hand (release_stock p w d s) j k ≡ add_at p w (neg d) j k (on_hand s j k)
  unfolding release_stock on_hand
  release_stock-on_hand j k found = update-on_hand p w j k (neg d) s.levels found

  pub release_stock-UniqueKeys : UniqueKeys s.levels → UniqueKeys (release_stock p w d s).levels
  unfolding release_stock
  release_stock-UniqueKeys u = update-UniqueKeys (at_key p w) (neg d) s.levels u
