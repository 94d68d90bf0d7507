-- ===== src/Prelude/Lists.antt =====
-- Lists as MongoDB collections in insertion order: search, insertion, update and removal.
use Prim.Native.Nat.{ℕ, zero, suc}
use mathlib.Core.Bool.{Bool, true, false, ◌||◌}
use mathlib.Core.Option.{Option, none, some}
use mathlib.Core.List.{List, [], ◌∷◌}
use mathlib.Core.Path.{◌≡◌, refl, ap, ◌∙◌, subst}
use mathlib.Core.Logic.{inl, inr}
use native.Mathlib.Omega.{arith}
use blyns_ops.Prelude.Tests.{if◌then◌else◌, Bool-cases}

neither_left : (a b : Bool) → a || b ≡ false → a ≡ false
neither_left a b h = ground arith

neither_right : (a b : Bool) → a || b ≡ false → b ≡ false
neither_right a b h = ground arith

module _ {ℓ} {A : Type ℓ} where
  abbrev pub length : List A → ℕ
  length [] = 0
  length (x ∷ xs) = suc (length xs)

  -- `to_list(length=n)`, `xs[:n]` and `xs[n:]`
  abbrev pub take : ℕ → List A → List A
  take zero xs = []
  take (suc n) [] = []
  take (suc n) (x ∷ xs) = x ∷ take n xs

  abbrev pub drop : ℕ → List A → List A
  drop zero xs = xs
  drop (suc n) [] = []
  drop (suc n) (x ∷ xs) = drop n xs

  -- `find_one(query)`: the first document that fits.
  abbrev pub find_one : (A → Bool) → List A → Option A
  find_one q [] = none
  find_one q (x ∷ xs) = if q x then some x else find_one q xs

  -- `insert_one(doc)`
  abbrev pub insert_one : List A → A → List A
  insert_one [] a = a ∷ []
  insert_one (x ∷ xs) a = x ∷ insert_one xs a

  -- `update_one(query, …)`: the first document that fits is replaced.
  abbrev pub update_one : (A → Bool) → (A → A) → List A → List A
  update_one q f [] = []
  update_one q f (x ∷ xs) = if q x then f x ∷ xs else x ∷ update_one q f xs

  -- `delete_one(query)`
  abbrev pub delete_one : (A → Bool) → List A → List A
  delete_one q [] = []
  delete_one q (x ∷ xs) = if q x then xs else x ∷ delete_one q xs

  abbrev pub filter_by : (A → Bool) → List A → List A
  filter_by q [] = []
  filter_by q (x ∷ xs) = if q x then x ∷ filter_by q xs else filter_by q xs

  abbrev pub any_of : (A → Bool) → List A → Bool
  any_of q [] = false
  any_of q (x ∷ xs) = q x || any_of q xs

  abbrev pub not_empty : List A → Bool
  not_empty [] = false
  not_empty (_ ∷ _) = true

  -- Every item has the property.
  abbrev pub All {κ} : (A → Type κ) → List A → Type κ
  All P [] = Unit
  All P (x ∷ xs) = P x × All P xs

  pub All-insert_one {κ} :
      (P : A → Type κ) (xs : List A) (a : A) → All P xs → P a → All P (insert_one xs a)
  All-insert_one P [] a h p = (p, tt)
  All-insert_one P (x ∷ xs) a h p = (h.0, All-insert_one P xs a h.1 p)

  pub All-update_one {κ} :
      (P : A → Type κ) (q : A → Bool) (f : A → A) (xs : List A)
      → ((x : A) → P x → P (f x))
      → All P xs
      → All P (update_one q f xs)
  All-update_one P q f [] k h = tt
  All-update_one P q f (x ∷ xs) k h = elim (Bool-cases (q x)) [
    | inl hit ↦ rw hit (k x h.0, h.1)
    | inr miss ↦ rw miss (h.0, All-update_one P q f xs k h.1)
  ]

  -- What is found has the property that all have.
  pub find_one-All {κ} :
      (P : A → Type κ) (q : A → Bool) (xs : List A) (a : A)
      → All P xs
      → find_one q xs ≡ some a
      → P a
  find_one-All P q [] a h e = cc
  find_one-All P q (x ∷ xs) a h e = go (λ k. find_one-All P q xs a h.1 k) (q x) e
    where
      same_some : some x ≡ some a → x ≡ a
      same_some k = cc

      go :
          (find_one q xs ≡ some a → P a)
          → (b : Bool) → (if b then some x else find_one q xs) ≡ some a
          → P a
      go later true k = subst P (same_some k) h.0
      go later false k = later k

  pub filter_by-All : (q : A → Bool) (xs : List A) → All (λ x. q x ≡ true) (filter_by q xs)
  filter_by-All q [] = tt
  filter_by-All q (x ∷ xs) = elim (Bool-cases (q x)) [
    | inl hit ↦ rw hit (hit, filter_by-All q xs)
    | inr miss ↦ rw miss (filter_by-All q xs)
  ]

  pub All-filter_by {κ} :
      (P : A → Type κ) (q : A → Bool) (xs : List A) → All P xs → All P (filter_by q xs)
  All-filter_by P q [] h = tt
  All-filter_by P q (x ∷ xs) h = elim (Bool-cases (q x)) [
    | inl hit ↦ rw hit (h.0, All-filter_by P q xs h.1)
    | inr miss ↦ rw miss (All-filter_by P q xs h.1)
  ]

  -- A filter is empty when no item fits.
  pub filter_by-any_of : (q : A → Bool) (xs : List A) → any_of q xs ≡ not_empty (filter_by q xs)
  filter_by-any_of q [] = refl
  filter_by-any_of q (x ∷ xs) = elim (Bool-cases (q x)) [
    | inl hit ↦ rw hit refl
    | inr miss ↦ rw miss (filter_by-any_of q xs)
  ]

  pub any_of-none : (q : A → Bool) (xs : List A) → any_of q xs ≡ false → All (λ x. q x ≡ false) xs
  any_of-none q [] h = tt
  any_of-none q (x ∷ xs) h =
      (neither_left (q x) (any_of q xs) h, any_of-none q xs (neither_right (q x) (any_of q xs) h))

  pub same_item : (x a : A) → some x ≡ some a → x ≡ a
  same_item x a h = cc

  -- A search, when the test of the first item is known.
  pub find_by :
      (q : A → Bool) (x : A) (xs : List A) (a : A) {b : Bool}
      → q x ≡ b
      → find_one q (x ∷ xs) ≡ some a
      → (if b then some x else find_one q xs) ≡ some a
  find_by q x xs a h e = subst (λ (c : Bool). (if c then some x else find_one q xs) ≡ some a) h e

  -- What is found fits.
  pub find_one-fits : (q : A → Bool) (xs : List A) (a : A) → find_one q xs ≡ some a → q a ≡ true
  find_one-fits q [] a e = cc
  find_one-fits q (x ∷ xs) a e = elim (Bool-cases (q x)) [
    | inl hit ↦ subst (λ (y : A). q y ≡ true) (same_item x a (find_by q x xs a hit e)) hit
    | inr miss ↦ find_one-fits q xs a (find_by q x xs a miss e)
  ]

  -- The item that two queries find is updated by the one and found by the other.
  pub find_one-update_one :
      (p q : A → Bool) (f : A → A) (xs : List A) (a : A)
      → ((x : A) → q (f x) ≡ q x)
      → find_one p xs ≡ some a
      → find_one q xs ≡ some a
      → find_one q (update_one p f xs) ≡ some (f a)
  find_one-update_one p q f [] a k e g = cc
  find_one-update_one p q f (x ∷ xs) a k e g = elim (Bool-cases (p x)) [
    | inl hit ↦
        let same = same_item x a (find_by p x xs a hit e) in
        rw (hit, k x ∙ ap q same ∙ find_one-fits q (x ∷ xs) a g) (ap (λ y. some (f y)) same)
    | inr miss ↦ elim (Bool-cases (q x)) [
      | inl hit ↦
          contradiction miss
            (ap p (same_item x a (find_by q x xs a hit g)) ∙ find_one-fits p (x ∷ xs) a e)
      | inr other ↦
          rw (miss, other)
            (find_one-update_one p q f xs a k (find_by p x xs a miss e) (find_by q x xs a other g))
    ]
  ]
    where
      contradiction : p x ≡ false → p x ≡ true → find_one q (update_one p f (x ∷ xs)) ≡ some (f a)
      contradiction h l = cc

  -- A query for other items finds the same after an update.
  pub find_one-update_other :
      (p q : A → Bool) (f : A → A) (xs : List A)
      → ((x : A) → p x ≡ true → q x ≡ false)
      → ((x : A) → p x ≡ true → q (f x) ≡ false)
      → find_one q (update_one p f xs) ≡ find_one q xs
  find_one-update_other p q f [] h k = refl
  find_one-update_other p q f (x ∷ xs) h k = elim (Bool-cases (p x)) [
    | inl hit ↦ rw (hit, h x hit, k x hit) refl
    | inr miss ↦ elim (Bool-cases (q x)) [
      | inl found ↦ rw (miss, found) refl
      | inr other ↦ rw (miss, other) (find_one-update_other p q f xs h k)
    ]
  ]

  -- A second update that finds the first done changes nothing.
  pub update_one-again :
      (q : A → Bool) (f g : A → A) (xs : List A)
      → ((x : A) → q (f x) ≡ q x)
      → ((x : A) → g (f x) ≡ f x)
      → update_one q g (update_one q f xs) ≡ update_one q f xs
  update_one-again q f g [] k h = refl
  update_one-again q f g (x ∷ xs) k h = elim (Bool-cases (q x)) [
    | inl hit ↦ rw (hit, k x ∙ hit) (ap (λ y. y ∷ xs) (h x))
    | inr miss ↦ rw (miss, miss) (ap (λ ys. x ∷ ys) (update_one-again q f g xs k h))
  ]
