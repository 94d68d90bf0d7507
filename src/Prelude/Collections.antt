-- ===== src/Prelude/Collections.antt =====
-- What the services use of Python's lists and sets of texts: sorting, minima and membership.
use Prim.Native.Nat.{ℕ}
use Prim.Native.String.{String}
use text.Mathlib.Text.{is_le, is_lt}
use Prim.Native.String
use mathlib.Core.Bool.{Bool, true, false, not, ◌&&◌}
use mathlib.Core.Option.{Option, none, some}
use mathlib.Core.List.{List, [], ◌∷◌, ◌++◌}
use mathlib.Core.Logic.{inl, inr}
use blyns_ops.Prelude.Tests.{str_eq, if◌then◌else◌, ◌==◌, leb, Bool-cases}
use blyns_ops.Prelude.Lists.{any_of, filter_by, All}

-- The order of texts.
abbrev pub str_leb : String → String → Bool
str_leb s t = is_le (String.compare s t)

abbrev pub str_ltb : String → String → Bool
str_ltb s t = is_lt (String.compare s t)

module _ {ℓ} {A : Type ℓ} where
  abbrev pub all_of : (A → Bool) → List A → Bool
  all_of q [] = true
  all_of q (x ∷ xs) = q x && all_of q xs

  -- `sorted(xs, key=…)`, stable, by "comes no later".
  abbrev pub insert_sorted : (A → A → Bool) → A → List A → List A
  insert_sorted le a [] = a ∷ []
  insert_sorted le a (x ∷ xs) =
      let rest = insert_sorted le a xs in if le a x then a ∷ x ∷ xs else x ∷ rest

  abbrev pub sort_by : (A → A → Bool) → List A → List A
  sort_by le [] = []
  sort_by le (x ∷ xs) = insert_sorted le x (sort_by le xs)

  -- `find_one(query, sort=[(key, -1)])`: the first of those with the greatest key.
  abbrev pub newest : (A → ℕ) → List A → Option A
  newest key [] = none
  newest key (x ∷ xs) = elim (newest key xs) [
    | none ↦ some x
    | some y ↦ if leb (key y) (key x) then some x else some y
  ]

module _ {ℓ κ} {A : Type ℓ} (P : A → Type κ) (le : A → A → Bool) where
  All-insert_sorted : (a : A) (xs : List A) → P a → All P xs → All P (insert_sorted le a xs)
  All-insert_sorted a [] p h = (p, tt)
  All-insert_sorted a (x ∷ xs) p h = elim (Bool-cases (le a x)) [
    | inl first ↦ rw first (p, h)
    | inr later ↦ rw later (h.0, All-insert_sorted a xs p h.1)
  ]

  pub All-sort_by : (xs : List A) → All P xs → All P (sort_by le xs)
  All-sort_by [] h = tt
  All-sort_by (x ∷ xs) h = All-insert_sorted x (sort_by le xs) h.0 (All-sort_by xs h.1)

-- A set of texts: membership, `add`, `discard`, inclusion, and `sorted`.
abbrev pub mem : String → List String → Bool
mem x xs = any_of (λ y. str_eq x y) xs

abbrev pub add : String → List String → List String
add x xs = if mem x xs then xs else xs ++ (x ∷ [])

abbrev pub discard : String → List String → List String
discard x xs = filter_by (λ y. not (str_eq x y)) xs

abbrev pub is_subset : List String → List String → Bool
is_subset xs ys = all_of (λ x. mem x ys) xs

abbrev pub same_set : List String → List String → Bool
same_set xs ys = is_subset xs ys && is_subset ys xs

abbrev pub to_set : List String → List String
to_set [] = []
to_set (x ∷ xs) = let rest = to_set xs in if mem x rest then rest else x ∷ rest

unfoldable pub sorted : List String → List String
sorted xs = sort_by str_leb (to_set xs)

abbrev pub opt_eq : Option ℕ → Option ℕ → Bool
opt_eq none none = true
opt_eq (some a) (some b) = a == b
opt_eq _ _ = false

abbrev pub opt_str_eq : Option String → Option String → Bool
opt_str_eq none none = true
opt_str_eq (some a) (some b) = str_eq a b
opt_str_eq _ _ = false
