-- ===== src/Prelude/Members.antt =====
-- Membership in lists.
use mathlib.Core.Path.{◌≡◌, refl, subst}
use mathlib.Core.Bool.{Bool, true}
use mathlib.Core.Option.{some}
use mathlib.Core.Logic.{◌⊎◌, inl, inr}
use mathlib.Core.List.{List, [], ◌∷◌}
use blyns_ops.Prelude.Tests.{Bool-cases}
use blyns_ops.Prelude.Lists.{any_of, find_one, same_item, find_by}

-- Being an item of a list.
pub data In {A : Type 0} (a : A) : List A → Type 0 where
  first : {xs : List A} → In a (a ∷ xs)
  later : {x : A} {xs : List A} → In a xs → In a (x ∷ xs)

pub split : {A : Type 0} {a x : A} {xs : List A} → In a (x ∷ xs) → (a ≡ x) ⊎ In a xs
split first = inl refl
split (later h) = inr h

module _ {A : Type 0} (q : A → Bool) where
  pub any_of-In : (xs : List A) → any_of q xs ≡ true → (a : A) × In a xs × (q a ≡ true)
  any_of-In [] h = cc
  any_of-In (x ∷ xs) h = elim (Bool-cases (q x)) [
    | inl hit ↦ (x, first, hit)
    | inr miss ↦ let found = any_of-In xs (simp miss at h) in (found.0, later found.1, found.2)
  ]

  pub find_one-In : (xs : List A) (a : A) → find_one q xs ≡ some a → In a xs
  find_one-In [] a e = cc
  find_one-In (x ∷ xs) a e = elim (Bool-cases (q x)) [
    | inl hit ↦ subst (λ (y : A). In y (x ∷ xs)) (same_item x a (find_by q x xs a hit e)) first
    | inr miss ↦ later (find_one-In xs a (find_by q x xs a miss e))
  ]
