-- ===== src/Prelude/Sets.antt =====
-- Membership in sets of texts.
use Prim.Native.String.{String}
use mathlib.Core.Path.{◌≡◌, refl, sym, ◌∙◌, ap, subst}
use mathlib.Core.Bool.{Bool, true, false, not, ◌&&◌, ◌||◌}
use mathlib.Core.Logic.{inl, inr}
use mathlib.Core.List.{List, [], ◌∷◌, ◌++◌}
use native.Mathlib.Omega.{arith}
use text.Mathlib.TextEquality.{eq_iff}
use blyns_ops.Prelude.Tests.{str_eq, Bool-cases}
use blyns_ops.Prelude.Collections.{
  mem, add, discard, to_set, sorted, sort_by, insert_sorted, str_leb, is_subset, same_set,
}

pub str_eq→≡ : (x y : String) → str_eq x y ≡ true → x ≡ y
str_eq→≡ x y h = (eq_iff x y).0 h

pub str_eq_self : (x : String) → str_eq x x ≡ true
str_eq_self x = (eq_iff x x).1 refl

pub same_bools : (a b : Bool) → (a ≡ true → b ≡ true) → (b ≡ true → a ≡ true) → a ≡ b
same_bools true b f g = sym (f refl)
same_bools false true f g = g refl
same_bools false false f g = refl

pub str_eq_comm : (x y : String) → str_eq x y ≡ str_eq y x
str_eq_comm x y =
    same_bools (str_eq x y) (str_eq y x) (λ h. (eq_iff y x).1 (sym (str_eq→≡ x y h)))
      (λ h. (eq_iff x y).1 (sym (str_eq→≡ y x h)))

or_swap : (a b c : Bool) → a || (b || c) ≡ (b || (a || c))
or_swap a b c = ground arith

or_absorb : (a b : Bool) → (a ≡ true → b ≡ true) → b ≡ (a || b)
or_absorb true b h = h refl
or_absorb false b h = refl

mem-snoc : (x y : String) (xs : List String) → mem x (xs ++ (y ∷ [])) ≡ (str_eq x y || mem x xs)
mem-snoc x y [] = refl
mem-snoc x y (z ∷ zs) = rw (mem-snoc x y zs) (or_swap (str_eq x z) (str_eq x y) (mem x zs))

-- An equal text has the same membership.
mem-same : (x y : String) (xs : List String) → str_eq x y ≡ true → mem y xs ≡ true → mem x xs ≡ true
mem-same x y xs e h = subst (λ (z : String). mem z xs ≡ true) (sym (str_eq→≡ x y e)) h

pub mem-add : (x y : String) (xs : List String) → mem x (add y xs) ≡ (str_eq x y || mem x xs)
mem-add x y xs = elim (Bool-cases (mem y xs)) [
  | inl present ↦ rw present (or_absorb (str_eq x y) (mem x xs) (λ e. mem-same x y xs e present))
  | inr absent ↦ rw absent (mem-snoc x y xs)
]

dropped : (x y z : String) → str_eq y z ≡ true → str_eq x z ≡ str_eq x y
dropped x y z h = ap (str_eq x) (sym (str_eq→≡ y z h))

and_or_dropped : (a b : Bool) → not a && b ≡ (not a && (a || b))
and_or_dropped a b = ground arith

kept : (a b c : Bool) → (b ≡ true → a ≡ false) → b || (not a && c) ≡ (not a && (b || c))
kept a true c h = rw (h refl) refl
kept a false c h = refl

other : (x y z : String) → str_eq y z ≡ false → str_eq x z ≡ true → str_eq x y ≡ false
other x y z miss h =
    subst (λ (t : String). str_eq t y ≡ false) (sym (str_eq→≡ x z h)) (str_eq_comm z y ∙ miss)

pub mem-discard :
    (x y : String) (xs : List String) → mem x (discard y xs) ≡ (not (str_eq x y) && mem x xs)
mem-discard x y [] = ground arith
mem-discard x y (z ∷ zs) = elim (Bool-cases (str_eq y z)) [
  | inl hit ↦
      rw hit (mem-discard x y zs ∙ rw (dropped x y z hit) (and_or_dropped (str_eq x y) (mem x zs)))
  | inr miss ↦ rw miss (
      ap (λ b. str_eq x z || b) (mem-discard x y zs)
      ∙ kept (str_eq x y) (str_eq x z) (mem x zs) (other x y z miss))
]

pub mem-insert_sorted :
    (x y : String) (xs : List String)
    → mem x (insert_sorted str_leb y xs) ≡ (str_eq x y || mem x xs)
mem-insert_sorted x y [] = refl
mem-insert_sorted x y (z ∷ zs) = elim (Bool-cases (str_leb y z)) [
  | inl first ↦ rw first refl
  | inr later ↦
      rw later (rw (mem-insert_sorted x y zs) (or_swap (str_eq x z) (str_eq x y) (mem x zs)))
]

mem-sort_by : (x : String) (xs : List String) → mem x (sort_by str_leb xs) ≡ mem x xs
mem-sort_by x [] = refl
mem-sort_by x (y ∷ ys) =
    mem-insert_sorted x y (sort_by str_leb ys) ∙ ap (λ b. str_eq x y || b) (mem-sort_by x ys)

pub mem-to_set : (x : String) (xs : List String) → mem x (to_set xs) ≡ mem x xs
mem-to_set x [] = refl
mem-to_set x (y ∷ ys) = elim (Bool-cases (mem y (to_set ys))) [
  | inl present ↦ rw present (
      or_absorb (str_eq x y) (mem x (to_set ys)) (λ e. mem-same x y (to_set ys) e present)
      ∙ ap (λ b. str_eq x y || b) (mem-to_set x ys))
  | inr absent ↦ rw absent (ap (λ b. str_eq x y || b) (mem-to_set x ys))
]

-- Sorting a set keeps its members.
pub mem-sorted : (x : String) (xs : List String) → mem x (sorted xs) ≡ mem x xs
unfolding sorted
mem-sorted x xs = mem-sort_by x (to_set xs) ∙ mem-to_set x xs

both_left : (a b : Bool) → a && b ≡ true → a ≡ true
both_left a b h = ground arith

both_right : (a b : Bool) → a && b ≡ true → b ≡ true
both_right a b h = ground arith

subset-mem :
    (xs ys : List String) (x : String) → is_subset xs ys ≡ true → mem x xs ≡ true → mem x ys ≡ true
subset-mem [] ys x h k = cc
subset-mem (z ∷ zs) ys x h k = elim (Bool-cases (str_eq x z)) [
  | inl here ↦ mem-same x z ys here (both_left (mem z ys) (is_subset zs ys) h)
  | inr there ↦
      subset-mem zs ys x (both_right (mem z ys) (is_subset zs ys) h)
        (later (str_eq x z) (mem x zs) there k)
]
  where
    later : (a b : Bool) → a ≡ false → a || b ≡ true → b ≡ true
    later a b e u = ground arith

-- Sets with the same members.
pub same_set-mem : (xs ys : List String) (x : String) → same_set xs ys ≡ true → mem x xs ≡ mem x ys
same_set-mem xs ys x h =
    same_bools (mem x xs) (mem x ys)
      (subset-mem xs ys x (both_left (is_subset xs ys) (is_subset ys xs) h))
      (subset-mem ys xs x (both_right (is_subset xs ys) (is_subset ys xs) h))
