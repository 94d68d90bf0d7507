-- ===== src/Projects/Gates/Windows.antt =====
-- Measurements against windows and bounds (backend/app/modules/projects/engines.py).
use blyns_ops.Prelude.{
  ◌≡◌, refl, sym, ◌∙◌, ap, arith, Bool, true, false, not, ◌&&◌, ◌||◌, Option, none, some, List, [],
  ◌∷◌, Bool-cases, inl, inr, all_of, not_empty, is_some, if◌then◌else◌,
}
use blyns_ops.Prelude.Int.{ℤ, leb_ℤ, ltb_ℤ}
use blyns_ops.Tenant.{GateRule}
use blyns_ops.Projects.Gates.{
  verdict, Verdict, values, greatest, lowest, at_least, at_most, single_bound, evaluate_measurement,
  score, score_bound,
}

-- A bound holds of the extreme exactly if it holds of all.
greater_one : (hi a b : ℤ) → ltb_ℤ a b ≡ true → leb_ℤ b hi ≡ (leb_ℤ a hi && leb_ℤ b hi)
greater_one hi a b h = ground arith

greater_other : (hi a b : ℤ) → ltb_ℤ a b ≡ false → leb_ℤ a hi ≡ (leb_ℤ a hi && leb_ℤ b hi)
greater_other hi a b h = ground arith

greater : (hi a b : ℤ) → leb_ℤ (if ltb_ℤ a b then b else a) hi ≡ (leb_ℤ a hi && leb_ℤ b hi)
greater hi a b = elim (Bool-cases (ltb_ℤ a b)) [
  | inl h ↦ rw h (greater_one hi a b h)
  | inr h ↦ rw h (greater_other hi a b h)
]

lesser_one : (lo a b : ℤ) → ltb_ℤ b a ≡ true → leb_ℤ lo b ≡ (leb_ℤ lo a && leb_ℤ lo b)
lesser_one lo a b h = ground arith

lesser_other : (lo a b : ℤ) → ltb_ℤ b a ≡ false → leb_ℤ lo a ≡ (leb_ℤ lo a && leb_ℤ lo b)
lesser_other lo a b h = ground arith

lesser : (lo a b : ℤ) → leb_ℤ lo (if ltb_ℤ b a then b else a) ≡ (leb_ℤ lo a && leb_ℤ lo b)
lesser lo a b = elim (Bool-cases (ltb_ℤ b a)) [
  | inl h ↦ rw h (lesser_one lo a b h)
  | inr h ↦ rw h (lesser_other lo a b h)
]

and_assoc : (a b c : Bool) → a && b && c ≡ (a && (b && c))
and_assoc a b c = ground arith

and_true : (a : Bool) → a ≡ (a && true)
and_true a = ground arith

greatest_at_most :
    (hi v : ℤ) (vs : List ℤ) → leb_ℤ (greatest v vs) hi ≡ all_of (λ u. leb_ℤ u hi) (v ∷ vs)
greatest_at_most hi v [] = and_true (leb_ℤ v hi)
greatest_at_most hi v (u ∷ us) =
    greatest_at_most hi (if ltb_ℤ v u then u else v) us
    ∙ ap (λ b. b && all_of (λ x. leb_ℤ x hi) us) (greater hi v u)
    ∙ and_assoc (leb_ℤ v hi) (leb_ℤ u hi) (all_of (λ x. leb_ℤ x hi) us)

lowest_at_least :
    (lo v : ℤ) (vs : List ℤ) → leb_ℤ lo (lowest v vs) ≡ all_of (λ u. leb_ℤ lo u) (v ∷ vs)
lowest_at_least lo v [] = and_true (leb_ℤ lo v)
lowest_at_least lo v (u ∷ us) =
    lowest_at_least lo (if ltb_ℤ u v then u else v) us
    ∙ ap (λ b. b && all_of (λ x. leb_ℤ lo x) us) (lesser lo v u)
    ∙ and_assoc (leb_ℤ lo v) (leb_ℤ lo u) (all_of (λ x. leb_ℤ lo x) us)

all_true : {A : Type 0} (xs : List A) → all_of (λ _. true) xs ≡ true
all_true [] = refl
all_true (x ∷ xs) = all_true xs

and_swap : (a b c d : Bool) → a && b && (c && d) ≡ (a && c && (b && d))
and_swap a b c d = ground arith

all_both : (p q : ℤ → Bool) (vs : List ℤ) → all_of p vs && all_of q vs ≡ all_of (λ v. p v && q v) vs
all_both p q [] = refl
all_both p q (v ∷ vs) =
    and_swap (p v) (all_of p vs) (q v) (all_of q vs) ∙ ap (λ b. p v && q v && b) (all_both p q vs)

lower_bound :
    (o : Option ℤ) (v : ℤ) (vs : List ℤ) → at_least o (lowest v vs) ≡ all_of (at_least o) (v ∷ vs)
lower_bound none v vs = sym (all_true vs)
lower_bound (some lo) v vs = lowest_at_least lo v vs

upper_bound :
    (o : Option ℤ) (v : ℤ) (vs : List ℤ) → at_most o (greatest v vs) ≡ all_of (at_most o) (v ∷ vs)
upper_bound none v vs = sym (all_true vs)
upper_bound (some hi) v vs = greatest_at_most hi v vs

-- A gate with a window, and not defined by the site, passes exactly if there is a reading and all
-- readings are in the window.
pub window_exact :
    (rule : GateRule) (readings : List (Option ℤ))
    → rule.threshold.site_defined ≡ false
    → is_some rule.threshold.min || is_some rule.threshold.max ≡ true
    → (evaluate_measurement rule readings).passed ≡ (
        not_empty (values readings)
        && all_of
            (λ u. at_least rule.threshold.min u && at_most rule.threshold.max u)
            (values readings))
unfolding evaluate_measurement score
window_exact rule readings site window = go (values readings)
  where
    go :
        (us : List ℤ)
        → (elim us as (λ _. Verdict) [ [] ↦ verdict false false | v ∷ vs ↦ score rule v vs ]).passed
          ≡ (not_empty us
              && all_of (λ u. at_least rule.threshold.min u && at_most rule.threshold.max u) us)
    go [] = refl
    go (v ∷ vs) =
        rw (site, window)
          (ap (λ b. b && at_most rule.threshold.max (greatest v vs))
              (lower_bound rule.threshold.min v vs)
            ∙ ap (λ b. all_of (at_least rule.threshold.min) (v ∷ vs) && b)
                (upper_bound rule.threshold.max v vs)
            ∙ all_both (at_least rule.threshold.min) (at_most rule.threshold.max) (v ∷ vs))

scored :
    (rule : GateRule) (v : ℤ) (vs : List ℤ)
    → rule.threshold.site_defined ≡ false
    → is_some rule.threshold.min || is_some rule.threshold.max ≡ false
    → score rule v vs ≡ score_bound rule v vs
unfolding score
scored rule v vs site window = rw (site, window) refl

bound_scored :
    (rule : GateRule) (limit : ℤ) (severe : Option ℤ) (v : ℤ) (vs : List ℤ)
    → single_bound rule.threshold rule.severe_threshold ≡ some (limit, severe)
    → score_bound rule v vs
      ≡ verdict (leb_ℤ (greatest v vs) limit) (not (at_most severe (greatest v vs)))
unfolding score_bound
bound_scored rule limit severe v vs bound = rw (bound, score_bound) refl

-- A gate with a single bound, neither defined by the site nor a window, passes exactly if there is a
-- reading and none is over the limit, and is severe exactly if a reading is over the severe limit.
pub bound_exact :
    (rule : GateRule) (readings : List (Option ℤ)) (limit : ℤ) (severe : Option ℤ)
    → rule.threshold.site_defined ≡ false
    → is_some rule.threshold.min || is_some rule.threshold.max ≡ false
    → single_bound rule.threshold rule.severe_threshold ≡ some (limit, severe)
    → evaluate_measurement rule readings
      ≡ verdict
          (not_empty (values readings) && all_of (λ u. leb_ℤ u limit) (values readings))
          (not (all_of (at_most severe) (values readings)))
unfolding evaluate_measurement
bound_exact rule readings limit severe site window bound = go (values readings)
  where
    go :
        (us : List ℤ)
        → (elim us as (λ _. Verdict) [ [] ↦ verdict false false | v ∷ vs ↦ score rule v vs ])
          ≡ verdict
              (not_empty us && all_of (λ u. leb_ℤ u limit) us)
              (not (all_of (at_most severe) us))
    go [] = refl
    go (v ∷ vs) =
        scored rule v vs site window
        ∙ bound_scored rule limit severe v vs bound
        ∙ (ap (λ b. verdict b (not (at_most severe (greatest v vs)))) (greatest_at_most limit v vs)
            ∙ ap (λ b. verdict (all_of (λ u. leb_ℤ u limit) (v ∷ vs)) (not b))
                (upper_bound severe v vs))
