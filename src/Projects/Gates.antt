-- ===== src/Projects/Gates.antt =====
-- The scoring of gates (backend/app/modules/projects/engines.py).
pub mod Windows
use blyns_ops.Prelude.{
  ℕ, String, Bool, true, false, Option, none, some, List, [], ◌∷◌, not, ◌&&◌, ◌||◌, str_eq, is_some,
  or_else, if◌then◌else◌, any_of, all_of,
}
use blyns_ops.Prelude.Int.{ℤ, pos, leb_ℤ, ltb_ℤ, ◌-ℤ◌, abs}
use blyns_ops.Tenant.{GateRule, GateType, Threshold, ChecklistResult}

-- The outcome of a gate, without its explanation.
pub record Verdict : Type 0 where
  pub passed : Bool
  pub severe : Bool

abbrev pub verdict : Bool → Bool → Verdict
verdict p s = record { passed = p; severe = s }

-- The readings that have a value.
abbrev pub values : List (Option ℤ) → List ℤ
values [] = []
values (none ∷ rs) = values rs
values (some v ∷ rs) = v ∷ values rs

-- `max(values)` and `min(values)`, from a first value on
abbrev pub greatest : ℤ → List ℤ → ℤ
greatest v [] = v
greatest v (u ∷ us) = greatest (if ltb_ℤ v u then u else v) us

abbrev pub lowest : ℤ → List ℤ → ℤ
lowest v [] = v
lowest v (u ∷ us) = lowest (if ltb_ℤ u v then u else v) us

-- A missing lower bound is `-inf`, a missing upper bound is `inf`.
abbrev pub at_least : Option ℤ → ℤ → Bool
at_least none v = true
at_least (some lo) v = leb_ℤ lo v

abbrev pub at_most : Option ℤ → ℤ → Bool
at_most none v = true
at_most (some hi) v = leb_ℤ v hi

-- The first of the three single bounds that the threshold has, with the severe tier's.
unfoldable pub single_bound : Threshold → Threshold → Option (ℤ × Option ℤ)
single_bound t severe = elim t.max_deviation_mm [
  | some limit ↦ some (limit, severe.max_deviation_mm)
  | none ↦ elim t.max_rh_pct [
    | some limit ↦ some (limit, severe.max_rh_pct)
    | none ↦ elim t.max_deviation_in [
      | some limit ↦ some (limit, severe.max_deviation_in)
      | none ↦ none
    ]
  ]
]

abbrev pub within : ℤ → ℤ → ℤ → Bool
within target tolerance v = leb_ℤ (abs (v -ℤ target)) tolerance

-- The target with its tolerance, if there is one.
unfoldable pub score_target : Threshold → List ℤ → Verdict
score_target t vs = elim t.target_mm [
  | none ↦ verdict true false
  | some target ↦ verdict (all_of (within target (or_else t.tolerance_mm (pos 0))) vs) false
]

abbrev has_window : Threshold → Bool
has_window t = is_some t.min || is_some t.max

unfoldable pub score_bound : GateRule → ℤ → List ℤ → Verdict
unfolding score_target
score_bound rule v vs = elim (single_bound rule.threshold rule.severe_threshold) [
  | some bound ↦ verdict (leb_ℤ (greatest v vs) bound.0) (not (at_most bound.1 (greatest v vs)))
  | none ↦ score_target rule.threshold (v ∷ vs)
]

-- The rule on readings of which `v` is the first.
unfoldable pub score : GateRule → ℤ → List ℤ → Verdict
unfolding score_bound
score rule v vs =
    if rule.threshold.site_defined
    then verdict true false
    else if has_window rule.threshold
    then verdict
        (at_least rule.threshold.min (lowest v vs) && at_most rule.threshold.max (greatest v vs))
        false
    else score_bound rule v vs

-- `evaluate_measurement`
unfoldable pub evaluate_measurement : GateRule → List (Option ℤ) → Verdict
unfolding score
evaluate_measurement rule readings = elim (values readings) [
  | [] ↦ verdict false false
  | v ∷ vs ↦ score rule v vs
]

-- What is marked on an item: by the last result that names it.
abbrev pub marked : String → List ChecklistResult → Option Bool
marked item [] = none
marked item (r ∷ rs) =
    let rest = marked item rs in
    elim rest [
      | some b ↦ some b
      | none ↦ elim r.item [ none ↦ none | some x ↦ if str_eq item x then some r.passed else none ]
    ]

abbrev pub is_failed : Option Bool → Bool
is_failed none = false
is_failed (some b) = not b

-- Whether the result names an item that ends up marked as failed.
abbrev pub names_failed : List ChecklistResult → ChecklistResult → Bool
names_failed results r = elim r.item [ none ↦ false | some x ↦ is_failed (marked x results) ]

-- `evaluate_inspection`
unfoldable pub evaluate_inspection : GateRule → List ChecklistResult → Verdict
evaluate_inspection rule results =
    verdict
      (all_of (λ item. is_some (marked item results)) rule.checklist
        && not (any_of (names_failed results) results))
      false

-- `evaluate_gate_result`
abbrev is_inspection : GateType → Bool
is_inspection GateType.inspection = true
is_inspection _ = false

unfoldable pub evaluate_gate_result : GateRule → List (Option ℤ) → List ChecklistResult → Verdict
unfolding evaluate_measurement evaluate_inspection
evaluate_gate_result rule readings results =
    if is_inspection rule.type_
    then evaluate_inspection rule results
    else evaluate_measurement rule readings
