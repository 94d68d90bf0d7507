-- ===== src/Projects/Engine/Settled.antt =====
-- The decision engine run again (backend/app/modules/projects/engines.py).
use blyns_ops.Prelude.{
  ℕ, ◌≡◌, ◌≢◌, refl, sym, ◌∙◌, ap, String, Bool, true, false, not, ◌&&◌, Option, none, some, List,
  [], ◌∷◌, ◌==◌, subst, find_one, update_one, Bool-cases, inl, inr, find_by, same_item,
  find_one-update_one, update_one-again,
}
use blyns_ops.Tenant.{
  Db, Principal, Result, ok, err, Project, StageDef, StageInstance, StageStatus, EntryGate, Blocker,
}
use blyns_ops.Projects.Definitions.{
  ConfigScope, scope_for_project, gate_rule, system_config, stage_instance, stage_def_by_key,
  set_stage_fields,
}
use blyns_ops.Projects.Engine.{
  Evaluation, is_empty, choose_status, next_status, is_approved, placed, apply_evaluation,
  evaluate_stage, evaluation_of, own_definition, latest_gate_result, blocking_stages, add_blocker,
  dependency, stage_approved, run_decision_engine,
}
use blyns_ops.Projects.Engine.Evaluated.{IsEvaluated, next_status-Calls, reason-Explains}

chosen : (a b c : Bool) → choose_status a b c ≢ StageStatus.approved
chosen true b c = λ h. cc
chosen false true c = λ h. cc
chosen false false true = λ h. cc
chosen false false false = λ h. cc

next_status_unapproved :
    (e : Evaluation) (was : StageStatus) → next_status e was ≢ StageStatus.approved
unfolding next_status
next_status_unapproved e StageStatus.on_hold = λ h. cc
next_status_unapproved e _ =
    chosen e.severe (not (is_empty e.blocked_by)) (not (is_empty e.waiting_on))

again :
    (e : Evaluation) (a b c : Bool)
    → e.severe ≡ a
    → not (is_empty e.blocked_by) ≡ b
    → not (is_empty e.waiting_on) ≡ c
    → next_status e (choose_status a b c) ≡ choose_status a b c
unfolding next_status
again e true b c p q r = refl
again e false true c p q r = rw (p, q) refl
again e false false true p q r = rw (p, q, r) refl
again e false false false p q r = rw (p, q, r) refl

-- The status that the engine gives is one that it gives again.
next_status_again :
    (e : Evaluation) (was : StageStatus) → next_status e (next_status e was) ≡ next_status e was
unfolding next_status
next_status_again e StageStatus.on_hold = refl
next_status_again e _ =
    again e e.severe (not (is_empty e.blocked_by)) (not (is_empty e.waiting_on)) refl refl refl

-- The engine changes which stages are approved for no other stage.
module _ (i : StageInstance) (f : StageInstance → StageInstance) (q : StageInstance → Bool)
    (keeps : (x : StageInstance) → q (f x) ≡ q x) (open_before : is_approved (some i) ≡ false)
    (open_after : (x : StageInstance) → is_approved (some (f x)) ≡ false) where
  same_head :
      (x : StageInstance) (xs : List StageInstance)
      → x ≡ i
      → i.id == x.id ≡ true
      → is_approved (find_one q (update_one (λ x. i.id == x.id) f (x ∷ xs)))
        ≡ is_approved (find_one q (x ∷ xs))
  same_head x xs same own = elim (Bool-cases (q x)) [
    | inl hit ↦
        rw (own, keeps x ∙ hit, hit)
          (open_after x ∙ sym open_before ∙ ap (λ y. is_approved (some y)) (sym same))
    | inr miss ↦ rw (own, keeps x ∙ miss, miss) refl
  ]

  same_approved :
      (xs : List StageInstance)
      → find_one (λ x. i.id == x.id) xs ≡ some i
      → is_approved (find_one q (update_one (λ x. i.id == x.id) f xs)) ≡ is_approved (find_one q xs)
  same_approved [] e = refl
  same_approved (x ∷ xs) e = elim (Bool-cases (i.id == x.id)) [
    | inl own ↦ same_head x xs (same_item x i (find_by (λ y. i.id == y.id) x xs i own e)) own
    | inr other ↦ elim (Bool-cases (q x)) [
      | inl hit ↦ rw (other, hit) refl
      | inr miss ↦ rw (other, miss) (same_approved xs (find_by (λ y. i.id == y.id) x xs i other e))
    ]
  ]

add_blocker-same :
    (g : EntryGate) (o : Option StageDef) (a b : ℕ → Bool) (rest : List Blocker)
    → ((n : ℕ) → a n ≡ b n)
    → add_blocker g o a rest ≡ add_blocker g o b rest
add_blocker-same g none a b rest h = refl
add_blocker-same g (some d) a b rest h = rw (h d.order) refl

unapproved :
    (x : StageInstance) (st : StageStatus)
    → st ≢ StageStatus.approved
    → is_approved (some (record x { status = st })) ≡ false
unapproved x StageStatus.approved h = absurd (h refl)
unapproved x _ h = refl

-- The database with the engine's writes.
abbrev pub place : Principal → StageDef → Evaluation → StageInstance → Db → Db
place pr d e i s = record s {
  pm = record s.pm {
    stage_instances = update_one (λ x. i.id == x.id) (placed pr d e i.status) s.pm.stage_instances;
  };
}

module _ (pr : Principal) (project : Project) (d : StageDef) (e : Evaluation) (i : StageInstance)
    (s : Db) (own : find_one (λ x. i.id == x.id) s.pm.stage_instances ≡ some i)
    (open_before : is_approved (some i) ≡ false) where
  open_after : (x : StageInstance) → is_approved (some (placed pr d e i.status x)) ≡ false
  open_after x = unapproved x (next_status e i.status) (next_status_unapproved e i.status)

  approved-same :
      (order : ℕ) → stage_approved project (place pr d e i s) order ≡ stage_approved project s order
  unfolding stage_instance
  approved-same order =
      same_approved i (placed pr d e i.status)
        (λ (x : StageInstance). x.project_id == project.id && x.stage_order == order) (λ x. refl)
        open_before open_after s.pm.stage_instances own

  blockers-same :
      (find_def : String → Option StageDef) (gs : List EntryGate)
      → blocking_stages find_def (stage_approved project (place pr d e i s)) gs
        ≡ blocking_stages find_def (stage_approved project s) gs
  unfolding blocking_stages
  blockers-same find_def [] = refl
  blockers-same find_def (g ∷ gs) =
      ap (add_blocker g (dependency find_def g) (stage_approved project (place pr d e i s)))
        (blockers-same find_def gs)
      ∙ add_blocker-same g (dependency find_def g) (stage_approved project (place pr d e i s))
          (stage_approved project s) (blocking_stages find_def (stage_approved project s) gs)
          approved-same

  evaluation_of-same :
      (scope : ConfigScope) (own_d : StageDef)
      → evaluation_of project scope own_d (placed pr d e i.status i) (place pr d e i s)
        ≡ evaluation_of project scope own_d i s
  unfolding evaluation_of stage_def_by_key gate_rule latest_gate_result
  evaluation_of-same scope own_d =
      ap (λ bs. record (evaluation_of project scope own_d i s) { blocked_by = bs })
        (blockers-same (λ key. stage_def_by_key key scope s) own_d.entry_gates)

  evaluation-same :
      evaluate_stage project d (placed pr d e i.status i) (place pr d e i s)
      ≡ evaluate_stage project d i s
  unfolding evaluate_stage scope_for_project own_definition stage_def_by_key system_config
  evaluation-same = evaluation_of-same (scope_for_project project s) (own_definition project d s)

  -- What a run writes and returns.
  applied : apply_evaluation pr d i e s ≡ (ok (placed pr d e i.status i, e), place pr d e i s)
  unfolding apply_evaluation set_stage_fields
  applied =
      rw
        (find_one-update_one (λ x. i.id == x.id) (λ x. i.id == x.id) (placed pr d e i.status)
          s.pm.stage_instances i (λ x. refl) own own)
        refl

  run_writes :
      evaluate_stage project d i s ≡ e
      → run_decision_engine pr project d i s ≡ (ok (placed pr d e i.status i, e), place pr d e i s)
  unfolding run_decision_engine
  run_writes eval = ap (λ x. apply_evaluation pr d i x s) eval ∙ applied

  found_again :
      find_one (λ x. i.id == x.id) (place pr d e i s).pm.stage_instances
      ≡ some (placed pr d e i.status i)
  found_again =
      find_one-update_one (λ x. i.id == x.id) (λ x. i.id == x.id) (placed pr d e i.status)
        s.pm.stage_instances i (λ x. refl) own own

  place_again : place pr d e (placed pr d e i.status i) (place pr d e i s) ≡ place pr d e i s
  place_again =
      ap (λ is. record s { pm = record s.pm { stage_instances = is } })
        (update_one-again (λ x. i.id == x.id) (placed pr d e i.status)
          (placed pr d e (next_status e i.status)) s.pm.stage_instances (λ x. refl)
          (λ x.
            ap (λ st. record (placed pr d e i.status x) { status = st })
              (next_status_again e i.status)))

placed-IsEvaluated :
    (pr : Principal) (d : StageDef) (e : Evaluation) (i : StageInstance) (s : Db)
    → IsEvaluated pr d e i (placed pr d e i.status i) s (place pr d e i s)
placed-IsEvaluated pr d e i s = record {
  status = next_status-Calls e i.status;
  reason = reason-Explains e;
  fields = refl;
  stored = refl;
}

abbrev pub Settles :
    Principal
    → Project
    → StageDef
    → StageInstance
    → Db
    → Result (StageInstance × Evaluation) × Db
    → Type 0
Settles pr project d i s (ok (j, e), t) =
    (e ≡ evaluate_stage project d i s)
    × IsEvaluated pr d e i j s t
    × (j.status ≢ StageStatus.approved)
    × (run_decision_engine pr project d j t ≡ (ok (j, e), t))
Settles pr project d i s (err e, t) = ⊥

-- If the instance's id is its own and the stage was not approved: a run of the engine does not fail; it
-- writes on that instance alone the status that the evaluation calls for, what the stage waits for, what
-- blocks it, whether its tasks are done, and why it does not proceed; it approves nothing; and a second
-- run, at the same time, writes and returns the same.
pub engine-Settles :
    (pr : Principal) (project : Project) (d : StageDef) (i : StageInstance) (s : Db)
    → find_one (λ x. i.id == x.id) s.pm.stage_instances ≡ some i
    → is_approved (some i) ≡ false
    → Settles pr project d i s (run_decision_engine pr project d i s)
engine-Settles pr project d i s own open_before =
    subst (Settles pr project d i s) (sym (run_writes pr project d e i s own open_before refl))
      (refl, placed-IsEvaluated pr d e i s, next_status_unapproved e i.status, again_same)
  where
    e : Evaluation
    e = evaluate_stage project d i s

    j : StageInstance
    j = placed pr d e i.status i

    t : Db
    t = place pr d e i s

    again_same : run_decision_engine pr project d j t ≡ (ok (j, e), t)
    again_same =
        run_writes pr project d e j t (found_again pr project d e i s own open_before)
          (open_after pr project d e i s own open_before i)
          (evaluation-same pr project d e i s own open_before)
        ∙ ap (λ x. (ok (x, e), place pr d e j t))
            (ap (λ st. record j { status = st }) (next_status_again e i.status))
        ∙ ap (λ u. (ok (j, e), u)) (place_again pr project d e i s own open_before)
