-- ===== src/Projects/Engine/Evaluated.antt =====
-- What an evaluation calls for (backend/app/modules/projects/engines.py, `next_status` and
-- `run_decision_engine`).
use blyns_ops.Prelude.{
  ◌≡◌, ◌≢◌, refl, Bool, true, false, not, ◌&&◌, Option, none, some, ◌==◌, arith, map, update_one,
  Bool-cases, inl, inr,
}
use blyns_ops.Tenant.{
  Db, Principal, StageDef, StageInstance, StageStatus, BlockingReason, blocked_by_stages,
  waiting_on_items, failed_gates, commented,
}
use blyns_ops.Projects.Engine.{Evaluation, is_empty, choose_status, next_status, reason_for}

-- Whether the status of an evaluated stage is the one that the evaluation calls for: a stage on hold stays
-- there, else a severe failure holds it, else a missing stage blocks it, else it waits for what is
-- missing, else it is in progress.
pub data Calls (e : Evaluation) (was : StageStatus) : StageStatus → Type 0 where
  stays_held : was ≡ StageStatus.on_hold → Calls e was StageStatus.on_hold
  holds : e.severe ≡ true → Calls e was StageStatus.on_hold
  blocks :
      was ≢ StageStatus.on_hold
      → e.severe ≡ false
      → is_empty e.blocked_by ≡ false
      → Calls e was StageStatus.blocked
  waits :
      was ≢ StageStatus.on_hold
      → e.severe ≡ false
      → is_empty e.blocked_by ≡ true
      → is_empty e.waiting_on ≡ false
      → Calls e was StageStatus.waiting
  proceeds :
      was ≢ StageStatus.on_hold
      → e.severe ≡ false
      → is_empty e.blocked_by ≡ true
      → is_empty e.waiting_on ≡ true
      → Calls e was StageStatus.in_progress

open_flag : (b c : Bool) → not b ≡ c → b ≡ not c
open_flag b c h = ground arith

choose-Calls :
    (e : Evaluation) (was : StageStatus) (a b c : Bool)
    → was ≢ StageStatus.on_hold
    → e.severe ≡ a
    → not (is_empty e.blocked_by) ≡ b
    → not (is_empty e.waiting_on) ≡ c
    → Calls e was (choose_status a b c)
choose-Calls e was true b c n p q r = holds p
choose-Calls e was false true c n p q r = blocks n p (open_flag _ _ q)
choose-Calls e was false false true n p q r = waits n p (open_flag _ _ q) (open_flag _ _ r)
choose-Calls e was false false false n p q r = proceeds n p (open_flag _ _ q) (open_flag _ _ r)

pub next_status-Calls : (e : Evaluation) (was : StageStatus) → Calls e was (next_status e was)
unfolding next_status
next_status-Calls e StageStatus.on_hold = stays_held refl
next_status-Calls e StageStatus.pending = choose-Calls e _ _ _ _ (λ h. cc) refl refl refl
next_status-Calls e StageStatus.waiting = choose-Calls e _ _ _ _ (λ h. cc) refl refl refl
next_status-Calls e StageStatus.blocked = choose-Calls e _ _ _ _ (λ h. cc) refl refl refl
next_status-Calls e StageStatus.in_progress = choose-Calls e _ _ _ _ (λ h. cc) refl refl refl
next_status-Calls e StageStatus.validation = choose-Calls e _ _ _ _ (λ h. cc) refl refl refl
next_status-Calls e StageStatus.pending_approval = choose-Calls e _ _ _ _ (λ h. cc) refl refl refl
next_status-Calls e StageStatus.approved = choose-Calls e _ _ _ _ (λ h. cc) refl refl refl
next_status-Calls e StageStatus.rejected = choose-Calls e _ _ _ _ (λ h. cc) refl refl refl

-- The reason that is written: the first of the three lists that has something.
abbrev pub Explains : Evaluation → Option BlockingReason → Type 0
Explains e none =
    (is_empty e.blocked_by ≡ true)
    × (is_empty e.waiting_on ≡ true)
    × (is_empty e.gate_failures ≡ true)
Explains e (some (blocked_by_stages bs)) = (is_empty bs ≡ false) × (bs ≡ e.blocked_by)
Explains e (some (waiting_on_items ms)) =
    (is_empty e.blocked_by ≡ true) × (is_empty ms ≡ false) × (ms ≡ e.waiting_on)
Explains e (some (failed_gates gs)) =
    (is_empty e.blocked_by ≡ true)
    × (is_empty e.waiting_on ≡ true)
    × (is_empty gs ≡ false)
    × (gs ≡ e.gate_failures)
Explains e (some (commented c)) = ⊥

pub reason-Explains : (e : Evaluation) → Explains e (reason_for e)
reason-Explains e = elim (Bool-cases (is_empty e.blocked_by)) [
  | inr b ↦ rw b (b, refl)
  | inl b ↦ elim (Bool-cases (is_empty e.waiting_on)) [
    | inr w ↦ rw (b, w) (b, w, refl)
    | inl w ↦ elim (Bool-cases (is_empty e.gate_failures)) [
      | inr g ↦ rw (b, w, g) (b, w, g, refl)
      | inl g ↦ rw (b, w, g) (b, w, g)
    ]
  ]
]

-- What a run writes on the instance `i` that it was given, and nothing else: the stored instance gets the
-- same fields as the one that it returns.
pub record IsEvaluated (pr : Principal) (d : StageDef) (e : Evaluation) (i j : StageInstance)
    (s t : Db) : Type 0 where
  pub status : Calls e i.status j.status
  pub reason : Explains e j.blocking_reason
  pub fields : j ≡ record i {
    status = j.status;
    waiting_on = e.waiting_on;
    blocked_by = e.blocked_by;
    task_results =
        map
          (λ x. record {
            task = x;
            done = is_empty e.waiting_on && is_empty e.blocked_by && is_empty e.gate_failures;
          })
          d.automated_tasks;
    blocking_reason = j.blocking_reason;
    last_evaluated_at = some pr.now;
  }
  pub stored : t ≡ record s {
    pm = record s.pm {
      stage_instances =
          update_one
            (λ x. i.id == x.id)
            (λ x. record x {
              status = j.status;
              waiting_on = j.waiting_on;
              blocked_by = j.blocked_by;
              task_results = j.task_results;
              blocking_reason = j.blocking_reason;
              last_evaluated_at = j.last_evaluated_at;
            })
            s.pm.stage_instances;
    };
  }
