-- ===== src/Production/Floor/Tracked.antt =====
-- The history of work orders under the requests of the shop floor
-- (backend/app/modules/production/service.py).
use blyns_ops.Prelude.{
  ℕ, String, Bool, true, false, not, Option, none, some, List, [], ◌∷◌, ◌++◌, ◌≡◌, refl, sym, ◌==◌,
  ◌&&◌, All, All-update_one, find_one-All, subst, arith,
}
use blyns_ops.Tenant.{
  Db, Principal, RawId, Exec, ok, reads, or_raise, domain_error, not_found, validation_error,
  modify, ◌>>=◌, WorkOrder, WoStatus, queued, Move,
}
use blyns_ops.Tenant.Rules.{Keeps, keeps_rules}
use blyns_ops.Tenant.Frame.{
  Leaves, Keeps-Leaves, Gives, Keeps-Gives, Keeps-check, Gives-bind, Gives-reads, or_raise_ok,
}
use blyns_ops.Production.Lifecycle.{allowed_transitions, is_one_of}
use blyns_ops.Production.Lifecycle.Reach.{◌⟶◌}
use blyns_ops.Production.Store.{
  find_work_order, shop_oid, wo_or_404, put_work_order, update_work_order, assert_transition,
  move_to, set_status,
}
use blyns_ops.Production.Floor.{
  RequestQcInput, QcInput, pass_result, hold_result, PackInput, StageInput, release_work_order,
  start_work_order, request_qc, record_qc, rework_work_order, flag_shortfall, pack_work_order,
  stage_work_order, stage_for_dispatch, pack, release_reserved, pass_order, hold_order, redo,
  hand_to_qc, begin_work, dispatch_work_order, depart, allocate, allocate_work_order,
  auto_allocate_work_order,
}
use blyns_ops.Production.Floor.Apart.{
  orders, finish-Leaves, detail-Leaves, require_manager-Leaves, project_of-Leaves,
  assert_materials_reserved-Leaves, book_on_first_start-Leaves, post_labor-Leaves,
  rework_material-Leaves, active_station-Leaves, write_activity-Leaves,
}

-- A first move makes a queued work order, and the others are allowed.
abbrev pub IsLegal : Option WoStatus → WoStatus → Type 0
IsLegal none b = b ≡ queued
IsLegal (some a) b = a ⟶ b

-- The moves follow each other from `prev` to `now`.
abbrev pub Follows : Option WoStatus → List Move → WoStatus → Type 0
Follows prev [] now = prev ≡ some now
Follows prev (m ∷ ms) now =
    (m.from_status ≡ prev) × IsLegal prev m.to_status × Follows (some m.to_status) ms now

-- The history says how the work order came to its status.
abbrev pub IsTracked : WorkOrder → Type 0
IsTracked w = Follows none w.history w.status

pub record HasTrackedOrders (s : Db) : Type 0 where
  pub tracked : All IsTracked s.shop.work_orders

abbrev moved : Principal → WoStatus → WoStatus → Option String → Move
moved pr a b n = record {
  at = pr.now;
  by = pr.user_id;
  from_status = some a;
  to_status = b;
  note = n;
}

Follows-append :
    (prev : Option WoStatus) (ms : List Move) (a b : WoStatus) (pr : Principal) (n : Option String)
    → Follows prev ms a
    → a ⟶ b
    → Follows prev (ms ++ (moved pr a b n ∷ [])) b
Follows-append prev [] a b pr n e h =
    (sym e, subst (λ (p : Option WoStatus). IsLegal p b) (sym e) h, refl)
Follows-append prev (m ∷ ms) a b pr n e h =
    (e.0, e.1, Follows-append (some m.to_status) ms a b pr n e.2 h)

update-HasTrackedOrders :
    (pr : Principal) (id : ℕ) (f : WorkOrder → WorkOrder)
    → ((w : WorkOrder) → IsTracked w → IsTracked (f w))
    → Keeps HasTrackedOrders (update_work_order pr id f)
unfolding update_work_order
update-HasTrackedOrders pr id f k = search (keeps_rules, put-HasTrackedOrders)
  where
    put-HasTrackedOrders : Keeps HasTrackedOrders (
        modify
          (put_work_order id (λ w. record (f w) { updated_by = pr.user_id; updated_at = pr.now })))
    put-HasTrackedOrders = record {
      at = λ s h. record {
        tracked =
            All-update_one IsTracked (λ w. id == w.id)
              (λ w. record (f w) { updated_by = pr.user_id; updated_at = pr.now })
              s.shop.work_orders k h.tracked;
      };
    }

set_status-HasTrackedOrders :
    (pr : Principal) (wo : WorkOrder) (to : WoStatus) (n : Option String)
    (extra : WorkOrder → WorkOrder)
    → IsTracked wo
    → wo.status ⟶ to
    → Keeps HasTrackedOrders (set_status pr wo to n extra)
unfolding set_status
set_status-HasTrackedOrders pr wo to n extra t h =
    update-HasTrackedOrders pr wo.id (move_to pr wo to n extra)
      (λ w _. Follows-append none wo.history wo.status to pr n t h)

-- Rules for the handlers: the work order that is found is tracked, and a transition that passes its
-- test is allowed.
wo_or_404-Gives : (raw : RawId) → Gives HasTrackedOrders IsTracked (wo_or_404 raw)
unfolding wo_or_404 shop_oid
wo_or_404-Gives raw =
    Gives-bind (reads (λ s. or_raise raw.object_id (domain_error not_found 404)))
      (λ id. reads (λ s. or_raise (find_work_order id s) (domain_error not_found 404)))
      (search keeps_rules)
      (λ id.
        Gives-reads (λ s. or_raise (find_work_order id s) (domain_error not_found 404)) (found id))
  where
    found :
        (id : ℕ) (s : Db)
        → HasTrackedOrders s
        → (w : WorkOrder) → or_raise (find_work_order id s) (domain_error not_found 404) ≡ ok w
        → IsTracked w
    found id s h w e =
        find_one-All IsTracked (λ x. id == x.id && not x.is_deleted) s.shop.work_orders w h.tracked
          (unfold find_work_order in
            or_raise_ok (find_work_order id s) (domain_error not_found 404) w e)

Keeps-order :
    {B : Type 0} (raw : RawId) (f : WorkOrder → Exec B)
    → ((wo : WorkOrder) → IsTracked wo → Keeps HasTrackedOrders (f wo))
    → Keeps HasTrackedOrders (wo_or_404 raw >>= f)
Keeps-order raw f k = Keeps-Gives IsTracked (wo_or_404 raw) f (wo_or_404-Gives raw) k

not_refused : (b : Bool) → not b ≡ false → b ≡ true
not_refused b h = ground arith

Keeps-transition :
    {B : Type 0} (wo : WorkOrder) (to : WoStatus) (n : Exec B)
    → (wo.status ⟶ to → Keeps HasTrackedOrders n)
    → Keeps HasTrackedOrders (assert_transition wo to >>= λ _. n)
unfolding assert_transition
Keeps-transition wo to n k =
    Keeps-check (not (is_one_of to (allowed_transitions wo.status)))
      (domain_error validation_error 422) n
      (λ h. k (not_refused (is_one_of to (allowed_transitions wo.status)) h))

pub keep : {A : Type 0} (m : Exec A) → Leaves orders m → Keeps HasTrackedOrders m
keep m l = Keeps-Leaves (All IsTracked) m (λ s h. h.tracked) (λ s h. record { tracked = h }) l

ruleset handler_rules = (
  Keeps-order, Keeps-transition, set_status-HasTrackedOrders, update-HasTrackedOrders, keeps_rules,
  keep, finish-Leaves, detail-Leaves, require_manager-Leaves, project_of-Leaves,
  assert_materials_reserved-Leaves, book_on_first_start-Leaves, post_labor-Leaves,
  rework_material-Leaves, active_station-Leaves, write_activity-Leaves,
)

module _ (pr : Principal) (raw : RawId) where
  pub release-HasTrackedOrders : Keeps HasTrackedOrders (release_work_order pr raw)
  unfolding release_work_order release_reserved
  release-HasTrackedOrders = search handler_rules depth 16

  pub start-HasTrackedOrders : Keeps HasTrackedOrders (start_work_order pr raw)
  unfolding start_work_order begin_work
  start-HasTrackedOrders = search handler_rules depth 16

  pub request_qc-HasTrackedOrders :
      (x : RequestQcInput) → Keeps HasTrackedOrders (request_qc pr raw x)
  unfolding request_qc hand_to_qc
  request_qc-HasTrackedOrders x = search handler_rules depth 16

  pub record_qc-HasTrackedOrders : (x : QcInput) → Keeps HasTrackedOrders (record_qc pr raw x)
  unfolding record_qc pass_order hold_order
  record_qc-HasTrackedOrders pass_result = search handler_rules depth 16
  record_qc-HasTrackedOrders (hold_result defects n) = search handler_rules depth 16

  pub rework-HasTrackedOrders :
      (n : Option String) → Keeps HasTrackedOrders (rework_work_order pr raw n)
  unfolding rework_work_order redo
  rework-HasTrackedOrders n = search handler_rules depth 16

  pub flag_shortfall-HasTrackedOrders :
      (n : String) → Keeps HasTrackedOrders (flag_shortfall pr raw n)
  unfolding flag_shortfall
  flag_shortfall-HasTrackedOrders n = search handler_rules depth 16

  pub pack-HasTrackedOrders : (x : PackInput) → Keeps HasTrackedOrders (pack_work_order pr raw x)
  unfolding pack_work_order pack
  pack-HasTrackedOrders x = search handler_rules depth 16

  pub stage-HasTrackedOrders : (x : StageInput) → Keeps HasTrackedOrders (stage_work_order pr raw x)
  unfolding stage_work_order stage_for_dispatch
  stage-HasTrackedOrders x = search handler_rules depth 16

  pub dispatch-HasTrackedOrders :
      (n : Option String) → Keeps HasTrackedOrders (dispatch_work_order pr raw n)
  unfolding dispatch_work_order depart
  dispatch-HasTrackedOrders n = search handler_rules depth 16

  pub allocate-HasTrackedOrders :
      (station : RawId) → Keeps HasTrackedOrders (allocate_work_order pr raw station)
  unfolding allocate_work_order allocate
  allocate-HasTrackedOrders station = search handler_rules depth 16

  pub auto_allocate-HasTrackedOrders : Keeps HasTrackedOrders (auto_allocate_work_order pr raw)
  unfolding auto_allocate_work_order
  auto_allocate-HasTrackedOrders = search (handler_rules, allocate-HasTrackedOrders) depth 16
