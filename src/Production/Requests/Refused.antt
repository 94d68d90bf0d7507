-- ===== src/Production/Requests/Refused.antt =====
-- Requests for a transition that is not allowed (backend/app/modules/production/service.py).
use blyns_ops.Prelude.{
  ℕ, String, false, Option, some, List, ◌⊎◌, inl, inr, Bool-cases, ◌≡◌, refl, sym, subst,
}
use blyns_ops.Tenant.{
  Db, Principal, RawId, Exec, ok, err, domain_error, Project, pure, permission_denied,
  validation_error, reads, or_raise, WorkOrder, WoStatus, released, in_progress, qc_pending,
  qc_hold, rework, passed, packed, staged, dispatched, ◌>>=◌,
}
use blyns_ops.Tenant.Rules.{query_rule, outcome_rule, query_rules, IsQuery, IsQuery-reads}
use blyns_ops.Tenant.Frame.{bind_ok, IsRefused, raised-IsRefused, query-IsRefused}
use blyns_ops.Production.Lifecycle.{allowed_transitions, is_one_of}
use blyns_ops.Production.Store.{
  find_work_order, shop_oid, wo_or_404, assert_transition, require_manager, project_of,
}
use blyns_ops.Production.Floor.{
  RequestQcInput, PackInput, StageInput, pass_result, hold_result, release_work_order,
  start_work_order, request_qc, record_qc, rework_work_order, pack_work_order, stage_work_order,
  stage_for_dispatch, pack, release_reserved, pass_order, hold_order, redo, hand_to_qc, begin_work,
  allocate, allocate_work_order, auto_allocate_work_order, dispatch_work_order, depart,
}
use blyns_ops.Projects.Approvers.{may_approve}
use blyns_ops.Projects.Approvers.Holders.{Holds, may_approve-Holds}
use blyns_ops.Production.Stations.{auto_station}
use blyns_ops.Production.Planning.{WorkOrderInput, create_all, create_work_orders}
use blyns_ops.Production.Requests.{
  Request, create_orders, allocate_order, auto_allocate_order, release_order, start_order,
  ask_for_qc, give_qc, rework_order, pack_order, stage_order, dispatch_order, handle,
}

-- The work order that a request moves, and the status that it asks for.
pub data Asks : Request → RawId → WoStatus → Type 0 where
  to_release : (raw : RawId) → Asks (release_order raw) raw released
  to_start : (raw : RawId) → Asks (start_order raw) raw in_progress
  to_inspect : (raw : RawId) (x : RequestQcInput) → Asks (ask_for_qc raw x) raw qc_pending
  to_pass : (raw : RawId) → Asks (give_qc raw pass_result) raw passed
  to_hold :
      (raw : RawId) (defects : List String) (n : Option String)
      → Asks (give_qc raw (hold_result defects n)) raw qc_hold
  to_rework : (raw : RawId) (n : Option String) → Asks (rework_order raw n) raw rework
  to_pack : (raw : RawId) (x : PackInput) → Asks (pack_order raw x) raw packed
  to_stage : (raw : RawId) (x : StageInput) → Asks (stage_order raw x) raw staged
  to_dispatch : (raw : RawId) (n : Option String) → Asks (dispatch_order raw n) raw dispatched

answered :
    {B : Type 0} (s : Db) (m : Exec B) → IsRefused s (m s) → IsRefused s ((m >>= λ _. pure tt) s)
answered s m h =
    outcome_rule (IsRefused s) (IsRefused s) m (λ _. pure tt) s h (λ e s' k. k) (λ a s' k. absurd k)

project_of-IsQuery : (wo : WorkOrder) → IsQuery (project_of wo)
unfolding project_of
project_of-IsQuery wo = search query_rules

require_manager-IsQuery : (pr : Principal) → IsQuery (require_manager pr)
unfolding require_manager
require_manager-IsQuery pr = search query_rules

module _ (raw : RawId) (wo : WorkOrder) (to : WoStatus) (s : Db) where
  lookup-ok :
      (id : ℕ)
      → raw.object_id ≡ some id
      → find_work_order id s ≡ some wo
      → wo_or_404 raw s ≡ (ok wo, s)
  unfolding wo_or_404 shop_oid
  lookup-ok id e f = rw (e, f) refl

  -- After the lookup the test refuses, whatever would follow.
  checked-IsRefused :
      {B : Type 0} (rest : WorkOrder → Exec B)
      → wo_or_404 raw s ≡ (ok wo, s)
      → is_one_of to (allowed_transitions wo.status) ≡ false
      → IsRefused s ((wo_or_404 raw >>= λ w. assert_transition w to >>= λ _. rest w) s)
  checked-IsRefused rest e refused =
      subst (IsRefused s)
        (sym (bind_ok (wo_or_404 raw) (λ w. assert_transition w to >>= λ _. rest w) s s wo e))
        (unfold assert_transition in rw refused refl)

  -- The same when the project is looked up before the test.
  checked_after_project-IsRefused :
      {B : Type 0} (rest : WorkOrder → Project → Exec B)
      → wo_or_404 raw s ≡ (ok wo, s)
      → is_one_of to (allowed_transitions wo.status) ≡ false
      → IsRefused s (
          (wo_or_404 raw >>= λ w. project_of w >>= λ p. assert_transition w to >>= λ _. rest w p) s)
  checked_after_project-IsRefused rest e refused =
      subst (IsRefused s)
        (sym (
          bind_ok (wo_or_404 raw)
            (λ w. project_of w >>= λ p. assert_transition w to >>= λ _. rest w p) s s wo e))
        (query_rule (IsRefused s) (project_of wo) (λ p. assert_transition wo to >>= λ _. rest wo p)
          s (project_of-IsQuery wo) (λ x. refl)
          (λ p _. unfold assert_transition in rw refused refl))

  manager-IsRefused :
      {B : Type 0} (pr : Principal) (m : Exec B)
      → IsRefused s (m s)
      → IsRefused s ((require_manager pr >>= λ _. m) s)
  manager-IsRefused pr m h =
      query_rule (IsRefused s) (require_manager pr) (λ _. m) s (require_manager-IsQuery pr)
        (λ x. refl) (λ _ _. h)

-- A request for a transition that the work order's status does not allow is refused, by one check or
-- another, and changes nothing.
pub disallowed-IsRefused :
    (pr : Principal) (r : Request) (raw : RawId) (id : ℕ) (wo : WorkOrder) (to : WoStatus) (s : Db)
    → Asks r raw to
    → raw.object_id ≡ some id
    → find_work_order id s ≡ some wo
    → is_one_of to (allowed_transitions wo.status) ≡ false
    → IsRefused s (handle pr r s)
unfolding handle release_work_order start_work_order request_qc record_qc rework_work_order
    pack_work_order stage_work_order dispatch_work_order
disallowed-IsRefused pr r raw id wo to s a e f refused =
    go r to a (lookup-ok raw wo to s id e f) refused
  where
    go :
        (r : Request) (to : WoStatus)
        → Asks r raw to
        → wo_or_404 raw s ≡ (ok wo, s)
        → is_one_of to (allowed_transitions wo.status) ≡ false
        → IsRefused s (handle pr r s)
    go _ _ (to_release _) e unmet = answered s (release_work_order pr raw) (
        manager-IsRefused raw wo released s pr
          (wo_or_404 raw >>= λ w. assert_transition w released >>= λ _. release_reserved pr w)
          (checked-IsRefused raw wo released s (release_reserved pr) e unmet))
    go _ _ (to_start _) e unmet =
        answered s (start_work_order pr raw)
          (checked-IsRefused raw wo in_progress s (begin_work pr) e unmet)
    go _ _ (to_inspect _ x) e unmet =
        answered s (request_qc pr raw x)
          (checked-IsRefused raw wo qc_pending s (hand_to_qc pr x) e unmet)
    go _ _ (to_pass _) e unmet =
        answered s (record_qc pr raw pass_result)
          (checked_after_project-IsRefused raw wo passed s (pass_order pr) e unmet)
    go _ _ (to_hold _ ds n) e unmet =
        answered s (record_qc pr raw (hold_result ds n))
          (checked_after_project-IsRefused raw wo qc_hold s (hold_order pr ds n) e unmet)
    go _ _ (to_rework _ n) e unmet =
        answered s (rework_work_order pr raw n)
          (checked-IsRefused raw wo rework s (redo pr n) e unmet)
    go _ _ (to_pack _ x) e unmet =
        answered s (pack_work_order pr raw x)
          (checked-IsRefused raw wo packed s (pack pr x) e unmet)
    go _ _ (to_stage _ x) e unmet =
        answered s (stage_work_order pr raw x)
          (checked-IsRefused raw wo staged s (stage_for_dispatch pr x) e unmet)
    go _ _ (to_dispatch _ n) e unmet =
        answered s (dispatch_work_order pr raw n)
          (checked-IsRefused raw wo dispatched s (depart pr n) e unmet)

-- The requests that only a production manager may make.
pub data IsManaged : Request → Type 0 where
  making : (xs : List WorkOrderInput) → IsManaged (create_orders xs)
  releasing : (raw : RawId) → IsManaged (release_order raw)
  allocating : (raw station : RawId) → IsManaged (allocate_order raw station)
  auto_allocating : (raw : RawId) → IsManaged (auto_allocate_order raw)

unmanaged_raises :
    (pr : Principal) (s : Db)
    → may_approve "production_manager" pr s ≡ false
    → require_manager pr s ≡ (err (domain_error permission_denied 403), s)
unfolding require_manager
unmanaged_raises pr s h = rw h refl

unmanaged :
    {B : Type 0} (pr : Principal) (s : Db) (m : Exec B)
    → may_approve "production_manager" pr s ≡ false
    → IsRefused s ((require_manager pr >>= λ _. m) s)
unmanaged pr s m h =
    raised-IsRefused (require_manager pr) (λ _. m) s (domain_error permission_denied 403)
      (unmanaged_raises pr s h)

wo_or_404-IsQuery : (raw : RawId) → IsQuery (wo_or_404 raw)
unfolding wo_or_404 shop_oid
wo_or_404-IsQuery raw = search query_rules

unmanaged_request-IsRefused :
    (pr : Principal) (r : Request) (s : Db)
    → IsManaged r
    → may_approve "production_manager" pr s ≡ false
    → IsRefused s (handle pr r s)
unfolding handle create_work_orders release_work_order allocate_work_order auto_allocate_work_order
unmanaged_request-IsRefused pr _ s (making xs) h =
    answered s (create_work_orders pr xs) (unmanaged pr s (create_all pr xs) h)
unmanaged_request-IsRefused pr _ s (releasing raw) h = answered s (release_work_order pr raw) (
    unmanaged pr s
      (wo_or_404 raw >>= λ w. assert_transition w released >>= λ _. release_reserved pr w) h)
unmanaged_request-IsRefused pr _ s (allocating raw station) h =
    answered s (allocate_work_order pr raw station) (unmanaged pr s (allocate pr raw station) h)
unmanaged_request-IsRefused pr _ s (auto_allocating raw) h =
    answered s (auto_allocate_work_order pr raw) (
      query-IsRefused (wo_or_404 raw)
        (λ wo.
          reads (λ s. or_raise (auto_station wo s) (domain_error validation_error 422)) >>= λ best.
          allocate_work_order pr raw (record { text = best.id_text; object_id = some best.id }))
        s (wo_or_404-IsQuery raw)
        (λ wo.
          query-IsRefused
            (reads (λ s. or_raise (auto_station wo s) (domain_error validation_error 422)))
            (λ best.
              allocate_work_order pr raw (record { text = best.id_text; object_id = some best.id }))
            s (IsQuery-reads _)
            (λ best.
              unmanaged pr s
                (allocate pr raw (record { text = best.id_text; object_id = some best.id })) h)))

-- A request to make, release or allocate work orders, also to the station that is chosen automatically,
-- comes from someone who holds the position of production manager, by assignment, by role or by a
-- delegation that is in force and not revoked; or it is refused and changes nothing.
pub managed-IsRefused :
    (pr : Principal) (r : Request) (s : Db)
    → IsManaged r
    → Holds "production_manager" pr s ⊎ IsRefused s (handle pr r s)
managed-IsRefused pr r s m = elim (Bool-cases (may_approve "production_manager" pr s)) [
  | inl h ↦ inl (may_approve-Holds "production_manager" pr s h)
  | inr h ↦ inr (unmanaged_request-IsRefused pr r s m h)
]
