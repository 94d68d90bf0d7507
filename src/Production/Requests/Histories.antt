-- ===== src/Production/Requests/Histories.antt =====
-- The history of work orders under any requests (backend/app/modules/production/service.py).
use blyns_ops.Prelude.{ℕ, String, Option, List, [], ◌∷◌, refl, All-insert_one, insert_one}
use blyns_ops.Tenant.{Db, Principal, RawId, Project, modify, pure, ◌>>=◌, WorkOrder}
use blyns_ops.Tenant.Rules.{Keeps, Keeps-bind, keeps_rules}
use blyns_ops.Tenant.Frame.{Leaves}
use blyns_ops.Production.Store.{project_or_404, next_wo_seq, shop_oid}
use blyns_ops.Production.Planning.{
  WorkOrderInput, new_work_order, insert_work_order, create_one, create_all, create_work_orders,
}
use blyns_ops.Production.Floor.Apart.{
  orders, apart_rules, require_manager-Leaves, new_id-Leaves, write_activity-Leaves,
}
use blyns_ops.Production.Floor.Tracked.{
  IsTracked, HasTrackedOrders, keep, release-HasTrackedOrders, start-HasTrackedOrders,
  request_qc-HasTrackedOrders, record_qc-HasTrackedOrders, rework-HasTrackedOrders,
  flag_shortfall-HasTrackedOrders, pack-HasTrackedOrders, stage-HasTrackedOrders,
  dispatch-HasTrackedOrders, allocate-HasTrackedOrders, auto_allocate-HasTrackedOrders,
}
use blyns_ops.Production.Requests.{
  Request, create_orders, release_order, start_order, ask_for_qc, give_qc, rework_order,
  report_shortfall, pack_order, stage_order, dispatch_order, allocate_order, auto_allocate_order,
  Call, handle, serve,
}

project_or_404-Leaves : (raw : RawId) → Leaves orders (project_or_404 raw)
unfolding project_or_404 shop_oid
project_or_404-Leaves raw = search apart_rules

next_wo_seq-Leaves : (project : ℕ) → Leaves orders (next_wo_seq project)
unfolding next_wo_seq
next_wo_seq-Leaves project = search apart_rules

add-HasTrackedOrders :
    (w : WorkOrder)
    → IsTracked w
    → Keeps HasTrackedOrders (
        modify (λ s. record s {
          shop = record s.shop { work_orders = insert_one s.shop.work_orders w };
        }))
add-HasTrackedOrders w t = record {
  at = λ s h. record { tracked = All-insert_one IsTracked s.shop.work_orders w h.tracked t };
}

created-IsTracked :
    (pr : Principal) (x : WorkOrderInput) (project : Project) (client : Option String) (seq id : ℕ)
    → IsTracked (new_work_order pr x project client seq id)
created-IsTracked pr x project client seq id = (refl, refl, refl)

insert-HasTrackedOrders :
    (pr : Principal) (x : WorkOrderInput) (project : Project) (client : Option String) (seq : ℕ)
    → Keeps HasTrackedOrders (insert_work_order pr x project client seq)
unfolding insert_work_order
insert-HasTrackedOrders pr x project client seq =
    search (keeps_rules, keep, new_id-Leaves, add-HasTrackedOrders, created-IsTracked)

create_one-HasTrackedOrders :
    (pr : Principal) (x : WorkOrderInput) → Keeps HasTrackedOrders (create_one pr x)
unfolding create_one
create_one-HasTrackedOrders pr x =
    search
      (
        keeps_rules, keep, project_or_404-Leaves, next_wo_seq-Leaves, insert-HasTrackedOrders,
        write_activity-Leaves,
      )
      depth 16

create_all-HasTrackedOrders :
    (pr : Principal) (xs : List WorkOrderInput) → Keeps HasTrackedOrders (create_all pr xs)
unfolding create_all
create_all-HasTrackedOrders pr [] = search keeps_rules
create_all-HasTrackedOrders pr (x ∷ xs) =
    Keeps-bind (create_one pr x) (λ wo. create_all pr xs >>= λ rest. pure (wo ∷ rest))
      (create_one-HasTrackedOrders pr x)
      (λ wo.
        Keeps-bind (create_all pr xs) (λ rest. pure (wo ∷ rest)) (create_all-HasTrackedOrders pr xs)
          (λ rest. search keeps_rules))

create-HasTrackedOrders :
    (pr : Principal) (xs : List WorkOrderInput) → Keeps HasTrackedOrders (create_work_orders pr xs)
unfolding create_work_orders
create-HasTrackedOrders pr xs =
    search (keeps_rules, keep, require_manager-Leaves, create_all-HasTrackedOrders)

-- Every request keeps the histories of the work orders in order, whether it is accepted or refused.
handle-HasTrackedOrders : (pr : Principal) (r : Request) → Keeps HasTrackedOrders (handle pr r)
unfolding handle
handle-HasTrackedOrders pr (create_orders xs) = search (keeps_rules, create-HasTrackedOrders)
handle-HasTrackedOrders pr (release_order raw) = search (keeps_rules, release-HasTrackedOrders)
handle-HasTrackedOrders pr (start_order raw) = search (keeps_rules, start-HasTrackedOrders)
handle-HasTrackedOrders pr (ask_for_qc raw x) = search (keeps_rules, request_qc-HasTrackedOrders)
handle-HasTrackedOrders pr (give_qc raw x) = search (keeps_rules, record_qc-HasTrackedOrders)
handle-HasTrackedOrders pr (rework_order raw n) = search (keeps_rules, rework-HasTrackedOrders)
handle-HasTrackedOrders pr (report_shortfall raw n) =
    search (keeps_rules, flag_shortfall-HasTrackedOrders)
handle-HasTrackedOrders pr (pack_order raw x) = search (keeps_rules, pack-HasTrackedOrders)
handle-HasTrackedOrders pr (stage_order raw x) = search (keeps_rules, stage-HasTrackedOrders)
handle-HasTrackedOrders pr (dispatch_order raw n) = search (keeps_rules, dispatch-HasTrackedOrders)
handle-HasTrackedOrders pr (allocate_order raw station) =
    search (keeps_rules, allocate-HasTrackedOrders)
handle-HasTrackedOrders pr (auto_allocate_order raw) =
    search (keeps_rules, auto_allocate-HasTrackedOrders)

-- If the histories of all work orders are in order, they are after any requests of any users, accepted
-- or refused: each history starts with the making of the work order, goes on by allowed transitions,
-- each from the status that the one before led to, and ends in the work order's status.
pub serve-HasTrackedOrders :
    (calls : List Call) (s : Db) → HasTrackedOrders s → HasTrackedOrders (serve calls s)
unfolding serve
serve-HasTrackedOrders [] s h = h
serve-HasTrackedOrders (c ∷ cs) s h =
    serve-HasTrackedOrders cs (handle c.principal c.request s).1
      ((handle-HasTrackedOrders c.principal c.request).at s h)
