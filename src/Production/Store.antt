-- ===== src/Production/Store.antt =====
-- The lookups of the Production module (backend/app/modules/production/repository.py and service.py).
use blyns_ops.Prelude.{
  ℕ, ◌+◌, String, Bool, true, false, Option, none, some, List, [], ◌∷◌, ◌++◌, not, ◌&&◌, ◌==◌,
  str_eq, str_leb, any_of, if◌then◌else◌, find_one, filter_by, update_one, sort_by, newest, take,
}
use blyns_ops.Tenant.{
  Db, Principal, RawId, Exec, ok, reads, or_raise, raise_if, modify, ◌>>=◌, ◌>>◌, domain_error,
  assertion_failed, not_found, permission_denied, validation_error, write_activity, Product,
  Warehouse, Project, Deliverable, WorkOrder, WoStatus, WoCounter, Station,
}
use blyns_ops.Projects.Definitions.{find_project}
use blyns_ops.Projects.Approvers.{may_approve}
use blyns_ops.Production.Lifecycle.{is_one_of, allowed_transitions}

-- `_oid`, with this module's own code
unfoldable pub shop_oid : RawId → Exec ℕ
shop_oid raw = reads (λ s. or_raise raw.object_id (domain_error not_found 404))

-- `_log`
abbrev pub log_order : Principal → String → WorkOrder → Exec Unit
log_order pr action wo = write_activity pr action "work_order" wo.id

-- `_require_manager`
unfoldable pub require_manager : Principal → Exec Unit
require_manager pr = do
  held ← reads (λ s. ok (may_approve "production_manager" pr s))
  raise_if (not held) (domain_error permission_denied 403)

-- `repo.list_stations`: the active ones, by code
unfoldable pub active_stations : Db → List Station
active_stations s =
    sort_by (λ (a b : Station). str_leb a.code b.code)
      (filter_by (λ (t : Station). t.is_active) s.shop.stations)

-- `repo.get_station` and `stations_map`
unfoldable pub find_station : ℕ → Db → Option Station
find_station id s = find_one (λ t. id == t.id) s.shop.stations

unfoldable pub station_by_text : String → Db → Option Station
station_by_text text s = find_one (λ t. str_eq text t.id_text) s.shop.stations

-- `repo.product(db, ObjectId(…))`, which finds deleted products too; a malformed id gives none.
unfoldable pub product_of : RawId → Db → Option Product
product_of raw s = elim raw.object_id [
  | none ↦ none
  | some id ↦ find_one (λ p. id == p.id) s.products
]

-- `repo.account_name`
unfoldable pub client_name_of : Option ℕ → Db → Option String
client_name_of none s = none
client_name_of (some id) s = elim (find_one (λ c. id == c.id) s.shop.clients) [
  | none ↦ none
  | some c ↦ some c.name
]

-- `repo.default_warehouse`: the live one with the least code
unfoldable pub default_warehouse : Db → Option Warehouse
default_warehouse s =
    find_one (λ w. not w.is_deleted)
      (sort_by (λ (a b : Warehouse). str_leb a.code b.code) s.warehouses)

-- `repo.reservable_bom`, `repo.has_any_bom` and `repo.latest_shop_drawing`
abbrev is_kind : String → ℕ → Deliverable → Bool
is_kind kind project d = d.project_id == project && str_eq d.kind kind && not d.is_deleted

abbrev has_lines : Deliverable → Bool
has_lines d = elim d.lines [ [] ↦ false | _ ∷ _ ↦ true ]

unfoldable pub reservable_bom : ℕ → Db → Option Deliverable
reservable_bom project s =
    newest (λ d. d.created_at)
      (filter_by (λ d. is_kind "bom" project d && has_lines d) s.pm.deliverables)

unfoldable pub has_any_bom : ℕ → Db → Bool
has_any_bom project s = any_of (is_kind "bom" project) s.pm.deliverables

unfoldable pub latest_shop_drawing : ℕ → Db → Option Deliverable
latest_shop_drawing project s =
    newest (λ d. d.created_at) (filter_by (is_kind "shop_drawing" project) s.pm.deliverables)

-- `repo.get_work_order` and `_wo_or_404`
unfoldable pub find_work_order : ℕ → Db → Option WorkOrder
find_work_order id s = find_one (λ w. id == w.id && not w.is_deleted) s.shop.work_orders

unfoldable pub wo_or_404 : RawId → Exec WorkOrder
unfolding shop_oid find_work_order
wo_or_404 raw = do
  id ← shop_oid raw
  reads (λ s. or_raise (find_work_order id s) (domain_error not_found 404))

-- `repo.live_work_orders`
unfoldable pub live_work_orders : ℕ → Db → List WorkOrder
live_work_orders project s =
    take 2000 (filter_by (λ w. w.project_id == project && not w.is_deleted) s.shop.work_orders)

-- `_project_of`
unfoldable pub project_of : WorkOrder → Exec Project
project_of wo = reads (λ s. or_raise (find_project wo.project_id s) (domain_error not_found 404))

-- `repo.get_project(db, _oid(…))`
unfoldable pub project_or_404 : RawId → Exec Project
unfolding shop_oid
project_or_404 raw = do
  id ← shop_oid raw
  reads (λ s. or_raise (find_project id s) (domain_error not_found 404))

-- `repo.update_work_order`, and the service's `assert` on its result
abbrev pub put_work_order : ℕ → (WorkOrder → WorkOrder) → Db → Db
put_work_order id f s = record s {
  shop = record s.shop { work_orders = update_one (λ w. id == w.id) f s.shop.work_orders };
}

unfoldable pub update_work_order : Principal → ℕ → (WorkOrder → WorkOrder) → Exec WorkOrder
unfolding find_work_order
update_work_order pr id f = do
  modify (put_work_order id (λ w. record (f w) { updated_by = pr.user_id; updated_at = pr.now }))
  reads (λ s. or_raise (find_work_order id s) assertion_failed)

-- `_assert_transition`
unfoldable pub assert_transition : WorkOrder → WoStatus → Exec Unit
assert_transition wo to =
    raise_if (not (is_one_of to (allowed_transitions wo.status)))
      (domain_error validation_error 422)

-- `_set_status`: the move is added to the history that was read, and `extra` is what the handler sets.
abbrev pub move_to :
    Principal
    → WorkOrder
    → WoStatus
    → Option String
    → (WorkOrder → WorkOrder)
    → WorkOrder
    → WorkOrder
move_to pr wo to note extra w = record (extra w) {
  status = to;
  history =
      wo.history
      ++ (record {
        at = pr.now;
        by = pr.user_id;
        from_status = some wo.status;
        to_status = to;
        note = note;
      }
          ∷ []);
}

unfoldable pub set_status :
    Principal → WorkOrder → WoStatus → Option String → (WorkOrder → WorkOrder) → Exec WorkOrder
unfolding update_work_order
set_status pr wo to note extra = update_work_order pr wo.id (move_to pr wo to note extra)

-- `next_wo_seq`: the counter of the project, made when there is none.
abbrev bump : ℕ → List WoCounter → List WoCounter
bump project [] = record { project_id = project; seq = 1 } ∷ []
bump project (c ∷ cs) =
    let rest = bump project cs in
    if c.project_id == project then record c { seq = c.seq + 1 } ∷ cs else c ∷ rest

abbrev pub counter : ℕ → List WoCounter → ℕ
counter project [] = 0
counter project (c ∷ cs) = if c.project_id == project then c.seq else counter project cs

unfoldable pub next_wo_seq : ℕ → Exec ℕ
next_wo_seq project = do
  modify (λ s. record s { shop = record s.shop { counters = bump project s.shop.counters } })
  reads (λ s. ok (counter project s.shop.counters))
