-- ===== src/Production/Queue.antt =====
-- The lists of work orders (backend/app/modules/production/service.py).
use blyns_ops.Prelude.{
  ℕ, ◌+◌, ◌*◌, String, Bool, true, false, Option, none, some, List, [], ◌∷◌, not, ◌&&◌, ◌==◌,
  if◌then◌else◌, leb, filter_by, take, drop, length, opt_str_eq, sort_by,
}
use blyns_ops.Tenant.{
  Db, Principal, RawId, Exec, ok, pure, reads, ◌>>=◌, WorkOrder, WoStatus, packed, staged,
  dispatched, WorkOrderLine, Quantity, Packing, Dispatch,
}
use blyns_ops.Production.Lifecycle.{is_one_of, done_statuses}
use blyns_ops.Production.Store.{shop_oid, wo_or_404}
use blyns_ops.Production.Floor.{WorkOrderView, detail, details}

-- A filter of the query string: absent, or the value that the document must have.
abbrev by_station : Option String → WorkOrder → Bool
by_station none w = true
by_station (some text) w = opt_str_eq w.current_station_id (some text)

abbrev by_status : Option WoStatus → WorkOrder → Bool
by_status none w = true
by_status (some status) w = is_one_of w.status (status ∷ [])

abbrev by_project : Option ℕ → WorkOrder → Bool
by_project none w = true
by_project (some id) w = w.project_id == id

-- `_oid(project_id, "Project")`, when there is one
unfoldable pub project_filter : Option RawId → Exec (Option ℕ)
project_filter none = pure none
project_filter (some raw) = do id ← shop_oid raw; pure (some id)

-- `list_work_orders`, in the order of creation, newest first, with the number of all that match
abbrev pub reversed : List WorkOrder → List WorkOrder → List WorkOrder
reversed [] acc = acc
reversed (w ∷ ws) acc = reversed ws (w ∷ acc)

unfoldable pub matching : (WorkOrder → Bool) → Db → List WorkOrder
matching q s = filter_by (λ w. q w && not w.is_deleted) s.shop.work_orders

unfoldable pub list_work_orders :
    Option RawId → Option WoStatus → Option String → ℕ → ℕ → Exec (List WorkOrderView × ℕ)
unfolding project_filter matching
list_work_orders project status station skip limit = do
  pid ← project_filter project
  docs ←
      reads
        (λ s. ok (matching (λ w. by_project pid w && by_status status w && by_station station w) s))
  views ← details (take limit (drop skip (reversed docs [])))
  pure (views, length docs)

unfoldable pub get_work_order : RawId → Exec WorkOrderView
get_work_order raw = do wo ← wo_or_404 raw; detail wo

-- `QUEUE_DEFAULT_DAYS`, and a day in microseconds
abbrev pub queue_default_days : ℕ
queue_default_days = 14

abbrev pub day : ℕ
day = 86400000000

-- A work order without a due date has no deadline, and stays in the list.
abbrev pub due_by : Option ℕ → WorkOrder → Bool
due_by none w = true
due_by (some horizon) w = elim w.due_date [ none ↦ true | some d ↦ leb d horizon ]

-- `due_days or QUEUE_DEFAULT_DAYS`, unless all are asked for
unfoldable pub horizon : Principal → ℕ → Bool → Option ℕ
horizon pr due_days true = none
horizon pr due_days false =
    some (pr.now + (if due_days == 0 then queue_default_days else due_days) * day)

-- "Due no later than"; no due date comes last.
abbrev pub due_leb : WorkOrder → WorkOrder → Bool
due_leb a b = elim a.due_date [
  | none ↦ elim b.due_date [ none ↦ true | some _ ↦ false ]
  | some d ↦ elim b.due_date [ none ↦ true | some e ↦ leb d e ]
]

-- `queue`; the driver's cap of 500 comes before the sort.
unfoldable pub queue_of : Option String → Option ℕ → Option ℕ → Db → List WorkOrder
unfolding matching
queue_of station project until s = sort_by due_leb (
    take 500 (
      matching
        (λ w.
          not (is_one_of w.status done_statuses)
          && by_station station w
          && by_project project w
          && due_by until w)
        s))

unfoldable pub queue :
    Principal → Option String → Option RawId → ℕ → Bool → Exec (List WorkOrderView)
unfolding queue_of
queue pr station project due_days all_due = do
  pid ← project_filter project
  docs ← reads (λ s. ok (queue_of station pid (horizon pr due_days all_due) s))
  details docs

-- `dispatch_board`, the last touched first
unfoldable pub dispatch_board : Option RawId → Exec (List WorkOrderView)
dispatch_board project = do
  pid ← project_filter project
  docs ← reads (λ s. ok (
      take 500 (
        sort_by (λ (a b : WorkOrder). leb b.updated_at a.updated_at)
          (matching
            (λ w. is_one_of w.status (packed ∷ staged ∷ dispatched ∷ []) && by_project pid w) s))))
  details docs

-- `work_order_manifest`
pub record Manifest : Type 0 where
  pub work_order : String
  pub status : WoStatus
  pub client_name : Option String
  pub item_name : String
  pub station_name : Option String
  pub qty : Quantity
  pub manifest_ref : Option String
  pub delivery_note_ref : Option String
  pub packing : Option Packing
  pub dispatch : Option Dispatch
  pub lines : List WorkOrderLine

abbrev manifest_of : WorkOrderView → Manifest
manifest_of v = record {
  work_order = v.work_order.code;
  status = v.work_order.status;
  client_name = v.work_order.client_name;
  item_name = v.work_order.item_name;
  station_name = v.station_name;
  qty = v.work_order.qty;
  manifest_ref = manifest_ref v.work_order.dispatch;
  delivery_note_ref = note_ref v.work_order.dispatch;
  packing = v.work_order.packing;
  dispatch = v.work_order.dispatch;
  lines = v.work_order.bom_lines;
}
  where
    manifest_ref : Option Dispatch → Option String
    manifest_ref none = none
    manifest_ref (some d) = elim d.staging [ none ↦ none | some x ↦ some x.manifest_ref ]

    note_ref : Option Dispatch → Option String
    note_ref none = none
    note_ref (some d) = elim d.staging [ none ↦ none | some x ↦ some x.delivery_note_ref ]

unfoldable pub work_order_manifest : RawId → Exec Manifest
work_order_manifest raw = do v ← get_work_order raw; pure (manifest_of v)
