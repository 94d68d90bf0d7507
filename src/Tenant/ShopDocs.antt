-- ===== src/Tenant/ShopDocs.antt =====
-- The documents of the Production module (backend/app/modules/production/permissions.py, models.py and
-- repository.py), and the clients of CRM that it reads.
use blyns_ops.Prelude.{ℕ, String, Bool, Option, List}
use blyns_ops.Tenant.Ids.{RawId}

-- `WO_STATUSES`
pub data WoStatus : Type 0 where
  queued released in_progress qc_pending qc_hold rework passed packed staged dispatched : WoStatus

-- A work centre. `id_text` is `str(_id)`.
pub record Station : Type 0 where
  pub id : ℕ
  pub id_text : String
  pub code : String
  pub name : String
  pub material_types : List String
  pub capacity_units_per_day : ℕ
  pub is_active : Bool

pub record WorkOrderLine : Type 0 where
  pub product_id : RawId
  pub sku : Option String
  pub description : Option String
  pub qty : ℕ
  pub uom : Option String

-- The drawing's revision that a work order is pinned to.
pub record SourceDrawing : Type 0 where
  pub deliverable_id : RawId
  pub title : Option String
  pub version : ℕ

pub record Quantity : Type 0 where
  pub ordered : ℕ
  pub done : ℕ

-- A row of a work order's `history`; the first has no `from_status`.
pub record Move : Type 0 where
  pub at : ℕ
  pub by : ℕ
  pub from_status : Option WoStatus
  pub to_status : WoStatus
  pub note : Option String

-- `blocked_by`: the two kinds that the service writes, with their notes.
pub data BlockedBy : Type 0 where
  material_shortfall : String → BlockedBy
  held_by_qc : Option String → BlockedBy

pub record QcResult : Type 0 where
  pub pass : Bool
  pub defects : List String
  pub note : Option String
  pub inspector_id : ℕ
  pub at : ℕ

pub record Packing : Type 0 where
  pub type_ : String
  pub protection_spec : String
  pub moisture_barrier : Bool
  pub labels : List String
  pub handling : List String
  pub packed_by : ℕ
  pub packed_at : ℕ

pub record DeliveryWindow : Type 0 where
  pub start : Option ℕ
  pub end : Option ℕ

-- What staging writes.
pub record Staging : Type 0 where
  pub units : ℕ
  pub lines : ℕ
  pub vehicle : String
  pub window : Option DeliveryWindow
  pub delivery_note_ref : String
  pub manifest_ref : String
  pub staged_by : ℕ
  pub staged_at : ℕ

pub record Departure : Type 0 where
  pub dispatched_by : ℕ
  pub dispatched_at : ℕ

pub record Dispatch : Type 0 where
  pub staging : Option Staging
  pub departure : Option Departure

pub record WorkOrder : Type 0 where
  pub id : ℕ
  pub code : String
  pub project_id : ℕ
  pub client_name : Option String
  pub item_name : String
  pub source_drawing : Option SourceDrawing
  pub bom_lines : List WorkOrderLine
  pub qty : Quantity
  pub station_route : List String
  pub current_station_id : Option String
  pub due_date : Option ℕ
  pub status : WoStatus
  pub blocked_by : Option BlockedBy
  pub history : List Move
  pub qc : Option QcResult
  pub packing : Option Packing
  pub dispatch : Option Dispatch
  pub created_by : ℕ
  pub updated_by : ℕ
  pub updated_at : ℕ
  pub is_deleted : Bool

-- A counter document "wo_<project>".
pub record WoCounter : Type 0 where
  pub project_id : ℕ
  pub seq : ℕ

-- The percentages of the four sections.
pub record Sections : Type 0 where
  pub production : ℕ
  pub quality_control : ℕ
  pub packing_protection : ℕ
  pub delivery_planning : ℕ

pub record Rollup : Type 0 where
  pub project_id : ℕ
  pub sections : Sections

pub record Client : Type 0 where
  pub id : ℕ
  pub name : String
  pub is_deleted : Bool

pub record ShopDb : Type 0 where
  pub stations : List Station
  pub work_orders : List WorkOrder
  pub counters : List WoCounter
  pub rollups : List Rollup
  pub clients : List Client
