-- ===== src/Tests/Fixtures.antt =====
-- Concrete documents and databases for the tests.
use blyns_ops.Prelude.{ℕ, String, true, false, none, some, [], ◌∷◌}
use blyns_ops.Prelude.Int.{pos}
use blyns_ops.Tenant.{
  Db, Principal, Product, Warehouse, Movement, MovementType, RefModule, RawId, ProjectDb, ShopDb,
  Project, ProjectStatus, StageDef, StageInstance, StageStatus,
}

abbrev pub user : Principal
user = record { user_id = 7; role_name = "Manager"; now = 1000 }

abbrev pub empty_pm : ProjectDb
empty_pm = record {
  projects = [];
  configs = [];
  stage_defs = [];
  stage_instances = [];
  gate_rules = [];
  gate_results = [];
  approvers = [];
  delegations = [];
  approvals = [];
  reports = [];
  deliverables = [];
  job_costs = [];
  project_seq = 0;
  users = [];
}

abbrev pub empty_shop : ShopDb
empty_shop = record { stations = []; work_orders = []; counters = []; rollups = []; clients = [] }

abbrev pub empty_db : Db
empty_db = record {
  products = [];
  warehouses = [];
  movements = [];
  levels = [];
  accounts = [];
  journal = [];
  invoices = [];
  bills = [];
  payments = [];
  invoice_seq = 0;
  bill_seq = 0;
  activity = [];
  allow_negative_stock = false;
  next_id = 100;
  faults = [];
  pm = empty_pm;
  shop = empty_shop;
}

abbrev pub raw_id : String → ℕ → RawId
raw_id text n = record { text = text; object_id = some n }

abbrev pub bad_id : RawId
bad_id = record { text = "nonsense"; object_id = none }

abbrev pub plank : Product
plank = record {
  id = 1;
  sku = "PLK";
  name = "Plank";
  description = none;
  category = none;
  unit = "pcs";
  barcode = none;
  cost_price = 500;
  sale_price = 900;
  currency = "USD";
  reorder_point = 5;
  reorder_qty = 20;
  is_active = true;
  is_deleted = false;
  updated_by = none;
}

abbrev pub depot : ℕ → String → Warehouse
depot n code = record {
  id = n;
  name = "Depot";
  code = code;
  address = none;
  is_active = true;
  is_deleted = false;
  updated_by = none;
}

abbrev pub opening : Movement
opening = record {
  id = 50;
  product_id = 1;
  warehouse_id = 10;
  type_ = MovementType.receipt;
  qty = pos 8;
  ref_module = RefModule.manual;
  ref_doc_id = none;
  note = none;
  occurred_at = 0;
  transfer_pair_id = none;
  created_by = 7;
}

-- Eight planks in the first of two warehouses.
abbrev pub stocked : Db
stocked = record empty_db {
  products = plank ∷ [];
  warehouses = depot 10 "A" ∷ depot 20 "B" ∷ [];
  movements = opening ∷ [];
  levels = record { product_id = 1; warehouse_id = 10; on_hand = pos 8 } ∷ [];
}

abbrev pub house : Project
house = record {
  id = 2;
  code = "P-1";
  name = "House";
  status = ProjectStatus.active;
  hold = none;
  completed_at = none;
  status_history = [];
  workflow_type = "sequential";
  configuration_id = none;
  config_version = 1;
  current_stage_order = 6;
  current_stage_key = "factory_release";
  stage_history = [];
  pm_id = none;
  crm_account_id = none;
  delivery_date = none;
  budget = record { planned = 1000; committed = 0; actual = 0 };
  client_acceptance = false;
  is_deleted = false;
  updated_by = none;
}

abbrev pub release_def : StageDef
release_def = record {
  workflow_type = some "sequential";
  configuration_id = none;
  config_version = none;
  key = "factory_release";
  order = 6;
  name = "Factory release";
  entry_gates = [];
  quality_gates = [];
  automated_tasks = [];
  approver_role = some "production_manager";
  co_approver_roles = [];
  auto_advance = false;
  release_checklist = "production" ∷ "quality_control" ∷ [];
  recovery = record { return_to_stage = false; target = none; holds = true; report_type = none };
}

abbrev pub release_stage : StageInstance
release_stage = record {
  id = 9;
  project_id = 2;
  stage_order = 6;
  stage_key = "factory_release";
  status = StageStatus.in_progress;
  entered_at = 1;
  documents_supplied = [];
  checklist_done = [];
  waiting_on = [];
  blocked_by = [];
  task_results = [];
  blocking_reason = none;
  approval_id = none;
  recovery_loops = 0;
  last_evaluated_at = none;
}
