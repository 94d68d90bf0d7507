-- ===== src/Tenant/Docs.antt =====
-- The documents of a tenant's collections, and the database that holds them. Money is in cents,
-- quantities are integers in the smallest unit of measure, times are microseconds, and the timestamps
-- `created_at`, `updated_at` and `deleted_at` are left out.
use blyns_ops.Prelude.{ℕ, String, Bool, Option, List}
use blyns_ops.Prelude.Int.{ℤ}
use blyns_ops.Tenant.Ids.{RawId}
use blyns_ops.Tenant.ProjectDocs.{ProjectDb}
use blyns_ops.Tenant.ShopDocs.{ShopDb}

pub record Product : Type 0 where
  pub id : ℕ
  pub sku : String
  pub name : String
  pub description : Option String
  pub category : Option String
  pub unit : String
  pub barcode : Option String
  pub cost_price : ℕ
  pub sale_price : ℕ
  pub currency : String
  pub reorder_point : ℕ
  pub reorder_qty : ℕ
  pub is_active : Bool
  pub is_deleted : Bool
  pub updated_by : Option ℕ

pub record Warehouse : Type 0 where
  pub id : ℕ
  pub name : String
  pub code : String
  pub address : Option String
  pub is_active : Bool
  pub is_deleted : Bool
  pub updated_by : Option ℕ

pub data MovementType : Type 0 where
  receipt issue adjustment transfer : MovementType

pub data RefModule : Type 0 where
  finance manual transfers projects production : RefModule

-- `qty` carries its sign.
pub record Movement : Type 0 where
  pub id : ℕ
  pub product_id : ℕ
  pub warehouse_id : ℕ
  pub type_ : MovementType
  pub qty : ℤ
  pub ref_module : RefModule
  pub ref_doc_id : Option ℕ
  pub note : Option String
  pub occurred_at : ℕ
  pub transfer_pair_id : Option ℕ
  pub created_by : ℕ

-- A row of the stock cache.
pub record Level : Type 0 where
  pub product_id : ℕ
  pub warehouse_id : ℕ
  pub on_hand : ℤ

pub data AccountType : Type 0 where
  asset liability equity income expense : AccountType

pub record Account : Type 0 where
  pub id : ℕ
  pub code : String
  pub name : String
  pub type_ : AccountType
  pub parent_id : Option ℕ
  pub is_active : Bool
  pub is_deleted : Bool
  pub updated_by : Option ℕ

pub record JournalLine : Type 0 where
  pub account_id : ℕ
  pub debit : ℕ
  pub credit : ℕ

pub data SourceModule : Type 0 where
  manual_entry invoice_entry bill_entry payment_entry : SourceModule

pub record Entry : Type 0 where
  pub id : ℕ
  pub date : ℕ
  pub source_module : SourceModule
  pub source_doc : Option ℕ
  pub lines : List JournalLine
  pub reverses : Option ℕ
  pub created_by : ℕ

pub data Status : Type 0 where
  draft sent partly_paid paid void : Status

-- A priced line of an invoice or a bill.
pub record PricedLine : Type 0 where
  pub description : String
  pub qty : ℕ
  pub unit_price : ℕ
  pub tax_rate : ℕ
  pub amount : ℕ
  pub tax_amount : ℕ
  pub product_id : Option RawId

-- An invoice or a bill: `party` is the `customer_ref` or the `vendor_ref`.
pub record Document : Type 0 where
  pub id : ℕ
  pub number : Option ℕ
  pub party : String
  pub issue_date : ℕ
  pub due_date : ℕ
  pub lines : List PricedLine
  pub subtotal : ℕ
  pub tax_total : ℕ
  pub total : ℕ
  pub paid_amount : ℕ
  pub status : Status
  pub inventory_issue : Bool
  pub warehouse_id : Option RawId
  pub journal_entry_id : Option ℕ
  pub reversal_entry_id : Option ℕ
  pub movement_ids : List ℕ
  pub is_deleted : Bool
  pub updated_by : Option ℕ

pub data DocType : Type 0 where
  invoice bill : DocType

pub data Method : Type 0 where
  cash bank other : Method

pub record Payment : Type 0 where
  pub id : ℕ
  pub doc_type : DocType
  pub doc_id : ℕ
  pub amount : ℕ
  pub date : ℕ
  pub method : Method
  pub account_id : ℕ
  pub journal_entry_id : ℕ
  pub created_by : ℕ

-- A row of `activity_log`; its `details` are left out.
pub record Activity : Type 0 where
  pub actor_id : ℕ
  pub action : String
  pub entity_type : String
  pub entity_id : ℕ

-- The tenant's database. `faults` says of each coming `insert` whether the driver raises.
pub record Db : Type 0 where
  pub products : List Product
  pub warehouses : List Warehouse
  pub movements : List Movement
  pub levels : List Level
  pub accounts : List Account
  pub journal : List Entry
  pub invoices : List Document
  pub bills : List Document
  pub payments : List Payment
  pub invoice_seq : ℕ
  pub bill_seq : ℕ
  pub activity : List Activity
  pub allow_negative_stock : Bool
  pub next_id : ℕ
  pub faults : List Bool
  pub pm : ProjectDb
  pub shop : ShopDb

-- The signed-in user with the name of the role, and the time of the request.
pub record Principal : Type 0 where
  pub user_id : ℕ
  pub role_name : String
  pub now : ℕ
