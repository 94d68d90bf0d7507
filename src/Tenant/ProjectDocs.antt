-- ===== src/Tenant/ProjectDocs.antt =====
-- The documents of the Projects module (backend/app/modules/projects/repository.py and models.py).
-- Money is in cents, readings are in the smallest unit of measure, and texts that only explain are left
-- out.
use blyns_ops.Prelude.{ℕ, String, Bool, Option, List}
use blyns_ops.Prelude.Int.{ℤ}
use blyns_ops.Tenant.Ids.{RawId}

pub data ProjectStatus : Type 0 where
  active on_hold completed archived cancelled : ProjectStatus

pub data HoldSource : Type 0 where
  manual_hold engine_hold : HoldSource

pub record Budget : Type 0 where
  pub planned : ℕ
  pub committed : ℕ
  pub actual : ℕ

-- A row of `status_history`.
pub record StatusChange : Type 0 where
  pub from_status : ProjectStatus
  pub to_status : ProjectStatus
  pub reason : Option String
  pub by : ℕ
  pub at : ℕ

-- A row of `stage_history`.
pub record StageExit : Type 0 where
  pub order : ℕ
  pub key : String
  pub entered_at : ℕ
  pub exited_at : ℕ
  pub auto : Bool

pub record Project : Type 0 where
  pub id : ℕ
  pub code : String
  pub name : String
  pub status : ProjectStatus
  pub hold : Option HoldSource
  pub completed_at : Option ℕ
  pub status_history : List StatusChange
  pub workflow_type : String
  pub configuration_id : Option ℕ
  pub config_version : ℕ
  pub current_stage_order : ℕ
  pub current_stage_key : String
  pub stage_history : List StageExit
  pub pm_id : Option ℕ
  pub crm_account_id : Option ℕ
  pub delivery_date : Option ℕ
  pub budget : Budget
  pub client_acceptance : Bool
  pub is_deleted : Bool
  pub updated_by : Option ℕ

pub data StageStatus : Type 0 where
  pending waiting blocked in_progress validation pending_approval approved rejected on_hold :
      StageStatus

pub data GateType : Type 0 where
  document dependency measurement inspection budget availability : GateType

pub record EntryGate : Type 0 where
  pub key : String
  pub type_ : GateType
  pub blocking : Bool
  pub depends_on : Option String

-- `return_to_stage` is the only action that the service reads, `on_hold` the only state.
pub record Recovery : Type 0 where
  pub return_to_stage : Bool
  pub target : Option String
  pub holds : Bool
  pub report_type : Option String

-- A stage of a version of a configuration; the first three fields are the scope.
pub record StageDef : Type 0 where
  pub workflow_type : Option String
  pub configuration_id : Option ℕ
  pub config_version : Option ℕ
  pub key : String
  pub order : ℕ
  pub name : String
  pub entry_gates : List EntryGate
  pub quality_gates : List String
  pub automated_tasks : List String
  pub approver_role : Option String
  pub co_approver_roles : List String
  pub auto_advance : Bool
  pub release_checklist : List String
  pub recovery : Recovery

-- What a stage waits for: a document of an entry gate, or a phase.
pub data Missing : Type 0 where
  missing_document : String → Missing
  missing_phase : Option String → Missing

-- A stage that has to be approved first, by its order and key.
pub record Blocker : Type 0 where
  pub order : ℕ
  pub key : String

pub data FailureReason : Type 0 where
  not_captured gate_failed : FailureReason

pub record GateFailure : Type 0 where
  pub gate_key : String
  pub reason : FailureReason

-- `blocking_reason`
pub data BlockingReason : Type 0 where
  blocked_by_stages : List Blocker → BlockingReason
  waiting_on_items : List Missing → BlockingReason
  failed_gates : List GateFailure → BlockingReason
  commented : Option String → BlockingReason

pub record TaskResult : Type 0 where
  pub task : String
  pub done : Bool

pub record StageInstance : Type 0 where
  pub id : ℕ
  pub project_id : ℕ
  pub stage_order : ℕ
  pub stage_key : String
  pub status : StageStatus
  pub entered_at : ℕ
  pub documents_supplied : List String
  pub checklist_done : List String
  pub waiting_on : List Missing
  pub blocked_by : List Blocker
  pub task_results : List TaskResult
  pub blocking_reason : Option BlockingReason
  pub approval_id : Option ℕ
  pub recovery_loops : ℕ
  pub last_evaluated_at : Option ℕ

-- A threshold by the fields that the engine looks for, in its order.
pub record Threshold : Type 0 where
  pub site_defined : Bool
  pub min : Option ℤ
  pub max : Option ℤ
  pub max_deviation_mm : Option ℤ
  pub max_rh_pct : Option ℤ
  pub max_deviation_in : Option ℤ
  pub target_mm : Option ℤ
  pub tolerance_mm : Option ℤ

pub record GateRule : Type 0 where
  pub configuration_id : Option ℕ
  pub config_version : Option ℕ
  pub key : String
  pub type_ : GateType
  pub threshold : Threshold
  pub severe_threshold : Threshold
  pub severe_report_type : Option String
  pub checklist : List String
  pub blocking : Bool
  pub attach_to_stages : List String

pub record ChecklistResult : Type 0 where
  pub item : Option String
  pub passed : Bool

pub record GateResult : Type 0 where
  pub id : ℕ
  pub stage_instance_id : ℕ
  pub project_id : ℕ
  pub gate_key : String
  pub captured_by : ℕ
  pub captured_at : ℕ
  pub readings : List (Option ℤ)
  pub checklist_results : List ChecklistResult
  pub passed : Bool
  pub severe : Bool
  pub waived : Bool
  pub reason : Option String

-- A row of `approver_role_map`, and a written delegation, which names the deputy by the text of the id.
pub record Approver : Type 0 where
  pub approver_role : String
  pub client_roles : List String
  pub assigned_user_ids : List ℕ

pub record Delegation : Type 0 where
  pub id : ℕ
  pub approver_role : String
  pub delegate_user_id : String
  pub revoked : Bool
  pub starts_at : ℕ
  pub ends_at : ℕ
  pub is_deleted : Bool

pub data ApprovalState : Type 0 where
  draft_approval auto_validation manager_review approved_approval rejected_approval : ApprovalState

pub record Decision : Type 0 where
  pub by : Option ℕ
  pub at : ℕ
  pub comment : Option String

pub record Approval : Type 0 where
  pub id : ℕ
  pub stage_instance_id : ℕ
  pub project_id : ℕ
  pub approver_role : Option String
  pub assigned_to : Option ℕ
  pub state : ApprovalState
  pub auto_passed : Option Bool
  pub decision : Option Decision
  pub change_report_id : Option ℕ
  pub created_by : ℕ

pub data ReportStatus : Type 0 where
  open_report report_in_progress resolved closed : ReportStatus

pub record Report : Type 0 where
  pub id : ℕ
  pub project_id : ℕ
  pub stage_instance_id : Option ℕ
  pub type_ : String
  pub title : String
  pub status : ReportStatus
  pub owner_id : ℕ
  pub resolved_at : Option ℕ
  pub is_deleted : Bool

-- A line of a bill of materials.
pub record BomLine : Type 0 where
  pub product_id : RawId
  pub qty : ℕ

-- `id_text` is `str(_id)`.
pub record Deliverable : Type 0 where
  pub id : ℕ
  pub id_text : String
  pub project_id : ℕ
  pub kind : String
  pub title : Option String
  pub current_version : ℕ
  pub lines : List BomLine
  pub created_at : ℕ
  pub is_deleted : Bool

pub data CostType : Type 0 where
  labor material subcontractor machine : CostType

pub record JobCost : Type 0 where
  pub id : ℕ
  pub project_id : ℕ
  pub stage_key : String
  pub cost_type : CostType
  pub hours : ℕ
  pub quantity : ℕ
  pub unit_cost : ℕ
  pub amount : ℕ
  pub posted_to_finance_ref : Option ℕ
  pub captured_at : ℕ
  pub created_by : ℕ

-- `current_version` and `workflow_shape` of a configuration.
pub record ProjectConfig : Type 0 where
  pub id : ℕ
  pub workflow_shape : String
  pub current_version : ℕ
  pub is_default : Bool
  pub is_active : Bool
  pub is_system : Bool
  pub is_deleted : Bool

-- The collections, the counter of codes, and the ids of the users.
pub record ProjectDb : Type 0 where
  pub projects : List Project
  pub configs : List ProjectConfig
  pub stage_defs : List StageDef
  pub stage_instances : List StageInstance
  pub gate_rules : List GateRule
  pub gate_results : List GateResult
  pub approvers : List Approver
  pub delegations : List Delegation
  pub approvals : List Approval
  pub reports : List Report
  pub deliverables : List Deliverable
  pub job_costs : List JobCost
  pub project_seq : ℕ
  pub users : List ℕ
