-- ===== src/Projects/Costs.antt =====
-- Job costs (backend/app/modules/projects/service.py, `create_job_cost`).
use blyns_ops.Prelude.{
  ℕ, ◌+◌, ◌-◌, ◌*◌, String, Bool, true, false, Option, none, some, [], ◌∷◌, ◌==◌, or_else,
  insert_one, if◌then◌else◌,
}
use blyns_ops.Tenant.{
  Principal, RawId, id_text, Exec, pure, reads, or_raise, raise_if, modify, ◌>>=◌, ◌>>◌,
  domain_error, validation_error, new_id, Project, CostType, labor, material, subcontractor,
  machine, JobCost, Budget,
}
use blyns_ops.Finance.Posting.{account_by_code, account_ap, account_cogs}
use blyns_ops.Finance.Accounts.{JournalEntryCreate, create_entry}
use blyns_ops.Projects.Definitions.{require_project, update_project, log_project}

pub record JobCostCreate : Type 0 where
  pub stage_key : Option String
  pub cost_type : CostType
  pub hours : ℕ
  pub quantity : ℕ
  pub unit_cost : ℕ
  pub post_to_finance : Bool

-- `(hours or quantity or 0) * unit_cost`
unfoldable pub cost_amount : JobCostCreate → ℕ
cost_amount x = if x.hours == 0 then x.quantity * x.unit_cost else x.hours * x.unit_cost

-- Dr cost of goods sold, Cr accounts payable, through Finance.
abbrev cost_entry : ℕ → ℕ → ℕ → JournalEntryCreate
cost_entry cogs ap amount = record {
  date = none;
  lines =
      record { account_id = id_text cogs; debit = amount; credit = 0 }
      ∷ record { account_id = id_text ap; debit = 0; credit = amount }
      ∷ [];
}

unfoldable pub post_cost : Principal → ℕ → Exec ℕ
post_cost pr amount = do
  cogs ← reads (λ s. or_raise (account_by_code account_cogs s) (domain_error validation_error 409))
  ap ← reads (λ s. or_raise (account_by_code account_ap s) (domain_error validation_error 409))
  entry ← create_entry pr (cost_entry cogs.id ap.id amount)
  pure entry.id

unfoldable pub post_cost_if : Principal → Bool → ℕ → Exec (Option ℕ)
unfolding post_cost
post_cost_if pr true amount = do ref ← post_cost pr amount; pure (some ref)
post_cost_if pr false amount = pure none

abbrev new_job_cost : Principal → JobCostCreate → Project → ℕ → Option ℕ → ℕ → JobCost
new_job_cost pr x project amount ref id = record {
  id = id;
  project_id = project.id;
  stage_key = or_else x.stage_key project.current_stage_key;
  cost_type = x.cost_type;
  hours = x.hours;
  quantity = x.quantity;
  unit_cost = x.unit_cost;
  amount = amount;
  posted_to_finance_ref = ref;
  captured_at = pr.now;
  created_by = pr.user_id;
}

-- The actual is rolled up; a material actual draws the commitment down, to zero at most.
unfoldable pub charge : CostType → ℕ → Budget → Budget
charge material amount b = record b { actual = b.actual + amount; committed = b.committed - amount }
charge labor amount b = record b { actual = b.actual + amount }
charge subcontractor amount b = record b { actual = b.actual + amount }
charge machine amount b = record b { actual = b.actual + amount }

unfoldable pub insert_job_cost : Principal → JobCostCreate → Project → ℕ → Option ℕ → Exec JobCost
insert_job_cost pr x project amount ref = do
  id ← new_id
  modify (λ s. record s {
    pm = record s.pm {
      job_costs = insert_one s.pm.job_costs (new_job_cost pr x project amount ref id);
    };
  })
  pure (new_job_cost pr x project amount ref id)

-- The budget that is charged is the one that was read at the start.
unfoldable pub create_job_cost : Principal → RawId → JobCostCreate → Exec JobCost
unfolding cost_amount post_cost_if insert_job_cost charge
create_job_cost pr raw x = do
  project ← require_project true raw
  raise_if (cost_amount x == 0) (domain_error validation_error 422)
  ref ← post_cost_if pr x.post_to_finance (cost_amount x)
  cost ← insert_job_cost pr x project (cost_amount x) ref
  _ ←
      update_project project.id
        (λ p. record p { budget = charge x.cost_type (cost_amount x) project.budget })
  log_project pr "project.job_cost" project
  pure cost
