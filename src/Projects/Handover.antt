-- ===== src/Projects/Handover.antt =====
-- The integrations of a stage, and the handover (backend/app/modules/projects/service.py,
-- `_run_integrations` and `_build_handover`).
use blyns_ops.Prelude.{
  ℕ, ◌+++◌, String, Option, none, some, false, List, [], ◌∷◌, ◌&&◌, ◌==◌, leb, ltb, str_eq,
  if◌then◌else◌, filter_by, insert_one, sort_by,
}
use blyns_ops.Tenant.{
  Db, Principal, Exec, ok, pure, reads, modify, ◌>>=◌, ◌>>◌, new_id, id_text, Project, StageDef,
  Deliverable, GateResult, Document,
}
use blyns_ops.Finance.Pricing.{Rounding}
use blyns_ops.Finance.Invoices.{create_invoice}
use blyns_ops.Projects.Definitions.{log_project}
use blyns_ops.Projects.Validation.{handover_stage_key}
use blyns_ops.Projects.Reservation.{Reserved, reserve_stock}

-- `waived_gate_results`
unfoldable pub waived_gate_results : ℕ → Db → List GateResult
waived_gate_results project s =
    sort_by (λ a b. leb a.captured_at b.captured_at)
      (filter_by (λ (r : GateResult). r.project_id == project && r.waived) s.pm.gate_results)

-- A document of the pack, by kind and title.
pub record PackItem : Type 0 where
  pub kind : String
  pub title : String

abbrev item : String → String → PackItem
item kind title = record { kind = kind; title = title }

abbrev pub pack_items : List PackItem
pack_items =
    item "certificate" "Completion Certificate"
    ∷ item "certificate" "Warranty"
    ∷ item "report" "Operation & Maintenance Manuals"
    ∷ item "shop_drawing" "As-built Drawings"
    ∷ item "report" "Gate Records G1–G5 (Technical Defence File)"
    ∷ []

abbrev pack_document : Principal → Project → PackItem → ℕ → Deliverable
pack_document pr project x id = record {
  id = id;
  id_text = (id_text id).text;
  project_id = project.id;
  kind = x.kind;
  title = some x.title;
  current_version = 1;
  lines = [];
  created_at = pr.now;
  is_deleted = false;
}

unfoldable pub insert_pack : Principal → Project → List PackItem → Exec (List Deliverable)
insert_pack pr project [] = pure []
insert_pack pr project (x ∷ xs) = do
  id ← new_id
  modify (λ s. record s {
    pm = record s.pm {
      deliverables = insert_one s.pm.deliverables (pack_document pr project x id);
    };
  })
  rest ← insert_pack pr project xs
  pure (pack_document pr project x id ∷ rest)

pub record Handover : Type 0 where
  pub documents : List Deliverable
  pub final_invoice : Option Document
  pub gate_waivers : List GateResult

pub data Integration : Type 0 where
  no_integration : Integration
  reservations : List Reserved → Integration
  handed_over : Handover → Integration

-- `one` is the quantity 1.
module _ (rounding : Rounding) (one : ℕ) where
  -- The invoice for the planned budget, if there is one.
  unfoldable pub final_invoice : Principal → Project → Exec (Option Document)
  final_invoice pr project =
      if ltb 0 project.budget.planned
      then (do
        doc ← create_invoice rounding pr (record {
          customer = project.name;
          issue_date = none;
          due_date = pr.now;
          lines =
              record {
                description = project.code +++ " — " +++ project.name +++ " final account";
                qty = one;
                unit_price = project.budget.planned;
                tax_rate = 0;
                product_id = none;
              }
              ∷ [];
          inventory_issue = false;
          warehouse_id = none;
        })
        pure (some doc))
      else pure none

  unfoldable pub build_handover : Principal → Project → Exec Handover
  unfolding insert_pack final_invoice
  build_handover pr project = do
    waivers ← reads (λ s. ok (waived_gate_results project.id s))
    pack ← insert_pack pr project pack_items
    invoice ← final_invoice pr project
    log_project pr "project.handover" project
    pure (record { documents = pack; final_invoice = invoice; gate_waivers = waivers })

  unfoldable pub run_integrations : Principal → Project → StageDef → Exec Integration
  run_integrations pr project d =
      if str_eq d.key "material_procurement"
      then (do r ← reserve_stock pr project; pure (reservations r))
      else if str_eq d.key handover_stage_key
      then (do h ← build_handover pr project; pure (handed_over h))
      else pure no_integration
