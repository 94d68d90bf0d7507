-- ===== src/Production/Pipeline/Exact.antt =====
-- The checklist that work orders drive (backend/app/modules/production/service.py,
-- `_recompute_pipeline`).
use blyns_ops.Prelude.{
  ◌≡◌, refl, sym, ◌∙◌, ap, arith, String, Bool, true, false, not, ◌&&◌, ◌||◌, Option, none, some,
  List, [], ◌∷◌, Bool-cases, inl, inr, mem, all_of, to_set, sorted, str_eq, if◌then◌else◌, find_one,
  find_one-update_one, same_set, ◌==◌, not_empty,
}
use blyns_ops.Prelude.Sets.{str_eq_self, mem-add, mem-discard, mem-to_set, mem-sorted, same_set-mem}
use blyns_ops.Tenant.{Db, Principal, Project, StageDef, WorkOrder, StageInstance, write_activity}
use blyns_ops.Projects.Definitions.{
  legacy_scope, stage_def_by_key, stage_instance, set_stage_fields,
}
use blyns_ops.Production.Lifecycle.{
  Section, production, quality_control, packing_protection, delivery_planning, section_key,
  driven_sections,
}
use blyns_ops.Production.Store.{live_work_orders}
use blyns_ops.Production.Pipeline.{
  cleared, sections_pct, drive, drive_all, sync_checklist, drive_instance, drive_stage,
  recompute_with, recompute_pipeline, upsert_rollup, factory_release_key,
}

-- What one turn of the loop makes of a name `x` of the set.
or_if : (a b : Bool) → a || b ≡ (if a then true else b)
or_if a b = ground arith

and_not_if : (a b : Bool) → not a && b ≡ (if a then false else b)
and_not_if a b = ground arith

module _ (release : List String) (wos : List WorkOrder) where
  mem-drive :
      (sec : Section) (done : List String) (x : String)
      → mem (section_key sec) release ≡ true
      → mem x (drive release wos sec done)
        ≡ (if str_eq x (section_key sec) then all_of (cleared sec) wos else mem x done)
  unfolding drive
  mem-drive sec done x listed = elim (Bool-cases (all_of (cleared sec) wos)) [
    | inl all ↦
        rw (listed, all)
          (mem-add x (section_key sec) done ∙ or_if (str_eq x (section_key sec)) (mem x done))
    | inr left ↦
        rw (listed, left)
          (mem-discard x (section_key sec) done
            ∙ and_not_if (str_eq x (section_key sec)) (mem x done))
  ]

  abbrev d1 : List String → List String
  d1 done = drive release wos production done

  abbrev d2 : List String → List String
  d2 done = drive release wos quality_control (d1 done)

  abbrev d3 : List String → List String
  d3 done = drive release wos packing_protection (d2 done)

  drive_same :
      (sec : Section) (done : List String)
      → mem (section_key sec) release ≡ true
      → mem (section_key sec) (drive release wos sec done) ≡ all_of (cleared sec) wos
  drive_same sec done listed =
      mem-drive sec done (section_key sec) listed ∙ rw (str_eq_self (section_key sec)) refl

  drive_other :
      (sec : Section) (done : List String) (x : String)
      → str_eq x (section_key sec) ≡ false
      → mem x (drive release wos sec done) ≡ mem x done
  drive_other sec done x other = elim (Bool-cases (mem (section_key sec) release)) [
    | inl listed ↦ mem-drive sec done x listed ∙ rw other refl
    | inr unlisted ↦ unfold drive in rw unlisted refl
  ]

  -- A driven section of the checklist is done if all work orders have cleared it, and open otherwise.
  drive_all_exact :
      (sec : Section) (done : List String)
      → mem (section_key sec) release ≡ true
      → mem (section_key sec) (drive_all release wos driven_sections done)
        ≡ all_of (cleared sec) wos
  unfolding drive_all
  drive_all_exact production done listed =
      drive_other delivery_planning (d3 done) "production" refl
      ∙ drive_other packing_protection (d2 done) "production" refl
      ∙ drive_other quality_control (d1 done) "production" refl
      ∙ drive_same production done listed
  drive_all_exact quality_control done listed =
      drive_other delivery_planning (d3 done) "quality_control" refl
      ∙ drive_other packing_protection (d2 done) "quality_control" refl
      ∙ drive_same quality_control (d1 done) listed
  drive_all_exact packing_protection done listed =
      drive_other delivery_planning (d3 done) "packing_protection" refl
      ∙ drive_same packing_protection (d2 done) listed
  drive_all_exact delivery_planning done listed = drive_same delivery_planning (d3 done) listed

abbrev pub done_in : String → Option StageInstance → Bool
done_in x none = false
done_in x (some i) = mem x i.checklist_done

-- Whether the instance that the project now has at the definition's order has the section done.
abbrev pub is_done : Project → StageDef → String → Db → Bool
is_done project sdef x s = done_in x (stage_instance project.id sdef.order s)

module _ (pr : Principal) (project : Project) (sdef : StageDef) (inst : StageInstance)
    (x : String) where
  sync-is_done :
      (done : List String) (s : Db)
      → find_one (λ i. inst.id == i.id) s.pm.stage_instances ≡ some inst
      → stage_instance project.id sdef.order s ≡ some inst
      → is_done project sdef x
          (sync_checklist pr project inst (to_set inst.checklist_done) done s).1
        ≡ mem x done
  unfolding sync_checklist set_stage_fields stage_instance write_activity
  sync-is_done done s own at = elim (Bool-cases (same_set done (to_set inst.checklist_done))) [
    | inl same ↦
        rw (same, at)
          (sym (
            same_set-mem done (to_set inst.checklist_done) x same
            ∙ mem-to_set x inst.checklist_done))
    | inr changed ↦ rw changed (
        ap (done_in x) (
          find_one-update_one (λ i. inst.id == i.id)
            (λ (i : StageInstance). i.project_id == project.id && i.stage_order == sdef.order)
            (λ i. record i { checklist_done = sorted done }) s.pm.stage_instances inst (λ i. refl)
            own at)
        ∙ mem-sorted x done)
  ]

  recompute-is_done :
      (w : WorkOrder) (ws : List WorkOrder) (s : Db)
      → find_one (λ i. inst.id == i.id) s.pm.stage_instances ≡ some inst
      → stage_instance project.id sdef.order s ≡ some inst
      → stage_def_by_key factory_release_key (legacy_scope "sequential") s ≡ some sdef
      → is_done project sdef x (recompute_with pr project (w ∷ ws) s).1
        ≡ mem x
            (drive_all sdef.release_checklist (w ∷ ws) driven_sections (to_set inst.checklist_done))
  unfolding recompute_with drive_stage drive_instance upsert_rollup stage_def_by_key stage_instance
  recompute-is_done w ws s own at def =
      rw (def, at)
        (sync-is_done
          (drive_all sdef.release_checklist (w ∷ ws) driven_sections (to_set inst.checklist_done))
          (upsert_rollup project.id (sections_pct (w ∷ ws)) s).1 own at)

-- If the project has a live work order, there is a definition with the key `factory_release`, and the
-- project has an instance at its order, whose id is no other's: after the rollup, a driven section of the
-- definition's checklist is done in that instance exactly if all live work orders have cleared it.
pub recompute_pipeline_exact :
    (pr : Principal) (project : Project) (sdef : StageDef) (inst : StageInstance) (sec : Section)
    (s : Db)
    → not_empty (live_work_orders project.id s) ≡ true
    → stage_def_by_key factory_release_key (legacy_scope "sequential") s ≡ some sdef
    → stage_instance project.id sdef.order s ≡ some inst
    → find_one (λ i. inst.id == i.id) s.pm.stage_instances ≡ some inst
    → mem (section_key sec) sdef.release_checklist ≡ true
    → is_done project sdef (section_key sec) (recompute_pipeline pr project s).1
      ≡ all_of (cleared sec) (live_work_orders project.id s)
unfolding recompute_pipeline
recompute_pipeline_exact pr project sdef inst sec s some_order def at own listed =
    go (live_work_orders project.id s) some_order
  where
    go :
        (wos : List WorkOrder)
        → not_empty wos ≡ true
        → is_done project sdef (section_key sec) (recompute_with pr project wos s).1
          ≡ all_of (cleared sec) wos
    go [] h = cc
    go (w ∷ ws) h =
        recompute-is_done pr project sdef inst (section_key sec) w ws s own at def
        ∙ drive_all_exact sdef.release_checklist (w ∷ ws) sec (to_set inst.checklist_done) listed
