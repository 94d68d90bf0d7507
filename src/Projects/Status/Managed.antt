-- ===== src/Projects/Status/Managed.antt =====
-- Changes of status (backend/app/modules/projects/service.py, `change_status`).
use blyns_ops.Prelude.{
  ◌≡◌, Bool, false, some, update_one, find_one, ◌==◌, ◌&&◌, ◌||◌, ◌++◌, ℕ, ◌≢◌, [], ◌∷◌, Option,
  none, is_some, true, if◌then◌else◌,
}
use blyns_ops.Tenant.{
  Db, Principal, Result, ok, err, domain_error, invalid_status_transition, Project, ProjectStatus,
  HoldSource, manual_hold,
}
use blyns_ops.Projects.Definitions.{find_project, is_archived}
use blyns_ops.Projects.Reports.{is_on_hold}
use blyns_ops.Projects.Status.{ProjectStatusChange, same_status, changed, is_completed}

-- The statuses that a project may come from, by the one that is asked for: anything but a cancelled
-- project may be active, what is active or archived may be held, anything may be archived, and nobody may
-- ask for `completed` or `cancelled`.
abbrev pub may_become : ProjectStatus → ProjectStatus → Bool
may_become ProjectStatus.active ProjectStatus.on_hold = true
may_become ProjectStatus.active ProjectStatus.completed = true
may_become ProjectStatus.active ProjectStatus.archived = true
may_become ProjectStatus.on_hold ProjectStatus.active = true
may_become ProjectStatus.on_hold ProjectStatus.archived = true
may_become ProjectStatus.archived ProjectStatus.active = true
may_become ProjectStatus.archived ProjectStatus.on_hold = true
may_become ProjectStatus.archived ProjectStatus.completed = true
may_become ProjectStatus.archived ProjectStatus.cancelled = true
may_become _ _ = false

-- A request to hold a project that is held, but not manually, takes the hold over.
abbrev pub takes_over : ProjectStatus → Project → Bool
takes_over ProjectStatus.on_hold p = elim p.status [
  | ProjectStatus.on_hold ↦ elim p.hold [ some manual_hold ↦ false | _ ↦ true ]
  | _ ↦ false
]
takes_over _ p = false

-- A change of the project `p` that is stored and returned: a held project is held manually, one that leaves
-- a hold has none; one that was completed, or is recalled from the archive, has no completion stamp; the
-- change ends the history; and nothing else of this or of another project changes.
pub record IsWritten (pr : Principal) (p : Project) (x : ProjectStatusChange) (s s' : Db)
    (now : Project) : Type 0 where
  pub status : now.status ≡ x.status
  pub held : x.status ≡ ProjectStatus.on_hold → now.hold ≡ some manual_hold
  pub resumed :
      x.status ≢ ProjectStatus.on_hold → p.status ≡ ProjectStatus.on_hold → now.hold ≡ none
  pub kept : x.status ≢ ProjectStatus.on_hold → p.status ≢ ProjectStatus.on_hold → now.hold ≡ p.hold
  pub reopened : p.status ≡ ProjectStatus.completed → now.completed_at ≡ none
  pub recalled : p.status ≡ ProjectStatus.archived → now.completed_at ≡ none
  pub stamp :
      p.status ≢ ProjectStatus.completed
      → p.status ≢ ProjectStatus.archived
      → now.completed_at ≡ p.completed_at
  pub rest : now ≡ record p {
    status = now.status;
    hold = now.hold;
    completed_at = now.completed_at;
    updated_by = some pr.user_id;
    status_history =
        p.status_history
        ++ (record {
          from_status = p.status;
          to_status = x.status;
          reason = x.reason;
          by = pr.user_id;
          at = pr.now;
        }
            ∷ []);
  }
  pub stored : find_project p.id s' ≡ some now
  pub others : (k : ℕ) → k ≢ p.id → find_project k s' ≡ find_project k s

abbrev pub Written : Principal → Project → ProjectStatusChange → Db → Result Project × Db → Type 0
Written pr p x s (ok now, s') = IsWritten pr p x s s' now
Written pr p x s (err e, s') = ⊥

abbrev pub Manages : Principal → Project → ProjectStatusChange → Db → Result Project × Db → Type 0
Manages pr p x s rs =
    if may_become x.status p.status || takes_over x.status p
    then Written pr p x s rs
    else if same_status x.status p.status
    then rs ≡ (ok p, s)
    else rs ≡ (err (domain_error invalid_status_transition 409), s)

-- The hold and the stamp of a changed project.
abbrev hold_of : ProjectStatus → ProjectStatus → Option HoldSource → Option HoldSource
hold_of target was hold =
    if is_on_hold target then some manual_hold else if is_on_hold was then none else hold

abbrev stamp_of : ProjectStatus → Option ℕ → Option ℕ
stamp_of was at = if is_completed was || is_archived was && is_some at then none else at

module _ (pr : Principal) (p : Project) (x : ProjectStatusChange) (s : Db)
    (own : find_one (λ y. p.id == y.id) s.pm.projects ≡ some p)
    (found : find_project p.id s ≡ some p) where
  after : Db
  after = record s {
    pm = record s.pm { projects = update_one (λ y. p.id == y.id) (changed pr p x) s.pm.projects };
  }
