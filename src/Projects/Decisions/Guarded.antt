-- ===== src/Projects/Decisions/Guarded.antt =====
-- Who may decide on a stage (backend/app/modules/projects/service.py, `approve_stage` and `reject_stage`).
use blyns_ops.Prelude.{
  ℕ, String, true, false, Option, or_else, ◌≡◌, refl, sym, ◌∙◌, subst, ◌⊎◌, inl, inr, Bool-cases,
}
use blyns_ops.Tenant.{
  Db, Principal, RawId, Exec, ok, err, ◌>>=◌, domain_error, permission_denied, Project, StageDef,
}
use blyns_ops.Tenant.Frame.{IsRefused, bind_ok, raised-IsRefused}
use blyns_ops.Finance.Pricing.{Rounding}
use blyns_ops.Projects.Definitions.{require_project, definition}
use blyns_ops.Projects.Approvers.{may_approve}
use blyns_ops.Projects.Approvers.Holders.{Holds, may_approve-Holds}
use blyns_ops.Projects.Decisions.{assert_may_approve, approve, approve_stage, reject, reject_stage}

not_approver :
    (pr : Principal) (d : StageDef) (s : Db)
    → may_approve (or_else d.approver_role "") pr s ≡ false
    → assert_may_approve pr d s ≡ (err (domain_error permission_denied 403), s)
unfolding assert_may_approve
not_approver pr d s h = rw h refl

-- Nothing that follows the check is done.
guarded-IsRefused :
    {B : Type 0} (pr : Principal) (raw : RawId) (order : ℕ) (p : Project) (d : StageDef) (s : Db)
    (rest : Project → StageDef → Exec B)
    → require_project true raw s ≡ (ok p, s)
    → definition p order s ≡ (ok d, s)
    → may_approve (or_else d.approver_role "") pr s ≡ false
    → IsRefused s (
        (require_project true raw >>= λ q.
        definition q order >>= λ e. assert_may_approve pr e >>= λ _. rest q e)
          s)
guarded-IsRefused pr raw order p d s rest found at h =
    subst (IsRefused s)
      (sym (
        bind_ok (require_project true raw)
          (λ q. definition q order >>= λ e. assert_may_approve pr e >>= λ _. rest q e) s s p found
        ∙ bind_ok (definition p order) (λ e. assert_may_approve pr e >>= λ _. rest p e) s s d at))
      (raised-IsRefused (assert_may_approve pr d) (λ _. rest p d) s
        (domain_error permission_denied 403) (not_approver pr d s h))

-- If a request to approve or to reject a stage finds the project and the definition of the stage: its
-- user holds the position that the definition names, by assignment, by role or by a delegation that is in
-- force and not revoked; or both requests are refused and change nothing. A stage that advances by itself
-- when it is submitted is no matter of these requests.
pub decided-IsRefused :
    (rounding : Rounding) (one : ℕ) (pr : Principal) (raw : RawId) (order : ℕ) (p : Project)
    (d : StageDef) (s : Db) (comment report_type : Option String) (reason : String)
    (owner : Option ℕ)
    → require_project true raw s ≡ (ok p, s)
    → definition p order s ≡ (ok d, s)
    → Holds (or_else d.approver_role "") pr s
      ⊎ (IsRefused s (approve_stage rounding one pr raw order comment s)
          × IsRefused s (reject_stage pr raw order reason report_type owner s))
unfolding approve_stage reject_stage
decided-IsRefused rounding one pr raw order p d s comment report_type reason owner found at =
    elim (Bool-cases (may_approve (or_else d.approver_role "") pr s)) [
      | inl h ↦ inl (may_approve-Holds (or_else d.approver_role "") pr s h)
      | inr h ↦ inr (
        guarded-IsRefused pr raw order p d s (approve rounding one pr order comment) found at h,
        guarded-IsRefused pr raw order p d s (reject pr order reason report_type owner) found at h,
      )
    ]
