-- ===== src/Projects/Approvers.antt =====
-- Who holds an approver position (backend/app/modules/projects/engines.py).
pub mod Holders
use blyns_ops.Prelude.{
  ℕ, String, Bool, none, some, List, [], not, ◌&&◌, ◌||◌, ◌==◌, leb, str_eq, find_one, any_of, map,
  lower, mem,
}
use blyns_ops.Tenant.{Db, Principal, id_text}

-- `resolve_approvers`: the client roles in lower case, and the assigned users.
unfoldable pub resolve_approvers : String → Db → List String × List ℕ
resolve_approvers role s = elim (find_one (λ a. str_eq a.approver_role role) s.pm.approvers) [
  | none ↦ ([], [])
  | some a ↦ (map lower a.client_roles, a.assigned_user_ids)
]

-- `holds_position`
unfoldable pub holds_position : String → Principal → Db → Bool
unfolding resolve_approvers
holds_position role pr s =
    let (roles, users) = resolve_approvers role s in
    any_of (λ u. pr.user_id == u) users || mem (lower pr.role_name) roles

-- `has_active_delegation`
unfoldable pub has_active_delegation : String → Principal → Db → Bool
has_active_delegation role pr s =
    any_of
      (λ d.
        str_eq d.approver_role role
        && str_eq d.delegate_user_id (id_text pr.user_id).text
        && not d.revoked
        && leb d.starts_at pr.now
        && leb pr.now d.ends_at
        && not d.is_deleted)
      s.pm.delegations

-- `may_approve`
unfoldable pub may_approve : String → Principal → Db → Bool
may_approve role pr s = holds_position role pr s || has_active_delegation role pr s
