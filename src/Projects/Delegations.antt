-- ===== src/Projects/Delegations.antt =====
-- Delegations of an approver position (backend/app/modules/projects/service.py). The reason is left out.
use blyns_ops.Prelude.{
  ℕ, String, Bool, true, false, Option, not, ◌&&◌, ◌||◌, ◌==◌, leb, str_eq, or_else, find_one,
  insert_one, update_one, any_of,
}
use blyns_ops.Tenant.{
  Db, Principal, RawId, id_text, Exec, ok, pure, reads, or_raise, raise_if, modify, ◌>>=◌, ◌>>◌,
  asserted, domain_error, tenant_not_found, permission_denied, validation_error, oid, new_id,
  write_activity, Delegation,
}
use blyns_ops.Projects.Approvers.{holds_position}

pub record DelegationCreate : Type 0 where
  pub approver_role : String
  pub delegate_user_id : RawId
  pub starts_at : Option ℕ
  pub ends_at : ℕ

-- The position itself or that of the director: a deputy does not count.
unfoldable pub may_delegate : String → Principal → Db → Bool
may_delegate role pr s = holds_position role pr s || holds_position "project_director" pr s

abbrev new_delegation : DelegationCreate → ℕ → ℕ → Delegation
new_delegation x starts id = record {
  id = id;
  approver_role = x.approver_role;
  delegate_user_id = x.delegate_user_id.text;
  revoked = false;
  starts_at = starts;
  ends_at = x.ends_at;
  is_deleted = false;
}

unfoldable pub insert_delegation : Principal → DelegationCreate → ℕ → Exec Delegation
insert_delegation pr x starts = do
  id ← new_id
  modify (λ s. record s {
    pm = record s.pm { delegations = insert_one s.pm.delegations (new_delegation x starts id) };
  })
  write_activity pr "delegation.granted" "delegation" id
  pure (new_delegation x starts id)

-- `create_delegation`
unfoldable pub create_delegation : Principal → DelegationCreate → Exec Delegation
unfolding insert_delegation
create_delegation pr x = do
  _ ← reads (λ s.
      or_raise (find_one (λ a. str_eq a.approver_role x.approver_role) s.pm.approvers)
        (domain_error tenant_not_found 404))
  allowed ← reads (λ s. ok (may_delegate x.approver_role pr s))
  raise_if (not allowed) (domain_error permission_denied 403)
  raise_if (str_eq x.delegate_user_id.text (id_text pr.user_id).text)
      (domain_error validation_error 422)
  deputy ← reads (λ s. oid x.delegate_user_id)
  known ← reads (λ s. ok (any_of (λ u. deputy == u) s.pm.users))
  raise_if (not known) (domain_error tenant_not_found 404)
  raise_if (leb x.ends_at (or_else x.starts_at pr.now)) (domain_error validation_error 422)
  insert_delegation pr x (or_else x.starts_at pr.now)

-- `revoke_delegation`
unfoldable pub find_delegation : ℕ → Db → Option Delegation
find_delegation id s = find_one (λ d. id == d.id && not d.is_deleted) s.pm.delegations

unfoldable pub revoke_delegation : Principal → RawId → Exec Delegation
revoke_delegation pr raw = do
  id ← reads (λ s. oid raw)
  d ← reads (λ s. or_raise (find_delegation id s) (domain_error tenant_not_found 404))
  allowed ← reads (λ s. ok (may_delegate d.approver_role pr s))
  raise_if (not allowed) (domain_error permission_denied 403)
  modify (λ s. record s {
    pm = record s.pm {
      delegations =
          update_one (λ x. id == x.id) (λ x. record x { revoked = true }) s.pm.delegations;
    };
  })
  again ← reads (λ s. ok (find_delegation id s))
  updated ← asserted again
  write_activity pr "delegation.revoked" "delegation" id
  pure updated
