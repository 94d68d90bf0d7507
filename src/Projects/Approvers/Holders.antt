-- ===== src/Projects/Approvers/Holders.antt =====
-- Holding an approver position, as a relation (backend/app/modules/projects/engines.py).
use blyns_ops.Prelude.{
  ℕ, String, Bool, true, false, some, none, List, [], ◌∷◌, ◌≡◌, refl, sym, ◌&&◌, ◌||◌, ◌==◌, ◌≤◌,
  arith, str_eq, find_one, find_one-fits, any_of, map, lower, mem, Bool-cases, Option, inl, inr,
  subst,
}
use blyns_ops.Prelude.Sets.{str_eq→≡}
use blyns_ops.Prelude.Members.{In, first, later, any_of-In, find_one-In}
use blyns_ops.Tenant.{Db, Principal, Approver, Delegation, id_text}
use blyns_ops.Projects.Approvers.{
  resolve_approvers, holds_position, has_active_delegation, may_approve,
}

-- A user holds a position when assigned to it, through a role that it lists (whatever the case of the
-- letters), or by a written delegation that is not revoked or deleted and whose time it is.
pub data Holds (role : String) (pr : Principal) (s : Db) : Type 0 where
  assigned :
      (a : Approver)
      → In a s.pm.approvers
      → a.approver_role ≡ role
      → In pr.user_id a.assigned_user_ids
      → Holds role pr s
  by_role :
      (a : Approver) (client_role : String)
      → In a s.pm.approvers
      → a.approver_role ≡ role
      → In client_role a.client_roles
      → lower pr.role_name ≡ lower client_role
      → Holds role pr s
  delegated :
      (d : Delegation)
      → In d s.pm.delegations
      → d.approver_role ≡ role
      → d.delegate_user_id ≡ (id_text pr.user_id).text
      → d.revoked ≡ false
      → d.is_deleted ≡ false
      → d.starts_at ≤ pr.now
      → pr.now ≤ d.ends_at
      → Holds role pr s

mem-In :
    (f : String → String) (y : String) (xs : List String)
    → mem y (map f xs) ≡ true
    → (x : String) × In x xs × (y ≡ f x)
mem-In f y [] h = cc
mem-In f y (x ∷ xs) h = elim (Bool-cases (str_eq y (f x))) [
  | inl hit ↦ (x, first, str_eq→≡ y (f x) hit)
  | inr miss ↦ let found = mem-In f y xs (simp miss at h) in (found.0, later found.1, found.2)
]

same_number : (a b : ℕ) → a == b ≡ true → a ≡ b
same_number a b h = ground arith

module _ (role : String) (pr : Principal) (s : Db) where
  entry-Holds :
      (a : Approver)
      → find_one (λ a. str_eq a.approver_role role) s.pm.approvers ≡ some a
      → any_of (λ u. pr.user_id == u) a.assigned_user_ids
          || mem (lower pr.role_name) (map lower a.client_roles)
        ≡ true
      → Holds role pr s
  entry-Holds a e h =
      let listed = find_one-In (λ a. str_eq a.approver_role role) s.pm.approvers a e in
      let named =
        str_eq→≡ a.approver_role role
          (find_one-fits (λ a. str_eq a.approver_role role) s.pm.approvers a e) in
      elim (Bool-cases (any_of (λ u. pr.user_id == u) a.assigned_user_ids)) [
        | inl hit ↦
            let (u, inside, same) = any_of-In (λ u. pr.user_id == u) a.assigned_user_ids hit in
            assigned a listed named (
              subst (λ (n : ℕ). In n a.assigned_user_ids) (sym (same_number pr.user_id u same))
                inside)
        | inr miss ↦
            let (x, inside, same) =
              mem-In lower (lower pr.role_name) a.client_roles (simp miss at h) in
            by_role a x listed named inside same
      ]

  abbrev is_named : List String × List ℕ → Bool
  is_named (roles, users) = any_of (λ u. pr.user_id == u) users || mem (lower pr.role_name) roles

  holds_position-Holds : holds_position role pr s ≡ true → Holds role pr s
  unfolding holds_position resolve_approvers
  holds_position-Holds h = go (find_one (λ a. str_eq a.approver_role role) s.pm.approvers) refl h
    where
      go :
          (o : Option Approver)
          → find_one (λ a. str_eq a.approver_role role) s.pm.approvers ≡ o
          → is_named (elim o as (λ _. List String × List ℕ) [
            | none ↦ ([], [])
            | some a ↦ (map lower a.client_roles, a.assigned_user_ids)
          ])
            ≡ true
          → Holds role pr s
      go none e k = cc
      go (some a) e k = entry-Holds a e k

  all_six :
      (a b c d e f : Bool)
      → a && b && c && d && e && f ≡ true
      → (a ≡ true) × (b ≡ true) × (c ≡ true) × (d ≡ true) × (e ≡ true) × (f ≡ true)
  all_six true true true true true true h = (refl, refl, refl, refl, refl, refl)
  all_six _ _ _ _ _ _ h = cc

  delegation-Holds : has_active_delegation role pr s ≡ true → Holds role pr s
  unfolding has_active_delegation
  delegation-Holds h =
      let (d, inside, fits) = any_of-In _ s.pm.delegations h in
      let (a, b, c, e, f, g) = all_six _ _ _ _ _ _ fits in
      delegated d inside (str_eq→≡ _ _ a) (str_eq→≡ _ _ b) (ground arith) (ground arith)
        (ground arith) (ground arith)

  -- The code's test lets through nobody else.
  pub may_approve-Holds : may_approve role pr s ≡ true → Holds role pr s
  unfolding may_approve
  may_approve-Holds h = elim (Bool-cases (holds_position role pr s)) [
    | inl hit ↦ holds_position-Holds hit
    | inr miss ↦ delegation-Holds (simp miss at h)
  ]

  pub not_holder : (Holds role pr s → ⊥) → may_approve role pr s ≡ false
  not_holder k = elim (Bool-cases (may_approve role pr s)) [
    | inl h ↦ absurd (k (may_approve-Holds h))
    | inr h ↦ h
  ]
