-- ===== src/Production/Lifecycle/Reach.antt =====
-- Which statuses of a work order lead to which (backend/app/modules/production/permissions.py).
use blyns_ops.Prelude.{◌≡◌, true}
use blyns_ops.Tenant.{WoStatus}
use blyns_ops.Production.Lifecycle.{allowed_transitions, is_one_of}

-- One move of `ALLOWED_TRANSITIONS`, and any number of them.
infix 40 ◌⟶◌
abbrev pub ◌⟶◌ : WoStatus → WoStatus → Type 0
a ⟶ b = is_one_of b (allowed_transitions a) ≡ true
