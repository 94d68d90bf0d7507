-- ===== src/Production/Lifecycle.antt =====
-- The life of a work order (backend/app/modules/production/permissions.py).
pub mod Reach
use blyns_ops.Prelude.{ℕ, String, Bool, List, [], ◌∷◌, ◌==◌, any_of}
use blyns_ops.Tenant.{
  WoStatus, queued, released, in_progress, qc_pending, qc_hold, rework, passed, packed, staged,
  dispatched,
}

-- Equality of statuses.
abbrev pub status_number : WoStatus → ℕ
status_number queued = 0
status_number released = 1
status_number in_progress = 2
status_number qc_pending = 3
status_number qc_hold = 4
status_number rework = 5
status_number passed = 6
status_number packed = 7
status_number staged = 8
status_number dispatched = 9

abbrev pub is_one_of : WoStatus → List WoStatus → Bool
is_one_of w ws = any_of (λ v. status_number w == status_number v) ws

-- `ALLOWED_TRANSITIONS`
abbrev pub allowed_transitions : WoStatus → List WoStatus
allowed_transitions queued = released ∷ []
allowed_transitions released = in_progress ∷ []
allowed_transitions in_progress = qc_pending ∷ []
allowed_transitions qc_pending = passed ∷ qc_hold ∷ []
allowed_transitions qc_hold = rework ∷ []
allowed_transitions rework = in_progress ∷ []
allowed_transitions passed = packed ∷ []
allowed_transitions packed = staged ∷ []
allowed_transitions staged = dispatched ∷ []
allowed_transitions dispatched = []

-- The sections of the release checklist, which are the phases of a work order.
pub data Section : Type 0 where
  production quality_control packing_protection delivery_planning : Section

-- `PHASE_CLEARED`
abbrev pub phase_cleared : Section → List WoStatus
phase_cleared production = qc_pending ∷ qc_hold ∷ passed ∷ packed ∷ staged ∷ dispatched ∷ []
phase_cleared quality_control = passed ∷ packed ∷ staged ∷ dispatched ∷ []
phase_cleared packing_protection = packed ∷ staged ∷ dispatched ∷ []
phase_cleared delivery_planning = staged ∷ dispatched ∷ []

-- `DRIVEN_SECTIONS`, and their keys
abbrev pub driven_sections : List Section
driven_sections = production ∷ quality_control ∷ packing_protection ∷ delivery_planning ∷ []

abbrev pub section_key : Section → String
section_key production = "production"
section_key quality_control = "quality_control"
section_key packing_protection = "packing_protection"
section_key delivery_planning = "delivery_planning"

-- `ACTIVE_AT_STATION` and `DONE_STATUSES`
abbrev pub active_at_station : List WoStatus
active_at_station = queued ∷ released ∷ in_progress ∷ rework ∷ []

abbrev pub done_statuses : List WoStatus
done_statuses = dispatched ∷ []
