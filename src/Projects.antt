-- ===== src/Projects.antt =====
-- The Projects module (backend/app/modules/projects): the stage machine and what it shares with Production.
pub mod Definitions
pub mod Approvers
pub mod Costs
pub mod Gates
pub mod Engine
pub mod Validation
pub mod Reports
pub mod Status
pub mod Reservation
pub mod Stages
pub mod Evidence
pub mod Handover
pub mod Decisions
pub mod Portfolio
pub mod Delegations
