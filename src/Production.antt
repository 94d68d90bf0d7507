-- ===== src/Production.antt =====
-- The Production module (backend/app/modules/production): work orders, stations and the checklist that
-- they drive.
pub mod Lifecycle
pub mod Store
pub mod Stations
pub mod Packing
pub mod Pipeline
pub mod Material
pub mod Floor
pub mod Planning
pub mod Queue
pub mod Requests
