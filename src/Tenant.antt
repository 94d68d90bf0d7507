-- ===== src/Tenant.antt =====
-- One tenant's database, and the actions that the service functions are made of
-- (backend/app/modules/inventory/repository.py, backend/app/modules/finance/repository.py,
-- backend/app/core/errors.py, backend/app/core/audit.py).
mod Ids
mod ProjectDocs
mod ShopDocs
mod Docs
mod Actions
pub mod Rules
pub mod Frame
pub use Ids.*
pub use ProjectDocs.*
pub use ShopDocs.*
pub use Docs.*
unfoldable pub use Actions.*
