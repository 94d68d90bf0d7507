-- ===== src/Finance.antt =====
-- The finance module (backend/app/modules/finance): the double-entry core, the chart of accounts,
-- invoices and bills, payments, and the reports.
pub mod Posting
pub mod Accounts
pub mod Pricing
pub mod Issues
pub mod Invoices
pub mod Bills
pub mod Payments
pub mod Books
pub mod Queries
pub mod Requests
pub mod Reports
pub mod Aging
