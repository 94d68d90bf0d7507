-- ===== src/Lib.antt =====
-- Blyns ERP, a multi-tenant business suite: a FastAPI service over MongoDB, with a database for each
-- tenant. This library models the parts in which stock and money are kept, the stages of projects, the
-- shop floor, and the decision who may reach the server.
--
-- Parts, and the code that they model (paths from the repository's root):
--   Prelude              truth values, lists as collections, signed integers, the shared lemmas
--   Tenant.Docs          the documents of a tenant's database, and the database `Db` as a record of
--                        its collections (the dictionaries that backend/app/modules/*/service.py
--                        inserts)
--   Tenant.Actions       actions on the database that may raise (core/errors.py, core/audit.py): what
--                        was written before a raise stays written, as there are no transactions
--   Tenant.Ids, Tenant.ProjectDocs, Tenant.ShopDocs
--                        ids of requests, and the documents of projects and of production
--   Tenant.Rules, Tenant.Frame
--                        rules for proofs about actions
--   Inventory.Stock      claim_stock, release_stock, on_hand and ledger_sum of
--                        backend/app/modules/inventory/repository.py
--   Inventory.Movements  _post_movement, create_movement and create_transfer of
--                        backend/app/modules/inventory/service.py
--   Inventory.Catalog    products and warehouses: create, patch, delete (the same file)
--   Inventory.Reports    reconcile and the low-stock list
--   Finance.Posting      _post_entry, the only function that adds to the journal, _line and _account of
--                        backend/app/modules/finance/service.py
--   Finance.Accounts     the chart of accounts, and manual entries
--   Finance.Pricing      _priced_lines and _status_for
--   Finance.Issues       the stock that an invoice issues, through create_movement of the inventory
--   Finance.Invoices, Finance.Bills, Finance.Payments
--                        the documents and their postings
--   Finance.Requests     the requests of backend/app/modules/finance/router.py that change state, and a
--                        server that answers them one after the other
--   Finance.Books, Finance.Queries
--                        what keeps the journal's invariant, and what writes nothing
--   Finance.Reports, Finance.Aging
--                        the reports over the journal and over the open documents
--   Projects.Definitions, Projects.Approvers
--                        the scope of a configuration, the lookups of stages and rules, and who decides
--                        (backend/app/modules/projects/repository.py and engines.py)
--   Projects.Gates, Projects.Engine, Projects.Validation
--                        the gate evaluation and the decision engine of
--                        backend/app/modules/projects/engines.py
--   Projects.Stages, Projects.Evidence, Projects.Reports
--                        _enter_stage, run_task, supply_document, record_gate_result, waive_gate,
--                        _rollback_to, reports and the end of a hold, of
--                        backend/app/modules/projects/service.py
--   Projects.Decisions, Projects.Handover
--                        submit_stage, approve_stage, reject_stage, _finalize_stage and the integrations
--   Projects.Portfolio, Projects.Delegations
--                        create_project, patch_project, create_delegation and revoke_delegation
--   Projects.Status, Projects.Costs, Projects.Reservation
--                        change_status, create_job_cost and _reserve_stock of the same file
--   Production.Lifecycle, Production.Store
--                        the tables of backend/app/modules/production/permissions.py, and the lookups
--                        and writes of backend/app/modules/production/repository.py
--   Production.Planning, Production.Floor, Production.Material, Production.Stations, Production.Packing,
--   Production.Pipeline, Production.Queue
--                        the work orders of backend/app/modules/production/service.py, from the proposal
--                        to the dispatch
--   Production.Requests  the requests of backend/app/modules/production/router.py that change state, and
--                        a server that answers them one after the other
--   IpAccess.Matcher     backend/app/control_plane/ip_access/matcher.py
--   IpAccess.ClientIp    backend/app/core/client_ip.py
--   Auth                 the lockout and the refresh tokens of backend/app/auth/service.py; whether a
--                        password is right and the id of a fresh token are arguments
--   Tests                tests at concrete data, and the theorems at concrete requests
--
-- How the parts interact: an invoice that issues stock calls create_movement for each line and gives
-- back what it issued if a later step raises; invoices, bills, payments and manual entries post through
-- post_entry; the reports read the journal. A job cost of a project posts through post_entry, and the
-- reservation and the rework issue stock through create_movement. A work order books its material and
-- labour as job costs of its project, and drives the checklist of the project's release stage.
--
-- Modelling choices:
--   Money is a number of cents and a quantity a number of the smallest unit, so that `money` does
--   nothing to sums. The rounded products (quantity by price, amount by tax rate) are the fields of the
--   parameter Rounding, of which nothing is assumed. Quantities on hand and balances are signed.
--   The tolerance of the integrity check, 1e-9, is a number of the unit of quantities and a parameter.
--   An id that a request brings is a RawId: its text, and the ObjectId that it stands for, if any.
--   A fresh id is the next number. `faults` says of each coming `insert` of a document whether the
--   driver raises; other calls of the driver, the activity log's among them, do not raise.
--   Dates are numbers, in microseconds where a report counts days. Texts of messages, notes and
--   currencies of documents, timestamps of updates and details of the log are left out.
--   The requests come one at a time; the claims of stock are the atomic updates that the code makes.
--   How texts of addresses and networks are read (Python's `ipaddress`) and `str.upper` are the fields
--   of the parameter Texts, of which nothing is assumed. Membership in a network is modelled.
--   Of a document's id, `str(_id)` is a field of its own where the code compares texts. `lower` is
--   that of ASCII. A hold and a recovery are kept by the fields that the service reads, a threshold by
--   the fields that the engine looks for. The caps of 500 and 2000 documents on lists are written out
--   where they bound what a rollup sees.
--   Every recursion is on a list or a text, so there is no fuel.
--
-- Not modelled: of projects the deliverables, the administration of configurations, the board and the
-- timeline; CRM, settings, the login routes, the rate limit, companies and provisioning, CSV, the
-- dashboard, paged lists, analytics, and the web layer with its permissions.

pub mod Projects
pub mod Production
pub mod Prelude
pub mod Tenant
pub mod Inventory
pub mod Finance
pub mod IpAccess
pub mod Auth
mod Tests
