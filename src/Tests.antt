-- ===== src/Tests.antt =====
-- Tests of the definitions on concrete data, and instances of the theorems.
mod Fixtures
mod Stock
mod Books
mod Access
mod Shop
mod Stages
