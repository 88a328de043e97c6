-- ===== src/System.antt =====
-- The services together, on the tables that they share.
pub mod Consistent
pub mod Rows
pub mod Tables
pub mod Reads
pub mod Roles
pub mod Refines
pub mod Ledger
pub mod Runs
pub mod Others
pub mod Accounts
pub mod Sessions
pub mod Entries
