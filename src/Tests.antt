-- ===== src/Tests.antt =====
-- The theorems at concrete inputs: a platform whose tables are lists in memory, that it is as the
-- theorems ask, and each theorem applied to it.
mod Memory
mod Sample
mod Cases
mod Requests
mod Codes
mod Companies
mod Callback
mod Accounts
mod Runs
mod Digits
mod Forms
mod Uploads
mod Settings
mod Gateways
mod Sessions
