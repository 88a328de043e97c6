-- ===== src/Guards.antt =====
-- The guards of libs/common/src/guards. A guard works on the request in hand and on the tables: it
-- answers or throws, and what it wrote into the request stays.
mod Checks
mod Access
pub mod Conditions
pub mod Permission
pub mod Provider
pub mod Reading
pub mod ApiKey
unfoldable pub use Checks.*
unfoldable pub use Access.*
