-- ===== src/Schemas.antt =====
-- The zod schemas of the request bodies: libs/common/src/request-response-type and the models that
-- they pick fields of.
pub mod Zod
pub mod Bodies
pub mod Fields
pub mod Environment
pub mod Forms
pub mod Accepted
