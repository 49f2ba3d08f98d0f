-- ===== src/Types.antt =====
-- apps/web/src/types/index.ts: the shapes of the API, one module for each group of interfaces.
-- An optional property is an `Option`; a nullable one too, where the code never tells `null` from
-- a missing property.
pub mod Status
pub mod Json
pub mod Service
pub mod Incident
pub mod Monitor
pub mod People
pub mod User
pub mod Settings
