-- ===== src/Admin.antt =====
-- apps/web/src/pages/admin/: the pages of the administration. A handler that awaits a request is two
-- functions: what it does and sends before, and what it does with the reply.
pub mod Requests
pub mod Dialog
pub mod Selection
pub mod Components
pub mod SubComponents
pub mod Maintenance
pub mod Incidents
pub mod Monitors
pub mod Subscribers
pub mod Members
pub mod Activate
pub mod Layout
pub mod Settings
