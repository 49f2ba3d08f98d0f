-- ===== src/Utils.antt =====
-- apps/web/src/lib/utils.ts: labels, dates and the groupings of incidents.
pub mod Labels
pub mod Dates
pub mod DateKeys
pub mod RelativeTime
pub mod Grouping
