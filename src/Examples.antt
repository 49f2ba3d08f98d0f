-- ===== src/Examples.antt =====
-- The theorems at concrete inputs, and the data for them.
mod Serial
mod Codecs
mod Data
mod Incidents
mod Sessions
mod Screens
mod Views
mod Admin
mod Pages
