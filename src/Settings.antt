-- ===== src/Settings.antt =====
-- The pages under web/src/pages/settings whose logic is modelled, a child module for each.
pub mod Thresholds
mod Tests
