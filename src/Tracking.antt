-- ===== src/Tracking.antt =====
-- app/print_tracking.py: live snapshots of the print that runs, from partial reports.
pub mod Reports
pub mod Broker
pub mod Feed
mod Tests
