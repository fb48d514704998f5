-- ===== src/Cloud.antt =====
-- app/cloud: printing through Bambu's cloud.
pub mod PrintParams
pub mod Submit
pub mod Printer
mod Tests
