-- ===== src/Mqtt.antt =====
-- app/mqtt_client.py: the commands, the reading of reports, and the client of one printer.
pub mod Commands
pub mod Report
pub mod Apply
pub mod AmsType
pub mod Ams
pub mod Client
mod Tests
