-- ===== src/Client.antt =====
-- client/: the program on the monitoring equipment.
pub mod ServerMap
pub mod Sync
pub mod State
pub mod History
pub mod Servers
pub mod Reports
pub mod Energy
pub mod Loading
pub mod Sending
