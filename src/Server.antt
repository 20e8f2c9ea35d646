-- ===== src/Server.antt =====
-- server/: the GCA server's state and the operations on it.
pub mod Recent
pub mod AuthorizedServer
pub mod Migration
pub mod DeviceStats
pub mod State
pub mod Reports
pub mod Equipment
pub mod Http
pub mod Registration
pub mod Servers
pub mod Orders
pub mod Impact
pub mod Weeks
pub mod Sync
pub mod GeoStats
pub mod Logger
pub mod Start
pub mod RecentReports
