-- ===== src/Lib.antt =====
-- The GCA backend of the Glow protocol: the servers of a Green Certificate Agent (GCA), and the
-- client on the equipment that reports to them. Solar equipment reports its power for every
-- timeslot of five minutes to a server over UDP, and synchronizes with it over TCP; the GCA
-- authorizes equipment and servers, bans them, and orders equipment to move to another GCA; a
-- server keeps two weeks of reports for each piece of equipment, and archives a signed week at a
-- time.
--
-- Base: equality as an interface, results (a value, an error or a panic), association lists for
-- Go's maps, bytes and little-endian numbers, texts, and serialisations as lists of fields.
-- Glow models glow/: Timeslot (timeslot.go, timeslot_u.go), Signatures (signatures.go), Report
-- (report.go), Authorization (equipment_authorization.go), and SafeMu (safeMu.go), whose
-- goroutines are a relation of steps.
-- Server models server/: State is `GCAServer` (`GcaServer`) of server.go with its files; Reports
-- is report_listener_udp.go and report_persist.go; Equipment is equipment.go, the authorization
-- part of api_equipment_auth.go, and `CheckInvariants` of testing.go; Registration is
-- api_server_gca_auth.go and the loaders of keys in server.go; AuthorizedServer and Servers are
-- authorized_servers.go and api_authorized_servers.go; Migration and Orders are
-- api_equipment_migrate.go and the handler of api_equipment_auth.go; DeviceStats and Weeks are
-- api_device_stats.go and the archive in equipment.go; Impact is what watttime.go writes; Sync
-- is sync_listener_tcp.go; RecentReports is api_recent_reports.go, Logger is logger.go, GeoStats
-- is the loading of CSV files in api_geo_stats.go, and Start is `NewGCAServer` of server.go up
-- to its threads.
-- Client models client/: State and Loading are client.go, ServerMap is gcaserver.go, History is
-- history.go, and Sync, Servers, Reports, Energy and Sending are reports.go; Sending is the loop
-- of `threadedSendReports`, with the energy file that each of its rounds finds.
-- Admin models bin/gca-admin/main.go: each command is a function on the GCA's directory; the
-- files of a device that it makes are those from which the device starts.
-- Examples applies the theorems at small states.
--
-- A server's operations run under its mutex, so each is a function from state to state; a
-- handler also returns the response and the messages that it sends to other servers. A Go slice
-- or array of bytes is a list of numbers, an array of 4032 entries a function whose reads and
-- writes are checked against 4032, a float64 its bits, and an integer of w bits wraps around
-- where it is written so. The order in which Go iterates over a map is the order of the
-- association list.
-- An index out of range and a nil pointer are `panic`. A file is the list of its bytes, missing
-- or there, and writes fail as a whole while the disk is not writable.
--
-- Parameters: the functions of go-ethereum's crypto (`EthCrypto`), the keys that the generator
-- gives, the clock, the answers of WattTime, whether a server can be reached, the answers of a
-- server to the attempts of a device and to gca-admin, the shuffles of a device and the random
-- numbers of its start, the parser of numbers in CSV files, and what a user of gca-admin enters.
-- What is used of the crypto is in `IsKeyPair`: it parses a pair of keys, and it verifies what
-- it signed.
-- Fuel: the loops over files run on their length, and every round takes a byte at least; the
-- loop of the servers in an answer runs on the length of its bytes; the rounds that catch up
-- with the clock need one for each week that the server is behind; a key is sought in 500
-- attempts, as in the program.
--
-- Not modelled: sockets, the decoding of HTTP requests, the threads and `Close` of server.go and
-- client.go, the sleeps, api.go and api_equipment.go (routes, and a copy of two maps), the rest
-- of api_geo_stats.go, the other programs of bin/, and watttime-scripts/. Rows of the energy
-- file come from the CSV parser. Errors of reads other than a missing file or the end of a file
-- do not occur; a write of gca-admin or of a start that fails half-way leaves what was there.
pub mod Base
pub mod Glow
pub mod Server
pub mod Client
pub mod Admin
pub mod Examples
