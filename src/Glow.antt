-- ===== src/Glow.antt =====
-- glow/: the types, serialisations and signatures that the servers and the clients share.
pub mod Timeslot
pub mod Signatures
pub mod Report
pub mod Authorization
pub mod SafeMu
