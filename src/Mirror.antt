-- ===== src/Mirror.antt =====
-- src/mirror: the state that the client of an upstream feed keeps.
pub mod Health
pub mod Tracker
