-- ===== src/Messages.antt =====
-- The messages between clients, servers and the binder: one module for each header, the steps that
-- the headers share, and the round trips.
pub mod Fields
pub mod Status
pub mod Locate
pub mod Register
pub mod Execute
pub mod LocateRoundTrip
pub mod RegisterRoundTrip
pub mod ExecuteRoundTrip
