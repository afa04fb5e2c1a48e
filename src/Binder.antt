-- ===== src/Binder.antt =====
-- binder.cc: the process that knows which servers offer which procedures.
pub mod Server
pub mod Keyed
pub mod Database
pub mod Sets
pub mod Validity
pub mod Locating
pub mod RoundRobin
pub mod Directory
pub mod Line
pub mod Refinement
pub mod Promise
pub mod Process
pub mod Registering
pub mod Removing
pub mod History
pub mod Restart
pub mod Terminating
pub mod Farewell
pub mod Loop
pub mod Requests
pub mod Service
