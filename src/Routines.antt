-- ===== src/Routines.antt =====
-- pi-routines: routines that fire by themselves.
pub mod Texts
pub mod Runs
pub mod Firing
pub mod Queue
pub mod Examples
