-- ===== src/Sim.antt =====
-- The simulator of sim/: its fault proxy and its schedules of faults.
pub mod Proxy
pub mod Schedule
pub mod Invariants
