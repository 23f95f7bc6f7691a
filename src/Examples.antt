-- ===== src/Examples.antt =====
-- Runs of the program on small data: each theorem of the library at a concrete input.
pub mod Queue
pub mod Access
pub mod Plans
pub mod Reports
pub mod Drift
