-- ===== src/Compute.antt =====
-- Maintenance jobs on compute instances: backend/compute_maintenance.py.
pub mod Jobs
pub mod Discovery
pub mod Threads
pub mod Sequences
