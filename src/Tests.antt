-- ===== src/Tests.antt =====
-- Runs of the model on concrete inputs, and the theorems at such inputs.
mod Poller
mod Clients
mod Auth
mod Roster
mod Updates
mod Authorization
mod Push
mod Compute
mod Scheduler
mod Dashboards
mod Vpn
