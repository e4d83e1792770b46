-- ===== src/Clients.antt =====
-- Network clients: backend/client_merge.py and backend/client_roster.py.
pub mod Merge
pub mod Roster
