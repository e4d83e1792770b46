-- ===== src/Vpn.antt =====
-- The VPN endpoints of backend/vpn_endpoint_service.py.
pub mod Alerts
