-- ===== src/IpAccess.antt =====
-- Who may reach the server: the client's address behind proxies, and the allow and deny rules
-- (backend/app/core/client_ip.py, backend/app/control_plane/ip_access/matcher.py).
pub mod Addresses
pub mod Matcher
pub mod ClientIp
