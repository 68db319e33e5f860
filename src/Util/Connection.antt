-- ===== src/Util/Connection.antt =====
-- util/connection.py
pub mod Ipv4
pub mod Ipv6
pub mod Port
pub mod Binary
mod Tests
