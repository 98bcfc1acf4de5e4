-- ===== src/Dhcp4.antt =====
-- The package dhcp4: DHCPv4 options and packets on the wire.
pub mod Opt
pub mod Options
pub mod MessageType
pub mod Packet
pub mod Conn
