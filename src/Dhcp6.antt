-- ===== src/Dhcp6.antt =====
-- The package dhcp6: DHCPv6 options and packets, and which packets the server answers.
pub mod Slice
pub mod Options
pub mod Packet
pub mod Pool
pub mod Builder
pub mod Conn
pub mod Readable
pub mod BootConfig
