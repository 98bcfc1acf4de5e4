-- ===== src/Server.antt =====
-- The package server: the DHCP and PXE services and the log of machines' events.
pub mod Strings
pub mod Run
pub mod Mac
pub mod Tftp
pub mod ServeTftp
pub mod Dhcp
pub mod Pxe
pub mod Interface
pub mod Events
pub mod Booter
pub mod Serve
pub mod ServePxe
pub mod Http
pub mod ServeV6
