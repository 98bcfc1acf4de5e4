-- ===== src/Tftp.antt =====
-- The package tftp: requests, error packets, and transfers over a lossy connection.
pub mod Request
pub mod Conn
pub mod Transfer
pub mod Serve
pub mod Handlers
