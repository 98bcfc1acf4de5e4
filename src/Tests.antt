-- ===== src/Tests.antt =====
-- Runs of the theorems on concrete inputs, one file for each package.
mod Api
mod Dhcp4
mod Dhcp6
mod Tftp
mod Serve
mod Server
mod Http
mod Booters
mod Utils
mod ServeV6
mod Run
mod ServeTftp
