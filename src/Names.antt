-- ===== src/Names.antt =====
-- How the operator names what it creates. Each name is a function of the object it belongs to; the
-- functions come in variants for the object that a user writes, for the compiled object, and for
-- the copies that other compiled objects embed.
pub mod Defaults
pub mod Labels
pub mod Hosts
pub mod Certificates
pub mod Workloads
pub mod Configs
pub mod Distinct
