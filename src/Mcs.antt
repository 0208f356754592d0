-- ===== src/Mcs.antt =====
-- src/wire/mcs.c: the MCS connection and its domain PDUs.
mod Tests
pub mod Connect
pub mod Initial
pub mod Domain
pub mod Response
mod Staged
mod Octets
mod Built
pub mod Safety
pub mod Envelope
pub mod SendData
