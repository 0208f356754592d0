-- ===== src/Dvc.antt =====
-- src/channels/drdynvc.c: the dynamic virtual channels.
pub mod State
pub mod Create
pub mod Display
pub mod Handle
pub mod Reassembly
pub mod Safety
pub mod Build
pub mod Negotiate
mod Tests
