-- ===== src/Ber.antt =====
-- src/common/ber.c: the BER subset of the MCS connect PDUs.
pub mod Encode
pub mod Decode
pub mod Output
pub mod Safety
pub mod RoundTrip
pub mod AppTag
mod Tests
