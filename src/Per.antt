-- ===== src/Per.antt =====
-- src/common/per.c: the PER fields of the GCC conference messages.
pub mod Encode
pub mod Decode
pub mod Fields
mod Tests
