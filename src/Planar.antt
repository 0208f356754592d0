-- ===== src/Planar.antt =====
-- src/wire/bitmap_planar.c: the planar bitmap codec, three planes of which each row is the
-- difference to the row above, in runs. A pointer with what is left behind it is a list.
pub mod Encode
pub mod Decode
mod Runs
mod Chunks
mod Rows
mod Planes
mod Delta
mod RoundTrip
mod Safety
mod Tests
