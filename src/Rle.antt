-- ===== src/Rle.antt =====
-- src/wire/bitmap_rle.c: the interleaved run-length codec of 24-bit bitmaps. A pixel is the number
-- that its three bytes make.
pub mod Write
pub mod Encode
pub mod Decode
mod Shows
mod Orders
mod Bits
mod Headers
mod Runs
mod Invariant
mod Counts
mod Ends
mod Rounds
mod Flush
mod Lines
pub mod Rows
pub mod RoundTrip
mod Sources
mod Safety
mod Tests
