-- ===== src/Fastpath.antt =====
-- src/wire/fastpath.c: the fast-path updates that the server sends, and the input that it gets.
pub mod Update
pub mod Bitmap
pub mod Pointer
pub mod Input
mod Framing
mod BitmapUpdate
mod Shown
mod Sent
mod Safety
mod Tests
