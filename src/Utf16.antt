-- ===== src/Utf16.antt =====
-- src/common/utf16.c: conversion between UTF-8 and UTF-16LE.
pub mod Scalar
mod Forms
pub mod Convert
mod Tests
use rdpserver.Base.{ℕ, zero, suc, ◌+◌, ◌-◌, ◌*◌, ◌/◌, ◌%◌, ◌^◌, Bool, true, false, not, ◌&&◌, ◌||◌}
use rdpserver.Base.{
  Option, none, some, List, [], ◌∷◌, leb, ltb, ◌==◌, if◌then◌else◌, length, drop, bit_and,
}
use rdpserver.Base.{Read, ok, err, fault, ◌>>=◌, ◌>>◌, guard, at, write_at}
use rdpserver.Buf.{octet, u16}

-- The bits of the first byte that belong to the code point, and the length of the sequence.
unfoldable pub lead : ℕ → Read (ℕ × ℕ)
lead b =
    if bit_and b 0x80 == 0
    then ok (b, 1)
    else if bit_and b 0xe0 == 0xc0
    then ok (bit_and b 0x1f, 2)
    else if bit_and b 0xf0 == 0xe0
    then ok (bit_and b 0x0f, 3)
    else if bit_and b 0xf8 == 0xf0
    then ok (bit_and b 0x07, 4)
    else err

-- `for (i = 1; i < need; i++)`, with `n` rounds to go.
unfoldable pub trail : List ℕ → ℕ → ℕ → ℕ → Read ℕ
trail p i zero cp = ok cp
trail p i (suc n) cp = do
  b ← at p i
  guard (bit_and b 0xc0 == 0x80)
  trail p (i + 1) n ((cp * 64 + bit_and b 0x3f) % 2 ^ 32)

unfoldable pub is_surrogate : ℕ → Bool
is_surrogate cp = leb 0xd800 cp && leb cp 0xdfff

-- The checks behind the loop.
unfoldable pub accept : ℕ → ℕ → Read (ℕ × ℕ)
unfolding is_surrogate
accept cp need =
    if is_surrogate cp
    then err
    else if need == 2 && ltb cp 0x80
    then err
    else if need == 3 && ltb cp 0x800
    then err
    else if need == 4 && ltb cp 0x10000
    then err
    else if ltb 0x10ffff cp
    then err
    else ok (cp, need)

-- The code point, and the bytes that it takes.
unfoldable pub utf8_decode : List ℕ → Read (ℕ × ℕ)
unfolding lead trail accept
utf8_decode p = do
  guard (not (length p == 0))
  b ← at p 0
  (cp, need) ← lead b
  guard (leb need (length p))
  cp' ← trail p 1 (need - 1) cp
  accept cp' need

-- The bytes stored in `out`, none where the function returns 0. Its caller passes four bytes, so
-- the tests of `out_max` never fail.
unfoldable pub utf8_encode : ℕ → List ℕ
unfolding is_surrogate
utf8_encode cp =
    if ltb cp 0x80
    then cp ∷ []
    else if ltb cp 0x800
    then (0xc0 + cp / 64) ∷ (0x80 + cp % 64) ∷ []
    else if ltb cp 0x10000
    then (if is_surrogate cp
        then []
        else (0xe0 + cp / 4096) ∷ (0x80 + cp / 64 % 64) ∷ (0x80 + cp % 64) ∷ [])
    else if leb cp 0x10ffff
    then (0xf0 + cp / 262144)
      ∷ (0x80 + cp / 4096 % 64)
      ∷ (0x80 + cp / 64 % 64)
      ∷ (0x80 + cp % 64)
      ∷ []
    else []

-- The bytes of one code point in UTF-16LE, as the encoder stores them.
unfoldable pub units : ℕ → List ℕ
units cp =
    if leb cp 0xffff
    then octet cp 0 ∷ octet cp 1 ∷ []
    else let v = cp - 0x10000 in
      let hi = 0xd800 + v / 1024 in
      let lo = 0xdc00 + v % 1024 in octet hi 0 ∷ octet hi 1 ∷ octet lo 0 ∷ octet lo 1 ∷ []

-- `if (w + n <= dsize) dst[w ..] = …`.
unfoldable pub store : ℕ → List ℕ → ℕ → List ℕ → List ℕ
store dsize dst w s = if leb (w + length s) dsize then write_at dst w s else dst

-- The loop, on the bytes from `i` on. A result is `w` with what `dst` then holds; `err` is
-- RDP_UTF_ERR. One round takes a byte at least; without fuel the loop is `fault`.
unfoldable pub to_utf16 : ℕ → ℕ → List ℕ → ℕ → List ℕ → Read (ℕ × List ℕ)
to_utf16 dsize fuel [] w dst = ok (w, dst)
to_utf16 dsize zero (x ∷ p) w dst = fault
to_utf16 dsize (suc fuel) (x ∷ p) w dst = do
  (cp, adv) ← utf8_decode (x ∷ p)
  to_utf16 dsize fuel (drop adv (x ∷ p)) (w + length (units cp)) (store dsize dst w (units cp))

unfoldable pub utf8_to_utf16le : List ℕ → ℕ → List ℕ → Read (ℕ × List ℕ)
unfolding to_utf16
utf8_to_utf16le dst dsize s = to_utf16 dsize (length s) s 0 dst

-- One or two units at the front: the code point, and the bytes that it takes.
unfoldable pub utf16_decode : List ℕ → Read (ℕ × ℕ)
utf16_decode p = do
  a ← at p 0
  b ← at p 1
  let u = u16 a b
  if leb 0xd800 u && leb u 0xdbff
      then (do
        guard (leb 4 (length p))
        c ← at p 2
        d ← at p 3
        let lo = u16 c d
        guard (not (ltb lo 0xdc00 || ltb 0xdfff lo))
        ok (0x10000 + (u - 0xd800) * 1024 + (lo - 0xdc00), 4))
      else if leb 0xdc00 u && leb u 0xdfff
      then err
      else ok (u, 2)

-- `while (i + 2 <= slen)`; a last odd byte would end the loop.
unfoldable pub to_utf8 : ℕ → ℕ → List ℕ → ℕ → List ℕ → Read (ℕ × List ℕ)
to_utf8 dsize fuel [] w dst = ok (w, dst)
to_utf8 dsize fuel (x ∷ []) w dst = ok (w, dst)
to_utf8 dsize zero (x ∷ y ∷ p) w dst = fault
to_utf8 dsize (suc fuel) (x ∷ y ∷ p) w dst = do
  (cp, adv) ← utf16_decode (x ∷ y ∷ p)
  guard (not (length (utf8_encode cp) == 0))
  to_utf8 dsize fuel (drop adv (x ∷ y ∷ p)) (w + length (utf8_encode cp))
      (store dsize dst w (utf8_encode cp))

unfoldable pub utf16le_to_utf8 : List ℕ → ℕ → List ℕ → Read (ℕ × List ℕ)
utf16le_to_utf8 dst dsize src =
    if not (length src % 2 == 0) then err else to_utf8 dsize (length src) src 0 dst
