-- ===== src/Utf16/Scalar.antt =====
-- One code point of src/common/utf16.c.
use rdpserver.Base.{ℕ, suc, ◌+◌, ◌*◌, ◌/◌, ◌%◌, ◌^◌, ◌<◌, ◌≤◌, ◌≡◌, arith, false}
use rdpserver.Base.{List, ◌∷◌, ◌++◌, length, le→leb}
use rdpserver.Base.{ok}
use rdpserver.Base.Bits.{
  and_0x80, and_0xc0, and_0xe0, and_0xf0, and_0xf8, and_0x07, and_0x0f, and_0x1f, and_0x3f,
}
use rdpserver.Utf16.{lead, trail, is_surrogate, utf8_decode, utf8_encode, units, utf16_decode}

-- A Unicode scalar value.
pub record IsScalar (cp : ℕ) : Type 0 where
  pub within : cp < 0x110000
  pub plain : is_surrogate cp ≡ false

one_byte : (a : ℕ) (rest : List ℕ) → a < 128 → utf8_decode (a ∷ rest) ≡ ok (a, 1)
unfolding utf8_decode
one_byte a rest h = ground (arith, and_0x80 a)

two_bytes :
    (a b : ℕ) (rest : List ℕ)
    → 2 ≤ a
    → a < 32
    → b < 64
    → utf8_decode ((0xc0 + a) ∷ (0x80 + b) ∷ rest) ≡ ok (a * 64 + b, 2)
unfolding utf8_decode
two_bytes a b rest h k l = ground (
  arith,
  and_0x80 (0xc0 + a),
  and_0xe0 (0xc0 + a),
  and_0x1f (0xc0 + a),
  and_0xc0 (0x80 + b),
  and_0x3f (0x80 + b),
)

lead_three : (a : ℕ) → a < 16 → lead (0xe0 + a) ≡ ok (a, 3)
unfolding lead
lead_three a h =
    ground
      (arith, and_0x80 (0xe0 + a), and_0xe0 (0xe0 + a), and_0xf0 (0xe0 + a), and_0x0f (0xe0 + a))

lead_four : (a : ℕ) → a < 8 → lead (0xf0 + a) ≡ ok (a, 4)
unfolding lead
lead_four a h = ground (
  arith,
  and_0x80 (0xf0 + a),
  and_0xe0 (0xf0 + a),
  and_0xf0 (0xf0 + a),
  and_0xf8 (0xf0 + a),
  and_0x07 (0xf0 + a),
)

trail_two :
    (x b c cp : ℕ) (rest : List ℕ)
    → b < 64
    → c < 64
    → cp < 2 ^ 16
    → trail (x ∷ (0x80 + b) ∷ (0x80 + c) ∷ rest) 1 2 cp ≡ ok ((cp * 64 + b) * 64 + c)
unfolding trail
trail_two x b c cp rest h k l =
    ground
      (arith, and_0xc0 (0x80 + b), and_0x3f (0x80 + b), and_0xc0 (0x80 + c), and_0x3f (0x80 + c))

trail_three :
    (x b c d cp : ℕ) (rest : List ℕ)
    → b < 64
    → c < 64
    → d < 64
    → cp < 2 ^ 12
    → trail (x ∷ (0x80 + b) ∷ (0x80 + c) ∷ (0x80 + d) ∷ rest) 1 3 cp
      ≡ ok (((cp * 64 + b) * 64 + c) * 64 + d)
unfolding trail
trail_three x b c d cp rest h k l m = ground (
  arith,
  and_0xc0 (0x80 + b),
  and_0x3f (0x80 + b),
  and_0xc0 (0x80 + c),
  and_0x3f (0x80 + c),
  and_0xc0 (0x80 + d),
  and_0x3f (0x80 + d),
)

three_bytes :
    (a b c : ℕ) (rest : List ℕ)
    → a < 16
    → b < 64
    → c < 64
    → 0x800 ≤ (a * 64 + b) * 64 + c
    → is_surrogate ((a * 64 + b) * 64 + c) ≡ false
    → utf8_decode ((0xe0 + a) ∷ (0x80 + b) ∷ (0x80 + c) ∷ rest) ≡ ok ((a * 64 + b) * 64 + c, 3)
unfolding utf8_decode
three_bytes a b c rest h k l m n =
    rw
      (
        lead_three a h,
        le→leb 3 (suc (suc (suc (length rest)))) (omega arith),
        trail_two (0xe0 + a) b c a rest k l (omega arith),
        n,
      )
      (ground arith)

four_bytes :
    (a b c d : ℕ) (rest : List ℕ)
    → a < 8
    → b < 64
    → c < 64
    → d < 64
    → 0x10000 ≤ ((a * 64 + b) * 64 + c) * 64 + d
    → ((a * 64 + b) * 64 + c) * 64 + d < 0x110000
    → utf8_decode ((0xf0 + a) ∷ (0x80 + b) ∷ (0x80 + c) ∷ (0x80 + d) ∷ rest)
      ≡ ok (((a * 64 + b) * 64 + c) * 64 + d, 4)
unfolding utf8_decode
four_bytes a b c d rest h k l m lo hi =
    rw
      (
        lead_four a h,
        le→leb 4 (suc (suc (suc (suc (length rest))))) (omega arith),
        trail_three (0xf0 + a) b c d a rest k l m (omega arith),
      )
      (ground arith)

-- Every scalar value is read back from its UTF-8 bytes, whatever follows them.
pub utf8_decode-encode :
    (cp : ℕ) (rest : List ℕ)
    → IsScalar cp
    → utf8_decode (utf8_encode cp ++ rest) ≡ ok (cp, length (utf8_encode cp))
unfolding utf8_encode
utf8_decode-encode cp rest s = ground (
  arith,
  s.plain,
  s.within,
  one_byte cp rest,
  two_bytes (cp / 64) (cp % 64) rest,
  three_bytes (cp / 4096) (cp / 64 % 64) (cp % 64) rest,
  four_bytes (cp / 262144) (cp / 4096 % 64) (cp / 64 % 64) (cp % 64) rest,
)

-- Every scalar value is read back from its UTF-16 units, whatever follows them.
pub utf16_decode-units :
    (cp : ℕ) (rest : List ℕ)
    → IsScalar cp
    → utf16_decode (units cp ++ rest) ≡ ok (cp, length (units cp))
unfolding utf16_decode units is_surrogate
utf16_decode-units cp rest s = ground (arith, s.plain, s.within)

pub length-encode : (cp : ℕ) → IsScalar cp → 1 ≤ length (utf8_encode cp)
unfolding utf8_encode
length-encode cp s = ground (arith, s.plain, s.within)

pub length-units : (cp : ℕ) → 2 ≤ length (units cp)
unfolding units
length-units cp = ground arith

pub even-units : (cp : ℕ) → length (units cp) % 2 ≡ 0
unfolding units
even-units cp = ground arith
