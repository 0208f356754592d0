-- ===== src/Per/Fields.antt =====
-- src/common/per.c: the readers on arbitrary slices and on what the writers write.
use rdpserver.Base.{ℕ, ◌+◌, ◌*◌, ◌/◌, ◌%◌, ◌≤◌, ◌<◌, ◌≡◌, arith, true, false}
use rdpserver.Base.{List, [], ◌∷◌, ◌++◌, leb, ◌==◌, if◌then◌else◌, length, bit_and}
use rdpserver.Base.{leb→le, ok, Ensures, returns, refused}
use rdpserver.Base.{guard_then, at_then, if_then, Bool-cases, inl, inr, le→leb}
use rdpserver.Base.Bits.{and_0x80, and_0xc0, and_0x3f}
use rdpserver.Buf.{Buf, octet}
use rdpserver.Buf.Laws.{IsValid, Writes, put_u8-Writes, put_u16be-Writes, if-Writes}
use rdpserver.Buf.Outcomes.{output, output-Writes}
use rdpserver.Per.Encode.{write_length}
use rdpserver.Per.Decode.{read_length}

-- A length field takes one or two bytes of the slice.
pub read_length-Ensures :
    (p : List ℕ) → Ensures (λ t. (1 ≤ t.0) × (t.0 ≤ 2) × (t.0 ≤ length p)) (read_length p)
unfolding read_length
read_length-Ensures p = guard_then (leb 1 (length p)) λ g. at_then p 0 (ground arith) λ b0 e.
    if_then (bit_and b0 0x80 == 0) (λ c. returns (ground arith))
      λ c.
        if_then (bit_and b0 0xc0 == 0x80)
          (λ d.
            guard_then (leb 2 (length p))
              λ k. at_then p 1 (ground arith) λ b1 f. returns (ground arith))
          λ d. refused

-- The bytes of a length field.
abbrev pub length_octets : ℕ → List ℕ
length_octets n = if leb n 0x7f then n ∷ [] else octet (0x8000 + n) 1 ∷ octet (0x8000 + n) 0 ∷ []

pub write_length-Writes : (n : ℕ) → n ≤ 0x3fff → Writes (write_length n) (length_octets n)
unfolding write_length
write_length-Writes n h =
    rw (le→leb n 0x3fff h)
      (if-Writes (leb n 0x7f) (put_u8-Writes n) (put_u16be-Writes (0x8000 + n)))

one_octet : (n : ℕ) (rest : List ℕ) → n < 128 → read_length (n ∷ rest) ≡ ok (1, n)
unfolding read_length
one_octet n rest h = ground (arith, and_0x80 n)

two_octets :
    (a b : ℕ) (rest : List ℕ)
    → a < 64
    → b < 256
    → read_length ((128 + a) ∷ b ∷ rest) ≡ ok (2, a * 256 + b)
unfolding read_length
two_octets a b rest h k = ground (arith, and_0x80 (128 + a), and_0xc0 (128 + a), and_0x3f (128 + a))

read_octets :
    (n : ℕ) (rest : List ℕ)
    → n ≤ 0x3fff
    → read_length (length_octets n ++ rest) ≡ ok (length (length_octets n), n)
read_octets n rest h = ground (arith, one_octet n rest, two_octets (n / 256) (n % 256) rest)

refuses_large : (n : ℕ) (b : Buf) → leb n 0x3fff ≡ false → (write_length n b).0 ≡ false
unfolding write_length
refuses_large n b h = rw h (ground arith)

-- In a valid buffer, the bytes that the writer of a PER length put for a length up to 16383 are
-- read back by the reader, whatever follows them, with their number; a larger length is refused.
pub read_length-write_length_per :
    (n : ℕ) (b : Buf) (rest : List ℕ)
    → IsValid b
    → (write_length n b).0 ≡ true
    → read_length (output b (write_length n b).1 ++ rest)
      ≡ ok (length (output b (write_length n b).1), n)
read_length-write_length_per n b rest v e = elim (Bool-cases (leb n 0x3fff)) [
  | inl small ↦
      let same =
        output-Writes (length_octets n) (write_length n) b
          (write_length-Writes n (leb→le n 0x3fff small)) v e in
      rw same (read_octets n rest (leb→le n 0x3fff small))
  | inr large ↦ cc (refuses_large n b large)
]
