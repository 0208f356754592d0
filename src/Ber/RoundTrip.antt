-- ===== src/Ber/RoundTrip.antt =====
-- Lengths and INTEGERs of src/common/ber.c: the decoders on what the encoders write.
use rdpserver.Base.{ℕ, ◌+◌, ◌*◌, ◌^◌, ◌<◌, ◌≤◌, ◌≡◌, sym, ap, ◌∙◌, arith}
use rdpserver.Base.{true, List, ◌∷◌, ◌++◌, length, drop}
use rdpserver.Base.{length-append}
use rdpserver.Base.{ok, drop-append}
use rdpserver.Base.Bits.{and_0x80}
use rdpserver.Buf.{Buf, octet}
use rdpserver.Buf.Laws.{IsValid}
use rdpserver.Buf.Outcomes.{output, output-Writes}
use rdpserver.Ber.Encode.{
  tag_octet, sizeof_length, integer_octets, tag_integer, write_integer, write_length,
}
use rdpserver.Ber.Output.{length_octets, length-length_octets, universal_octets, integer_content}
use rdpserver.Ber.Output.{write_length-Writes, write_integer-Writes, length-integer_content}
use rdpserver.Ber.Decode.{read_length, read_content, read_universal_tag, read_integer}

short_form : (n : ℕ) (rest : List ℕ) → n < 128 → read_length (n ∷ rest) ≡ ok (1, n)
unfolding read_length
short_form n rest h = ground (arith, and_0x80 n)

one_octet : (a : ℕ) (rest : List ℕ) → a < 256 → read_length (0x81 ∷ a ∷ rest) ≡ ok (2, a)
unfolding read_length
one_octet a rest h = ground arith

two_octets :
    (a b : ℕ) (rest : List ℕ)
    → a < 256
    → b < 256
    → read_length (0x82 ∷ a ∷ b ∷ rest) ≡ ok (3, a * 256 + b)
unfolding read_length
two_octets a b rest h k = ground arith

three_octets :
    (a b c : ℕ) (rest : List ℕ)
    → a < 256
    → b < 256
    → c < 256
    → read_length (0x83 ∷ a ∷ b ∷ c ∷ rest) ≡ ok (4, (a * 256 + b) * 256 + c)
unfolding read_length
three_octets a b c rest h k l = ground arith

four_octets :
    (a b c d : ℕ) (rest : List ℕ)
    → a < 256
    → b < 256
    → c < 256
    → d < 256
    → read_length (0x84 ∷ a ∷ b ∷ c ∷ d ∷ rest) ≡ ok (5, ((a * 256 + b) * 256 + c) * 256 + d)
unfolding read_length
four_octets a b c d rest h k l m = ground arith

-- The decoder of a length reads back the octets of every 32-bit length.
pub read_length-octets :
    (n : ℕ) (rest : List ℕ)
    → n < 2 ^ 32
    → read_length (length_octets n ++ rest) ≡ ok (sizeof_length n, n)
unfolding length_octets sizeof_length
read_length-octets n rest h = ground (
  arith,
  short_form (octet n 0) rest,
  one_octet (octet n 0) rest,
  two_octets (octet n 1) (octet n 0) rest,
  three_octets (octet n 2) (octet n 1) (octet n 0) rest,
  four_octets (octet n 3) (octet n 2) (octet n 1) (octet n 0) rest,
)

pub sizeof_length-le : (n : ℕ) → sizeof_length n ≤ 5
unfolding sizeof_length
sizeof_length-le n = ground arith

drop-octets : (n : ℕ) (s : List ℕ) → drop (sizeof_length n) (length_octets n ++ s) ≡ s
drop-octets n s =
    ap (λ k. drop k (length_octets n ++ s)) (sym (length-length_octets n))
    ∙ drop-append (length_octets n) s

read_content_lem :
    (x n : ℕ) (s : List ℕ)
    → n < 2 ^ 32
    → n ≤ length s
    → length s < 2 ^ 63
    → read_content (x ∷ length_octets n ++ s) 1 ≡ ok (1 + sizeof_length n, n)
unfolding read_content
read_content_lem x n s h k l =
    rw (read_length-octets n s h) (
      ground (arith, length-append (length_octets n) s, length-length_octets n, sizeof_length-le n))

read_universal_tag-octets :
    (pc tag n : ℕ) (s : List ℕ)
    → n < 2 ^ 32
    → n ≤ length s
    → length s < 2 ^ 63
    → read_universal_tag (universal_octets pc tag n ++ s) pc tag ≡ ok (1 + sizeof_length n, n)
unfolding read_universal_tag universal_octets
read_universal_tag-octets pc tag n s h k l =
    ground (arith, read_content_lem (tag_octet 0 pc tag) n s h k l)

module _ (rest : List ℕ) (l : length rest < 2 ^ 62) where
  integer_one : (a : ℕ) → a < 256 → read_integer (2 ∷ 1 ∷ a ∷ rest) ≡ ok (3, a)
  unfolding read_integer
  integer_one a h = ground arith

  integer_two :
      (a b : ℕ) → a < 256 → b < 256 → read_integer (2 ∷ 2 ∷ a ∷ b ∷ rest) ≡ ok (4, a * 256 + b)
  unfolding read_integer
  integer_two a b h k = ground arith

  integer_three :
      (a b c : ℕ)
      → a < 256
      → b < 256
      → c < 256
      → read_integer (2 ∷ 3 ∷ a ∷ b ∷ c ∷ rest) ≡ ok (5, (a * 256 + b) * 256 + c)
  unfolding read_integer
  integer_three a b c h k m = ground arith

  integer_four :
      (a b c d : ℕ)
      → a < 256
      → b < 256
      → c < 256
      → d < 256
      → read_integer (2 ∷ 4 ∷ a ∷ b ∷ c ∷ d ∷ rest) ≡ ok (6, ((a * 256 + b) * 256 + c) * 256 + d)
  unfolding read_integer
  integer_four a b c d h k m n = ground arith

  integer_five :
      (a b c d : ℕ)
      → a < 256
      → b < 256
      → c < 256
      → d < 256
      → read_integer (2 ∷ 5 ∷ 0 ∷ a ∷ b ∷ c ∷ d ∷ rest)
        ≡ ok (7, ((a * 256 + b) * 256 + c) * 256 + d)
  unfolding read_integer
  integer_five a b c d h k m n = ground arith

  read_integer-octets :
      (v : ℕ)
      → v < 2 ^ 32
      → read_integer (
          (universal_octets 0 tag_integer (length (integer_content v)) ++ integer_content v)
          ++ rest)
        ≡ ok (2 + length (integer_content v), v)
  unfolding integer_content integer_octets universal_octets length_octets
  read_integer-octets v h = ground (
    arith,
    integer_one (octet v 0),
    integer_two (octet v 1) (octet v 0),
    integer_three (octet v 2) (octet v 1) (octet v 0),
    integer_four (octet v 3) (octet v 2) (octet v 1) (octet v 0),
    integer_five (octet v 3) (octet v 2) (octet v 1) (octet v 0),
  )

length-header :
    (tag : ℕ) (c : List ℕ)
    → length c ≤ 127
    → length (universal_octets 0 tag (length c) ++ c) ≡ 2 + length c
unfolding universal_octets length_octets
length-header tag c h = ground arith

-- An INTEGER of 32 bits that was written to a valid buffer is read back from the bytes that the
-- call wrote, whatever follows them (fewer than 2 ^ 62 bytes), and exactly those bytes are
-- consumed.
read_integer-write_integer :
    (b : Buf) (v : ℕ) (rest : List ℕ)
    → IsValid b
    → v < 2 ^ 32
    → length rest < 2 ^ 62
    → (write_integer v b).0 ≡ true
    → read_integer (output b (write_integer v b).1 ++ rest)
      ≡ ok (length (output b (write_integer v b).1), v)
read_integer-write_integer b v rest valid h l w =
    rw (output-Writes _ (write_integer v) b (write_integer-Writes v) valid w)
      (read_integer-octets rest l v h ∙ ap (λ k. ok (k, v)) size)
  where
    size :
        2 + length (integer_content v)
        ≡ length (universal_octets 0 tag_integer (length (integer_content v)) ++ integer_content v)
    size =
        sym
          (length-header tag_integer (integer_content v) (omega (arith, length-integer_content v)))

-- A length below 2 ^ 32 that was written to a valid buffer is read back from the bytes that the
-- call wrote, whatever follows them; `sizeof_length` gives their number.
read_length-write_length :
    (b : Buf) (n : ℕ) (rest : List ℕ)
    → IsValid b
    → n < 2 ^ 32
    → (write_length n b).0 ≡ true
    → (read_length (output b (write_length n b).1 ++ rest) ≡ ok (sizeof_length n, n))
      × (length (output b (write_length n b).1) ≡ sizeof_length n)
read_length-write_length b n rest valid h w =
    rw (output-Writes _ (write_length n) b (write_length-Writes n h) valid w)
      (read_length-octets n rest h, length-length_octets n)
