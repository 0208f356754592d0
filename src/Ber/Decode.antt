-- ===== src/Ber/Decode.antt =====
-- The decoders of src/common/ber.c. A slice `p` with `left` bytes is a list; a result is what the
-- call returns (the bytes consumed) with what it stores through its pointers.
use rdpserver.Base.{ℕ, zero, suc, ◌+◌, ◌*◌, ◌%◌, ◌^◌, Bool, not, ◌||◌, List, [], ◌∷◌}
use rdpserver.Base.{bit_or, bit_and, ltb, leb, ◌==◌, if◌then◌else◌, length, drop, take}
use rdpserver.Base.{Read, ok, ◌>>=◌, ◌>>◌, guard, at, sub_size}
use rdpserver.Ber.Encode.{class_application, tag_integer, tag_boolean, tag_enumerated}
use rdpserver.Ber.Encode.{tag_octet_string, tag_octet}

-- `v = (v << 8) | p[i]` for `n` indices from `i` on, in an unsigned type of `m` values.
unfoldable pub fold_be : ℕ → List ℕ → ℕ → ℕ → ℕ → Read ℕ
fold_be m p i zero v = ok v
fold_be m p i (suc n) v = do b ← at p i; fold_be m p (i + 1) n ((v * 256 + b) % m)

unfoldable pub long_length : List ℕ → ℕ → Read (ℕ × ℕ)
unfolding fold_be
long_length p n = do
  guard (not (n == 0 || ltb 4 n || ltb (length p) (1 + n)))
  v ← fold_be (2 ^ 64) p 1 n 0
  ok (1 + n, v)

unfoldable pub read_length : List ℕ → Read (ℕ × ℕ)
unfolding long_length
read_length p = do
  guard (leb 1 (length p))
  b0 ← at p 0
  if bit_and b0 0x80 == 0 then ok (1, b0) else long_length p (bit_and b0 0x7f)

-- What follows a tag that ends at `off`: the length, checked against the bytes that are left.
unfoldable pub read_content : List ℕ → ℕ → Read (ℕ × ℕ)
unfolding read_length
read_content p off = do
  (r, vlen) ← read_length (drop off p)
  guard (leb vlen (sub_size (sub_size (length p) off) r))
  ok (off + r, vlen)

unfoldable pub read_universal_tag : List ℕ → ℕ → ℕ → Read (ℕ × ℕ)
unfolding read_content
read_universal_tag p pc tag = do
  guard (leb 1 (length p))
  b ← at p 0
  guard (b == tag_octet 0 pc tag)
  read_content p 1

-- `while (off < left) { c = p[off++]; got = (got << 7) | (c & 0x7f); if (!(c & 0x80)) break; }`
-- on the bytes from `off` on.
unfoldable pub tag_loop : List ℕ → ℕ → ℕ → ℕ × ℕ
tag_loop [] off got = (off, got)
tag_loop (c ∷ rest) off got =
    let got' = (got * 128 + bit_and c 0x7f) % 2 ^ 32 in
    let more = tag_loop rest (off + 1) got' in if bit_and c 0x80 == 0 then (off + 1, got') else more

unfoldable pub read_app_tag : List ℕ → ℕ → ℕ → Read (ℕ × ℕ)
unfolding read_content tag_loop
read_app_tag p pc tag =
    if ltb tag 31
    then (do
      guard (leb 1 (length p))
      b ← at p 0
      guard (b == tag_octet class_application pc tag)
      read_content p 1)
    else (do
      guard (leb 1 (length p))
      b ← at p 0
      guard (b == bit_or (bit_or class_application pc) 0x1f)
      let found = tag_loop (drop 1 p) 1 0
      guard (not (ltb (length p) found.0 || not (found.1 == tag)))
      read_content p found.0)

unfoldable pub read_integer : List ℕ → Read (ℕ × ℕ)
unfolding read_universal_tag fold_be
read_integer p = do
  (r, vlen) ← read_universal_tag p 0 tag_integer
  guard (not (vlen == 0 || ltb 5 vlen))
  if vlen == 5
      then (do top ← at p r; guard (top == 0); v ← fold_be (2 ^ 32) p (r + 1) 4 0; ok (r + vlen, v))
      else (do v ← fold_be (2 ^ 32) p r vlen 0; ok (r + vlen, v))

unfoldable pub read_enumerated : List ℕ → Read (ℕ × ℕ)
unfolding read_universal_tag
read_enumerated p = do
  (r, vlen) ← read_universal_tag p 0 tag_enumerated
  guard (vlen == 1)
  v ← at p r
  ok (r + 1, v)

unfoldable pub read_boolean : List ℕ → Read (ℕ × Bool)
unfolding read_universal_tag
read_boolean p = do
  (r, vlen) ← read_universal_tag p 0 tag_boolean
  guard (vlen == 1)
  v ← at p r
  ok (r + 1, not (v == 0))

-- The second part is the slice `*data_out` of `*len_out` bytes.
unfoldable pub read_octet_string : List ℕ → Read (ℕ × List ℕ)
unfolding read_universal_tag
read_octet_string p = do
  (r, vlen) ← read_universal_tag p 0 tag_octet_string
  ok (r + vlen, take vlen (drop r p))
