-- ===== src/Per/Decode.antt =====
-- src/common/per.c: the readers of the GCC conference messages. A result is what the call
-- returns (the bytes consumed) with what it stores.
use rdpserver.Base.{ℕ, ◌+◌, ◌%◌, Bool, true, List, [], ◌∷◌}
use rdpserver.Base.{bit_and, leb, ◌==◌, ◌&&◌, if◌then◌else◌, length, Read, ok, err}
use rdpserver.Base.{guard, at, ◌>>=◌, ◌>>◌}
use rdpserver.Buf.{u16, u32}
use rdpserver.Per.Encode.{gcc_oid}

unfoldable pub read_length : List ℕ → Read (ℕ × ℕ)
read_length p = do
  guard (leb 1 (length p))
  b0 ← at p 0
  if bit_and b0 0x80 == 0
      then ok (1, b0)
      else if bit_and b0 0xc0 == 0x80
      then (do guard (leb 2 (length p)); b1 ← at p 1; ok (2, u16 b1 (bit_and b0 0x3f)))
      else err

unfoldable pub read_choice : List ℕ → Read (ℕ × ℕ)
read_choice p = do guard (leb 1 (length p)); v ← at p 0; ok (1, v)

-- `memcmp(p + i, GCC_OID, sizeof GCC_OID) == 0`, on the bytes that are left.
unfoldable pub same_bytes : List ℕ → ℕ → List ℕ → Read Bool
same_bytes p i [] = ok true
same_bytes p i (x ∷ xs) = do a ← at p i; rest ← same_bytes p (i + 1) xs; ok ((a == x) && rest)

unfoldable pub read_object_identifier_gcc : List ℕ → Read ℕ
unfolding read_length same_bytes
read_object_identifier_gcc p = do
  (r, vlen) ← read_length p
  guard (vlen == 6)
  guard (leb (r + vlen) (length p))
  same ← same_bytes p r gcc_oid
  guard same
  ok (r + 6)

unfoldable pub read_u16 : List ℕ → Read (ℕ × ℕ)
read_u16 p = do guard (leb 2 (length p)); a ← at p 0; b ← at p 1; ok (2, u16 b a)

unfoldable pub read_u32 : List ℕ → Read (ℕ × ℕ)
read_u32 p = do
  guard (leb 4 (length p))
  a ← at p 0
  b ← at p 1
  c ← at p 2
  d ← at p 3
  ok (4, u32 d c b a)

unfoldable pub read_user_data_count : List ℕ → Read (ℕ × ℕ)
read_user_data_count p = do guard (leb 1 (length p)); v ← at p 0; ok (1, (v + 1) % 256)

unfoldable pub read_h221_key : List ℕ → Read (ℕ × List ℕ)
read_h221_key p = do
  guard (leb 4 (length p))
  a ← at p 0
  b ← at p 1
  c ← at p 2
  d ← at p 3
  ok (4, a ∷ b ∷ c ∷ d ∷ [])
