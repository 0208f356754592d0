-- ===== src/Mcs/Domain.antt =====
-- src/wire/mcs.c: the domain PDUs behind the connection. A builder that stores straight into its
-- buffer of `cap` bytes returns the bytes at the buffer's front, or `none` for -1.
use rdpserver.Base.{ℕ, ◌+◌, ◌-◌, ◌*◌, ◌/◌, ◌%◌, ◌^◌, List, [], ◌∷◌}
use rdpserver.Base.{bit_and, ltb, leb, ◌==◌, if◌then◌else◌, length, drop, take, Read, ok, err}
use rdpserver.Base.{guard, at, ◌>>=◌, ◌>>◌, Option, none, some}
use rdpserver.Buf.{octet, u16}

-- `(uint16_t)(user_id - 1001)`
unfoldable pub initiator : ℕ → ℕ
initiator user_id = (user_id + 2 ^ 16 - 1001) % 2 ^ 16

unfoldable pub build_attach_user_confirm : ℕ → ℕ → Option (List ℕ)
unfolding initiator
build_attach_user_confirm cap user_id =
    if ltb cap 5
    then none
    else some (0x2e ∷ 0 ∷ octet (initiator user_id) 1 ∷ octet (initiator user_id) 0 ∷ [])

unfoldable pub build_channel_join_confirm : ℕ → ℕ → ℕ → Option (List ℕ)
unfolding initiator
build_channel_join_confirm cap user_id channel_id =
    if ltb cap 8
    then none
    else some (
        0x3e
        ∷ 0
        ∷ octet (initiator user_id) 1
        ∷ octet (initiator user_id) 0
        ∷ octet channel_id 1
        ∷ octet channel_id 0
        ∷ octet channel_id 1
        ∷ octet channel_id 0
        ∷ [])

unfoldable pub build_disconnect : ℕ → ℕ → Option (List ℕ)
build_disconnect cap reason = if ltb cap 2 then none else some (0x20 ∷ (reason % 8 * 32) ∷ [])

unfoldable pub parse_erect_domain : List ℕ → Read ℕ
parse_erect_domain p = do guard (leb 1 (length p)); t ← at p 0; guard (t == 0x04); ok (length p)

unfoldable pub parse_attach_user_request : List ℕ → Read ℕ
parse_attach_user_request p = do guard (leb 1 (length p)); t ← at p 0; guard (t == 0x28); ok 1

-- The bytes consumed, the user and the channel.
unfoldable pub parse_channel_join_request : List ℕ → Read (ℕ × ℕ × ℕ)
parse_channel_join_request p = do
  guard (leb 5 (length p))
  t ← at p 0
  guard (t == 0x38)
  a ← at p 1
  b ← at p 2
  c ← at p 3
  d ← at p 4
  ok (5, (1001 + u16 b a) % 2 ^ 16, u16 d c)

unfoldable pub parse_disconnect : List ℕ → Read (ℕ × ℕ)
parse_disconnect p = do
  guard (leb 2 (length p))
  t ← at p 0
  guard (t == 0x20)
  r ← at p 1
  ok (2, r / 32 % 8)

unfoldable pub per_len_size : ℕ → ℕ
per_len_size v = if ltb v 128 then 1 else 2

-- The first six bytes of an indication, in front of the rest.
unfoldable pub data_head : ℕ → ℕ → List ℕ → List ℕ
unfolding initiator
data_head user_id channel_id rest =
    0x68
    ∷ octet (initiator user_id) 1
    ∷ octet (initiator user_id) 0
    ∷ octet channel_id 1
    ∷ octet channel_id 0
    ∷ 0x70
    ∷ rest

unfoldable pub build_send_data_indication : ℕ → ℕ → ℕ → List ℕ → Option (List ℕ)
unfolding per_len_size data_head
build_send_data_indication cap user_id channel_id payload =
    let n = length payload in
    if ltb cap (1 + 2 + 2 + 1 + per_len_size n + n)
    then none
    else if ltb n 128
    then some (data_head user_id channel_id (n ∷ payload))
    else if ltb n 0x4000
    then some (data_head user_id channel_id ((128 + n / 256) ∷ n % 256 ∷ payload))
    else none

-- The length determinant at `p[6]`: the length and the offset behind it.
unfoldable pub read_plen : List ℕ → Read (ℕ × ℕ)
read_plen p = do
  b ← at p 6
  if bit_and b 0x80 == 0
      then ok (b, 7)
      else if bit_and b 0xc0 == 0x80
      then (do guard (leb 8 (length p)); c ← at p 7; ok (u16 c (bit_and b 0x3f), 8))
      else err

-- The bytes consumed, the user, the channel and the payload.
unfoldable pub parse_send_data_request : List ℕ → Read (ℕ × ℕ × ℕ × List ℕ)
parse_send_data_request p = do
  guard (leb 7 (length p))
  t ← at p 0
  guard (t == 0x64)
  a ← at p 1
  b ← at p 2
  c ← at p 3
  d ← at p 4
  (plen, off) ← read_plen p
  guard (leb (off + plen) (length p))
  ok (off + plen, (1001 + u16 b a) % 2 ^ 16, u16 d c, take plen (drop off p))
