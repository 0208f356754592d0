-- ===== src/Mcs/Initial.antt =====
-- src/wire/mcs.c: the envelope that `rdp_mcs_parse_connect_initial` reads in front of the client
-- data blocks.
use rdpserver.Base.{ℕ, ◌+◌, not, List}
use rdpserver.Base.{ltb, leb, if◌then◌else◌, length, drop}
use rdpserver.Base.{Read, ok, fault, ◌>>=◌, ◌>>◌, guard}
use rdpserver.Ber.Decode.{read_app_tag, read_universal_tag, read_octet_string, read_boolean}
use rdpserver.Per.Decode.{read_length}
use rdpserver.Mcs.Connect.{ConnectInitial, cleared, blocks, find_duca}

-- `p + off, len - off`: outside the slice this is a `fault`.
unfoldable pub slice : List ℕ → ℕ → Read (List ℕ)
slice p off = if leb off (length p) then ok (drop off p) else fault

-- One of the three DomainParameters, skipped: the offset behind it.
unfoldable pub skip_params : List ℕ → ℕ → Read ℕ
unfolding slice
skip_params p off = do
  s ← slice p off
  (r, vlen) ← read_universal_tag s 0x20 0x10
  ok (off + r + vlen)

-- The domain selectors, the Boolean and the domain parameters: the offset behind them.
unfoldable pub skip_domain : List ℕ → ℕ → Read ℕ
unfolding slice skip_params
skip_domain p off0 = do
  s0 ← slice p off0
  (r0, calling) ← read_octet_string s0
  s1 ← slice p (off0 + r0)
  (r1, called) ← read_octet_string s1
  s2 ← slice p (off0 + r0 + r1)
  (r2, upward) ← read_boolean s2
  off1 ← skip_params p (off0 + r0 + r1 + r2)
  off2 ← skip_params p off1
  skip_params p off2

-- The user data, from its GCC envelope on.
unfoldable pub read_user_data : List ℕ → Read ConnectInitial
unfolding slice
read_user_data u = do
  guard (not (ltb (length u) 21))
  ud ← find_duca (length u) u 7
  s ← slice u ud
  (lr, blob_len) ← read_length s
  blocks (length u) u (ud + lr) cleared

unfoldable pub parse_connect_initial : List ℕ → Read (ℕ × ConnectInitial)
unfolding slice skip_domain read_user_data
parse_connect_initial p = do
  (r, vlen) ← read_app_tag p 0x20 101
  off ← skip_domain p r
  s ← slice p off
  (r', user_data) ← read_octet_string s
  out ← read_user_data user_data
  ok (length p, out)
