-- ===== src/Tpkt.antt =====
-- src/wire/tpkt.c: TPKT framing.
pub mod Header
pub mod Frames
mod Tests
use rdpserver.Base.{ℕ, ◌+◌, ◌-◌, ◌*◌, ◌/◌, ◌%◌, ◌^◌, Bool, true, false, Option, none, some}
use rdpserver.Base.{List, [], ◌∷◌, ◌++◌, not, ◌==◌, ltb, if◌then◌else◌, length, get_or}
use rdpserver.Buf.{octet}
use rdpserver.Io.{Event, FullRead, returned, failed, waiting, read_full}

abbrev pub hdr_len : ℕ
hdr_len = 4

abbrev pub version : ℕ
version = 3

abbrev pub min_len : ℕ
min_len = 7

-- `hdr[i]` of the four header bytes; `none` is -1, and the value is `out->length`.
unfoldable pub parse_hdr : List ℕ → Option ℕ
parse_hdr hdr =
    let n = (get_or hdr 2 0 * 256 + get_or hdr 3 0) % 2 ^ 16 in
    if not (get_or hdr 0 0 == version)
    then none
    else if not (get_or hdr 1 0 == 0)
    then none
    else if ltb n min_len
    then none
    else some n

unfoldable pub encode_hdr : ℕ → Option (List ℕ)
encode_hdr n = if ltb n min_len then none else some (version ∷ 0 ∷ octet n 1 ∷ octet n 0 ∷ [])

-- The values of errno; `io` is what the failing read(2) set.
pub data Errno : Type 0 where
  einval eproto emsgsize io : Errno

-- What `rdp_tpkt_read` returns, with what the descriptor still holds: 0, the bytes of the frame in
-- `buf` (the result is their number), or -1. `blocked`: it has not returned.
pub data Outcome : Type 0 where
  closed : List Event → Outcome
  frame : List ℕ → List Event → Outcome
  failure : Errno → List Event → Outcome
  blocked : Outcome

-- `r < (ssize_t)body` on the second read.
unfoldable pub body_result : List ℕ → ℕ → FullRead → Outcome
body_result hdr body (returned d es) =
    if ltb (length d) body then failure eproto es else frame (hdr ++ d) es
body_result hdr body (failed es) = failure io es
body_result hdr body waiting = blocked

unfoldable pub read_body : List ℕ → ℕ → List Event → Outcome
unfolding body_result
read_body hdr body es =
    if ltb 0 body then body_result hdr body (read_full es body) else frame hdr es

-- The rest of the function behind `rdp_tpkt_parse_hdr`.
unfoldable pub parsed : ℕ → List ℕ → Option ℕ → List Event → Outcome
unfolding read_body
parsed cap hdr none es = failure eproto es
parsed cap hdr (some n) es =
    if ltb cap n then failure emsgsize es else read_body hdr (n - hdr_len) es

unfoldable pub header_result : ℕ → FullRead → Outcome
unfolding parsed
header_result cap (returned d es) =
    if length d == 0
    then closed es
    else if ltb (length d) hdr_len
    then failure eproto es
    else parsed cap d (parse_hdr d) es
header_result cap (failed es) = failure io es
header_result cap waiting = blocked

unfoldable pub read : List Event → ℕ → Outcome
unfolding header_result
read es cap =
    if ltb cap hdr_len then failure einval es else header_result cap (read_full es hdr_len)
