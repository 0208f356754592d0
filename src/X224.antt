-- ===== src/X224.antt =====
-- src/wire/x224.c: the X.224 connection request, confirm and data headers.
pub mod Safety
pub mod Cookie
pub mod Confirm
mod Tests
use rdpserver.Base.{ℕ, ◌+◌, ◌-◌, Bool, true, false, not, ◌&&◌, ◌||◌, Option, none, some}
use rdpserver.Base.{List, [], ◌∷◌, leb, ltb, ◌==◌, if◌then◌else◌, length, take, drop, bit_and}
use rdpserver.Base.{Read, ok, err, ◌>>=◌, ◌>>◌, guard, at, sub_size}
use rdpserver.Buf.{
  Buf, Writer, ◌>>◌ as then_write, done, init, finish, put_u8, put_u16be, put_u16le,
}
use rdpserver.Buf.{put_u32le, u16, u32}

-- `struct rdp_x224_cr`; `cookie` is the slice of `cookie_len` bytes, empty for NULL.
pub record Request : Type 0 where
  pub have_neg_req : Bool
  pub neg_flags : ℕ
  pub requested_protocols : ℕ
  pub cookie : List ℕ

abbrev pub cookie_word : List ℕ
cookie_word = b'C' ∷ b'o' ∷ b'o' ∷ b'k' ∷ b'i' ∷ b'e' ∷ b':' ∷ []

-- `remaining >= n && memcmp(p, w, n) == 0` with `n` the length of `w`.
unfoldable pub starts_with : List ℕ → List ℕ → Bool
starts_with [] p = true
starts_with (x ∷ w) [] = false
starts_with (x ∷ w) (y ∷ p) = x == y && starts_with w p

-- The loop that looks for "\r\n" in `p[i .. remaining)`.
unfoldable pub find_crlf : List ℕ → ℕ → Option ℕ
find_crlf [] i = none
find_crlf (x ∷ []) i = none
find_crlf (x ∷ y ∷ p) i = if x == b'\r' && y == b'\n' then some i else find_crlf (y ∷ p) (i + 1)

-- `if (i + 1 >= remaining) return -1;` and `i + 2`.
unfoldable pub line_end : Option ℕ → Read ℕ
line_end none = err
line_end (some i) = ok (i + 2)

-- The length of the cookie or of the routing token at the front of the body, or 0.
unfoldable pub read_cookie : List ℕ → Read ℕ
unfolding starts_with find_crlf line_end
read_cookie p =
    if starts_with cookie_word p
    then line_end (find_crlf p 0)
    else if starts_with (3 ∷ []) p
    then line_end (find_crlf p 0)
    else ok 0

-- RDP_NEG_CORRELATION_INFO_PRESENT.
abbrev pub has_correlation : ℕ → Bool
has_correlation flags = not (bit_and flags 8 == 0)

-- The RDP_NEG_REQ at `p + i`, where `remaining` is the length of `p`.
unfoldable pub read_neg : List ℕ → ℕ → Read Request
read_neg p i = do
  flags ← at p (i + 1)
  l0 ← at p (i + 2)
  l1 ← at p (i + 3)
  a ← at p (i + 4)
  b ← at p (i + 5)
  c ← at p (i + 6)
  d ← at p (i + 7)
  guard (u16 l0 l1 == 8)
  guard (not (has_correlation flags && ltb (sub_size (length p) (i + 8)) 36))
  ok (record {
    have_neg_req = true;
    neg_flags = flags;
    requested_protocols = u32 a b c d;
    cookie = take i p;
  })

-- `*out` where no RDP_NEG_REQ is present.
abbrev pub no_neg : List ℕ → ℕ → Request
no_neg p i = record {
  have_neg_req = false;
  neg_flags = 0;
  requested_protocols = 0;
  cookie = take i p;
}

-- What stands behind the cookie of `i` bytes.
unfoldable pub read_tail : List ℕ → ℕ → Read Request
unfolding read_neg
read_tail p i =
    if leb 8 (sub_size (length p) i)
    then (do kind ← at p i; if kind == 1 then read_neg p i else ok (no_neg p i))
    else ok (no_neg p i)

unfoldable pub read_body : List ℕ → Read Request
unfolding read_cookie read_tail
read_body p = do i ← read_cookie p; read_tail p i

unfoldable pub parse_cr : List ℕ → Read Request
unfolding read_body
parse_cr buf = do
  guard (leb 7 (length buf))
  li ← at buf 0
  code ← at buf 1
  guard (bit_and code 0xf0 == 0xe0)
  guard (leb (li + 1) (length buf))
  guard (leb 6 li)
  read_body (take (li + 1 - 7) (drop 7 buf))

-- `total`, the size of the confirm.
abbrev pub cc_total : Bool → ℕ → ℕ
cc_total want_failure selected = if want_failure then 15 else 7 + (if selected == 0 then 0 else 8)

-- The RDP_NEG_FAILURE or RDP_NEG_RSP, if any.
unfoldable pub put_neg : Bool → ℕ → ℕ → Writer
put_neg want_failure selected failure_code =
    if want_failure
    then then_write (put_u8 3)
        (then_write (put_u8 0) (then_write (put_u16le 8) (put_u32le failure_code)))
    else if not (selected == 0)
    then then_write (put_u8 2)
        (then_write (put_u8 3) (then_write (put_u16le 8) (put_u32le selected)))
    else done

unfoldable pub build_cc : List ℕ → ℕ → Bool → ℕ → ℕ → Option Buf
unfolding put_neg
build_cc out cap want_failure selected failure_code =
    let total = cc_total want_failure selected in
    if ltb cap total
    then none
    else finish (
        then_write (put_u8 (total - 1))
          (then_write (put_u8 0xd0) (
            then_write (put_u16be 0) (
              then_write (put_u16be 0)
                (then_write (put_u8 0) (put_neg want_failure selected failure_code)))))
          (init out cap))

-- The three bytes that `rdp_x224_build_dt` stores, if there is room.
unfoldable pub build_dt : ℕ → Option (List ℕ)
build_dt cap = if ltb cap 3 then none else some (0x02 ∷ 0xf0 ∷ 0x80 ∷ [])

unfoldable pub parse_dt : List ℕ → Read ℕ
parse_dt buf = do
  guard (leb 3 (length buf))
  b0 ← at buf 0
  guard (b0 == 2)
  b1 ← at buf 1
  guard (bit_and b1 0xf0 == 0xf0)
  ok 3
