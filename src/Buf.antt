-- ===== src/Buf.antt =====
-- src/common/buf.c: the bounded byte buffer that every encoder writes through.
pub mod Laws
pub mod Outcomes
pub mod RoundTrip
mod Tests
use rdpserver.Base.{ℕ, ◌+◌, ◌*◌, ◌/◌, ◌%◌, ◌^◌, Bool, true, false, Option, none, some, List}
use rdpserver.Base.{ltb, if◌then◌else◌, length, get_or, set, take, drop, write_at, sub_size}

-- `struct rdp_buf`: `bytes` is the storage that `data` points to.
pub record Buf : Type 0 where
  pub bytes : List ℕ
  pub cap : ℕ
  pub pos : ℕ

unfoldable pub init : List ℕ → ℕ → Buf
init p cap = record { bytes = p; cap = cap; pos = 0 }

unfoldable pub reset : Buf → Buf
reset b = record b { pos = 0 }

-- `cap - pos` of two `size_t`.
unfoldable pub space : Buf → ℕ
space b = sub_size b.cap b.pos

unfoldable pub used : Buf → ℕ
used b = b.pos

-- A call that returns 0 or -1 (`true` or `false`) and changes `*b`. A caller that checks each
-- call, `if (f(b) != 0) return -1;`, is a `do` block.
abbrev pub Writer : Type 0
Writer = Buf → Bool × Buf

abbrev pub next : Bool × Buf → Writer → Bool × Buf
next (true, b) k = k b
next (false, b) k = (false, b)

infixl 5 ◌>>◌
abbrev pub ◌>>◌ : Writer → Writer → Writer
◌>>◌ w k b = next (w b) k

-- `return -1;` and `return 0;`
abbrev pub fail : Writer
fail b = (false, b)

abbrev pub done : Writer
done b = (true, b)

-- `b->data[b->pos++] = v`
abbrev poke : ℕ → Buf → Buf
poke v b = record b { bytes = set b.bytes b.pos v; pos = b.pos + 1 }

-- `memcpy(b->data + b->pos, src, n); b->pos += n` with `n` the length of `src`.
abbrev pub emit : List ℕ → Buf → Buf
emit src b = record b { bytes = write_at b.bytes b.pos src; pos = b.pos + length src }

unfoldable pub put : List ℕ → Writer
unfolding space
put src b = if ltb (space b) (length src) then (false, b) else (true, emit src b)

-- The offset that the returned pointer has in the storage; `none` is NULL.
unfoldable pub reserve : ℕ → Buf → Option (ℕ × Buf)
unfolding space
reserve n b = if ltb (space b) n then none else some (b.pos, record b { pos = b.pos + n })

-- The argument is a `uint8_t`.
unfoldable pub put_u8 : ℕ → Writer
unfolding space
put_u8 v b = if ltb (space b) 1 then (false, b) else (true, poke v b)

-- `(v >> 8 * k) & 0xff`
abbrev pub octet : ℕ → ℕ → ℕ
octet v k = v / 256 ^ k % 256

unfoldable pub put_u16le : ℕ → Writer
unfolding space
put_u16le v b =
    if ltb (space b) 2 then (false, b) else (true, poke (octet v 1) (poke (octet v 0) b))

unfoldable pub put_u16be : ℕ → Writer
unfolding space
put_u16be v b =
    if ltb (space b) 2 then (false, b) else (true, poke (octet v 0) (poke (octet v 1) b))

unfoldable pub put_u32le : ℕ → Writer
unfolding space
put_u32le v b =
    if ltb (space b) 4
    then (false, b)
    else (true, poke (octet v 3) (poke (octet v 2) (poke (octet v 1) (poke (octet v 0) b))))

unfoldable pub put_u32be : ℕ → Writer
unfolding space
put_u32be v b =
    if ltb (space b) 4
    then (false, b)
    else (true, poke (octet v 0) (poke (octet v 1) (poke (octet v 2) (poke (octet v 3) b))))

-- The readers change nothing when they return -1 (`none`). The operands of each `|` share no
-- bit, so it is a sum.
unfoldable pub get : ℕ → Buf → Option (List ℕ × Buf)
unfolding space
get n b =
    if ltb (space b) n
    then none
    else some (take n (drop b.pos b.bytes), record b { pos = b.pos + n })

-- `b->data[i]`
abbrev byte_at : Buf → ℕ → ℕ
byte_at b i = get_or b.bytes i 0

unfoldable pub get_u8 : Buf → Option (ℕ × Buf)
unfolding space
get_u8 b = if ltb (space b) 1 then none else some (byte_at b b.pos, record b { pos = b.pos + 1 })

abbrev pub u16 : ℕ → ℕ → ℕ
u16 lo hi = lo + hi * 256

abbrev pub u32 : ℕ → ℕ → ℕ → ℕ → ℕ
u32 a c d e = a + c * 2 ^ 8 + d * 2 ^ 16 + e * 2 ^ 24

unfoldable pub get_u16le : Buf → Option (ℕ × Buf)
unfolding space
get_u16le b =
    if ltb (space b) 2
    then none
    else some (u16 (byte_at b b.pos) (byte_at b (b.pos + 1)), record b { pos = b.pos + 2 })

unfoldable pub get_u16be : Buf → Option (ℕ × Buf)
unfolding space
get_u16be b =
    if ltb (space b) 2
    then none
    else some (u16 (byte_at b (b.pos + 1)) (byte_at b b.pos), record b { pos = b.pos + 2 })

unfoldable pub get_u32le : Buf → Option (ℕ × Buf)
unfolding space
get_u32le b =
    if ltb (space b) 4
    then none
    else some (
      u32 (byte_at b b.pos) (byte_at b (b.pos + 1)) (byte_at b (b.pos + 2)) (byte_at b (b.pos + 3)),
      record b { pos = b.pos + 4 },
    )

unfoldable pub get_u32be : Buf → Option (ℕ × Buf)
unfolding space
get_u32be b =
    if ltb (space b) 4
    then none
    else some (
      u32 (byte_at b (b.pos + 3)) (byte_at b (b.pos + 2)) (byte_at b (b.pos + 1)) (byte_at b b.pos),
      record b { pos = b.pos + 4 },
    )

unfoldable pub skip : ℕ → Buf → Option Buf
unfolding space
skip n b = if ltb (space b) n then none else some (record b { pos = b.pos + n })

-- `return (ssize_t)rdp_buf_used(&b);` behind checked calls: the buffer, or -1 (`none`).
abbrev pub finish : Bool × Buf → Option Buf
finish (true, b) = some b
finish (false, b) = none
