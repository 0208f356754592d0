-- ===== src/Buf/RoundTrip.antt =====
-- src/common/buf.c: the readers behind the writers, and what the writers leave alone.
use rdpserver.Base.{ℕ, ◌+◌, ◌^◌, ◌≤◌, ◌<◌, ◌≡◌, refl, arith}
use rdpserver.Base.{
  some, List, [], ◌∷◌, length, write_at, get_or-write_at, get_or, Bool, true, length-write_at, ap,
  ◌∙◌,
}
use rdpserver.Buf.{Buf, emit, put, put_u8, put_u16le, put_u16be, put_u32le, put_u32be, octet}
use rdpserver.Buf.{get_u16le, get_u16be, get_u32le, get_u32be, u16, u32}
use rdpserver.Buf.Laws.{IsValid, put-Writes, put_u8-Writes, put_u16le-Writes}
use rdpserver.Buf.Outcomes.{IsFrame, Outcome-IsFrame}
use rdpserver.Buf.Laws.{
  put_u16be-Writes, put_u32le-Writes, put_u32be-Writes, space_lem, Outcome, wrote, full,
}

-- Every writing call on a valid buffer, on success and on failure, leaves the buffer valid and
-- changes no byte before the position or behind the capacity.
pub put-IsFrame :
    (b : Buf) (s : List ℕ) (x : ℕ)
    → IsValid b
    → IsFrame b (put s b).1
      × IsFrame b (put_u8 x b).1
      × IsFrame b (put_u16le x b).1
      × IsFrame b (put_u16be x b).1
      × IsFrame b (put_u32le x b).1
      × IsFrame b (put_u32be x b).1
put-IsFrame b s x v = (
  Outcome-IsFrame _ b _ v ((put-Writes s).outcome b v),
  Outcome-IsFrame _ b _ v ((put_u8-Writes x).outcome b v),
  Outcome-IsFrame _ b _ v ((put_u16le-Writes x).outcome b v),
  Outcome-IsFrame _ b _ v ((put_u16be-Writes x).outcome b v),
  Outcome-IsFrame _ b _ v ((put_u32le-Writes x).outcome b v),
  Outcome-IsFrame _ b _ v ((put_u32be-Writes x).outcome b v),
)

-- The buffer at an earlier position, where a reader starts.
abbrev pub rewind : ℕ → Buf → Buf
rewind n b = record b { pos = n }

fits :
    (s : List ℕ) (b : Buf) {r : Bool × Buf}
    → Outcome s b r
    → b.pos + length s ≤ b.cap
    → r ≡ (true, emit s b)
fits s b (wrote h e) k = e
fits s b (full t u h split room e) k = absurd (omega arith)

-- Byte `k` of what `emit` wrote, as a reader that starts there sees it.
byte_of_emit :
    (s : List ℕ) (b : Buf) (j k : ℕ)
    → IsValid b
    → b.pos + length s ≤ b.cap
    → j ≡ b.pos + k
    → k < length s
    → get_or (write_at b.bytes b.pos s) j 0 ≡ get_or s k 0
byte_of_emit s b j k v h e l = get_or-write_at b.bytes b.pos j k s 0 e l (omega (arith, v.backed))

rewind-IsValid : (s : List ℕ) (b : Buf) → IsValid b → IsValid (rewind b.pos (emit s b))
rewind-IsValid s b v = record {
  backed = omega (arith, v.backed, length-write_at b.bytes b.pos s);
  within = v.within;
  small = v.small;
}

module _ (b : Buf) (v : IsValid b) (p q r t : ℕ) (h : b.pos + 4 ≤ b.cap) where
  abbrev four : List ℕ
  four = p ∷ q ∷ r ∷ t ∷ []

  read_le : get_u32le (rewind b.pos (emit four b)) ≡ some (u32 p q r t, emit four b)
  unfolding get_u32le
  read_le = ground (
    arith,
    space_lem (rewind b.pos (emit four b)) (rewind-IsValid four b v),
    byte_of_emit four b b.pos 0 v h (omega arith) (omega arith),
    byte_of_emit four b (b.pos + 1) 1 v h refl (omega arith),
    byte_of_emit four b (b.pos + 2) 2 v h refl (omega arith),
    byte_of_emit four b (b.pos + 3) 3 v h refl (omega arith),
  )

  read_be : get_u32be (rewind b.pos (emit four b)) ≡ some (u32 t r q p, emit four b)
  unfolding get_u32be
  read_be = ground (
    arith,
    space_lem (rewind b.pos (emit four b)) (rewind-IsValid four b v),
    byte_of_emit four b b.pos 0 v h (omega arith) (omega arith),
    byte_of_emit four b (b.pos + 1) 1 v h refl (omega arith),
    byte_of_emit four b (b.pos + 2) 2 v h refl (omega arith),
    byte_of_emit four b (b.pos + 3) 3 v h refl (omega arith),
  )

module _ (b : Buf) (v : IsValid b) (p q : ℕ) (h : b.pos + 2 ≤ b.cap) where
  abbrev two : List ℕ
  two = p ∷ q ∷ []

  read_short_le : get_u16le (rewind b.pos (emit two b)) ≡ some (u16 p q, emit two b)
  unfolding get_u16le
  read_short_le = ground (
    arith,
    space_lem (rewind b.pos (emit two b)) (rewind-IsValid two b v),
    byte_of_emit two b b.pos 0 v h (omega arith) (omega arith),
    byte_of_emit two b (b.pos + 1) 1 v h refl (omega arith),
  )

  read_short_be : get_u16be (rewind b.pos (emit two b)) ≡ some (u16 q p, emit two b)
  unfolding get_u16be
  read_short_be = ground (
    arith,
    space_lem (rewind b.pos (emit two b)) (rewind-IsValid two b v),
    byte_of_emit two b b.pos 0 v h (omega arith) (omega arith),
    byte_of_emit two b (b.pos + 1) 1 v h refl (omega arith),
  )

-- A 32-bit value that was written to a valid buffer in either byte order, with room for four
-- bytes, is read back in that order, and the reader ends where the writer did.
pub get_u32-put_u32 :
    (b : Buf) (x : ℕ)
    → IsValid b
    → b.pos + 4 ≤ b.cap
    → x < 2 ^ 32
    → (get_u32le (rewind b.pos (put_u32le x b).1) ≡ some (x, (put_u32le x b).1))
      × (get_u32be (rewind b.pos (put_u32be x b).1) ≡ some (x, (put_u32be x b).1))
get_u32-put_u32 b x v h hx = (
  rw (fits _ b ((put_u32le-Writes x).outcome b v) h) (
      read_le b v (octet x 0) (octet x 1) (octet x 2) (octet x 3) h
      ∙ ap (λ y. some (y, emit (octet x 0 ∷ octet x 1 ∷ octet x 2 ∷ octet x 3 ∷ []) b))
          (omega arith)),
  rw (fits _ b ((put_u32be-Writes x).outcome b v) h) (
      read_be b v (octet x 3) (octet x 2) (octet x 1) (octet x 0) h
      ∙ ap (λ y. some (y, emit (octet x 3 ∷ octet x 2 ∷ octet x 1 ∷ octet x 0 ∷ []) b))
          (omega arith)),
)

-- A 16-bit value that was written to a valid buffer in either byte order, with room for two bytes,
-- is read back in that order, and the reader ends where the writer did.
pub get_u16-put_u16 :
    (b : Buf) (x : ℕ)
    → IsValid b
    → b.pos + 2 ≤ b.cap
    → x < 2 ^ 16
    → (get_u16le (rewind b.pos (put_u16le x b).1) ≡ some (x, (put_u16le x b).1))
      × (get_u16be (rewind b.pos (put_u16be x b).1) ≡ some (x, (put_u16be x b).1))
get_u16-put_u16 b x v h hx = (
  rw (fits _ b ((put_u16le-Writes x).outcome b v) h) (
      read_short_le b v (octet x 0) (octet x 1) h
      ∙ ap (λ y. some (y, emit (octet x 0 ∷ octet x 1 ∷ []) b)) (omega arith)),
  rw (fits _ b ((put_u16be-Writes x).outcome b v) h) (
      read_short_be b v (octet x 1) (octet x 0) h
      ∙ ap (λ y. some (y, emit (octet x 1 ∷ octet x 0 ∷ []) b)) (omega arith)),
)
