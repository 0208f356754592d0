-- ===== src/Tpkt/Tests.antt =====
-- Instances of the theorems on src/wire/tpkt.c.
use rdpserver.Base.{All, IsByte, arith, ◌≡◌, refl, true, some, List, [], ◌∷◌}
use rdpserver.Io.{Event, got, eof}
use rdpserver.Io.Blocks.{payload, ends}
use rdpserver.Tpkt.{read}
use rdpserver.Tpkt.Frames.{view, verdict, read_refines}

-- A frame of eight bytes in two chunks, and one byte more.
abbrev two_chunks : List Event
two_chunks = got 3 (0 ∷ 0 ∷ []) ∷ got 8 (1 ∷ 2 ∷ 3 ∷ 4 ∷ 5 ∷ []) ∷ eof ∷ []

two_chunks_end : ends two_chunks ≡ true
unfolding ends
two_chunks_end = refl

two_chunks_bytes : All IsByte (payload two_chunks)
unfolding payload
two_chunks_bytes = (
  omega arith,
  (
    omega arith,
    (
      omega arith,
      (omega arith, (omega arith, (omega arith, (omega arith, (omega arith, (omega arith, tt)))))),
    ),
  ),
)

read_refines_example : view (read two_chunks 64) ≡ some (verdict 64 (payload two_chunks))
read_refines_example = read_refines two_chunks 64 two_chunks_end two_chunks_bytes
