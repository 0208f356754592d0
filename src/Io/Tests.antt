-- ===== src/Io/Tests.antt =====
-- Instances of the theorems on src/common/io.c.
use rdpserver.Base.{◌≡◌, ◌≤◌, ◌<◌, refl, arith, true, List, [], ◌∷◌, length}
use rdpserver.Io.{Event, got, eof, intr, took, stop, read_full, write_full}
use rdpserver.Io.Blocks.{payload, ends, Took, Wrote, read_full-Took, write_full-Wrote}

-- Three bytes in two chunks, with an interrupted call between them.
abbrev chunks : List Event
chunks = got 1 [] ∷ intr ∷ got 2 (3 ∷ []) ∷ eof ∷ []

enough : 2 ≤ length (payload chunks)
unfolding payload
enough = omega arith

read_full-Took_example : Took 2 chunks [] (read_full chunks 2)
read_full-Took_example = read_full-Took chunks 2 enough

too_few : length (payload chunks) < 5
unfolding payload
too_few = omega arith

at_end : ends chunks ≡ true
unfolding ends
at_end = refl

write_full-Wrote_example :
    Wrote (1 ∷ 2 ∷ 3 ∷ []) (write_full (took 1 ∷ stop ∷ took 9 ∷ []) (1 ∷ 2 ∷ 3 ∷ []))
write_full-Wrote_example = write_full-Wrote (took 1 ∷ stop ∷ took 9 ∷ []) (1 ∷ 2 ∷ 3 ∷ [])
