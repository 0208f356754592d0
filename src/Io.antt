-- ===== src/Io.antt =====
-- src/common/io.c: the loops that read and write a whole block, over what the descriptor does.
mod Tests
pub mod Blocks
use rdpserver.Base.{ℕ, zero, suc, ◌+◌, ◌-◌, Bool, true, false, List, [], ◌∷◌, ◌++◌}
use rdpserver.Base.{ltb, if◌then◌else◌, length, take, drop}

-- What the descriptor has for the next calls of read(2): bytes that have arrived together (one at
-- least, `got x xs`), the end of the stream, a call interrupted by a signal, another error.
pub data Event : Type 0 where
  got : ℕ → List ℕ → Event
  eof intr broken : Event

-- `returned` is a result r ≥ 0 with the bytes stored, and `failed` is -1; each has what the
-- descriptor still holds. `waiting`: read(2) has not returned yet.
pub data FullRead : Type 0 where
  returned : List ℕ → List Event → FullRead
  failed : List Event → FullRead
  waiting : FullRead

-- `rdp_read_full` with `n - got` bytes to go and the bytes stored so far. A read takes what has
-- arrived, as far as there is room; what is beyond stays for the next call.
unfoldable pub read_loop : List Event → ℕ → List ℕ → FullRead
read_loop es zero stored = returned stored es
read_loop [] (suc k) stored = waiting
read_loop (intr ∷ es) (suc k) stored = read_loop es (suc k) stored
read_loop (broken ∷ es) (suc k) stored = failed es
read_loop (eof ∷ es) (suc k) stored = returned stored (eof ∷ es)
read_loop (got x xs ∷ es) (suc k) stored =
    let rest = read_loop es (k - length xs) (stored ++ (x ∷ xs)) in
    elim (drop k xs) [ [] ↦ rest | y ∷ ys ↦ returned (stored ++ (x ∷ take k xs)) (got y ys ∷ es) ]

unfoldable pub read_full : List Event → ℕ → FullRead
unfolding read_loop
read_full es n = read_loop es n []

-- What write(2) does with the next calls: it takes a number of bytes, is interrupted, or fails.
pub data Accept : Type 0 where
  took : ℕ → Accept
  stop refuse : Accept

pub data FullWrite : Type 0 where
  sent : ℕ → List ℕ → FullWrite
  error : List ℕ → FullWrite
  blocked : List ℕ → FullWrite

-- `rdp_write_full` on the bytes not yet sent. `wire` has the bytes sent so far, `n` their number;
-- write(2) takes at most what it is given.
unfoldable pub write_loop : List Accept → List ℕ → ℕ → List ℕ → FullWrite
write_loop ops [] n wire = sent n wire
write_loop [] (x ∷ xs) n wire = blocked wire
write_loop (stop ∷ ops) (x ∷ xs) n wire = write_loop ops (x ∷ xs) n wire
write_loop (refuse ∷ ops) (x ∷ xs) n wire = error wire
write_loop (took k ∷ ops) (x ∷ xs) n wire =
    write_loop ops (drop k (x ∷ xs)) (n + length (take k (x ∷ xs))) (wire ++ take k (x ∷ xs))

unfoldable pub write_full : List Accept → List ℕ → FullWrite
unfolding write_loop
write_full ops src = write_loop ops src 0 []
