-- ===== src/Vchan/Spec.antt =====
-- What reassembly promises (src/channels/vchan.h): an accumulator that is just a list of bytes.
use rdpserver.Base.{ℕ, ◌+◌, Bool, not, ◌&&◌, ◌||◌, List, [], ◌++◌}
use rdpserver.Base.{ltb, ◌==◌, if◌then◌else◌, length}
use rdpserver.Vchan.{Result, bad, more, complete, is_first, is_last}

-- Nothing in progress, or the declared total with the bytes so far.
pub data Progress : Type 0 where
  idle : Progress
  gathering : ℕ → List ℕ → Progress

unfoldable pub continue : Progress → List ℕ → Bool → Result × Progress
continue idle frag last = (bad, idle)
continue (gathering total acc) frag last =
    if ltb total (length acc + length frag)
    then (bad, idle)
    else if last
    then (complete (acc ++ frag), gathering total (acc ++ frag))
    else (more, gathering total (acc ++ frag))

-- `room`: memory for `total` bytes can be had.
unfoldable pub feed : ℕ → Bool → Progress → List ℕ → ℕ → ℕ → Result × Progress
unfolding continue
feed max room p frag total flags =
    if is_first flags && is_last flags
    then (complete frag, idle)
    else if is_first flags
    then (if total == 0 || ltb max total || not room
        then (bad, idle)
        else continue (gathering total []) frag (is_last flags))
    else continue p frag (is_last flags)
