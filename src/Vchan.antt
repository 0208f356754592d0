-- ===== src/Vchan.antt =====
-- src/channels/vchan.c: reassembly of static virtual channel PDUs. `free` has no effect that the
-- code can see; malloc(3) is the parameter `alloc`, which gives the block or NULL (`none`).
pub mod Spec
pub mod Refine
pub mod Keeps
mod Tests
use rdpserver.Base.{ℕ, ◌+◌, ◌-◌, Bool, true, false, not, ◌&&◌, ◌||◌, Option, none, some}
use rdpserver.Base.{List, [], ◌∷◌, ltb, ◌==◌, if◌then◌else◌, length, take, drop, get_or, write_at}
use rdpserver.Base.{bit_and, sub_size}
use rdpserver.Buf.{u32}

-- `struct rdp_vc_reasm`; `buf` is the allocated block, empty where the pointer is NULL.
pub record Reasm : Type 0 where
  pub buf : List ℕ
  pub cap : ℕ
  pub len : ℕ
  pub max_pdu : ℕ
  pub active : Bool

-- -1, 0, and 1 with the bytes of `*pdu`.
pub data Result : Type 0 where
  bad more : Result
  complete : List ℕ → Result

unfoldable pub init : ℕ → Reasm
init max_pdu = record { buf = []; cap = 0; len = 0; max_pdu = max_pdu; active = false }

unfoldable pub reset : Reasm → Reasm
reset r = record { buf = []; cap = 0; len = 0; max_pdu = r.max_pdu; active = false }

-- CHANNEL_FLAG_FIRST and CHANNEL_FLAG_LAST.
abbrev pub is_first : ℕ → Bool
is_first flags = not (bit_and flags 1 == 0)

abbrev pub is_last : ℕ → Bool
is_last flags = not (bit_and flags 2 == 0)

-- The part behind `if (!r->active)`.
unfoldable pub append : Reasm → List ℕ → Bool → Result × Reasm
unfolding reset
append r frag last =
    if ltb (sub_size r.cap r.len) (length frag)
    then (bad, reset r)
    else let r' = record r { buf = write_at r.buf r.len frag; len = r.len + length frag } in
      if last then (complete (take r'.len r'.buf), r') else (more, r')

unfoldable pub continue : Reasm → List ℕ → Bool → Result × Reasm
continue r frag last = if not r.active then (bad, r) else append r frag last

-- `r->buf = malloc(total)` and what follows, on a reset accumulator.
unfoldable pub begin : Option (List ℕ) → Reasm → List ℕ → ℕ → Bool → Result × Reasm
begin none r frag total last = (bad, r)
begin (some block) r frag total last =
    continue (record r { buf = block; cap = total; active = true }) frag last

unfoldable pub feed : (ℕ → Option (List ℕ)) → Reasm → List ℕ → ℕ → ℕ → Result × Reasm
unfolding reset
feed alloc r frag total flags =
    if is_first flags && is_last flags
    then (complete frag, reset r)
    else if is_first flags
    then (if total == 0 || ltb r.max_pdu total
        then (bad, reset r)
        else begin (alloc total) (reset r) frag total (is_last flags))
    else continue r frag (is_last flags)

-- A channel payload: the two header fields, and the body behind them.
unfoldable pub feed_payload : (ℕ → Option (List ℕ)) → Reasm → List ℕ → Result × Reasm
feed_payload alloc r p =
    if ltb (length p) 8
    then (bad, r)
    else feed alloc r (drop 8 p) (u32 (get_or p 0 0) (get_or p 1 0) (get_or p 2 0) (get_or p 3 0))
        (u32 (get_or p 4 0) (get_or p 5 0) (get_or p 6 0) (get_or p 7 0))
