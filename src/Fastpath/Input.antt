-- ===== src/Fastpath/Input.antt =====
-- src/wire/fastpath.c: the fast-path input of the client.
use rdpserver.Base.{
  ℕ, zero, suc, ◌+◌, ◌*◌, ◌/◌, ◌%◌, Bool, true, false, ◌||◌, List, [], ◌∷◌, ltb, leb, ◌==◌,
  if◌then◌else◌, length,
}
use rdpserver.Base.{Read, ok, err, fault, ◌>>=◌, ◌>>◌, guard, at}

-- `struct rdp_fp_input_event`, in which the coordinates are not negative.
pub record InputEvent : Type 0 where
  pub kind : ℕ
  pub flags : ℕ
  pub keycode : ℕ
  pub x : ℕ
  pub y : ℕ

unfoldable pub looks_like : List ℕ → Read Bool
looks_like buf =
    if ltb (length buf) 1
    then ok false
    else do b0 ← at buf 0; if b0 == 3 then ok false else if b0 % 4 == 0 then ok true else ok false

-- `total` and `off`
unfoldable pub read_total : List ℕ → Read (ℕ × ℕ)
read_total buf = do
  b1 ← at buf 1
  if ltb b1 0x80
      then ok (b1, 2)
      else (do guard (leb 3 (length buf)); b2 ← at buf 2; ok (b1 % 128 * 256 + b2, 3))

-- The header up to the events: `n_events`, which is also stored in `*n_events_out`, and `off`.
unfoldable pub read_input_header : List ℕ → Read (ℕ × ℕ)
unfolding read_total
read_input_header buf = do
  guard (leb 2 (length buf))
  hdr ← at buf 0
  guard (hdr % 4 == 0)
  (total, off) ← read_total buf
  guard (total == length buf)
  if hdr / 4 % 16 == 0
      then (do guard (ltb off (length buf)); n ← at buf off; ok (n, off + 1))
      else ok (hdr / 4 % 16, off)

-- The branches of `switch (etype)`: the event and the offset behind it.
unfoldable pub read_scancode : List ℕ → ℕ → ℕ → Read (InputEvent × ℕ)
read_scancode buf off eh = do
  guard (ltb off (length buf))
  k ← at buf off
  ok (record { kind = eh / 32; flags = eh % 32; keycode = k; x = 0; y = 0 }, off + 1)

unfoldable pub read_mouse : List ℕ → ℕ → ℕ → Read (InputEvent × ℕ)
read_mouse buf off eh = do
  guard (leb (off + 6) (length buf))
  f0 ← at buf off
  f1 ← at buf (off + 1)
  x0 ← at buf (off + 2)
  x1 ← at buf (off + 3)
  y0 ← at buf (off + 4)
  y1 ← at buf (off + 5)
  ok (
    record {
      kind = eh / 32;
      flags = f0 + f1 * 256;
      keycode = 0;
      x = x0 + x1 * 256;
      y = y0 + y1 * 256;
    },
    off + 6,
  )

unfoldable pub read_unicode : List ℕ → ℕ → ℕ → Read (InputEvent × ℕ)
read_unicode buf off eh = do
  guard (leb (off + 2) (length buf))
  k0 ← at buf off
  k1 ← at buf (off + 1)
  ok (record { kind = eh / 32; flags = eh % 32; keycode = k0 + k1 * 256; x = 0; y = 0 }, off + 2)

unfoldable pub read_input_event : List ℕ → ℕ → Read (InputEvent × ℕ)
unfolding read_scancode read_mouse read_unicode
read_input_event buf off = do
  guard (ltb off (length buf))
  eh ← at buf off
  if eh / 32 == 0
      then read_scancode buf (off + 1) eh
      else if (eh / 32 == 1) || (eh / 32 == 2)
      then read_mouse buf (off + 1) eh
      else if eh / 32 == 3
      then ok (record { kind = 3; flags = eh % 32; keycode = 0; x = 0; y = 0 }, off + 1)
      else if eh / 32 == 4
      then read_unicode buf (off + 1) eh
      else err

-- The events that were handed to `cb`, and what the function returns behind them.
pub record Delivered : Type 0 where
  pub events : List InputEvent
  pub status : Read (Unit {0})

-- The loop over the events.
unfoldable pub read_events : ℕ → List ℕ → ℕ → Delivered
unfolding read_input_event
read_events zero buf off = record { events = []; status = ok tt }
read_events (suc n) buf off = elim (read_input_event buf off) [
  | ok t ↦
      let rest = read_events n buf t.1 in
      record { events = t.0 ∷ rest.events; status = rest.status }
  | err ↦ record { events = []; status = err }
  | fault ↦ record { events = []; status = fault }
]

unfoldable pub parse_input : List ℕ → Delivered
unfolding read_input_header read_events
parse_input buf = elim (read_input_header buf) [
  | ok t ↦ read_events t.0 buf t.1
  | err ↦ record { events = []; status = err }
  | fault ↦ record { events = []; status = fault }
]
