-- ===== src/Fastpath/Safety.antt =====
-- src/wire/fastpath.c: the input parser on arbitrary packets.
use rdpserver.Base.{
  ℕ, zero, suc, ◌+◌, ◌*◌, ◌/◌, ◌%◌, ◌^◌, ◌≤◌, ◌<◌, ◌≡◌, refl, ap, arith, ◌||◌, List, [], ◌∷◌, ltb,
  leb, ◌==◌, length, All, IsByte, get_or-IsByte,
}
use rdpserver.Base.{
  Read, ok, err, fault, ◌>>=◌, at, Ensures, returns, refused, Ensures-weaken, bind_then, guard_then,
  at_then, if_then,
}
use rdpserver.Fastpath.Input.{
  InputEvent, read_total, read_input_header, read_scancode, read_mouse, read_unicode,
  read_input_event, Delivered, read_events, parse_input,
}

-- What fits the fields of the structure.
pub record IsEvent (e : InputEvent) : Type 0 where
  pub known : e.kind ≤ 4
  pub flags : e.flags < 2 ^ 16
  pub keycode : e.keycode < 2 ^ 16
  pub x : e.x < 2 ^ 16
  pub y : e.y < 2 ^ 16

abbrev Good : ℕ → InputEvent × ℕ → Type 0
Good off t = IsEvent t.0 × (off < t.1)

-- A byte of the packet.
byte_then :
    {A : Type 0} {Q : A → Type 0} (buf : List ℕ) (i : ℕ) {k : ℕ → Read A}
    → All IsByte buf
    → i < length buf
    → ((x : ℕ) → x < 256 → Ensures Q (k x))
    → Ensures Q (at buf i >>= k)
byte_then buf i b h f = at_then buf i h λ x e. f x (ground (arith, get_or-IsByte buf i b, e))

read_scancode-Ensures :
    (buf : List ℕ) (off eh : ℕ)
    → All IsByte buf
    → eh / 32 ≤ 4
    → Ensures (Good off) (read_scancode buf off eh)
unfolding read_scancode
read_scancode-Ensures buf off eh b h = guard_then (ltb off (length buf)) λ g.
    byte_then buf off b (ground arith) λ k l.
      returns {a = (record { kind = eh / 32; flags = eh % 32; keycode = k; x = 0; y = 0 }, off + 1)}
        (
          record {
            known = h;
            flags = omega arith;
            keycode = omega arith;
            x = omega arith;
            y = omega arith;
          },
          omega arith,
        )

read_mouse-Ensures :
    (buf : List ℕ) (off eh : ℕ)
    → All IsByte buf
    → eh / 32 ≤ 4
    → Ensures (Good off) (read_mouse buf off eh)
unfolding read_mouse
read_mouse-Ensures buf off eh b h = guard_then (leb (off + 6) (length buf)) λ g.
    byte_then buf off b (ground arith) λ f0 h0. byte_then buf (off + 1) b (ground arith) λ f1 h1.
      byte_then buf (off + 2) b (ground arith) λ x0 h2.
        byte_then buf (off + 3) b (ground arith) λ x1 h3.
          byte_then buf (off + 4) b (ground arith) λ y0 h4.
            byte_then buf (off + 5) b (ground arith) λ y1 h5.
              returns
                {a = (
                  record {
                    kind = eh / 32;
                    flags = f0 + f1 * 256;
                    keycode = 0;
                    x = x0 + x1 * 256;
                    y = y0 + y1 * 256;
                  },
                  off + 6,
                )}
                (
                  record {
                    known = h;
                    flags = omega arith;
                    keycode = omega arith;
                    x = omega arith;
                    y = omega arith;
                  },
                  omega arith,
                )

read_unicode-Ensures :
    (buf : List ℕ) (off eh : ℕ)
    → All IsByte buf
    → eh / 32 ≤ 4
    → Ensures (Good off) (read_unicode buf off eh)
unfolding read_unicode
read_unicode-Ensures buf off eh b h = guard_then (leb (off + 2) (length buf)) λ g.
    byte_then buf off b (ground arith) λ k0 h0. byte_then buf (off + 1) b (ground arith) λ k1 h1.
      returns
        {a = (
          record { kind = eh / 32; flags = eh % 32; keycode = k0 + k1 * 256; x = 0; y = 0 },
          off + 2,
        )}
        (
          record {
            known = h;
            flags = omega arith;
            keycode = omega arith;
            x = omega arith;
            y = omega arith;
          },
          omega arith,
        )

later : (off : ℕ) (t : InputEvent × ℕ) → Good (off + 1) t → Good off t
later off t g = (g.0, omega (arith, g.1))

read_input_event-Ensures :
    (buf : List ℕ) (off : ℕ) → All IsByte buf → Ensures (Good off) (read_input_event buf off)
unfolding read_input_event
read_input_event-Ensures buf off b = guard_then (ltb off (length buf)) λ g.
    byte_then buf off b (ground arith) λ eh h.
      if_then (eh / 32 == 0)
        (λ e.
          Ensures-weaken (later off) (read_scancode-Ensures buf (off + 1) eh b (ground (arith, e))))
        λ e0.
          if_then ((eh / 32 == 1) || (eh / 32 == 2))
            (λ e.
              Ensures-weaken (later off)
                (read_mouse-Ensures buf (off + 1) eh b (ground (arith, e))))
            λ e1.
              if_then (eh / 32 == 3)
                (λ e.
                  returns
                    {a = (record { kind = 3; flags = eh % 32; keycode = 0; x = 0; y = 0 }, off + 1)}
                    (
                      record {
                        known = omega arith;
                        flags = omega arith;
                        keycode = omega arith;
                        x = omega arith;
                        y = omega arith;
                      },
                      omega arith,
                    ))
                λ e2.
                  if_then (eh / 32 == 4)
                    (λ e.
                      Ensures-weaken (later off)
                        (read_unicode-Ensures buf (off + 1) eh b (ground (arith, e))))
                    λ e3. refused

-- The number of events and the offset of the first.
read_total-Ensures :
    (buf : List ℕ) → 2 ≤ length buf → Ensures (λ t. (2 ≤ t.1) × (t.1 ≤ length buf)) (read_total buf)
unfolding read_total
read_total-Ensures buf h = at_then buf 1 (omega arith) λ b1 e.
    if_then (ltb b1 0x80) (λ f. returns {a = (b1, 2)} (omega arith, h))
      λ f. guard_then (leb 3 (length buf)) λ g.
        at_then buf 2 (ground arith)
          λ b2 e2. returns {a = (b1 % 128 * 256 + b2, 3)} (omega arith, ground arith)

read_input_header-Ensures :
    (buf : List ℕ) → All IsByte buf → Ensures (λ t. t.0 ≤ 255) (read_input_header buf)
unfolding read_input_header
read_input_header-Ensures buf b = guard_then (leb 2 (length buf)) λ g.
    at_then buf 0 (ground arith) λ hdr e. guard_then (hdr % 4 == 0) λ g1.
      bind_then (read_total-Ensures buf (ground arith)) λ (t : ℕ × ℕ) q.
        guard_then (t.0 == length buf) λ g2.
          if_then (hdr / 4 % 16 == 0)
            (λ f. guard_then (ltb t.1 (length buf)) λ g3.
              byte_then buf t.1 b (ground arith) λ n h. returns {a = (n, t.1 + 1)} (omega arith))
            λ f. returns {a = (hdr / 4 % 16, t.1)} (omega arith)

-- The events so far, and that the parser has not read outside the packet.
pub data Delivers (n : ℕ) : Delivered → Type 0 where
  complete :
      (events : List InputEvent)
      → All IsEvent events
      → length events ≡ n
      → Delivers n (record { events = events; status = ok tt })
  broken :
      (events : List InputEvent)
      → All IsEvent events
      → length events < n
      → Delivers n (record { events = events; status = err })

prepend :
    (n : ℕ) (e : InputEvent) (rest : Delivered)
    → IsEvent e
    → Delivers n rest
    → Delivers (suc n) (record { events = e ∷ rest.events; status = rest.status })
prepend n e _ h (complete events a l) = complete (e ∷ events) (h, a) (ap suc l)
prepend n e _ h (broken events a l) = broken (e ∷ events) (h, a) (omega arith)

read_events-Delivers :
    (n : ℕ) (buf : List ℕ) (off : ℕ) → All IsByte buf → Delivers n (read_events n buf off)
unfolding read_events
read_events-Delivers zero buf off b = complete [] tt refl
read_events-Delivers (suc n) buf off b =
    each (read_input_event buf off) (read_input_event-Ensures buf off b)
      (λ i. read_events-Delivers n buf i b)
  where
    each :
        (m : Read (InputEvent × ℕ))
        → Ensures (Good off) m
        → ((i : ℕ) → Delivers n (read_events n buf i))
        → Delivers (suc n) (elim m [
          | ok t ↦
              let rest = read_events n buf t.1 in
              record { events = t.0 ∷ rest.events; status = rest.status }
          | err ↦ record { events = []; status = err }
          | fault ↦ record { events = []; status = fault }
        ])
    each _ (returns {a = t} g) ih = prepend n t.0 (read_events n buf t.1) g.0 (ih t.1)
    each _ refused ih = broken [] tt (omega arith)

-- The outcomes of the parser: a refused header, or events as the header announces.
pub data Parses (buf : List ℕ) : Delivered → Type 0 where
  no_header : read_input_header buf ≡ err → Parses buf (record { events = []; status = err })
  events_of :
      (n off : ℕ) (d : Delivered)
      → read_input_header buf ≡ ok (n, off)
      → n ≤ 255
      → Delivers n d
      → Parses buf d

-- On every packet the parser reads inside the packet only. Each event that it delivers has a known
-- type and fits the fields of the structure. It refuses the header and delivers nothing, or
-- delivers as many events as the header announces, at most 255, and returns 0, or delivers fewer
-- and returns -1.
pub parse_input-Parses : (buf : List ℕ) → All IsByte buf → Parses buf (parse_input buf)
unfolding parse_input
parse_input-Parses buf b = each (read_input_header buf) refl (read_input_header-Ensures buf b)
  where
    each :
        (m : Read (ℕ × ℕ))
        → read_input_header buf ≡ m
        → Ensures (λ t. t.0 ≤ 255) m
        → Parses buf (elim m [
          | ok t ↦ read_events t.0 buf t.1
          | err ↦ record { events = []; status = err }
          | fault ↦ record { events = []; status = fault }
        ])
    each _ e (returns {a = t} g) =
        events_of t.0 t.1 (read_events t.0 buf t.1) e g (read_events-Delivers t.0 buf t.1 b)
    each _ e refused = no_header e
