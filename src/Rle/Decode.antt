-- ===== src/Rle/Decode.antt =====
-- src/wire/bitmap_rle.c: the decoder. A read outside the source or the pixels so far would be a
-- fault, and so is a loop that outlasts its fuel.
use rdpserver.Base.{ℕ, zero, suc, ◌+◌, ◌-◌, ◌*◌, ◌/◌, ◌%◌, ◌^◌, Bool, true, false, ◌||◌}
use rdpserver.Base.{List, [], ◌∷◌, ◌++◌, ltb, leb, ◌==◌, if◌then◌else◌, length, drop}
use rdpserver.Base.{Read, ok, err, fault, ◌>>=◌, ◌>>◌, guard, at}
use rdpserver.Rle.Write.{white, pack}
use Prim.Native.Nat.{bit_xor}

-- The pixels so far, and `first`: the first line is not complete.
pub record Decoder : Type 0 where
  pub done : List ℕ
  pub first : Bool

-- ABOVE()
unfoldable pub above : ℕ → Decoder → Read ℕ
above width d = if d.first then ok 0 else at d.done (length d.done - width)

-- PUT(px)
unfoldable pub put_pixel : ℕ → ℕ → ℕ → Decoder → Read Decoder
put_pixel width total px d =
    if leb total (length d.done)
    then err
    else ok (record {
      done = d.done ++ ((px % 2 ^ 24) ∷ []);
      first = if (length d.done + 1) % width == 0 then false else d.first;
    })

-- The loops of the runs: FILL and MIX (`flip`: the foreground is mixed in).
unfoldable pub put_above : ℕ → Bool → ℕ → ℕ → Decoder → Read Decoder
unfolding above put_pixel
put_above zero flip width total d = ok d
put_above (suc n) flip width total d = do
  a ← above width d
  d' ← put_pixel width total (if flip then bit_xor a white else a) d
  put_above n flip width total d'

-- FOM_RUN without the step behind the mask: `n` pixels from the bit `k` on.
unfoldable pub put_masked : ℕ → ℕ → List ℕ → ℕ → ℕ → Decoder → Read Decoder
unfolding above put_pixel
put_masked zero k mask width total d = ok d
put_masked (suc n) k mask width total d = do
  guard (leb (k / 8 + 1) (length mask))
  m ← at mask (k / 8)
  a ← above width d
  d' ← put_pixel width total (if m / 2 ^ (k % 8) % 2 == 1 then bit_xor a white else a) d
  put_masked n (k + 1) mask width total d'

-- COLOR
unfoldable pub put_color : ℕ → ℕ → ℕ → ℕ → Decoder → Read Decoder
unfolding put_pixel
put_color zero px width total d = ok d
put_color (suc n) px width total d = do
  d' ← put_pixel width total px d
  put_color n px width total d'

-- BICOLOR, from the pixel `k` on.
unfoldable pub put_bicolor : ℕ → ℕ → ℕ → ℕ → ℕ → ℕ → Decoder → Read Decoder
unfolding put_pixel
put_bicolor zero k c1 c2 width total d = ok d
put_bicolor (suc n) k c1 c2 width total d = do
  d' ← put_pixel width total (if k % 2 == 1 then c1 else c2) d
  put_bicolor n (k + 1) c1 c2 width total d'

-- ir8, ir16 and ir_pixel: the value and the source behind it.
unfoldable pub ir8 : List ℕ → Read (ℕ × List ℕ)
ir8 [] = err
ir8 (a ∷ p) = ok (a, p)

unfoldable pub ir16 : List ℕ → Read (ℕ × List ℕ)
unfolding ir8
ir16 p = do (a, q) ← ir8 p; (b, r) ← ir8 q; ok (a + b * 256, r)

unfoldable pub ir_pixel : List ℕ → Read (ℕ × List ℕ)
unfolding ir8
ir_pixel p = do (a, q) ← ir8 p; (b, r) ← ir8 q; (c, s) ← ir8 r; ok (a + b * 256 + c * 65536, s)

-- COLOR IMAGE
unfoldable pub put_image : ℕ → ℕ → ℕ → List ℕ → Decoder → Read (List ℕ × Decoder)
unfolding put_pixel ir_pixel
put_image zero width total p d = ok (p, d)
put_image (suc n) width total p d = do
  (px, q) ← ir_pixel p
  d' ← put_pixel width total px d
  put_image n width total q d'

-- `n` of the header, or where it is 0 the next byte and `more`.
unfoldable pub read_count : ℕ → ℕ → List ℕ → Read (ℕ × List ℕ)
unfolding ir8
read_count n more p = if n == 0 then (do (e, q) ← ir8 p; ok (e + more, q)) else ok (n, p)

-- The count of FOM, whose header counts in eights.
unfoldable pub read_fom_count : ℕ → List ℕ → Read (ℕ × List ℕ)
unfolding ir8
read_fom_count n p = if n == 0 then (do (e, q) ← ir8 p; ok (e + 1, q)) else ok (n * 8, p)

-- The orders with their count.
unfoldable pub run_above : Bool → ℕ → ℕ → ℕ × List ℕ → Decoder → Read (List ℕ × Decoder)
unfolding put_above
run_above flip width total t d = do d' ← put_above t.0 flip width total d; ok (t.1, d')

unfoldable pub run_masked : ℕ → ℕ → ℕ × List ℕ → Decoder → Read (List ℕ × Decoder)
unfolding put_masked
run_masked width total t d = do
  d' ← put_masked t.0 0 t.1 width total d
  ok (drop ((t.0 + 7) / 8) t.1, d')

unfoldable pub run_color : ℕ → ℕ → ℕ × List ℕ → Decoder → Read (List ℕ × Decoder)
unfolding put_color ir_pixel
run_color width total t d = do
  (px, q) ← ir_pixel t.1
  d' ← put_color t.0 px width total d
  ok (q, d')

unfoldable pub run_bicolor : ℕ → ℕ → ℕ × List ℕ → Decoder → Read (List ℕ × Decoder)
unfolding put_bicolor ir_pixel
run_bicolor width total t d = do
  (c1, q) ← ir_pixel t.1
  (c2, r) ← ir_pixel q
  d' ← put_bicolor (t.0 * 2) 0 c1 c2 width total d
  ok (r, d')

-- `switch (hdr)`: the forms with a count of two bytes.
unfoldable pub mega_order : ℕ → ℕ → ℕ → List ℕ → Decoder → Read (List ℕ × Decoder)
unfolding ir16 run_above run_masked run_color run_bicolor put_image
mega_order hdr width total p d =
    if hdr == 0xf0
    then (ir16 p >>= λ t. run_above false width total t d)
    else if hdr == 0xf1
    then (ir16 p >>= λ t. run_above true width total t d)
    else if hdr == 0xf2
    then (ir16 p >>= λ t. run_masked width total t d)
    else if hdr == 0xf3
    then (ir16 p >>= λ t. run_color width total t d)
    else if hdr == 0xf4
    then (ir16 p >>= λ t. put_image t.0 width total t.1 d)
    else if hdr == 0xf8
    then (ir16 p >>= λ t. run_bicolor width total t d)
    else err

-- `switch (code)`
unfoldable pub decode_order : ℕ → ℕ → ℕ → List ℕ → Decoder → Read (List ℕ × Decoder)
unfolding read_count read_fom_count mega_order
decode_order hdr width total p d =
    if hdr / 32 == 0
    then (read_count (hdr % 32) 32 p >>= λ t. run_above false width total t d)
    else if hdr / 32 == 1
    then (read_count (hdr % 32) 32 p >>= λ t. run_above true width total t d)
    else if hdr / 32 == 2
    then (read_fom_count (hdr % 32) p >>= λ t. run_masked width total t d)
    else if hdr / 32 == 3
    then (read_count (hdr % 32) 32 p >>= λ t. run_color width total t d)
    else if hdr / 32 == 4
    then (read_count (hdr % 32) 32 p >>= λ t. put_image t.0 width total t.1 d)
    else if hdr / 32 == 7
    then (if ltb hdr 0xf0
        then (read_count (hdr % 16) 16 p >>= λ t. run_bicolor width total t d)
        else mega_order hdr width total p d)
    else err

-- `while (s.pos < s.len)`; every round takes a byte.
unfoldable pub decode_orders : ℕ → ℕ → ℕ → List ℕ → Decoder → Read Decoder
unfolding decode_order
decode_orders fuel width total [] d = ok d
decode_orders zero width total (hdr ∷ p) d = fault
decode_orders (suc fuel) width total (hdr ∷ p) d = do
  (q, d') ← decode_order hdr width total p d
  decode_orders fuel width total q d'

-- What is stored in `dst`. The test against the overflow of `total * 3` keeps its form.
unfoldable pub rle_decompress_24 : ℕ → List ℕ → ℕ → ℕ → Read (List ℕ)
unfolding decode_orders
rle_decompress_24 dst_len src width height =
    if width == 0
      || height == 0
      || ltb ((2 ^ 64 - 1) / 3) (width * height)
      || ltb dst_len (width * height * 3)
    then err
    else do
      d ← decode_orders (length src) width (width * height) src (record { done = []; first = true })
      if length d.done == width * height then ok (pack d.done) else err
