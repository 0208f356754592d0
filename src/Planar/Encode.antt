-- ===== src/Planar/Encode.antt =====
-- src/wire/bitmap_planar.c: the encoder. `err` is the -1 of a buffer that is too small, and
-- `room` stands for `cap - pos`.
use rdpserver.Base.{ℕ, zero, suc, ◌+◌, ◌-◌, ◌*◌, ◌/◌, ◌%◌, Bool, true, false, not, ◌&&◌, ◌||◌}
use rdpserver.Base.{List, [], ◌∷◌, ◌++◌, ltb, leb, ◌==◌, if◌then◌else◌, length, take, drop}
use rdpserver.Base.{Read, ok, err, fault, ◌>>=◌, ◌>>◌, guard, at}

-- PLANAR_DIM_MAX and PLANAR_PIX_MAX
abbrev pub dim_max : ℕ
dim_max = 64

abbrev pub pix_max : ℕ
pix_max = 4096

-- PLANAR_CB
abbrev pub control : ℕ → ℕ → ℕ
control run raw = run % 16 + raw % 16 * 16

-- The difference of a byte to the one above, folded.
abbrev pub fold_delta : ℕ → ℕ
fold_delta ud = if ltb ud 128 then ud * 2 % 256 else ((256 - ud) * 2 - 1) % 256

-- `(uint8_t)(src[x] - prev[x])`
abbrev pub difference : ℕ → ℕ → ℕ
difference s p = (s + 256 - p) % 256

-- One row, with the row above.
unfoldable pub delta_row : List ℕ → List ℕ → List ℕ
delta_row (s ∷ src) (p ∷ prev) = fold_delta (difference s p) ∷ delta_row src prev
delta_row src prev = []

-- `n` rows, with the row above the first.
unfoldable pub delta_rows : ℕ → ℕ → List ℕ → List ℕ → List ℕ
delta_rows zero width prev src = []
delta_rows (suc n) width prev src =
    delta_row (take width src) prev ++ delta_rows n width (take width src) (drop width src)

unfoldable pub delta_encode_plane : List ℕ → ℕ → ℕ → List ℕ
delta_encode_plane src width height =
    take width src ++ delta_rows (height - 1) width (take width src) (drop width src)

-- `memcpy` from the source; reading behind its end is a fault.
abbrev pub copy : ℕ → List ℕ → Read (List ℕ)
copy n src = if leb n (length src) then ok (take n src) else fault

-- A control byte, and the literals that it announces.
unfoldable pub put_chunk : ℕ → ℕ → List ℕ → Read (List ℕ)
put_chunk room cb src = do
  guard (leb 1 room)
  guard (leb (cb / 16) (room - 1))
  lits ← copy (cb / 16) src
  ok (cb ∷ lits)

-- How much of the run the last literal chunk takes along.
abbrev pub taken : ℕ → ℕ
taken run = if ltb 15 run then (if ltb run 18 then 13 else 15) else run

-- The control byte of a round of `while (cRawBytes)`, and the two counts after it.
abbrev pub raw_control : ℕ → ℕ → ℕ
raw_control raw run = if ltb raw 16 then control (taken run) raw else control 0 15

abbrev pub raw_left : ℕ → ℕ
raw_left raw = if ltb raw 16 then 0 else raw - 15

abbrev pub run_left : ℕ → ℕ → ℕ
run_left raw run = if ltb raw 16 then run - taken run else run

-- `while (cRawBytes)`: the bytes, and the run that is left. The fuel is cRawBytes.
unfoldable pub put_raws : ℕ → ℕ → List ℕ → ℕ → ℕ → Read (List ℕ × ℕ)
put_raws zero room src raw run = if raw == 0 then ok ([], run) else fault
put_raws (suc fuel) room src raw run = if raw == 0 then ok ([], run) else do
  chunk ← put_chunk room (raw_control raw run) src
  (rest, left) ←
      put_raws fuel (room - length chunk) (drop (raw_control raw run / 16) src) (raw_left raw)
        (run_left raw run)
  ok (chunk ++ rest, left)

-- The control byte of a round of `while (nRunLength)`, and the count after it.
abbrev pub run_control : ℕ → ℕ
run_control run =
    if ltb 47 run
    then (if ltb run 50 then control 2 13 else control 2 15)
    else if ltb 31 run
    then control 2 (run - 32)
    else if ltb 15 run
    then control 1 (run - 16)
    else control run 0

abbrev pub run_rest : ℕ → ℕ
run_rest run = if ltb 47 run then (if ltb run 50 then run - 45 else run - 47) else 0

-- `while (nRunLength)`. The fuel is nRunLength.
unfoldable pub put_runs : ℕ → ℕ → ℕ → Read (List ℕ)
put_runs zero room run = if run == 0 then ok [] else fault
put_runs (suc fuel) room run = if run == 0 then ok [] else do
  guard (leb 1 room)
  rest ← put_runs fuel (room - 1) (run_rest run)
  ok (run_control run ∷ rest)

-- Behind the test for short runs.
unfoldable pub put_both : List ℕ → ℕ → ℕ → ℕ → Read (List ℕ)
unfolding put_raws put_runs
put_both src raw run room = do
  (bytes, left) ← put_raws raw room src raw run
  more ← put_runs left (room - length bytes) left
  ok (bytes ++ more)

unfoldable pub write_rle_bytes : List ℕ → ℕ → ℕ → ℕ → Read (List ℕ)
write_rle_bytes src raw run room =
    if (raw == 0) && (run == 0)
    then ok []
    else if ltb run 3
    then put_both src (raw + run) 0 room
    else put_both src raw run room

abbrev pub count : Bool → ℕ
count true = 1
count false = 0

-- A run that ends: whether it is written, and the two counts without it.
abbrev pub ends : ℕ → Bool → Bool
ends run same = not (run == 0) && not same

abbrev pub raw_kept : ℕ → ℕ → Bool → ℕ
raw_kept raw run same = if ends run same then (if ltb run 3 then raw + run else 0) else raw

abbrev pub run_kept : ℕ → Bool → ℕ
run_kept run same = if ends run same then 0 else run

-- `while (remaining > 0)` and what stands behind it; `i` is `p - in`, and the first list is what
-- remains.
unfoldable pub scan : List ℕ → List ℕ → ℕ → ℕ → ℕ → ℕ → ℕ → Read (List ℕ)
scan [] src i symbol raw run room =
    if (raw == 0) && (run == 0)
    then ok []
    else write_rle_bytes (drop (i - (raw + run)) src) raw run room
scan (b ∷ rest) src i symbol raw run room = do
  let same = symbol == b
  bytes ←
      (if ends run same && leb 3 run
        then write_rle_bytes (drop (i + 1 - (raw + run + 1)) src) raw run room
        else ok [])
  more ←
      scan rest src (i + 1) b (raw_kept raw run same + count (not same))
        (run_kept run same + count same) (room - length bytes)
  ok (bytes ++ more)

unfoldable pub encode_rle_scanline : List ℕ → ℕ → Read (List ℕ)
unfolding scan
encode_rle_scanline src room = scan src src 0 0 0 0 room

-- The rows of a plane, `n` of them.
unfoldable pub compress_plane : ℕ → ℕ → List ℕ → ℕ → Read (List ℕ)
unfolding encode_rle_scanline
compress_plane zero width delta room = ok []
compress_plane (suc n) width delta room = do
  row ← encode_rle_scanline (take width delta) room
  rest ← compress_plane n width (drop width delta) (room - length row)
  ok (row ++ rest)

-- `plane[i] = src[i * 3 + off]` for `n` pixels.
unfoldable pub channel : ℕ → ℕ → List ℕ → Read (List ℕ)
channel zero off src = ok []
channel (suc n) off src = do v ← at src off; rest ← channel n off (drop 3 src); ok (v ∷ rest)

-- A round of the loop over the channels.
unfoldable pub encode_channel : ℕ → ℕ → ℕ → List ℕ → Read (List ℕ)
unfolding channel compress_plane
encode_channel width height off src = do
  plane ← channel (width * height) off src
  compress_plane height width (delta_encode_plane plane width height) (pix_max * 2)

abbrev pub is_bad_size : ℕ → ℕ → Bool
is_bad_size width height = width == 0 || height == 0 || ltb dim_max width || ltb dim_max height

-- What is stored in `dst`.
unfoldable pub compress_24 : ℕ → List ℕ → ℕ → ℕ → Read (List ℕ)
unfolding encode_channel
compress_24 cap src width height = if is_bad_size width height then err else do
  red ← encode_channel width height 2 src
  green ← encode_channel width height 1 src
  blue ← encode_channel width height 0 src
  if ltb cap (1 + length red + length green + length blue)
      then err
      else ok (0x30 ∷ (red ++ green ++ blue))
