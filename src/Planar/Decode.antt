-- ===== src/Planar/Decode.antt =====
-- src/wire/bitmap_planar.c: the decoder. A store outside its arrays would be a fault, and so is a
-- loop that outlasts its fuel.
use rdpserver.Base.{ℕ, zero, suc, ◌+◌, ◌-◌, ◌*◌, ◌/◌, ◌%◌, Bool, true, false, not, ◌||◌}
use rdpserver.Base.{List, [], ◌∷◌, ◌++◌, ltb, leb, ◌==◌, if◌then◌else◌, length, take, drop}
use rdpserver.Base.{Read, ok, err, fault, ◌>>=◌, ◌>>◌, guard, at}
use rdpserver.Planar.Encode.{is_bad_size}

-- The literals of a control byte: the source behind them, the last one and the row.
unfoldable pub literals : ℕ → ℕ → List ℕ → ℕ → List ℕ → Read (List ℕ × ℕ × List ℕ)
literals zero width p last row = ok (p, last, row)
literals (suc n) width p last row =
    if leb width (length row)
    then err
    else do v ← at p 0; literals n width (drop 1 p) v (row ++ v ∷ [])

-- The run of a control byte.
unfoldable pub repeats : ℕ → ℕ → ℕ → List ℕ → Read (List ℕ)
repeats zero width last row = ok row
repeats (suc n) width last row =
    if leb width (length row) then err else repeats n width last (row ++ last ∷ [])

-- `run` and `raw` of a control byte.
abbrev pub run_of : ℕ → ℕ
run_of cb =
    if cb % 16 == 1 then cb / 16 % 16 + 16 else if cb % 16 == 2 then cb / 16 % 16 + 32 else cb % 16

abbrev pub raw_of : ℕ → ℕ
raw_of cb = if cb % 16 == 1 || cb % 16 == 2 then 0 else cb / 16 % 16

-- `while (x < width)`, where `x` is the length of the row so far. The row, and the source behind
-- it. Every round takes a byte of the source.
unfoldable pub decode_row : ℕ → ℕ → ℕ → List ℕ → List ℕ → Read (List ℕ × List ℕ)
unfolding literals repeats
decode_row zero width last row p = fault
decode_row (suc fuel) width last row p = if leb width (length row) then ok (row, p) else do
  guard (leb 1 (length p))
  cb ← at p 0
  guard (leb (raw_of cb) (length p - 1))
  (q, v, lits) ← literals (raw_of cb) width (drop 1 p) last row
  full ← repeats (run_of cb) width v lits
  decode_row fuel width v full q

unfoldable pub decode_plane_rle : ℕ → ℕ → List ℕ → Read (List ℕ × List ℕ)
unfolding decode_row
decode_plane_rle zero width p = ok ([], p)
decode_plane_rle (suc n) width p = do
  (row, q) ← decode_row (suc (length p)) width 0 [] p
  (rest, r) ← decode_plane_rle n width q
  ok (row ++ rest, r)

-- `row[x] = (uint8_t)(prev[x] + dv)`
abbrev pub unfold_delta : ℕ → ℕ → ℕ
unfold_delta p d = if d % 2 == 1 then (p + 256 - (d / 2 + 1)) % 256 else (p + d / 2) % 256

unfoldable pub undo_row : List ℕ → List ℕ → List ℕ
undo_row (p ∷ prev) (d ∷ delta) = unfold_delta p d ∷ undo_row prev delta
undo_row prev delta = []

unfoldable pub undo_rows : ℕ → ℕ → List ℕ → List ℕ → List ℕ
undo_rows zero width prev delta = []
undo_rows (suc n) width prev delta =
    let row = undo_row prev (take width delta) in row ++ undo_rows n width row (drop width delta)

-- Undoing the scanline delta encoding.
unfoldable pub undo_plane : List ℕ → ℕ → ℕ → List ℕ
unfolding undo_rows
undo_plane delta width height =
    take width delta ++ undo_rows (height - 1) width (take width delta) (drop width delta)

-- A round of the loop over the planes.
unfoldable pub read_plane : Bool → ℕ → ℕ → List ℕ → Read (List ℕ × List ℕ)
unfolding undo_plane
read_plane true width height p = do
  (delta, q) ← decode_plane_rle height width p
  ok (undo_plane delta width height, q)
read_plane false width height p = do
  guard (leb (width * height) (length p))
  ok (take (width * height) p, drop (width * height) p)

-- `dst[i * 3 + 0]` and so on, from the blue, green and red planes.
unfoldable pub merge : List ℕ → List ℕ → List ℕ → List ℕ
merge (b ∷ blue) (g ∷ green) (r ∷ red) = b ∷ g ∷ r ∷ merge blue green red
merge _ _ _ = []

-- What is stored in `dst`, which has `dst_len` bytes.
unfoldable pub decompress_24 : ℕ → List ℕ → ℕ → ℕ → Read (List ℕ)
unfolding read_plane merge
decompress_24 dst_len src width height =
    if is_bad_size width height || ltb (length src) 1
    then err
    else if ltb dst_len (width * height * 3)
    then err
    else do
      fmt ← at src 0
      let rle = not (fmt / 16 % 2 == 0)
      let na = not (fmt / 32 % 2 == 0)
      if not (fmt % 16 == 0) || not (fmt / 8 % 2 == 0) || not na then err else (do
        (red, p) ← read_plane rle width height (drop 1 src)
        (green, q) ← read_plane rle width height p
        (blue, r) ← read_plane rle width height q
        ok (merge blue green red))
