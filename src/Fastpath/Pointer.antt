-- ===== src/Fastpath/Pointer.antt =====
-- src/wire/fastpath.c: the update with a new pointer. The return value of malloc(3) is a parameter.
use rdpserver.Base.{
  ℕ, zero, suc, ◌+◌, ◌-◌, ◌*◌, ◌/◌, ◌%◌, ◌^◌, Bool, not, ◌||◌, Option, none, some, List, [], ◌∷◌,
  ◌++◌, ltb, leb, ◌==◌, if◌then◌else◌, get_or, set, drop, replicate,
}
use rdpserver.Base.{Read, ok, err, ◌>>=◌, at}
use rdpserver.Buf.{octet}
use rdpserver.Fastpath.Update.{build_update, bytes_of}

-- RDP_FP_UPDATE_POINTER
abbrev pub update_pointer : ℕ
update_pointer = 11

-- The pixels of a row, as BGRA, and their alpha values.
unfoldable pub copy_argb : ℕ → List ℕ → Read (List ℕ × List ℕ)
copy_argb zero src = ok ([], [])
copy_argb (suc n) src = do
  pr ← at src 0
  pg ← at src 1
  pb ← at src 2
  pa ← at src 3
  (xor_row, alphas) ← copy_argb n (drop 4 src)
  ok (pb ∷ pg ∷ pr ∷ pa ∷ xor_row, pa ∷ alphas)

-- `arow[x / 8] |= 0x80 >> (x % 8)` from the pixel `x` on, where the bit is not set yet.
unfoldable pub mark_transparent : ℕ → List ℕ → List ℕ → List ℕ
mark_transparent x [] arow = arow
mark_transparent x (pa ∷ alphas) arow =
    mark_transparent (x + 1) alphas
      (if ltb pa 128 then set arow (x / 8) (get_or arow (x / 8) 0 + 2 ^ (7 - x % 8)) else arow)

abbrev pub and_stride : ℕ → ℕ
and_stride w = (w + 15) / 16 * 2

-- The loop over the rows, from the last of the `n` to the first: both masks.
unfoldable pub pointer_rows : ℕ → List ℕ → ℕ → ℕ → Read (List ℕ × List ℕ)
unfolding copy_argb mark_transparent
pointer_rows zero argb stride w = ok ([], [])
pointer_rows (suc n) argb stride w = do
  (xor_row, alphas) ← copy_argb w (drop (n * stride) argb)
  (xor_rows, and_rows) ← pointer_rows n argb stride w
  ok (xor_row ++ xor_rows, mark_transparent 0 alphas (replicate (and_stride w) 0) ++ and_rows)

-- The hotspot, inside the pointer.
abbrev pub clamped : ℕ → ℕ → ℕ
clamped hot size = if leb size hot then size - 1 else hot

-- TS_POINTERATTRIBUTE
abbrev pub pointer_header : ℕ → ℕ → ℕ → ℕ → ℕ → ℕ → ℕ → List ℕ
pointer_header cache_index hot_x hot_y w h len_and len_xor =
    32
    ∷ 0
    ∷ octet cache_index 0
    ∷ octet cache_index 1
    ∷ octet hot_x 0
    ∷ octet hot_x 1
    ∷ octet hot_y 0
    ∷ octet hot_y 1
    ∷ octet w 0
    ∷ octet w 1
    ∷ octet h 0
    ∷ octet h 1
    ∷ octet len_and 0
    ∷ octet len_and 1
    ∷ octet len_xor 0
    ∷ octet len_xor 1
    ∷ []

unfoldable pub pointer_body : ℕ → ℕ → ℕ → ℕ → ℕ → List ℕ → ℕ → Read (List ℕ)
unfolding pointer_rows
pointer_body cache_index hot_x hot_y w h argb stride = do
  (xor_rows, and_rows) ← pointer_rows h argb stride w
  ok (
      pointer_header cache_index (clamped hot_x w) (clamped hot_y h) w h (and_stride w * h)
        (w * 4 * h)
      ++ (xor_rows ++ and_rows))

-- `argb` is `none` where it is NULL, and `allocated` is false where malloc returns NULL.
unfoldable pub build_pointer_new :
    Bool → List ℕ → ℕ → ℕ → ℕ → ℕ → ℕ → ℕ → Option (List ℕ) → ℕ → Read (List ℕ)
unfolding pointer_body build_update
build_pointer_new allocated out cap cache_index hot_x hot_y w h none stride = err
build_pointer_new allocated out cap cache_index hot_x hot_y w h (some argb) stride =
    if w == 0 || h == 0
    then err
    else if ltb 0xffff (w * 4 * h) || ltb 0xffff (and_stride w * h)
    then err
    else if not allocated
    then err
    else do
      body ← pointer_body cache_index hot_x hot_y w h argb stride
      bytes_of (build_update out cap update_pointer body)
