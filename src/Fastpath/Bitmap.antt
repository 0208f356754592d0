-- ===== src/Fastpath/Bitmap.antt =====
-- src/wire/fastpath.c: a rectangle of the screen as a bitmap update. The result of a function is
-- what it stores from `dst` on, whose length it returns. The frame is 24 bits per pixel, top down.
use rdpserver.Base.{
  not, ℕ, zero, suc, ◌+◌, ◌-◌, ◌*◌, ◌/◌, ◌%◌, ◌^◌, Bool, ◌&&◌, Option, none, some, List, [], ◌∷◌,
  ◌++◌, ltb, leb, ◌==◌, if◌then◌else◌, length, drop, replicate,
}
use rdpserver.Base.{Read, ok, err, fault, ◌>>=◌, at}
use rdpserver.Buf.{Buf, init, finish, octet}
use rdpserver.Buf.Outcomes.{written}
use rdpserver.Rle.Encode.{rle_compress_24}
use rdpserver.Fastpath.Update.{
  write_header, max_packet_size, fragment_single, update_bitmap, update_header,
}

-- `(uint16_t)((w + 3) & ~3u)`
abbrev pub padded : ℕ → ℕ
padded w = (w + 3) / 4 * 4 % 2 ^ 16

-- The loop over the `n` pixels of a row.
unfoldable pub copy_pixels : ℕ → List ℕ → Read (List ℕ)
copy_pixels zero src = ok []
copy_pixels (suc n) src = do
  b ← at src 0
  g ← at src 1
  r ← at src 2
  row ← copy_pixels n (drop 3 src)
  ok (b ∷ g ∷ r ∷ row)

-- The loop over the rows, from the last of the `n` to the first. A row of more pixels than the
-- padded width would be stored over the next one: that is a fault.
unfoldable pub encode_rows : ℕ → List ℕ → ℕ → ℕ → Read (List ℕ)
unfolding copy_pixels
encode_rows zero src stride w = ok []
encode_rows (suc n) src stride w = if ltb (padded w) w then fault else do
  row ← copy_pixels w (drop (n * stride) src)
  rows ← encode_rows n src stride w
  ok (row ++ replicate (3 * (padded w - w)) 0 ++ rows)

unfoldable pub encode_bitmap_pixels : List ℕ → ℕ → ℕ → ℕ → Read (List ℕ)
unfolding encode_rows
encode_bitmap_pixels src stride w h = encode_rows h src stride w

-- What the codec made, `none` where it returned -1.
abbrev pub attempted : Read (List ℕ) → Read (Option (List ℕ))
attempted (ok rle) = ok (some rle)
attempted err = ok none
attempted fault = fault

-- The size of `rle`.
abbrev pub rle_size : ℕ
rle_size = 64 * 64 * 3 + 256

-- The first condition of the compressed form, and the call of the codec.
unfoldable pub try_rle : Bool → ℕ → ℕ → List ℕ → ℕ → Read (Option (List ℕ))
try_rle rle_ok w h pixels stride =
    if rle_ok && leb 1 w && leb w 64 && leb 1 h && leb h 64 && (stride == w * 3)
    then attempted (rle_compress_24 rle_size pixels w h)
    else ok none

-- The first 8 bytes of TS_BITMAP_DATA: the rectangle, whose ends are `(uint16_t)(x + w - 1)` and
-- `(uint16_t)(y + h - 1)`.
abbrev pub rectangle : ℕ → ℕ → ℕ → ℕ → List ℕ
rectangle x y w h =
    let r2 = (x + w + (2 ^ 16 - 1)) % 2 ^ 16 in
    let b2 = (y + h + (2 ^ 16 - 1)) % 2 ^ 16 in
    octet x 0
    ∷ octet x 1
    ∷ octet y 0
    ∷ octet y 1
    ∷ octet r2 0
    ∷ octet r2 1
    ∷ octet b2 0
    ∷ octet b2 1
    ∷ []

-- The other 10 bytes.
abbrev pub data_header : ℕ → ℕ → ℕ → ℕ → List ℕ
data_header w h flags n =
    octet w 0 ∷ octet w 1 ∷ octet h 0 ∷ octet h 1 ∷ 24 ∷ 0 ∷ flags ∷ 0 ∷ octet n 0 ∷ octet n 1 ∷ []

-- TS_CD_HEADER
abbrev pub compr_header : ℕ → ℕ → ℕ → List ℕ
compr_header w h n =
    0
    ∷ 0
    ∷ octet n 0
    ∷ octet n 1
    ∷ octet (w * 3) 0
    ∷ octet (w * 3) 1
    ∷ octet (w * 3 * h) 0
    ∷ octet (w * 3 * h) 1
    ∷ []

unfoldable pub write_compressed : ℕ → ℕ → ℕ → ℕ → ℕ → List ℕ → Read (List ℕ)
write_compressed cap x y w h rle =
    if ltb cap (18 + 8 + length rle)
    then err
    else ok (
        rectangle x y w h
        ++ (data_header w h 1 (length rle) ++ (compr_header w h (length rle) ++ rle)))

unfoldable pub write_raw : ℕ → ℕ → ℕ → ℕ → ℕ → List ℕ → ℕ → Read (List ℕ)
unfolding encode_bitmap_pixels
write_raw cap x y w h pixels stride =
    let pixel_bytes = padded w * 3 * h in
    if ltb 0xffff (18 + pixel_bytes) then err else if ltb cap (18 + pixel_bytes) then err else do
      rows ← encode_bitmap_pixels pixels stride w h
      ok (rectangle x y w h ++ (data_header (padded w) h 0 pixel_bytes ++ rows))

-- The compressed form where the codec has made one that is smaller.
unfoldable pub write_either : Option (List ℕ) → ℕ → ℕ → ℕ → ℕ → ℕ → List ℕ → ℕ → Read (List ℕ)
unfolding write_compressed write_raw
write_either none cap x y w h pixels stride = write_raw cap x y w h pixels stride
write_either (some rle) cap x y w h pixels stride =
    if ltb (length rle + 8) (padded w * 3 * h)
    then write_compressed cap x y w h rle
    else write_raw cap x y w h pixels stride

-- rdp_fp_allow_rle_compress: the new value of `g_fp_rle_ok`.
abbrev pub allow_rle_compress : ℕ → Bool
allow_rle_compress on = not (on == 0)

-- `rle_ok` is `g_fp_rle_ok`.
unfoldable pub write_bitmap_data : Bool → ℕ → ℕ → ℕ → ℕ → ℕ → List ℕ → ℕ → Read (List ℕ)
unfolding try_rle write_either
write_bitmap_data rle_ok cap x y w h pixels stride =
    if ltb cap 18
    then err
    else do rle ← try_rle rle_ok w h pixels stride; write_either rle cap x y w h pixels stride

-- TS_UPDATE_BITMAP with one rectangle.
abbrev pub bitmap_body : List ℕ → List ℕ
bitmap_body bd = 1 ∷ 0 ∷ 1 ∷ 0 ∷ bd

unfoldable pub build_bitmap_body : Bool → ℕ → ℕ → ℕ → ℕ → ℕ → List ℕ → ℕ → Read (List ℕ)
unfolding write_bitmap_data
build_bitmap_body rle_ok cap x y w h pixels stride = if ltb cap 4 then err else do
  bd ← write_bitmap_data rle_ok (cap - 4) x y w h pixels stride
  if ltb 0xffff (length (bitmap_body bd)) then err else ok (bitmap_body bd)

-- `total`, in the form that it has there.
abbrev pub update_size : ℕ → ℕ
update_size body_size =
    let inner = 3 + body_size in if ltb inner (0x80 - 2) then 1 + 1 + inner else 1 + 2 + inner

-- The headers in `hdr`, in front of the body.
unfoldable pub prefix : ℕ → List ℕ → Option Buf → Read (List ℕ)
prefix cap body none = err
prefix cap body (some hdr) =
    if ltb cap (hdr.pos + 3 + length body)
    then err
    else ok (
        written hdr
        ++ (update_header update_bitmap fragment_single
            ∷ octet (length body) 0
            ∷ octet (length body) 1
            ∷ body))

unfoldable pub build_bitmap_update : Bool → ℕ → ℕ → ℕ → ℕ → ℕ → List ℕ → ℕ → Read (List ℕ)
unfolding write_bitmap_data write_header prefix
build_bitmap_update rle_ok cap x y w h pixels stride = if ltb cap 8 then err else do
  bd ← write_bitmap_data rle_ok (cap - 8) x y w h pixels stride
  if ltb 0xffff (length (bitmap_body bd))
      then err
      else if ltb max_packet_size (update_size (length (bitmap_body bd)))
      then err
      else prefix cap (bitmap_body bd)
          (finish (write_header (update_size (length (bitmap_body bd))) (init (replicate 4 0) 4)))
