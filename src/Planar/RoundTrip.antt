-- ===== src/Planar/RoundTrip.antt =====
-- src/wire/bitmap_planar.c: an image that was compressed is decompressed to the same bytes.
use rdpserver.Base.{ℕ, zero, suc, ◌+◌, ◌*◌, ◌≤◌, ◌≡◌, refl, ap, arith, true, false}
use mathlib.Core.Path.{subst}
use rdpserver.Base.{
  List, [], ◌∷◌, ◌++◌, append-nil, append_assoc, ltb, if◌then◌else◌, length, All, IsByte,
}
use rdpserver.Base.{length-append, Read, ok, err, IsSize, area_le}
use rdpserver.Planar.Encode.{
  delta_encode_plane, pix_max, channel, encode_channel, is_bad_size, compress_24,
}
use rdpserver.Planar.Decode.{read_plane, merge, decompress_24}
use rdpserver.Planar.Planes.{compress_plane-Encodes}
use rdpserver.Planar.Delta.{length-delta_encode_plane, undo_plane-delta_encode_plane}

-- The planes of a packed image.
channel-merge :
    (n : ℕ) (blue green red : List ℕ)
    → length blue ≡ n
    → length green ≡ n
    → length red ≡ n
    → (channel n 0 (merge blue green red) ≡ ok blue)
      × (channel n 1 (merge blue green red) ≡ ok green)
      × (channel n 2 (merge blue green red) ≡ ok red)
unfolding channel merge
channel-merge zero [] [] [] e f g = (refl, refl, refl)
channel-merge (suc n) (b ∷ blue) (g ∷ green) (r ∷ red) e f h =
    let t = channel-merge n blue green red (omega arith) (omega arith) (omega arith) in
    (rw t.0 refl, rw t.1 refl, rw t.2 refl)
channel-merge zero (b ∷ blue) green red e f g = absurd (omega arith)
channel-merge zero [] (b ∷ green) red e f g = absurd (omega arith)
channel-merge zero [] [] (b ∷ red) e f g = absurd (omega arith)
channel-merge (suc n) [] green red e f g = absurd (omega arith)
channel-merge (suc n) (b ∷ blue) [] red e f g = absurd (omega arith)
channel-merge (suc n) (b ∷ blue) (g ∷ green) [] e f h = absurd (omega arith)

-- The bytes that a plane of `src` is encoded to, and what the decoder makes of them.
record EncodesChannel (m : Read (List ℕ)) (width height : ℕ) (plane : List ℕ) : Type 0 where
  bytes : List ℕ
  made : m ≡ ok bytes
  decoded : (p : List ℕ) → read_plane true width height (bytes ++ p) ≡ ok (plane, p)

encode :
    (width height off : ℕ) (src plane : List ℕ)
    → IsSize width height
    → channel (width * height) off src ≡ ok plane
    → length plane ≡ width * height
    → All IsByte plane
    → EncodesChannel (encode_channel width height off src) width height plane
unfolding encode_channel read_plane
encode width height off src plane s e h b =
    let turned : length plane ≡ height * width = omega (arith, h) in
    let len = length-delta_encode_plane plane width height s.high turned in
    let c =
      compress_plane-Encodes height width (delta_encode_plane plane width height) (pix_max * 2) len
        (omega (arith, area_le width height s)) in
    record {
      bytes = c.bytes;
      made = rw (e, c.made) refl;
      decoded = λ p.
          rw (c.decoded p, undo_plane-delta_encode_plane plane width height s.high turned b) refl;
    }

-- The planes of `n` packed pixels.
record Planes (n : ℕ) (src : List ℕ) : Type 0 where
  blue : List ℕ
  green : List ℕ
  red : List ℕ
  packed : merge blue green red ≡ src
  blue_length : length blue ≡ n
  green_length : length green ≡ n
  red_length : length red ≡ n
  blue_bytes : All IsByte blue
  green_bytes : All IsByte green
  red_bytes : All IsByte red

unpack : (n : ℕ) (src : List ℕ) → length src ≡ n * 3 → All IsByte src → Planes n src
unfolding merge
unpack zero [] e b = record {
  blue = [];
  green = [];
  red = [];
  packed = refl;
  blue_length = refl;
  green_length = refl;
  red_length = refl;
  blue_bytes = tt;
  green_bytes = tt;
  red_bytes = tt;
}
unpack zero (x ∷ src) e b = absurd (omega arith)
unpack (suc n) [] e b = absurd (omega arith)
unpack (suc n) (x ∷ []) e b = absurd (omega arith)
unpack (suc n) (x ∷ y ∷ []) e b = absurd (omega arith)
unpack (suc n) (x ∷ y ∷ z ∷ src) e b =
    let t = unpack n src (omega arith) b.1.1.1 in
    record {
      blue = x ∷ t.blue;
      green = y ∷ t.green;
      red = z ∷ t.red;
      packed = ap (λ r. x ∷ y ∷ z ∷ r) t.packed;
      blue_length = ap suc t.blue_length;
      green_length = ap suc t.green_length;
      red_length = ap suc t.red_length;
      blue_bytes = (b.0, t.blue_bytes);
      green_bytes = (b.1.0, t.green_bytes);
      red_bytes = (b.1.1.0, t.red_bytes);
    }

good_size : (width height : ℕ) → IsSize width height → is_bad_size width height ≡ false
good_size width height s = ground (arith, s.wide, s.high, s.narrow, s.low)

-- For every packed image of at most 64 by 64 pixels there is one compressed form: the encoder
-- refuses it exactly where it does not fit in the buffer and else stores it, and the decoder,
-- given a buffer that holds the image, makes the image of it again.
pub decompress_24-compress_24 :
    (width height cap dst_len : ℕ) (src : List ℕ)
    → IsSize width height
    → length src ≡ width * height * 3
    → All IsByte src
    → width * height * 3 ≤ dst_len
    → (out : List ℕ) × (compress_24 cap src width height
        ≡ (if ltb cap (length out) then err else ok out))
      × (decompress_24 dst_len out width height ≡ ok src)
unfolding compress_24 decompress_24
decompress_24-compress_24 width height cap dst_len src s e b h =
    let t = unpack (width * height) src e b in
    let c =
      channel-merge (width * height) t.blue t.green t.red t.blue_length t.green_length
        t.red_length in
    let red =
      encode width height 2 src t.red s (of_packed 2 t.packed c.2) t.red_length t.red_bytes in
    let green =
      encode width height 1 src t.green s (of_packed 1 t.packed c.1) t.green_length t.green_bytes in
    let blue =
      encode width height 0 src t.blue s (of_packed 0 t.packed c.0) t.blue_length t.blue_bytes in
    let sum : 1 + length red.bytes + length green.bytes + length blue.bytes
        ≡ length (0x30 ∷ ((red.bytes ++ green.bytes) ++ blue.bytes)) =
      omega (
        arith,
        length-append (red.bytes ++ green.bytes) blue.bytes,
        length-append red.bytes green.bytes,
      ) in
    (
      0x30 ∷ ((red.bytes ++ green.bytes) ++ blue.bytes),
      rw (good_size width height s, red.made, green.made, blue.made, sum) refl,
      rw
          (
            good_size width height s,
            some (red.bytes ++ green.bytes ++ blue.bytes),
            enough,
            append_assoc red.bytes green.bytes blue.bytes,
            red.decoded (green.bytes ++ blue.bytes),
            green.decoded blue.bytes,
            last blue,
          )
          (ap (λ x. ok x) t.packed),
    )
  where
    some : (p : List ℕ) → ltb (length (0x30 ∷ p)) 1 ≡ false
    some p = ground arith

    enough : ltb dst_len (width * height * 3) ≡ false
    enough = ground arith

    of_packed :
        (off : ℕ) {plane img : List ℕ}
        → img ≡ src
        → channel (width * height) off img ≡ ok plane
        → channel (width * height) off src ≡ ok plane
    of_packed off {plane = plane} k l = subst (λ x. channel (width * height) off x ≡ ok plane) k l

    last :
        {m : Read (List ℕ)} {plane : List ℕ} (x : EncodesChannel m width height plane)
        → read_plane true width height x.bytes ≡ ok (plane, [])
    last {plane = plane} x =
        subst (λ p. read_plane true width height p ≡ ok (plane, [])) (append-nil x.bytes)
          (x.decoded [])
