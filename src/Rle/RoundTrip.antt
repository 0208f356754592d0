-- ===== src/Rle/RoundTrip.antt =====
-- src/wire/bitmap_rle.c: a tile that was compressed is decompressed to its rows.
use rdpserver.Base.{
  ℕ, zero, suc, ◌+◌, ◌-◌, ◌*◌, ◌/◌, ◌^◌, ◌≤◌, ◌≡◌, refl, sym, ap, ◌∙◌, arith, true, false, ◌||◌,
}
use rdpserver.Base.{none, List, [], append-nil, ltb, ◌==◌, length, All, IsByte, ok, lt→ltb, le→ltb}
use rdpserver.Base.{IsSize, area_le}
use rdpserver.Rle.Write.{pack}
use rdpserver.Rle.Encode.{started, is_bad_tile, rle_compress_24}
use rdpserver.Rle.Decode.{Decoder, decode_orders, rle_decompress_24}
use rdpserver.Rle.Shows.{Shows, Shows-nil, state_of}
use rdpserver.Rle.Invariant.{Holds, written-Holds}
use rdpserver.Rle.Flush.{last_flush-Flushes}
use rdpserver.Rle.Rows.{flipped, encode_lines-Passes}
use native.Mathlib.Nat.{mul_comm}
use mathlib.Core.Path.{subst}

good_tile : (width height : ℕ) → IsSize width height → is_bad_tile width height ≡ false
good_tile width height s = ground (arith, s.wide, s.high, s.narrow, s.low)

started-Holds : (width : ℕ) → Holds width started []
started-Holds width = written-Holds width 0 [] [] (Shows-nil width []) (omega arith) (omega arith)

nothing_left : (fuel width total : ℕ) (d : Decoder) → decode_orders fuel width total [] d ≡ ok d
unfolding decode_orders
nothing_left zero width total d = refl
nothing_left (suc fuel) width total d = refl

-- What shows all pixels of the image is decompressed.
Shows-rle_decompress_24 :
    (width height dst_len : ℕ) (out pixels : List ℕ)
    → IsSize width height
    → length pixels ≡ height * width
    → height * width * 3 ≤ dst_len
    → Shows width out [] pixels
    → rle_decompress_24 dst_len out width height ≡ ok (pack pixels)
unfolding rle_decompress_24
Shows-rle_decompress_24 width height dst_len out pixels s l h g = rw (good, decoded, done) refl
  where
    area : width * height ≡ height * width
    area = mul_comm width height

    good :
        (width == 0
          || height == 0
          || ltb ((2 ^ 64 - 1) / 3) (width * height)
          || ltb dst_len (width * height * 3))
        ≡ false
    good = rw area (ground (arith, s.wide, s.high, area_le width height s, h))

    begun : record { done = []; first = true } ≡ state_of width []
    begun = ap (λ f. record { done = []; first = f }) (sym (lt→ltb 0 width s.wide))

    decoded :
        decode_orders (length out) width (width * height) out (record { done = []; first = true })
        ≡ ok (state_of width pixels)
    decoded =
        let t =
          g.leads (width * height) [] (omega (arith, area, l)) (length out)
            (omega (arith, ap length (append-nil out))) in
        rw begun (
          subst
            (λ q.
              decode_orders (length out) width (width * height) q (state_of width [])
              ≡ ok (state_of width pixels))
            (append-nil out)
            (t.2 ∙ nothing_left t.0 width (width * height) (state_of width pixels)))

    done : (length pixels == width * height) ≡ true
    done = ground (arith, l, area)

-- Every tile of at most 64 by 64 pixels is compressed, when the buffer has three bytes more than
-- it, to at most three bytes more than it; and the decoder, given a buffer that holds the tile,
-- makes the rows of the tile from them, the last row first.
pub rle_decompress_24-rle_compress_24 :
    (width height cap dst_len : ℕ) (src : List ℕ)
    → IsSize width height
    → length src ≡ 3 * (height * width)
    → All IsByte src
    → 3 * (height * width) + 3 ≤ cap
    → 3 * (height * width) ≤ dst_len
    → (out : List ℕ) × (rle_compress_24 cap src width height ≡ ok out)
      × (length out ≤ 3 * (height * width) + 3)
      × (rle_decompress_24 dst_len out width height ≡ ok (flipped height width src))
unfolding rle_compress_24
rle_decompress_24-rle_compress_24 width height cap dst_len src s l b c h =
    let area = area_le width height s in
    let t =
      encode_lines-Passes height cap width src (width * 3) none started [] s.wide
        (omega (arith, area)) (omega arith) (omega (arith, area, s.narrow)) (omega arith) b refl
        (started-Holds width) in
    let f = last_flush-Flushes width t.next t.rows s.wide (omega (arith, t.long, area)) t.holds in
    let room : ltb cap (length f.next.out) ≡ false =
      le→ltb cap (length f.next.out) (omega (arith, f.small, t.long)) in
    (
      f.next.out,
      rw (good_tile width height s, t.made, f.made, room) refl,
      omega (arith, f.small, t.long),
      Shows-rle_decompress_24 width height dst_len f.next.out t.rows s t.long (omega arith) f.shows
          ∙ ap ok t.packed,
    )
