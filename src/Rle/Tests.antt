-- ===== src/Rle/Tests.antt =====
-- Instances of the theorems on src/wire/bitmap_rle.c.
use rdpserver.Base.{
  ℕ, ◌*◌, ◌+◌, ◌≤◌, ◌≡◌, refl, arith, List, [], ◌∷◌, ◌++◌, replicate, length, All, IsByte, ok,
  ◌>>=◌,
}
use rdpserver.Base.{IsSize}
use rdpserver.Rle.Write.{run_header, pack}
use rdpserver.Rle.Encode.{rle_compress_24}
use rdpserver.Rle.Decode.{rle_decompress_24}
use rdpserver.Rle.Rows.{flipped}
use rdpserver.Rle.RoundTrip.{rle_decompress_24-rle_compress_24}

-- Two rows of four pixels, the last one black.
abbrev two_lines : List ℕ
two_lines = replicate 12 5 ++ replicate 12 0

-- With one byte of room the first line that is encoded fills it, and the other is left out.
cut_short : rle_compress_24 1 two_lines 4 2 ≡ ok (4 ∷ [])
unfolding rle_compress_24 run_header
cut_short = refl

-- Three rows with runs of each kind and with literals.
abbrev tile : List ℕ
tile =
    replicate 36 5
    ++ (1 ∷ 2 ∷ 3 ∷ [])
    ++ replicate 33 0
    ++ replicate 12 7
    ++ replicate 12 255
    ++ (1 ∷ 2 ∷ 3 ∷ [])
    ++ replicate 9 0

there_and_back :
    (rle_compress_24 200 tile 12 3 >>= λ out. rle_decompress_24 200 out 12 3)
    ≡ ok (flipped 3 12 tile)
unfolding rle_compress_24 rle_decompress_24 run_header pack
there_and_back = refl

twelve_by_three : IsSize 12 3
twelve_by_three = record {
  wide = omega arith;
  high = omega arith;
  narrow = omega arith;
  low = omega arith;
}

tile-IsByte : All IsByte tile
tile-IsByte = ground arith

rle_decompress_24-rle_compress_24_example :
    (out : List ℕ) × (rle_compress_24 111 tile 12 3 ≡ ok out)
    × (length out ≤ 3 * (3 * 12) + 3)
    × (rle_decompress_24 108 out 12 3 ≡ ok (flipped 3 12 tile))
rle_decompress_24-rle_compress_24_example =
    rle_decompress_24-rle_compress_24 12 3 111 108 tile twelve_by_three refl tile-IsByte
      (omega arith) (omega arith)
