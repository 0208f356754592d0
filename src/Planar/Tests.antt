-- ===== src/Planar/Tests.antt =====
-- Instances of the theorems on src/wire/bitmap_planar.c.
use rdpserver.Base.{
  ℕ, ◌≡◌, refl, arith, List, [], ◌∷◌, ltb, if◌then◌else◌, length, All, IsByte, ok, err, IsSize,
}
use rdpserver.Planar.Encode.{compress_24}
use rdpserver.Planar.Decode.{decompress_24}
use rdpserver.Planar.RoundTrip.{decompress_24-compress_24}

-- Two rows of two pixels.
abbrev image : List ℕ
image = 1 ∷ 2 ∷ 3 ∷ 1 ∷ 2 ∷ 3 ∷ 250 ∷ 0 ∷ 9 ∷ 1 ∷ 2 ∷ 255 ∷ []

two_by_two : IsSize 2 2
two_by_two = record {
  wide = omega arith;
  high = omega arith;
  narrow = omega arith;
  low = omega arith;
}

image-IsByte : All IsByte image
image-IsByte = ground arith

decompress_24-compress_24_example :
    (out : List ℕ) × (compress_24 100 image 2 2 ≡ (if ltb 100 (length out) then err else ok out))
    × (decompress_24 12 out 2 2 ≡ ok image)
decompress_24-compress_24_example =
    decompress_24-compress_24 2 2 100 12 image two_by_two refl image-IsByte (omega arith)
