-- ===== src/Rle/Write.antt =====
-- src/wire/bitmap_rle.c: the orders that the encoder writes. The output stream is the list of all bytes
-- put into it: `s.pos` is its length, and `s.ovf` says that it is longer than `cap`.
use rdpserver.Base.{ℕ, ◌+◌, ◌-◌, ◌*◌, ◌/◌, ◌%◌, ◌&&◌}
use rdpserver.Base.{List, [], ◌∷◌, ◌++◌, ltb, ◌==◌, if◌then◌else◌, take}

-- The three bytes of a pixel, and those of several.
abbrev pub pixel_bytes : ℕ → List ℕ
pixel_bytes px = (px % 256) ∷ (px / 256 % 256) ∷ (px / 65536 % 256) ∷ []

unfoldable pub pack : List ℕ → List ℕ
pack [] = []
pack (px ∷ pixels) = pixel_bytes px ++ pack pixels

-- `mix`, the foreground.
abbrev pub white : ℕ
white = 0xffffff

-- What every order but `out_fom_count` begins with: the count in the header, in a byte, or in two.
unfoldable pub run_header : ℕ → ℕ → ℕ → List ℕ
run_header code mega n =
    if ltb n 32
    then (code * 32 + n) ∷ []
    else if ltb n 288
    then (code * 32) ∷ (n - 32) ∷ []
    else mega ∷ (n % 256) ∷ (n / 256 % 256) ∷ []

unfoldable pub fom_header : ℕ → List ℕ
fom_header n =
    if n % 8 == 0 && ltb n 249
    then (0x40 + n / 8) ∷ []
    else if ltb n 256
    then 0x40 ∷ (n - 1) ∷ []
    else 0xf2 ∷ (n % 256) ∷ (n / 256 % 256) ∷ []

abbrev pub out_fill_count : ℕ → List ℕ → List ℕ
out_fill_count n s = if n == 0 then s else s ++ run_header 0 0xf0 n

abbrev pub out_mix_count : ℕ → List ℕ → List ℕ
out_mix_count n s = if n == 0 then s else s ++ run_header 1 0xf1 n

-- The mask is the first `mask_len` bytes of it.
abbrev pub out_fom_count : ℕ → List ℕ → List ℕ → List ℕ
out_fom_count n s mask = if n == 0 then s else s ++ (fom_header n ++ mask)

abbrev pub out_color_count : ℕ → List ℕ → ℕ → List ℕ
out_color_count n s color = if n == 0 then s else s ++ (run_header 3 0xf3 n ++ pixel_bytes color)

abbrev pub out_copy_count : ℕ → List ℕ → List ℕ → List ℕ
out_copy_count n s temp = if n == 0 then s else s ++ (run_header 4 0xf4 n ++ pack (take n temp))
