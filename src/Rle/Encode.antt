-- ===== src/Rle/Encode.antt =====
-- src/wire/bitmap_rle.c: the encoder. `bicolor_count`, which is always 0, is left out.
use rdpserver.Base.{
  ℕ, zero, suc, ◌+◌, ◌-◌, ◌*◌, ◌%◌, ◌^◌, Bool, true, false, not, ◌&&◌, ◌||◌, Option, none, some,
}
use rdpserver.Base.{List, [], ◌∷◌, ◌++◌, ltb, leb, ◌==◌, if◌then◌else◌, length, drop}
use rdpserver.Base.{Read, ok, err, ◌>>=◌, at}
use rdpserver.Rle.Write.{
  white, out_fill_count, out_mix_count, out_fom_count, out_color_count, out_copy_count,
}
use Prim.Native.Nat.{bit_xor}

-- `struct count`, with the first `fom_mask_len` bytes of the mask.
pub record Counts : Type 0 where
  pub fill_count : ℕ
  pub mix_count : ℕ
  pub color_count : ℕ
  pub fom_count : ℕ
  pub fom_mask : List ℕ

-- reset_counts
abbrev pub no_counts : Counts
no_counts = record { fill_count = 0; mix_count = 0; color_count = 0; fom_count = 0; fom_mask = [] }

-- The variables of the loops; `temp` is its first `count` pixels.
pub record Encoder : Type 0 where
  pub out : List ℕ
  pub counts : Counts
  pub temp : List ℕ
  pub last_pixel : ℕ

-- The four kinds of runs, for which the code has the same block four times.
pub data Kind : Type 0 where
  fill mix color fom : Kind

abbrev pub run : Kind → Counts → ℕ
run fill c = c.fill_count
run mix c = c.mix_count
run color c = c.color_count
run fom c = c.fom_count

-- The run is longer than 3 and none is longer.
abbrev pub is_due : Kind → Counts → Bool
is_due k c =
    ltb 3 (run k c)
    && leb c.fill_count (run k c)
    && leb c.mix_count (run k c)
    && leb c.color_count (run k c)
    && leb c.fom_count (run k c)

-- The order of the run.
unfoldable pub emit : Kind → Encoder → List ℕ → List ℕ
emit fill e s = out_fill_count e.counts.fill_count s
emit mix e s = out_mix_count e.counts.mix_count s
emit color e s = out_color_count e.counts.color_count s e.last_pixel
emit fom e s = out_fom_count e.counts.fom_count s e.counts.fom_mask

-- The literals in front of the run, and its order.
unfoldable pub write_run : Kind → Encoder → Read Encoder
unfolding emit
write_run k e =
    if ltb (length e.temp) (run k e.counts)
    then err
    else ok (record e {
      out = emit k e (out_copy_count (length e.temp - run k e.counts) e.out e.temp);
      counts = no_counts;
      temp = [];
    })

abbrev pub cleared : Kind → Counts → Counts
cleared fill c = record c { fill_count = 0 }
cleared mix c = record c { mix_count = 0 }
cleared color c = record c { color_count = 0 }
cleared fom c = record c { fom_count = 0; fom_mask = [] }

-- A run that ends here: it is written if it is due, and its count is 0 then.
unfoldable pub end_run : Kind → Encoder → Read Encoder
unfolding write_run
end_run k e = do
  e' ← (if is_due k e.counts then write_run k e else ok e)
  ok (record e' { counts = cleared k e'.counts })

-- `if (!test) { ... }`
abbrev pub end_unless : Bool → Kind → Encoder → Read Encoder
end_unless test k e = if test then ok e else end_run k e

-- `fom_mask[fom_mask_len - 1] |= 1 << n`, where the bit is not set yet.
unfoldable pub set_bit : ℕ → List ℕ → List ℕ
set_bit n [] = []
set_bit n (m ∷ []) = (m + 2 ^ n) ∷ []
set_bit n (m ∷ m' ∷ mask) = m ∷ set_bit n (m' ∷ mask)

-- The mask with one more bit, behind the `n` bits that it has.
unfoldable pub add_bit : Bool → ℕ → List ℕ → List ℕ
unfolding set_bit
add_bit bit n mask =
    let mask' = if n % 8 == 0 then mask ++ 0 ∷ [] else mask in
    if bit then set_bit (n % 8) mask' else mask'

abbrev pub one_if : Bool → ℕ
one_if true = 1
one_if false = 0

-- The counts with one more pixel.
unfoldable pub count_pixel : Bool → Bool → Bool → Bool → Counts → Counts
unfolding add_bit
count_pixel test_fill test_mix test_color is_mix c = record {
  fill_count = c.fill_count + one_if test_fill;
  mix_count = c.mix_count + one_if test_mix;
  color_count = c.color_count + one_if test_color;
  fom_count = c.fom_count + one_if (test_fill || test_mix);
  fom_mask = if test_fill || test_mix then add_bit is_mix c.fom_count c.fom_mask else c.fom_mask;
}

-- A round of the loop over a line; `first`: there is no line before.
unfoldable pub encode_pixel : Bool → ℕ → ℕ → Encoder → Read Encoder
unfolding end_run count_pixel
encode_pixel first ypixel pixel e = do
  let test_fill = if first then pixel == 0 else pixel == ypixel
  let test_mix = if first then pixel == white else pixel == bit_xor ypixel white
  let test_color = pixel == e.last_pixel
  e1 ← end_unless test_fill fill e
  e2 ← end_unless test_mix mix e1
  e3 ← end_unless test_color color e2
  e4 ← end_unless (test_fill || test_mix) fom e3
  ok (record e4 {
    counts = count_pixel test_fill test_mix test_color (pixel == bit_xor ypixel white) e4.counts;
    temp = e4.temp ++ pixel ∷ [];
    last_pixel = pixel;
  })

-- The pixel of the line before, 0 where there is none; and that line behind it.
abbrev pub above_pixel : Option (List ℕ) → ℕ
above_pixel none = 0
above_pixel (some []) = 0
above_pixel (some (y ∷ line)) = y

abbrev pub above_rest : Option (List ℕ) → Option (List ℕ)
above_rest none = none
above_rest (some []) = some []
above_rest (some (y ∷ line)) = some line

abbrev pub is_none : Option (List ℕ) → Bool
is_none none = true
is_none (some line) = false

-- The loop over a line, with what is left of the line before.
unfoldable pub encode_line : List ℕ → Option (List ℕ) → Encoder → Read Encoder
unfolding encode_pixel
encode_line [] last_line e = ok e
encode_line (pixel ∷ line) last_line e = do
  e' ← encode_pixel (is_none last_line) (above_pixel last_line) pixel e
  encode_line line (above_rest last_line) e'

-- Behind the first line the fill, mix and fom runs end.
unfoldable pub end_line : Option (List ℕ) → Encoder → Read Encoder
unfolding end_run
end_line none e = do e1 ← end_run fill e; e2 ← end_run mix e1; end_run fom e2
end_line (some line) e = ok e

-- `in_pixel` over a line of `n` pixels.
unfoldable pub read_line : ℕ → List ℕ → Read (List ℕ)
read_line zero p = ok []
read_line (suc n) p = do
  a ← at p 0
  b ← at p 1
  c ← at p 2
  line ← read_line n (drop 3 p)
  ok ((a + b * 256 + c * 65536) ∷ line)

-- There is no room for what is pending, whatever run it ends with: the loop is left.
abbrev pub is_full : ℕ → Encoder → Bool
is_full cap e =
    let i = length e.out + 3 * length e.temp in
    leb cap (i - 3 * e.counts.color_count)
    && leb cap i
    && leb cap (i - 3 * e.counts.fill_count)
    && leb cap (i - 3 * e.counts.mix_count)
    && leb cap (i - 3 * e.counts.fom_count)

-- The loop over the lines, from the last of the `n` to the first.
unfoldable pub encode_lines : ℕ → ℕ → ℕ → List ℕ → ℕ → Option (List ℕ) → Encoder → Read Encoder
unfolding encode_line end_line read_line
encode_lines zero cap width src out_count last_line e = ok e
encode_lines (suc n) cap width src out_count last_line e =
    if is_full cap e || not (ltb out_count 32768) then ok e else do
      line ← read_line width (drop (3 * (n * width)) src)
      e1 ← encode_line line last_line e
      e2 ← end_line last_line e1
      encode_lines n cap width src (out_count + width * 3) (some line) e2

-- The last run, or literals.
unfoldable pub last_flush : Encoder → Read Encoder
unfolding write_run
last_flush e =
    if is_due fill e.counts
    then write_run fill e
    else if is_due mix e.counts
    then write_run mix e
    else if is_due color e.counts
    then write_run color e
    else if is_due fom e.counts
    then write_run fom e
    else ok (record e { out = out_copy_count (length e.temp) e.out e.temp; temp = [] })

abbrev pub started : Encoder
started = record { out = []; counts = no_counts; temp = []; last_pixel = 0 }

abbrev pub is_bad_tile : ℕ → ℕ → Bool
is_bad_tile width height = width == 0 || height == 0 || ltb 64 width || ltb 64 height

unfoldable pub rle_compress_24 : ℕ → List ℕ → ℕ → ℕ → Read (List ℕ)
unfolding encode_lines last_flush
rle_compress_24 cap src width height = if is_bad_tile width height then err else do
  e ← encode_lines height cap width src (width * 3) none started
  e' ← last_flush e
  if ltb cap (length e'.out) then err else ok e'.out
