-- ===== src/Fastpath/Shown.antt =====
-- src/wire/fastpath.c: what a client shows of a rectangle that was sent.
use rdpserver.Base.{
  ℕ, zero, suc, ◌+◌, ◌-◌, ◌*◌, ◌%◌, ◌^◌, ◌≤◌, ◌<◌, ◌≡◌, refl, sym, ap, ◌∙◌, arith, false,
}
use rdpserver.Base.{
  List, [], ◌∷◌, ◌++◌, append_assoc, ltb, ◌==◌, if◌then◌else◌, length, take, drop, get_or,
  replicate, length-append, length-replicate, length-drop, length-take, take-append, drop-append,
  take-length,
}
use rdpserver.Base.{Read, ok, le→ltb}
use rdpserver.Buf.{octet}
use rdpserver.Rle.Decode.{rle_decompress_24}
use rdpserver.Rle.Rows.{flipped}
use rdpserver.Base.{IsSize, area_le, Bool, true, not, ◌&&◌, leb, le→leb, err, fault}
use native.Mathlib.Nat.{mul_comm, mul_assoc}
use rdpserver.Fastpath.Bitmap.{
  padded, copy_pixels, encode_rows, rectangle, data_header, compr_header,
}

-- A field of two bytes.
abbrev field : List ℕ → ℕ → ℕ
field p i = get_or p i 0 + get_or p (i + 1) 0 * 256

-- The first `w` pixels of each of the rows.
abbrev pub clipped : ℕ → ℕ → ℕ → List ℕ → List ℕ
clipped zero wide w p = []
clipped (suc n) wide w p = take (3 * w) p ++ clipped n wide w (drop (3 * wide) p)

-- The sizes of the rectangle, from the fields of its ends.
abbrev extent : ℕ → ℕ → ℕ
extent from to = (to + 2 ^ 16 - from + 1) % 2 ^ 16

abbrev shown_width : List ℕ → ℕ
shown_width p = extent (field p 0) (field p 4)

abbrev shown_height : List ℕ → ℕ
shown_height p = extent (field p 2) (field p 6)

-- What a client shows: the left and the upper end of the rectangle, its width and height, and its
-- pixels.
pub record Picture : Type 0 where
  pub left : ℕ
  pub top : ℕ
  pub width : ℕ
  pub height : ℕ
  pub pixels : List ℕ

abbrev pub placed : ℕ → ℕ → ℕ → ℕ → Read (List ℕ) → Read Picture
placed x y w h (ok p) = ok (record { left = x; top = y; width = w; height = h; pixels = p })
placed x y w h err = err
placed x y w h fault = fault

-- The bytes of a compressed bitmap stand behind TS_CD_HEADER, those of a raw one behind the header.
unfoldable pub decompressed : ℕ → ℕ → ℕ → List ℕ → Read (List ℕ)
decompressed w h n p = rle_decompress_24 (3 * (h * w)) (take n (drop 26 p)) w h

unfoldable pub clipped_rows : ℕ → ℕ → ℕ → ℕ → List ℕ → Read (List ℕ)
clipped_rows wide w h n p = ok (clipped h wide w (take n (drop 18 p)))

-- TS_CD_HEADER: no first row, the length of the body, and the sizes of a row and of the bitmap.
abbrev good_compr_header : List ℕ → ℕ → ℕ → Bool
good_compr_header p w h =
    field p 18 == 0
    && field p 20 == field p 16
    && field p 22 == w * 3
    && field p 24 == w * 3 * h
    && field p 8 == w

-- The length of the raw rows, which are at least as wide as the rectangle.
abbrev good_rows : List ℕ → ℕ → ℕ → Bool
good_rows p w h = leb w (field p 8) && field p 16 == field p 8 * 3 * h

-- A client of 24 bits per pixel that reads every field of the header, refuses what does not agree,
-- decompresses what is compressed, and else takes the rows of the announced width, and of each the
-- part in the rectangle.
abbrev pub shown : List ℕ → Read Picture
shown p =
    let w = shown_width p in
    let h = shown_height p in
    placed (field p 0) (field p 2) w h (
      if not (field p 12 == 24 && field p 10 == h)
      then err
      else if field p 14 == 1
      then (if good_compr_header p w h then decompressed w h (field p 20) p else err)
      else if field p 14 == 0
      then (if good_rows p w h then clipped_rows (field p 8) w h (field p 16) p else err)
      else err)

octets16 : (n : ℕ) → n < 2 ^ 16 → octet n 0 + octet n 1 * 256 ≡ n
octets16 n h = omega arith

extent_lem :
    (x w : ℕ) → x < 2 ^ 16 → 0 < w → w ≤ 64 → extent x ((x + w + (2 ^ 16 - 1)) % 2 ^ 16) ≡ w
extent_lem x w h k l = omega arith

same_number : (n : ℕ) → (n == n) ≡ true
same_number n = ground arith

module _ (x y w h : ℕ) (left : x < 2 ^ 16) (above : y < 2 ^ 16) (tile : IsSize w h) where
  pub shown_compressed :
      (rle : List ℕ)
      → length rle < 2 ^ 16
      → shown (
          rectangle x y w h
          ++ (data_header w h 1 (length rle) ++ (compr_header w h (length rle) ++ rle)))
        ≡ placed x y w h (
            decompressed w h (length rle) (
              rectangle x y w h
              ++ (data_header w h 1 (length rle) ++ (compr_header w h (length rle) ++ rle))))
  shown_compressed rle small =
      rw
        (
          octets16 ((x + w + (2 ^ 16 - 1)) % 2 ^ 16) (omega arith),
          octets16 ((y + h + (2 ^ 16 - 1)) % 2 ^ 16) (omega arith),
          octets16 x left,
          octets16 y above,
          octets16 w (omega (arith, tile.narrow)),
          octets16 h (omega (arith, tile.low)),
          octets16 (length rle) small,
          octets16 (w * 3) (omega (arith, tile.narrow)),
          octets16 (w * 3 * h) (omega (arith, area_le w h tile, scaled)),
          extent_lem x w left tile.wide tile.narrow,
          extent_lem y h above tile.high tile.low,
          same_number w,
          same_number h,
          same_number (length rle),
          same_number (w * 3),
          same_number (w * 3 * h),
        )
        refl
    where
      scaled : w * 3 * h ≡ 3 * (h * w)
      scaled = mul_comm (w * 3) h ∙ (sym (mul_assoc h w 3) ∙ mul_comm (h * w) 3)

  pub shown_raw :
      (wide : ℕ) (rows : List ℕ)
      → wide < 2 ^ 16
      → w ≤ wide
      → wide * 3 * h < 2 ^ 16
      → shown (rectangle x y w h ++ (data_header wide h 0 (wide * 3 * h) ++ rows))
        ≡ placed x y w h (
            clipped_rows wide w h
              (wide * 3 * h)
              (rectangle x y w h ++ (data_header wide h 0 (wide * 3 * h) ++ rows)))
  shown_raw wide rows k m small =
      rw
        (
          octets16 ((x + w + (2 ^ 16 - 1)) % 2 ^ 16) (omega arith),
          octets16 ((y + h + (2 ^ 16 - 1)) % 2 ^ 16) (omega arith),
          octets16 x left,
          octets16 y above,
          octets16 h (omega (arith, tile.low)),
          octets16 (wide * 3 * h) small,
          octets16 wide k,
          extent_lem x w left tile.wide tile.narrow,
          extent_lem y h above tile.high tile.low,
          same_number h,
          same_number (wide * 3 * h),
          le→leb w wide m,
        )
        refl

copy_pixels_lem :
    (w : ℕ) (src : List ℕ) → 3 * w ≤ length src → copy_pixels w src ≡ ok (take (3 * w) src)
unfolding copy_pixels
copy_pixels_lem zero src h = refl
copy_pixels_lem (suc w) [] h = absurd (omega arith)
copy_pixels_lem (suc w) (x ∷ []) h = absurd (omega arith)
copy_pixels_lem (suc w) (x ∷ y ∷ []) h = absurd (omega arith)
copy_pixels_lem (suc w) (x ∷ y ∷ z ∷ src) h = rw (copy_pixels_lem w src (omega arith)) (
    ap (λ k. ok (take k (x ∷ y ∷ z ∷ src))) {x = suc (suc (suc (3 * w)))} {y = 3 * suc w}
      (omega arith))

take-append_eq : (n : ℕ) (xs ys : List ℕ) → length xs ≡ n → take n (xs ++ ys) ≡ xs
take-append_eq n xs ys e = ap (λ k. take k (xs ++ ys)) (sym e) ∙ take-append xs ys

drop-append_eq : (n : ℕ) (xs ys : List ℕ) → length xs ≡ n → drop n (xs ++ ys) ≡ ys
drop-append_eq n xs ys e = ap (λ k. drop k (xs ++ ys)) (sym e) ∙ drop-append xs ys

-- The raw rows, and what is clipped out of them.
pub record Raw (n w : ℕ) (src : List ℕ) : Type 0 where
  pub rows : List ℕ
  pub made : encode_rows n src (w * 3) w ≡ ok rows
  pub long : length rows ≡ n * (3 * padded w)
  pub seen : clipped n (padded w) w rows ≡ flipped n w src

pub encode_rows-Raw : (n w : ℕ) (src : List ℕ) → w ≤ 64 → 3 * (n * w) ≤ length src → Raw n w src
unfolding encode_rows
encode_rows-Raw zero w src h k = record { rows = []; made = refl; long = omega arith; seen = refl }
encode_rows-Raw (suc n) w src h k =
    let t = encode_rows-Raw n w src h (omega (arith, k)) in
    record {
      rows = row ++ (pad ++ t.rows);
      made = rw (no_fault, copied, t.made) (ap ok (append_assoc row pad t.rows));
      long = omega (
        arith,
        length-append row (pad ++ t.rows),
        length-append pad t.rows,
        row_size,
        pad_size,
        t.long,
        wide,
      );
      seen = rw (taken t.rows, dropped t.rows, t.seen) refl;
    }
  where
    row : List ℕ
    row = take (3 * w) (drop (3 * (n * w)) src)

    pad : List ℕ
    pad = replicate (3 * (padded w - w)) 0

    wide : w ≤ padded w
    wide = omega arith

    no_fault : ltb (padded w) w ≡ false
    no_fault = le→ltb (padded w) w wide

    row_size : length row ≡ 3 * w
    row_size =
        omega
          (arith, length-take (3 * w) (drop (3 * (n * w)) src), length-drop (3 * (n * w)) src, k)

    pad_size : length pad ≡ 3 * (padded w - w)
    pad_size = length-replicate (3 * (padded w - w)) 0

    copied : copy_pixels w (drop (n * (w * 3)) src) ≡ ok row
    copied =
        ap (λ i. copy_pixels w (drop i src)) {x = n * (w * 3)} {y = 3 * (n * w)} (omega arith)
        ∙ copy_pixels_lem w (drop (3 * (n * w)) src)
            (omega (arith, length-drop (3 * (n * w)) src, k))

    taken : (rest : List ℕ) → take (3 * w) (row ++ (pad ++ rest)) ≡ row
    taken rest = take-append_eq (3 * w) row (pad ++ rest) row_size

    dropped : (rest : List ℕ) → drop (3 * padded w) (row ++ (pad ++ rest)) ≡ rest
    dropped rest =
        ap (λ r. drop (3 * padded w) r) (sym (append_assoc row pad rest))
        ∙ drop-append_eq (3 * padded w) (row ++ pad) rest
            (omega (arith, length-append row pad, row_size, pad_size, wide))

-- The bytes behind the headers.
pub decompressed_lem :
    (a b c rle : List ℕ) (w h : ℕ)
    → length a ≡ 8
    → length b ≡ 10
    → length c ≡ 8
    → decompressed w h (length rle) (a ++ (b ++ (c ++ rle)))
      ≡ rle_decompress_24 (3 * (h * w)) rle w h
unfolding decompressed
decompressed_lem a b c rle w h e f g =
    ap (λ p. rle_decompress_24 (3 * (h * w)) (take (length rle) (drop 26 p)) w h)
      {x = a ++ (b ++ (c ++ rle))} {y = (a ++ (b ++ c)) ++ rle} regroup
    ∙ rw
        (
          drop-append_eq 26 (a ++ (b ++ c)) rle
              (omega (arith, length-append a (b ++ c), length-append b c)),
          take-length rle,
        )
        refl
  where
    regroup : a ++ (b ++ (c ++ rle)) ≡ (a ++ (b ++ c)) ++ rle
    regroup = ap (λ r. a ++ r) (sym (append_assoc b c rle)) ∙ sym (append_assoc a (b ++ c) rle)

pub clipped_rows_lem :
    (a b rows : List ℕ) (wide w h n : ℕ)
    → length a ≡ 8
    → length b ≡ 10
    → length rows ≡ n
    → clipped_rows wide w h n (a ++ (b ++ rows)) ≡ ok (clipped h wide w rows)
unfolding clipped_rows
clipped_rows_lem a b rows wide w h n e f g =
    ap (λ p. ok (clipped h wide w (take n (drop 18 p)))) (sym (append_assoc a b rows))
    ∙ rw
        (
          drop-append_eq 18 (a ++ b) rows (omega (arith, length-append a b)),
          sym g,
          take-length rows,
        )
        refl
