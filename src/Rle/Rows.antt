-- ===== src/Rle/Rows.antt =====
-- src/wire/bitmap_rle.c: the loop over the lines, from the last to the first.
use rdpserver.Base.{
  ℕ, zero, suc, ◌+◌, ◌*◌, ◌/◌, ◌%◌, ◌≤◌, ◌<◌, ◌≡◌, refl, ap, ◌∙◌, arith, true, false,
}
use rdpserver.Base.{
  Option, some, List, [], ◌∷◌, ◌++◌, append-nil, append_assoc, ltb, leb, length, take, drop, All,
  All-drop, IsByte,
}
use rdpserver.Base.{length-append, length-drop, Read, ok}
use rdpserver.Rle.Write.{pack}
use rdpserver.Rle.Encode.{Encoder, read_line, is_full, encode_lines}
use rdpserver.Rle.Shows.{IsPixel}
use rdpserver.Rle.Invariant.{Holds}
use rdpserver.Rle.Rounds.{end_line-Reaches}
use mathlib.Core.Path.{subst}
use rdpserver.Rle.Lines.{IsLast, encode_line-Reaches}

-- The pixels of a line, from its bytes.
record Reads (n : ℕ) (p : List ℕ) : Type 0 where
  line : List ℕ
  made : read_line n p ≡ ok line
  long : length line ≡ n
  range : All IsPixel line
  packed : pack line ≡ take (3 * n) p

read_line-Reads : (n : ℕ) (p : List ℕ) → 3 * n ≤ length p → All IsByte p → Reads n p
unfolding read_line pack
read_line-Reads zero p h b = record {
  line = [];
  made = refl;
  long = refl;
  range = tt;
  packed = refl;
}
read_line-Reads (suc n) [] h b = absurd (omega arith)
read_line-Reads (suc n) (x ∷ []) h b = absurd (omega arith)
read_line-Reads (suc n) (x ∷ y ∷ []) h b = absurd (omega arith)
read_line-Reads (suc n) (x ∷ y ∷ z ∷ p) h b =
    let t = read_line-Reads n p (omega arith) b.1.1.1 in
    record {
      line = (x + y * 256 + z * 65536) ∷ t.line;
      made = rw t.made refl;
      long = ap suc t.long;
      range = (omega (arith, b.0, b.1.0, b.1.1.0), t.range);
      packed =
          rw (bytes.0, bytes.1, bytes.2, t.packed)
            (ap (λ k. take k (x ∷ y ∷ z ∷ p)) {x = suc (suc (suc (3 * n)))} {y = 3 * suc n}
              (omega arith));
    }
  where
    bytes :
        ((x + y * 256 + z * 65536) % 256 ≡ x)
        × ((x + y * 256 + z * 65536) / 256 % 256 ≡ y)
        × ((x + y * 256 + z * 65536) / 65536 % 256 ≡ z)
    bytes = (
      omega (arith, b.0, b.1.0, b.1.1.0),
      omega (arith, b.0, b.1.0, b.1.1.0),
      omega (arith, b.0, b.1.0, b.1.1.0),
    )

-- The rows of an image, the last one first.
abbrev pub flipped : ℕ → ℕ → List ℕ → List ℕ
flipped zero width src = []
flipped (suc n) width src = take (3 * width) (drop (3 * (n * width)) src) ++ flipped n width src

pub pack-append : (xs ys : List ℕ) → pack (xs ++ ys) ≡ pack xs ++ pack ys
unfolding pack
pack-append [] ys = refl
pack-append (x ∷ xs) ys =
    ap (λ r. (x % 256) ∷ (x / 256 % 256) ∷ (x / 65536 % 256) ∷ r) (pack-append xs ys)

not_full :
    (cap width : ℕ) (e : Encoder) (pixels : List ℕ)
    → 3 * length pixels < cap
    → Holds width e pixels
    → is_full cap e ≡ false
not_full cap width e pixels h i =
    let size : length pixels ≡ length i.emitted + length e.temp =
      ap length i.split ∙ length-append i.emitted e.temp in
    let room : leb cap (length e.out + 3 * length e.temp) ≡ false = ground (arith, size, i.small) in
    rw room (ground arith)

-- Behind the loop all rows were read.
pub record Passes (n width : ℕ) (src pixels : List ℕ) (m : Read Encoder) : Type 0 where
  pub next : Encoder
  pub rows : List ℕ
  pub made : m ≡ ok next
  pub holds : Holds width next (pixels ++ rows)
  pub long : length rows ≡ n * width
  pub packed : pack rows ≡ flipped n width src

pub encode_lines-Passes :
    (n cap width : ℕ) (src : List ℕ) (out_count : ℕ) (last_line : Option (List ℕ)) (e : Encoder)
    (pixels : List ℕ)
    → 0 < width
    → length pixels + n * width < 65536
    → 3 * (length pixels + n * width) < cap
    → out_count + 3 * (n * width) < 32768
    → 3 * (n * width) ≤ length src
    → All IsByte src
    → IsLast last_line width pixels
    → Holds width e pixels
    → Passes n width src pixels (encode_lines n cap width src out_count last_line e)
unfolding encode_lines pack
encode_lines-Passes zero cap width src out_count last_line e pixels w l c o h b a i = record {
  next = e;
  rows = [];
  made = refl;
  holds = rw append-nil i;
  long = omega arith;
  packed = refl;
}
encode_lines-Passes (suc n) cap width src out_count last_line e pixels w l c o h b a i =
    let t =
      read_line-Reads width (drop (3 * (n * width)) src)
        (omega (arith, length-drop (3 * (n * width)) src))
        (All-drop IsByte (3 * (n * width)) src b) in
    let r =
      encode_line-Reaches last_line t.line width e pixels w (omega arith) t.long a t.range i in
    let size : length (pixels ++ t.line) ≡ length pixels + width =
      length-append pixels t.line ∙ ap (λ k. length pixels + k) t.long in
    let s =
      end_line-Reaches last_line width r.next (pixels ++ t.line) w (omega (arith, size)) r.holds in
    let u =
      encode_lines-Passes n cap width src (out_count + width * 3) (some t.line) s.next
        (pixels ++ t.line) w (omega (arith, size)) (omega (arith, size)) (omega arith) (omega arith)
        b (pixels, refl, t.long) s.holds in
    record {
      next = u.next;
      rows = t.line ++ u.rows;
      made =
          rw (not_full cap width e pixels (omega arith) i, counted, t.made, r.made, s.made) u.made;
      holds = subst (λ q. Holds width u.next q) (append_assoc pixels t.line u.rows) u.holds;
      long = omega (arith, length-append t.line u.rows, t.long, u.long);
      packed = pack-append t.line u.rows ∙ rw (t.packed, u.packed) refl;
    }
  where
    counted : ltb out_count 32768 ≡ true
    counted = ground (arith, o)
