-- ===== src/Rle/Runs.antt =====
-- src/wire/bitmap_rle.c: what the encoder writes for a run and for literals, and what it shows.
use rdpserver.Base.{
  ℕ, ◌+◌, ◌-◌, ◌*◌, ◌/◌, ◌≤◌, ◌<◌, ◌≡◌, refl, sym, ap, ◌∙◌, arith, Bool, true, false,
}
use rdpserver.Base.{List, [], ◌∷◌, ◌++◌, append-nil, ◌==◌, length, All}
use rdpserver.Base.{length-append, take-append, drop-append}
use rdpserver.Rle.Write.{pixel_bytes, pack, run_header, fom_header, out_copy_count}
use rdpserver.Rle.Encode.{Counts, Encoder, Kind, fill, mix, color, fom, run, emit}
use rdpserver.Rle.Decode.{run_above, run_masked, run_color}
use rdpserver.Rle.Shows.{IsPixel, Shows, Shows-nil}
use rdpserver.Rle.Orders.{
  IsAbove, IsMasked, put_above_lem, put_masked_lem, put_color_lem, put_image_lem, pixel_of_bytes,
}
use rdpserver.Rle.Bits.{IsMask}
use rdpserver.Rle.Headers.{
  Leads, image_order, fill-Leads, mix-Leads, color-Leads, image-Leads, fom-Leads, length-run_header,
  length-fom_header, Leads-Shows,
}

-- The bytes that `put` appends: at most `limit`, and they show `xs` behind `s`.
pub record Prints (width limit : ℕ) (s xs : List ℕ) (put : List ℕ → List ℕ) : Type 0 where
  pub order : List ℕ
  pub made : (o : List ℕ) → put o ≡ o ++ order
  pub small : length order ≤ limit
  pub shows : Shows width order s xs

above-Shows :
    (flip : Bool) (width : ℕ) (bytes s xs : List ℕ)
    → 0 < width
    → Leads bytes (length xs) (run_above flip)
    → All IsPixel xs
    → IsAbove flip width s xs
    → Shows width (bytes ++ []) s xs
unfolding run_above
above-Shows flip width bytes s xs h l b a =
    Leads-Shows width (length xs) bytes [] s xs (run_above flip) l
      (λ total p k. rw (put_above_lem xs flip width total s h k b a) refl)

color-Shows :
    (width px : ℕ) (bytes s xs : List ℕ)
    → 0 < width
    → Leads bytes (length xs) run_color
    → IsPixel px
    → All (λ x. x ≡ px) xs
    → Shows width (bytes ++ pixel_bytes px) s xs
unfolding run_color
color-Shows width px bytes s xs h l b a =
    Leads-Shows width (length xs) bytes (pixel_bytes px) s xs run_color l
      (λ total p k. rw (pixel_of_bytes px b, put_color_lem xs px width total s h k b a) refl)

masked-Shows :
    (width : ℕ) (bytes mask s xs : List ℕ)
    → 0 < width
    → Leads bytes (length xs) run_masked
    → length mask ≡ (length xs + 7) / 8
    → All IsPixel xs
    → IsMasked mask 0 width s xs
    → Shows width (bytes ++ mask) s xs
unfolding run_masked
masked-Shows width bytes mask s xs h l e b a =
    Leads-Shows width (length xs) bytes mask s xs run_masked l (λ total p k.
      rw (put_masked_lem xs mask p 0 width total s h k (omega arith) b a, sym e, drop-append mask p)
        refl)

image-Shows :
    (width : ℕ) (bytes s xs : List ℕ)
    → 0 < width
    → Leads bytes (length xs) image_order
    → All IsPixel xs
    → Shows width (bytes ++ pack xs) s xs
image-Shows width bytes s xs h l b =
    Leads-Shows width (length xs) bytes (pack xs) s xs image_order l
      (λ total p k. put_image_lem xs p width total s h k b)

pub length-pack : (xs : List ℕ) → length (pack xs) ≡ 3 * length xs
unfolding pack
length-pack [] = refl
length-pack (x ∷ xs) = omega (arith, length-pack xs)

-- The literals.
pub copy-Prints :
    (width n : ℕ) (s lit back temp : List ℕ)
    → 0 < width
    → temp ≡ lit ++ back
    → n ≡ length lit
    → n < 65536
    → All IsPixel lit
    → Prints width (3 * n + 3) s lit (λ o. out_copy_count n o temp)
copy-Prints width n s [] back temp h e f k b = rw f (record {
  order = [];
  made = λ o. sym (append-nil o);
  small = omega arith;
  shows = Shows-nil width s;
})
copy-Prints width n s (x ∷ lit) back temp h e f k b =
    rw (f, e)
      (record {
        order = run_header 4 0xf4 (length (x ∷ lit)) ++ pack (x ∷ lit);
        made = λ o. rw (take-append (x ∷ lit) back) (ground arith);
        small = omega (
          arith,
          length-append (run_header 4 0xf4 (length (x ∷ lit))) (pack (x ∷ lit)),
          length-run_header 4 0xf4 (length (x ∷ lit)),
          length-pack (x ∷ lit),
        );
        shows =
            image-Shows width (run_header 4 0xf4 (length (x ∷ lit))) s (x ∷ lit) h
              (image-Leads (length (x ∷ lit)) (omega arith) (omega arith)) b;
      })

positive : (n : ℕ) → 3 < n → (n == 0) ≡ false
positive n h = ground arith

-- What the counts say of the pixels of a run of each kind.
abbrev pub Ran : Kind → ℕ → Counts → ℕ → List ℕ → List ℕ → Type 0
Ran fill width c last s xs = IsAbove false width s xs
Ran mix width c last s xs = IsAbove true width s xs
Ran color width c last s xs = All (λ x. x ≡ last) xs
Ran fom width c last s xs = IsMasked c.fom_mask 0 width s xs

-- The run.
pub emit-Prints :
    (k : Kind) (width : ℕ) (e : Encoder) (s xs : List ℕ)
    → 0 < width
    → run k e.counts ≡ length xs
    → 3 < length xs
    → length xs < 65536
    → IsMask e.counts.fom_count e.counts.fom_mask
    → IsPixel e.last_pixel
    → All IsPixel xs
    → Ran k width e.counts e.last_pixel s xs
    → Prints width (3 * length xs - 3) s xs (emit k e)
unfolding emit
emit-Prints fill width e s xs h r l k m q b a = rw r (record {
  order = run_header 0 0xf0 (length xs) ++ [];
  made = λ o. rw (positive (length xs) l, append-nil) refl;
  small = rw append-nil (omega (arith, length-run_header 0 0xf0 (length xs)));
  shows =
      above-Shows false width (run_header 0 0xf0 (length xs)) s xs h
        (fill-Leads (length xs) (omega arith) k) b a;
})
emit-Prints mix width e s xs h r l k m q b a = rw r (record {
  order = run_header 1 0xf1 (length xs) ++ [];
  made = λ o. rw (positive (length xs) l, append-nil) refl;
  small = rw append-nil (omega (arith, length-run_header 1 0xf1 (length xs)));
  shows =
      above-Shows true width (run_header 1 0xf1 (length xs)) s xs h
        (mix-Leads (length xs) (omega arith) k) b a;
})
emit-Prints color width e s xs h r l k m q b a = rw r (record {
  order = run_header 3 0xf3 (length xs) ++ pixel_bytes e.last_pixel;
  made = λ o. rw (positive (length xs) l) refl;
  small = omega (
    arith,
    length-run_header 3 0xf3 (length xs),
    length-append (run_header 3 0xf3 (length xs)) (pixel_bytes e.last_pixel),
  );
  shows =
      color-Shows width e.last_pixel (run_header 3 0xf3 (length xs)) s xs h
        (color-Leads (length xs) (omega arith) k) q a;
})
emit-Prints fom width e s xs h r l k m q b a =
    let long : length e.counts.fom_mask ≡ (length xs + 7) / 8 = m.long ∙ ap (λ n. (n + 7) / 8) r in
    rw r (record {
      order = fom_header (length xs) ++ e.counts.fom_mask;
      made = λ o. rw (positive (length xs) l) refl;
      small = omega (
        arith,
        length-fom_header (length xs),
        length-append (fom_header (length xs)) e.counts.fom_mask,
        long,
      );
      shows =
          masked-Shows width (fom_header (length xs)) e.counts.fom_mask s xs h
            (fom-Leads (length xs) (omega arith) k) long b a;
    })
