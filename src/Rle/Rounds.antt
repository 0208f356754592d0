-- ===== src/Rle/Rounds.antt =====
-- src/wire/bitmap_rle.c: a round of the loop over a line keeps the invariant of the encoder.
use rdpserver.Base.{ℕ, ◌<◌, ◌≡◌, refl, sym, ap, ◌∙◌, arith, Bool, true, false, ◌||◌}
use rdpserver.Base.{List, [], ◌∷◌, ◌++◌, ◌==◌, if◌then◌else◌, length}
use rdpserver.Base.{Option, none, some, inl, inr, Bool-cases, Read, ok}
use rdpserver.Rle.Write.{white}
use rdpserver.Rle.Encode.{Encoder, fill, mix, fom, encode_pixel, end_line}
use rdpserver.Rle.Shows.{IsPixel, above_of}
use rdpserver.Rle.Counts.{Judged, count_pixel-Holds}
use rdpserver.Rle.Invariant.{Holds}
use mathlib.Core.Path.{subst}
use Prim.Native.Nat.{bit_xor}
use rdpserver.Rle.Ends.{ends-Ended, end_run-Stops}

-- The loop goes on with the invariant.
pub record Reaches (width : ℕ) (pixels : List ℕ) (m : Read Encoder) : Type 0 where
  pub next : Encoder
  pub made : m ≡ ok next
  pub holds : Holds width next pixels

judged :
    (first : Bool) (ypixel px width : ℕ) (e : Encoder) (pixels : List ℕ)
    → (first ≡ true → ypixel ≡ 0)
    → ypixel ≡ above_of width pixels
    → Judged width pixels e.last_pixel px
        (if first then px == 0 else px == ypixel)
        (if first then px == white else px == bit_xor ypixel white)
        (px == e.last_pixel)
        (px == bit_xor ypixel white)
judged first ypixel px width e pixels z a = record {
  filled = λ t. filled first z t ∙ a;
  mixed = λ t. mixed first z t ∙ ap (λ y. bit_xor y white) a;
  colored = λ t. ground (arith, t);
  masked = λ t. elim (Bool-cases (px == bit_xor ypixel white)) [
    | inl m ↦
        let flipped : px ≡ bit_xor ypixel white = ground (arith, m) in
        rw m (flipped ∙ ap (λ y. bit_xor y white) a)
    | inr m ↦ rw m (either first z m t ∙ a)
  ];
}
  where
    filled :
        (b : Bool)
        → (b ≡ true → ypixel ≡ 0)
        → (if b then px == 0 else px == ypixel) ≡ true
        → px ≡ ypixel
    filled true z t = let zero_px : px ≡ 0 = ground (arith, t) in zero_px ∙ sym (z refl)
    filled false z t = ground (arith, t)

    mixed :
        (b : Bool)
        → (b ≡ true → ypixel ≡ 0)
        → (if b then px == white else px == bit_xor ypixel white) ≡ true
        → px ≡ bit_xor ypixel white
    mixed true z t =
        let white_px : px ≡ white = ground (arith, t) in
        white_px ∙ sym (ap (λ y. bit_xor y white) (z refl))
    mixed false z t = ground (arith, t)

    either :
        (b : Bool)
        → (b ≡ true → ypixel ≡ 0)
        → (px == bit_xor ypixel white) ≡ false
        → ((if b then px == 0 else px == ypixel)
            || (if b then px == white else px == bit_xor ypixel white))
          ≡ true
        → px ≡ ypixel
    either b z m t = elim (Bool-cases (if b then px == 0 else px == ypixel)) [
      | inl f ↦ filled b z f
      | inr f ↦ absurd (ground (arith, m, mixed b z (rw f at t)))
    ]

pub encode_pixel-Reaches :
    (first : Bool) (ypixel px width : ℕ) (e : Encoder) (pixels : List ℕ)
    → 0 < width
    → length pixels < 65536
    → IsPixel px
    → (first ≡ true → ypixel ≡ 0)
    → ypixel ≡ above_of width pixels
    → Holds width e pixels
    → Reaches width (pixels ++ px ∷ []) (encode_pixel first ypixel px e)
unfolding encode_pixel
encode_pixel-Reaches first ypixel px width e pixels w l p z a i =
    let j = judged first ypixel px width e pixels z a in
    let t =
      ends-Ended (if first then px == 0 else px == ypixel)
        (if first then px == white else px == bit_xor ypixel white) (px == e.last_pixel) width e
        pixels w l i in
    let c =
      count_pixel-Holds width px (if first then px == 0 else px == ypixel)
        (if first then px == white else px == bit_xor ypixel white) (px == e.last_pixel)
        (px == bit_xor ypixel white) t.next pixels t.holds
        (subst
          (λ r.
            Judged width pixels r px (if first then px == 0 else px == ypixel)
              (if first then px == white else px == bit_xor ypixel white) (px == e.last_pixel)
              (px == bit_xor ypixel white))
          (sym t.kept) j)
        t.stopped p in
    record { next = _; made = t.made (λ e4. ok _); holds = c }

-- Behind the first line nothing is left of three of the runs.
pub end_line-Reaches :
    (last_line : Option (List ℕ)) (width : ℕ) (e : Encoder) (pixels : List ℕ)
    → 0 < width
    → length pixels < 65536
    → Holds width e pixels
    → Reaches width pixels (end_line last_line e)
unfolding end_line
end_line-Reaches (some line) width e pixels w l i = record { next = e; made = refl; holds = i }
end_line-Reaches none width e pixels w l i =
    let a = end_run-Stops fill width e pixels w l i in
    let b = end_run-Stops mix width a.step.next pixels w l a.step.holds in
    let c = end_run-Stops fom width b.step.next pixels w l b.step.holds in
    record {
      next = c.step.next;
      made = rw (a.step.made, b.step.made) c.step.made;
      holds = c.step.holds;
    }
