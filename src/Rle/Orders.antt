-- ===== src/Rle/Orders.antt =====
-- src/wire/bitmap_rle.c: what each order that the encoder writes shows.
use rdpserver.Base.{
  ℕ, zero, suc, ◌+◌, ◌*◌, ◌/◌, ◌%◌, ◌^◌, ◌≤◌, ◌<◌, ◌≡◌, refl, sym, ap, ◌∙◌, arith, Bool, true,
}
use rdpserver.Base.{
  List, [], ◌∷◌, ◌++◌, append-nil, append_assoc, leb, ◌==◌, if◌then◌else◌, length, get_or, All,
}
use rdpserver.Base.{length-append, ok, at_lt}
use rdpserver.Rle.Write.{white, pack}
use rdpserver.Rle.Decode.{put_above, put_masked, put_color, put_image}
use rdpserver.Rle.Shows.{IsPixel, above_of, state_of, above_lem, put_pixel_lem}
use Prim.Native.Nat.{bit_xor}

-- What a pixel of a FILL or, with `flip`, a MIX is.
abbrev pub predicted : Bool → ℕ → List ℕ → ℕ
predicted flip width s = if flip then bit_xor (above_of width s) white else above_of width s

-- Behind `s` each pixel is the predicted one.
abbrev pub IsAbove : Bool → ℕ → List ℕ → List ℕ → Type 0
IsAbove flip width s [] = Unit
IsAbove flip width s (x ∷ xs) = (x ≡ predicted flip width s) × IsAbove flip width (s ++ x ∷ []) xs

abbrev pub bit_at : List ℕ → ℕ → Bool
bit_at mask k = get_or mask (k / 8) 0 / 2 ^ (k % 8) % 2 == 1

-- The same, with the bits of a mask from the bit `k` on.
abbrev pub IsMasked : List ℕ → ℕ → ℕ → List ℕ → List ℕ → Type 0
IsMasked mask k width s [] = Unit
IsMasked mask k width s (x ∷ xs) =
    (x ≡ predicted (bit_at mask k) width s) × IsMasked mask (k + 1) width (s ++ x ∷ []) xs

pub put_above_lem :
    (xs : List ℕ) (flip : Bool) (width total : ℕ) (s : List ℕ)
    → 0 < width
    → length s + length xs ≤ total
    → All IsPixel xs
    → IsAbove flip width s xs
    → put_above (length xs) flip width total (state_of width s) ≡ ok (state_of width (s ++ xs))
unfolding put_above
put_above_lem [] flip width total s h k b a = rw append-nil refl
put_above_lem (x ∷ xs) flip width total s h k b a =
    rw (above_lem width s h, sym a.0, put_pixel_lem width total x s h (omega arith) b.0)
      (put_above_lem xs flip width total (s ++ x ∷ []) h (omega (arith, length-append s (x ∷ [])))
          b.1 a.1
        ∙ ap (λ t. ok (state_of width t)) (append_assoc s (x ∷ []) xs))

get_or-append : (xs ys : List ℕ) (i : ℕ) → i < length xs → get_or (xs ++ ys) i 0 ≡ get_or xs i 0
get_or-append [] ys i h = absurd (omega arith)
get_or-append (x ∷ xs) ys zero h = refl
get_or-append (x ∷ xs) ys (suc i) h = get_or-append xs ys i (omega arith)

pub put_masked_lem :
    (xs mask p : List ℕ) (k width total : ℕ) (s : List ℕ)
    → 0 < width
    → length s + length xs ≤ total
    → k + length xs ≤ 8 * length mask
    → All IsPixel xs
    → IsMasked mask k width s xs
    → put_masked (length xs) k (mask ++ p) width total (state_of width s)
      ≡ ok (state_of width (s ++ xs))
unfolding put_masked
put_masked_lem [] mask p k width total s h l m b a = rw append-nil refl
put_masked_lem (x ∷ xs) mask p k width total s h l m b a =
    rw
      (
        there,
        at_lt (mask ++ p) (k / 8) inside,
        get_or-append mask p (k / 8) (omega arith),
        above_lem width s h,
        sym a.0,
        put_pixel_lem width total x s h (omega arith) b.0,
      )
      (put_masked_lem xs mask p (k + 1) width total (s ++ x ∷ []) h
          (omega (arith, length-append s (x ∷ []))) (omega arith) b.1 a.1
        ∙ ap (λ t. ok (state_of width t)) (append_assoc s (x ∷ []) xs))
  where
    inside : k / 8 < length (mask ++ p)
    inside = omega (arith, length-append mask p)

    there : leb (k / 8 + 1) (length (mask ++ p)) ≡ true
    there = ground (arith, inside)

pub put_color_lem :
    (xs : List ℕ) (px width total : ℕ) (s : List ℕ)
    → 0 < width
    → length s + length xs ≤ total
    → IsPixel px
    → All (λ x. x ≡ px) xs
    → put_color (length xs) px width total (state_of width s) ≡ ok (state_of width (s ++ xs))
unfolding put_color
put_color_lem [] px width total s h k b a = rw append-nil refl
put_color_lem (x ∷ xs) px width total s h k b a =
    rw (put_pixel_lem width total px s h (omega arith) b, a.0)
      (put_color_lem xs px width total (s ++ px ∷ []) h (omega (arith, length-append s (px ∷ []))) b
          a.1
        ∙ ap (λ t. ok (state_of width t)) (append_assoc s (px ∷ []) xs))

pub pixel_of_bytes :
    (px : ℕ) → IsPixel px → px % 256 + px / 256 % 256 * 256 + px / 65536 % 256 * 65536 ≡ px
pixel_of_bytes px h = omega arith

pub put_image_lem :
    (xs p : List ℕ) (width total : ℕ) (s : List ℕ)
    → 0 < width
    → length s + length xs ≤ total
    → All IsPixel xs
    → put_image (length xs) width total (pack xs ++ p) (state_of width s)
      ≡ ok (p, state_of width (s ++ xs))
unfolding put_image pack
put_image_lem [] p width total s h k b = rw append-nil refl
put_image_lem (x ∷ xs) p width total s h k b =
    rw (pixel_of_bytes x b.0, put_pixel_lem width total x s h (omega arith) b.0)
      (put_image_lem xs p width total (s ++ x ∷ []) h (omega (arith, length-append s (x ∷ []))) b.1
        ∙ ap (λ t. ok (p, state_of width t)) (append_assoc s (x ∷ []) xs))
