-- ===== src/Rle/Shows.antt =====
-- src/wire/bitmap_rle.c: what a stretch of the compressed bytes shows behind the pixels so far.
use rdpserver.Base.{
  ℕ, zero, suc, ◌+◌, ◌-◌, ◌%◌, ◌^◌, ◌≤◌, ◌<◌, ◌≡◌, refl, sym, ap, ◌∙◌, arith, false,
}
use rdpserver.Base.{
  List, [], ◌∷◌, ◌++◌, append-nil, append_assoc, ltb, leb, ◌==◌, if◌then◌else◌, length, get_or,
}
use rdpserver.Base.{length-append, inl, inr, Bool-cases, ok, at_lt}
use rdpserver.Rle.Decode.{Decoder, above, put_pixel, decode_order, decode_orders}
use native.Mathlib.Nat.{mod-eq_of_lt, mod_self}

abbrev pub IsPixel : ℕ → Type 0
IsPixel px = px < 2 ^ 24

-- The pixel of the line before, for the next pixel.
abbrev pub above_of : ℕ → List ℕ → ℕ
above_of width done = if ltb (length done) width then 0 else get_or done (length done - width) 0

-- The decoder behind these pixels.
abbrev pub state_of : ℕ → List ℕ → Decoder
state_of width done = record { done = done; first = ltb (length done) width }

pub above_lem :
    (width : ℕ) (done : List ℕ)
    → 0 < width
    → above width (state_of width done) ≡ ok (above_of width done)
unfolding above
above_lem width done h = elim (Bool-cases (ltb (length done) width)) [
  | inl e ↦ rw e refl
  | inr e ↦ rw e (at_lt done (length done - width) (ground arith))
]

-- The flag of the first line falls when its last pixel is put.
pub first_falls :
    (width n : ℕ)
    → 0 < width
    → (if (n + 1) % width == 0 then false else ltb n width) ≡ ltb (n + 1) width
first_falls width n h = elim (Bool-cases (ltb (n + 1) width)) [
  | inl e ↦ let m : (n + 1) % width ≡ n + 1 = mod-eq_of_lt (ground arith) in ground (arith, m, e)
  | inr e ↦ elim (Bool-cases (n + 1 == width)) [
    | inl f ↦
        let m : (n + 1) % width ≡ 0 =
          ap (λ k. k % width) {x = n + 1} {y = width} (ground arith) ∙ mod_self width in
        rw e (ground (arith, m, e))
    | inr f ↦ rw e (ground (arith, e, f))
  ]
]

pub put_pixel_lem :
    (width total px : ℕ) (done : List ℕ)
    → 0 < width
    → length done < total
    → IsPixel px
    → put_pixel width total px (state_of width done) ≡ ok (state_of width (done ++ px ∷ []))
unfolding put_pixel
put_pixel_lem width total px done h k l =
    rw (room, fits, first_falls width (length done) h)
      (ap (λ n. ok (record { done = done ++ px ∷ []; first = ltb n width })) {x = length done + 1}
        {y = length (done ++ px ∷ [])} (omega (arith, length-append done (px ∷ []))))
  where
    room : leb total (length done) ≡ false
    room = ground arith

    fits : px % 2 ^ 24 ≡ px
    fits = omega arith

-- Behind the pixels `s` the bytes show the pixels `out`, whatever follows.
pub record Shows (width : ℕ) (bytes s out : List ℕ) : Type 0 where
  pub leads :
      (total : ℕ) (p : List ℕ)
      → length s + length out ≤ total
      → (fuel : ℕ) → length (bytes ++ p) ≤ fuel
      → (rest : ℕ) × (length p ≤ rest)
        × (decode_orders fuel width total (bytes ++ p) (state_of width s)
            ≡ decode_orders rest width total p (state_of width (s ++ out)))

pub Shows-nil : (width : ℕ) (s : List ℕ) → Shows width [] s []
Shows-nil width s = record { leads = λ total p h fuel k. (fuel, k, rw append-nil refl) }

pub Shows-append :
    (width : ℕ) (front back s xs ys : List ℕ)
    → Shows width front s xs
    → Shows width back (s ++ xs) ys
    → Shows width (front ++ back) s (xs ++ ys)
Shows-append width front back s xs ys f g = record { leads = both }
  where
    both :
        (total : ℕ) (p : List ℕ)
        → length s + length (xs ++ ys) ≤ total
        → (fuel : ℕ) → length ((front ++ back) ++ p) ≤ fuel
        → (rest : ℕ) × (length p ≤ rest)
          × (decode_orders fuel width total ((front ++ back) ++ p) (state_of width s)
              ≡ decode_orders rest width total p (state_of width (s ++ (xs ++ ys))))
    both total p h fuel k =
        let e = append_assoc front back p in
        let a =
          f.leads total (back ++ p) (omega (arith, length-append xs ys)) fuel
            (omega (arith, ap length e)) in
        let b = g.leads total p (omega (arith, length-append xs ys, length-append s xs)) a.0 a.1 in
        (b.0, b.1, rw (e, sym (append_assoc s xs ys)) (a.2 ∙ b.2))

-- One order.
pub order-Shows :
    (width hdr : ℕ) (body s out : List ℕ)
    → ((total : ℕ) (p : List ℕ)
        → length s + length out ≤ total
        → decode_order hdr width total (body ++ p) (state_of width s)
          ≡ ok (p, state_of width (s ++ out)))
    → Shows width (hdr ∷ body) s out
unfolding decode_orders
order-Shows width hdr body s out f = record { leads = round }
  where
    round :
        (total : ℕ) (p : List ℕ)
        → length s + length out ≤ total
        → (fuel : ℕ) → length (hdr ∷ (body ++ p)) ≤ fuel
        → (rest : ℕ) × (length p ≤ rest)
          × (decode_orders fuel width total (hdr ∷ (body ++ p)) (state_of width s)
              ≡ decode_orders rest width total p (state_of width (s ++ out)))
    round total p h zero k = absurd (omega arith)
    round total p h (suc fuel) k =
        (fuel, omega (arith, length-append body p), rw (f total p h) refl)
