-- ===== src/Planar/Delta.antt =====
-- src/wire/bitmap_planar.c: the difference to the row above, and its undoing.
use rdpserver.Base.{ℕ, zero, suc, ◌-◌, ◌*◌, ◌<◌, ◌≡◌, refl, sym, ap, ◌∙◌, arith}
use rdpserver.Base.{List, [], ◌∷◌, ◌++◌, length, take, drop, All, IsByte}
use rdpserver.Base.{
  length-append, length-take, length-drop, take-append, drop-append, All-take, All-drop,
}
use rdpserver.Planar.Encode.{fold_delta, difference, delta_row, delta_rows, delta_encode_plane}
use rdpserver.Planar.Decode.{unfold_delta, undo_row, undo_rows, undo_plane}
use rdpserver.Planar.Runs.{split_at}

unfold_delta-fold_delta :
    (s p : ℕ) → s < 256 → p < 256 → unfold_delta p (fold_delta (difference s p)) ≡ s
unfold_delta-fold_delta s p h k = ground arith

length-delta_row :
    (src prev : List ℕ) → length src ≡ length prev → length (delta_row src prev) ≡ length prev
unfolding delta_row
length-delta_row [] [] h = refl
length-delta_row [] (p ∷ prev) h = absurd (omega arith)
length-delta_row (s ∷ src) [] h = absurd (omega arith)
length-delta_row (s ∷ src) (p ∷ prev) h = ap suc (length-delta_row src prev (omega arith))

undo_row-delta_row :
    (src prev : List ℕ)
    → length src ≡ length prev
    → All IsByte src
    → All IsByte prev
    → undo_row prev (delta_row src prev) ≡ src
unfolding delta_row undo_row
undo_row-delta_row [] [] h bs bp = refl
undo_row-delta_row [] (p ∷ prev) h bs bp = absurd (omega arith)
undo_row-delta_row (s ∷ src) [] h bs bp = absurd (omega arith)
undo_row-delta_row (s ∷ src) (p ∷ prev) h bs bp =
    rw (unfold_delta-fold_delta s p bs.0 bp.0, undo_row-delta_row src prev (omega arith) bs.1 bp.1)
      refl

take_of : (n : ℕ) (xs ys : List ℕ) → length xs ≡ n → take n (xs ++ ys) ≡ xs
take_of n xs ys h = rw (sym h) (take-append xs ys)

drop_of : (n : ℕ) (xs ys : List ℕ) → length xs ≡ n → drop n (xs ++ ys) ≡ ys
drop_of n xs ys h = rw (sym h) (drop-append xs ys)

length-delta_rows :
    (n width : ℕ) (prev src : List ℕ)
    → length prev ≡ width
    → length src ≡ n * width
    → length (delta_rows n width prev src) ≡ n * width
unfolding delta_rows
length-delta_rows zero width prev src h k = omega arith
length-delta_rows (suc n) width prev src h k =
    let len : length (take width src) ≡ width = omega (arith, length-take width src) in
    omega (
      arith,
      h,
      length-append (delta_row (take width src) prev)
          (delta_rows n width (take width src) (drop width src)),
      length-delta_row (take width src) prev (omega arith),
      length-delta_rows n width (take width src) (drop width src) len
          (omega (arith, length-drop width src)),
    )

undo_rows-delta_rows :
    (n width : ℕ) (prev src : List ℕ)
    → length prev ≡ width
    → length src ≡ n * width
    → All IsByte prev
    → All IsByte src
    → undo_rows n width prev (delta_rows n width prev src) ≡ src
unfolding delta_rows undo_rows
undo_rows-delta_rows zero width prev [] h k bp bs = refl
undo_rows-delta_rows zero width prev (x ∷ xs) h k bp bs = absurd (omega arith)
undo_rows-delta_rows (suc n) width prev src h k bp bs =
    let len : length (take width src) ≡ width = omega (arith, length-take width src) in
    let row = delta_row (take width src) prev in
    let rest = delta_rows n width (take width src) (drop width src) in
    let wide : length row ≡ width = length-delta_row (take width src) prev (omega arith) ∙ h in
    rw
      (
        take_of width row rest wide,
        drop_of width row rest wide,
        undo_row-delta_row (take width src) prev (omega arith) (All-take IsByte width src bs) bp,
        undo_rows-delta_rows n width (take width src) (drop width src) len
            (omega (arith, length-drop width src)) (All-take IsByte width src bs)
            (All-drop IsByte width src bs),
      )
      (split_at width src)

pub length-delta_encode_plane :
    (src : List ℕ) (width height : ℕ)
    → 0 < height
    → length src ≡ height * width
    → length (delta_encode_plane src width height) ≡ height * width
unfolding delta_encode_plane
length-delta_encode_plane src width zero h k = absurd (omega arith)
length-delta_encode_plane src width (suc n) h k =
    let len : length (take width src) ≡ width = omega (arith, length-take width src) in
    rw
      (ap (λ t. delta_rows t width (take width src) (drop width src)) {x = suc n - 1} {y = n}
        (omega arith))
      (omega (
        arith,
        length-append (take width src) (delta_rows n width (take width src) (drop width src)),
        length-delta_rows n width (take width src) (drop width src) len
            (omega (arith, length-drop width src)),
      ))

pub undo_plane-delta_encode_plane :
    (src : List ℕ) (width height : ℕ)
    → 0 < height
    → length src ≡ height * width
    → All IsByte src
    → undo_plane (delta_encode_plane src width height) width height ≡ src
unfolding delta_encode_plane undo_plane
undo_plane-delta_encode_plane src width zero h k b = absurd (omega arith)
undo_plane-delta_encode_plane src width (suc n) h k b =
    let len : length (take width src) ≡ width = omega (arith, length-take width src) in
    let others : length (drop width src) ≡ (suc n - 1) * width =
      omega (arith, length-drop width src)
      ∙ ap (λ t. t * width) {x = n} {y = suc n - 1} (omega arith) in
    let deltas = delta_rows (suc n - 1) width (take width src) (drop width src) in
    rw
      (
        take_of width (take width src) deltas len,
        drop_of width (take width src) deltas len,
        undo_rows-delta_rows (suc n - 1) width (take width src) (drop width src) len others
            (All-take IsByte width src b) (All-drop IsByte width src b),
      )
      (split_at width src)
