-- ===== src/Rle/Counts.antt =====
-- src/wire/bitmap_rle.c: the counts go on with a pixel that belongs to their runs.
use rdpserver.Base.{ℕ, ◌+◌, ◌≤◌, ◌<◌, ◌≡◌, refl, sym, ap, ◌∙◌, arith, Bool, true, false, ◌||◌}
use rdpserver.Base.{List, [], ◌∷◌, ◌++◌, append-nil, append_assoc, length, All}
use rdpserver.Base.{length-append, inl, inr, Bool-cases}
use rdpserver.Rle.Encode.{
  Counts, Encoder, Kind, fill, mix, color, fom, run, one_if, count_pixel, add_bit,
}
use rdpserver.Rle.Shows.{IsPixel}
use rdpserver.Rle.Orders.{predicted, IsAbove, IsMasked, bit_at}
use rdpserver.Rle.Bits.{IsMask, add_bit-IsMask, bit_at-add_bit, bit_at-add_bit_earlier}
use rdpserver.Rle.Runs.{Ran}
use rdpserver.Rle.Invariant.{Tail, Tail-zero, Holds}
use mathlib.Core.Path.{subst}

abbrev pub tested : Bool → Bool → Bool → Kind → Bool
tested test_fill test_mix test_color fill = test_fill
tested test_fill test_mix test_color mix = test_mix
tested test_fill test_mix test_color color = test_color
tested test_fill test_mix test_color fom = test_fill || test_mix

-- The tests are right about the pixel `px` behind `pixels`.
pub record Judged (width : ℕ) (pixels : List ℕ) (last px : ℕ)
    (test_fill test_mix test_color is_mix : Bool) : Type 0 where
  pub filled : test_fill ≡ true → px ≡ predicted false width pixels
  pub mixed : test_mix ≡ true → px ≡ predicted true width pixels
  pub colored : test_color ≡ true → px ≡ last
  pub masked : (test_fill || test_mix) ≡ true → px ≡ predicted is_mix width pixels

IsAbove-snoc :
    (xs : List ℕ) (flip : Bool) (width x : ℕ) (s : List ℕ)
    → IsAbove flip width s xs
    → x ≡ predicted flip width (s ++ xs)
    → IsAbove flip width s (xs ++ x ∷ [])
IsAbove-snoc [] flip width x s a e = (e ∙ ap (predicted flip width) (append-nil s), tt)
IsAbove-snoc (y ∷ xs) flip width x s a e = (
  a.0,
  IsAbove-snoc xs flip width x (s ++ y ∷ []) a.1
      (e ∙ ap (predicted flip width) (sym (append_assoc s (y ∷ []) xs))),
)

-- The bits up to `n` are those of another mask.
IsMasked-same :
    (xs mask mask' : List ℕ) (k n width : ℕ) (s : List ℕ)
    → ((j : ℕ) → j < n → bit_at mask' j ≡ bit_at mask j)
    → k + length xs ≤ n
    → IsMasked mask k width s xs
    → IsMasked mask' k width s xs
IsMasked-same [] mask mask' k n width s f h a = tt
IsMasked-same (x ∷ xs) mask mask' k n width s f h a = (
  a.0 ∙ ap (λ b. predicted b width s) (sym (f k (omega arith))),
  IsMasked-same xs mask mask' (k + 1) n width (s ++ x ∷ []) f (omega arith) a.1,
)

IsMasked-snoc :
    (xs mask : List ℕ) (k n width x : ℕ) (s : List ℕ)
    → n ≡ k + length xs
    → IsMasked mask k width s xs
    → x ≡ predicted (bit_at mask n) width (s ++ xs)
    → IsMasked mask k width s (xs ++ x ∷ [])
IsMasked-snoc [] mask k n width x s h a e = (
  e
      ∙ ap (λ j. predicted (bit_at mask j) width (s ++ [])) {x = n} {y = k} (omega arith)
      ∙ ap (predicted (bit_at mask k) width) (append-nil s),
  tt,
)
IsMasked-snoc (y ∷ xs) mask k n width x s h a e = (
  a.0,
  IsMasked-snoc xs mask (k + 1) n width x (s ++ y ∷ []) (omega arith) a.1
      (e ∙ ap (predicted (bit_at mask n) width) (sym (append_assoc s (y ∷ []) xs))),
)

All-snoc :
    (xs : List ℕ) (last x : ℕ) → All (λ y. y ≡ last) xs → x ≡ last → All (λ y. y ≡ x) (xs ++ x ∷ [])
All-snoc [] last x a e = (refl, tt)
All-snoc (y ∷ xs) last x a e = (a.0 ∙ sym e, All-snoc xs last x a.1 e)

module _ (width px last : ℕ) (test_fill test_mix test_color is_mix : Bool) (c : Counts) where
  abbrev counted : Counts
  counted = count_pixel test_fill test_mix test_color is_mix c

  run-counted :
      (k : Kind) → run k counted ≡ run k c + one_if (tested test_fill test_mix test_color k)
  unfolding count_pixel
  run-counted fill = refl
  run-counted mix = refl
  run-counted color = refl
  run-counted fom = refl

  -- A run with the pixel behind it.
  Ran-counted :
      (k : Kind) (s xs pixels : List ℕ)
      → Judged width pixels last px test_fill test_mix test_color is_mix
      → tested test_fill test_mix test_color k ≡ true
      → pixels ≡ s ++ xs
      → run k c ≡ length xs
      → IsMask c.fom_count c.fom_mask
      → Ran k width c last s xs
      → Ran k width counted px s (xs ++ px ∷ [])
  unfolding count_pixel
  Ran-counted fill s xs pixels j t e n m a =
      IsAbove-snoc xs false width px s a (j.filled t ∙ ap (predicted false width) e)
  Ran-counted mix s xs pixels j t e n m a =
      IsAbove-snoc xs true width px s a (j.mixed t ∙ ap (predicted true width) e)
  Ran-counted color s xs pixels j t e n m a = All-snoc xs last px a (j.colored t)
  Ran-counted fom s xs pixels j t e n m a = rw t (
      IsMasked-snoc xs (add_bit is_mix c.fom_count c.fom_mask) 0 c.fom_count width px s
        (omega (arith, n))
        (IsMasked-same xs c.fom_mask (add_bit is_mix c.fom_count c.fom_mask) 0 c.fom_count width s
          (λ i h. bit_at-add_bit_earlier is_mix c.fom_count i c.fom_mask m h) (omega (arith, n)) a)
        (j.masked t
          ∙ ap (predicted is_mix width) e
          ∙ ap (λ b. predicted b width (s ++ xs))
              (sym (bit_at-add_bit is_mix c.fom_count c.fom_mask m))))

  IsMask-counted : IsMask c.fom_count c.fom_mask → IsMask counted.fom_count counted.fom_mask
  unfolding count_pixel
  IsMask-counted m = elim (Bool-cases (test_fill || test_mix)) [
    | inl t ↦ rw t (add_bit-IsMask is_mix c.fom_count c.fom_mask m)
    | inr t ↦
        rw t
          (subst (λ n. IsMask n c.fom_mask) {x = c.fom_count} {y = c.fom_count + 0} (omega arith) m)
  ]

  Tail-counted :
      (k : Kind) (emitted temp pixels : List ℕ)
      → Judged width pixels last px test_fill test_mix test_color is_mix
      → pixels ≡ emitted ++ temp
      → (tested test_fill test_mix test_color k ≡ false → run k c ≡ 0)
      → IsMask c.fom_count c.fom_mask
      → Tail k width c last emitted temp
      → Tail k width counted px emitted (temp ++ px ∷ [])
  Tail-counted k emitted temp pixels j e z m t =
      elim (Bool-cases (tested test_fill test_mix test_color k)) [
        | inl f ↦ record {
          lit = t.lit;
          ran = t.ran ++ px ∷ [];
          split = ap (λ r. r ++ px ∷ []) t.split ∙ append_assoc t.lit t.ran (px ∷ []);
          many = run-counted k ∙ rw f (omega (arith, t.many, length-append t.ran (px ∷ [])));
          same =
              Ran-counted k (emitted ++ t.lit) t.ran pixels j f
                (e ∙ ap (λ r. emitted ++ r) t.split ∙ sym (append_assoc emitted t.lit t.ran)) t.many
                m t.same;
        }
        | inr f ↦
            Tail-zero k width counted px emitted (temp ++ px ∷ [])
              (run-counted k ∙ rw f (omega (arith, z f)))
      ]

All-snoc-IsPixel : (xs : List ℕ) (x : ℕ) → All IsPixel xs → IsPixel x → All IsPixel (xs ++ x ∷ [])
All-snoc-IsPixel [] x a h = (h, tt)
All-snoc-IsPixel (y ∷ xs) x a h = (a.0, All-snoc-IsPixel xs x a.1 h)

pub count_pixel-Holds :
    (width px : ℕ) (test_fill test_mix test_color is_mix : Bool) (e : Encoder) (pixels : List ℕ)
    → Holds width e pixels
    → Judged width pixels e.last_pixel px test_fill test_mix test_color is_mix
    → ((k : Kind) → tested test_fill test_mix test_color k ≡ false → run k e.counts ≡ 0)
    → IsPixel px
    → Holds width
        (record e {
          counts = count_pixel test_fill test_mix test_color is_mix e.counts;
          temp = e.temp ++ px ∷ [];
          last_pixel = px;
        })
        (pixels ++ px ∷ [])
count_pixel-Holds width px test_fill test_mix test_color is_mix e pixels i j z h = record {
  emitted = i.emitted;
  split = ap (λ r. r ++ px ∷ []) i.split ∙ append_assoc i.emitted e.temp (px ∷ []);
  shows = i.shows;
  small = i.small;
  range = All-snoc-IsPixel e.temp px i.range h;
  last = h;
  mask = IsMask-counted width px e.last_pixel test_fill test_mix test_color is_mix e.counts i.mask;
  tails = λ k.
      Tail-counted width px e.last_pixel test_fill test_mix test_color is_mix e.counts k i.emitted
        e.temp pixels j i.split (z k) i.mask (i.tails k);
}
