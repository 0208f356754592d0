-- ===== src/Rle/Lines.antt =====
-- src/wire/bitmap_rle.c: the loop over a line keeps the invariant of the encoder.
use rdpserver.Base.{ℕ, ◌+◌, ◌-◌, ◌≤◌, ◌<◌, ◌≡◌, refl, sym, ap, ◌∙◌, arith, true, false}
use rdpserver.Base.{
  Option, none, some, List, [], ◌∷◌, ◌++◌, append-nil, append_assoc, ltb, length, get_or, All,
}
use rdpserver.Base.{length-append}
use rdpserver.Rle.Encode.{Encoder, is_none, above_pixel, above_rest, encode_pixel, encode_line}
use rdpserver.Rle.Shows.{IsPixel, above_of}
use rdpserver.Rle.Invariant.{Holds}
use rdpserver.Rle.Rounds.{Reaches, encode_pixel-Reaches}
use mathlib.Core.Path.{subst}

-- From one step to those behind it.
Reaches-line :
    (line : List ℕ) (last_line : Option (List ℕ)) (px width : ℕ) (e : Encoder) (pixels : List ℕ)
    → (r : Reaches width
        (pixels ++ px ∷ [])
        (encode_pixel (is_none last_line) (above_pixel last_line) px e))
    → Reaches width ((pixels ++ px ∷ []) ++ line) (encode_line line (above_rest last_line) r.next)
    → Reaches width (pixels ++ px ∷ line) (encode_line (px ∷ line) last_line e)
unfolding encode_line
Reaches-line line last_line px width e pixels r t = record {
  next = t.next;
  made = rw r.made t.made;
  holds = subst (λ s. Holds width t.next s) (append_assoc pixels (px ∷ []) line) t.holds;
}

nil-Reaches :
    (last_line : Option (List ℕ)) (width : ℕ) (e : Encoder) (pixels : List ℕ)
    → Holds width e pixels
    → Reaches width (pixels ++ []) (encode_line [] last_line e)
unfolding encode_line
nil-Reaches last_line width e pixels i = record { next = e; made = refl; holds = rw append-nil i }

-- The first line.
first_line :
    (line : List ℕ) (width : ℕ) (e : Encoder) (pixels : List ℕ)
    → 0 < width
    → length pixels + length line < 65536
    → length pixels + length line ≤ width
    → All IsPixel line
    → Holds width e pixels
    → Reaches width (pixels ++ line) (encode_line line none e)
first_line [] width e pixels w l h b i = nil-Reaches none width e pixels i
first_line (px ∷ line) width e pixels w l h b i =
    let r =
      encode_pixel-Reaches true 0 px width e pixels w (omega arith) b.0 (λ z. refl) (ground arith)
        i in
    Reaches-line line none px width e pixels r (
      first_line line width r.next (pixels ++ px ∷ []) w
        (omega (arith, length-append pixels (px ∷ [])))
        (omega (arith, length-append pixels (px ∷ []))) b.1 r.holds)

get_or-append_next : (front back : List ℕ) (y : ℕ) → get_or (front ++ y ∷ back) (length front) 0 ≡ y
get_or-append_next [] back y = refl
get_or-append_next (x ∷ front) back y = get_or-append_next front back y

-- The pixel above, from the line before.
above_lem :
    (front rest row : List ℕ) (y width : ℕ)
    → length (y ∷ rest) + length row ≡ width
    → above_of width (front ++ ((y ∷ rest) ++ row)) ≡ y
above_lem front rest row y width h =
    let size : length (front ++ ((y ∷ rest) ++ row)) ≡ length front + width =
      length-append front ((y ∷ rest) ++ row) ∙ omega (arith, length-append (y ∷ rest) row) in
    let back : length front + width - width ≡ length front = omega arith in
    let full : ltb (length front + width) width ≡ false = ground arith in
    rw (size, full, back) (get_or-append_next front (rest ++ row) y)

-- A line below another: `rest` is what is left of that, and `row` what is done of this.
next_line :
    (line rest row front : List ℕ) (width : ℕ) (e : Encoder) (pixels : List ℕ)
    → 0 < width
    → length pixels + length line < 65536
    → length line ≡ length rest
    → length rest + length row ≡ width
    → pixels ≡ front ++ (rest ++ row)
    → All IsPixel line
    → Holds width e pixels
    → Reaches width (pixels ++ line) (encode_line line (some rest) e)
next_line [] rest row front width e pixels w l h k f b i = nil-Reaches (some rest) width e pixels i
next_line (px ∷ line) [] row front width e pixels w l h k f b i = absurd (omega arith)
next_line (px ∷ line) (y ∷ rest) row front width e pixels w l h k f b i =
    let r =
      encode_pixel-Reaches false y px width e pixels w (omega arith) b.0
        (λ z. absurd (ground (arith, z)))
        (sym (ap (above_of width) f ∙ above_lem front rest row y width k)) i in
    Reaches-line line (some (y ∷ rest)) px width e pixels r (
      next_line line rest (row ++ px ∷ []) (front ++ y ∷ []) width r.next (pixels ++ px ∷ []) w
        (omega (arith, length-append pixels (px ∷ []))) (omega arith)
        (omega (arith, length-append row (px ∷ []))) (ap (λ s. s ++ px ∷ []) f ∙ moved) b.1 r.holds)
  where
    moved :
        (front ++ ((y ∷ rest) ++ row)) ++ px ∷ [] ≡ (front ++ y ∷ []) ++ (rest ++ (row ++ px ∷ []))
    moved =
        append_assoc front (y ∷ (rest ++ row)) (px ∷ [])
        ∙ ap (λ r. front ++ y ∷ r) (append_assoc rest row (px ∷ []))
        ∙ sym (append_assoc front (y ∷ []) (rest ++ (row ++ px ∷ [])))

-- The line before is the last `width` pixels, and there is none in front of the first.
abbrev pub IsLast : Option (List ℕ) → ℕ → List ℕ → Type 0
IsLast none width pixels = length pixels ≡ 0
IsLast (some line) width pixels =
    (front : List ℕ) × (pixels ≡ front ++ line) × (length line ≡ width)

pub encode_line-Reaches :
    (last_line : Option (List ℕ)) (line : List ℕ) (width : ℕ) (e : Encoder) (pixels : List ℕ)
    → 0 < width
    → length pixels + width < 65536
    → length line ≡ width
    → IsLast last_line width pixels
    → All IsPixel line
    → Holds width e pixels
    → Reaches width (pixels ++ line) (encode_line line last_line e)
encode_line-Reaches none line width e pixels w l h a b i =
    first_line line width e pixels w (omega (arith, h)) (omega (arith, h, a)) b i
encode_line-Reaches (some rest) line width e pixels w l h a b i =
    next_line line rest [] a.0 width e pixels w (omega (arith, h)) (h ∙ sym a.2)
      (omega (arith, a.2)) (a.1 ∙ ap (λ r. a.0 ++ r) (sym (append-nil rest))) b i
