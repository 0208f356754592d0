-- ===== src/Utf16/Convert.antt =====
-- The two conversions of src/common/utf16.c on whole strings.
use rdpserver.Base.{ℕ, zero, suc, ◌+◌, ◌%◌, ◌<◌, ◌≤◌, ◌≡◌, refl, ap, ◌∙◌, arith, false}
use rdpserver.Base.{List, [], ◌∷◌, ◌++◌, ◌==◌, length, drop, All, write_at, write_at-append}
use rdpserver.Base.{Read, ok, le→leb, length-append, drop-append}
use rdpserver.Utf16.{
  utf8_decode, utf8_encode, units, utf16_decode, store, to_utf16, utf8_to_utf16le, to_utf8,
  utf16le_to_utf8,
}
use rdpserver.Utf16.Forms.{
  IsUtf8, IsUtf16le, IsText, empty, more, utf8_encode_unique, units_unique, utf8_encode-IsUtf8,
  units-IsUtf16le, text_unique,
}
use rdpserver.Utf16.Scalar.{
  IsScalar, utf8_decode-encode, utf16_decode-units, length-encode, length-units, even-units,
}

-- The bytes of a string of code points in either encoding.
abbrev utf8_bytes : List ℕ → List ℕ
utf8_bytes [] = []
utf8_bytes (c ∷ cs) = utf8_encode c ++ utf8_bytes cs

abbrev utf16_bytes : List ℕ → List ℕ
utf16_bytes [] = []
utf16_bytes (c ∷ cs) = units c ++ utf16_bytes cs

-- The run counted `all`, and stored it at `w` if there was room for it.
pub record Converts (dsize w : ℕ) (dst s : List ℕ) (r : Read (ℕ × List ℕ)) : Type 0 where
  pub final : List ℕ
  pub result : r ≡ ok (w + length s, final)
  pub stored : w + length s ≤ dsize → final ≡ write_at dst w s

store-fits :
    (dsize : ℕ) (dst : List ℕ) (w : ℕ) (s : List ℕ)
    → w + length s ≤ dsize
    → store dsize dst w s ≡ write_at dst w s
unfolding store
store-fits dsize dst w s h = rw (le→leb (w + length s) dsize h)

-- One more piece in front.
Converts-cons :
    (dsize w : ℕ) (dst s t : List ℕ) {r : Read (ℕ × List ℕ)}
    → Converts dsize (w + length s) (store dsize dst w s) t r
    → Converts dsize w dst (s ++ t) r
Converts-cons dsize w dst s t c = record {
  final = c.final;
  result = c.result ∙ ap (λ n. ok (n, c.final)) (omega (arith, length-append s t));
  stored = λ h.
      c.stored (omega (arith, h, length-append s t))
      ∙ ap (λ d. write_at d (w + length s) t)
          (store-fits dsize dst w s (omega (arith, h, length-append s t)))
      ∙ write_at-append dst w (w + length s) s t refl;
}

Converts-nil : (dsize w : ℕ) (dst : List ℕ) → Converts dsize w dst [] (ok (w, dst))
unfolding write_at
Converts-nil dsize w dst = record {
  final = dst;
  result = ap (λ n. ok (n, dst)) (omega arith);
  stored = λ h. refl;
}

to_utf16_step :
    (dsize fuel : ℕ) (p : List ℕ) (w : ℕ) (dst : List ℕ) (cp adv : ℕ)
    → 0 < length p
    → utf8_decode p ≡ ok (cp, adv)
    → to_utf16 dsize (suc fuel) p w dst
      ≡ to_utf16 dsize fuel (drop adv p) (w + length (units cp)) (store dsize dst w (units cp))
unfolding to_utf16
to_utf16_step dsize fuel [] w dst cp adv h e = absurd (omega arith)
to_utf16_step dsize fuel (x ∷ p) w dst cp adv h e = rw e

to_utf16_lem :
    (cs : List ℕ) (dsize fuel w : ℕ) (dst : List ℕ)
    → All IsScalar cs
    → length (utf8_bytes cs) ≤ fuel
    → Converts dsize w dst (utf16_bytes cs) (to_utf16 dsize fuel (utf8_bytes cs) w dst)
unfolding to_utf16
to_utf16_lem [] dsize zero w dst h k = Converts-nil dsize w dst
to_utf16_lem [] dsize (suc fuel) w dst h k = Converts-nil dsize w dst
to_utf16_lem (c ∷ cs) dsize zero w dst h k =
    absurd (omega (arith, k, length-append (utf8_encode c) (utf8_bytes cs), length-encode c h.0))
to_utf16_lem (c ∷ cs) dsize (suc fuel) w dst h k =
    rw
      (
        to_utf16_step dsize fuel (utf8_encode c ++ utf8_bytes cs) w dst c (length (utf8_encode c))
            (omega (arith, length-append (utf8_encode c) (utf8_bytes cs), length-encode c h.0))
            (utf8_decode-encode c (utf8_bytes cs) h.0),
        drop-append (utf8_encode c) (utf8_bytes cs),
      )
      (Converts-cons dsize w dst (units c) (utf16_bytes cs) (
        to_utf16_lem cs dsize fuel (w + length (units c)) (store dsize dst w (units c)) h.1
          (omega (arith, k, length-append (utf8_encode c) (utf8_bytes cs), length-encode c h.0))))

to_utf8_step :
    (dsize fuel : ℕ) (p : List ℕ) (w : ℕ) (dst : List ℕ) (cp adv : ℕ)
    → 1 < length p
    → utf16_decode p ≡ ok (cp, adv)
    → IsScalar cp
    → to_utf8 dsize (suc fuel) p w dst
      ≡ to_utf8 dsize fuel
          (drop adv p)
          (w + length (utf8_encode cp))
          (store dsize dst w (utf8_encode cp))
unfolding to_utf8
to_utf8_step dsize fuel [] w dst cp adv h e s = absurd (omega arith)
to_utf8_step dsize fuel (x ∷ []) w dst cp adv h e s = absurd (omega arith)
to_utf8_step dsize fuel (x ∷ y ∷ p) w dst cp adv h e s =
    rw (e, some_bytes (length (utf8_encode cp)) (length-encode cp s))
  where
    some_bytes : (n : ℕ) → 1 ≤ n → (n == 0) ≡ false
    some_bytes n k = ground arith

to_utf8_lem :
    (cs : List ℕ) (dsize fuel w : ℕ) (dst : List ℕ)
    → All IsScalar cs
    → length (utf16_bytes cs) ≤ fuel
    → Converts dsize w dst (utf8_bytes cs) (to_utf8 dsize fuel (utf16_bytes cs) w dst)
unfolding to_utf8
to_utf8_lem [] dsize zero w dst h k = Converts-nil dsize w dst
to_utf8_lem [] dsize (suc fuel) w dst h k = Converts-nil dsize w dst
to_utf8_lem (c ∷ cs) dsize zero w dst h k =
    absurd (omega (arith, k, length-append (units c) (utf16_bytes cs), length-units c))
to_utf8_lem (c ∷ cs) dsize (suc fuel) w dst h k =
    rw
      (
        to_utf8_step dsize fuel (units c ++ utf16_bytes cs) w dst c (length (units c))
            (omega (arith, length-append (units c) (utf16_bytes cs), length-units c))
            (utf16_decode-units c (utf16_bytes cs) h.0) h.0,
        drop-append (units c) (utf16_bytes cs),
      )
      (Converts-cons dsize w dst (utf8_encode c) (utf8_bytes cs) (
        to_utf8_lem cs dsize fuel (w + length (utf8_encode c)) (store dsize dst w (utf8_encode c))
          h.1 (omega (arith, k, length-append (units c) (utf16_bytes cs), length-units c))))

even_bytes : (cs : List ℕ) → length (utf16_bytes cs) % 2 ≡ 0
even_bytes [] = refl
even_bytes (c ∷ cs) =
    omega (arith, length-append (units c) (utf16_bytes cs), even_bytes cs, even-units c)

utf8_bytes-IsText : (cs : List ℕ) → All IsScalar cs → IsText IsUtf8 cs (utf8_bytes cs)
utf8_bytes-IsText [] h = empty
utf8_bytes-IsText (c ∷ cs) h = more (utf8_encode-IsUtf8 c h.0) (utf8_bytes-IsText cs h.1)

utf16_bytes-IsText : (cs : List ℕ) → All IsScalar cs → IsText IsUtf16le cs (utf16_bytes cs)
utf16_bytes-IsText [] h = empty
utf16_bytes-IsText (c ∷ cs) h = more (units-IsUtf16le c h.0) (utf16_bytes-IsText cs h.1)

-- On the well-formed UTF-8 bytes of any string of scalar values, the conversion to UTF-16LE ends:
-- there is a UTF-16LE form of the string, its number of bytes is returned, also where `dst` is too
-- small for it, and where it is not, that form is what stands in `dst`.
pub utf8_to_utf16le-Converts :
    (cs p dst : List ℕ) (dsize : ℕ)
    → All IsScalar cs
    → IsText IsUtf8 cs p
    → (s : List ℕ) × IsText IsUtf16le cs s × Converts dsize 0 dst s (utf8_to_utf16le dst dsize p)
unfolding utf8_to_utf16le
utf8_to_utf16le-Converts cs p dst dsize h t =
    let same = text_unique utf8_encode utf8_bytes utf8_encode_unique refl (λ c cs. refl) cs p h t in
    (
      utf16_bytes cs,
      utf16_bytes-IsText cs h,
      rw same (to_utf16_lem cs dsize (length (utf8_bytes cs)) 0 dst h (omega arith)),
    )

-- On the UTF-16LE bytes of any string of scalar values, the conversion to UTF-8 ends: there is a
-- well-formed UTF-8 form of the string, its number of bytes is returned, also where `dst` is too
-- small for it, and where it is not, that form is what stands in `dst`.
pub utf16le_to_utf8-Converts :
    (cs p dst : List ℕ) (dsize : ℕ)
    → All IsScalar cs
    → IsText IsUtf16le cs p
    → (s : List ℕ) × IsText IsUtf8 cs s × Converts dsize 0 dst s (utf16le_to_utf8 dst dsize p)
unfolding utf16le_to_utf8
utf16le_to_utf8-Converts cs p dst dsize h t =
    let same = text_unique units utf16_bytes units_unique refl (λ c cs. refl) cs p h t in
    (
      utf8_bytes cs,
      utf8_bytes-IsText cs h,
      rw (same, even_bytes cs)
          (to_utf8_lem cs dsize (length (utf16_bytes cs)) 0 dst h (omega arith)),
    )
