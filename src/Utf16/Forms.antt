-- ===== src/Utf16/Forms.antt =====
-- The encoding forms of Unicode, as the standard defines them by the bits of a code point, and what
-- src/common/utf16.c makes of them.
use rdpserver.Base.{
  ℕ, ◌+◌, ◌*◌, ◌/◌, ◌%◌, ◌≤◌, ◌<◌, ◌≡◌, sym, ap, ◌∙◌, ◌-◌, arith, Bool-cases, inl, inr, ltb, leb,
  ltb→lt, ltb→le, leb→le, true,
}
use rdpserver.Base.{List, [], ◌∷◌, ◌++◌, All}
use rdpserver.Utf16.{utf8_encode, units}
use rdpserver.Utf16.Scalar.{IsScalar}

-- The well-formed UTF-8 sequence of a scalar value: the bits in groups of six behind the first byte,
-- in the shortest form.
pub data IsUtf8 (cp : ℕ) : List ℕ → Type 0 where
  one : cp < 0x80 → IsUtf8 cp (cp ∷ [])
  two :
      (a b : ℕ)
      → b < 64
      → 0x80 ≤ cp
      → cp < 0x800
      → cp ≡ a * 64 + b
      → IsUtf8 cp ((0xc0 + a) ∷ (0x80 + b) ∷ [])
  three :
      (a b c : ℕ)
      → b < 64
      → c < 64
      → 0x800 ≤ cp
      → cp < 0x10000
      → cp ≡ a * 64 * 64 + b * 64 + c
      → IsUtf8 cp ((0xe0 + a) ∷ (0x80 + b) ∷ (0x80 + c) ∷ [])
  four :
      (a b c d : ℕ)
      → b < 64
      → c < 64
      → d < 64
      → 0x10000 ≤ cp
      → cp ≡ a * 64 * 64 * 64 + b * 64 * 64 + c * 64 + d
      → IsUtf8 cp ((0xf0 + a) ∷ (0x80 + b) ∷ (0x80 + c) ∷ (0x80 + d) ∷ [])

-- The UTF-16LE bytes of a scalar value: one unit, or the units of a surrogate pair with ten bits
-- each, the low byte of a unit first. The surrogates are 0xd800 + a and 0xdc00 + b.
pub data IsUtf16le (cp : ℕ) : List ℕ → Type 0 where
  unit : (lo hi : ℕ) → lo < 256 → hi < 256 → cp ≡ hi * 256 + lo → IsUtf16le cp (lo ∷ hi ∷ [])
  pair :
      (a b lo1 hi1 lo2 hi2 : ℕ)
      → a < 1024
      → b < 1024
      → lo1 < 256
      → lo2 < 256
      → cp ≡ 0x10000 + a * 1024 + b
      → 0xd800 + a ≡ hi1 * 256 + lo1
      → 0xdc00 + b ≡ hi2 * 256 + lo2
      → IsUtf16le cp (lo1 ∷ hi1 ∷ lo2 ∷ hi2 ∷ [])

-- A text in a form is the sequences of its scalar values in order.
pub data IsText (F : ℕ → List ℕ → Type 0) : List ℕ → List ℕ → Type 0 where
  empty : IsText F [] []
  more : {c : ℕ} {cs s t : List ℕ} → F c s → IsText F cs t → IsText F (c ∷ cs) (s ++ t)

pub utf8_encode_unique : (cp : ℕ) (s : List ℕ) → IsScalar cp → IsUtf8 cp s → s ≡ utf8_encode cp
unfolding utf8_encode
utf8_encode_unique cp _ v (one h) = ground (arith, v.plain, v.within)
utf8_encode_unique cp _ v (two a b h k l e) = ground (arith, v.plain, v.within)
utf8_encode_unique cp _ v (three a b c h k l m e) = ground (arith, v.plain, v.within)
utf8_encode_unique cp _ v (four a b c d h k l m e) = ground (arith, v.plain, v.within)

pub units_unique : (cp : ℕ) (s : List ℕ) → IsScalar cp → IsUtf16le cp s → s ≡ units cp
unfolding units
units_unique cp _ v (unit lo hi h k e) = ground (arith, v.within)
units_unique cp _ v (pair a b lo1 hi1 lo2 hi2 h k l m e f g) = ground (arith, v.within)

pub utf8_encode-IsUtf8 : (cp : ℕ) → IsScalar cp → IsUtf8 cp (utf8_encode cp)
unfolding utf8_encode
utf8_encode-IsUtf8 cp v = elim (Bool-cases (ltb cp 0x80)) [
  | inl e ↦ rw e (one (ltb→lt _ _ e))
  | inr e ↦ elim (Bool-cases (ltb cp 0x800)) [
    | inl f ↦
        rw (e, f)
          (two (cp / 64) (cp % 64) (omega arith) (ltb→le _ _ e) (ltb→lt _ _ f) (omega arith))
    | inr f ↦ elim (Bool-cases (ltb cp 0x10000)) [
      | inl g ↦
          rw (e, f, g, v.plain)
            (three (cp / 4096) (cp / 64 % 64) (cp % 64) (omega arith) (omega arith) (ltb→le _ _ f)
              (ltb→lt _ _ g) (omega arith))
      | inr g ↦
          rw (e, f, g, top)
            (four (cp / 262144) (cp / 4096 % 64) (cp / 64 % 64) (cp % 64) (omega arith)
              (omega arith) (omega arith) (ltb→le _ _ g) (omega arith))
    ]
  ]
]
  where
    top : leb cp 0x10ffff ≡ true
    top = ground (arith, v.within)

pub units-IsUtf16le : (cp : ℕ) → IsScalar cp → IsUtf16le cp (units cp)
unfolding units
units-IsUtf16le cp v = elim (Bool-cases (leb cp 0xffff)) [
  | inl e ↦ rw e (
      unit (cp / 1 % 256) (cp / 256 % 256) (omega arith) (omega arith)
        (omega (arith, leb→le _ _ e)))
  | inr e ↦
      let large : 0x10000 ≤ cp = ground (arith, e) in
      rw e (
        pair ((cp - 0x10000) / 1024) ((cp - 0x10000) % 1024) _ _ _ _ (omega (arith, v.within))
          (omega arith) (omega arith) (omega arith) (omega arith) (omega (arith, v.within))
          (omega arith))
]

-- The forms of a text.
pub text_unique :
    {F : ℕ → List ℕ → Type 0} (form : ℕ → List ℕ) (forms : List ℕ → List ℕ)
    → ((cp : ℕ) (s : List ℕ) → IsScalar cp → F cp s → s ≡ form cp)
    → forms [] ≡ []
    → ((c : ℕ) (cs : List ℕ) → forms (c ∷ cs) ≡ form c ++ forms cs)
    → (cs p : List ℕ) → All IsScalar cs
    → IsText F cs p
    → p ≡ forms cs
text_unique form forms unique nil next _ _ h empty = sym nil
text_unique form forms unique nil next _ _ h (more {c} {cs} {s} {t} x xs) =
    ap (λ r. r ++ t) (unique c s h.0 x)
    ∙ (ap (λ r. form c ++ r) (text_unique form forms unique nil next cs t h.1 xs) ∙ sym (next c cs))
