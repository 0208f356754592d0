-- ===== src/Utf16/Tests.antt =====
-- Instances of the theorems on src/common/utf16.c.
use rdpserver.Base.{ℕ, refl, arith, List, [], ◌∷◌, replicate, All}
use rdpserver.Utf16.{utf8_to_utf16le, utf16le_to_utf8, is_surrogate}
use rdpserver.Utf16.Scalar.{IsScalar}
use rdpserver.Utf16.Forms.{IsUtf8, two, four, IsUtf16le, unit, pair, IsText, empty, more}
use rdpserver.Utf16.Convert.{Converts, utf8_to_utf16le-Converts, utf16le_to_utf8-Converts}

abbrev emoji : ℕ
emoji = 0x1f600

emoji-IsScalar : IsScalar emoji
unfolding is_surrogate
emoji-IsScalar = record { within = omega arith; plain = refl }

letter-IsScalar : IsScalar 0xe9
unfolding is_surrogate
letter-IsScalar = record { within = omega arith; plain = refl }

abbrev text : List ℕ
text = 0xe9 ∷ emoji ∷ []

text_scalars : All IsScalar text
text_scalars = (letter-IsScalar, (emoji-IsScalar, tt))

-- The text in UTF-8 and in UTF-16LE.
abbrev utf8_text : List ℕ
utf8_text = 0xc3 ∷ 0xa9 ∷ 0xf0 ∷ 0x9f ∷ 0x98 ∷ 0x80 ∷ []

abbrev utf16_text : List ℕ
utf16_text = 0xe9 ∷ 0 ∷ 0x3d ∷ 0xd8 ∷ 0 ∷ 0xde ∷ []

utf8_text-IsText : IsText IsUtf8 text utf8_text
utf8_text-IsText =
    more (two 3 0x29 (omega arith) (omega arith) (omega arith) refl)
      (more (four 0 0x1f 0x18 0 (omega arith) (omega arith) (omega arith) (omega arith) refl) empty)

utf16_text-IsText : IsText IsUtf16le text utf16_text
utf16_text-IsText = more (unit 0xe9 0 (omega arith) (omega arith) refl) (
    more
      (pair 0x3d 0x200 0x3d 0xd8 0 0xde (omega arith) (omega arith) (omega arith) (omega arith) refl
        refl refl)
      empty)

utf8_to_utf16le-Converts_example :
    (s : List ℕ) × IsText IsUtf16le text s
    × Converts 16 0 (replicate 16 0) s (utf8_to_utf16le (replicate 16 0) 16 utf8_text)
utf8_to_utf16le-Converts_example =
    utf8_to_utf16le-Converts text utf8_text (replicate 16 0) 16 text_scalars utf8_text-IsText

utf16le_to_utf8-Converts_example :
    (s : List ℕ) × IsText IsUtf8 text s
    × Converts 16 0 (replicate 16 0) s (utf16le_to_utf8 (replicate 16 0) 16 utf16_text)
utf16le_to_utf8-Converts_example =
    utf16le_to_utf8-Converts text utf16_text (replicate 16 0) 16 text_scalars utf16_text-IsText
