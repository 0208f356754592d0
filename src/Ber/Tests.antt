-- ===== src/Ber/Tests.antt =====
-- Instances of the theorems on src/common/ber.c.
use rdpserver.Base.{
  ℕ, ◌+◌, ◌≡◌, refl, arith, true, List, [], ◌∷◌, ◌++◌, replicate, length, ok, Ensures,
}
use rdpserver.Buf.{Buf, put, put_u8, put_u16be}
use rdpserver.Buf.Laws.{IsValid}
use rdpserver.Buf.Outcomes.{output}
use rdpserver.Ber.Encode.{write_integer, write_length, write_app_tag, sizeof_length, sizeof_app_tag}
use rdpserver.Ber.Decode.{read_integer, read_app_tag, read_universal_tag, read_enumerated}
use rdpserver.Ber.Decode.{read_boolean, read_octet_string}
use rdpserver.Ber.Safety.{Fits, Whole, Holds, decoders_safe}
use rdpserver.Ber.AppTag.{write_header, read_app_tag-write_app_tag}

abbrev sixteen : Buf
sixteen = record { bytes = replicate 16 0; cap = 16; pos = 0 }

sixteen-IsValid : IsValid sixteen
sixteen-IsValid = record { backed = omega arith; within = omega arith; small = omega arith }

-- An OCTET STRING of two bytes that is cut off.
abbrev cut_off : List ℕ
cut_off = 0x04 ∷ 0x02 ∷ 0x41 ∷ []

decoders_safe_example :
    Ensures (Fits cut_off) (read_universal_tag cut_off 0 4)
    × Ensures (Fits cut_off) (read_app_tag cut_off 0 4)
    × Ensures (Whole cut_off) (read_integer cut_off)
    × Ensures (Whole cut_off) (read_enumerated cut_off)
    × Ensures (Whole cut_off) (read_boolean cut_off)
    × Ensures (Holds cut_off) (read_octet_string cut_off)
decoders_safe_example = decoders_safe cut_off 0 4 (omega arith)

integer_fits : (write_integer 0x8000 sixteen).0 ≡ true
unfolding write_integer put_u8 put
integer_fits = refl

length_fits : (write_length 300 sixteen).0 ≡ true
unfolding write_length put_u8 put_u16be
length_fits = refl

header_fits : (write_header 0x20 101 2 sixteen).0 ≡ true
unfolding write_app_tag write_length put_u8
header_fits = refl

read_app_tag-write_app_tag_example :
    (read_app_tag (output sixteen (write_header 0x20 101 2 sixteen).1 ++ (1 ∷ 2 ∷ [])) 0x20 101
      ≡ ok (sizeof_app_tag 101 + sizeof_length 2, 2))
    × (length (output sixteen (write_header 0x20 101 2 sixteen).1)
        ≡ sizeof_app_tag 101 + sizeof_length 2)
read_app_tag-write_app_tag_example =
    read_app_tag-write_app_tag sixteen 0x20 101 2 (1 ∷ 2 ∷ []) sixteen-IsValid (omega arith)
      (omega arith) (omega arith) (omega arith) header_fits
