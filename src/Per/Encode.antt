-- ===== src/Per/Encode.antt =====
-- src/common/per.c: the writers of the GCC conference messages.
use rdpserver.Base.{ℕ, ◌+◌, ◌-◌, ◌*◌, ◌%◌, List, [], ◌∷◌}
use rdpserver.Base.{bit_or, leb, ◌==◌, if◌then◌else◌, length}
use rdpserver.Buf.{Writer, fail, done, put, put_u8, put_u16be, put_u32be, ◌>>◌}

-- `GCC_OID`
abbrev pub gcc_oid : List ℕ
gcc_oid = 0x00 ∷ 0x00 ∷ 0x14 ∷ 0x7c ∷ 0x00 ∷ 0x01 ∷ []

unfoldable pub write_length : ℕ → Writer
write_length n =
    if leb n 0x7f then put_u8 n else if leb n 0x3fff then put_u16be (0x8000 + n) else fail

unfoldable pub write_choice : ℕ → Writer
write_choice choice = put_u8 choice

unfoldable pub write_selection : ℕ → Writer
write_selection bits = put_u8 bits

-- `(uint8_t)(s[i] - '0')` of a character's code.
abbrev digit : ℕ → ℕ
digit c = (c + 256 - 0x30) % 256

-- The digits two by two; the argument is what is left of `s`.
unfoldable pub put_digits : List ℕ → Writer
put_digits [] = done
put_digits (a ∷ []) = put_u8 (digit a * 16 % 256)
put_digits (a ∷ c ∷ s) = put_u8 (bit_or (digit a * 16 % 256) (digit c)) >> put_digits s

unfoldable pub write_numeric_string : List ℕ → Writer
unfolding write_length put_digits
write_numeric_string s = write_length (length s) >> put_digits s

unfoldable pub write_object_identifier_gcc : Writer
unfolding write_length
write_object_identifier_gcc = write_length 6 >> put gcc_oid

unfoldable pub write_u16 : ℕ → Writer
write_u16 v = put_u16be v

unfoldable pub write_u32 : ℕ → Writer
write_u32 v = put_u32be v

unfoldable pub write_octet_string : List ℕ → Writer
write_octet_string src = put src

unfoldable pub write_user_data_count : ℕ → Writer
write_user_data_count count = if count == 0 then fail else put_u8 (count - 1)

unfoldable pub write_h221_key : List ℕ → Writer
write_h221_key key = put key
