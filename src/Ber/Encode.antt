-- ===== src/Ber/Encode.antt =====
-- The encoders of src/common/ber.c.
use rdpserver.Base.{ℕ, zero, suc, ◌+◌, ◌/◌, ◌%◌, ◌^◌, Bool, List, [], ◌∷◌, bit_or}
use rdpserver.Base.{ltb, leb, ◌==◌, if◌then◌else◌, length}
use rdpserver.Buf.{Writer, ◌>>◌, done, put, put_u8, put_u16be, put_u32be, octet}
use mathlib.Core.List.{reverse}

abbrev pub class_application : ℕ
class_application = 0x40

abbrev pub constructed : ℕ
constructed = 0x20

abbrev pub tag_boolean : ℕ
tag_boolean = 1

abbrev pub tag_integer : ℕ
tag_integer = 2

abbrev pub tag_octet_string : ℕ
tag_octet_string = 4

abbrev pub tag_enumerated : ℕ
tag_enumerated = 10

-- `cls | pc | (tag & 0x1f)`; RDP_BER_CLASS_UNIVERSAL and RDP_BER_PRIMITIVE are 0.
abbrev pub tag_octet : ℕ → ℕ → ℕ → ℕ
tag_octet cls pc tag = bit_or (bit_or cls pc) (tag % 32)

unfoldable pub write_tag : ℕ → ℕ → ℕ → Writer
write_tag cls pc tag = put_u8 (tag_octet cls pc tag)

-- `out[1 ..]`, lowest group first: `while (v != 0) { out[n++] = (v & 0x7f) | 0x80; v >>= 7; }`.
-- `v` is below 2 ^ 25 here, so four rounds are enough.
unfoldable pub high_groups : ℕ → ℕ → List ℕ
high_groups zero v = []
high_groups (suc fuel) v =
    let rest = high_groups fuel (v / 128) in if v == 0 then [] else (v % 128 + 128) ∷ rest

unfoldable pub tag_groups : ℕ → List ℕ
unfolding high_groups
tag_groups tag = (tag % 128) ∷ high_groups 4 (tag / 128)

-- `if (rdp_buf_put_u8(b, x) != 0) return -1;` for each of a list.
unfoldable pub put_each : List ℕ → Writer
put_each [] = done
put_each (x ∷ xs) = do put_u8 x; put_each xs

unfoldable pub write_app_tag : ℕ → ℕ → Writer
unfolding tag_groups put_each write_tag
write_app_tag pc tag = if ltb tag 31 then write_tag class_application pc tag else (do
  put_u8 (bit_or (bit_or class_application pc) 0x1f)
  put_each (reverse (tag_groups tag)))

unfoldable pub write_length : ℕ → Writer
write_length n =
    if leb n 0x7f
    then put_u8 (octet n 0)
    else if leb n 0xff
    then (do put_u8 0x81; put_u8 (octet n 0))
    else if leb n 0xffff
    then (do put_u8 0x82; put_u16be n)
    else if leb n 0xffffff
    then (do put_u8 0x83; put_u8 (octet n 2); put_u8 (octet n 1); put_u8 (octet n 0))
    else (do put_u8 0x84; put_u32be (n % 2 ^ 32))

unfoldable pub write_universal : ℕ → ℕ → ℕ → Writer
unfolding write_tag write_length
write_universal pc tag n = do write_tag 0 pc tag; write_length n

-- `bytes[0 .. n)`, for a value below 2 ^ 31.
unfoldable pub integer_octets : ℕ → List ℕ
integer_octets v =
    if leb v 0x7f
    then octet v 0 ∷ []
    else if leb v 0x7fff
    then octet v 1 ∷ octet v 0 ∷ []
    else if leb v 0x7fffff
    then octet v 2 ∷ octet v 1 ∷ octet v 0 ∷ []
    else octet v 3 ∷ octet v 2 ∷ octet v 1 ∷ octet v 0 ∷ []

unfoldable pub write_integer : ℕ → Writer
unfolding integer_octets write_universal
write_integer v =
    if leb v 0x7fffffff
    then (do write_universal 0 tag_integer (length (integer_octets v)); put (integer_octets v))
    else (do write_universal 0 tag_integer 5; put_u8 0; put_u32be v)

unfoldable pub write_boolean : Bool → Writer
unfolding write_universal
write_boolean v = do write_universal 0 tag_boolean 1; put_u8 (if v then 0xff else 0)

unfoldable pub write_octet_string : List ℕ → Writer
unfolding write_universal
write_octet_string src = do write_universal 0 tag_octet_string (length src); put src

unfoldable pub write_enumerated : ℕ → Writer
unfolding write_universal
write_enumerated v = do write_universal 0 tag_enumerated 1; put_u8 v

unfoldable pub sizeof_length : ℕ → ℕ
sizeof_length n =
    if leb n 0x7f
    then 1
    else if leb n 0xff
    then 2
    else if leb n 0xffff
    then 3
    else if leb n 0xffffff
    then 4
    else 5

-- `do { n++; tag >>= 7; } while (tag != 0)`: five rounds are enough for 32 bits.
unfoldable pub group_count : ℕ → ℕ → ℕ → ℕ
group_count zero n tag = n
group_count (suc fuel) n tag =
    let rest = group_count fuel (n + 1) (tag / 128) in if tag / 128 == 0 then n + 1 else rest

unfoldable pub sizeof_app_tag : ℕ → ℕ
unfolding group_count
sizeof_app_tag tag = if ltb tag 31 then 1 else group_count 5 1 tag
