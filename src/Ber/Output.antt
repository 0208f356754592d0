-- ===== src/Ber/Output.antt =====
-- What the encoders write, as lists of bytes.
use rdpserver.Base.{ℕ, ◌%◌, ◌^◌, ◌<◌, ◌≤◌, ◌≡◌, arith}
use rdpserver.Base.{Bool, List, [], ◌∷◌, ◌++◌, bit_or}
use rdpserver.Base.{ltb, leb, if◌then◌else◌, length}
use rdpserver.Buf.{put_u32be, octet}
use rdpserver.Buf.Laws.{Writes, Writes-eq, put-Writes, put_u8-Writes, put_u16be-Writes}
use rdpserver.Buf.Laws.{put_u32be-Writes, >>-Writes, done-Writes, if-Writes, cons-Writes}
use rdpserver.Ber.Encode.{tag_octet, tag_groups, put_each, write_app_tag}
use rdpserver.Ber.Encode.{
  write_length, write_universal, integer_octets, write_integer, write_boolean,
}
use rdpserver.Ber.Encode.{write_octet_string, write_enumerated, sizeof_length}
use rdpserver.Ber.Encode.{class_application, tag_integer, tag_boolean}
use rdpserver.Ber.Encode.{tag_octet_string, tag_enumerated}
use mathlib.Core.List.{reverse}

unfoldable pub length_octets : ℕ → List ℕ
length_octets n =
    if leb n 0x7f
    then octet n 0 ∷ []
    else if leb n 0xff
    then 0x81 ∷ octet n 0 ∷ []
    else if leb n 0xffff
    then 0x82 ∷ octet n 1 ∷ octet n 0 ∷ []
    else if leb n 0xffffff
    then 0x83 ∷ octet n 2 ∷ octet n 1 ∷ octet n 0 ∷ []
    else 0x84 ∷ octet n 3 ∷ octet n 2 ∷ octet n 1 ∷ octet n 0 ∷ []

-- A value cast to `uint32_t` that fits is itself.
cast_u32 : (n : ℕ) → n < 2 ^ 32 → n % 2 ^ 32 ≡ n
cast_u32 n h = omega arith

pub write_length-Writes : (n : ℕ) → n < 2 ^ 32 → Writes (write_length n) (length_octets n)
unfolding write_length length_octets
write_length-Writes n h = if-Writes (leb n 0x7f) (put_u8-Writes (octet n 0)) (
    if-Writes (leb n 0xff) (cons-Writes 0x81 (put_u8-Writes (octet n 0))) (
      if-Writes (leb n 0xffff) (cons-Writes 0x82 (put_u16be-Writes n)) (
        if-Writes (leb n 0xffffff)
          (cons-Writes 0x83
            (cons-Writes (octet n 2) (cons-Writes (octet n 1) (put_u8-Writes (octet n 0)))))
          (cons-Writes 0x84 wide))))
  where
    wide : Writes (put_u32be (n % 2 ^ 32)) (octet n 3 ∷ octet n 2 ∷ octet n 1 ∷ octet n 0 ∷ [])
    wide = rw (cast_u32 n h) (put_u32be-Writes n)

unfoldable pub universal_octets : ℕ → ℕ → ℕ → List ℕ
universal_octets pc tag n = tag_octet 0 pc tag ∷ length_octets n

pub write_universal-Writes :
    (pc tag n : ℕ) → n < 2 ^ 32 → Writes (write_universal pc tag n) (universal_octets pc tag n)
unfolding write_universal universal_octets
write_universal-Writes pc tag n h = cons-Writes (tag_octet 0 pc tag) (write_length-Writes n h)

-- The content octets of an INTEGER.
unfoldable pub integer_content : ℕ → List ℕ
integer_content v =
    if leb v 0x7fffffff
    then integer_octets v
    else 0 ∷ octet v 3 ∷ octet v 2 ∷ octet v 1 ∷ octet v 0 ∷ []

pub length-integer_octets :
    (v : ℕ) → (1 ≤ length (integer_octets v)) × (length (integer_octets v) ≤ 4)
unfolding integer_octets
length-integer_octets v = ground arith

pub length-integer_content :
    (v : ℕ) → (1 ≤ length (integer_content v)) × (length (integer_content v) ≤ 5)
unfolding integer_content
length-integer_content v = ground (arith, length-integer_octets v)

write_integer_chosen :
    (v : ℕ)
    → Writes (write_integer v) (
        if leb v 0x7fffffff
        then universal_octets 0 tag_integer (length (integer_octets v)) ++ integer_octets v
        else universal_octets 0 tag_integer 5
          ++ (0 ∷ octet v 3 ∷ octet v 2 ∷ octet v 1 ∷ octet v 0 ∷ []))
unfolding write_integer
write_integer_chosen v =
    if-Writes (leb v 0x7fffffff)
      (>>-Writes
        (write_universal-Writes 0 tag_integer (length (integer_octets v))
          (omega (arith, length-integer_octets v)))
        (put-Writes (integer_octets v)))
      (>>-Writes (write_universal-Writes 0 tag_integer 5 (omega arith))
        (cons-Writes 0 (put_u32be-Writes v)))

pub write_integer-Writes :
    (v : ℕ)
    → Writes
        (write_integer v)
        (universal_octets 0 tag_integer (length (integer_content v)) ++ integer_content v)
unfolding integer_content
write_integer-Writes v = Writes-eq (ground arith) (write_integer_chosen v)

pub write_boolean-Writes :
    (v : Bool)
    → Writes (write_boolean v) (universal_octets 0 tag_boolean 1 ++ ((if v then 0xff else 0) ∷ []))
unfolding write_boolean
write_boolean-Writes v =
    >>-Writes (write_universal-Writes 0 tag_boolean 1 (omega arith))
      (put_u8-Writes (if v then 0xff else 0))

pub write_octet_string-Writes :
    (s : List ℕ)
    → length s < 2 ^ 32
    → Writes (write_octet_string s) (universal_octets 0 tag_octet_string (length s) ++ s)
unfolding write_octet_string
write_octet_string-Writes s h =
    >>-Writes (write_universal-Writes 0 tag_octet_string (length s) h) (put-Writes s)

pub write_enumerated-Writes :
    (v : ℕ) → Writes (write_enumerated v) (universal_octets 0 tag_enumerated 1 ++ (v ∷ []))
unfolding write_enumerated
write_enumerated-Writes v =
    >>-Writes (write_universal-Writes 0 tag_enumerated 1 (omega arith)) (put_u8-Writes v)

put_each-Writes : (s : List ℕ) → Writes (put_each s) s
unfolding put_each
put_each-Writes [] = done-Writes
put_each-Writes (x ∷ s) = cons-Writes x (put_each-Writes s)

unfoldable pub app_tag_octets : ℕ → ℕ → List ℕ
app_tag_octets pc tag =
    if ltb tag 31
    then tag_octet class_application pc tag ∷ []
    else bit_or (bit_or class_application pc) 0x1f ∷ reverse (tag_groups tag)

pub write_app_tag-Writes : (pc tag : ℕ) → Writes (write_app_tag pc tag) (app_tag_octets pc tag)
unfolding write_app_tag app_tag_octets
write_app_tag-Writes pc tag =
    if-Writes (ltb tag 31) (put_u8-Writes (tag_octet class_application pc tag)) (
      cons-Writes (bit_or (bit_or class_application pc) 0x1f)
        (put_each-Writes (reverse (tag_groups tag))))

pub length-length_octets : (n : ℕ) → length (length_octets n) ≡ sizeof_length n
unfolding length_octets sizeof_length
length-length_octets n = ground arith
