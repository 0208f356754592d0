-- ===== src/Ber/AppTag.antt =====
-- Application tags of src/common/ber.c: the base-128 form of large tag numbers.
use rdpserver.Base.{ℕ, suc, ◌+◌, ◌*◌, ◌/◌, ◌%◌, ◌^◌, ◌<◌, ◌≤◌, ◌≡◌, refl, ap, ◌∙◌, arith}
use rdpserver.Base.{true, false, List, ◌∷◌, ◌++◌, append_assoc, length, drop}
use rdpserver.Base.{ltb, ◌==◌, length-append, bit_or, le→ltb}
use rdpserver.Base.{ok, drop-append, length-drop, inl, inr, Bool-cases, le→leb}
use rdpserver.Base.Bits.{and_0x80, and_0x7f}
use rdpserver.Buf.{Buf, Writer, ◌>>◌ as then_write}
use rdpserver.Buf.Laws.{IsValid, >>-Writes, Writes}
use rdpserver.Buf.Outcomes.{output, output-Writes}
use rdpserver.Ber.Encode.{tag_octet, sizeof_length, tag_groups, write_app_tag, write_length}
use rdpserver.Ber.Encode.{class_application, sizeof_app_tag}
use rdpserver.Ber.Output.{length_octets, length-length_octets, app_tag_octets, write_app_tag-Writes}
use rdpserver.Ber.Output.{write_length-Writes}
use rdpserver.Ber.Decode.{tag_loop, read_app_tag, read_content}
use rdpserver.Ber.RoundTrip.{read_length-octets, sizeof_length-le}
use mathlib.Core.List.{reverse}

last_group :
    (c : ℕ) (s : List ℕ) (off got : ℕ)
    → c < 128
    → got < 2 ^ 25
    → tag_loop (c ∷ s) off got ≡ (off + 1, got * 128 + c)
unfolding tag_loop
last_group c s off got h k = ground (arith, and_0x80 c, and_0x7f c)

more_group :
    (c : ℕ) (s : List ℕ) (off got : ℕ)
    → c < 128
    → got < 2 ^ 25
    → tag_loop ((c + 128) ∷ s) off got ≡ tag_loop s (off + 1) (got * 128 + c)
unfolding tag_loop
more_group c s off got h k = ground (arith, and_0x80 (c + 128), and_0x7f (c + 128))

-- The octets of a number from its digits in base 128, highest first, as the loop reads them.
loop_one : (a : ℕ) (s : List ℕ) → a < 128 → tag_loop (a ∷ s) 1 0 ≡ (2, a)
loop_one a s h = last_group a s 1 0 h (omega arith) ∙ ap (λ v. (2, v)) (omega arith)

loop_two :
    (a b : ℕ) (s : List ℕ) → a < 128 → b < 128 → tag_loop ((a + 128) ∷ b ∷ s) 1 0 ≡ (3, a * 128 + b)
loop_two a b s h k =
    more_group a (b ∷ s) 1 0 h (omega arith)
    ∙ last_group b s 2 (0 * 128 + a) k (omega arith)
    ∙ ap (λ v. (3, v)) (omega arith)

loop_three :
    (a b c : ℕ) (s : List ℕ)
    → a < 128
    → b < 128
    → c < 128
    → tag_loop ((a + 128) ∷ (b + 128) ∷ c ∷ s) 1 0 ≡ (4, (a * 128 + b) * 128 + c)
loop_three a b c s h k l =
    more_group a ((b + 128) ∷ c ∷ s) 1 0 h (omega arith)
    ∙ more_group b (c ∷ s) 2 (0 * 128 + a) k (omega arith)
    ∙ last_group c s 3 ((0 * 128 + a) * 128 + b) l (omega arith)
    ∙ ap (λ v. (4, v)) (omega arith)

loop_four :
    (a b c d : ℕ) (s : List ℕ)
    → a < 128
    → b < 128
    → c < 128
    → d < 128
    → tag_loop ((a + 128) ∷ (b + 128) ∷ (c + 128) ∷ d ∷ s) 1 0
      ≡ (5, ((a * 128 + b) * 128 + c) * 128 + d)
loop_four a b c d s h k l m =
    more_group a ((b + 128) ∷ (c + 128) ∷ d ∷ s) 1 0 h (omega arith)
    ∙ more_group b ((c + 128) ∷ d ∷ s) 2 (0 * 128 + a) k (omega arith)
    ∙ more_group c (d ∷ s) 3 ((0 * 128 + a) * 128 + b) l (omega arith)
    ∙ last_group d s 4 (((0 * 128 + a) * 128 + b) * 128 + c) m (omega arith)
    ∙ ap (λ v. (5, v)) (omega arith)

loop_five :
    (a b c d e : ℕ) (s : List ℕ)
    → a < 16
    → b < 128
    → c < 128
    → d < 128
    → e < 128
    → tag_loop ((a + 128) ∷ (b + 128) ∷ (c + 128) ∷ (d + 128) ∷ e ∷ s) 1 0
      ≡ (6, (((a * 128 + b) * 128 + c) * 128 + d) * 128 + e)
loop_five a b c d e s h k l m n =
    more_group a ((b + 128) ∷ (c + 128) ∷ (d + 128) ∷ e ∷ s) 1 0 (omega arith) (omega arith)
    ∙ more_group b ((c + 128) ∷ (d + 128) ∷ e ∷ s) 2 (0 * 128 + a) k (omega arith)
    ∙ more_group c ((d + 128) ∷ e ∷ s) 3 ((0 * 128 + a) * 128 + b) l (omega arith)
    ∙ more_group d (e ∷ s) 4 (((0 * 128 + a) * 128 + b) * 128 + c) m (omega arith)
    ∙ last_group e s 5 ((((0 * 128 + a) * 128 + b) * 128 + c) * 128 + d) n (omega arith)
    ∙ ap (λ v. (6, v)) (omega arith)

-- The reader's loop finds every 32-bit tag number in the groups that the writer makes of it.
tag_loop-groups :
    (tag : ℕ) (s : List ℕ)
    → tag < 2 ^ 32
    → tag_loop (reverse (tag_groups tag) ++ s) 1 0 ≡ (suc (length (reverse (tag_groups tag))), tag)
unfolding tag_groups
tag_loop-groups tag s h = ground (
  arith,
  loop_one (tag % 128) s,
  loop_two (tag / 128 % 128) (tag % 128) s,
  loop_three (tag / 128 / 128 % 128) (tag / 128 % 128) (tag % 128) s,
  loop_four (tag / 128 / 128 / 128 % 128) (tag / 128 / 128 % 128) (tag / 128 % 128) (tag % 128) s,
  loop_five (tag / 128 / 128 / 128 / 128 % 128) (tag / 128 / 128 / 128 % 128)
      (tag / 128 / 128 % 128) (tag / 128 % 128) (tag % 128) s,
)

-- The size that `sizeof_app_tag` gives is the number of octets of the tag.
length-app_tag_octets :
    (pc tag : ℕ) → tag < 2 ^ 32 → length (app_tag_octets pc tag) ≡ sizeof_app_tag tag
unfolding app_tag_octets tag_groups sizeof_app_tag
length-app_tag_octets pc tag h = ground arith

-- The content check behind a tag of any length.
read_content_at :
    (p : List ℕ) (off n : ℕ) (s : List ℕ)
    → drop off p ≡ length_octets n ++ s
    → off ≤ length p
    → length p < 2 ^ 64
    → n < 2 ^ 32
    → n ≤ length s
    → read_content p off ≡ ok (off + sizeof_length n, n)
unfolding read_content
read_content_at p off n s e h l k m =
    rw (e, read_length-octets n s k)
      (ground (
        arith,
        ap length e,
        length-drop off p,
        length-append (length_octets n) s,
        length-length_octets n,
        sizeof_length-le n,
      ))

self_test : (n : ℕ) → (n == n) ≡ true
self_test n = ground arith

small_tag :
    (pc tag : ℕ) (r : List ℕ)
    → ltb tag 31 ≡ true
    → read_app_tag (tag_octet class_application pc tag ∷ r) pc tag
      ≡ read_content (tag_octet class_application pc tag ∷ r) 1
unfolding read_app_tag
small_tag pc tag r e =
    rw (e, le→leb 1 (suc (length r)) (omega arith), self_test (tag_octet class_application pc tag))

large_tag :
    (pc tag : ℕ) (r : List ℕ) (n : ℕ)
    → ltb tag 31 ≡ false
    → tag_loop r 1 0 ≡ (suc n, tag)
    → n ≤ length r
    → read_app_tag (bit_or (bit_or class_application pc) 0x1f ∷ r) pc tag
      ≡ read_content (bit_or (bit_or class_application pc) 0x1f ∷ r) (suc n)
unfolding read_app_tag
large_tag pc tag r n e f h = rw (
  e,
  f,
  le→leb 1 (suc (length r)) (omega arith),
  self_test (bit_or (bit_or class_application pc) 0x1f),
  self_test tag,
  le→ltb (suc (length r)) (suc n) (omega arith),
)

length-tag_groups : (tag : ℕ) → length (reverse (tag_groups tag)) ≤ 5
unfolding tag_groups
length-tag_groups tag = ground arith

-- An application tag and a length are read back from their octets.
pub read_app_tag-octets :
    (pc tag n : ℕ) (s : List ℕ)
    → tag < 2 ^ 32
    → n < 2 ^ 32
    → n ≤ length s
    → length s < 2 ^ 62
    → read_app_tag (app_tag_octets pc tag ++ (length_octets n ++ s)) pc tag
      ≡ ok (length (app_tag_octets pc tag) + sizeof_length n, n)
unfolding app_tag_octets
read_app_tag-octets pc tag n s h k m l = elim (Bool-cases (ltb tag 31)) [
  | inl e ↦ rw e (
      small_tag pc tag body e
      ∙ read_content_at (tag_octet class_application pc tag ∷ body) 1 n s refl (omega arith)
          (omega (arith, size)) k m)
  | inr e ↦ rw e (
      large_tag pc tag (groups ++ body) (length groups) e (tag_loop-groups tag body h)
        (omega (arith, length-append groups body))
      ∙ read_content_at (bit_or (bit_or class_application pc) 0x1f ∷ (groups ++ body))
          (suc (length groups)) n s (drop-append groups body)
          (omega (arith, length-append groups body))
          (omega (arith, length-append groups body, size, few)) k m)
]
  where
    groups : List ℕ
    groups = reverse (tag_groups tag)

    body : List ℕ
    body = length_octets n ++ s

    size : length body ≤ length s + 5
    size =
        omega (arith, length-append (length_octets n) s, length-length_octets n, sizeof_length-le n)

    few : length groups ≤ 5
    few = length-tag_groups tag

-- What `write_app_tag` and then `write_length` do to the buffer.
abbrev pub write_header : ℕ → ℕ → ℕ → Writer
write_header pc tag n = then_write (write_app_tag pc tag) (write_length n)

-- For every 32-bit tag and length, the tag and the length that two calls wrote to a valid buffer
-- one after the other are read back, if at least that length and fewer than 2 ^ 62 bytes follow;
-- the bytes consumed are those written, and `sizeof_app_tag` and `sizeof_length` give their
-- number.
pub read_app_tag-write_app_tag :
    (b : Buf) (pc tag n : ℕ) (s : List ℕ)
    → IsValid b
    → tag < 2 ^ 32
    → n < 2 ^ 32
    → n ≤ length s
    → length s < 2 ^ 62
    → (write_header pc tag n b).0 ≡ true
    → (read_app_tag (output b (write_header pc tag n b).1 ++ s) pc tag
        ≡ ok (sizeof_app_tag tag + sizeof_length n, n))
      × (length (output b (write_header pc tag n b).1) ≡ sizeof_app_tag tag + sizeof_length n)
read_app_tag-write_app_tag b pc tag n s v h k m l w =
    rw
      (
        output-Writes _ (write_header pc tag n) b written v w,
        append_assoc (app_tag_octets pc tag) (length_octets n) s,
      )
      (
        rw (length-app_tag_octets pc tag h) at (read_app_tag-octets pc tag n s h k m l),
        omega (
          arith,
          length-append (app_tag_octets pc tag) (length_octets n),
          length-app_tag_octets pc tag h,
          length-length_octets n,
        ),
      )
  where
    written : Writes (write_header pc tag n) (app_tag_octets pc tag ++ length_octets n)
    written = >>-Writes (write_app_tag-Writes pc tag) (write_length-Writes n k)
