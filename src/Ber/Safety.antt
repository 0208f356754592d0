-- ===== src/Ber/Safety.antt =====
-- The decoders of src/common/ber.c on arbitrary slices.
use rdpserver.Base.{ℕ, zero, suc, ◌+◌, ◌*◌, ◌%◌, ◌^◌, ◌<◌, ◌≤◌, arith}
use rdpserver.Base.{not, ◌||◌, bit_or, List, [], ◌∷◌, length, drop, bit_and}
use rdpserver.Base.{ltb, leb, ◌==◌, length-drop, length-take}
use rdpserver.Base.{sub_size, Ensures, returns, bind_then}
use rdpserver.Base.{guard_then, at_then, if_then}
use rdpserver.Ber.Encode.{
  tag_octet, class_application, tag_boolean, tag_integer, tag_enumerated, tag_octet_string,
}
use rdpserver.Ber.Decode.{fold_be, long_length, read_length, read_content, read_universal_tag}
use rdpserver.Ber.Decode.{tag_loop, read_app_tag, read_integer, read_enumerated, read_boolean}
use rdpserver.Ber.Decode.{read_octet_string}

pub fold_be-Ensures :
    (m : ℕ) (p : List ℕ) (i n v : ℕ)
    → i + n ≤ length p
    → Ensures (λ x. Unit {0}) (fold_be m p i n v)
unfolding fold_be
fold_be-Ensures m p i zero v h = returns tt
fold_be-Ensures m p i (suc n) v h =
    at_then p i (omega arith) λ x e. fold_be-Ensures m p (i + 1) n ((v * 256 + x) % m) (omega arith)

-- A length field takes 1 to 5 bytes of the slice.
abbrev pub Prefix : List ℕ → ℕ × ℕ → Type 0
Prefix p t = (1 ≤ t.0) × (t.0 ≤ 5) × (t.0 ≤ length p)

long_length-Ensures : (p : List ℕ) (n : ℕ) → Ensures (Prefix p) (long_length p n)
unfolding long_length
long_length-Ensures p n =
    guard_then (not (n == 0 || ltb 4 n || ltb (length p) (1 + n)))
      λ g. bind_then (fold_be-Ensures (2 ^ 64) p 1 n 0 (ground arith)) λ v u. returns (ground arith)

pub read_length-Ensures : (p : List ℕ) → Ensures (Prefix p) (read_length p)
unfolding read_length
read_length-Ensures p = guard_then (leb 1 (length p)) λ g. at_then p 0 (ground arith) λ b0 e.
    if_then (bit_and b0 0x80 == 0) (λ c. returns (ground arith))
      λ c. long_length-Ensures p (bit_and b0 0x7f)

-- A tag and its length end in the slice, with the whole content behind them.
abbrev pub Fits : List ℕ → ℕ × ℕ → Type 0
Fits p t = (1 ≤ t.0) × (t.0 + t.1 ≤ length p)

read_content-Ensures :
    (p : List ℕ) (off : ℕ)
    → length p < 2 ^ 64
    → off ≤ length p
    → Ensures (Fits p) (read_content p off)
unfolding read_content
read_content-Ensures p off h k = bind_then (read_length-Ensures (drop off p)) λ (t : ℕ × ℕ) q.
    guard_then (leb t.1 (sub_size (sub_size (length p) off) t.0))
      λ g. returns (ground (arith, length-drop off p))

pub read_universal_tag-Ensures :
    (p : List ℕ) (pc tag : ℕ) → length p < 2 ^ 64 → Ensures (Fits p) (read_universal_tag p pc tag)
unfolding read_universal_tag
read_universal_tag-Ensures p pc tag h = guard_then (leb 1 (length p)) λ g.
    at_then p 0 (ground arith)
      λ b e. guard_then (b == tag_octet 0 pc tag) λ c. read_content-Ensures p 1 h (ground arith)

tag_loop_off :
    (rest : List ℕ) (off got : ℕ)
    → (off ≤ (tag_loop rest off got).0) × ((tag_loop rest off got).0 ≤ off + length rest)
unfolding tag_loop
tag_loop_off [] off got = omega arith
tag_loop_off (c ∷ rest) off got =
    ground (arith, tag_loop_off rest (off + 1) ((got * 128 + bit_and c 0x7f) % 2 ^ 32))

pub read_app_tag-Ensures :
    (p : List ℕ) (pc tag : ℕ) → length p < 2 ^ 64 → Ensures (Fits p) (read_app_tag p pc tag)
unfolding read_app_tag
read_app_tag-Ensures p pc tag h =
    if_then (ltb tag 31)
      (λ s. guard_then (leb 1 (length p)) λ g. at_then p 0 (ground arith) λ b e.
        guard_then (b == tag_octet class_application pc tag)
          λ c. read_content-Ensures p 1 h (ground arith))
      (λ s. guard_then (leb 1 (length p)) λ g. at_then p 0 (ground arith) λ b e.
        guard_then (b == bit_or (bit_or class_application pc) 0x1f) λ c.
          guard_then
            (not (
              ltb (length p) (tag_loop (drop 1 p) 1 0).0
              || not ((tag_loop (drop 1 p) 1 0).1 == tag)))
            λ d. read_content-Ensures p (tag_loop (drop 1 p) 1 0).0 h (ground arith))

-- A whole element: at least a tag and a length of the slice.
abbrev pub Whole {ℓ} : {A : Type ℓ} → List ℕ → ℕ × A → Type 0
Whole p t = (1 ≤ t.0) × (t.0 ≤ length p)

read_integer-Ensures : (p : List ℕ) → length p < 2 ^ 64 → Ensures (Whole p) (read_integer p)
unfolding read_integer
read_integer-Ensures p h = bind_then (read_universal_tag-Ensures p 0 tag_integer h) λ (t : ℕ × ℕ) q.
    guard_then (not (t.1 == 0 || ltb 5 t.1)) λ g.
      if_then (t.1 == 5)
        (λ c. at_then p t.0 (ground arith) λ top e. guard_then (top == 0) λ z.
          bind_then (fold_be-Ensures (2 ^ 32) p (t.0 + 1) 4 0 (ground arith))
            λ v u. returns (ground arith))
        (λ c.
          bind_then (fold_be-Ensures (2 ^ 32) p t.0 t.1 0 (ground arith))
            λ v u. returns (ground arith))

read_enumerated-Ensures : (p : List ℕ) → length p < 2 ^ 64 → Ensures (Whole p) (read_enumerated p)
unfolding read_enumerated
read_enumerated-Ensures p h =
    bind_then (read_universal_tag-Ensures p 0 tag_enumerated h) λ (t : ℕ × ℕ) q.
      guard_then (t.1 == 1) λ g. at_then p t.0 (ground arith) λ v e. returns (ground arith)

pub read_boolean-Ensures : (p : List ℕ) → length p < 2 ^ 64 → Ensures (Whole p) (read_boolean p)
unfolding read_boolean
read_boolean-Ensures p h = bind_then (read_universal_tag-Ensures p 0 tag_boolean h) λ (t : ℕ × ℕ) q.
    guard_then (t.1 == 1) λ g. at_then p t.0 (ground arith) λ v e. returns (ground arith)

-- The octet string's content ends where the element does.
abbrev pub Holds : List ℕ → ℕ × List ℕ → Type 0
Holds p t = (1 ≤ t.0) × (t.0 ≤ length p) × (length t.1 ≤ t.0)

pub read_octet_string-Ensures :
    (p : List ℕ) → length p < 2 ^ 64 → Ensures (Holds p) (read_octet_string p)
unfolding read_octet_string
read_octet_string-Ensures p h =
    bind_then (read_universal_tag-Ensures p 0 tag_octet_string h)
      λ (t : ℕ × ℕ) q. returns (omega (arith, length-take t.1 (drop t.0 p)))

-- On every slice of fewer than 2 ^ 64 bytes each decoder reads inside the slice only, and on
-- success the bytes that it reports as consumed, the announced content included, lie in the slice.
pub decoders_safe :
    (p : List ℕ) (pc tag : ℕ)
    → length p < 2 ^ 64
    → Ensures (Fits p) (read_universal_tag p pc tag)
      × Ensures (Fits p) (read_app_tag p pc tag)
      × Ensures (Whole p) (read_integer p)
      × Ensures (Whole p) (read_enumerated p)
      × Ensures (Whole p) (read_boolean p)
      × Ensures (Holds p) (read_octet_string p)
decoders_safe p pc tag h = (
  read_universal_tag-Ensures p pc tag h,
  read_app_tag-Ensures p pc tag h,
  read_integer-Ensures p h,
  read_enumerated-Ensures p h,
  read_boolean-Ensures p h,
  read_octet_string-Ensures p h,
)
