-- ===== src/Rle/Bits.antt =====
-- src/wire/bitmap_rle.c: the bits of a mask that grows bit by bit.
use rdpserver.Base.{
  ℕ, zero, suc, ◌+◌, ◌*◌, ◌/◌, ◌%◌, ◌^◌, ◌≤◌, ◌<◌, ◌≡◌, refl, sym, ap, ◌∙◌, arith, Bool, true,
  false, ◌&&◌,
}
use rdpserver.Base.{
  List, [], ◌∷◌, ◌++◌, ◌==◌, if◌then◌else◌, length, get_or, length-append, inl, inr, Bool-cases,
}
use rdpserver.Rle.Encode.{set_bit, add_bit}
use rdpserver.Rle.Orders.{bit_at}
use native.Mathlib.Nat.{div-div-eq-div-mul, div-eq_of_lt, one-le-pow, pow-suc}

halved : (v k : ℕ) → v / 2 ^ suc k ≡ v / 2 / 2 ^ k
halved v k =
    ap (λ t. v / t) {x = 2 ^ suc k} {y = 2 * 2 ^ k} (omega (arith, pow-suc 2 k))
    ∙ sym (div-div-eq-div-mul v 2 (2 ^ k))

-- A bit above the others is 1, and they are as before.
high_bit : (j v : ℕ) → v < 2 ^ j → (v + 2 ^ j) / 2 ^ j % 2 ≡ 1
high_bit zero v h = omega arith
high_bit (suc j) v h = rw (halved (v + 2 ^ suc j) j) (
    ap (λ t. t / 2 ^ j % 2) {x = (v + 2 ^ suc j) / 2} {y = v / 2 + 2 ^ j}
      (omega (arith, pow-suc 2 j))
    ∙ high_bit j (v / 2) (omega (arith, pow-suc 2 j)))

low_bit : (k j v : ℕ) → k < j → (v + 2 ^ j) / 2 ^ k % 2 ≡ v / 2 ^ k % 2
low_bit k zero v h = absurd (omega arith)
low_bit zero (suc j) v h = omega (arith, pow-suc 2 j)
low_bit (suc k) (suc j) v h =
    rw (halved (v + 2 ^ suc j) k, halved v k)
      (ap (λ t. t / 2 ^ k % 2) {x = (v + 2 ^ suc j) / 2} {y = v / 2 + 2 ^ j}
          (omega (arith, pow-suc 2 j))
        ∙ low_bit k j (v / 2) (omega arith))

length-set_bit : (b : ℕ) (mask : List ℕ) → length (set_bit b mask) ≡ length mask
unfolding set_bit
length-set_bit b [] = refl
length-set_bit b (m ∷ []) = refl
length-set_bit b (m ∷ m' ∷ mask) = ap suc (length-set_bit b (m' ∷ mask))

get_or-set_bit :
    (b i : ℕ) (mask : List ℕ)
    → get_or (set_bit b mask) i 0
      ≡ (if i + 1 == length mask then get_or mask i 0 + 2 ^ b else get_or mask i 0)
unfolding set_bit
get_or-set_bit b i [] = ground arith
get_or-set_bit b zero (m ∷ []) = refl
get_or-set_bit b (suc i) (m ∷ []) = ground arith
get_or-set_bit b zero (m ∷ m' ∷ mask) = ground arith
get_or-set_bit b (suc i) (m ∷ m' ∷ mask) = get_or-set_bit b i (m' ∷ mask) ∙ ground arith

get_or-snoc_zero : (mask : List ℕ) (i : ℕ) → get_or (mask ++ 0 ∷ []) i 0 ≡ get_or mask i 0
get_or-snoc_zero [] zero = refl
get_or-snoc_zero [] (suc i) = refl
get_or-snoc_zero (m ∷ mask) zero = refl
get_or-snoc_zero (m ∷ mask) (suc i) = get_or-snoc_zero mask i

get_or_outside : (mask : List ℕ) (i : ℕ) → length mask ≤ i → get_or mask i 0 ≡ 0
get_or_outside [] i h = refl
get_or_outside (m ∷ mask) zero h = absurd (omega arith)
get_or_outside (m ∷ mask) (suc i) h = get_or_outside mask i (omega arith)

-- The mask holds `n` bits, and the rest of its last byte is 0.
pub record IsMask (n : ℕ) (mask : List ℕ) : Type 0 where
  pub long : length mask ≡ (n + 7) / 8
  pub free : get_or mask (n / 8) 0 < 2 ^ (n % 8)

abbrev opened : ℕ → List ℕ → List ℕ
opened n mask = if n % 8 == 0 then mask ++ 0 ∷ [] else mask

length-opened : (n : ℕ) (mask : List ℕ) → IsMask n mask → length (opened n mask) ≡ n / 8 + 1
length-opened n mask h = elim (Bool-cases (n % 8 == 0)) [
  | inl e ↦ rw e (length-append mask (0 ∷ []) ∙ ground (arith, h.long, e))
  | inr e ↦ rw e (ground (arith, h.long, e))
]

get_or-opened : (n i : ℕ) (mask : List ℕ) → get_or (opened n mask) i 0 ≡ get_or mask i 0
get_or-opened n i mask = elim (Bool-cases (n % 8 == 0)) [
  | inl e ↦ rw e (get_or-snoc_zero mask i)
  | inr e ↦ rw e refl
]

length-add_bit :
    (bit : Bool) (n : ℕ) (mask : List ℕ) → IsMask n mask → length (add_bit bit n mask) ≡ n / 8 + 1
unfolding add_bit
length-add_bit true n mask h = length-set_bit (n % 8) (opened n mask) ∙ length-opened n mask h
length-add_bit false n mask h = length-opened n mask h

-- The bytes of the mask with one more bit.
get_or-add_bit :
    (bit : Bool) (n i : ℕ) (mask : List ℕ)
    → IsMask n mask
    → get_or (add_bit bit n mask) i 0
      ≡ (if bit && (i == n / 8) then get_or mask i 0 + 2 ^ (n % 8) else get_or mask i 0)
unfolding add_bit
get_or-add_bit false n i mask h = get_or-opened n i mask
get_or-add_bit true n i mask h =
    get_or-set_bit (n % 8) i (opened n mask)
    ∙ rw (get_or-opened n i mask, length-opened n mask h) (ground arith)

get_or-add_bit_self :
    (bit : Bool) (n : ℕ) (mask : List ℕ)
    → IsMask n mask
    → get_or (add_bit bit n mask) (n / 8) 0
      ≡ get_or mask (n / 8) 0 + (if bit then 2 ^ (n % 8) else 0)
get_or-add_bit_self bit n mask h = get_or-add_bit bit n (n / 8) mask h ∙ ground arith

get_or-add_bit_other :
    (bit : Bool) (n i : ℕ) (mask : List ℕ)
    → IsMask n mask
    → i < n / 8
    → get_or (add_bit bit n mask) i 0 ≡ get_or mask i 0
get_or-add_bit_other bit n i mask h k = get_or-add_bit bit n i mask h ∙ ground arith

pub add_bit-IsMask :
    (bit : Bool) (n : ℕ) (mask : List ℕ) → IsMask n mask → IsMask (n + 1) (add_bit bit n mask)
add_bit-IsMask bit n mask h = record {
  long = length-add_bit bit n mask h ∙ omega arith;
  free = elim (Bool-cases (n % 8 == 7)) [
    | inl e ↦
        rw
          (get_or_outside (add_bit bit n mask) ((n + 1) / 8)
            (ground (arith, length-add_bit bit n mask h, e)))
          (one-le-pow ((n + 1) % 8) 2 (omega arith))
    | inr e ↦
        let same : (n + 1) / 8 ≡ n / 8 = ground (arith, e) in
        let next : 2 ^ ((n + 1) % 8) ≡ 2 * 2 ^ (n % 8) =
          ap (λ j. 2 ^ j) {x = (n + 1) % 8} {y = suc (n % 8)} (ground (arith, e))
          ∙ omega (arith, pow-suc 2 (n % 8)) in
        rw (same, next, get_or-add_bit_self bit n mask h) (below bit)
  ];
}
  where
    below : (b : Bool) → get_or mask (n / 8) 0 + (if b then 2 ^ (n % 8) else 0) < 2 * 2 ^ (n % 8)
    below true = omega (arith, h.free)
    below false = omega (arith, h.free)

pub bit_at-add_bit :
    (bit : Bool) (n : ℕ) (mask : List ℕ) → IsMask n mask → bit_at (add_bit bit n mask) n ≡ bit
bit_at-add_bit true n mask h =
    rw (get_or-add_bit_self true n mask h)
      (ground (arith, high_bit (n % 8) (get_or mask (n / 8) 0) h.free))
bit_at-add_bit false n mask h =
    rw (get_or-add_bit_self false n mask h) (ground (arith, div-eq_of_lt h.free))

pub bit_at-add_bit_earlier :
    (bit : Bool) (n k : ℕ) (mask : List ℕ)
    → IsMask n mask
    → k < n
    → bit_at (add_bit bit n mask) k ≡ bit_at mask k
bit_at-add_bit_earlier bit n k mask h l = elim (Bool-cases (k / 8 == n / 8)) [
  | inl e ↦ same bit (ground (arith, e))
  | inr e ↦
      ap (λ t. t / 2 ^ (k % 8) % 2 == 1)
        (get_or-add_bit_other bit n (k / 8) mask h (ground (arith, e)))
]
  where
    same : (b : Bool) → k / 8 ≡ n / 8 → bit_at (add_bit b n mask) k ≡ bit_at mask k
    same true f =
        rw (f, get_or-add_bit_self true n mask h)
          (ap (λ t. t == 1) (low_bit (k % 8) (n % 8) (get_or mask (n / 8) 0) (omega arith)))
    same false f = rw (f, get_or-add_bit_self false n mask h) (ground arith)
