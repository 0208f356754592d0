-- ===== src/Rle/Headers.antt =====
-- src/wire/bitmap_rle.c: the headers of the orders, read back.
use rdpserver.Base.{
  ℕ, ◌+◌, ◌-◌, ◌*◌, ◌/◌, ◌%◌, ◌≤◌, ◌<◌, ◌≡◌, refl, ap, ◌∙◌, arith, true, false, ◌&&◌,
}
use rdpserver.Base.{List, [], ◌∷◌, ◌++◌, append_assoc, ltb, ◌==◌, length}
use rdpserver.Base.{inl, inr, Bool-cases, Read, ok, ◌>>=◌}
use rdpserver.Rle.Write.{run_header, fom_header}
use rdpserver.Rle.Decode.{
  Decoder, put_image, ir16, read_count, read_fom_count, run_above, run_masked, run_color,
  decode_order,
}
use rdpserver.Rle.Shows.{state_of, Shows, order-Shows}

abbrev pub Order : Type 0
Order = ℕ → ℕ → ℕ × List ℕ → Decoder → Read (List ℕ × Decoder)

-- An order that begins with these bytes is `f` with the count `n`.
pub record Leads (bytes : List ℕ) (n : ℕ) (f : Order) : Type 0 where
  pub hdr : ℕ
  pub body : List ℕ
  pub made : bytes ≡ hdr ∷ body
  pub decoded :
      (width total : ℕ) (p : List ℕ) (d : Decoder)
      → decode_order hdr width total (body ++ p) d ≡ f width total (n, p) d

-- The code and the header of the long form that mean `f`.
record Means (code mega : ℕ) (f : Order) : Type 0 where
  short :
      (hdr width total : ℕ) (p : List ℕ) (d : Decoder)
      → hdr / 32 ≡ code
      → decode_order hdr width total p d ≡ (read_count (hdr % 32) 32 p >>= λ t. f width total t d)
  long :
      (width total : ℕ) (p : List ℕ) (d : Decoder)
      → decode_order mega width total p d ≡ (ir16 p >>= λ t. f width total t d)

read_count_short : (n more : ℕ) (p : List ℕ) → 0 < n → read_count n more p ≡ ok (n, p)
unfolding read_count
read_count_short n more p h = ground arith

read_count_long :
    (n more : ℕ) (p : List ℕ) → more ≤ n → read_count 0 more ((n - more) ∷ p) ≡ ok (n, p)
unfolding read_count
read_count_long n more p h = ap (λ t. ok (t, p)) {x = n - more + more} {y = n} (omega arith)

ir16_lem : (n : ℕ) (p : List ℕ) → n < 65536 → ir16 ((n % 256) ∷ (n / 256 % 256) ∷ p) ≡ ok (n, p)
unfolding ir16
ir16_lem n p h = ap (λ t. ok (t, p)) {x = n % 256 + n / 256 % 256 * 256} {y = n} (omega arith)

run_header-Leads :
    (code mega n : ℕ) (f : Order)
    → Means code mega f
    → 0 < n
    → n < 65536
    → Leads (run_header code mega n) n f
unfolding run_header
run_header-Leads code mega n f m h k = elim (Bool-cases (ltb n 32)) [
  | inl e ↦ record {
    hdr = code * 32 + n;
    body = [];
    made = rw e refl;
    decoded = λ width total p d.
        m.short (code * 32 + n) width total p d (ground (arith, e))
        ∙ rw (short_count (ground (arith, e)), read_count_short n 32 p h) refl;
  }
  | inr e ↦ elim (Bool-cases (ltb n 288)) [
    | inl g ↦ record {
      hdr = code * 32;
      body = (n - 32) ∷ [];
      made = rw (e, g) refl;
      decoded = λ width total p d.
          m.short (code * 32) width total ((n - 32) ∷ p) d (omega arith)
          ∙ rw (byte_count (ground (arith, e)) p) refl;
    }
    | inr g ↦ record {
      hdr = mega;
      body = (n % 256) ∷ (n / 256 % 256) ∷ [];
      made = rw (e, g) refl;
      decoded = λ width total p d.
          m.long width total ((n % 256) ∷ (n / 256 % 256) ∷ p) d ∙ rw (ir16_lem n p k) refl;
    }
  ]
]
  where
    short_count : n < 32 → (code * 32 + n) % 32 ≡ n
    short_count l = omega arith

    byte_count : 32 ≤ n → (p : List ℕ) → read_count (code * 32 % 32) 32 ((n - 32) ∷ p) ≡ ok (n, p)
    byte_count l p =
        ap (λ r. read_count r 32 ((n - 32) ∷ p)) {x = code * 32 % 32} {y = 0} (omega arith)
        ∙ read_count_long n 32 p l

-- The four orders with that header.
abbrev pub image_order : Order
image_order width total t d = put_image t.0 width total t.1 d

pub fill-Leads : (n : ℕ) → 0 < n → n < 65536 → Leads (run_header 0 0xf0 n) n (run_above false)
unfolding decode_order
fill-Leads n =
    run_header-Leads 0 0xf0 n (run_above false)
      (record { short = λ hdr width total p d e. rw e refl; long = λ width total p d. refl })

pub mix-Leads : (n : ℕ) → 0 < n → n < 65536 → Leads (run_header 1 0xf1 n) n (run_above true)
unfolding decode_order
mix-Leads n =
    run_header-Leads 1 0xf1 n (run_above true)
      (record { short = λ hdr width total p d e. rw e refl; long = λ width total p d. refl })

pub color-Leads : (n : ℕ) → 0 < n → n < 65536 → Leads (run_header 3 0xf3 n) n run_color
unfolding decode_order
color-Leads n =
    run_header-Leads 3 0xf3 n run_color
      (record { short = λ hdr width total p d e. rw e refl; long = λ width total p d. refl })

pub image-Leads : (n : ℕ) → 0 < n → n < 65536 → Leads (run_header 4 0xf4 n) n image_order
unfolding decode_order
image-Leads n =
    run_header-Leads 4 0xf4 n image_order
      (record { short = λ hdr width total p d e. rw e refl; long = λ width total p d. refl })

fom_count_eights : (n : ℕ) (p : List ℕ) → 0 < n → n % 8 ≡ 0 → read_fom_count (n / 8) p ≡ ok (n, p)
unfolding read_fom_count
fom_count_eights n p h e =
    let some_eights : (n / 8 == 0) ≡ false = ground (arith, h, e) in
    rw some_eights (ap (λ t. ok (t, p)) {x = n / 8 * 8} {y = n} (omega arith))

fom_short :
    (hdr width total : ℕ) (p : List ℕ) (d : Decoder)
    → hdr / 32 ≡ 2
    → decode_order hdr width total p d
      ≡ (read_fom_count (hdr % 32) p >>= λ t. run_masked width total t d)
unfolding decode_order
fom_short hdr width total p d e = rw e refl

fom_eights :
    (n width total : ℕ) (p : List ℕ) (d : Decoder)
    → 0 < n
    → n < 249
    → n % 8 ≡ 0
    → decode_order (0x40 + n / 8) width total p d ≡ run_masked width total (n, p) d
fom_eights n width total p d h k e =
    let low : (0x40 + n / 8) % 32 ≡ n / 8 = omega arith in
    fom_short (0x40 + n / 8) width total p d (omega arith) ∙ rw (low, fom_count_eights n p h e) refl

pub fom-Leads : (n : ℕ) → 0 < n → n < 65536 → Leads (fom_header n) n run_masked
unfolding fom_header decode_order
fom-Leads n h k = elim (Bool-cases (n % 8 == 0 && ltb n 249)) [
  | inl e ↦ record {
    hdr = 0x40 + n / 8;
    body = [];
    made = rw e refl;
    decoded =
        λ width total p d. fom_eights n width total p d h (ground (arith, e)) (ground (arith, e));
  }
  | inr e ↦ elim (Bool-cases (ltb n 256)) [
    | inl g ↦ record {
      hdr = 0x40;
      body = (n - 1) ∷ [];
      made = rw (e, g) refl;
      decoded = λ width total p d.
          ap (λ t. run_masked width total (t, p) d) {x = n - 1 + 1} {y = n} (omega arith);
    }
    | inr g ↦ record {
      hdr = 0xf2;
      body = (n % 256) ∷ (n / 256 % 256) ∷ [];
      made = rw (e, g) refl;
      decoded = λ width total p d.
          ap (λ t. run_masked width total (t, p) d) {x = n % 256 + n / 256 % 256 * 256} {y = n}
            (omega arith);
    }
  ]
]

pub length-run_header : (code mega n : ℕ) → length (run_header code mega n) ≤ 3
unfolding run_header
length-run_header code mega n = ground arith

pub length-fom_header : (n : ℕ) → length (fom_header n) ≤ 3
unfolding fom_header
length-fom_header n = ground arith

-- An order that begins with these bytes, and has `tail` behind them.
pub Leads-Shows :
    (width n : ℕ) (bytes tail s out : List ℕ) (f : Order)
    → Leads bytes n f
    → ((total : ℕ) (p : List ℕ)
        → length s + length out ≤ total
        → f width total (n, tail ++ p) (state_of width s) ≡ ok (p, state_of width (s ++ out)))
    → Shows width (bytes ++ tail) s out
Leads-Shows width n bytes tail s out f l g = rw l.made (
    order-Shows width l.hdr (l.body ++ tail) s out (λ total p h.
      rw (append_assoc l.body tail p)
        (l.decoded width total (tail ++ p) (state_of width s) ∙ g total p h)))
