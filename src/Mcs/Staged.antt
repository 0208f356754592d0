-- ===== src/Mcs/Staged.antt =====
-- src/wire/mcs.c: writers into arrays that are large enough, and blocks whose header is filled in
-- behind their body.
use rdpserver.Base.{
  ℕ, zero, suc, ◌+◌, ◌*◌, ◌%◌, ◌^◌, ◌≤◌, ◌<◌, ◌≡◌, refl, sym, ap, ◌∙◌, arith, Bool, true, false,
  some, List, [], ◌∷◌, ◌++◌,
}
use rdpserver.Base.{
  ◌==◌, if◌then◌else◌, length, take, write_at, replicate, sub_size, length-replicate, length-append,
  write_at-append, write_at-write_at, Bool-cases, inl, inr,
}
use rdpserver.Buf.{Buf, Writer, next, ◌>>◌, init, used, reserve, emit, octet, finish}
use rdpserver.Buf.Laws.{
  IsValid, Outcome, wrote, full, Writes, >>-Writes, put_u16le-Writes, put_u8-Writes, done-Writes,
  emit-emit, emit-nil, emit-IsValid, space_lem,
}
use rdpserver.Buf.Outcomes.{written-emit, init-IsValid}
use rdpserver.Mcs.Response.{
  on_used, staged, patch, patched, in_block, put_block, put_ids, pad_block,
}

-- In a valid buffer with `k` bytes behind `start` and with room for `s`, the call writes `s`.
pub record FitsFrom (start k : ℕ) (w : Writer) (s : List ℕ) : Type 0 where
  pub fits :
      (b : Buf) → IsValid b → b.pos ≡ start + k → b.pos + length s ≤ b.cap → w b ≡ (true, emit s b)

-- The same wherever the buffer stands.
pub record Fits (w : Writer) (s : List ℕ) : Type 0 where
  pub fits : (b : Buf) → IsValid b → b.pos + length s ≤ b.cap → w b ≡ (true, emit s b)

fits_of :
    (s : List ℕ) (b : Buf) (r : Bool × Buf)
    → Outcome s b r
    → b.pos + length s ≤ b.cap
    → r ≡ (true, emit s b)
fits_of s b r (wrote h e) k = e
fits_of s b r (full t u h split room e) k = absurd (omega arith)

pub Writes-Fits : {w : Writer} {s : List ℕ} → Writes w s → Fits w s
Writes-Fits {w} {s} h = record { fits = λ b v k. fits_of s b (w b) (h.outcome b v) k }

pub Fits-FitsFrom : {w : Writer} {s : List ℕ} (start k : ℕ) → Fits w s → FitsFrom start k w s
Fits-FitsFrom start k h = record { fits = λ b v e r. h.fits b v r }

then_fits :
    (w k : Writer) (s t : List ℕ) (b : Buf)
    → w b ≡ (true, emit s b)
    → k (emit s b) ≡ (true, emit t (emit s b))
    → (w >> k) b ≡ (true, emit (s ++ t) b)
then_fits w k s t b e f = ap (λ r. next r k) e ∙ (f ∙ ap (λ c. (true, c)) (emit-emit s t b))

pub >>-FitsFrom :
    {start i : ℕ} {w k : Writer} {s t : List ℕ}
    → Writes w s
    → FitsFrom start (i + length s) k t
    → FitsFrom start i (w >> k) (s ++ t)
>>-FitsFrom {start} {i} {w} {k} {s} {t} h l = record {
  fits = λ b v e r.
      let room : b.pos + length s ≤ b.cap = omega (arith, length-append s t) in
      then_fits w k s t b ((Writes-Fits h).fits b v room) (
        l.fits (emit s b) (emit-IsValid s b v room) (omega arith)
          (omega (arith, length-append s t)));
}

pub >>-Fits : {w k : Writer} {s t : List ℕ} → Fits w s → Fits k t → Fits (w >> k) (s ++ t)
>>-Fits {w} {k} {s} {t} h l = record {
  fits = λ b v r.
      let room : b.pos + length s ≤ b.cap = omega (arith, length-append s t) in
      then_fits w k s t b (h.fits b v room)
        (l.fits (emit s b) (emit-IsValid s b v room) (omega (arith, length-append s t)));
}

pub if-Fits :
    (t : Bool) {w k : Writer} {x y : List ℕ}
    → Fits w x
    → Fits k y
    → Fits (if t then w else k) (if t then x else y)
if-Fits true f g = f
if-Fits false f g = g

-- An array of `n` bytes that a call fills with `s`.
pub staged_lem {ℓ} :
    {A : Type ℓ} (n : ℕ) (w : Writer) (failed : A) (k : List ℕ → A) (s : List ℕ)
    → Fits w s
    → length s ≤ n
    → n < 2 ^ 64
    → staged n w failed k ≡ k s
unfolding staged init used
staged_lem n w failed k s h l m =
    let b : Buf = init (replicate n 0) n in
    let v : IsValid b = init-IsValid (replicate n 0) n (omega (arith, sized)) m in
    let room : b.pos + length s ≤ b.cap = omega (arith, l) in
    ap (λ r. on_used failed k (finish r)) (h.fits b v room) ∙ ap k (written-emit s b v room)
  where
    sized : length (replicate {A = ℕ} n 0) ≡ n
    sized = length-replicate n 0

-- A block: its type, its size with the header, and its body.
abbrev pub block_octets : ℕ → List ℕ → List ℕ
block_octets type s =
    octet type 0 ∷ octet type 1 ∷ octet (length s + 4) 0 ∷ octet (length s + 4) 1 ∷ s

reserve_lem :
    (b : Buf)
    → IsValid b
    → b.pos + 4 ≤ b.cap
    → reserve 4 b ≡ some (b.pos, record b { pos = b.pos + 4 })
unfolding reserve
reserve_lem b v h = ground (arith, space_lem b v)

patch_lem :
    (type : ℕ) (s : List ℕ) (b : Buf)
    → IsValid b
    → b.pos + (4 + length s) ≤ b.cap
    → length s + 4 < 2 ^ 16
    → patch type b.pos (b.pos + 4) (emit s (record b { pos = b.pos + 4 }))
      ≡ emit (block_octets type s) b
unfolding used
patch_lem type s b v h l = λ i. record b { bytes = bytes_eq i; pos = pos_eq i }
  where
    header : ℕ → List ℕ
    header n = octet type 0 ∷ octet type 1 ∷ octet n 0 ∷ octet n 1 ∷ []

    pos_eq : b.pos + 4 + length s ≡ b.pos + length (block_octets type s)
    pos_eq = omega arith

    size_eq : (sub_size (b.pos + 4 + length s) (b.pos + 4) + 4) % 2 ^ 16 ≡ length s + 4
    size_eq = omega (arith, v.small)

    bytes_eq :
        write_at
          (write_at b.bytes (b.pos + 4) s)
          b.pos
          (header ((sub_size (b.pos + 4 + length s) (b.pos + 4) + 4) % 2 ^ 16))
        ≡ write_at b.bytes b.pos (block_octets type s)
    bytes_eq =
        ap (λ n. write_at (write_at b.bytes (b.pos + 4) s) b.pos (header n)) size_eq
        ∙ (write_at-write_at b.bytes b.pos (b.pos + 4) (header (length s + 4)) s (omega arith)
            ∙ write_at-append b.bytes b.pos (b.pos + 4) (header (length s + 4)) s (omega arith))

pub put_block-Fits :
    (type : ℕ) {body : ℕ → Writer} {s : List ℕ}
    → ((start : ℕ) → FitsFrom start 0 (body start) s)
    → length s + 4 < 2 ^ 16
    → Fits (put_block type body) (block_octets type s)
unfolding put_block used
put_block-Fits type {body} {s} h l = record {
  fits = λ b v r.
      let c : Buf = record b { pos = b.pos + 4 } in
      let u : IsValid c = record { backed = v.backed; within = omega arith; small = v.small } in
      ap (in_block type body b) (reserve_lem b v (omega arith))
      ∙ (ap (patched type b.pos (b.pos + 4)) ((h (b.pos + 4)).fits c u (omega arith) (omega arith))
          ∙ ap (λ d. (true, d)) (patch_lem type s b v (omega arith) l));
}

abbrev pub id_octets : List ℕ → List ℕ
id_octets [] = []
id_octets (x ∷ ids) = octet x 0 ∷ octet x 1 ∷ id_octets ids

pub put_ids-Writes :
    (n : ℕ) (ids : List ℕ) → n ≤ length ids → Writes (put_ids n ids) (id_octets (take n ids))
unfolding put_ids
put_ids-Writes zero ids h = done-Writes
put_ids-Writes (suc n) [] h = absurd (omega arith)
put_ids-Writes (suc n) (x ∷ ids) h =
    >>-Writes (put_u16le-Writes x) (put_ids-Writes n ids (omega arith))

pub length-id_octets :
    (n : ℕ) (ids : List ℕ) → n ≤ length ids → length (id_octets (take n ids)) ≡ 2 * n
length-id_octets zero ids h = refl
length-id_octets (suc n) [] h = absurd (omega arith)
length-id_octets (suc n) (x ∷ ids) h = omega (arith, length-id_octets n ids (omega arith))

-- The bytes that make a block of `n` channels a multiple of four bytes.
abbrev pub padding : ℕ → List ℕ
padding n = if n % 2 == 0 then [] else 0 ∷ 0 ∷ []

gap : (start k : ℕ) (b : Buf) → IsValid b → b.pos ≡ start + k → sub_size b.pos start ≡ k
gap start k b v e = omega (arith, v.within, v.small)

pad_stop : (fuel start k : ℕ) → (k + 4) % 4 ≡ 0 → FitsFrom start k (pad_block fuel start) []
unfolding pad_block used
pad_stop zero start k h = record {
  fits = λ b v e r. rw (gap start k b v e, h) (ap (λ c. (true, c)) (sym (emit-nil b)));
}
pad_stop (suc fuel) start k h = record {
  fits = λ b v e r. rw (gap start k b v e, h) (ap (λ c. (true, c)) (sym (emit-nil b)));
}

pad_more :
    (fuel start k : ℕ) {s : List ℕ}
    → ((k + 4) % 4 == 0) ≡ false
    → FitsFrom start (k + 1) (pad_block fuel start) s
    → FitsFrom start k (pad_block (suc fuel) start) (0 ∷ s)
unfolding pad_block used
pad_more fuel start k h l = record {
  fits = λ b v e r. rw (gap start k b v e, h) ((>>-FitsFrom (put_u8-Writes 0) l).fits b v e r);
}

pub pad_block-FitsFrom : (start n : ℕ) → FitsFrom start (4 + 2 * n) (pad_block 3 start) (padding n)
pad_block-FitsFrom start n = elim (Bool-cases (n % 2 == 0)) [
  | inl e ↦ rw e (pad_stop 3 start (4 + 2 * n) (even e))
  | inr e ↦ rw e (
      pad_more 2 start (4 + 2 * n) (odd e) (
        pad_more 1 start (4 + 2 * n + 1) (odd_next e)
          (pad_stop 1 start (4 + 2 * n + 1 + 1) (ended e))))
]
  where
    even : (n % 2 == 0) ≡ true → (4 + 2 * n + 4) % 4 ≡ 0
    even e = ground (arith, e)

    odd : (n % 2 == 0) ≡ false → ((4 + 2 * n + 4) % 4 == 0) ≡ false
    odd e = ground (arith, e)

    odd_next : (n % 2 == 0) ≡ false → ((4 + 2 * n + 1 + 4) % 4 == 0) ≡ false
    odd_next e = ground (arith, e)

    ended : (n % 2 == 0) ≡ false → (4 + 2 * n + 1 + 1 + 4) % 4 ≡ 0
    ended e = ground (arith, e)
