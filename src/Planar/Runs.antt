-- ===== src/Planar/Runs.antt =====
-- src/wire/bitmap_planar.c: what the decoder makes of the control bytes that the encoder writes.
use rdpserver.Base.{ℕ, zero, suc, ◌+◌, ◌-◌, ◌≤◌, ◌<◌, ◌≡◌, refl, sym, ap, ◌∙◌, arith, true, false}
use rdpserver.Base.{
  List, [], ◌∷◌, ◌++◌, append-nil, append_assoc, leb, length, take, drop, replicate,
}
use rdpserver.Base.{length-append, length-replicate, inl, inr, ◌⊎◌}
use rdpserver.Base.{ok}
use rdpserver.Planar.Encode.{control, run_control, run_rest}
use rdpserver.Planar.Decode.{literals, repeats, run_of, raw_of, decode_row}

-- The last of a list, or what came before it.
abbrev pub last_or : ℕ → List ℕ → ℕ
last_or d [] = d
last_or d (x ∷ xs) = last_or x xs

pub last_or-append : (d : ℕ) (xs ys : List ℕ) → last_or d (xs ++ ys) ≡ last_or (last_or d xs) ys
last_or-append d [] ys = refl
last_or-append d (x ∷ xs) ys = last_or-append x xs ys

pub last_or-replicate : (d n : ℕ) → last_or d (replicate n d) ≡ d
last_or-replicate d zero = refl
last_or-replicate d (suc n) = last_or-replicate d n

pub replicate_add : (m n a : ℕ) → replicate m a ++ replicate n a ≡ replicate (m + n) a
replicate_add zero n a = ap (λ k. replicate k a) {x = n} {y = 0 + n} (omega arith)
replicate_add (suc m) n a =
    ap (λ t. a ∷ t) (replicate_add m n a) ∙ ap (λ k. replicate k a) {x = suc (m + n)} (omega arith)

pub split_at : (n : ℕ) (xs : List ℕ) → take n xs ++ drop n xs ≡ xs
split_at zero xs = refl
split_at (suc n) [] = refl
split_at (suc n) (x ∷ xs) = ap (λ t. x ∷ t) (split_at n xs)

-- From the row so far, the last byte and the source the loop comes to others.
pub record Leads (width : ℕ) (p : List ℕ) (last : ℕ) (row : List ℕ) (q : List ℕ) (v : ℕ)
    (full : List ℕ) : Type 0 where
  pub lead :
      (fuel : ℕ)
      → length p < fuel
      → (rest : ℕ) × (length q < rest)
        × (decode_row fuel width last row p ≡ decode_row rest width v full q)

pub Leads-refl :
    (width : ℕ) (p : List ℕ) (last : ℕ) (row : List ℕ) → Leads width p last row p last row
Leads-refl width p last row = record { lead = λ fuel h. (fuel, h, refl) }

pub Leads-trans :
    {width : ℕ} {p q r : List ℕ} {u v w : ℕ} {xs ys zs : List ℕ}
    → Leads width p u xs q v ys
    → Leads width q v ys r w zs
    → Leads width p u xs r w zs
Leads-trans {width = width} {p = p} {r = r} {u = u} {w = w} {xs = xs} {zs = zs} f g = record {
  lead = both;
}
  where
    both :
        (fuel : ℕ)
        → length p < fuel
        → (rest : ℕ) × (length r < rest)
          × (decode_row fuel width u xs p ≡ decode_row rest width w zs r)
    both fuel h = let a = f.lead fuel h in let b = g.lead a.0 a.1 in (b.0, b.1, a.2 ∙ b.2)

literals_lem :
    (lits p : List ℕ) (width last : ℕ) (row : List ℕ)
    → length row + length lits ≤ width
    → literals (length lits) width (lits ++ p) last row ≡ ok (p, last_or last lits, row ++ lits)
unfolding literals
literals_lem [] p width last row h = rw append-nil refl
literals_lem (x ∷ lits) p width last row h = rw (room) (
    literals_lem lits p width x (row ++ x ∷ []) (omega (arith, length-append row (x ∷ [])))
    ∙ ap (λ t. ok (p, last_or x lits, t)) (append_assoc row (x ∷ []) lits))
  where
    room : leb width (length row) ≡ false
    room = ground arith

repeats_lem :
    (n width last : ℕ) (row : List ℕ)
    → length row + n ≤ width
    → repeats n width last row ≡ ok (row ++ replicate n last)
unfolding repeats
repeats_lem zero width last row h = rw append-nil refl
repeats_lem (suc n) width last row h = rw (room) (
    repeats_lem n width last (row ++ last ∷ []) (omega (arith, length-append row (last ∷ [])))
    ∙ ap (λ t. ok t) (append_assoc row (last ∷ []) (replicate n last)))
  where
    room : leb width (length row) ≡ false
    room = ground arith

-- One round of the decoder.
pub chunk-Leads :
    (cb : ℕ) (lits p : List ℕ) (n width last : ℕ) (row : List ℕ)
    → raw_of cb ≡ length lits
    → run_of cb ≡ n
    → 0 < length lits + n
    → length row + length lits + n ≤ width
    → Leads width
        (cb ∷ (lits ++ p))
        last
        row
        p
        (last_or last lits)
        ((row ++ lits) ++ replicate n (last_or last lits))
unfolding decode_row
chunk-Leads cb lits p n width last row eraw erun pos h = record { lead = round }
  where
    s : ℕ
    s = last_or last lits

    full : List ℕ
    full = (row ++ lits) ++ replicate n s

    room : leb width (length row) ≡ false
    room = ground arith

    first : leb 1 (length (cb ∷ (lits ++ p))) ≡ true
    first = ground arith

    enough : leb (length lits) (length (cb ∷ (lits ++ p)) - 1) ≡ true
    enough = ground (arith, length-append lits p)

    round :
        (fuel : ℕ)
        → length (cb ∷ (lits ++ p)) < fuel
        → (rest : ℕ) × (length p < rest)
          × (decode_row fuel width last row (cb ∷ (lits ++ p)) ≡ decode_row rest width s full p)
    round zero l = absurd (omega arith)
    round (suc fuel) l = (
      fuel,
      omega (arith, length-append lits p),
      rw
          (
            room,
            first,
            eraw,
            erun,
            enough,
            literals_lem lits p width last row (omega arith),
            repeats_lem n width s (row ++ lits) (omega (arith, length-append row lits)),
          )
          refl,
    )

-- Behind the byte `d`, the source `bytes` stands for `out`, whatever follows.
pub record Decodes (bytes : List ℕ) (d : ℕ) (out : List ℕ) : Type 0 where
  pub leads :
      (p : List ℕ) (width : ℕ) (row : List ℕ)
      → length row + length out ≤ width
      → Leads width (bytes ++ p) d row p (last_or d out) (row ++ out)

pub Decodes-nil : (d : ℕ) → Decodes [] d []
Decodes-nil d = record { leads = λ p width row h. rw append-nil (Leads-refl width p d row) }

pub Decodes-append :
    (front back : List ℕ) (d : ℕ) (xs ys : List ℕ)
    → Decodes front d xs
    → Decodes back (last_or d xs) ys
    → Decodes (front ++ back) d (xs ++ ys)
Decodes-append front back d xs ys f g = record {
  leads = λ p width row h.
      rw (append_assoc front back p, last_or-append d xs ys, sym (append_assoc row xs ys))
        (Leads-trans (f.leads (back ++ p) width row (omega (arith, length-append xs ys)))
          (g.leads p width (row ++ xs) (omega (arith, length-append xs ys, length-append row xs))));
}

-- The last byte of literals with a run of the last one.
pub last_or-run :
    (d : ℕ) (lits : List ℕ) (n : ℕ)
    → last_or d (lits ++ replicate n (last_or d lits)) ≡ last_or d lits
last_or-run d lits n =
    last_or-append d lits (replicate n (last_or d lits)) ∙ last_or-replicate (last_or d lits) n

pub chunk-Decodes :
    (cb : ℕ) (lits : List ℕ) (n d : ℕ)
    → raw_of cb ≡ length lits
    → run_of cb ≡ n
    → 0 < length lits + n
    → Decodes (cb ∷ lits) d (lits ++ replicate n (last_or d lits))
chunk-Decodes cb lits n d eraw erun pos = record {
  leads = λ p width row h.
      rw (last_or-run d lits n, sym (append_assoc row lits (replicate n (last_or d lits))))
        (chunk-Leads cb lits p n width d row eraw erun pos (
          omega (
            arith,
            length-append lits (replicate n (last_or d lits)),
            length-replicate n (last_or d lits),
          )));
}

-- A run that a control byte can hold, or that is longer.
abbrev pub IsLong : ℕ → Type 0
IsLong run = (run ≡ 0) ⊎ (3 ≤ run)

pub raw_of-control :
    (run raw : ℕ) → IsLong run → run < 16 → raw < 16 → raw_of (control run raw) ≡ raw
raw_of-control run raw (inl z) h k = ground arith
raw_of-control run raw (inr l) h k = ground arith

pub run_of-control :
    (run raw : ℕ) → IsLong run → run < 16 → raw < 16 → run_of (control run raw) ≡ run
run_of-control run raw (inl z) h k = ground arith
run_of-control run raw (inr l) h k = ground arith

-- A round of `put_runs`.
pub run_of-run_control : (run : ℕ) → 3 ≤ run → run_of (run_control run) ≡ run - run_rest run
run_of-run_control run h = ground arith

pub raw_of-run_control : (run : ℕ) → 3 ≤ run → raw_of (run_control run) ≡ 0
raw_of-run_control run h = ground arith
