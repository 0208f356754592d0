-- ===== src/Planar/Rows.antt =====
-- src/wire/bitmap_planar.c: a row and a plane that were encoded are decoded to the same bytes.
use rdpserver.Base.{
  ℕ, zero, suc, ◌+◌, ◌-◌, ◌*◌, ◌≤◌, ◌<◌, ◌≡◌, refl, sym, ap, ◌∙◌, arith, true, false, not, ◌&&◌,
}
use mathlib.Core.Path.{subst}
use rdpserver.Base.{
  List, [], ◌∷◌, ◌++◌, append-nil, append_assoc, ltb, leb, ◌==◌, if◌then◌else◌, length, drop,
  replicate,
}
use rdpserver.Base.{length-append, length-replicate, drop-append, inl, inr, Bool-cases}
use rdpserver.Base.{Read, ok}
use rdpserver.Planar.Encode.{
  write_rle_bytes, count, ends, raw_kept, run_kept, scan, encode_rle_scanline,
}
use rdpserver.Planar.Runs.{
  last_or, last_or-append, replicate_add, Decodes, Decodes-nil, Decodes-append,
}
use rdpserver.Planar.Chunks.{Encodes, write_rle_bytes-Encodes}

-- A step of the scan, from what it writes and how it goes on.
scan_step :
    (b : ℕ) (rest src : List ℕ) (i symbol raw run room d : ℕ) (bytes out1 : List ℕ)
    (raw' run' room' limit limit' : ℕ) (out2 out : List ℕ)
    → (if ends run (symbol == b) && leb 3 run
        then write_rle_bytes (drop (i + 1 - (raw + run + 1)) src) raw run room
        else ok [])
      ≡ ok bytes
    → raw_kept raw run (symbol == b) + count (not (symbol == b)) ≡ raw'
    → run_kept run (symbol == b) + count (symbol == b) ≡ run'
    → room - length bytes ≡ room'
    → Decodes bytes d out1
    → Encodes (scan rest src (i + 1) b raw' run' room') limit (last_or d out1) out2
    → length bytes + limit ≤ limit'
    → out1 ++ out2 ≡ out
    → Encodes (scan (b ∷ rest) src i symbol raw run room) limit' d out
unfolding scan
scan_step b rest src i symbol raw run room d bytes out1 raw' run' room' limit limit' out2 out
      flushed eraw erun eroom f e h o =
    record {
      bytes = bytes ++ e.bytes;
      made = rw (flushed, eraw, erun, eroom, e.made) refl;
      size = omega (arith, e.size, length-append bytes e.bytes);
      decodes = rw (sym o) (Decodes-append bytes e.bytes d out1 out2 f e.decodes);
    }

Encodes-le :
    (m : Read (List ℕ)) (limit limit' d : ℕ) (out : List ℕ)
    → limit ≤ limit'
    → Encodes m limit d out
    → Encodes m limit' d out
Encodes-le m limit limit' d out h e = record {
  bytes = e.bytes;
  made = e.made;
  size = omega (arith, e.size);
  decodes = e.decodes;
}

-- What lies before the pending bytes does not matter.
pending_at :
    (done pend rest src : List ℕ) (i n : ℕ)
    → src ≡ done ++ (pend ++ rest)
    → i ≡ length done + n
    → drop (i - n) src ≡ pend ++ rest
pending_at done pend rest src i n e k =
    ap (λ t. drop t src) {x = i - n} {y = length done} (omega arith)
    ∙ ap (λ t. drop (length done) t) e
    ∙ drop-append done (pend ++ rest)

ends-same : (run : ℕ) → (ends run true && leb 3 run) ≡ false
ends-same run = ground arith

ends-short : (run : ℕ) → run < 3 → (ends run false && leb 3 run) ≡ false
ends-short run h = ground arith

ends-long : (run : ℕ) → 3 ≤ run → (ends run false && leb 3 run) ≡ true
ends-long run h = ground arith

raw_kept-same : (raw run : ℕ) → raw_kept raw run true ≡ raw
raw_kept-same raw run = ground arith

raw_kept-short : (raw run : ℕ) → run < 3 → raw_kept raw run false ≡ raw + run
raw_kept-short raw run h = ground arith

raw_kept-long : (raw run : ℕ) → 3 ≤ run → raw_kept raw run false ≡ 0
raw_kept-long raw run h = ground arith

run_kept-same : (run : ℕ) → run_kept run true ≡ run
run_kept-same run = ground arith

run_kept-other : (run : ℕ) → run_kept run false ≡ 0
run_kept-other run = ground arith

-- The scan, with `lits` and a run pending: what it writes stands for these and the rest of the row.
scan-Encodes :
    (rest done lits src : List ℕ) (run i symbol raw room d : ℕ)
    → src ≡ done ++ ((lits ++ replicate run symbol) ++ rest)
    → i ≡ length done + (length lits + run)
    → symbol ≡ last_or d lits
    → raw ≡ length lits
    → 2 * (length lits + run + length rest) ≤ room
    → Encodes
        (scan rest src i symbol raw run room)
        (2 * (length lits + run + length rest))
        d
        ((lits ++ replicate run symbol) ++ rest)
unfolding scan
scan-Encodes [] done lits src run i symbol raw room d e k l m h =
    elim (Bool-cases (raw == 0 && run == 0)) [
      | inl t ↦ rw t (nothing lits run (ground arith) (ground arith))
      | inr t ↦
          rw
            (
              t,
              pending_at done (lits ++ replicate run symbol) [] src i (raw + run) e (omega arith),
              m,
              l,
              append-nil (lits ++ replicate run (last_or d lits)),
            )
            (Encodes-le _ (2 * (length lits + run)) _ d _ (omega arith) (write_ends))
    ]
  where
    len : length (lits ++ replicate run symbol) ≡ length lits + run
    len = omega (arith, length-append lits (replicate run symbol), length-replicate run symbol)

    write_ends :
        Encodes
          (write_rle_bytes (lits ++ replicate run (last_or d lits)) (length lits) run room)
          (2 * (length lits + run))
          d
          (lits ++ replicate run (last_or d lits))
    write_ends =
        subst
          (λ t.
            Encodes (write_rle_bytes t (length lits) run room) (2 * (length lits + run)) d
              (lits ++ replicate run (last_or d lits)))
          (append-nil (lits ++ replicate run (last_or d lits)))
          (write_rle_bytes-Encodes lits [] run room d (omega arith))

    nothing :
        (lits : List ℕ) (run : ℕ)
        → length lits ≡ 0
        → run ≡ 0
        → Encodes (ok []) (2 * (length lits + run + 0)) d ((lits ++ replicate run symbol) ++ [])
    nothing [] zero e k = record {
      bytes = [];
      made = refl;
      size = omega arith;
      decodes = Decodes-nil d;
    }
    nothing [] (suc n) e k = absurd (omega arith)
    nothing (x ∷ xs) run e k = absurd (omega arith)
scan-Encodes (b ∷ rest) done lits src run i symbol raw room d e k l m h =
    elim (Bool-cases (symbol == b)) [
      | inl t ↦
          let same : symbol ≡ b = ground arith in
          scan_step b rest src i symbol raw run room d [] [] raw (run + 1) room _ _ _ _
            (rw (t, ends-same run) refl) (rw (t, raw_kept-same raw run) (omega arith))
            (rw (t, run_kept-same run) refl) (omega arith) (Decodes-nil d)
            (scan-Encodes rest done lits src (run + 1) (i + 1) b raw room d
              (e ∙ ap (λ x. done ++ x) (grown same)) (omega arith) (sym same ∙ l) m (omega arith))
            (omega arith) (sym (grown same))
      | inr t ↦ elim (Bool-cases (ltb run 3)) [
        | inl u ↦
            scan_step b rest src i symbol raw run room d [] [] (raw + run + 1) 0 room _ _ _ _
              (rw (t, ends-short run (ground arith)) refl)
              (rw (t, raw_kept-short raw run (ground arith)) refl) (rw (t, run_kept-other run) refl)
              (omega arith) (Decodes-nil d)
              (scan-Encodes rest done (pend ++ b ∷ []) src 0 (i + 1) b (raw + run + 1) room d
                (e ∙ ap (λ x. done ++ x) as_literals) (omega (arith, longer))
                (sym (last_or-append d pend (b ∷ []))) (omega (arith, longer))
                (omega (arith, longer)))
              (omega (arith, longer)) (sym as_literals)
        | inr u ↦
            let w = flush (ground arith) in
            scan_step b rest src i symbol raw run room d w.bytes pend 1 0 (room - length w.bytes) _
              _ _ _ (rw (t, ends-long run (ground arith)) w.made)
              (rw (t, raw_kept-long raw run (ground arith)) refl) (rw (t, run_kept-other run) refl)
              refl w.decodes
              (scan-Encodes rest (done ++ pend) (b ∷ []) src 0 (i + 1) b 1 (room - length w.bytes)
                (last_or d pend) (e ∙ sym (append_assoc done pend (b ∷ rest)))
                (omega (arith, len, length-append done pend)) refl refl (omega (arith, w.size)))
              (omega (arith, w.size)) refl
      ]
    ]
  where
    pend : List ℕ
    pend = lits ++ replicate run symbol

    len : length pend ≡ length lits + run
    len = omega (arith, length-append lits (replicate run symbol), length-replicate run symbol)

    longer : length (pend ++ b ∷ []) ≡ length lits + run + 1
    longer = omega (arith, len, length-append pend (b ∷ []))

    grown : symbol ≡ b → pend ++ (b ∷ rest) ≡ (lits ++ replicate (run + 1) b) ++ rest
    grown s =
        ap (λ x. (lits ++ replicate run x) ++ (b ∷ rest)) s
        ∙ sym (append_assoc (lits ++ replicate run b) (b ∷ []) rest)
        ∙ ap (λ x. x ++ rest) (append_assoc lits (replicate run b) (b ∷ []))
        ∙ ap (λ x. (lits ++ x) ++ rest) (replicate_add run 1 b)

    as_literals : pend ++ (b ∷ rest) ≡ ((pend ++ b ∷ []) ++ []) ++ rest
    as_literals = rw (append-nil (pend ++ b ∷ [])) (sym (append_assoc pend (b ∷ []) rest))

    flush :
        3 ≤ run
        → Encodes
            (write_rle_bytes (drop (i + 1 - (raw + run + 1)) src) raw run room)
            (2 * (length lits + run))
            d
            pend
    flush long =
        rw (pending_at done pend (b ∷ rest) src (i + 1) (raw + run + 1) e (omega arith), m, l)
          (write_rle_bytes-Encodes lits (b ∷ rest) run room d (omega arith))

pub encode_rle_scanline-Encodes :
    (src : List ℕ) (room : ℕ)
    → 2 * length src ≤ room
    → Encodes (encode_rle_scanline src room) (2 * length src) 0 src
unfolding encode_rle_scanline
encode_rle_scanline-Encodes src room h =
    Encodes-le _ _ _ 0 _ (omega arith)
      (scan-Encodes src [] [] src 0 0 0 0 room 0 refl (omega arith) refl refl (omega arith))
