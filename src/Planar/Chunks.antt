-- ===== src/Planar/Chunks.antt =====
-- src/wire/bitmap_planar.c: `write_rle_bytes` writes at most twice its literals and its run, and
-- the decoder gives them back.
use rdpserver.Base.{
  ℕ, zero, suc, ◌+◌, ◌-◌, ◌*◌, ◌/◌, ◌≤◌, ◌<◌, ◌≡◌, refl, sym, ap, ◌∙◌, arith, true, false, ◌&&◌,
}
use mathlib.Core.Path.{subst}
use rdpserver.Base.{
  List, [], ◌∷◌, ◌++◌, append-nil, append_assoc, ltb, leb, ◌==◌, length, take, drop, replicate,
}
use rdpserver.Base.{
  length-append, length-replicate, length-take, take-append, drop-append, inl, inr, Bool-cases,
}
use rdpserver.Base.{Read, ok}
use rdpserver.Planar.Encode.{
  control, put_chunk, taken, put_raws, run_control, run_rest, put_runs, put_both, write_rle_bytes,
}
use rdpserver.Planar.Runs.{
  last_or, last_or-append, last_or-run, last_or-replicate, replicate_add, split_at, Decodes,
  Decodes-nil, Decodes-append, chunk-Decodes, IsLong,
}
use rdpserver.Planar.Runs.{raw_of-control, run_of-control, run_of-run_control, raw_of-run_control}

-- The encoder writes at most `limit` bytes, which stand for `out` behind the byte `d`.
pub record Encodes (m : Read (List ℕ)) (limit d : ℕ) (out : List ℕ) : Type 0 where
  pub bytes : List ℕ
  pub made : m ≡ ok bytes
  pub size : length bytes ≤ limit
  pub decodes : Decodes bytes d out

run_chunk :
    (run d : ℕ) → 3 ≤ run → Decodes (run_control run ∷ []) d (replicate (run - run_rest run) d)
run_chunk run d h =
    chunk-Decodes (run_control run) [] (run - run_rest run) d (raw_of-run_control run h)
      (run_of-run_control run h) (ground arith)

run_rest-IsLong : (run : ℕ) → 3 ≤ run → IsLong (run_rest run)
run_rest-IsLong run h = ground arith

run_rest_lt : (run : ℕ) → 3 ≤ run → run_rest run + 3 ≤ run
run_rest_lt run h = ground arith

-- A round of the loop over a run.
next_run :
    (fuel room n d : ℕ)
    → 3 ≤ suc n
    → 1 ≤ room
    → Encodes
        (put_runs fuel (room - 1) (run_rest (suc n)))
        (run_rest (suc n))
        d
        (replicate (run_rest (suc n)) d)
    → Encodes (put_runs (suc fuel) room (suc n)) (suc n) d (replicate (suc n) d)
unfolding put_runs
next_run fuel room n d long k rest = record {
  bytes = run_control run ∷ rest.bytes;
  made = rw (nonzero, room_left, rest.made) refl;
  size = omega (arith, rest.size, shorter);
  decodes = rw (whole) (
      Decodes-append (run_control run ∷ []) rest.bytes d (replicate (run - run_rest run) d)
        (replicate (run_rest run) d) (run_chunk run d long)
        (rw (last_or-replicate d (run - run_rest run)) rest.decodes));
}
  where
    run : ℕ
    run = suc n

    shorter : run_rest run + 3 ≤ run
    shorter = run_rest_lt run long

    nonzero : (suc n == 0) ≡ false
    nonzero = ground arith

    room_left : leb 1 room ≡ true
    room_left = ground arith

    whole : replicate (suc n) d ≡ replicate (run - run_rest run) d ++ replicate (run_rest run) d
    whole =
        ap (λ m. replicate m d) {x = suc n} {y = run - run_rest run + run_rest run}
          (omega (arith, shorter))
        ∙ sym (replicate_add (run - run_rest run) (run_rest run) d)

pub put_runs-Encodes :
    (fuel room run d : ℕ)
    → IsLong run
    → run ≤ fuel
    → run ≤ room
    → Encodes (put_runs fuel room run) run d (replicate run d)
unfolding put_runs
put_runs-Encodes zero room zero d l h k = record {
  bytes = [];
  made = refl;
  size = omega arith;
  decodes = Decodes-nil d;
}
put_runs-Encodes zero room (suc n) d l h k = absurd (omega arith)
put_runs-Encodes (suc fuel) room zero d l h k = record {
  bytes = [];
  made = refl;
  size = omega arith;
  decodes = Decodes-nil d;
}
put_runs-Encodes (suc fuel) room (suc n) d (inl z) h k = absurd (omega arith)
put_runs-Encodes (suc fuel) room (suc n) d (inr l) h k =
    let shorter = run_rest_lt (suc n) l in
    next_run fuel room n d l (omega arith) (
      put_runs-Encodes fuel (room - 1) (run_rest (suc n)) d (run_rest-IsLong (suc n) l)
        (omega (arith, shorter)) (omega (arith, shorter)))

taken-IsLong : (run : ℕ) → IsLong run → IsLong (taken run)
taken-IsLong run (inl z) = ground arith
taken-IsLong run (inr t) = ground arith

left-IsLong : (run : ℕ) → IsLong run → IsLong (run - taken run)
left-IsLong run (inl z) = ground arith
left-IsLong run (inr t) = ground arith

taken_le : (run : ℕ) → taken run ≤ run
taken_le run = ground arith

taken_lt : (run : ℕ) → taken run < 16
taken_lt run = ground arith

-- What the loop over the literals leaves: the bytes, and the rest of the run.
pub record EncodesRaws (m : Read (List ℕ × ℕ)) (lits : List ℕ) (run d : ℕ) : Type 0 where
  pub bytes : List ℕ
  pub left : ℕ
  pub made : m ≡ ok (bytes, left)
  pub long : IsLong left
  pub fewer : left ≤ run
  pub size : length bytes + left ≤ 2 * length lits + run
  pub decodes : Decodes bytes d (lits ++ replicate (run - left) (last_or d lits))

-- A control byte with its literals is written where there is room.
put_chunk_lem :
    (room cb : ℕ) (lits more : List ℕ)
    → cb / 16 ≡ length lits
    → 1 + length lits ≤ room
    → put_chunk room cb (lits ++ more) ≡ ok (cb ∷ lits)
unfolding put_chunk
put_chunk_lem room cb lits more e h = rw (some_room, e, enough, there, take-append lits more) refl
  where
    some_room : leb 1 room ≡ true
    some_room = ground arith

    enough : leb (length lits) (room - 1) ≡ true
    enough = ground arith

    there : leb (length lits) (length (lits ++ more)) ≡ true
    there = ground (arith, length-append lits more)

put_raws-none : (fuel room run : ℕ) (src : List ℕ) → put_raws fuel room src 0 run ≡ ok ([], run)
unfolding put_raws
put_raws-none zero room run src = refl
put_raws-none (suc fuel) room run src = refl

-- The last round of the loop over the literals.
last_raws :
    (fuel room : ℕ) (lits more : List ℕ) (run d : ℕ)
    → IsLong run
    → 1 ≤ length lits
    → length lits < 16
    → 2 * length lits + run ≤ room
    → EncodesRaws (put_raws (suc fuel) room (lits ++ more) (length lits) run) lits run d
unfolding put_raws
last_raws fuel room lits more run d l some few h = record {
  bytes = (cb ∷ lits);
  left = run - taken run;
  made =
      rw
        (
          nonzero,
          small,
          put_chunk_lem room cb lits more high (omega arith),
          put_raws-none fuel (room - length (cb ∷ lits)) (run - taken run)
              (drop (cb / 16) (lits ++ more)),
        )
        (rw append-nil refl);
  long = left-IsLong run l;
  fewer = omega arith;
  size = omega (arith, taken_le run);
  decodes =
      rw
        (ap (λ k. replicate k (last_or d lits)) {x = run - (run - taken run)} {y = taken run}
          (omega (arith, taken_le run)))
        (chunk-Decodes cb lits (taken run) d
          (raw_of-control (taken run) (length lits) (taken-IsLong run l) (taken_lt run) few)
          (run_of-control (taken run) (length lits) (taken-IsLong run l) (taken_lt run) few)
          (omega arith));
}
  where
    cb : ℕ
    cb = control (taken run) (length lits)

    nonzero : (length lits == 0) ≡ false
    nonzero = ground arith

    small : ltb (length lits) 16 ≡ true
    small = ground arith

    high : cb / 16 ≡ length lits
    high = omega (arith, taken_lt run)

-- A round that is not the last one.
next_raws :
    (fuel room : ℕ) (front lits more : List ℕ) (run d : ℕ)
    → length front ≡ 15
    → 1 ≤ length lits
    → 2 * length (front ++ lits) + run ≤ room
    → EncodesRaws
        (put_raws fuel (room - 16) (lits ++ more) (length lits) run)
        lits
        run
        (last_or d front)
    → EncodesRaws
        (put_raws (suc fuel) room ((front ++ lits) ++ more) (length (front ++ lits)) run)
        (front ++ lits)
        run
        d
unfolding put_raws
next_raws fuel room front lits more run d e some h rest = record {
  bytes = (240 ∷ front) ++ rest.bytes;
  left = rest.left;
  made =
      rw
        (
          nonzero,
          large,
          append_assoc front lits more,
          put_chunk_lem room 240 front (lits ++ more) (omega arith) (omega (arith, len)),
          behind,
          fifteen,
          e,
          rest.made,
        )
        refl;
  long = rest.long;
  fewer = rest.fewer;
  size = omega (arith, rest.size, len, length-append (240 ∷ front) rest.bytes);
  decodes =
      rw
        (
          append_assoc front lits (replicate (run - rest.left) (last_or d (front ++ lits))),
          last_or-append d front lits,
        )
        (Decodes-append (240 ∷ front) rest.bytes d front
          (lits ++ replicate (run - rest.left) (last_or (last_or d front) lits))
          (subst (λ t. Decodes (240 ∷ front) d t) (append-nil front)
            (chunk-Decodes 240 front 0 d (omega arith) refl (omega arith)))
          rest.decodes);
}
  where
    len : length (front ++ lits) ≡ length front + length lits
    len = length-append front lits

    nonzero : (length (front ++ lits) == 0) ≡ false
    nonzero = ground (arith, len)

    large : ltb (length (front ++ lits)) 16 ≡ false
    large = ground (arith, len)

    behind : drop 15 (front ++ (lits ++ more)) ≡ lits ++ more
    behind = rw (sym e) (drop-append front (lits ++ more))

    fifteen : length (front ++ lits) - 15 ≡ length lits
    fifteen = omega (arith, len)

-- The first `n` of a list that is at least that long, and the others.
front_of :
    (n : ℕ) (xs : List ℕ)
    → n ≤ length xs
    → (front : List ℕ) × (rest : List ℕ) × (xs ≡ front ++ rest) × (length front ≡ n)
front_of n xs h = (take n xs, drop n xs, sym (split_at n xs), omega (arith, length-take n xs))

-- The loop over the literals.
put_raws-Encodes :
    (fuel room : ℕ) (lits more : List ℕ) (run d : ℕ)
    → IsLong run
    → length lits ≤ fuel
    → 2 * length lits + run ≤ room
    → EncodesRaws (put_raws fuel room (lits ++ more) (length lits) run) lits run d
put_raws-Encodes fuel room [] more run d l f h = record {
  bytes = [];
  left = run;
  made = put_raws-none fuel room run ([] ++ more);
  long = l;
  fewer = omega arith;
  size = omega arith;
  decodes = rw (ap (λ k. replicate k d) {x = run - run} {y = 0} (omega arith)) (Decodes-nil d);
}
put_raws-Encodes zero room (x ∷ xs) more run d l f h = absurd (omega arith)
put_raws-Encodes (suc fuel) room (x ∷ xs) more run d l f h =
    elim (Bool-cases (ltb (length (x ∷ xs)) 16)) [
      | inl t ↦ last_raws fuel room (x ∷ xs) more run d l (omega arith) (ground arith) h
      | inr t ↦
          let (front, rest, e, k) = front_of 15 (x ∷ xs) (ground arith) in
          let len = ap length e ∙ length-append front rest in
          let some : 1 ≤ length rest = ground (arith, len) in
          subst (λ t. EncodesRaws (put_raws (suc fuel) room (t ++ more) (length t) run) t run d)
            (sym e)
            (next_raws fuel room front rest more run d k some (omega (arith, ap length e)) (
              put_raws-Encodes fuel (room - 16) rest more run (last_or d front) l
                (omega (arith, len)) (omega (arith, len))))
    ]

put_both-Encodes :
    (lits more : List ℕ) (run room d : ℕ)
    → IsLong run
    → 2 * length lits + run ≤ room
    → Encodes
        (put_both (lits ++ more) (length lits) run room)
        (2 * length lits + run)
        d
        (lits ++ replicate run (last_or d lits))
unfolding put_both
put_both-Encodes lits more run room d l h = record {
  bytes = raws.bytes ++ runs.bytes;
  made = rw (raws.made, runs.made) refl;
  size = omega (arith, length-append raws.bytes runs.bytes, raws.size, runs.size);
  decodes = rw (whole) (
      Decodes-append raws.bytes runs.bytes d (lits ++ replicate (run - raws.left) s)
        (replicate raws.left s) raws.decodes
        (rw (last_or-run d lits (run - raws.left)) runs.decodes));
}
  where
    s : ℕ
    s = last_or d lits

    raws : EncodesRaws (put_raws (length lits) room (lits ++ more) (length lits) run) lits run d
    raws = put_raws-Encodes (length lits) room lits more run d l (omega arith) h

    runs :
        Encodes
          (put_runs raws.left (room - length raws.bytes) raws.left)
          raws.left
          s
          (replicate raws.left s)
    runs =
        put_runs-Encodes raws.left (room - length raws.bytes) raws.left s raws.long (omega arith)
          (omega (arith, raws.size))

    whole :
        lits ++ replicate run s ≡ (lits ++ replicate (run - raws.left) s) ++ replicate raws.left s
    whole =
        ap (λ k. lits ++ replicate k s) {x = run} {y = run - raws.left + raws.left}
          (omega (arith, raws.fewer))
        ∙ ap (λ t. lits ++ t) (sym (replicate_add (run - raws.left) raws.left s))
        ∙ sym (append_assoc lits (replicate (run - raws.left) s) (replicate raws.left s))

-- `write_rle_bytes` on literals and the run behind them.
pub write_rle_bytes-Encodes :
    (lits more : List ℕ) (run room d : ℕ)
    → 2 * (length lits + run) ≤ room
    → Encodes
        (write_rle_bytes ((lits ++ replicate run (last_or d lits)) ++ more) (length lits) run room)
        (2 * (length lits + run))
        d
        (lits ++ replicate run (last_or d lits))
unfolding write_rle_bytes
write_rle_bytes-Encodes lits more run room d h = elim (Bool-cases (length lits == 0 && run == 0)) [
  | inl t ↦ rw t (nothing lits run (ground arith) (ground arith))
  | inr t ↦ elim (Bool-cases (ltb run 3)) [
    | inl u ↦ rw (t, u) (as_literals (ground arith))
    | inr u ↦
        rw (t, u, append_assoc lits (replicate run (last_or d lits)) more)
          (with_limit (
            put_both-Encodes lits (replicate run (last_or d lits) ++ more) run room d
              (inr (ground arith)) (omega arith)))
  ]
]
  where
    s : ℕ
    s = last_or d lits

    all : List ℕ
    all = lits ++ replicate run s

    len : length all ≡ length lits + run
    len = omega (arith, length-append lits (replicate run s), length-replicate run s)

    nothing :
        (lits : List ℕ) (run : ℕ)
        → length lits ≡ 0
        → run ≡ 0
        → Encodes (ok []) (2 * (length lits + run)) d (lits ++ replicate run (last_or d lits))
    nothing [] zero e k = record {
      bytes = [];
      made = refl;
      size = omega arith;
      decodes = Decodes-nil d;
    }
    nothing [] (suc n) e k = absurd (omega arith)
    nothing (x ∷ xs) run e k = absurd (omega arith)

    with_limit :
        {m : Read (List ℕ)} {out : List ℕ}
        → Encodes m (2 * length lits + run) d out
        → Encodes m (2 * (length lits + run)) d out
    with_limit e = record {
      bytes = e.bytes;
      made = e.made;
      size = omega (arith, e.size);
      decodes = e.decodes;
    }

    as_literals :
        run < 3
        → Encodes
            (put_both (all ++ more) (length lits + run) 0 room)
            (2 * (length lits + run))
            d
            all
    as_literals few =
        let e = put_both-Encodes all more 0 room d (inl refl) (omega (arith, len)) in
        record {
          bytes = e.bytes;
          made = rw (sym len) e.made;
          size = omega (arith, e.size, len);
          decodes = subst (λ t. Decodes e.bytes d t) (append-nil all) e.decodes;
        }
