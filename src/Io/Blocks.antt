-- ===== src/Io/Blocks.antt =====
-- The loops of src/common/io.c on whole blocks, against the bytes of the stream.
use rdpserver.Base.{ℕ, zero, suc, ◌+◌, ◌-◌, ◌≤◌, ◌<◌, ◌≡◌, refl, sym, ap, ◌∙◌, arith}
use rdpserver.Base.{Bool, true, false, List, [], ◌∷◌, ◌++◌, append_assoc, append-nil, inl, inr, ◌⊎◌}
use rdpserver.Base.{length, take, drop, length-append, length-drop}
use rdpserver.Io.{Event, got, eof, intr, broken, FullRead, returned, read_loop, read_full}
use rdpserver.Io.{
  Accept, took, stop, refuse, FullWrite, sent, error, blocked, write_loop, write_full,
}

-- The bytes that arrive before the stream ends or breaks.
unfoldable pub payload : List Event → List ℕ
payload [] = []
payload (got x xs ∷ es) = (x ∷ xs) ++ payload es
payload (eof ∷ es) = []
payload (intr ∷ es) = payload es
payload (broken ∷ es) = []

-- The next event that ends the stream is its end.
unfoldable pub ends : List Event → Bool
ends [] = false
ends (got x xs ∷ es) = ends es
ends (eof ∷ es) = true
ends (intr ∷ es) = ends es
ends (broken ∷ es) = false

pub take-append_le : (n : ℕ) (xs ys : List ℕ) → n ≤ length xs → take n (xs ++ ys) ≡ take n xs
take-append_le zero xs ys h = refl
take-append_le (suc n) [] ys h = absurd (omega arith)
take-append_le (suc n) (x ∷ xs) ys h = ap (λ t. x ∷ t) (take-append_le n xs ys (omega arith))

pub drop-append_le : (n : ℕ) (xs ys : List ℕ) → n ≤ length xs → drop n (xs ++ ys) ≡ drop n xs ++ ys
drop-append_le zero xs ys h = refl
drop-append_le (suc n) [] ys h = absurd (omega arith)
drop-append_le (suc n) (x ∷ xs) ys h = drop-append_le n xs ys (omega arith)

pub take-append_ge :
    (n : ℕ) (xs ys : List ℕ) → length xs ≤ n → take n (xs ++ ys) ≡ xs ++ take (n - length xs) ys
take-append_ge n [] ys h = ap (λ k. take k ys) (omega arith)
take-append_ge zero (x ∷ xs) ys h = absurd (omega arith)
take-append_ge (suc n) (x ∷ xs) ys h =
    ap (λ t. x ∷ t) (take-append_ge n xs ys (omega arith) ∙ ap (λ k. xs ++ take k ys) (omega arith))

pub drop-append_ge :
    (n : ℕ) (xs ys : List ℕ) → length xs ≤ n → drop n (xs ++ ys) ≡ drop (n - length xs) ys
drop-append_ge n [] ys h = ap (λ k. drop k ys) (omega arith)
drop-append_ge zero (x ∷ xs) ys h = absurd (omega arith)
drop-append_ge (suc n) (x ∷ xs) ys h =
    drop-append_ge n xs ys (omega arith) ∙ ap (λ k. drop k ys) (omega arith)

-- The loop stored the first `n` bytes behind `stored`, and left the others.
pub record Took (n : ℕ) (es : List Event) (stored : List ℕ) (r : FullRead) : Type 0 where
  pub rest : List Event
  pub result : r ≡ returned (stored ++ take n (payload es)) rest
  pub left : payload rest ≡ drop n (payload es)
  pub same_end : ends rest ≡ ends es

List-cases : (xs : List ℕ) → (xs ≡ []) ⊎ ((y : ℕ) × (ys : List ℕ) × (xs ≡ y ∷ ys))
List-cases [] = inl refl
List-cases (y ∷ ys) = inr (y, ys, refl)

-- A chunk that fits whole, and the rest of the loop behind it.
after_all :
    (x : ℕ) (xs : List ℕ) (es : List Event) (k : ℕ) (stored : List ℕ) {r : FullRead}
    → length xs ≤ k
    → Took (k - length xs) es (stored ++ (x ∷ xs)) r
    → Took (suc k) (got x xs ∷ es) stored r
unfolding payload ends
after_all x xs es k stored h t = record {
  rest = t.rest;
  result =
      t.result
      ∙ ap (λ s. returned s t.rest)
          (append_assoc stored (x ∷ xs) (take (k - length xs) (payload es))
            ∙ ap (λ s. stored ++ (x ∷ s)) (sym (take-append_ge k xs (payload es) h)));
  left = t.left ∙ sym (drop-append_ge k xs (payload es) h);
  same_end = t.same_end;
}

read_loop-Took :
    (es : List Event) (n : ℕ) (stored : List ℕ)
    → n ≤ length (payload es)
    → Took n es stored (read_loop es n stored)
unfolding read_loop payload ends
read_loop-Took es zero stored h = record {
  rest = es;
  result = rw append-nil;
  left = refl;
  same_end = refl;
}
read_loop-Took [] (suc k) stored h = absurd (omega arith)
read_loop-Took (intr ∷ es) (suc k) stored h =
    let t = read_loop-Took es (suc k) stored h in
    record { rest = t.rest; result = t.result; left = t.left; same_end = t.same_end }
read_loop-Took (broken ∷ es) (suc k) stored h = absurd (omega arith)
read_loop-Took (eof ∷ es) (suc k) stored h = absurd (omega arith)
read_loop-Took (got x xs ∷ es) (suc k) stored h = elim (List-cases (drop k xs)) [
  | inl e ↦
      rw (e, read_loop)
        (after_all x xs es k stored (omega (arith, length-drop k xs, ap length e)) (
          read_loop-Took es (k - length xs) (stored ++ (x ∷ xs))
            (omega (arith, h, length-append xs (payload es), length-drop k xs, ap length e))))
  | inr (y, ys, e) ↦
      rw (e, read_loop)
        (record {
          rest = got y ys ∷ es;
          result =
              ap (λ t. returned (stored ++ (x ∷ t)) (got y ys ∷ es))
                (sym (take-append_le k xs (payload es) (within y ys e)));
          left =
              ap (λ t. t ++ payload es) (sym e)
              ∙ sym (drop-append_le k xs (payload es) (within y ys e));
          same_end = refl;
        })
]
  where
    within : (y : ℕ) (ys : List ℕ) → drop k xs ≡ y ∷ ys → k ≤ length xs
    within y ys e = omega (arith, length-drop k xs, ap length e)

-- If `n` bytes arrive before the stream ends or breaks, the call returns the first `n`, in order,
-- and leaves the others, however they were split into chunks.
pub read_full-Took :
    (es : List Event) (n : ℕ) → n ≤ length (payload es) → Took n es [] (read_full es n)
unfolding read_full
read_full-Took es n h = read_loop-Took es n [] h

-- The loop stored all that arrived before the end of the stream.
record Ended (es : List Event) (stored : List ℕ) (r : FullRead) : Type 0 where
  rest : List Event
  result : r ≡ returned (stored ++ payload es) rest

Ended-chunk :
    (x : ℕ) (xs : List ℕ) (es : List Event) (stored : List ℕ) {r : FullRead}
    → Ended es (stored ++ (x ∷ xs)) r
    → Ended (got x xs ∷ es) stored r
unfolding payload
Ended-chunk x xs es stored t = record {
  rest = t.rest;
  result = t.result ∙ ap (λ s. returned s t.rest) (append_assoc stored (x ∷ xs) (payload es));
}

read_loop-Ended :
    (es : List Event) (n : ℕ) (stored : List ℕ)
    → length (payload es) < n
    → ends es ≡ true
    → Ended es stored (read_loop es n stored)
unfolding read_loop payload ends
read_loop-Ended es zero stored h e = absurd (omega arith)
read_loop-Ended [] (suc k) stored h e = cc
read_loop-Ended (intr ∷ es) (suc k) stored h e =
    let t = read_loop-Ended es (suc k) stored h e in record { rest = t.rest; result = t.result }
read_loop-Ended (broken ∷ es) (suc k) stored h e = cc
read_loop-Ended (eof ∷ es) (suc k) stored h e = record { rest = eof ∷ es; result = rw append-nil }
read_loop-Ended (got x xs ∷ es) (suc k) stored h e = elim (List-cases (drop k xs)) [
  | inl d ↦
      rw (d, read_loop)
        (Ended-chunk x xs es stored (
          read_loop-Ended es (k - length xs) (stored ++ (x ∷ xs))
            (omega (arith, h, length-append xs (payload es), length-drop k xs, ap length d)) e))
  | inr (y, ys, d) ↦
      absurd (omega (arith, h, length-append xs (payload es), length-drop k xs, ap length d))
]

-- If the stream ends before `n` bytes have arrived, the call returns all that arrived.
pub read_full_short :
    (es : List Event) (n : ℕ)
    → length (payload es) < n
    → ends es ≡ true
    → (rest : List Event) × (read_full es n ≡ returned (payload es) rest)
unfolding read_full
read_full_short es n h e = let t = read_loop-Ended es n [] h e in (t.rest, t.result)

-- A run of `write_full` on `src`: success means that all of it was sent, and in any other case
-- what was sent is a front part of it.
abbrev pub Wrote : List ℕ → FullWrite → Type 0
Wrote src (sent n wire) = (wire ≡ src) × (n ≡ length src)
Wrote src (error wire) = (rest : List ℕ) × (wire ++ rest ≡ src)
Wrote src (blocked wire) = (rest : List ℕ) × (wire ++ rest ≡ src)

take-append-drop : (k : ℕ) (xs : List ℕ) → take k xs ++ drop k xs ≡ xs
take-append-drop zero xs = refl
take-append-drop (suc k) [] = refl
take-append-drop (suc k) (x ∷ xs) = ap (λ t. x ∷ t) (take-append-drop k xs)

write_loop-Wrote :
    (ops : List Accept) (left : List ℕ) (n : ℕ) (wire src : List ℕ)
    → wire ++ left ≡ src
    → n ≡ length wire
    → Wrote src (write_loop ops left n wire)
unfolding write_loop
write_loop-Wrote [] [] n wire src e h = let w = sym (append-nil wire) ∙ e in (w, h ∙ ap length w)
write_loop-Wrote (op ∷ ops) [] n wire src e h =
    let w = sym (append-nil wire) ∙ e in (w, h ∙ ap length w)
write_loop-Wrote [] (x ∷ xs) n wire src e h = (x ∷ xs, e)
write_loop-Wrote (stop ∷ ops) (x ∷ xs) n wire src e h = write_loop-Wrote ops (x ∷ xs) n wire src e h
write_loop-Wrote (refuse ∷ ops) (x ∷ xs) n wire src e h = (x ∷ xs, e)
write_loop-Wrote (took k ∷ ops) (x ∷ xs) n wire src e h =
    write_loop-Wrote ops (drop k (x ∷ xs)) (n + length (take k (x ∷ xs))) (wire ++ take k (x ∷ xs))
      src
      (append_assoc wire (take k (x ∷ xs)) (drop k (x ∷ xs))
        ∙ ap (λ t. wire ++ t) (take-append-drop k (x ∷ xs))
        ∙ e)
      (omega (arith, h, length-append wire (take k (x ∷ xs))))

-- However the transport splits the writes, a successful call has sent exactly `src` and returns
-- its length, and a failed or unfinished one has sent a front part of `src`.
pub write_full-Wrote : (ops : List Accept) (src : List ℕ) → Wrote src (write_full ops src)
unfolding write_full
write_full-Wrote ops src = write_loop-Wrote ops src 0 [] src refl refl
