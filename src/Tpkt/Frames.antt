-- ===== src/Tpkt/Frames.antt =====
-- `rdp_tpkt_read` of src/wire/tpkt.c against a description by the bytes that arrive.
use rdpserver.Base.{All, IsByte, leb, ◌&&◌, ◌*◌}
use rdpserver.Base.{ℕ, zero, suc, ◌+◌, ◌-◌, ◌≤◌, ◌<◌, ◌≡◌, refl, ap, ◌∙◌, arith, true, false}
use rdpserver.Base.{Option, none, some, List, [], ◌∷◌, ◌++◌, ◌==◌, ltb, if◌then◌else◌, inl, inr}
use rdpserver.Base.{
  length, take, drop, length-take, length-drop, Bool-cases, ltb→lt, ltb→le, lt→ltb, le→ltb,
}
use rdpserver.Io.{Event}
use rdpserver.Io.Blocks.{payload, ends, read_full-Took, read_full_short}
use rdpserver.Tpkt.{hdr_len, parse_hdr, Errno, einval, eproto, emsgsize, Outcome, closed, frame}
use rdpserver.Tpkt.{failure, blocked, read_body, parsed, header_result, read}
use rdpserver.Tpkt.Header.{parse_hdr-ge}

-- What a caller sees, the bytes still to come included.
pub data Verdict : Type 0 where
  closes : Verdict
  frames : List ℕ → List ℕ → Verdict
  refuses : Errno → Verdict

abbrev pub view : Outcome → Option Verdict
view (closed es) = some closes
view (frame bytes es) = some (frames bytes (payload es))
view (failure e es) = some (refuses e)
view blocked = none

abbrev sized : ℕ → List ℕ → Option ℕ → Verdict
sized cap p none = refuses eproto
sized cap p (some n) =
    if ltb cap n
    then refuses emsgsize
    else if ltb (length p) n
    then refuses eproto
    else frames (take n p) (drop n p)

-- The length that a header announces: the version 3, a reserved 0, and a length of at least 7 in
-- two bytes, the high one first.
abbrev pub announced : List ℕ → Option ℕ
announced (v ∷ r ∷ hi ∷ lo ∷ _) =
    if v == 3 && r == 0 && leb 7 (256 * hi + lo) then some (256 * hi + lo) else none
announced _ = none

-- The frame at the front of the bytes `p`, behind which the stream ends.
unfoldable pub verdict : ℕ → List ℕ → Verdict
verdict cap p =
    if ltb cap 4
    then refuses einval
    else if length p == 0
    then closes
    else if ltb (length p) 4
    then refuses eproto
    else sized cap p (announced p)

take-add : (m k n : ℕ) (xs : List ℕ) → n ≡ m + k → take m xs ++ take k (drop m xs) ≡ take n xs
take-add zero k n xs e = ap (λ j. take j xs) (omega arith)
take-add (suc m) k zero xs e = absurd (omega arith)
take-add (suc m) zero (suc n) [] e = refl
take-add (suc m) (suc k) (suc n) [] e = refl
take-add (suc m) k (suc n) (x ∷ xs) e = ap (λ t. x ∷ t) (take-add m k n xs (omega arith))

drop-add : (m k n : ℕ) (xs : List ℕ) → n ≡ m + k → drop k (drop m xs) ≡ drop n xs
drop-add zero k n xs e = ap (λ j. drop j xs) (omega arith)
drop-add (suc m) k zero xs e = absurd (omega arith)
drop-add (suc m) zero (suc n) [] e = refl
drop-add (suc m) (suc k) (suc n) [] e = refl
drop-add (suc m) k (suc n) (x ∷ xs) e = drop-add m k n xs (omega arith)

module _ (p : List ℕ) (rest : List Event) (n : ℕ) (h : 7 ≤ n) where
  -- The body of a frame of `n` bytes, whose header has been taken off the front of `p`.
  body_lem :
      payload rest ≡ drop 4 p
      → ends rest ≡ true
      → 4 ≤ length p
      → view (read_body (take 4 p) (n - 4) rest)
        ≡ some (if ltb (length p) n then refuses eproto else frames (take n p) (drop n p))
  unfolding read_body
  body_lem e t k = elim (Bool-cases (ltb (length p) n)) [
    | inl c ↦ short (omega (arith, ltb→lt (length p) n c, ap length e, length-drop 4 p)) c
    | inr c ↦ whole (omega (arith, ltb→le (length p) n c, ap length e, length-drop 4 p)) c
  ]
    where
      short :
          length (payload rest) < n - 4
          → ltb (length p) n ≡ true
          → view (read_body (take 4 p) (n - 4) rest)
            ≡ some (if ltb (length p) n then refuses eproto else frames (take n p) (drop n p))
      short l c =
          let (r, s) = read_full_short rest (n - 4) l t in
          rw (c, lt→ltb 0 (n - 4) (omega arith), s, lt→ltb (length (payload rest)) (n - 4) l)

      whole :
          n - 4 ≤ length (payload rest)
          → ltb (length p) n ≡ false
          → view (read_body (take 4 p) (n - 4) rest)
            ≡ some (if ltb (length p) n then refuses eproto else frames (take n p) (drop n p))
      whole l c =
          let w = read_full-Took rest (n - 4) l in
          rw
            (
              c,
              lt→ltb 0 (n - 4) (omega arith),
              w.result,
              le→ltb (length (take (n - 4) (payload rest))) (n - 4)
                  (omega (arith, length-take (n - 4) (payload rest))),
            )
            (cc (
              w.left,
              e,
              take-add 4 (n - 4) n p (omega arith),
              drop-add 4 (n - 4) n p (omega arith),
            ))

module _ (cap : ℕ) (p : List ℕ) (rest : List Event) where
  parsed_lem :
      (o : Option ℕ)
      → parse_hdr (take 4 p) ≡ o
      → payload rest ≡ drop 4 p
      → ends rest ≡ true
      → 4 ≤ length p
      → view (parsed cap (take 4 p) o rest) ≡ some (sized cap p o)
  unfolding parsed
  parsed_lem none q e t k = refl
  parsed_lem (some n) q e t k = elim (Bool-cases (ltb cap n)) [
    | inl c ↦ rw c
    | inr c ↦ rw c (body_lem p rest n (parse_hdr-ge (take 4 p) n q) e t k)
  ]

not_empty : (p : List ℕ) → 4 ≤ length p → (length p == 0) ≡ false
not_empty p h = ground arith

-- The parser finds the length that the header announces.
parse_hdr-announced :
    (p : List ℕ) → All IsByte p → 4 ≤ length p → parse_hdr (take 4 p) ≡ announced p
unfolding parse_hdr
parse_hdr-announced [] h k = absurd (omega arith)
parse_hdr-announced (a ∷ []) h k = absurd (omega arith)
parse_hdr-announced (a ∷ b ∷ []) h k = absurd (omega arith)
parse_hdr-announced (a ∷ b ∷ c ∷ []) h k = absurd (omega arith)
parse_hdr-announced (a ∷ b ∷ c ∷ d ∷ p) h k =
    let x : c < 256 = h.1.1.0 in let y : d < 256 = h.1.1.1.0 in ground (arith, x, y)

-- On a stream of bytes that ends, `rdp_tpkt_read` gives exactly the verdict that the arriving bytes call
-- for, however they are split into chunks: the frame at their front with the other bytes left,
-- 0 if none arrive, and else -1 with the errno of the first failing check. It always returns.
pub read_refines :
    (es : List Event) (cap : ℕ)
    → ends es ≡ true
    → All IsByte (payload es)
    → view (read es cap) ≡ some (verdict cap (payload es))
unfolding read header_result verdict
read_refines es cap t b = elim (Bool-cases (ltb cap hdr_len)) [
  | inl c ↦ rw c
  | inr c ↦ elim (Bool-cases (ltb (length (payload es)) 4)) [
    | inl d ↦ let (r, s) = read_full_short es 4 (ltb→lt _ _ d) t in rw (c, s, d) (ground arith)
    | inr d ↦
        let w = read_full-Took es 4 (ltb→le _ _ d) in
        let size : length (take 4 (payload es)) ≡ 4 =
          omega (arith, length-take 4 (payload es), ltb→le _ _ d) in
        rw (c, d, w.result, size, not_empty (payload es) (ltb→le _ _ d))
          (parsed_lem cap (payload es) w.rest (parse_hdr (take 4 (payload es))) refl w.left
              (w.same_end ∙ t) (ltb→le _ _ d)
            ∙ ap (λ o. some (sized cap (payload es) o))
                (parse_hdr-announced (payload es) b (ltb→le _ _ d)))
  ]
]
