-- ===== src/Buf/Laws.antt =====
-- What the writers of src/common/buf.c do to a valid buffer, in a form that composes.
use rdpserver.Base.{ℕ, ◌+◌, ◌-◌, ◌^◌, ◌≤◌, ◌<◌, ◌≡◌, refl, ap, ◌∙◌, arith}
use rdpserver.Base.{Bool, true, false, List, [], ◌∷◌, ◌++◌, append_assoc}
use rdpserver.Base.{length, write_at, length-append, length-write_at}
use rdpserver.Base.{write_at-append, ltb→lt, ltb→le, Bool-cases, ltb, inl, inr}
use rdpserver.Base.{lt→ltb, le→ltb, sym, if◌then◌else◌}
use mathlib.Core.Path.{subst}
use rdpserver.Buf.{Buf, Writer, next, ◌>>◌, emit, space, put, put_u8, put_u16le, put_u16be}
use rdpserver.Buf.{put_u32le, put_u32be, octet, done}

pub record IsValid (b : Buf) : Type 0 where
  pub backed : b.cap ≤ length b.bytes
  pub within : b.pos ≤ b.cap
  pub small : b.cap < 2 ^ 64

pub space_lem : (b : Buf) → IsValid b → space b ≡ b.cap - b.pos
unfolding space
space_lem b v = omega arith

pub emit-IsValid :
    (s : List ℕ) (b : Buf) → IsValid b → b.pos + length s ≤ b.cap → IsValid (emit s b)
emit-IsValid s b v h = record {
  backed = omega (arith, length-write_at b.bytes b.pos s);
  within = h;
  small = v.small;
}

pub emit-emit : (s t : List ℕ) (b : Buf) → emit t (emit s b) ≡ emit (s ++ t) b
emit-emit s t b = λ i. record b {
  bytes = write_at-append b.bytes b.pos (b.pos + length s) s t refl i;
  pos = sums i;
}
  where
    sums : b.pos + length s + length t ≡ b.pos + length (s ++ t)
    sums = omega (arith, length-append s t)

-- A call that is to write `s` to `b`, with the result `r`: it writes `s` where that fits, and
-- else returns -1 with only a part of `s` written, in front of the capacity.
pub data Outcome (s : List ℕ) (b : Buf) (r : Bool × Buf) : Type 0 where
  wrote : b.pos + length s ≤ b.cap → r ≡ (true, emit s b) → Outcome s b r
  full :
      (t u : List ℕ)
      → b.cap < b.pos + length s
      → s ≡ t ++ u
      → b.pos + length t ≤ b.cap
      → r ≡ (false, emit t b)
      → Outcome s b r

pub record Writes (w : Writer) (s : List ℕ) : Type 0 where
  pub outcome : (b : Buf) → IsValid b → Outcome s b (w b)

pub emit-nil : (b : Buf) → emit [] b ≡ b
unfolding write_at
emit-nil b = λ i. record b { pos = zeroes i }
  where
    zeroes : b.pos + 0 ≡ b.pos
    zeroes = omega arith

refuse :
    (s : List ℕ) (b : Buf) (r : Bool × Buf)
    → IsValid b
    → b.cap < b.pos + length s
    → r ≡ (false, b)
    → Outcome s b r
refuse s b r v h e =
    full [] s h refl (omega (arith, v.within)) (e ∙ ap (λ c. (false, c)) (sym (emit-nil b)))

-- A writer that tests for the room and then writes all of `s`.
checked :
    (s : List ℕ) (b : Buf) (r : Bool × Buf)
    → IsValid b
    → (b.pos + length s ≤ b.cap → r ≡ (true, emit s b))
    → (b.cap < b.pos + length s → r ≡ (false, b))
    → Outcome s b r
checked s b r v f g = elim (Bool-cases (ltb b.cap (b.pos + length s))) [
  | inl h ↦ let lt = ltb→lt _ _ h in refuse s b r v lt (g lt)
  | inr h ↦ let le = ltb→le _ _ h in wrote le (f le)
]

pub put-Writes : (s : List ℕ) → Writes (put s) s
unfolding put
put-Writes s = record {
  outcome = λ b v.
      checked s b _ v (λ h. rw (space_lem b v, le→ltb (b.cap - b.pos) (length s) (omega arith)))
        (λ h. rw (space_lem b v, lt→ltb (b.cap - b.pos) (length s) (omega arith)));
}

pub put_u8-Writes : (x : ℕ) → Writes (put_u8 x) (x ∷ [])
unfolding put_u8 write_at
put_u8-Writes x = record {
  outcome = λ b v.
      checked (x ∷ []) b _ v (λ h. ground (arith, space_lem b v))
        (λ h. ground (arith, space_lem b v));
}

pub put_u16le-Writes : (x : ℕ) → Writes (put_u16le x) (octet x 0 ∷ octet x 1 ∷ [])
unfolding put_u16le write_at
put_u16le-Writes x = record {
  outcome = λ b v.
      checked (octet x 0 ∷ octet x 1 ∷ []) b _ v (λ h. ground (arith, space_lem b v))
        (λ h. ground (arith, space_lem b v));
}

pub put_u16be-Writes : (x : ℕ) → Writes (put_u16be x) (octet x 1 ∷ octet x 0 ∷ [])
unfolding put_u16be write_at
put_u16be-Writes x = record {
  outcome = λ b v.
      checked (octet x 1 ∷ octet x 0 ∷ []) b _ v (λ h. ground (arith, space_lem b v))
        (λ h. ground (arith, space_lem b v));
}

pub put_u32le-Writes :
    (x : ℕ) → Writes (put_u32le x) (octet x 0 ∷ octet x 1 ∷ octet x 2 ∷ octet x 3 ∷ [])
unfolding put_u32le write_at
put_u32le-Writes x = record {
  outcome = λ b v.
      checked (octet x 0 ∷ octet x 1 ∷ octet x 2 ∷ octet x 3 ∷ []) b _ v
        (λ h. ground (arith, space_lem b v)) (λ h. ground (arith, space_lem b v));
}

pub put_u32be-Writes :
    (x : ℕ) → Writes (put_u32be x) (octet x 3 ∷ octet x 2 ∷ octet x 1 ∷ octet x 0 ∷ [])
unfolding put_u32be write_at
put_u32be-Writes x = record {
  outcome = λ b v.
      checked (octet x 3 ∷ octet x 2 ∷ octet x 1 ∷ octet x 0 ∷ []) b _ v
        (λ h. ground (arith, space_lem b v)) (λ h. ground (arith, space_lem b v));
}

pub done-Writes : Writes done []
done-Writes = record {
  outcome = λ b v. wrote (omega (arith, v.within)) (ap (λ c. (true, c)) (sym (emit-nil b)));
}

after_first :
    (s t : List ℕ) (w k : Writer) (b : Buf)
    → b.pos + length s ≤ b.cap
    → w b ≡ (true, emit s b)
    → Outcome t (emit s b) (k (emit s b))
    → Outcome (s ++ t) b ((w >> k) b)
after_first s t w k b h e (wrote h' e') =
    wrote (omega (arith, length-append s t))
      (ap (λ r. next r k) e ∙ e' ∙ ap (λ c. (true, c)) (emit-emit s t b))
after_first s t w k b h e (full t1 t2 h' split room e') =
    full (s ++ t1) t2 (omega (arith, length-append s t))
      (ap (λ r. s ++ r) split ∙ sym (append_assoc s t1 t2)) (omega (arith, length-append s t1))
      (ap (λ r. next r k) e ∙ e' ∙ ap (λ c. (false, c)) (emit-emit s t1 b))

bind_outcome :
    (s t : List ℕ) (w k : Writer) (b : Buf)
    → IsValid b
    → Writes k t
    → Outcome s b (w b)
    → Outcome (s ++ t) b ((w >> k) b)
bind_outcome s t w k b v hk (wrote h e) =
    after_first s t w k b h e (hk.outcome (emit s b) (emit-IsValid s b v h))
bind_outcome s t w k b v hk (full t1 t2 h split room e) =
    full t1 (t2 ++ t) (omega (arith, length-append s t))
      (ap (λ r. r ++ t) split ∙ append_assoc t1 t2 t) room (ap (λ r. next r k) e)

-- Two checked calls in a row write what they write, one after the other.
pub >>-Writes : {s t : List ℕ} {w k : Writer} → Writes w s → Writes k t → Writes (w >> k) (s ++ t)
>>-Writes {s} {t} {w} {k} hw hk = record {
  outcome = λ b v. bind_outcome s t w k b v hk (hw.outcome b v);
}

pub Writes-eq : {s t : List ℕ} {w : Writer} → s ≡ t → Writes w s → Writes w t
Writes-eq {s} {t} {w} e h = subst (λ r. Writes w r) e h

-- A test that picks one of two writers.
pub if-Writes :
    (t : Bool) {w k : Writer} {x y : List ℕ}
    → Writes w x
    → Writes k y
    → Writes (if t then w else k) (if t then x else y)
if-Writes true f g = f
if-Writes false f g = g

pub cons-Writes : (x : ℕ) {s : List ℕ} {k : Writer} → Writes k s → Writes (put_u8 x >> k) (x ∷ s)
cons-Writes x h = >>-Writes (put_u8-Writes x) h
