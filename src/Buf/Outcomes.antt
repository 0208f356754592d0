-- ===== src/Buf/Outcomes.antt =====
-- What a caller may rely on after the calls of src/common/buf.c.
use rdpserver.Base.{ℕ, ◌+◌, ◌^◌, ◌≤◌, ◌<◌, ◌≡◌, refl, ap, ◌∙◌, arith}
use rdpserver.Base.{Bool, true, Option, none, some, List, ◌++◌}
use rdpserver.Base.{length, take, drop, length-write_at, take-write_at}
use rdpserver.Base.{take-write_at_earlier, drop-write_at, sym, drop-append, length-take, ◌↔◌}
use mathlib.Core.Path.{subst}
use rdpserver.Buf.{Buf, Writer, emit}
use rdpserver.Buf.{init, finish}
use rdpserver.Buf.Laws.{IsValid, Outcome, wrote, full, Writes, emit-IsValid}

-- What a caller may rely on after a call, whatever it returned: the storage outside
-- `[pos, cap)` is as it was, and the buffer is valid.
pub record IsFrame (b c : Buf) : Type 0 where
  pub valid : IsValid c
  pub same_cap : c.cap ≡ b.cap
  pub same_size : length c.bytes ≡ length b.bytes
  pub grows : b.pos ≤ c.pos
  pub before : take b.pos c.bytes ≡ take b.pos b.bytes
  pub behind : drop b.cap c.bytes ≡ drop b.cap b.bytes

emit-IsFrame : (s : List ℕ) (b : Buf) → IsValid b → b.pos + length s ≤ b.cap → IsFrame b (emit s b)
emit-IsFrame s b v h = record {
  valid = emit-IsValid s b v h;
  same_cap = refl;
  same_size = length-write_at b.bytes b.pos s;
  grows = omega arith;
  before = take-write_at_earlier b.bytes b.pos b.pos s (omega arith);
  behind = drop-write_at b.bytes b.pos b.cap s h;
}

pub Outcome-IsFrame :
    (s : List ℕ) (b : Buf) (r : Bool × Buf) → IsValid b → Outcome s b r → IsFrame b r.1
Outcome-IsFrame s b r v (wrote h e) = subst (λ q. IsFrame b q.1) (sym e) (emit-IsFrame s b v h)
Outcome-IsFrame s b r v (full t u h split room e) =
    subst (λ q. IsFrame b q.1) (sym e) (emit-IsFrame t b v room)

-- The bytes written since `init`.
abbrev pub written : Buf → List ℕ
written b = take b.pos b.bytes

pub written-emit :
    (s : List ℕ) (b : Buf)
    → IsValid b
    → b.pos + length s ≤ b.cap
    → written (emit s b) ≡ written b ++ s
written-emit s b v h =
    take-write_at b.bytes b.pos (b.pos + length s) s refl (omega (arith, v.backed))

pub init-IsValid : (p : List ℕ) (cap : ℕ) → cap ≤ length p → cap < 2 ^ 64 → IsValid (init p cap)
unfolding init
init-IsValid p cap h k = record { backed = h; within = omega arith; small = k }

-- The bytes that a call wrote which took the buffer from `b` to `c`.
abbrev pub output : Buf → Buf → List ℕ
output b c = drop b.pos (take c.pos c.bytes)

drop-append_eq : (n : ℕ) (xs ys : List ℕ) → length xs ≡ n → drop n (xs ++ ys) ≡ ys
drop-append_eq n xs ys e = ap (λ k. drop k (xs ++ ys)) (sym e) ∙ drop-append xs ys

output-emit :
    (s : List ℕ) (b : Buf) → IsValid b → b.pos + length s ≤ b.cap → output b (emit s b) ≡ s
output-emit s b v h =
    ap (λ t. drop b.pos t) (written-emit s b v h)
    ∙ drop-append_eq b.pos (take b.pos b.bytes) s
        (omega (arith, length-take b.pos b.bytes, v.backed, v.within))

pub output-Outcome :
    (s : List ℕ) (b : Buf) (r : Bool × Buf)
    → IsValid b
    → Outcome s b r
    → r.0 ≡ true
    → output b r.1 ≡ s
output-Outcome s b r v (wrote h e) k = rw e (output-emit s b v h)
output-Outcome s b r v (full t u h split room e) k = cc (ap (λ q. q.0) e)

pub room-Outcome :
    (s : List ℕ) (b : Buf) (r : Bool × Buf)
    → Outcome s b r
    → (r.0 ≡ true) ↔ (b.pos + length s ≤ b.cap)
room-Outcome s b r (wrote h e) = (λ _. h, λ _. ap (λ q. q.0) e)
room-Outcome s b r (full t u h split room e) =
    (λ k. cc (ap (λ q. q.0) e), λ k. absurd (omega arith))

pub output-Writes :
    (s : List ℕ) (w : Writer) (b : Buf)
    → Writes w s
    → IsValid b
    → (w b).0 ≡ true
    → output b (w b).1 ≡ s
output-Writes s w b h v = output-Outcome s b (w b) v (h.outcome b v)

finish-init :
    (s p : List ℕ) (cap : ℕ) (r : Bool × Buf)
    → IsValid (init p cap)
    → Outcome s (init p cap) r
    → length s ≤ cap
    → (c : Buf) × (finish r ≡ some c) × (written c ≡ s) × (c.pos ≡ length s)
unfolding init
finish-init s p cap r v (wrote h e) k =
    (emit s (init p cap), rw e, written-emit s (init p cap) v h, omega arith)
finish-init s p cap r v (full t u h split room e) k = absurd (omega arith)

refuse_init :
    (s p : List ℕ) (cap : ℕ) (r : Bool × Buf)
    → Outcome s (init p cap) r
    → cap < length s
    → finish r ≡ none
unfolding init
refuse_init s p cap r (wrote h e) k = absurd (omega arith)
refuse_init s p cap r (full t u h split room e) k = rw e

-- A builder that writes `s` to a fresh buffer of `cap` bytes returns -1 where `s` does not fit,
-- and else the number of bytes of `s`, which are then at the front of the storage.
pub record Builds (s : List ℕ) (cap : ℕ) (o : Option Buf) : Type 0 where
  pub fits : length s ≤ cap → (c : Buf) × (o ≡ some c) × (written c ≡ s) × (c.pos ≡ length s)
  pub refuses : cap < length s → o ≡ none

pub Builds-Writes :
    {s : List ℕ} {w : Writer} (p : List ℕ) (cap : ℕ)
    → Writes w s
    → cap ≤ length p
    → cap < 2 ^ 64
    → Builds s cap (finish (w (init p cap)))
Builds-Writes {s} {w} p cap h k l =
    let v = init-IsValid p cap k l in
    let o = h.outcome (init p cap) v in
    record {
      fits = finish-init s p cap (w (init p cap)) v o;
      refuses = refuse_init s p cap (w (init p cap)) o;
    }
