-- ===== src/Rle/Sources.antt =====
-- src/wire/bitmap_rle.c: reads of the decoder stay inside the source.
use rdpserver.Base.{ℕ, ◌+◌, ◌*◌, ◌≤◌, arith}
use rdpserver.Base.{List, [], ◌∷◌, ◌==◌, length}
use rdpserver.Base.{Ensures, returns, refused, bind_then, if_then}
use rdpserver.Rle.Decode.{ir8, ir16, ir_pixel, read_count, read_fom_count}

ir8-Ensures : (p : List ℕ) → Ensures (λ t. length t.1 ≤ length p) (ir8 p)
unfolding ir8
ir8-Ensures [] = refused
ir8-Ensures (x ∷ p) = returns {a = (x, p)} (omega arith)

pub ir16-Ensures : (p : List ℕ) → Ensures (λ t. length t.1 ≤ length p) (ir16 p)
unfolding ir16
ir16-Ensures p = bind_then (ir8-Ensures p) λ (t : ℕ × List ℕ) q.
    bind_then (ir8-Ensures t.1)
      λ (u : ℕ × List ℕ) q2. returns {a = (t.0 + u.0 * 256, u.1)} (omega (arith, q, q2))

pub ir_pixel-Ensures : (p : List ℕ) → Ensures (λ t. length t.1 ≤ length p) (ir_pixel p)
unfolding ir_pixel
ir_pixel-Ensures p = bind_then (ir8-Ensures p) λ (t : ℕ × List ℕ) q.
    bind_then (ir8-Ensures t.1) λ (u : ℕ × List ℕ) q2.
      bind_then (ir8-Ensures u.1) λ (v : ℕ × List ℕ) q3.
        returns {a = (t.0 + u.0 * 256 + v.0 * 65536, v.1)} (omega (arith, q, q2, q3))

pub read_count-Ensures :
    (n more : ℕ) (p : List ℕ) → Ensures (λ t. length t.1 ≤ length p) (read_count n more p)
unfolding read_count
read_count-Ensures n more p =
    if_then (n == 0)
      (λ e. bind_then (ir8-Ensures p) λ (t : ℕ × List ℕ) q. returns {a = (t.0 + more, t.1)} q)
      λ e. returns {a = (n, p)} (omega arith)

pub read_fom_count-Ensures :
    (n : ℕ) (p : List ℕ) → Ensures (λ t. length t.1 ≤ length p) (read_fom_count n p)
unfolding read_fom_count
read_fom_count-Ensures n p =
    if_then (n == 0)
      (λ e. bind_then (ir8-Ensures p) λ (t : ℕ × List ℕ) q. returns {a = (t.0 + 1, t.1)} q)
      λ e. returns {a = (n * 8, p)} (omega arith)
