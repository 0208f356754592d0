-- ===== src/Vchan/Keeps.antt =====
-- The invariant of src/channels/vchan.c, and what a whole run of fragments gives.
use rdpserver.Base.{ℕ, ◌+◌, ◌≤◌, ◌<◌, ◌≡◌, ap, ◌∙◌, arith, Bool, true}
use rdpserver.Base.{Option, List, [], ◌∷◌, ◌++◌}
use rdpserver.Base.{length, length-write_at, length-append, append_assoc, inl, inr}
use rdpserver.Vchan.{Reasm, Result, more, complete, reset, is_last, append}
use rdpserver.Vchan.{continue, begin, feed}
use rdpserver.Vchan.Spec
use rdpserver.Vchan.Spec.{Progress, idle, gathering}
use rdpserver.Vchan.Refine.{IsValid, IsMalloc, view, feed_refines, is_some, alloc_cases, begun}

append-IsValid :
    (r : Reasm) (frag : List ℕ) (last : Bool)
    → r.active ≡ true
    → IsValid r
    → IsValid (append r frag last).1
unfolding append reset
append-IsValid r frag last a v =
    ground (arith, v.backed a, v.within a, v.bounded a, v.small, length-write_at r.buf r.len frag)

continue-IsValid :
    (r : Reasm) (frag : List ℕ) (last : Bool) → IsValid r → IsValid (continue r frag last).1
unfolding continue
continue-IsValid r frag last v = ground (arith, append-IsValid r frag last)

reset-IsValid : (r : Reasm) → IsValid r → IsValid (reset r)
unfolding reset
reset-IsValid r v = ground (arith, v.small)

begin-IsValid :
    (alloc : ℕ → Option (List ℕ)) (r : Reasm) (frag : List ℕ) (total : ℕ) (last : Bool)
    → IsMalloc alloc
    → IsValid r
    → total ≤ r.max_pdu
    → IsValid (begin (alloc total) (reset r) frag total last).1
unfolding begin reset
begin-IsValid alloc r frag total last m v h = elim (alloc_cases alloc total m) [
  | inl e ↦ rw e (unfold reset in reset-IsValid r v)
  | inr (block, e, size) ↦ rw e (continue-IsValid _ frag last (begun block r total v.small h size))
]

-- On a valid accumulator, and with a malloc that gives what it is asked for or NULL, every call
-- keeps the accumulator valid: on every branch, the bytes so far lie in the block and no block is
-- larger than `max_pdu`.
pub feed-IsValid :
    (alloc : ℕ → Option (List ℕ)) (r : Reasm) (frag : List ℕ) (total flags : ℕ)
    → IsMalloc alloc
    → IsValid r
    → IsValid (feed alloc r frag total flags).1
unfolding feed
feed-IsValid alloc r frag total flags m v = ground (
  arith,
  reset-IsValid r v,
  begin-IsValid alloc r frag total (is_last flags) m v,
  continue-IsValid r frag (is_last flags) v,
)

-- The fragments behind the first: `fs` with no flag, then `last` with CHANNEL_FLAG_LAST.
abbrev pub feed_rest :
    (ℕ → Option (List ℕ)) → ℕ → List (List ℕ) → List ℕ → Result × Reasm → Result × Reasm
feed_rest alloc total [] last (res, r) = feed alloc r last total 2
feed_rest alloc total (f ∷ fs) last (res, r) =
    feed_rest alloc total fs last (feed alloc r f total 0)

-- A whole run: `f0` with CHANNEL_FLAG_FIRST, and the others.
abbrev pub feed_all :
    (ℕ → Option (List ℕ)) → Reasm → ℕ → List ℕ → List (List ℕ) → List ℕ → Result × Reasm
feed_all alloc r total f0 fs last = feed_rest alloc total fs last (feed alloc r f0 total 1)

abbrev pub join : List (List ℕ) → List ℕ → List ℕ
join [] last = last
join (f ∷ fs) last = f ++ join fs last

spec_next :
    (max total : ℕ) (room : Bool) (acc f : List ℕ)
    → length acc + length f ≤ total
    → Spec.feed max room (gathering total acc) f total 0 ≡ (more, gathering total (acc ++ f))
unfolding Spec.feed
spec_next max total room acc f h = ground arith

spec_last :
    (max total : ℕ) (room : Bool) (acc f : List ℕ)
    → length acc + length f ≤ total
    → (Spec.feed max room (gathering total acc) f total 2).0 ≡ complete (acc ++ f)
unfolding Spec.feed
spec_last max total room acc f h = ground arith

spec_first :
    (max total : ℕ) (p : Progress) (f : List ℕ)
    → 0 < total
    → total ≤ max
    → length f ≤ total
    → Spec.feed max true p f total 1 ≡ (more, gathering total f)
unfolding Spec.feed
spec_first max total p f h k l = ground arith

module _ (alloc : ℕ → Option (List ℕ)) (m : IsMalloc alloc) (total : ℕ) where
  feed_rest_lem :
      (fs : List (List ℕ)) (last acc : List ℕ) (t : Result × Reasm)
      → IsValid t.1
      → view t.1 ≡ gathering total acc
      → length acc + length (join fs last) ≤ total
      → (feed_rest alloc total fs last t).0 ≡ complete (acc ++ join fs last)
  feed_rest_lem [] last acc (res, r) v e h =
      ap (λ (q : Result × Progress). q.0)
        (feed_refines alloc r last total 2 m v
          ∙ ap (λ p. Spec.feed r.max_pdu (is_some (alloc total)) p last total 2) e)
      ∙ spec_last r.max_pdu total (is_some (alloc total)) acc last h
  feed_rest_lem (f ∷ fs) last acc (res, r) v e h =
      feed_rest_lem fs last (acc ++ f) (feed alloc r f total 0) (feed-IsValid alloc r f total 0 m v)
        (ap (λ (q : Result × Progress). q.1)
          (feed_refines alloc r f total 0 m v
            ∙ ap (λ p. Spec.feed r.max_pdu (is_some (alloc total)) p f total 0) e
            ∙ spec_next r.max_pdu total (is_some (alloc total)) acc f
                (omega (arith, length-append f (join fs last)))))
        (omega (arith, length-append acc f, length-append f (join fs last)))
      ∙ ap complete (append_assoc acc f (join fs last))

-- On a valid accumulator, with a malloc that gives what it is asked for, and has the memory: a PDU
-- declared with a total of 1 to `max_pdu` bytes, whose fragments do not exceed that total, is
-- handed back whole with the last one, its fragments in order, whatever the accumulator held
-- before. The first fragment has CHANNEL_FLAG_FIRST, the last one CHANNEL_FLAG_LAST, and any
-- number stand between them.
pub feed_all_lem :
    (alloc : ℕ → Option (List ℕ)) (r : Reasm) (total : ℕ) (f0 : List ℕ) (fs : List (List ℕ))
    (last : List ℕ)
    → IsMalloc alloc
    → IsValid r
    → is_some (alloc total) ≡ true
    → 0 < total
    → total ≤ r.max_pdu
    → length (f0 ++ join fs last) ≤ total
    → (feed_all alloc r total f0 fs last).0 ≡ complete (f0 ++ join fs last)
feed_all_lem alloc r total f0 fs last m v room pos fits h =
    feed_rest_lem alloc m total fs last f0 (feed alloc r f0 total 1)
      (feed-IsValid alloc r f0 total 1 m v)
      (ap (λ (q : Result × Progress). q.1)
        (feed_refines alloc r f0 total 1 m v
          ∙ ap (λ k. Spec.feed r.max_pdu k (view r) f0 total 1) room
          ∙ spec_first r.max_pdu total (view r) f0 pos fits
              (omega (arith, length-append f0 (join fs last)))))
      (omega (arith, length-append f0 (join fs last)))
