-- ===== src/Vchan/Refine.antt =====
-- The reassembly of src/channels/vchan.c against an accumulator that is just a list of bytes.
use rdpserver.Base.{ℕ, ◌+◌, ◌^◌, ◌≤◌, ◌<◌, ◌≡◌, refl, sym, ap, ◌∙◌, arith, Bool, true, false, not}
use rdpserver.Base.{Option, none, some, List, [], ◌++◌, if◌then◌else◌}
use rdpserver.Base.{length, take, write_at, take-write_at, length-take, inl, inr, ◌⊎◌, Bool-cases}
use rdpserver.Vchan.{Reasm, Result, bad, reset, is_last, append}
use rdpserver.Vchan.{continue, begin, feed}
use rdpserver.Vchan.Spec
use rdpserver.Vchan.Spec.{Progress, idle, gathering}

abbrev pub view : Reasm → Progress
view r = if r.active then gathering r.cap (take r.len r.buf) else idle

abbrev pub view_all : Result × Reasm → Result × Progress
view_all t = (t.0, view t.1)

-- An accumulator in progress has a block of its capacity, and the bytes so far fit in it.
pub record IsValid (r : Reasm) : Type 0 where
  pub backed : r.active ≡ true → r.cap ≤ length r.buf
  pub within : r.active ≡ true → r.len ≤ r.cap
  pub bounded : r.active ≡ true → r.cap ≤ r.max_pdu
  pub small : r.max_pdu < 2 ^ 64

-- What the code relies on: malloc returns a block of the size asked for.
pub record IsMalloc (alloc : ℕ → Option (List ℕ)) : Type 0 where
  pub size : (n : ℕ) (block : List ℕ) → alloc n ≡ some block → length block ≡ n

abbrev pub is_some {ℓ} : {A : Type ℓ} → Option A → Bool
is_some none = false
is_some (some a) = true

-- The bytes so far of a longer block.
gathered :
    (r : Reasm) (frag : List ℕ)
    → r.cap ≤ length r.buf
    → r.len + length frag ≤ r.cap
    → take (r.len + length frag) (write_at r.buf r.len frag) ≡ take r.len r.buf ++ frag
gathered r frag h k = take-write_at r.buf r.len (r.len + length frag) frag refl (omega arith)

append_refines :
    (r : Reasm) (frag : List ℕ) (last : Bool)
    → r.active ≡ true
    → IsValid r
    → view_all (append r frag last) ≡ Spec.continue (gathering r.cap (take r.len r.buf)) frag last
unfolding append Spec.continue
append_refines r frag last a v =
    ground (
      arith,
      v.backed a,
      v.within a,
      v.bounded a,
      v.small,
      length-take r.len r.buf,
      gathered r frag,
    )

unless {ℓ} : {A : Type ℓ} (b : Bool) (x y : A) → b ≡ true → (if not b then x else y) ≡ y
unless true x y e = refl
unless false x y e = cc

when {ℓ} : {A : Type ℓ} (b : Bool) (x y : A) → b ≡ true → (if b then x else y) ≡ x
when true x y e = refl
when false x y e = cc

pub continue_refines :
    (r : Reasm) (frag : List ℕ) (last : Bool)
    → IsValid r
    → view_all (continue r frag last) ≡ Spec.continue (view r) frag last
unfolding continue Spec.continue
continue_refines r frag last v = elim (Bool-cases r.active) [
  | inl a ↦
      ap view_all (unless r.active (bad, r) (append r frag last) a)
      ∙ append_refines r frag last a v
      ∙ ap (λ p. Spec.continue p frag last)
          (sym (when r.active (gathering r.cap (take r.len r.buf)) idle a))
  | inr a ↦ stopped a
]
  where
    stopped : r.active ≡ false → view_all (continue r frag last) ≡ Spec.continue (view r) frag last
    stopped a = ground arith

-- `alloc` at one size: NULL, or a block of that size.
pub alloc_cases :
    (alloc : ℕ → Option (List ℕ)) (n : ℕ)
    → IsMalloc alloc
    → (alloc n ≡ none) ⊎ ((block : List ℕ) × (alloc n ≡ some block) × (length block ≡ n))
alloc_cases alloc n m = go (alloc n) refl
  where
    go :
        (o : Option (List ℕ))
        → alloc n ≡ o
        → (alloc n ≡ none) ⊎ ((block : List ℕ) × (alloc n ≡ some block) × (length block ≡ n))
    go none e = inl e
    go (some block) e = inr (block, e, m.size n block e)

pub begun :
    (block : List ℕ) (r : Reasm) (total : ℕ)
    → r.max_pdu < 2 ^ 64
    → total ≤ r.max_pdu
    → length block ≡ total
    → IsValid (record { buf = block; cap = total; len = 0; max_pdu = r.max_pdu; active = true })
begun block r total h k e = record {
  backed = λ _. omega arith;
  within = λ _. omega arith;
  bounded = λ _. k;
  small = h;
}

begin_refines :
    (alloc : ℕ → Option (List ℕ)) (r : Reasm) (frag : List ℕ) (total : ℕ) (last : Bool)
    → IsMalloc alloc
    → IsValid r
    → total ≤ r.max_pdu
    → view_all (begin (alloc total) (reset r) frag total last) ≡ (
        if not (is_some (alloc total))
        then (bad, idle)
        else Spec.continue (gathering total []) frag last)
unfolding begin reset
begin_refines alloc r frag total last m v h = elim (alloc_cases alloc total m) [
  | inl e ↦ rw e
  | inr (block, e, size) ↦ rw e (continue_refines _ frag last (begun block r total v.small h size))
]

-- On a valid accumulator, and with a malloc that gives what it is asked for or NULL, each call
-- answers as the list does, and leaves the accumulator holding what the list then holds.
pub feed_refines :
    (alloc : ℕ → Option (List ℕ)) (r : Reasm) (frag : List ℕ) (total flags : ℕ)
    → IsMalloc alloc
    → IsValid r
    → view_all (feed alloc r frag total flags)
      ≡ Spec.feed r.max_pdu (is_some (alloc total)) (view r) frag total flags
unfolding feed Spec.feed reset
feed_refines alloc r frag total flags m v = ground (
  arith,
  begin_refines alloc r frag total (is_last flags) m v,
  continue_refines r frag (is_last flags) v,
)
