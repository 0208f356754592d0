-- ===== src/BmpCache/Slots.antt =====
-- Facts on the slot array of src/wire/bmpcache.c.
use rdpserver.Base.{
  ℕ, zero, suc, ◌+◌, ◌-◌, ◌%◌, ◌≤◌, ◌<◌, ◌≡◌, ◌≢◌, refl, sym, ap, ◌∙◌, arith, true, false,
}
use rdpserver.Base.{some, List, [], ◌∷◌, ltb, if◌then◌else◌, length, take, set}
use rdpserver.Base.{inl, inr, ◌⊎◌, Bool-cases, length-take}
use mathlib.Core.Bool.{true≢false}
use rdpserver.BmpCache.{Slot, slot_at, advance}
use native.Mathlib.Nat.{mod-eq_of_lt, mod_self}

-- The number of occupied slots.
unfoldable pub count : List Slot → ℕ
count [] = 0
count (s ∷ slots) = if s.occupied then suc (count slots) else count slots

pub count-le : (s : List Slot) → count s ≤ length s
unfolding count
count-le [] = omega arith
count-le (x ∷ s) = ground (arith, count-le s)

-- A list that is not full has a free slot, and a full one has none.
pub free_slot :
    (s : List Slot)
    → count s < length s
    → (j : ℕ) × (j < length s) × ((slot_at s j).occupied ≡ false)
unfolding count
free_slot [] h = absurd (omega arith)
free_slot (x ∷ s) h = elim (Bool-cases x.occupied) [
  | inl e ↦ let (j, k, f) = free_slot s (ground arith) in (suc j, omega arith, f)
  | inr e ↦ (0, omega arith, e)
]

pub all_occupied :
    (s : List Slot) (j : ℕ) → count s ≡ length s → j < length s → (slot_at s j).occupied ≡ true
unfolding count
all_occupied [] j h k = absurd (omega arith)
all_occupied (x ∷ s) zero h k = ground (arith, count-le s)
all_occupied (x ∷ s) (suc j) h k = all_occupied s j (ground (arith, count-le s)) (omega arith)

pub slot_at-take : (n : ℕ) (s : List Slot) (j : ℕ) → j < n → slot_at (take n s) j ≡ slot_at s j
slot_at-take zero s j h = absurd (omega arith)
slot_at-take (suc n) [] j h = refl
slot_at-take (suc n) (x ∷ s) zero h = refl
slot_at-take (suc n) (x ∷ s) (suc j) h = slot_at-take n s j (omega arith)

pub take-set :
    (n : ℕ) (s : List Slot) (i : ℕ) (v : Slot) → i < n → take n (set s i v) ≡ set (take n s) i v
take-set zero s i v h = absurd (omega arith)
take-set (suc n) [] i v h = refl
take-set (suc n) (x ∷ s) zero v h = refl
take-set (suc n) (x ∷ s) (suc i) v h = ap (λ t. x ∷ t) (take-set n s i v (omega arith))

-- Filling a slot counts once, and only if it was free.
pub count-set :
    (s : List Slot) (i key : ℕ)
    → i < length s
    → count (set s i (record { key = key; occupied = true }))
      ≡ (if (slot_at s i).occupied then count s else suc (count s))
unfolding count
count-set [] i key h = absurd (omega arith)
count-set (x ∷ s) zero key h = ground arith
count-set (x ∷ s) (suc i) key h = ground (arith, count-set s i key)

-- The next index, going round.
pub round :
    (n total : ℕ)
    → n < total
    → (((n + 1) % total ≡ n + 1) × (n + 1 < total)) ⊎ (((n + 1) % total ≡ 0) × (n + 1 ≡ total))
round n total h = elim (Bool-cases (ltb (n + 1) total)) [
  | inl e ↦ inl (mod-eq_of_lt (ground arith), ground arith)
  | inr e ↦
      let full : n + 1 ≡ total = ground arith in
      inr (ap (λ x. x % total) full ∙ mod_self total, full)
]

-- The rounds from `n` to `j`.
unfoldable distance : ℕ → ℕ → ℕ → ℕ
distance total n j = if ltb j n then (j + total) - n else j - n

step_distance :
    (n j total : ℕ)
    → n < total
    → j < total
    → n ≢ j
    → ((n + 1) % total < total) × (suc (distance total ((n + 1) % total) j) ≡ distance total n j)
unfolding distance
step_distance n j total h k ne = elim (round n total h) [
  | inl (e, lt) ↦ (omega arith, rw (e, ltb) ground arith)
  | inr (e, last) ↦ (omega arith, rw e ground arith)
]

-- An occupied slot is not a free one.
pub other :
    (s : List Slot) (n j : ℕ)
    → (slot_at s n).occupied ≡ true
    → (slot_at s j).occupied ≡ false
    → n ≢ j
other s n j full free same = true≢false (sym full ∙ ap (λ i. (slot_at s i).occupied) same ∙ free)

-- The allocator's loop ends at a free slot if there is one, within `total` rounds.
advance_lem :
    (fuel : ℕ) (s : List Slot) (total n j : ℕ)
    → n < total
    → j < total
    → (slot_at s j).occupied ≡ false
    → distance total n j < fuel
    → (p : ℕ) × (advance fuel s total n ≡ some p) × (p < total) × ((slot_at s p).occupied ≡ false)
unfolding advance
advance_lem zero s total n j hn hj free d = absurd (omega arith)
advance_lem (suc fuel) s total n j hn hj free d = elim (Bool-cases (slot_at s n).occupied) [
  | inl e ↦
      let (within, less) = step_distance n j total hn hj (other s n j e free) in
      let (p, stops, small, is_free) =
        advance_lem fuel s total ((n + 1) % total) j within hj free (omega arith) in
      (p, rw e stops, small, is_free)
  | inr e ↦ (n, rw e, hn, e)
]

distance-lt : (n j total : ℕ) → n < total → j < total → distance total n j < total
unfolding distance
distance-lt n j total h k = ground arith

-- From any index the loop ends if one of the first `total` slots is free.
pub advance_stops :
    (s : List Slot) (total n : ℕ)
    → total ≤ length s
    → n < total
    → count (take total s) < total
    → (p : ℕ) × (advance total s total n ≡ some p) × (p < total) × ((slot_at s p).occupied ≡ false)
advance_stops s total n fits h room =
    let len = length-take total s in
    let (j, k, free) = free_slot (take total s) (omega (arith, len)) in
    let small : j < total = omega (arith, len) in
    advance_lem total s total n j h small
      (ap (λ x. x.occupied) (sym (slot_at-take total s j small)) ∙ free)
      (distance-lt n j total h small)
