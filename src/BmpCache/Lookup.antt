-- ===== src/BmpCache/Lookup.antt =====
-- Lookups in the bitmap cache of src/wire/bmpcache.c.
use rdpserver.Base.{ℕ, zero, suc, ◌+◌, ◌≤◌, ◌<◌, ◌≡◌, refl, sym, ap, ◌∙◌, arith, Bool, true, false}
use rdpserver.Base.{Option, none, some, List, [], ◌∷◌, ltb, ◌==◌, if◌then◌else◌, length, take, set}
use rdpserver.Base.{
  inl, inr, ◌⊎◌, Bool-cases, get_or-set_ne, length-take, length-set, ltb→lt, ltb→le,
}
use rdpserver.BmpCache.{
  Slot, Cache, slot_at, find_key, advance, fill, Found, found, empty, claim, miss,
}
use rdpserver.BmpCache.{answer, lookup, slot_to_cell, find_cell}
use rdpserver.BmpCache.Slots.{
  other, count, count-set, all_occupied, slot_at-take, take-set, advance_stops, count-le,
}
use native.Mathlib.Nat.{mod-lt}

-- The slots in use lie in the array, `used` counts the occupied ones, and the allocator stands at
-- one of them.
pub record IsValid (c : Cache) : Type 0 where
  pub fits : c.total ≤ length c.slot
  pub counted : c.used ≡ count (take c.total c.slot)
  pub within : (c.total ≡ 0) ⊎ (c.next < c.total)

-- What a lookup of `key` does to a valid cache.
pub data Step (c : Cache) (key : ℕ) : Found → Type 0 where
  closed : c.total ≡ 0 → Step c key (empty c)
  hit : (j : ℕ) → j < c.total → Step c key (found true (slot_to_cell c j) c)
  taken :
      (p : ℕ)
      → p < c.total
      → c.used < c.total
      → find_key key (take c.total c.slot) 0 ≡ none
      → (slot_at c.slot p).occupied ≡ false
      → Step c key (found false (slot_to_cell c p) (fill c p key (c.used + 1)))
  evicted :
      c.next < c.total
      → c.used ≡ c.total
      → find_key key (take c.total c.slot) 0 ≡ none
      → Step c key (found false (slot_to_cell c c.next) (fill c c.next key c.used))

find_key-lt : (key : ℕ) (s : List Slot) (i j : ℕ) → find_key key s i ≡ some j → j < i + length s
unfolding find_key
find_key-lt key [] i j e = cc e
find_key-lt key (x ∷ s) i j e = ground (arith, find_key-lt key s (i + 1) j)

-- A key that is in no occupied slot is found where it is stored.
find_key-set :
    (key : ℕ) (s : List Slot) (i p : ℕ)
    → p < length s
    → find_key key s i ≡ none
    → find_key key (set s p (record { key = key; occupied = true })) i ≡ some (p + i)
unfolding find_key
find_key-set key [] i p h e = absurd (omega arith)
find_key-set key (x ∷ s) i zero h e = ground arith
find_key-set key (x ∷ s) i (suc p) h e = ground (arith, find_key-set key s (i + 1) p)

claimed :
    (c : Cache) (key : ℕ)
    → IsValid c
    → c.next < c.total
    → c.used < c.total
    → find_key key (take c.total c.slot) 0 ≡ none
    → Step c key (claim c key (advance c.total c.slot c.total c.next))
unfolding claim
claimed c key v within room absent =
    let (p, stops, small, free) =
      advance_stops c.slot c.total c.next v.fits within (omega (arith, v.counted)) in
    rw stops (taken p small room absent free)

missed :
    (c : Cache) (key : ℕ)
    → IsValid c
    → c.next < c.total
    → find_key key (take c.total c.slot) 0 ≡ none
    → Step c key (miss c key)
unfolding miss
missed c key v within absent = elim (Bool-cases (ltb c.used c.total)) [
  | inl e ↦ rw e (claimed c key v within (ltb→lt c.used c.total e) absent)
  | inr e ↦ rw e (
      evicted within
        (omega (
          arith,
          ltb→le c.used c.total e,
          v.counted,
          count-le (take c.total c.slot),
          length-take c.total c.slot,
        ))
        absent)
]

option_cases {ℓ} : {A : Type ℓ} (o : Option A) → (o ≡ none) ⊎ ((a : A) × (o ≡ some a))
option_cases none = inl refl
option_cases (some a) = inr (a, refl)

pub lookup-Step : (c : Cache) (key : ℕ) → IsValid c → Step c key (lookup c key)
unfolding lookup answer
lookup-Step c key v = elim v.within [
  | inl e ↦ rw (is_zero c e) (closed e)
  | inr l ↦ elim (option_cases (find_key key (take c.total c.slot) 0)) [
    | inl e ↦ rw (nonzero c l, e) (missed c key v l e)
    | inr (j, e) ↦
        rw (nonzero c l, e)
          (hit j (
            omega (arith, find_key-lt key (take c.total c.slot) 0 j e, length-take c.total c.slot)))
  ]
]
  where
    is_zero : (c : Cache) → c.total ≡ 0 → (c.total == 0) ≡ true
    is_zero c e = ground arith

    nonzero : (c : Cache) → c.next < c.total → (c.total == 0) ≡ false
    nonzero c l = ground arith

-- The claims on what a step leaves.
fill-IsValid :
    (c : Cache) (p key used : ℕ)
    → IsValid c
    → p < c.total
    → used ≡ (if (slot_at c.slot p).occupied then c.used else suc c.used)
    → IsValid (fill c p key used)
fill-IsValid c p key used v h e = record {
  fits = omega (arith, v.fits, length-set c.slot p (record { key = key; occupied = true }));
  counted = rw (take-set c.total c.slot p (record { key = key; occupied = true }) h) ground (
    arith,
    count-set (take c.total c.slot) p key (omega (arith, length-take c.total c.slot, v.fits)),
    slot_at-take c.total c.slot p h,
    v.counted,
  );
  within = inr (mod-lt (p + 1) (omega arith));
}

-- A lookup that ends, with a valid cache.
pub data IsFine : Found → Type 0 where
  fine_empty : (c : Cache) → IsValid c → IsFine (empty c)
  fine_found : (b : Bool) (place : ℕ × ℕ) (c : Cache) → IsValid c → IsFine (found b place c)

-- In a full cache the slot under the allocator is occupied.
next_occupied :
    (c : Cache)
    → IsValid c
    → c.next < c.total
    → c.used ≡ c.total
    → (slot_at c.slot c.next).occupied ≡ true
next_occupied c v l full =
    ap (λ x. x.occupied) (sym (slot_at-take c.total c.slot c.next l))
    ∙ all_occupied (take c.total c.slot) c.next
        (omega (arith, length-take c.total c.slot, v.fits, v.counted))
        (omega (arith, length-take c.total c.slot, v.fits))

nonzero_total : (c : Cache) (p : ℕ) → p < c.total → (c.total == 0) ≡ false
nonzero_total c p l = ground arith

Step-IsFine : (c : Cache) (key : ℕ) (r : Found) → IsValid c → Step c key r → IsFine r
Step-IsFine c key _ v (closed e) = fine_empty c v
Step-IsFine c key _ v (hit j l) = fine_found true (slot_to_cell c j) c v
Step-IsFine c key _ v (taken p l room absent free) =
    fine_found false _ _ (fill-IsValid c p key (c.used + 1) v l (rw free (omega arith)))
Step-IsFine c key _ v (evicted l full absent) =
    fine_found false _ _
      (fill-IsValid c c.next key c.used v l (ground (arith, next_occupied c v l full)))

-- A lookup in a valid cache ends, and leaves a valid cache: the allocator's loop does not spin,
-- and the slots in use, their count and the allocator's position stay consistent.
pub lookup-IsFine : (c : Cache) (key : ℕ) → IsValid c → IsFine (lookup c key)
lookup-IsFine c key v = Step-IsFine c key (lookup c key) v (lookup-Step c key v)

stored :
    (c : Cache) (key p : ℕ)
    → IsValid c
    → p < c.total
    → find_key key (take c.total c.slot) 0 ≡ none
    → find_key key (set (take c.total c.slot) p (record { key = key; occupied = true })) 0 ≡ some p
stored c key p v l absent =
    find_key-set key (take c.total c.slot) 0 p (omega (arith, length-take c.total c.slot, v.fits))
      absent
    ∙ ap some zero_last
  where
    zero_last : p + 0 ≡ p
    zero_last = omega arith

found_again :
    (c : Cache) (key p used : ℕ)
    → IsValid c
    → p < c.total
    → find_key key (take c.total c.slot) 0 ≡ none
    → lookup (fill c p key used) key ≡ found true (slot_to_cell c p) (fill c p key used)
unfolding lookup answer slot_to_cell find_cell
found_again c key p used v l absent =
    rw
      (
        nonzero_total c p l,
        take-set c.total c.slot p (record { key = key; occupied = true }) l,
        stored c key p v l absent,
      )
      refl

again :
    (c c' : Cache) (key : ℕ) (place : ℕ × ℕ) (r : Found)
    → IsValid c
    → Step c key r
    → r ≡ found false place c'
    → lookup c' key ≡ found true place c'
again c c' key place _ v (closed z) e = cc e
again c c' key place _ v (hit j l) e = cc e
again c c' key place _ v (taken p l room absent free) e =
    cc (e, found_again c key p (c.used + 1) v l absent)
again c c' key place _ v (evicted l full absent) e =
    cc (e, found_again c key c.next c.used v l absent)

-- After a miss in a valid cache, the next lookup of the same key hits, answers with the same cache
-- id and index, and changes nothing.
pub lookup-lookup :
    (c : Cache) (key : ℕ) {place : ℕ × ℕ} {c' : Cache}
    → IsValid c
    → lookup c key ≡ found false place c'
    → lookup c' key ≡ found true place c'
lookup-lookup c key {place} {c'} v e = again c c' key place (lookup c key) v (lookup-Step c key v) e

kept :
    (c : Cache) (key j : ℕ) (r : Found) {hits : Bool} {place : ℕ × ℕ} {c' : Cache}
    → IsValid c
    → c.used < c.total
    → (slot_at c.slot j).occupied ≡ true
    → Step c key r
    → r ≡ found hits place c'
    → slot_at c'.slot j ≡ slot_at c.slot j
kept c key j _ v room occ (closed z) e = cc e
kept c key j _ v room occ (hit i l) e = cc e
kept c key j _ v room occ (taken p l room' absent free) e = cc (
  e,
  get_or-set_ne c.slot p j (record { key = key; occupied = true })
      (record { key = 0; occupied = false }) (λ same. other c.slot j p occ free (sym same)),
)
kept c key j _ v room occ (evicted l full absent) e = absurd (omega arith)

-- While a valid cache is not full, a lookup leaves every occupied slot as it was, so that no
-- bitmap that the client was told of is displaced.
pub lookup_keeps :
    (c : Cache) (key j : ℕ) {hits : Bool} {place : ℕ × ℕ} {c' : Cache}
    → IsValid c
    → c.used < c.total
    → (slot_at c.slot j).occupied ≡ true
    → lookup c key ≡ found hits place c'
    → slot_at c'.slot j ≡ slot_at c.slot j
lookup_keeps c key j v room occ e = kept c key j (lookup c key) v room occ (lookup-Step c key v) e
