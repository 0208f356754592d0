-- ===== src/BmpCache/Runs.antt =====
-- What holds of the bitmap cache of src/wire/bmpcache.c during a connection.
use rdpserver.Base.{ℕ, ◌+◌, ◌<◌, ◌≡◌, refl, arith, Bool}
use rdpserver.Base.{List, ltb, get_or, ok, Ensures-ok, Bool-cases, inl, inr}
use mathlib.Core.Path.{subst}
use rdpserver.BmpCache.{
  Cache, Found, found, empty, spinning, fit, layout_cells, lookup, slot_to_cell, find_cell,
}
use rdpserver.BmpCache.Lookup.{IsValid, IsFine, fine_empty, fine_found, lookup-IsFine}
use rdpserver.BmpCache.Layout.{lookup_layout, lookup_empty, fit-IsValid}
use rdpserver.BmpCache.Persist.{ingest_persistent}
use rdpserver.BmpCache.Ingest.{IsLaid, copy-IsLaid, ingest_persistent-Ensures}

-- The caches of a connection: fitted to the client's cells, then changed by lookups and by
-- persistent key lists in any order.
pub data Reachable : Cache → Type 0 where
  fitted : (limits : List ℕ) → Reachable (fit limits).0
  looked :
      (c c' : Cache) (key : ℕ) (hits : Bool) (place : ℕ × ℕ)
      → Reachable c
      → lookup c key ≡ found hits place c'
      → Reachable c'
  ingested :
      (c c' : Cache) (p : List ℕ) → Reachable c → ingest_persistent c p ≡ ok c' → Reachable c'

fit-IsLaid : (limits : List ℕ) → IsLaid (fit limits).0
unfolding fit layout_cells
fit-IsLaid limits = record {
  start0 = refl;
  start1 = refl;
  start2 = refl;
  whole = refl;
  small = (fit-IsValid limits).1;
}

-- The cache that a result has is valid.
Leaves : Found → Type 0
Leaves (found b place c) = IsValid c
Leaves (empty c) = IsValid c
Leaves spinning = Unit

leaves : (r : Found) → IsFine r → Leaves r
unfolding Leaves
leaves _ (fine_empty c v) = v
leaves _ (fine_found b place c v) = v

Reachable-sound : (c : Cache) → Reachable c → IsValid c × IsLaid c
unfolding Leaves
Reachable-sound _ (fitted limits) = ((fit-IsValid limits).0, fit-IsLaid limits)
Reachable-sound _ (looked c c' key hits place r e) =
    let (v, l) = Reachable-sound c r in
    let (o, n, t, place_of) = lookup_layout c key v e in
    (subst Leaves e (leaves (lookup c key) (lookup-IsFine c key v)), copy-IsLaid c c' o n t l)
Reachable-sound _ (ingested c c' p r e) =
    let (v, l) = Reachable-sound c r in Ensures-ok (ingest_persistent-Ensures c p v l) e

-- A slot in use has its place in one of the three cells.
place_within :
    (c : Cache) (p : ℕ)
    → IsLaid c
    → p < c.total
    → ((slot_to_cell c p).0 < 3) × ((slot_to_cell c p).1 < get_or c.cells (slot_to_cell c p).0 0)
unfolding slot_to_cell find_cell
place_within c p l h = elim (Bool-cases (ltb p (get_or c.offset 0 0 + get_or c.cells 0 0))) [
  | inl e ↦ rw e (omega arith, ground (arith, l.start0, l.small))
  | inr e ↦ elim (Bool-cases (ltb p (get_or c.offset 1 0 + get_or c.cells 1 0))) [
    | inl f ↦ rw (e, f) (omega arith, ground (arith, l.start0, l.start1, l.small))
    | inr f ↦
        rw (e, f) (omega arith, ground (arith, l.start0, l.start1, l.start2, l.whole, l.small))
  ]
]

-- An answer that names one of the three cells and an index inside that cell, if there are slots.
pub data Placed (c : Cache) : Found → Type 0 where
  no_slots : (c' : Cache) → c.total ≡ 0 → Placed c (empty c')
  placed :
      (hits : Bool) (place : ℕ × ℕ) (c' : Cache)
      → place.0 < 3
      → place.1 < get_or c.cells place.0 0
      → Placed c (found hits place c')

answer-Placed :
    (c : Cache) (key : ℕ) (r : Found)
    → IsValid c
    → IsLaid c
    → IsFine r
    → lookup c key ≡ r
    → Placed c r
answer-Placed c key _ v l (fine_empty c' v') e = no_slots c' (lookup_empty c c' key v e)
answer-Placed c key _ v l (fine_found hits place c' v') e =
    let (o, n, t, (p, small, at_place)) = lookup_layout c key v e in
    let (cell, index) = place_within c p l small in
    placed hits place c' (rw at_place cell) (rw at_place index)

-- In every cache that a connection can reach, whatever the client announced and sent, a lookup
-- ends, and its answer names one of the three cells and an index inside that cell, unless the
-- cache has no slots.
pub lookup-Reachable : (c : Cache) (key : ℕ) → Reachable c → Placed c (lookup c key)
lookup-Reachable c key r =
    let (v, l) = Reachable-sound c r in
    answer-Placed c key (lookup c key) v l (lookup-IsFine c key v) refl
