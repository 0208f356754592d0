-- ===== src/BmpCache/Layout.antt =====
-- The layout of the cells in src/wire/bmpcache.c, under fit and under lookups.
use rdpserver.Base.{ℕ, zero, suc, ◌≤◌, ◌<◌, ◌≡◌, refl, sym, arith, Bool}
use rdpserver.Base.{Option, none, some, List, take}
use rdpserver.Base.{inl, inr, ◌⊎◌}
use rdpserver.BmpCache.{Cache, Found, found, empty}
use rdpserver.Base.{replicate, length-replicate}
use rdpserver.BmpCache.{empty_slot, cell_size, layout_cells, fit}
use rdpserver.BmpCache.{lookup, slot_to_cell}
use rdpserver.BmpCache.Slots.{count}
use rdpserver.BmpCache.Lookup.{IsValid, Step, closed, hit, taken, evicted, lookup-Step}

laid :
    (c : Cache) (key : ℕ) (r : Found) {hits : Bool} {place : ℕ × ℕ} {c' : Cache}
    → Step c key r
    → r ≡ found hits place c'
    → (c'.offset ≡ c.offset)
      × (c'.cells ≡ c.cells)
      × (c'.total ≡ c.total)
      × ((p : ℕ) × (p < c.total) × (place ≡ slot_to_cell c p))
laid c key _ (closed z) e = cc e
laid c key _ (hit j l) e = (cc e, cc e, cc e, (j, l, cc e))
laid c key _ (taken p l room absent free) e = (cc e, cc e, cc e, (p, l, cc e))
laid c key _ (evicted l full absent) e = (cc e, cc e, cc e, (c.next, l, cc e))

-- A lookup keeps the layout, and answers with the place of one of the slots in use.
pub lookup_layout :
    (c : Cache) (key : ℕ) {hits : Bool} {place : ℕ × ℕ} {c' : Cache}
    → IsValid c
    → lookup c key ≡ found hits place c'
    → (c'.offset ≡ c.offset)
      × (c'.cells ≡ c.cells)
      × (c'.total ≡ c.total)
      × ((p : ℕ) × (p < c.total) × (place ≡ slot_to_cell c p))
lookup_layout c key v e = laid c key (lookup c key) (lookup-Step c key v) e

emptied : (c c' : Cache) (key : ℕ) (r : Found) → Step c key r → r ≡ empty c' → c.total ≡ 0
emptied c c' key _ (closed z) e = z
emptied c c' key _ (hit j l) e = cc e
emptied c c' key _ (taken p l room absent free) e = cc e
emptied c c' key _ (evicted l full absent) e = cc e

pub lookup_empty : (c c' : Cache) (key : ℕ) → IsValid c → lookup c key ≡ empty c' → c.total ≡ 0
lookup_empty c c' key v e = emptied c c' key (lookup c key) (lookup-Step c key v) e

count-replicate : (n m : ℕ) → count (take m (replicate n empty_slot)) ≡ 0
unfolding count
count-replicate zero zero = refl
count-replicate zero (suc m) = refl
count-replicate (suc n) zero = refl
count-replicate (suc n) (suc m) = count-replicate n m

pub cell_size-le : (limits : Option (List ℕ)) (i slots : ℕ) → cell_size limits i slots ≤ slots
unfolding cell_size
cell_size-le none i slots = omega arith
cell_size-le (some limits) i slots = ground arith

zero_or_more : (n : ℕ) → (n ≡ 0) ⊎ (0 < n)
zero_or_more zero = inl refl
zero_or_more (suc n) = inr (omega arith)

-- A cache whose cells were cut down to what the client announced is valid, whatever the client
-- announced, and never has more slots than its array.
pub fit-IsValid : (limits : List ℕ) → IsValid (fit limits).0 × ((fit limits).1 ≤ 576)
unfolding fit layout_cells
fit-IsValid limits =
    let c0 = cell_size-le (some limits) 0 120 in
    let c1 = cell_size-le (some limits) 1 120 in
    let c2 = cell_size-le (some limits) 2 336 in
    (
      record {
        fits = omega (arith, c0, c1, c2, length-replicate 576 empty_slot);
        counted = sym (count-replicate 576 (fit limits).1);
        within = zero_or_more (fit limits).1;
      },
      omega (arith, c0, c1, c2),
    )
