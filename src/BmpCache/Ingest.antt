-- ===== src/BmpCache/Ingest.antt =====
-- The persistent key list of src/wire/bmpcache.c, on any bytes from the network.
use rdpserver.Base.{
  ℕ, zero, suc, ◌+◌, ◌-◌, ◌*◌, ◌/◌, ◌≤◌, ◌<◌, ◌≡◌, refl, ap, ◌∙◌, arith, Bool, true, false,
}
use rdpserver.Base.{
  List, [], ◌∷◌, ltb, leb, ◌==◌, if◌then◌else◌, length, take, get_or, length-set, length-take,
}
use rdpserver.Base.{lt→ltb, Ensures, returns}
use rdpserver.Base.{bind_then, guard_then, at_then, if_then}
use rdpserver.BmpCache.{Cache}
use rdpserver.BmpCache.Slots.{count-set, take-set, slot_at-take}
use rdpserver.BmpCache.Lookup.{IsValid}
use rdpserver.BmpCache.Persist.{
  ld16, ld64, read_counts, sum, Header, parse_pl_header, read_keys, parse_persistent_list,
}
use rdpserver.BmpCache.Persist.{put_key, ingest_key, ingest_cell, ingest_cells, ingest_persistent}

-- The three cells lie one behind the other, and fill the slots in use.
pub record IsLaid (c : Cache) : Type 0 where
  pub start0 : get_or c.offset 0 0 ≡ 0
  pub start1 : get_or c.offset 1 0 ≡ get_or c.cells 0 0
  pub start2 : get_or c.offset 2 0 ≡ get_or c.cells 0 0 + get_or c.cells 1 0
  pub whole : c.total ≡ get_or c.cells 0 0 + get_or c.cells 1 0 + get_or c.cells 2 0
  pub small : c.total ≤ 576

cell-IsLaid :
    (c : Cache) (cell : ℕ)
    → IsLaid c
    → cell < 3
    → get_or c.offset cell 0 + get_or c.cells cell 0 ≤ c.total
cell-IsLaid c zero l h = omega (arith, l.start0, l.whole)
cell-IsLaid c (suc zero) l h = omega (arith, l.start1, l.whole)
cell-IsLaid c (suc (suc zero)) l h = omega (arith, l.start2, l.whole)
cell-IsLaid c (suc (suc (suc n))) l h = absurd (omega arith)

-- The same layout.
pub copy-IsLaid :
    (c c' : Cache)
    → c'.offset ≡ c.offset
    → c'.cells ≡ c.cells
    → c'.total ≡ c.total
    → IsLaid c
    → IsLaid c'
copy-IsLaid c c' o n t l = record {
  start0 = ap (λ x. get_or x 0 0) o ∙ l.start0;
  start1 = cc (o, n, l.start1);
  start2 = cc (o, n, l.start2);
  whole = cc (n, t, l.whole);
  small = omega (arith, t, l.small);
}

-- Any value.
abbrev Any {ℓ} : {A : Type ℓ} → A → Type 0
Any a = Unit {0}

ld16-Ensures : (p : List ℕ) (i : ℕ) → i + 2 ≤ length p → Ensures Any (ld16 p i)
unfolding ld16
ld16-Ensures p i h =
    at_then p i (omega arith) λ a e. at_then p (i + 1) (omega arith) λ b f. returns tt

ld64-Ensures : (p : List ℕ) (i : ℕ) → i + 8 ≤ length p → Ensures Any (ld64 p i)
unfolding ld64
ld64-Ensures p i h = at_then p i (omega arith) λ a e1. at_then p (i + 1) (omega arith) λ b e2.
    at_then p (i + 2) (omega arith) λ c e3. at_then p (i + 3) (omega arith) λ d e4.
      at_then p (i + 4) (omega arith) λ e e5. at_then p (i + 5) (omega arith) λ f e6.
        at_then p (i + 6) (omega arith) λ g e7. at_then p (i + 7) (omega arith) λ k e8. returns tt

read_counts-Ensures :
    (n : ℕ) (p : List ℕ) (i : ℕ) → (i + n) * 2 ≤ length p → Ensures Any (read_counts n p i)
unfolding read_counts
read_counts-Ensures zero p i h = returns tt
read_counts-Ensures (suc n) p i h =
    bind_then (ld16-Ensures p (i * 2) (omega arith))
      λ num q. bind_then (read_counts-Ensures n p (i + 1) (omega arith)) λ rest r. returns tt

-- The keys that the header counts lie in the packet.
parse_pl_header-Ensures :
    (p : List ℕ)
    → Ensures (λ h. (24 + sum h.num * 8 ≤ length p) × (h.total ≡ sum h.num)) (parse_pl_header p)
unfolding parse_pl_header
parse_pl_header-Ensures p = guard_then (leb 24 (length p)) λ g.
    bind_then (read_counts-Ensures 5 p 0 (ground arith)) λ (num : List ℕ) q.
      guard_then (leb (sum num) ((length p - 24) / 8))
        λ k. at_then p 20 (ground arith) λ flags e. returns (ground arith, refl)

read_keys-Ensures :
    (n : ℕ) (p : List ℕ) (i : ℕ)
    → 24 + (i + n) * 8 ≤ length p
    → Ensures (λ keys. length keys ≡ n) (read_keys n p i)
unfolding read_keys
read_keys-Ensures zero p i h = returns refl
read_keys-Ensures (suc n) p i h =
    bind_then (ld64-Ensures p (24 + i * 8) (omega arith)) λ key q.
      bind_then (read_keys-Ensures n p (i + 1) (omega arith)) λ rest r. returns (omega arith)

-- On every packet the parser of a persistent key list reads inside the packet only, and stores at
-- most `max` keys.
parse_persistent_list-Ensures :
    (p : List ℕ) (max : ℕ) → Ensures (λ t. length t.0 ≤ max) (parse_persistent_list p max)
unfolding parse_persistent_list
parse_persistent_list-Ensures p max = bind_then (parse_pl_header-Ensures p) λ (h : Header) q.
    if_then (max == 0) (λ z. returns (omega arith))
      λ z.
        bind_then (read_keys-Ensures (if ltb max h.total then max else h.total) p 0 (ground arith))
          λ (keys : List ℕ) r. returns (ground arith)

put_key-Ensures :
    (c : Cache) (cell pool key : ℕ)
    → IsValid c
    → IsLaid c
    → pool < c.total
    → Ensures (λ c'. IsValid c' × IsLaid c') (put_key c cell pool key)
unfolding put_key
put_key-Ensures c cell pool key v l h = rw (lt→ltb pool (length c.slot) (omega (arith, v.fits))) (
    returns (
      record {
        fits =
            omega (arith, v.fits, length-set c.slot pool (record { key = key; occupied = true }));
        counted =
            rw (take-set c.total c.slot pool (record { key = key; occupied = true }) h) ground (
              arith,
              count-set (take c.total c.slot) pool key
                  (omega (arith, length-take c.total c.slot, v.fits)),
              slot_at-take c.total c.slot pool h,
              v.counted,
            );
        within = v.within;
      },
      copy-IsLaid c _ refl refl refl l,
    ))

ingest_key-Ensures :
    (c : Cache) (cell key : ℕ)
    → IsValid c
    → IsLaid c
    → Ensures (λ c'. IsValid c' × IsLaid c') (ingest_key c cell key)
unfolding ingest_key
ingest_key-Ensures c cell key v l =
    if_then (leb 3 cell) (λ t. returns (v, l))
      λ t.
        if_then (leb (get_or c.cells cell 0) (get_or c.ingest cell 0)) (λ s. returns (v, l))
          λ s.
            put_key-Ensures c cell (get_or c.offset cell 0 + get_or c.ingest cell 0) key v l
              (ground (arith, cell-IsLaid c cell l))

ingest_cell-Ensures :
    (n : ℕ) (p : List ℕ) (off cell : ℕ) (c : Cache)
    → off + n * 8 ≤ length p
    → IsValid c
    → IsLaid c
    → Ensures (λ c'. IsValid c' × IsLaid c') (ingest_cell n p off cell c)
unfolding ingest_cell
ingest_cell-Ensures zero p off cell c h v l = returns (v, l)
ingest_cell-Ensures (suc n) p off cell c h v l =
    bind_then (ld64-Ensures p off (omega arith)) λ key q.
      bind_then (ingest_key-Ensures c cell key v l)
        λ c' w. ingest_cell-Ensures n p (off + 8) cell c' (omega arith) w.0 w.1

ingest_cells-Ensures :
    (num p : List ℕ) (off cell : ℕ) (c : Cache)
    → off + sum num * 8 ≤ length p
    → IsValid c
    → IsLaid c
    → Ensures (λ c'. IsValid c' × IsLaid c') (ingest_cells num p off cell c)
unfolding ingest_cells sum
ingest_cells-Ensures [] p off cell c h v l = returns (v, l)
ingest_cells-Ensures (n ∷ num) p off cell c h v l =
    bind_then (ingest_cell-Ensures n p off cell c (omega arith) v l)
      λ c' w. ingest_cells-Ensures num p (off + n * 8) (cell + 1) c' (omega arith) w.0 w.1

restart :
    (c : Cache) (first : Bool)
    → IsValid c
    → IsLaid c
    → IsValid (if first then record c { ingest = 0 ∷ 0 ∷ 0 ∷ [] } else c)
      × IsLaid (if first then record c { ingest = 0 ∷ 0 ∷ 0 ∷ [] } else c)
restart c true v l = (
  record { fits = v.fits; counted = v.counted; within = v.within },
  copy-IsLaid c _ refl refl refl l,
)
restart c false v l = (v, l)

-- On every packet the ingest of persistent keys reads inside the packet only and stores inside the
-- slot array only; a valid cache whose cells fill its slots stays one, with the count of
-- occupied slots exact.
pub ingest_persistent-Ensures :
    (c : Cache) (p : List ℕ)
    → IsValid c
    → IsLaid c
    → Ensures (λ c'. IsValid c' × IsLaid c') (ingest_persistent c p)
unfolding ingest_persistent
ingest_persistent-Ensures c p v l = bind_then (parse_pl_header-Ensures p) λ (h : Header) q.
    let w = restart c h.first v l in ingest_cells-Ensures h.num p 24 0 _ q.0 w.0 w.1
