-- ===== src/BmpCache.antt =====
-- src/wire/bmpcache.c: the persistent key list and the per-connection bitmap cache.
pub mod Slots
pub mod Lookup
pub mod Layout
pub mod Persist
pub mod Ingest
pub mod Runs
mod Tests
use rdpserver.Base.{ℕ, zero, suc, ◌+◌, ◌-◌, ◌*◌, ◌/◌, ◌%◌, ◌^◌, Bool, true, false, not, ◌&&◌, ◌||◌}
use rdpserver.Base.{Option, none, some, List, [], ◌∷◌, leb, ltb, ◌==◌, if◌then◌else◌, length, take}
use rdpserver.Base.{get_or, set, replicate, bit_and, Read, ok, err, ◌>>=◌, ◌>>◌, guard, at}
use rdpserver.Buf.{u16, u32}

-- `struct cache_slot`.
pub record Slot : Type 0 where
  pub key : ℕ
  pub occupied : Bool

-- `struct rdp_bmpcache`; the arrays of three are lists.
pub record Cache : Type 0 where
  pub slot : List Slot
  pub total : ℕ
  pub cells : List ℕ
  pub offset : List ℕ
  pub next : ℕ
  pub used : ℕ
  pub ingest : List ℕ

abbrev pub num_cells : ℕ
num_cells = 3

-- The value of a zeroed slot.
abbrev pub empty_slot : Slot
empty_slot = record { key = 0; occupied = false }

abbrev pub slot_at : List Slot → ℕ → Slot
slot_at s i = get_or s i empty_slot

-- `c->cells[i] = cell_slots[i]; if (max != NULL && max[i] < c->cells[i]) c->cells[i] = max[i];`
unfoldable pub cell_size : Option (List ℕ) → ℕ → ℕ → ℕ
cell_size none i slots = slots
cell_size (some limits) i slots = if ltb (get_or limits i 0) slots then get_or limits i 0 else slots

unfoldable pub layout_cells : Option (List ℕ) → Cache
unfolding cell_size
layout_cells limits =
    let c0 = cell_size limits 0 120 in
    let c1 = cell_size limits 1 120 in
    let c2 = cell_size limits 2 336 in
    record {
      slot = replicate 576 empty_slot;
      total = c0 + c1 + c2;
      cells = c0 ∷ c1 ∷ c2 ∷ [];
      offset = 0 ∷ c0 ∷ (c0 + c1) ∷ [];
      next = 0;
      used = 0;
      ingest = 0 ∷ 0 ∷ 0 ∷ [];
    }

-- What `rdp_bmpcache_create` makes, if calloc(3) gives the memory, and `rdp_bmpcache_fit`.
unfoldable pub create : Cache
unfolding layout_cells
create = layout_cells none

unfoldable pub fit : List ℕ → Cache × ℕ
unfolding layout_cells
fit client_cells = let c = layout_cells (some client_cells) in (c, c.total)

-- The loop of `slot_to_cell` with its `break`.
unfoldable pub find_cell : Cache → ℕ → ℕ
find_cell c pool =
    if ltb pool (get_or c.offset 0 0 + get_or c.cells 0 0)
    then 0
    else if ltb pool (get_or c.offset 1 0 + get_or c.cells 1 0)
    then 1
    else 2

-- The cacheId and the cacheIndex of a slot, cast to `uint8_t` and `uint16_t`.
unfoldable pub slot_to_cell : Cache → ℕ → ℕ × ℕ
unfolding find_cell
slot_to_cell c pool =
    let cell = find_cell c pool in (cell % 256, (pool + 2 ^ 64 - get_or c.offset cell 0) % 2 ^ 16)

-- The first occupied slot with this key, from index `i` on.
unfoldable pub find_key : ℕ → List Slot → ℕ → Option ℕ
find_key key [] i = none
find_key key (s ∷ slots) i =
    if s.occupied && (s.key == key) then some i else find_key key slots (i + 1)

-- `while (c->slot[c->next].occupied) c->next = (c->next + 1) % c->total;`: `none` if it takes more
-- rounds than the fuel.
unfoldable pub advance : ℕ → List Slot → ℕ → ℕ → Option ℕ
advance zero slots total n = none
advance (suc fuel) slots total n =
    let rest = advance fuel slots total ((n + 1) % total) in
    if (slot_at slots n).occupied then rest else some n

-- The end of a miss: `slot[pool]` takes the key, and the allocator goes on behind it.
abbrev pub fill : Cache → ℕ → ℕ → ℕ → Cache
fill c pool key used = record c {
  slot = set c.slot pool (record { key = key; occupied = true });
  next = (pool + 1) % c.total;
  used = used;
}

-- What a lookup returns (1 is `true`), with the id and index that it stores, and the cache.
-- `spinning`: the allocator's loop does not end.
pub data Found : Type 0 where
  found : Bool → ℕ × ℕ → Cache → Found
  empty : Cache → Found
  spinning : Found

-- After a miss, with the slot that the allocator stops at.
unfoldable pub claim : Cache → ℕ → Option ℕ → Found
unfolding slot_to_cell
claim c key none = spinning
claim c key (some pool) = found false (slot_to_cell c pool) (fill c pool key (c.used + 1))

unfoldable pub miss : Cache → ℕ → Found
unfolding claim slot_to_cell advance
miss c key =
    if ltb c.used c.total
    then claim c key (advance c.total c.slot c.total c.next)
    else found false (slot_to_cell c c.next) (fill c c.next key c.used)

unfoldable pub answer : Cache → ℕ → Option ℕ → Found
unfolding miss slot_to_cell
answer c key none = miss c key
answer c key (some i) = found true (slot_to_cell c i) c

unfoldable pub lookup : Cache → ℕ → Found
unfolding answer find_key
lookup c key = if c.total == 0 then empty c else answer c key (find_key key (take c.total c.slot) 0)
