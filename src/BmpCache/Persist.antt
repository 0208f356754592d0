-- ===== src/BmpCache/Persist.antt =====
-- src/wire/bmpcache.c: the persistent key list that a client sends, and its keys in the cache.
use rdpserver.Base.{ℕ, zero, suc, ◌+◌, ◌-◌, ◌*◌, ◌/◌, ◌^◌, Bool, true, not, List, [], ◌∷◌}
use rdpserver.Base.{ltb, leb, ◌==◌, if◌then◌else◌, length, get_or, set, bit_and}
use rdpserver.Base.{Read, ok, fault, ◌>>=◌, ◌>>◌, guard, at}
use rdpserver.Buf.{u16, u32}
use rdpserver.BmpCache.{Cache, slot_at}

unfoldable pub ld16 : List ℕ → ℕ → Read ℕ
ld16 p i = do a ← at p i; b ← at p (i + 1); ok (u16 a b)

unfoldable pub ld64 : List ℕ → ℕ → Read ℕ
ld64 p i = do
  a ← at p i
  b ← at p (i + 1)
  c ← at p (i + 2)
  d ← at p (i + 3)
  e ← at p (i + 4)
  f ← at p (i + 5)
  g ← at p (i + 6)
  h ← at p (i + 7)
  ok (u32 a b c d + u32 e f g h * 2 ^ 32)

-- `num[i] = ld16(p + i * 2)` for `n` indices from `i` on.
unfoldable pub read_counts : ℕ → List ℕ → ℕ → Read (List ℕ)
read_counts zero p i = ok []
read_counts (suc n) p i = do num ← ld16 p (i * 2); rest ← read_counts n p (i + 1); ok (num ∷ rest)

unfoldable pub sum : List ℕ → ℕ
sum [] = 0
sum (n ∷ ns) = n + sum ns

-- `struct` of what `parse_pl_header` stores: `num`, `total`, `first`, `last`.
pub record Header : Type 0 where
  pub num : List ℕ
  pub total : ℕ
  pub first : Bool
  pub last : Bool

unfoldable pub parse_pl_header : List ℕ → Read Header
parse_pl_header p = do
  guard (leb 24 (length p))
  num ← read_counts 5 p 0
  guard (leb (sum num) ((length p - 24) / 8))
  flags ← at p 20
  ok (record {
    num = num;
    total = sum num;
    first = not (bit_and flags 1 == 0);
    last = not (bit_and flags 2 == 0);
  })

-- `keys[i] = ld64(p + 24 + i * 8)` for `n` indices from `i` on.
unfoldable pub read_keys : ℕ → List ℕ → ℕ → Read (List ℕ)
read_keys zero p i = ok []
read_keys (suc n) p i = do key ← ld64 p (24 + i * 8); rest ← read_keys n p (i + 1); ok (key ∷ rest)

-- The keys stored, `*n_keys` and the two flags. `max` is 0 also where `keys` is NULL.
unfoldable pub parse_persistent_list : List ℕ → ℕ → Read (List ℕ × ℕ × Bool × Bool)
parse_persistent_list p max = do
  h ← parse_pl_header p
  if max == 0 then ok ([], h.total, h.first, h.last) else (do
    keys ← read_keys (if ltb max h.total then max else h.total) p 0
    ok (keys, (if ltb max h.total then max else h.total), h.first, h.last))

-- The slot `pool` takes the key; a slot outside the array is a `fault`.
unfoldable pub put_key : Cache → ℕ → ℕ → ℕ → Read Cache
put_key c cell pool key =
    if ltb pool (length c.slot)
    then ok (record c {
      slot = set c.slot pool (record { key = key; occupied = true });
      used = if (slot_at c.slot pool).occupied then c.used else c.used + 1;
      ingest = set c.ingest cell (get_or c.ingest cell 0 + 1);
    })
    else fault

-- The body of the inner loop with its two `continue`.
unfoldable pub ingest_key : Cache → ℕ → ℕ → Read Cache
ingest_key c cell key =
    if leb 3 cell
    then ok c
    else if leb (get_or c.cells cell 0) (get_or c.ingest cell 0)
    then ok c
    else put_key c cell (get_or c.offset cell 0 + get_or c.ingest cell 0) key

-- `num[cell]` keys from `off` on.
unfoldable pub ingest_cell : ℕ → List ℕ → ℕ → ℕ → Cache → Read Cache
ingest_cell zero p off cell c = ok c
ingest_cell (suc n) p off cell c = do
  key ← ld64 p off
  c' ← ingest_key c cell key
  ingest_cell n p (off + 8) cell c'

-- The cells from `cell` on.
unfoldable pub ingest_cells : List ℕ → List ℕ → ℕ → ℕ → Cache → Read Cache
ingest_cells [] p off cell c = ok c
ingest_cells (n ∷ num) p off cell c = do
  c' ← ingest_cell n p off cell c
  ingest_cells num p (off + n * 8) (cell + 1) c'

unfoldable pub ingest_persistent : Cache → List ℕ → Read Cache
ingest_persistent c p = do
  h ← parse_pl_header p
  ingest_cells h.num p 24 0 (if h.first then record c { ingest = 0 ∷ 0 ∷ 0 ∷ [] } else c)
