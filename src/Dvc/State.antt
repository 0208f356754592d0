-- ===== src/Dvc/State.antt =====
-- src/channels/drdynvc.c: the state, and the reassembly of one dynamic channel. `free` has no
-- effect that the code can see; malloc(3) is the parameter `alloc`.
use rdpserver.Base.{ℕ, ◌+◌, Bool, ◌||◌, ◌&&◌, not, Option, none, some, List, []}
use rdpserver.Base.{ltb, ◌==◌, if◌then◌else◌, length, take, write_at, sub_size}
use rdpserver.Vchan.{Result, bad, more, complete}

-- `struct dvc_reasm`; `buf` is the allocated block, empty where the pointer is NULL.
pub record DvcReasm : Type 0 where
  pub buf : List ℕ
  pub cap : ℕ
  pub len : ℕ
  pub total : ℕ

-- A channel's id and whether its Create Response is awaited. The id is an `int`, here its 32 bits.
pub record Channel : Type 0 where
  pub id : ℕ
  pub create_pending : Bool

-- `struct drdynvc_state`: the fields of each channel are one record.
pub record State : Type 0 where
  pub caps_exchanged : Bool
  pub disp : Channel
  pub gfx : Channel
  pub audioin : Channel
  pub rdpei : Channel
  pub camenum : Channel
  pub camdev : Channel
  pub gfx_reasm : DvcReasm
  pub ai_reasm : DvcReasm
  pub rei_reasm : DvcReasm
  pub ce_reasm : DvcReasm
  pub cd_reasm : DvcReasm

-- The 32 bits of -1.
abbrev pub minus_one : ℕ
minus_one = 0xffffffff

-- `id >= 0` and `id > 0` of an `int`.
abbrev pub non_negative : ℕ → Bool
non_negative id = ltb id 0x80000000

abbrev pub positive : ℕ → Bool
positive id = non_negative id && not (id == 0)

-- DVC_REASM_MAX
abbrev pub reasm_max : ℕ
reasm_max = 0x400000

abbrev pub no_reasm : DvcReasm
no_reasm = record { buf = []; cap = 0; len = 0; total = 0 }

-- The bytes of `data` that are still wanted: `if (data_len > total - len) data_len = total - len`.
abbrev pub wanted : DvcReasm → List ℕ → List ℕ
wanted r src =
    if ltb (sub_size r.total r.len) (length src) then take (sub_size r.total r.len) src else src

-- From the `memcpy` on, with the bytes that it copies.
unfoldable pub store_part : DvcReasm → List ℕ → Result × DvcReasm
store_part r src =
    let r' = record r { buf = write_at r.buf r.len src; len = r.len + length src } in
    if ltb r'.len r.total
    then (more, r')
    else (complete (take r'.len r'.buf), record r' { len = 0; total = 0 })

-- Behind `r->total = total_len` of a first fragment.
abbrev pub start_part : DvcReasm → ℕ → List ℕ → Result × DvcReasm
start_part r total src =
    let r' = record r { len = 0; total = total } in store_part r' (wanted r' src)

-- `r->buf = malloc(total_len)`
unfoldable pub grow : Option (List ℕ) → DvcReasm → ℕ → List ℕ → Result × DvcReasm
unfolding store_part
grow none r total src = (bad, record r { buf = []; cap = 0; len = 0; total = 0 })
grow (some block) r total src = start_part (record r { buf = block; cap = total }) total src

unfoldable pub dvc_reasm_feed :
    (ℕ → Option (List ℕ)) → DvcReasm → Bool → ℕ → List ℕ → Result × DvcReasm
dvc_reasm_feed alloc r first total src =
    if first
    then (if total == 0 || ltb reasm_max total
        then (bad, record r { len = 0; total = 0 })
        else if ltb r.cap total
        then grow (alloc total) r total src
        else start_part r total src)
    else if r.total == 0
    then (complete src, r)
    else store_part r (wanted r src)
