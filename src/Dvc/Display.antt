-- ===== src/Dvc/Display.antt =====
-- src/channels/drdynvc.c: the Display Update in `rdp_drdynvc_handle`.
use rdpserver.Base.{ℕ, zero, suc, ◌+◌, ◌-◌, ◌*◌, ◌%◌, ◌^◌, ◌&&◌, ◌||◌}
use rdpserver.Base.{List, ltb, leb, if◌then◌else◌, length}
use rdpserver.Base.{Read, ok, ◌>>=◌}
use rdpserver.Dvc.Create.{Outcome, code, resize, ld32}

-- The bounding box of the monitors so far. The four are `int64_t` and stand here with 2 ^ 31
-- added, which keeps their order and their differences.
pub record Extent : Type 0 where
  pub min_x : ℕ
  pub min_y : ℕ
  pub max_x : ℕ
  pub max_y : ℕ

-- `(int64_t)(int32_t)v + 2 ^ 31`
abbrev pub biased : ℕ → ℕ
biased v = (v + 2 ^ 31) % 2 ^ 32

abbrev pub lower : ℕ → ℕ → ℕ
lower a b = if ltb a b then a else b

abbrev pub higher : ℕ → ℕ → ℕ
higher a b = if ltb b a then a else b

-- The box of the monitor at `m`.
unfoldable pub read_box : List ℕ → ℕ → Read Extent
unfolding ld32
read_box src m = do
  left ← ld32 src (m + 4)
  top ← ld32 src (m + 8)
  width ← ld32 src (m + 12)
  height ← ld32 src (m + 16)
  ok (record {
    min_x = biased left;
    min_y = biased top;
    max_x = biased left + width;
    max_y = biased top + height;
  })

unfoldable pub widen : Extent → Extent → Extent
widen b e = record {
  min_x = lower b.min_x e.min_x;
  min_y = lower b.min_y e.min_y;
  max_x = higher b.max_x e.max_x;
  max_y = higher b.max_y e.max_y;
}

-- The other monitors, `n` of them from `mi` on.
unfoldable pub read_boxes : ℕ → List ℕ → ℕ → Extent → Read Extent
unfolding read_box widen
read_boxes zero src mi e = ok e
read_boxes (suc n) src mi e = do
  b ← read_box src (16 + mi * 40)
  read_boxes n src (mi + 1) (widen b e)

-- `tw` and `th` within the limits.
unfoldable pub sized : Extent → Outcome
sized e =
    let tw = e.max_x - e.min_x in
    let th = e.max_y - e.min_y in
    if leb 200 tw && leb tw 8192 && leb 200 th && leb th 8192 then resize tw th else code 0

-- The Display Update.
unfoldable pub display_update : List ℕ → Read Outcome
unfolding read_boxes sized
display_update src = if ltb (length src) 56 then ok (code 0) else (do
  nm ← ld32 src 12
  if ltb nm 1 || ltb 16 nm
      then ok (code 0)
      else if ltb (length src) (16 + nm * 40)
      then ok (code 0)
      else (do first ← read_box src 16; e ← read_boxes (nm - 1) src 1 first; ok (sized e)))
