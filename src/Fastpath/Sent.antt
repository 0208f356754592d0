-- ===== src/Fastpath/Sent.antt =====
-- src/wire/fastpath.c: a rectangle is sent so that a client shows it.
use rdpserver.Base.{ℕ, ◌*◌, ◌^◌, ◌≤◌, ◌<◌, ◌≡◌}
use rdpserver.Base.{List, length}
use rdpserver.Base.{Read, ok}
use rdpserver.Rle.Rows.{flipped}
use rdpserver.Base.{IsSize, area_le}
use rdpserver.Fastpath.Shown.{Picture, shown}

-- A call that stores at most `limit` bytes, of which a client shows the picture.
pub record Sent (limit : ℕ) (picture : Picture) (m : Read (List ℕ)) : Type 0 where
  pub bytes : List ℕ
  pub made : m ≡ ok bytes
  pub small : length bytes ≤ limit
  pub seen : shown bytes ≡ ok picture

-- The rows of the tile, the last row first, in its rectangle.
abbrev pub tile_at : ℕ → ℕ → ℕ → ℕ → List ℕ → Picture
tile_at x y w h pixels = record {
  left = x;
  top = y;
  width = w;
  height = h;
  pixels = flipped h w pixels;
}

module _ (room x y w h : ℕ) (pixels : List ℕ) (left : x < 2 ^ 16) (above : y < 2 ^ 16)
    (tile : IsSize w h) (whole : length pixels ≡ 3 * (h * w)) where
  area : h * w ≤ 4096
  area = area_le w h tile
