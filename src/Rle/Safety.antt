-- ===== src/Rle/Safety.antt =====
-- src/wire/bitmap_rle.c: the decoder on arbitrary sources.
use rdpserver.Base.{ℕ, ◌≤◌, ◌<◌, ◌≡◌}
use rdpserver.Base.{List, length}
use rdpserver.Rle.Decode.{Decoder}
use rdpserver.Rle.Shows.{state_of}

module _ (width total : ℕ) (wide : 0 < width) where
  -- The decoder holds no more pixels than there are, and knows when the first line is complete.
  pub record Fits (d : Decoder) : Type 0 where
    pub state : d ≡ state_of width d.done
    pub room : length d.done ≤ total

  -- The source is not behind where it was.
  abbrev pub Follows : List ℕ → List ℕ × Decoder → Type 0
  Follows p t = (length t.0 ≤ length p) × Fits t.1

  -- The orders with their count, from the source behind it.
  abbrev Counted : Type 0
  Counted = ℕ × List ℕ
