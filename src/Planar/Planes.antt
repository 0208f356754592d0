-- ===== src/Planar/Planes.antt =====
-- src/wire/bitmap_planar.c: a plane that was encoded, row by row, is decoded to the same bytes.
use rdpserver.Base.{ℕ, zero, suc, ◌-◌, ◌*◌, ◌≤◌, ◌<◌, ◌≡◌, refl, ◌∙◌, arith, true}
use rdpserver.Base.{List, [], ◌∷◌, ◌++◌, append_assoc, leb, length, take, drop}
use rdpserver.Base.{length-append, length-take, length-drop}
use rdpserver.Base.{Read, ok}
use rdpserver.Planar.Encode.{compress_plane}
use rdpserver.Planar.Decode.{decode_row, decode_plane_rle}
use rdpserver.Planar.Runs.{last_or, split_at}
use rdpserver.Planar.Chunks.{Encodes}
use rdpserver.Planar.Rows.{encode_rle_scanline-Encodes}

-- The loop ends with a full row.
full_row :
    (fuel width last : ℕ) (row p : List ℕ)
    → length row ≡ width
    → 0 < fuel
    → decode_row fuel width last row p ≡ ok (row, p)
unfolding decode_row
full_row zero width last row p e h = absurd (omega arith)
full_row (suc fuel) width last row p e h = rw (full) refl
  where
    full : leb width (length row) ≡ true
    full = ground arith

-- A row that was encoded.
row_lem :
    (m : Read (List ℕ)) (limit : ℕ) (row p : List ℕ) (width : ℕ) (e : Encodes m limit 0 row)
    → length row ≡ width
    → decode_row (suc (length (e.bytes ++ p))) width 0 [] (e.bytes ++ p) ≡ ok (row, p)
row_lem m limit row p width e h =
    let l =
      (e.decodes.leads p width [] (omega arith)).lead (suc (length (e.bytes ++ p))) (omega arith) in
    l.2 ∙ full_row l.0 width (last_or 0 row) row p h (omega (arith, l.1))

-- `n` rows are encoded in at most twice their bytes, and decoded again in front of anything.
pub record EncodesPlane (m : Read (List ℕ)) (limit n width : ℕ) (delta : List ℕ) : Type 0 where
  pub bytes : List ℕ
  pub made : m ≡ ok bytes
  pub size : length bytes ≤ limit
  pub decoded : (p : List ℕ) → decode_plane_rle n width (bytes ++ p) ≡ ok (delta, p)

pub compress_plane-Encodes :
    (n width : ℕ) (delta : List ℕ) (room : ℕ)
    → length delta ≡ n * width
    → 2 * (n * width) ≤ room
    → EncodesPlane (compress_plane n width delta room) (2 * (n * width)) n width delta
unfolding compress_plane decode_plane_rle
compress_plane-Encodes zero width [] room e h = record {
  bytes = [];
  made = refl;
  size = omega arith;
  decoded = λ p. refl;
}
compress_plane-Encodes zero width (x ∷ xs) room e h = absurd (omega arith)
compress_plane-Encodes (suc n) width delta room e h =
    let len : length (take width delta) ≡ width = omega (arith, length-take width delta) in
    let row = encode_rle_scanline-Encodes (take width delta) room (omega arith) in
    let rest =
      compress_plane-Encodes n width (drop width delta) (room - length row.bytes)
        (omega (arith, length-drop width delta)) (omega (arith, row.size)) in
    record {
      bytes = row.bytes ++ rest.bytes;
      made = rw (row.made, rest.made) refl;
      size = omega (arith, length-append row.bytes rest.bytes, row.size, rest.size);
      decoded = λ p.
          rw
            (
              append_assoc row.bytes rest.bytes p,
              row_lem _ _ (take width delta) (rest.bytes ++ p) width row len,
              rest.decoded p,
              split_at width delta,
            )
            refl;
    }
