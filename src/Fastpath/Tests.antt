-- ===== src/Fastpath/Tests.antt =====
-- Instances of the theorems on src/wire/fastpath.c.
use rdpserver.Base.{
  ℕ, ◌-◌, ◌*◌, ◌≡◌, refl, arith, true, List, [], ◌∷◌, ◌++◌, replicate, All, IsByte, fault, ◌>>=◌,
}
use rdpserver.Fastpath.Update.{update_bitmap, build_update_frag, build_update, bytes_of}
use rdpserver.Fastpath.Bitmap.{write_bitmap_data, build_bitmap_body, build_bitmap_update}
use rdpserver.Fastpath.Input.{parse_input}
use rdpserver.Fastpath.Framing.{Frames, build_update_frag-Frames}
use rdpserver.Fastpath.BitmapUpdate.{build_bitmap_update-build_update}
use rdpserver.Fastpath.Sent.{Sent}
use rdpserver.Fastpath.Safety.{Parses, parse_input-Parses}

-- Two rows of three pixels.
abbrev tile : List ℕ
tile = replicate 9 5 ++ (1 ∷ 2 ∷ 3 ∷ 4 ∷ 5 ∷ 6 ∷ 7 ∷ 8 ∷ 9 ∷ [])

build_update_frag-Frames_example :
    Frames 40 5 2 (7 ∷ 8 ∷ []) (bytes_of (build_update_frag (replicate 40 0) 40 5 2 (7 ∷ 8 ∷ [])))
build_update_frag-Frames_example =
    build_update_frag-Frames (replicate 40 0) 40 5 2 (7 ∷ 8 ∷ []) (omega arith) (omega arith)

build_bitmap_update-build_update_example : build_bitmap_update true 60 10 20 3 2 tile 9 ≡ (
    build_bitmap_body true (60 - 4) 10 20 3 2 tile 9 >>= λ body.
    bytes_of (build_update (replicate 60 0) 60 update_bitmap body))
build_bitmap_update-build_update_example =
    build_bitmap_update-build_update true (replicate 60 0) 60 10 20 3 2 tile 9 (omega arith)
      (omega arith)

-- A key, and the movement of the mouse.
abbrev packet : List ℕ
packet = 8 ∷ 11 ∷ 0 ∷ 30 ∷ 32 ∷ 0 ∷ 8 ∷ 44 ∷ 1 ∷ 200 ∷ 0 ∷ []

packet-IsByte : All IsByte packet
packet-IsByte = ground arith

parse_input-Parses_example : Parses packet (parse_input packet)
parse_input-Parses_example = parse_input-Parses packet packet-IsByte

two_events : (parse_input packet).events ≡ (
    record { kind = 0; flags = 0; keycode = 30; x = 0; y = 0 }
    ∷ record { kind = 1; flags = 2048; keycode = 0; x = 300; y = 200 }
    ∷ [])
unfolding parse_input
two_events = refl

-- A width whose padded width wraps to 0.
too_wide : write_bitmap_data true 0x100000 0 0 0xfffd 1 [] (3 * 0xfffd) ≡ fault
unfolding write_bitmap_data
too_wide = refl
