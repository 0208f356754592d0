-- ===== src/Dvc/Tests.antt =====
-- Instances of the theorems on src/channels/drdynvc.c.
use rdpserver.Base.{
  ℕ, ◌≡◌, refl, arith, true, false, Option, some, List, [], ◌∷◌, replicate, length-replicate,
  Ensures, leb, ◌||◌, take, ok,
}
use rdpserver.Buf.{u32}
use rdpserver.Vchan.Refine.{IsMalloc, is_some}
use rdpserver.Dvc.State.{Channel, State, minus_one, no_reasm, dvc_reasm_feed}
use rdpserver.Dvc.Handle.{handle}
use rdpserver.Dvc.Build.{build_create_disp}
use rdpserver.Dvc.Reassembly.{IsSound, view, view_all, spec_feed, dvc_reasm_feed_refines}
use rdpserver.Dvc.Safety.{Good, handle-Ensures}
use rdpserver.Dvc.Negotiate.{
  IsQuiet, disp, build, channel_id, with_channel, learned, settled, answer, create_settled,
}

abbrev plenty : ℕ → Option (List ℕ)
plenty n = some (replicate n 0)

plenty-IsMalloc : IsMalloc plenty
plenty-IsMalloc = record { size = λ n block e. cc (e, length-replicate {A = ℕ} n 0) }

no_reasm-IsSound : IsSound no_reasm
no_reasm-IsSound = record {
  backed = omega arith;
  fits = omega arith;
  within = omega arith;
  bounded = omega arith;
}

abbrev none_open : Channel
none_open = record { id = minus_one; create_pending = false }

abbrev initial : State
initial = record {
  caps_exchanged = false;
  disp = none_open;
  gfx = record { id = 1; create_pending = false };
  audioin = none_open;
  rdpei = none_open;
  camenum = none_open;
  camdev = none_open;
  gfx_reasm = no_reasm;
  ai_reasm = no_reasm;
  rei_reasm = no_reasm;
  ce_reasm = no_reasm;
  cd_reasm = no_reasm;
}

initial-IsQuiet : IsQuiet initial
initial-IsQuiet = record {
  disp_quiet = refl;
  gfx_quiet = refl;
  audioin_quiet = refl;
  rdpei_quiet = refl;
  camenum_quiet = refl;
}

dvc_reasm_feed_refines_example :
    (view_all (dvc_reasm_feed plenty no_reasm true 3 (1 ∷ 2 ∷ []))
      ≡ spec_feed (leb 3 no_reasm.cap || is_some (plenty 3)) (view no_reasm) true 3 (1 ∷ 2 ∷ []))
    × IsSound (dvc_reasm_feed plenty no_reasm true 3 (1 ∷ 2 ∷ [])).1
dvc_reasm_feed_refines_example =
    dvc_reasm_feed_refines plenty no_reasm true 3 (1 ∷ 2 ∷ []) plenty-IsMalloc no_reasm-IsSound

-- The first fragment of a graphics PDU of three bytes.
abbrev fragment : List ℕ
fragment = 0x20 ∷ 1 ∷ 3 ∷ 7 ∷ 8 ∷ []

handle-Ensures_example : Ensures (Good 16) (handle plenty initial fragment 16 true)
handle-Ensures_example =
    handle-Ensures plenty initial fragment 16 true plenty-IsMalloc
      (no_reasm-IsSound, no_reasm-IsSound, no_reasm-IsSound, no_reasm-IsSound, no_reasm-IsSound)

abbrev asking : State
asking = record initial { disp = record { id = 2; create_pending = true } }

abbrev request : List ℕ
request =
    0x18 ∷ 2 ∷ b'M' ∷ b'i' ∷ b'c' ∷ b'r' ∷ b'o' ∷ b's' ∷ b'o' ∷ b'f' ∷ b't' ∷ b':' ∷ b':' ∷ b'W'
    ∷ b'i' ∷ b'n' ∷ b'd' ∷ b'o' ∷ b'w' ∷ b's' ∷ b':' ∷ b':' ∷ b'R' ∷ b'D' ∷ b'S' ∷ b':' ∷ b':'
    ∷ b'D' ∷ b'i' ∷ b's' ∷ b'p' ∷ b'l' ∷ b'a' ∷ b'y' ∷ b'C' ∷ b'o' ∷ b'n' ∷ b't' ∷ b'r' ∷ b'o'
    ∷ b'l' ∷ 0 ∷ []

request_built : build disp initial [] 64 ≡ some (request, asking)
unfolding build build_create_disp
request_built = refl

create_settled_example :
    (take 2 request ≡ 0x18 ∷ channel_id disp ∷ [])
    × (handle plenty asking (answer (channel_id disp) 0 0 0 0) 16 false
        ≡ ok (
          learned disp (u32 0 0 0 0),
          with_channel disp initial (settled (channel_id disp) (u32 0 0 0 0)),
        ))
create_settled_example =
    create_settled disp plenty initial asking [] 64 request 16 0 0 0 0 false initial-IsQuiet
      request_built
