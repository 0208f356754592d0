-- ===== src/Dvc/Negotiate.antt =====
-- Opening the channels of src/channels/drdynvc.c: the server's Create Request and the answer.
use rdpserver.Base.{ℕ, ◌+◌, ◌≡◌, sym, arith, Bool, false, ◌||◌}
use rdpserver.Base.{inl, inr, Bool-cases, take}
use rdpserver.Base.{Option, some, List, [], ◌∷◌, ◌++◌, ltb, ◌==◌, if◌then◌else◌, length, ok}
use rdpserver.Buf.{u32}
use rdpserver.Dvc.State.{Channel, State, minus_one}
use rdpserver.Dvc.Create.{Outcome, code, handle_create}
use rdpserver.Dvc.Handle.{handle}
use rdpserver.Dvc.Build.{
  requested, create_request, with_state, build_create_gfx, build_create_disp,
  build_create_audio_input,
}
use rdpserver.Dvc.Build.{gfx_name, disp_name, audioin_name, rdpei_name, cam_enum_name}
use rdpserver.Dvc.Build.{
  has_nul, build_create_rdpei, build_create_cam_enum, build_create_cam_device,
}

-- No Create Response is awaited, but possibly that of a camera device.
pub record IsQuiet (st : State) : Type 0 where
  pub disp_quiet : st.disp.create_pending ≡ false
  pub gfx_quiet : st.gfx.create_pending ≡ false
  pub audioin_quiet : st.audioin.create_pending ≡ false
  pub rdpei_quiet : st.rdpei.create_pending ≡ false
  pub camenum_quiet : st.camenum.create_pending ≡ false

-- The client's answer with this status to the request for the channel `id`.
abbrev pub answer : ℕ → ℕ → ℕ → ℕ → ℕ → List ℕ
answer id s0 s1 s2 s3 = 0x10 ∷ id ∷ s0 ∷ s1 ∷ s2 ∷ s3 ∷ []

-- The channel afterwards: open where the status is 0, and else gone.
abbrev pub settled : ℕ → ℕ → Channel
settled id status =
    if status == 0
    then record { id = id; create_pending = false }
    else record { id = minus_one; create_pending = false }

-- What the handler tells its caller: `opened` if the channel is open.
abbrev pub told : ℕ → ℕ → Outcome
told opened status = if status == 0 then code opened else code 0

module _ (alloc : ℕ → Option (List ℕ)) (st : State) (q : IsQuiet st) (rc s0 s1 s2 s3 : ℕ)
    (want : Bool) where
  gfx_settled :
      handle alloc (record st { gfx = requested 1 }) (answer 1 s0 s1 s2 s3) rc want
      ≡ ok (code 0, record st { gfx = settled 1 (u32 s0 s1 s2 s3) })
  unfolding handle handle_create
  gfx_settled =
      ground (arith, q.disp_quiet, q.gfx_quiet, q.audioin_quiet, q.rdpei_quiet, q.camenum_quiet)

  disp_settled :
      handle alloc (record st { disp = requested 2 }) (answer 2 s0 s1 s2 s3) rc want
      ≡ ok (told 8 (u32 s0 s1 s2 s3), record st { disp = settled 2 (u32 s0 s1 s2 s3) })
  unfolding handle handle_create
  disp_settled =
      ground (arith, q.disp_quiet, q.gfx_quiet, q.audioin_quiet, q.rdpei_quiet, q.camenum_quiet)

  audioin_settled :
      handle alloc (record st { audioin = requested 3 }) (answer 3 s0 s1 s2 s3) rc want
      ≡ ok (told 10 (u32 s0 s1 s2 s3), record st { audioin = settled 3 (u32 s0 s1 s2 s3) })
  unfolding handle handle_create
  audioin_settled =
      ground (arith, q.disp_quiet, q.gfx_quiet, q.audioin_quiet, q.rdpei_quiet, q.camenum_quiet)

  rdpei_settled :
      handle alloc (record st { rdpei = requested 4 }) (answer 4 s0 s1 s2 s3) rc want
      ≡ ok (told 11 (u32 s0 s1 s2 s3), record st { rdpei = settled 4 (u32 s0 s1 s2 s3) })
  unfolding handle handle_create
  rdpei_settled =
      ground (arith, q.disp_quiet, q.gfx_quiet, q.audioin_quiet, q.rdpei_quiet, q.camenum_quiet)

  camenum_settled :
      handle alloc (record st { camenum = requested 5 }) (answer 5 s0 s1 s2 s3) rc want
      ≡ ok (told 13 (u32 s0 s1 s2 s3), record st { camenum = settled 5 (u32 s0 s1 s2 s3) })
  unfolding handle handle_create
  camenum_settled =
      ground (arith, q.disp_quiet, q.gfx_quiet, q.audioin_quiet, q.rdpei_quiet, q.camenum_quiet)

  camdev_settled :
      handle alloc (record st { camdev = requested 6 }) (answer 6 s0 s1 s2 s3) rc want
      ≡ ok (told 14 (u32 s0 s1 s2 s3), record st { camdev = settled 6 (u32 s0 s1 s2 s3) })
  unfolding handle handle_create
  camdev_settled =
      ground (arith, q.disp_quiet, q.gfx_quiet, q.audioin_quiet, q.rdpei_quiet, q.camenum_quiet)

-- The channels that the server opens.
pub data Kind : Type 0 where
  gfx : Kind
  disp : Kind
  audio_input : Kind
  rdpei : Kind
  cam_enum : Kind
  cam_device : Kind

-- The builder of the channel's Create Request; `name` is that of a camera device.
unfoldable pub build : Kind → State → List ℕ → ℕ → Option (List ℕ × State)
build gfx st name cap = build_create_gfx st cap
build disp st name cap = build_create_disp st cap
build audio_input st name cap = build_create_audio_input st cap
build rdpei st name cap = build_create_rdpei st cap
build cam_enum st name cap = build_create_cam_enum st cap
build cam_device st name cap = build_create_cam_device st name cap

unfoldable pub channel_id : Kind → ℕ
channel_id gfx = 1
channel_id disp = 2
channel_id audio_input = 3
channel_id rdpei = 4
channel_id cam_enum = 5
channel_id cam_device = 6

-- The state with this channel.
unfoldable pub with_channel : Kind → State → Channel → State
with_channel gfx st c = record st { gfx = c }
with_channel disp st c = record st { disp = c }
with_channel audio_input st c = record st { audioin = c }
with_channel rdpei st c = record st { rdpei = c }
with_channel cam_enum st c = record st { camenum = c }
with_channel cam_device st c = record st { camdev = c }

-- What the caller learns of an answer; nothing is said about the graphics channel.
unfoldable pub learned : Kind → ℕ → Outcome
learned gfx status = code 0
learned disp status = told 8 status
learned audio_input status = told 10 status
learned rdpei status = told 11 status
learned cam_enum status = told 13 status
learned cam_device status = told 14 status

-- A request that was made: its header and channel, and the state.
asked :
    (cap id : ℕ) (name : List ℕ) (after st' : State) (out : List ℕ)
    → with_state (create_request cap id name) after ≡ some (out, st')
    → (take 2 out ≡ 0x18 ∷ id ∷ []) × (after ≡ st')
unfolding create_request
asked cap id name after st' out e = elim (Bool-cases (ltb cap (2 + length name))) [
  | inl t ↦ ground (arith, e, t)
  | inr t ↦ ground (arith, e, t)
]

-- Every builder asks for its own channel, and waits for the answer.
built :
    (k : Kind) (st st' : State) (name : List ℕ) (cap : ℕ) (out : List ℕ)
    → build k st name cap ≡ some (out, st')
    → (take 2 out ≡ 0x18 ∷ channel_id k ∷ []) × (with_channel k st (requested (channel_id k)) ≡ st')
unfolding build channel_id with_channel build_create_gfx build_create_disp build_create_audio_input
    build_create_rdpei build_create_cam_enum build_create_cam_device
built gfx st st' name cap out e = asked cap 1 gfx_name (record st { gfx = requested 1 }) st' out e
built disp st st' name cap out e =
    asked cap 2 disp_name (record st { disp = requested 2 }) st' out e
built audio_input st st' name cap out e =
    asked cap 3 audioin_name (record st { audioin = requested 3 }) st' out e
built rdpei st st' name cap out e =
    asked cap 4 rdpei_name (record st { rdpei = requested 4 }) st' out e
built cam_enum st st' name cap out e =
    asked cap 5 cam_enum_name (record st { camenum = requested 5 }) st' out e
built cam_device st st' name cap out e =
    elim (Bool-cases (length name == 0 || ltb 250 (length name))) [
      | inl t ↦ ground (arith, e, t)
      | inr t ↦ elim (Bool-cases (has_nul name)) [
        | inl u ↦ ground (arith, e, t, u)
        | inr u ↦
            asked cap 6 (name ++ (0 ∷ [])) (record st { camdev = requested 6 }) st' out
              (ground (arith, e, t, u))
      ]
    ]

-- When no Create Response is awaited but possibly that of a camera device, a Create Request that
-- was built names the channel for which the client's answer is then taken, whatever the status in
-- it: a status of 0 opens that channel, any other one puts it back to no channel, nothing else of
-- the state changes, and the caller learns of an opened channel by its own code, except for the
-- graphics channel, of which it is told nothing, whatever the status.
pub create_settled :
    (k : Kind) (alloc : ℕ → Option (List ℕ)) (st st' : State) (name : List ℕ) (cap : ℕ)
    (out : List ℕ) (rc s0 s1 s2 s3 : ℕ) (want : Bool)
    → IsQuiet st
    → build k st name cap ≡ some (out, st')
    → (take 2 out ≡ 0x18 ∷ channel_id k ∷ [])
      × (handle alloc st' (answer (channel_id k) s0 s1 s2 s3) rc want
          ≡ ok (
            learned k (u32 s0 s1 s2 s3),
            with_channel k st (settled (channel_id k) (u32 s0 s1 s2 s3)),
          ))
unfolding channel_id with_channel learned
create_settled k alloc st st' name cap out rc s0 s1 s2 s3 want q e =
    let b = built k st st' name cap out e in (b.0, rw (sym b.1) (answer_settled k))
  where
    answer_settled :
        (k : Kind)
        → handle alloc
            (with_channel k st (requested (channel_id k)))
            (answer (channel_id k) s0 s1 s2 s3)
            rc
            want
          ≡ ok (
            learned k (u32 s0 s1 s2 s3),
            with_channel k st (settled (channel_id k) (u32 s0 s1 s2 s3)),
          )
    answer_settled gfx = gfx_settled alloc st q rc s0 s1 s2 s3 want
    answer_settled disp = disp_settled alloc st q rc s0 s1 s2 s3 want
    answer_settled audio_input = audioin_settled alloc st q rc s0 s1 s2 s3 want
    answer_settled rdpei = rdpei_settled alloc st q rc s0 s1 s2 s3 want
    answer_settled cam_enum = camenum_settled alloc st q rc s0 s1 s2 s3 want
    answer_settled cam_device = camdev_settled alloc st q rc s0 s1 s2 s3 want
