-- ===== src/Dvc/Build.antt =====
-- src/channels/drdynvc.c: the PDUs that the server builds, as the bytes at the front of the
-- buffer of `cap` bytes (`none` is -1), with the state afterwards.
use rdpserver.Base.{
  ℕ, ◌+◌, ◌%◌, Bool, true, false, not, ◌||◌, Option, none, some, List, [], ◌∷◌, ◌++◌,
}
use rdpserver.Base.{ltb, ◌==◌, if◌then◌else◌, length}
use rdpserver.Dvc.State.{Channel, State, minus_one, no_reasm, positive}

unfoldable pub build_caps : ℕ → Option (List ℕ)
build_caps cap =
    if ltb cap 12 then none else some (0x54 ∷ 0 ∷ 3 ∷ 0 ∷ 0 ∷ 0 ∷ 0 ∷ 0 ∷ 0 ∷ 0 ∷ 0 ∷ 0 ∷ [])

-- "Microsoft::Windows::RDS::" in front of a name and its NUL.
abbrev rds_name : List ℕ → List ℕ
rds_name name =
    b'M'
    ∷ b'i'
    ∷ b'c'
    ∷ b'r'
    ∷ b'o'
    ∷ b's'
    ∷ b'o'
    ∷ b'f'
    ∷ b't'
    ∷ b':'
    ∷ b':'
    ∷ b'W'
    ∷ b'i'
    ∷ b'n'
    ∷ b'd'
    ∷ b'o'
    ∷ b'w'
    ∷ b's'
    ∷ b':'
    ∷ b':'
    ∷ b'R'
    ∷ b'D'
    ∷ b'S'
    ∷ b':'
    ∷ b':'
    ∷ (name ++ (0 ∷ []))

abbrev pub gfx_name : List ℕ
gfx_name = rds_name (b'G' ∷ b'r' ∷ b'a' ∷ b'p' ∷ b'h' ∷ b'i' ∷ b'c' ∷ b's' ∷ [])

abbrev pub disp_name : List ℕ
disp_name = rds_name (
    b'D' ∷ b'i' ∷ b's' ∷ b'p' ∷ b'l' ∷ b'a' ∷ b'y' ∷ b'C' ∷ b'o' ∷ b'n' ∷ b't' ∷ b'r' ∷ b'o' ∷ b'l'
    ∷ [])

abbrev pub rdpei_name : List ℕ
rdpei_name = rds_name (b'I' ∷ b'n' ∷ b'p' ∷ b'u' ∷ b't' ∷ [])

abbrev pub audioin_name : List ℕ
audioin_name = b'A' ∷ b'U' ∷ b'D' ∷ b'I' ∷ b'O' ∷ b'_' ∷ b'I' ∷ b'N' ∷ b'P' ∷ b'U' ∷ b'T' ∷ 0 ∷ []

abbrev pub cam_enum_name : List ℕ
cam_enum_name =
    b'R' ∷ b'D' ∷ b'C' ∷ b'a' ∷ b'm' ∷ b'e' ∷ b'r' ∷ b'a' ∷ b'_' ∷ b'D' ∷ b'e' ∷ b'v' ∷ b'i' ∷ b'c'
    ∷ b'e' ∷ b'_' ∷ b'E' ∷ b'n' ∷ b'u' ∷ b'm' ∷ b'e' ∷ b'r' ∷ b'a' ∷ b't' ∷ b'o' ∷ b'r' ∷ 0 ∷ []

-- `if (cap < total) return -1;` and the Create Request for a name with its NUL.
unfoldable pub create_request : ℕ → ℕ → List ℕ → Option (List ℕ)
create_request cap id name = if ltb cap (2 + length name) then none else some (0x18 ∷ id ∷ name)

-- The channel that waits for its Create Response.
abbrev pub requested : ℕ → Channel
requested id = record { id = id; create_pending = true }

-- The request, if there is one, with the state.
abbrev pub with_state : Option (List ℕ) → State → Option (List ℕ × State)
with_state none st = none
with_state (some out) st = some (out, st)

unfoldable pub build_create_gfx : State → ℕ → Option (List ℕ × State)
unfolding create_request
build_create_gfx st cap =
    with_state (create_request cap 1 gfx_name) (record st { gfx = requested 1 })

unfoldable pub build_create_disp : State → ℕ → Option (List ℕ × State)
unfolding create_request
build_create_disp st cap =
    with_state (create_request cap 2 disp_name) (record st { disp = requested 2 })

unfoldable pub build_create_audio_input : State → ℕ → Option (List ℕ × State)
unfolding create_request
build_create_audio_input st cap =
    with_state (create_request cap 3 audioin_name) (record st { audioin = requested 3 })

unfoldable pub build_create_rdpei : State → ℕ → Option (List ℕ × State)
unfolding create_request
build_create_rdpei st cap =
    with_state (create_request cap 4 rdpei_name) (record st { rdpei = requested 4 })

unfoldable pub build_create_cam_enum : State → ℕ → Option (List ℕ × State)
unfolding create_request
build_create_cam_enum st cap =
    with_state (create_request cap 5 cam_enum_name) (record st { camenum = requested 5 })

-- `memchr(name, 0, name_len) != NULL`
unfoldable pub has_nul : List ℕ → Bool
has_nul [] = false
has_nul (x ∷ name) = x == 0 || has_nul name

unfoldable pub build_create_cam_device : State → List ℕ → ℕ → Option (List ℕ × State)
unfolding create_request has_nul
build_create_cam_device st name cap =
    if length name == 0 || ltb 250 (length name)
    then none
    else if has_nul name
    then none
    else with_state (create_request cap 6 (name ++ (0 ∷ []))) (record st { camdev = requested 6 })

unfoldable pub build_close_cam_device : State → ℕ → Option (List ℕ × State)
build_close_cam_device st cap =
    if not (positive st.camdev.id)
    then none
    else if ltb cap 2
    then none
    else some (
      0x40 ∷ st.camdev.id % 256 ∷ [],
      record st { camdev = record { id = minus_one; create_pending = false } },
    )

unfoldable pub build_disp_caps : ℕ → Option (List ℕ)
build_disp_caps cap =
    if ltb cap 20
    then none
    else some
        (5 ∷ 0 ∷ 0 ∷ 0 ∷ 20 ∷ 0 ∷ 0 ∷ 0 ∷ 16 ∷ 0 ∷ 0 ∷ 0 ∷ 0 ∷ 0x20 ∷ 0 ∷ 0 ∷ 0 ∷ 0x20 ∷ 0 ∷ 0 ∷ [])

-- `dvc_reasm_free` of each channel.
unfoldable pub cleanup : State → State
cleanup st = record st {
  gfx_reasm = no_reasm;
  ai_reasm = no_reasm;
  rei_reasm = no_reasm;
  ce_reasm = no_reasm;
  cd_reasm = no_reasm;
}
