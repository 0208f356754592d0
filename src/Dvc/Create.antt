-- ===== src/Dvc/Create.antt =====
-- src/channels/drdynvc.c: channel ids, and the Create PDU in `rdp_drdynvc_handle`. What reads outside
-- the packet is a `fault`; a -1 that leaves the state as it was is `err`.
use rdpserver.Base.{ℕ, ◌+◌, Bool, false, ◌&&◌, ◌||◌}
use rdpserver.Base.{
  Option, none, some, List, [], ◌∷◌, ◌++◌, leb, ◌==◌, if◌then◌else◌, length, take, drop, bit_and,
}
use rdpserver.Base.{Read, ok, err, ◌>>=◌, ◌>>◌, guard, at, replicate}
use rdpserver.Buf.{u16, u32}
use rdpserver.X224.{starts_with}
use rdpserver.Dvc.State.{Channel, State, minus_one}

-- What a call returns, with what it stores through its pointers: -1, a code without output, 0 with
-- the response PDU, 1 with the new width and height, a code with a complete PDU.
pub data Outcome : Type 0 where
  refused : Outcome
  code : ℕ → Outcome
  respond : List ℕ → Outcome
  resize : ℕ → ℕ → Outcome
  pdu : ℕ → List ℕ → Outcome

unfoldable pub ld32 : List ℕ → ℕ → Read ℕ
ld32 p i = do a ← at p i; b ← at p (i + 1); c ← at p (i + 2); d ← at p (i + 3); ok (u32 a b c d)

-- The id and the bytes that it takes.
unfoldable pub read_channel_id : List ℕ → ℕ → Read (ℕ × ℕ)
unfolding ld32
read_channel_id p cb_id =
    if cb_id == 0
    then (do guard (leb 1 (length p)); a ← at p 0; ok (a, 1))
    else if cb_id == 1
    then (do guard (leb 2 (length p)); a ← at p 0; b ← at p 1; ok (u16 a b, 2))
    else if cb_id == 2
    then (do guard (leb 4 (length p)); id ← ld32 p 0; ok (id, 4))
    else err

-- `status` of a Create Response; 0 where there is none.
unfoldable pub read_status : List ℕ → Read ℕ
read_status body = if leb 4 (length body) then ld32 body 0 else ok 0

-- The channel that a Create Response is for: `create_pending` falls, and a status other than 0
-- makes the id -1.
unfoldable pub answered : Channel → ℕ → Channel
answered c status =
    if status == 0
    then record c { create_pending = false }
    else record { id = minus_one; create_pending = false }

abbrev pub awaits : Channel → ℕ → Bool
awaits c id = c.create_pending && (id == c.id)

-- A Create Response: the code where the channel is opened, 0 where it is not.
abbrev pub status_code : ℕ → ℕ → Outcome
status_code opened status = if status == 0 then code opened else code 0

-- `strstr(name, w) != NULL` on the text of a name.
unfoldable pub contains : List ℕ → List ℕ → Bool
unfolding starts_with
contains w [] = starts_with w []
contains w (x ∷ name) = starts_with w (x ∷ name) || contains w name

abbrev cons_text : ℕ → Option (List ℕ) → Option (List ℕ)
cons_text x none = none
cons_text x (some t) = some (x ∷ t)

-- The text in front of the first NUL, which `memchr` looks for.
unfoldable pub text : List ℕ → Option (List ℕ)
text [] = none
text (x ∷ p) = if x == 0 then some [] else cons_text x (text p)

abbrev pub display_control : List ℕ
display_control =
    b'D' ∷ b'i' ∷ b's' ∷ b'p' ∷ b'l' ∷ b'a' ∷ b'y' ∷ b'C' ∷ b'o' ∷ b'n' ∷ b't' ∷ b'r' ∷ b'o' ∷ b'l'
    ∷ []

abbrev pub graphics_pipeline : List ℕ
graphics_pipeline =
    b'G' ∷ b'r' ∷ b'a' ∷ b'p' ∷ b'h' ∷ b'i' ∷ b'c' ∷ b's' ∷ b'P' ∷ b'i' ∷ b'p' ∷ b'e' ∷ b'l' ∷ b'i'
    ∷ b'n' ∷ b'e' ∷ []

abbrev set_id : Bool → Channel → ℕ → Channel
set_id named c id = if named then record c { id = id } else c

-- A Create Request of the client with this name, and the response where it fits.
unfoldable pub accept_request :
    State → ℕ → List ℕ → ℕ → ℕ → Option (List ℕ) → Read (Outcome × State)
unfolding contains
accept_request st hdr id_bytes resp_cap id none = err
accept_request st hdr id_bytes resp_cap id (some name) =
    let st' = record st {
      disp = set_id (contains display_control name) st.disp id;
      gfx = set_id (contains graphics_pipeline name) st.gfx id;
    } in
    if leb (1 + length id_bytes + 4) resp_cap
    then ok (respond (hdr ∷ (id_bytes ++ replicate 4 0)), st')
    else ok (code 0, st')

-- `remain` and `status` are those of the packet behind the id.
unfoldable pub handle_create : State → ℕ → List ℕ → ℕ → Read (Outcome × State)
unfolding read_channel_id read_status answered accept_request text
handle_create st hdr p resp_cap = do
  (id, id_len) ← read_channel_id p (bit_and hdr 3)
  status ← read_status (drop id_len p)
  if awaits st.disp id
      then ok (status_code 8 status, record st { disp = answered st.disp status })
      else if awaits st.gfx id
      then ok (code 0, record st { gfx = answered st.gfx status })
      else if awaits st.audioin id
      then ok (status_code 10 status, record st { audioin = answered st.audioin status })
      else if awaits st.rdpei id
      then ok (status_code 11 status, record st { rdpei = answered st.rdpei status })
      else if awaits st.camenum id
      then ok (status_code 13 status, record st { camenum = answered st.camenum status })
      else if awaits st.camdev id
      then ok (status_code 14 status, record st { camdev = answered st.camdev status })
      else accept_request st hdr (take id_len p) resp_cap id (text (drop id_len p))
