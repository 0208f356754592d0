-- ===== src/Mcs/Response.antt =====
-- src/wire/mcs.c: `rdp_mcs_build_connect_response`. A step that fills one of the arrays on the
-- stack hands on the bytes that it wrote; those behind them are never read.
use rdpserver.Base.{
  ℕ, zero, suc, ◌+◌, ◌%◌, ◌^◌, Bool, true, false, Option, none, some, List, [], ◌∷◌,
}
use rdpserver.Base.{ltb, ◌==◌, if◌then◌else◌, length, take, write_at, replicate, sub_size}
use rdpserver.Buf.{
  Buf, Writer, ◌>>◌, init, used, reserve, put, put_u8, put_u16le, put_u32le, fail, done, octet,
  finish,
}
use rdpserver.Ber.Encode.{
  constructed, write_integer, write_universal, write_enumerated, write_app_tag,
}
use rdpserver.Per.Encode.{write_choice, write_h221_key}
use rdpserver.Mcs.Connect.{max_channels}

-- `struct rdp_mcs_connect_response`, without the field that the builder does not read.
pub record ConnectResponse : Type 0 where
  pub io_channel_id : ℕ
  pub channel_count : ℕ
  pub channel_ids : List ℕ
  pub encryption_method : ℕ
  pub encryption_level : ℕ
  pub requested_protocols : ℕ
  pub early_capability_flags : ℕ
  pub msgchannel_id : ℕ

-- The bytes in a scratch array of `n` bytes behind checked calls, with which `k` goes on, or
-- `failed` where one of the calls returns -1.
abbrev pub on_used {ℓ} : {A : Type ℓ} → A → (List ℕ → A) → Option Buf → A
on_used failed k none = failed
on_used failed k (some c) = k (take (used c) c.bytes)

unfoldable pub staged {ℓ} : {A : Type ℓ} → ℕ → Writer → A → (List ℕ → A) → A
staged n w failed k = on_used failed k (finish (w (init (replicate n 0) n)))

unfoldable pub params_fields : Writer
params_fields = do
  write_integer 34
  write_integer 2
  write_integer 0
  write_integer 1
  write_integer 0
  write_integer 1
  write_integer 0xffff
  write_integer 2

unfoldable pub put_params : List ℕ → Writer
put_params inner = do write_universal constructed 0x10 (length inner); put inner

unfoldable pub write_domain_params : Writer
unfolding staged params_fields put_params
write_domain_params b = staged 64 params_fields (false, b) (λ inner. put_params inner b)

-- `hdr[0 .. 4)`: the type and the size of a block whose body begins at `start`.
abbrev pub patch : ℕ → ℕ → ℕ → Buf → Buf
patch type hdr start b =
    let size = (sub_size (used b) start + 4) % 2 ^ 16 in
    record b {
      bytes = write_at b.bytes hdr (octet type 0 ∷ octet type 1 ∷ octet size 0 ∷ octet size 1 ∷ []);
    }

abbrev pub patched : ℕ → ℕ → ℕ → Bool × Buf → Bool × Buf
patched type hdr start (true, b) = (true, patch type hdr start b)
patched type hdr start (false, b) = (false, b)

-- A block: its header is reserved, the body is written, and the header is filled in.
abbrev pub in_block : ℕ → (ℕ → Writer) → Buf → Option (ℕ × Buf) → Bool × Buf
in_block type body b none = (false, b)
in_block type body b (some (hdr, c)) = patched type hdr (used c) (body (used c) c)

unfoldable pub put_block : ℕ → (ℕ → Writer) → Writer
put_block type body b = in_block type body b (reserve 4 b)

unfoldable pub put_ids : ℕ → List ℕ → Writer
put_ids zero ids = done
put_ids (suc n) [] = fail
put_ids (suc n) (x ∷ ids) = put_u16le x >> put_ids n ids

-- `while ((rdp_buf_used(&sb) - start + 4) % 4 != 0)`: three rounds are enough.
unfoldable pub pad_block : ℕ → ℕ → Writer
pad_block zero start b = if (sub_size (used b) start + 4) % 4 == 0 then (true, b) else (false, b)
pad_block (suc fuel) start b =
    let rest = (put_u8 0 >> pad_block fuel start) b in
    if (sub_size (used b) start + 4) % 4 == 0 then (true, b) else rest

unfoldable pub net_body : ConnectResponse → ℕ → Writer
unfolding put_ids pad_block
net_body r start = do
  put_u16le r.io_channel_id
  put_u16le r.channel_count
  put_ids r.channel_count r.channel_ids
  pad_block 3 start

unfoldable pub core_body : ConnectResponse → ℕ → Writer
core_body r start = do
  put_u32le 0x00080004
  put_u32le r.requested_protocols
  put_u32le r.early_capability_flags

unfoldable pub security_body : ConnectResponse → ℕ → Writer
security_body r start = do put_u32le r.encryption_method; put_u32le r.encryption_level

-- RDP_SC_CORE, RDP_SC_NET and RDP_SC_SECURITY
abbrev pub sc_core : ℕ
sc_core = 0x0c01

abbrev pub sc_net : ℕ
sc_net = 0x0c03

abbrev pub sc_security : ℕ
sc_security = 0x0c02

unfoldable pub server_blocks : ConnectResponse → Writer
unfolding put_block core_body net_body security_body
server_blocks r = do
  put_block sc_core (core_body r)
  put_block sc_net (net_body r)
  put_block sc_security (security_body r)
  if r.msgchannel_id == 0 then done else put_block 0x0c04 (λ start. put_u16le r.msgchannel_id)

abbrev pub mcdn : List ℕ
mcdn = b'M' ∷ b'c' ∷ b'D' ∷ b'n' ∷ []

abbrev pub t124_oid : List ℕ
t124_oid = 0x00 ∷ 0x14 ∷ 0x7c ∷ 0x00 ∷ 0x01 ∷ []

-- `0x79F3 - 1001`
abbrev pub node_id : ℕ
node_id = 0x760a

unfoldable pub conference_inner : List ℕ → Writer
conference_inner sc = do
  write_choice 0x14
  put_u8 (octet node_id 1)
  put_u8 (octet node_id 0)
  put_u8 1
  put_u8 1
  put_u8 0
  put_u8 1
  write_choice 0xc0
  put_u8 0
  write_h221_key mcdn
  rdpserver.Per.Encode.write_length (length sc)
  put sc

unfoldable pub conference_outer : List ℕ → Writer
conference_outer inner = do
  write_choice 0
  put_u8 0x05
  put t124_oid
  rdpserver.Per.Encode.write_length (length inner)
  put inner

unfoldable pub response_body : List ℕ → Writer
unfolding write_domain_params
response_body gcc = do
  write_enumerated 0
  write_integer 0
  write_domain_params
  rdpserver.Ber.Encode.write_octet_string gcc

unfoldable pub response_frame : List ℕ → Writer
response_frame envelope = do
  write_app_tag constructed 102
  rdpserver.Ber.Encode.write_length (length envelope)
  put envelope

-- The steps behind each array that is filled.
unfoldable pub send_envelope : List ℕ → ℕ → List ℕ → Option Buf
unfolding response_frame
send_envelope out cap envelope = finish (response_frame envelope (init out cap))

unfoldable pub send_conference : List ℕ → ℕ → List ℕ → Option Buf
unfolding staged response_body send_envelope
send_conference out cap gcc = staged 1280 (response_body gcc) none (send_envelope out cap)

unfoldable pub send_inner : List ℕ → ℕ → List ℕ → Option Buf
unfolding staged conference_outer send_conference
send_inner out cap inner = staged 1024 (conference_outer inner) none (send_conference out cap)

unfoldable pub send_blocks : List ℕ → ℕ → List ℕ → Option Buf
unfolding staged conference_inner send_inner
send_blocks out cap sc = staged 1024 (conference_inner sc) none (send_inner out cap)

unfoldable pub build_connect_response : List ℕ → ℕ → ConnectResponse → Option Buf
unfolding staged server_blocks send_blocks
build_connect_response out cap r =
    if ltb max_channels r.channel_count
    then none
    else staged 1024 (server_blocks r) none (send_blocks out cap)
