-- ===== src/Mcs/Octets.antt =====
-- src/wire/mcs.c: the octets of a Connect Response, and how many they are.
use rdpserver.Base.{ℕ, ◌+◌, ◌≤◌, arith}
use rdpserver.Base.{List, [], ◌∷◌, ◌++◌, ◌==◌, if◌then◌else◌, length, take, length-append}
use rdpserver.Buf.{octet}
use rdpserver.Buf.Laws.{}
use rdpserver.Ber.Encode.{sizeof_length}
use rdpserver.Ber.Output.{length_octets, length-length_octets}
use rdpserver.Per.Fields.{}
use rdpserver.Mcs.Connect.{max_channels}
use rdpserver.Mcs.Response.{ConnectResponse, sc_core, sc_net, sc_security, mcdn, t124_oid}
use rdpserver.Mcs.Staged.{block_octets, id_octets, length-id_octets, padding}

abbrev pub u16_octets : ℕ → List ℕ
u16_octets v = octet v 0 ∷ octet v 1 ∷ []

abbrev pub u32_octets : ℕ → List ℕ
u32_octets v = octet v 0 ∷ octet v 1 ∷ octet v 2 ∷ octet v 3 ∷ []

-- The server data: the bodies of the blocks, and the blocks.
abbrev pub core_octets : ConnectResponse → List ℕ
core_octets r =
    u32_octets 0x00080004
    ++ (u32_octets r.requested_protocols ++ u32_octets r.early_capability_flags)

abbrev pub net_octets : ConnectResponse → List ℕ
net_octets r =
    u16_octets r.io_channel_id
    ++ (u16_octets r.channel_count
        ++ (id_octets (take r.channel_count r.channel_ids) ++ padding r.channel_count))

abbrev pub security_octets : ConnectResponse → List ℕ
security_octets r = u32_octets r.encryption_method ++ u32_octets r.encryption_level

abbrev pub message_octets : ConnectResponse → List ℕ
message_octets r =
    if r.msgchannel_id == 0 then [] else block_octets 0x0c04 (u16_octets r.msgchannel_id)

unfoldable pub server_octets : ConnectResponse → List ℕ
server_octets r =
    block_octets sc_core (core_octets r)
    ++ (block_octets sc_net (net_octets r)
        ++ (block_octets sc_security (security_octets r) ++ message_octets r))

-- A conference response with the server data inside, a T.124 envelope around it, the body of the
-- Connect Response with the envelope in an octet string, and the whole PDU. Every length is that
-- of what stands behind it.
unfoldable pub inner_octets : List ℕ → List ℕ
inner_octets sc =
    0x14
    ∷ 0x76
    ∷ 0x0a
    ∷ 1
    ∷ 1
    ∷ 0
    ∷ 1
    ∷ 0xc0
    ∷ 0
    ∷ (mcdn ++ (rdpserver.Per.Fields.length_octets (length sc) ++ sc))

unfoldable pub outer_octets : List ℕ → List ℕ
outer_octets inner =
    0 ∷ 5 ∷ (t124_oid ++ (rdpserver.Per.Fields.length_octets (length inner) ++ inner))

abbrev pub params_octets : List ℕ
params_octets =
    2 ∷ 1 ∷ 34 ∷ 2 ∷ 1 ∷ 2 ∷ 2 ∷ 1 ∷ 0 ∷ 2 ∷ 1 ∷ 1 ∷ 2 ∷ 1 ∷ 0 ∷ 2 ∷ 1 ∷ 1 ∷ 2 ∷ 3 ∷ 0 ∷ 255 ∷ 255
    ∷ 2 ∷ 1 ∷ 2 ∷ []

unfoldable pub body_octets : List ℕ → List ℕ
body_octets gcc =
    10
    ∷ 1
    ∷ 0
    ∷ 2
    ∷ 1
    ∷ 0
    ∷ 0x30
    ∷ 26
    ∷ (params_octets ++ (4 ∷ (length_octets (length gcc) ++ gcc)))

unfoldable pub response_octets : ConnectResponse → List ℕ
response_octets r =
    let body = body_octets (outer_octets (inner_octets (server_octets r))) in
    0x7f ∷ 0x66 ∷ (length_octets (length body) ++ body)

-- With all its channels, of which there are at most 32.
pub record IsComplete (r : ConnectResponse) : Type 0 where
  pub few : r.channel_count ≤ max_channels
  pub present : r.channel_count ≤ length r.channel_ids

pub length-net_octets : (r : ConnectResponse) → IsComplete r → length (net_octets r) ≤ 70
length-net_octets r h = omega (
  arith,
  length-id_octets r.channel_count r.channel_ids h.present,
  padding_short r.channel_count,
  length-append (id_octets (take r.channel_count r.channel_ids)) (padding r.channel_count),
  h.few,
)
  where
    padding_short : (n : ℕ) → length (padding n) ≤ 2
    padding_short n = ground arith

pub length-server_octets : (r : ConnectResponse) → IsComplete r → length (server_octets r) ≤ 108
unfolding server_octets
length-server_octets r h =
    let a = block_octets sc_core (core_octets r) in
    let b = block_octets sc_net (net_octets r) in
    let c = block_octets sc_security (security_octets r) in
    omega (
      arith,
      length-net_octets r h,
      message,
      length-append a (b ++ (c ++ message_octets r)),
      length-append b (c ++ message_octets r),
      length-append c (message_octets r),
    )
  where
    message : length (message_octets r) ≤ 6
    message = ground arith

length-per : (n : ℕ) → length (rdpserver.Per.Fields.length_octets n) ≤ 2
length-per n = ground arith

pub length-inner_octets : (sc : List ℕ) → length (inner_octets sc) ≤ 15 + length sc
unfolding inner_octets
length-inner_octets sc = omega (
  arith,
  length-per (length sc),
  length-append (rdpserver.Per.Fields.length_octets (length sc)) sc,
)

pub length-outer_octets : (inner : List ℕ) → length (outer_octets inner) ≤ 9 + length inner
unfolding outer_octets
length-outer_octets inner = omega (
  arith,
  length-per (length inner),
  length-append (rdpserver.Per.Fields.length_octets (length inner)) inner,
)

length-ber : (n : ℕ) → length (length_octets n) ≤ 5
unfolding sizeof_length
length-ber n = ground (arith, length-length_octets n)

pub length-body_octets : (gcc : List ℕ) → length (body_octets gcc) ≤ 40 + length gcc
unfolding body_octets
length-body_octets gcc =
    omega (arith, length-ber (length gcc), length-append (length_octets (length gcc)) gcc)
