-- ===== src/Mcs/Tests.antt =====
-- Instances of the theorems on src/wire/mcs.c.
use rdpserver.Base.{
  ℕ, ◌≡◌, ◌≤◌, refl, arith, some, List, [], ◌∷◌, ◌++◌, length, Read, ok, err, fault, Ensures,
}
use rdpserver.Mcs.Connect.{ConnectInitial, find_duca, blocks, le16, le32, cleared}
use rdpserver.Ber.Decode.{read_app_tag, read_octet_string, read_boolean}
use rdpserver.Per.Decode.{read_length}
use rdpserver.Mcs.Initial.{parse_connect_initial}
use rdpserver.Mcs.Safety.{IsWellFormed}
use rdpserver.Mcs.Envelope.{parse_connect_initial-Ensures}
use rdpserver.Mcs.Domain.{build_send_data_indication, parse_send_data_request}
use rdpserver.Mcs.SendData.{as_request, parse_send_data_request-build}
use rdpserver.Base.{replicate}
use rdpserver.Buf.Outcomes.{Builds}
use rdpserver.Mcs.Response.{ConnectResponse, build_connect_response}
use rdpserver.Ber.Output.{length_octets}
use rdpserver.Mcs.Octets.{server_octets, inner_octets, outer_octets, body_octets, response_octets}
use rdpserver.Mcs.Built.{build_connect_response-Builds}

-- A Connect Initial that requests the channel "rdpsnd".
abbrev initial : List ℕ
initial =
    127 ∷ 101 ∷ 49 ∷ 4 ∷ 1 ∷ 1 ∷ 4 ∷ 1 ∷ 1 ∷ 1 ∷ 1 ∷ 255 ∷ 48 ∷ 0 ∷ 48 ∷ 0 ∷ 48 ∷ 0 ∷ 4 ∷ 32 ∷ 0 ∷ 1
    ∷ 2 ∷ 3 ∷ 4 ∷ 5 ∷ 6 ∷ 68 ∷ 117 ∷ 99 ∷ 97 ∷ 20 ∷ 3 ∷ 192 ∷ 20 ∷ 0 ∷ 1 ∷ 0 ∷ 0 ∷ 0 ∷ 114 ∷ 100
    ∷ 112 ∷ 115 ∷ 110 ∷ 100 ∷ 0 ∷ 0 ∷ 0 ∷ 0 ∷ 0 ∷ 192 ∷ []

-- It is accepted, with one channel.
abbrev channels_of : Read (ℕ × ConnectInitial) → ℕ
channels_of (ok t) = t.1.channel_count
channels_of err = 99
channels_of fault = 100

initial_accepted : channels_of (parse_connect_initial initial) ≡ 1
unfolding parse_connect_initial read_app_tag read_octet_string read_boolean find_duca read_length
    blocks le16 le32 cleared
initial_accepted = refl

parse_connect_initial-Ensures_example :
    Ensures (λ t. (t.0 ≡ length initial) × IsWellFormed t.1) (parse_connect_initial initial)
parse_connect_initial-Ensures_example = parse_connect_initial-Ensures initial (omega arith)

abbrev indication : List ℕ
indication = 0x68 ∷ 0 ∷ 6 ∷ 3 ∷ 0xeb ∷ 0x70 ∷ 2 ∷ 8 ∷ 9 ∷ []

indication_built : build_send_data_indication 64 1007 1003 (8 ∷ 9 ∷ []) ≡ some indication
unfolding build_send_data_indication
indication_built = refl

parse_send_data_request-build_example :
    (length indication ≤ 64)
    × (parse_send_data_request (as_request indication ++ (1 ∷ []))
        ≡ ok (length indication, 1007, 1003, 8 ∷ 9 ∷ []))
parse_send_data_request-build_example =
    parse_send_data_request-build 64 1007 1003 (8 ∷ 9 ∷ []) (1 ∷ []) (omega arith) (omega arith)
      indication_built

-- A response for one channel, with a message channel.
abbrev response : ConnectResponse
response = record {
  io_channel_id = 1003;
  channel_count = 1;
  channel_ids = 1004 ∷ replicate 31 0;
  encryption_method = 0;
  encryption_level = 0;
  requested_protocols = 1;
  early_capability_flags = 0;
  msgchannel_id = 1005;
}

response_size : length (response_octets response) ≡ 107
unfolding response_octets server_octets inner_octets outer_octets body_octets length_octets
response_size = refl

build_connect_response-Builds_example :
    Builds (response_octets response) 128 (build_connect_response (replicate 128 0) 128 response)
build_connect_response-Builds_example =
    build_connect_response-Builds (replicate 128 0) 128 response (omega arith) (omega arith)
      (record { few = omega arith; present = omega arith })
