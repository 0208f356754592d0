-- ===== src/Mcs/SendData.antt =====
-- The data PDUs of src/wire/mcs.c: the request parser against the indication builder.
use rdpserver.Base.{ℕ, ◌+◌, ◌/◌, ◌%◌, ◌^◌, ◌≤◌, ◌<◌, ◌≡◌, arith}
use rdpserver.Base.{some, List, [], ◌∷◌, ◌++◌}
use rdpserver.Base.{length, length-append, take-append}
use rdpserver.Base.{ok}
use rdpserver.Base.Bits.{and_0x80, and_0xc0, and_0x3f}
use rdpserver.Buf.{octet, u16}
use rdpserver.Mcs.Domain.{initiator, per_len_size, data_head, build_send_data_indication, read_plen}
use rdpserver.Mcs.Domain.{parse_send_data_request}

-- The same PDU with the type of a request, which is what a client sends.
abbrev pub as_request : List ℕ → List ℕ
as_request [] = []
as_request (t ∷ rest) = 0x64 ∷ rest

initiator_back : (user : ℕ) → user < 2 ^ 16 → (1001 + initiator user) % 2 ^ 16 ≡ user
unfolding initiator
initiator_back user h = ground arith

initiator-lt : (user : ℕ) → initiator user < 2 ^ 16
unfolding initiator
initiator-lt user = omega arith

-- Two octets make the 16-bit value again.
join : (v : ℕ) → v < 2 ^ 16 → u16 (octet v 0) (octet v 1) ≡ v
join v h = ground arith

short_plen :
    (a b c d f n : ℕ) (rest : List ℕ)
    → n < 128
    → read_plen (0x64 ∷ a ∷ b ∷ c ∷ d ∷ f ∷ n ∷ rest) ≡ ok (n, 7)
unfolding read_plen
short_plen a b c d f n rest h = ground (arith, and_0x80 n)

long_plen :
    (a b c d f n : ℕ) (rest : List ℕ)
    → n < 0x4000
    → read_plen (0x64 ∷ a ∷ b ∷ c ∷ d ∷ f ∷ (128 + n / 256) ∷ n % 256 ∷ rest) ≡ ok (n, 8)
unfolding read_plen
long_plen a b c d f n rest h =
    ground (arith, and_0x80 (128 + n / 256), and_0xc0 (128 + n / 256), and_0x3f (128 + n / 256))

short_request :
    (a b c d f : ℕ) (payload more : List ℕ)
    → length payload < 128
    → parse_send_data_request (0x64 ∷ a ∷ b ∷ c ∷ d ∷ f ∷ length payload ∷ (payload ++ more))
      ≡ ok (7 + length payload, (1001 + u16 b a) % 2 ^ 16, u16 d c, payload)
unfolding parse_send_data_request
short_request a b c d f payload more h = ground (
  arith,
  short_plen a b c d f (length payload) (payload ++ more),
  length-append payload more,
  take-append payload more,
)

long_request :
    (a b c d f : ℕ) (payload more : List ℕ)
    → length payload < 0x4000
    → parse_send_data_request (
        0x64
        ∷ a
        ∷ b
        ∷ c
        ∷ d
        ∷ f
        ∷ (128 + length payload / 256)
        ∷ length payload % 256
        ∷ (payload ++ more))
      ≡ ok (8 + length payload, (1001 + u16 b a) % 2 ^ 16, u16 d c, payload)
unfolding parse_send_data_request
long_request a b c d f payload more h = ground (
  arith,
  long_plen a b c d f (length payload) (payload ++ more),
  length-append payload more,
  take-append payload more,
)

-- Whenever the indication of a payload was built, from a user and a channel of 16 bits, it lies
-- within the capacity, and the request with the same octets behind its type is parsed, in front
-- of any further bytes, to that user, that channel and that payload, and is consumed as a whole.
pub parse_send_data_request-build :
    (cap user channel : ℕ) (payload more : List ℕ) {pdu : List ℕ}
    → user < 2 ^ 16
    → channel < 2 ^ 16
    → build_send_data_indication cap user channel payload ≡ some pdu
    → (length pdu ≤ cap)
      × (parse_send_data_request (as_request pdu ++ more) ≡ ok (length pdu, user, channel, payload))
unfolding build_send_data_indication per_len_size data_head
parse_send_data_request-build cap user channel payload more {pdu} h k e = ground (
  arith,
  short_request (octet (initiator user) 1) (octet (initiator user) 0) (octet channel 1)
      (octet channel 0) 0x70 payload more,
  long_request (octet (initiator user) 1) (octet (initiator user) 0) (octet channel 1)
      (octet channel 0) 0x70 payload more,
  join (initiator user) (initiator-lt user),
  initiator_back user h,
  join channel k,
)
