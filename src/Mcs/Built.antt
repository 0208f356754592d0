-- ===== src/Mcs/Built.antt =====
-- src/wire/mcs.c: the Connect Response that is built.
use rdpserver.Base.{ℕ, ◌+◌, ◌*◌, ◌^◌, ◌≤◌, ◌<◌, ◌≡◌, refl, sym, ◌∙◌, arith, false, none}
use mathlib.Core.Path.{subst}
use rdpserver.Base.{List, ◌∷◌, ◌++◌, ◌==◌, length, take, le→ltb}
use rdpserver.Buf.{init, finish}
use rdpserver.Buf.Laws.{
  Writes, Writes-eq, >>-Writes, cons-Writes, put-Writes, put_u16le-Writes, put_u32le-Writes,
  done-Writes,
}
use rdpserver.Buf.Outcomes.{Builds, Builds-Writes}
use rdpserver.Ber.Encode.{sizeof_length, integer_octets}
use rdpserver.Ber.Output.{
  length_octets, universal_octets, integer_content, app_tag_octets, write_length-Writes,
  write_universal-Writes, write_integer-Writes, write_octet_string-Writes, write_enumerated-Writes,
  write_app_tag-Writes,
}
use rdpserver.Per.Encode.{write_choice, write_h221_key}
use rdpserver.Per.Fields.{}
use rdpserver.Mcs.Connect.{max_channels}
use rdpserver.Mcs.Response.{
  ConnectResponse, params_fields, write_domain_params, core_body, net_body, security_body, sc_core,
  sc_net, sc_security, server_blocks, mcdn, t124_oid, conference_inner, conference_outer,
  response_body, response_frame, pad_block, put_params, send_envelope, send_conference, send_inner,
  send_blocks, build_connect_response,
}
use rdpserver.Mcs.Staged.{
  FitsFrom, Fits, Writes-Fits, Fits-FitsFrom, >>-FitsFrom, >>-Fits, if-Fits, staged_lem,
  put_block-Fits, id_octets, put_ids-Writes, length-id_octets, padding, pad_block-FitsFrom,
}
use rdpserver.Mcs.Octets.{
  net_octets, server_octets, inner_octets, outer_octets, params_octets, body_octets,
  response_octets, IsComplete, length-net_octets, length-server_octets, length-inner_octets,
  length-outer_octets, length-body_octets,
}

params_fields-Writes : Writes params_fields params_octets
unfolding params_fields universal_octets integer_content length_octets integer_octets
params_fields-Writes = Writes-eq refl (
    >>-Writes (write_integer-Writes 34) (
      >>-Writes (write_integer-Writes 2) (
        >>-Writes (write_integer-Writes 0) (
          >>-Writes (write_integer-Writes 1) (
            >>-Writes (write_integer-Writes 0) (
              >>-Writes (write_integer-Writes 1)
                (>>-Writes (write_integer-Writes 0xffff) (write_integer-Writes 2))))))))

net_body-FitsFrom :
    (r : ConnectResponse) (start : ℕ)
    → IsComplete r
    → FitsFrom start 0 (net_body r start) (net_octets r)
unfolding net_body
net_body-FitsFrom r start h =
    let ids = id_octets (take r.channel_count r.channel_ids) in
    >>-FitsFrom (put_u16le-Writes r.io_channel_id) (
      >>-FitsFrom (put_u16le-Writes r.channel_count) (
        >>-FitsFrom (put_ids-Writes r.channel_count r.channel_ids h.present) (
          subst (λ k. FitsFrom start k (pad_block 3 start) (padding r.channel_count))
            (placed (length ids) (length-id_octets r.channel_count r.channel_ids h.present))
            (pad_block-FitsFrom start r.channel_count))))
  where
    placed : (k : ℕ) → k ≡ 2 * r.channel_count → 4 + 2 * r.channel_count ≡ 0 + 2 + 2 + k
    placed k e = omega (arith, e)

server_blocks-Fits : (r : ConnectResponse) → IsComplete r → Fits (server_blocks r) (server_octets r)
unfolding server_blocks core_body security_body server_octets
server_blocks-Fits r h =
    >>-Fits
      (put_block-Fits sc_core
        (λ start. Fits-FitsFrom start 0 (
          Writes-Fits (
            >>-Writes (put_u32le-Writes 0x00080004) (
              >>-Writes (put_u32le-Writes r.requested_protocols)
                (put_u32le-Writes r.early_capability_flags)))))
        (omega arith))
      (>>-Fits
        (put_block-Fits sc_net (λ start. net_body-FitsFrom r start h)
          (omega (arith, length-net_octets r h)))
        (>>-Fits
          (put_block-Fits sc_security
            (λ start. Fits-FitsFrom start 0 (
              Writes-Fits (
                >>-Writes (put_u32le-Writes r.encryption_method)
                  (put_u32le-Writes r.encryption_level))))
            (omega arith))
          (if-Fits (r.msgchannel_id == 0) (Writes-Fits done-Writes) (
            put_block-Fits 0x0c04
              (λ start. Fits-FitsFrom start 0 (Writes-Fits (put_u16le-Writes r.msgchannel_id)))
              (omega arith)))))

conference_inner-Fits :
    (sc : List ℕ) → length sc ≤ 108 → Fits (conference_inner sc) (inner_octets sc)
unfolding conference_inner inner_octets write_choice write_h221_key
conference_inner-Fits sc h = Writes-Fits (
    cons-Writes 0x14 (
      cons-Writes 0x76 (
        cons-Writes 0x0a (
          cons-Writes 1 (
            cons-Writes 1 (
              cons-Writes 0 (
                cons-Writes 1 (
                  cons-Writes 0xc0 (
                    cons-Writes 0 (
                      >>-Writes (put-Writes mcdn) (
                        >>-Writes
                          (rdpserver.Per.Fields.write_length-Writes (length sc) (omega arith))
                          (put-Writes sc))))))))))))

conference_outer-Fits :
    (inner : List ℕ) → length inner ≤ 123 → Fits (conference_outer inner) (outer_octets inner)
unfolding conference_outer outer_octets write_choice
conference_outer-Fits inner h = Writes-Fits (
    cons-Writes 0 (
      cons-Writes 5 (
        >>-Writes (put-Writes t124_oid) (
          >>-Writes (rdpserver.Per.Fields.write_length-Writes (length inner) (omega arith))
            (put-Writes inner)))))

write_domain_params-Fits : Fits write_domain_params (0x30 ∷ 26 ∷ params_octets)
unfolding write_domain_params put_params universal_octets length_octets
write_domain_params-Fits = record {
  fits = λ b v r.
      staged_lem 64 params_fields (false, b) (λ inner. put_params inner b) params_octets
        (Writes-Fits params_fields-Writes) (omega arith) (omega arith)
      ∙ (Writes-Fits (
            >>-Writes (write_universal-Writes 0x20 0x10 26 (omega arith))
              (put-Writes params_octets))).fits
          b v r;
}

response_body-Fits : (gcc : List ℕ) → length gcc ≤ 132 → Fits (response_body gcc) (body_octets gcc)
unfolding response_body body_octets universal_octets integer_content integer_octets length_octets
response_body-Fits gcc h = >>-Fits (Writes-Fits (write_enumerated-Writes 0)) (
    >>-Fits (Writes-Fits (write_integer-Writes 0)) (
      >>-Fits write_domain_params-Fits (Writes-Fits (write_octet_string-Writes gcc (omega arith)))))

response_frame-Writes :
    (envelope : List ℕ)
    → length envelope < 2 ^ 32
    → Writes (response_frame envelope) (0x7f ∷ 0x66 ∷ (length_octets (length envelope) ++ envelope))
unfolding response_frame app_tag_octets rdpserver.Ber.Encode.tag_groups
response_frame-Writes envelope h =
    >>-Writes (write_app_tag-Writes 0x20 102)
      (>>-Writes (write_length-Writes (length envelope) h) (put-Writes envelope))

response_lem :
    (out : List ℕ) (cap : ℕ) (r : ConnectResponse)
    → IsComplete r
    → build_connect_response out cap r
      ≡ finish (
          response_frame
            (body_octets (outer_octets (inner_octets (server_octets r))))
            (init out cap))
unfolding build_connect_response send_blocks send_inner send_conference send_envelope
response_lem out cap r h =
    let sc = server_octets r in
    let inner = inner_octets sc in
    let gcc = outer_octets inner in
    let n : length sc ≤ 108 = length-server_octets r h in
    let m : length inner ≤ 123 = omega (arith, n, length-inner_octets sc) in
    let l : length gcc ≤ 132 = omega (arith, m, length-outer_octets inner) in
    let k : length (body_octets gcc) ≤ 1280 = omega (arith, l, length-body_octets gcc) in
    rw (le→ltb max_channels r.channel_count h.few) (
      staged_lem 1024 (server_blocks r) none (send_blocks out cap) sc (server_blocks-Fits r h)
        (omega (arith, n)) (omega arith)
      ∙ (staged_lem 1024 (conference_inner sc) none (send_inner out cap) inner
            (conference_inner-Fits sc n) (omega (arith, m)) (omega arith)
          ∙ (staged_lem 1024 (conference_outer inner) none (send_conference out cap) gcc
                (conference_outer-Fits inner m) (omega (arith, l)) (omega arith)
              ∙ staged_lem 1280 (response_body gcc) none (send_envelope out cap) (body_octets gcc)
                  (response_body-Fits gcc l) k (omega arith))))

-- With storage for `cap` bytes, and for at most 32 channels that are all present, no step of
-- `rdp_mcs_build_connect_response` runs out of its array on the stack: it returns -1 exactly where
-- the response does not fit `cap` bytes, and else writes exactly its octets, in which every length
-- and every size of a block is that of what it announces.
pub build_connect_response-Builds :
    (out : List ℕ) (cap : ℕ) (r : ConnectResponse)
    → cap ≤ length out
    → cap < 2 ^ 64
    → IsComplete r
    → Builds (response_octets r) cap (build_connect_response out cap r)
unfolding response_octets
build_connect_response-Builds out cap r h k c =
    let body = body_octets (outer_octets (inner_octets (server_octets r))) in
    subst (λ o. Builds (response_octets r) cap o) (sym (response_lem out cap r c))
      (Builds-Writes out cap (response_frame-Writes body (short c)) h k)
  where
    short :
        IsComplete r → length (body_octets (outer_octets (inner_octets (server_octets r)))) < 2 ^ 32
    short c =
        let sc = server_octets r in
        omega (
          arith,
          length-server_octets r c,
          length-inner_octets sc,
          length-outer_octets (inner_octets sc),
          length-body_octets (outer_octets (inner_octets sc)),
        )
