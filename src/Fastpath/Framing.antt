-- ===== src/Fastpath/Framing.antt =====
-- src/wire/fastpath.c: the packet of an update, and its length as a reader finds it.
use rdpserver.Base.{
  ℕ, suc, ◌+◌, ◌*◌, ◌/◌, ◌%◌, ◌^◌, ◌≤◌, ◌<◌, ◌≡◌, refl, sym, ap, ◌∙◌, arith, true, false, ◌||◌,
  Option,
}
use rdpserver.Base.{
  List, [], ◌∷◌, ◌++◌, ltb, leb, if◌then◌else◌, length, drop, inl, inr, ◌⊎◌, Bool-cases,
}
use rdpserver.Base.{Read, ok, err, ltb→lt, ltb→le, lt→ltb}
use rdpserver.Buf.{Buf, done, put, octet}
use rdpserver.Buf.Laws.{
  Writes, >>-Writes, cons-Writes, if-Writes, put-Writes, put_u8-Writes, put_u16le-Writes,
  done-Writes,
}
use rdpserver.Buf.Outcomes.{Builds, Builds-Writes}
use rdpserver.Fastpath.Update.{
  write_header, max_packet_size, total_size, update_header, build_update_frag, bytes_of,
}
use rdpserver.Fastpath.Bitmap.{}
use rdpserver.Fastpath.Input.{looks_like, read_total}

abbrev pub header_octets : ℕ → List ℕ
header_octets total =
    0 ∷ (if leb total 0x7f then total ∷ [] else (0x80 + total / 256 % 128) ∷ (total % 256) ∷ [])

pub write_header-Writes : (total : ℕ) → Writes (write_header total) (header_octets total)
unfolding write_header
write_header-Writes total = cons-Writes 0 (
    if-Writes (leb total 0x7f) (put_u8-Writes total)
      (cons-Writes (0x80 + total / 256 % 128) (put_u8-Writes (total % 256))))

-- What stands behind the header.
abbrev pub behind : ℕ → ℕ → List ℕ → List ℕ
behind update_type fragment body =
    update_header update_type fragment ∷ octet (length body) 0 ∷ octet (length body) 1 ∷ body

abbrev pub update_octets : ℕ → ℕ → List ℕ → List ℕ
update_octets update_type fragment body =
    header_octets (total_size (length body)) ++ behind update_type fragment body

length-update_octets :
    (update_type fragment : ℕ) (body : List ℕ)
    → length (update_octets update_type fragment body) ≡ total_size (length body)
length-update_octets update_type fragment body = ground arith

put_body-Writes : (body : List ℕ) → Writes (if ltb 0 (length body) then put body else done) body
put_body-Writes [] = done-Writes
put_body-Writes (x ∷ body) = rw (lt→ltb 0 (suc (length body)) (omega arith)) (put-Writes (x ∷ body))

abbrev pub framed : ℕ → ℕ → ℕ → List ℕ → Read (List ℕ)
framed room update_type fragment body =
    if ltb room (total_size (length body)) || ltb 0xffff (length body)
    then err
    else if ltb max_packet_size (total_size (length body))
    then err
    else ok (update_octets update_type fragment body)

Builds-bytes_of :
    (s : List ℕ) (room : ℕ) (o : Option Buf) → Builds s room o → length s ≤ room → bytes_of o ≡ ok s
Builds-bytes_of s room o b h = let t = b.fits h in ap bytes_of t.1 ∙ ap ok t.2

pub build_update_frag_lem :
    (out : List ℕ) (room update_type fragment : ℕ) (body : List ℕ)
    → room ≤ length out
    → room < 2 ^ 64
    → bytes_of (build_update_frag out room update_type fragment body)
      ≡ framed room update_type fragment body
unfolding build_update_frag
build_update_frag_lem out room update_type fragment body h k =
    elim (Bool-cases (ltb room (total_size (length body)) || ltb 0xffff (length body))) [
      | inl e ↦ rw e refl
      | inr e ↦ elim (Bool-cases (ltb max_packet_size (total_size (length body)))) [
        | inl f ↦ rw (e, f) refl
        | inr f ↦
            rw (e, f)
              (Builds-bytes_of (update_octets update_type fragment body) room _
                (Builds-Writes out room
                  (>>-Writes (write_header-Writes (total_size (length body))) (
                    cons-Writes (update_header update_type fragment)
                      (>>-Writes (put_u16le-Writes (length body)) (put_body-Writes body))))
                  h k)
                (ground (arith, length-update_octets update_type fragment body, e)))
      ]
    ]

-- The outcomes of a builder with storage for `room` bytes.
pub data Frames (room update_type fragment : ℕ) (body : List ℕ) : Read (List ℕ) → Type 0 where
  fits :
      (packet : List ℕ) (off : ℕ)
      → total_size (length body) ≤ room
      → total_size (length body) ≤ max_packet_size
      → length packet ≡ total_size (length body)
      → looks_like packet ≡ ok true
      → read_total packet ≡ ok (length packet, off)
      → drop off packet ≡ behind update_type fragment body
      → Frames room update_type fragment body (ok packet)
  too_long :
      (room < total_size (length body)) ⊎ (max_packet_size < total_size (length body))
      → Frames room update_type fragment body err

-- The header in front of any bytes.
record Headed (total : ℕ) (rest : List ℕ) : Type 0 where
  off : ℕ
  fast : looks_like (header_octets total ++ rest) ≡ ok true
  read : read_total (header_octets total ++ rest) ≡ ok (total, off)
  left : drop off (header_octets total ++ rest) ≡ rest

header_octets-Headed : (total : ℕ) (rest : List ℕ) → total ≤ max_packet_size → Headed total rest
unfolding looks_like read_total
header_octets-Headed total rest h = elim (Bool-cases (leb total 0x7f)) [
  | inl e ↦ record {
    off = 2;
    fast = rw e (ground arith);
    read = rw e (short (ground (arith, e)));
    left = rw e refl;
  }
  | inr e ↦ record {
    off = 3;
    fast = rw e (ground arith);
    read = rw e (long (ground (arith, e)));
    left = rw e refl;
  }
]
  where
    short : total < 0x80 → read_total (0 ∷ total ∷ rest) ≡ ok (total, 2)
    short l = let low : ltb total 0x80 ≡ true = ground arith in rw low refl

    long :
        0x7f < total
        → read_total (0 ∷ (0x80 + total / 256 % 128) ∷ (total % 256) ∷ rest) ≡ ok (total, 3)
    long l =
        let high : ltb (0x80 + total / 256 % 128) 0x80 ≡ false = ground arith in
        let there : leb 3 (suc (suc (suc (length rest)))) ≡ true = ground arith in
        rw (high, there)
          (ap (λ t. ok (t, 3)) {x = (0x80 + total / 256 % 128) % 128 * 256 + total % 256}
            {y = total} (omega arith))

-- On storage for `room` bytes an update is refused exactly where its packet has more bytes than
-- that or than a packet may have. A packet that is built is taken for fast-path, the length in
-- its header is its length, and behind the header are the type, the fragment and the body.
pub build_update_frag-Frames :
    (out : List ℕ) (room update_type fragment : ℕ) (body : List ℕ)
    → room ≤ length out
    → room < 2 ^ 64
    → Frames room update_type fragment body
        (bytes_of (build_update_frag out room update_type fragment body))
build_update_frag-Frames out room update_type fragment body h k =
    rw (build_update_frag_lem out room update_type fragment body h k)
      (elim (Bool-cases (ltb room (total_size (length body)) || ltb 0xffff (length body))) [
        | inl e ↦ rw e (too_long (ground (arith, e)))
        | inr e ↦ elim (Bool-cases (ltb max_packet_size (total_size (length body)))) [
          | inl f ↦ rw (e, f) (too_long (inr (ltb→lt max_packet_size (total_size (length body)) f)))
          | inr f ↦
              let small = ltb→le max_packet_size (total_size (length body)) f in
              let size = length-update_octets update_type fragment body in
              let t =
                header_octets-Headed (total_size (length body)) (behind update_type fragment body)
                  small in
              rw (e, f)
                (fits (update_octets update_type fragment body) t.off (ground (arith, e)) small size
                  t.fast (t.read ∙ ap (λ n. ok (n, t.off)) (sym size)) t.left)
        ]
      ])
