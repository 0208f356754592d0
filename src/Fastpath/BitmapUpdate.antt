-- ===== src/Fastpath/BitmapUpdate.antt =====
-- src/wire/fastpath.c: the update of a bitmap, and the other updates.
use rdpserver.Base.{ℕ, ◌+◌, ◌-◌, ◌^◌, ◌≤◌, ◌<◌, ◌≡◌, refl, sym, ◌∙◌, arith, Bool, true, false, ◌||◌}
use rdpserver.Base.{List, ltb, if◌then◌else◌, length, replicate, inl, inr, Bool-cases}
use rdpserver.Base.{Read, ok, err, fault, ◌>>=◌}
use rdpserver.Buf.{init, finish}
use rdpserver.Buf.Laws.{}
use rdpserver.Buf.Outcomes.{Builds-Writes}
use rdpserver.Fastpath.Update.{
  write_header, max_packet_size, fragment_single, update_bitmap, total_size, build_update_frag,
  build_update, bytes_of,
}
use rdpserver.Fastpath.Bitmap.{
  write_bitmap_data, bitmap_body, build_bitmap_body, update_size, prefix, build_bitmap_update,
}
use rdpserver.Fastpath.Framing.{
  framed, update_octets, header_octets, write_header-Writes, build_update_frag_lem,
}

same_size : (n : ℕ) → update_size n ≡ total_size n
same_size n = ground arith

-- An update of a bitmap is the body in the frame of the other updates.
prefix_lem :
    (room : ℕ) (body : List ℕ)
    → ltb 0xffff (length body) ≡ false
    → ltb max_packet_size (update_size (length body)) ≡ false
    → prefix room body (finish (write_header (update_size (length body)) (init (replicate 4 0) 4)))
      ≡ framed room update_bitmap fragment_single body
unfolding prefix
prefix_lem room body h k =
    let total = total_size (length body) in
    let t =
      (Builds-Writes (replicate 4 0) 4 (write_header-Writes total) (omega arith) (omega arith)).fits
        (short total) in
    rw (same_size (length body), t.1, t.2, t.3, h, same) (last (ltb room total))
  where
    short : (total : ℕ) → length (header_octets total) ≤ 4
    short total = ground arith

    same :
        length (header_octets (total_size (length body))) + 3 + length body
        ≡ total_size (length body)
    same = ground arith

    within : ltb max_packet_size (total_size (length body)) ≡ false
    within = rw (same_size (length body)) at k

    last :
        (b : Bool)
        → (if b then err else ok (update_octets update_bitmap fragment_single body)) ≡ (
            if b || false
            then err
            else if ltb max_packet_size (total_size (length body))
            then err
            else ok (update_octets update_bitmap fragment_single body))
    last true = refl
    last false = rw within refl

-- On storage for `room` bytes the update of a bitmap is what `build_update` makes of the body
-- that `build_bitmap_body` makes with four bytes of room less, and it is refused where one of
-- those is.
pub build_bitmap_update-build_update :
    (rle_ok : Bool) (out : List ℕ) (room x y w h : ℕ) (pixels : List ℕ) (stride : ℕ)
    → room ≤ length out
    → room < 2 ^ 64
    → build_bitmap_update rle_ok room x y w h pixels stride ≡ (
        build_bitmap_body rle_ok (room - 4) x y w h pixels stride >>= λ body.
        bytes_of (build_update out room update_bitmap body))
unfolding build_bitmap_update build_bitmap_body build_update
build_bitmap_update-build_update rle_ok out room x y w h pixels stride k l =
    elim (Bool-cases (ltb room 8)) [
      | inl e ↦ rw (e, less e) refl
      | inr e ↦
          rw (e, more e, rest) (each (write_bitmap_data rle_ok (room - 8) x y w h pixels stride))
    ]
  where
    less : ltb room 8 ≡ true → ltb (room - 4) 4 ≡ true
    less e = ground (arith, e)

    more : ltb room 8 ≡ false → ltb (room - 4) 4 ≡ false
    more e = ground (arith, e)

    rest : room - 4 - 4 ≡ room - 8
    rest = omega arith

    either : (b : Bool) → if◌then◌else◌ {A = Read (List ℕ)} (b || false) err err ≡ err
    either true = refl
    either false = refl

    large :
        (body : List ℕ)
        → ltb 0xffff (length body) ≡ false
        → ltb max_packet_size (update_size (length body)) ≡ true
        → framed room update_bitmap fragment_single body ≡ err
    large body e f =
        rw (e, rw (same_size (length body)) at f) (either (ltb room (total_size (length body))))

    each :
        (m : Read (List ℕ))
        → (m >>= λ bd.
            if ltb 0xffff (length (bitmap_body bd))
            then err
            else if ltb max_packet_size (update_size (length (bitmap_body bd)))
            then err
            else prefix room (bitmap_body bd) (
                finish
                  (write_header (update_size (length (bitmap_body bd))) (init (replicate 4 0) 4))))
          ≡ ((m >>= λ bd. if ltb 0xffff (length (bitmap_body bd)) then err else ok (bitmap_body bd))
              >>= λ body. bytes_of (build_update_frag out room update_bitmap fragment_single body))
    each err = refl
    each fault = refl
    each (ok bd) =
        let body = bitmap_body bd in
        let other = build_update_frag_lem out room update_bitmap fragment_single body k l in
        elim (Bool-cases (ltb 0xffff (length body))) [
          | inl e ↦ rw e refl
          | inr e ↦ elim (Bool-cases (ltb max_packet_size (update_size (length body)))) [
            | inl f ↦ rw (e, f) (sym (other ∙ large body e f))
            | inr f ↦ rw (e, f) (prefix_lem room body e f ∙ sym other)
          ]
        ]
