-- ===== src/Mcs/Envelope.antt =====
-- `rdp_mcs_parse_connect_initial` of src/wire/mcs.c as a whole, on any bytes from the network.
use rdpserver.Base.{ℕ, ◌+◌, ◌-◌, ◌^◌, ◌≤◌, ◌<◌, ◌≡◌, refl, arith, Bool, not}
use rdpserver.Base.{List, ltb, length, length-drop}
use rdpserver.Base.{le→leb, Ensures, returns}
use rdpserver.Base.{bind_then, guard_then}
use rdpserver.Ber.Safety.{read_universal_tag-Ensures, read_app_tag-Ensures, read_boolean-Ensures}
use rdpserver.Ber.Safety.{read_octet_string-Ensures}
use rdpserver.Per.Fields.{read_length-Ensures}
use rdpserver.Mcs.Connect.{cleared}
use rdpserver.Mcs.Initial.{slice, skip_params, skip_domain, read_user_data, parse_connect_initial}
use rdpserver.Mcs.Safety.{IsWellFormed, blocks-Ensures, find_duca-Ensures}

slice-Ensures :
    (p : List ℕ) (off : ℕ) → off ≤ length p → Ensures (λ s. length s ≡ length p - off) (slice p off)
unfolding slice
slice-Ensures p off h = rw (le→leb off (length p) h) (returns (length-drop off p))

skip_params-Ensures :
    (p : List ℕ) (off : ℕ)
    → length p < 2 ^ 64
    → off ≤ length p
    → Ensures (λ k. k ≤ length p) (skip_params p off)
unfolding skip_params
skip_params-Ensures p off small h = bind_then (slice-Ensures p off h) λ (s : List ℕ) q.
    bind_then (read_universal_tag-Ensures s 0x20 0x10 (omega arith))
      λ (t : ℕ × ℕ) f. returns (omega arith)

skip_domain-Ensures :
    (p : List ℕ) (off : ℕ)
    → length p < 2 ^ 64
    → off ≤ length p
    → Ensures (λ k. k ≤ length p) (skip_domain p off)
unfolding skip_domain
skip_domain-Ensures p off small h = bind_then (slice-Ensures p off h) λ (s0 : List ℕ) q0.
    bind_then (read_octet_string-Ensures s0 (omega arith)) λ (t0 : ℕ × List ℕ) f0.
      bind_then (slice-Ensures p (off + t0.0) (omega arith)) λ (s1 : List ℕ) q1.
        bind_then (read_octet_string-Ensures s1 (omega arith)) λ (t1 : ℕ × List ℕ) f1.
          bind_then (slice-Ensures p (off + t0.0 + t1.0) (omega arith)) λ (s2 : List ℕ) q2.
            bind_then (read_boolean-Ensures s2 (omega arith)) λ (t2 : ℕ × Bool) f2.
              bind_then (skip_params-Ensures p (off + t0.0 + t1.0 + t2.0) small (omega arith))
                λ off1 l1.
                  bind_then (skip_params-Ensures p off1 small l1)
                    λ off2 l2. skip_params-Ensures p off2 small l2

cleared-IsWellFormed : IsWellFormed cleared
unfolding cleared
cleared-IsWellFormed = (refl, refl, omega arith, refl, omega arith)

read_user_data-Ensures : (u : List ℕ) → Ensures IsWellFormed (read_user_data u)
unfolding read_user_data
read_user_data-Ensures u = guard_then (not (ltb (length u) 21)) λ g.
    bind_then (find_duca-Ensures (length u) u 7 (omega arith) (ground arith)) λ (ud : ℕ) l.
      bind_then (slice-Ensures u ud l) λ (s : List ℕ) q.
        bind_then (read_length-Ensures s) λ (t : ℕ × ℕ) f.
          blocks-Ensures (length u) u (ud + t.0) cleared (omega arith) (omega arith)
            cleared-IsWellFormed

-- On every packet shorter than 2 ^ 64 bytes the parser of the MCS Connect Initial ends, reads
-- inside the packet only and stores inside the arrays of its result only; on success it reports
-- the whole packet, and the counts of channels and of monitors are within those arrays.
pub parse_connect_initial-Ensures :
    (p : List ℕ)
    → length p < 2 ^ 64
    → Ensures (λ t. (t.0 ≡ length p) × IsWellFormed t.1) (parse_connect_initial p)
unfolding parse_connect_initial
parse_connect_initial-Ensures p small =
    bind_then (read_app_tag-Ensures p 0x20 101 small) λ (t : ℕ × ℕ) f.
      bind_then (skip_domain-Ensures p t.0 small (omega arith)) λ (off : ℕ) l.
        bind_then (slice-Ensures p off l) λ (s : List ℕ) q.
          bind_then (read_octet_string-Ensures s (omega arith)) λ (t' : ℕ × List ℕ) f'.
            bind_then (read_user_data-Ensures t'.1) λ out w. returns (refl, w)
