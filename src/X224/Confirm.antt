-- ===== src/X224/Confirm.antt =====
-- The connection confirm and the data header of src/wire/x224.c.
use rdpserver.Base.{ℕ, suc, ◌-◌, ◌≡◌, arith, Bool, not}
use rdpserver.Base.{some, List, [], ◌∷◌, ◌++◌, ◌==◌, if◌then◌else◌, length}
use rdpserver.Base.{ok, le→leb}
use rdpserver.Buf.{octet}
use rdpserver.X224.{cc_total, build_dt, parse_dt}

-- The negotiation part of a confirm.
abbrev pub neg_octets : Bool → ℕ → ℕ → List ℕ
neg_octets want_failure selected failure_code =
    if want_failure
    then 3
      ∷ 0
      ∷ 8
      ∷ 0
      ∷ octet failure_code 0
      ∷ octet failure_code 1
      ∷ octet failure_code 2
      ∷ octet failure_code 3
      ∷ []
    else if not (selected == 0)
    then 2
      ∷ 3
      ∷ 8
      ∷ 0
      ∷ octet selected 0
      ∷ octet selected 1
      ∷ octet selected 2
      ∷ octet selected 3
      ∷ []
    else []

-- The whole confirm: its length indicator counts the bytes behind it.
abbrev pub cc_octets : Bool → ℕ → ℕ → List ℕ
cc_octets w s f = (cc_total w s - 1) ∷ 0xd0 ∷ 0 ∷ 0 ∷ 0 ∷ 0 ∷ 0 ∷ neg_octets w s f

-- A data header that was built is accepted in front of any payload, and skipped.
pub parse_dt-build_dt :
    (cap : ℕ) (payload : List ℕ) {header : List ℕ}
    → build_dt cap ≡ some header
    → parse_dt (header ++ payload) ≡ ok (length header)
unfolding build_dt parse_dt
parse_dt-build_dt cap payload {header} e =
    rw (dt_bytes, le→leb 3 (suc (suc (suc (length payload)))) (omega arith))
  where
    dt_bytes : header ≡ 0x02 ∷ 0xf0 ∷ 0x80 ∷ []
    dt_bytes = ground arith
