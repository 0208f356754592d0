-- ===== src/Tpkt/Header.antt =====
-- The TPKT header of src/wire/tpkt.c: encoder and parser.
use rdpserver.Base.{ℕ, ◌^◌, ◌≤◌, ◌<◌, ◌≡◌, arith, some}
use rdpserver.Base.{List, [], ◌∷◌, All, IsByte, ◌↔◌}
use rdpserver.Buf.{octet}
use rdpserver.Tpkt.{parse_hdr, encode_hdr}

four_bytes :
    (a b c d n : ℕ)
    → All IsByte (a ∷ b ∷ c ∷ d ∷ [])
    → parse_hdr (a ∷ b ∷ c ∷ d ∷ []) ≡ some n
    → (a ≡ 3) × (b ≡ 0) × (c ≡ octet n 1) × (d ≡ octet n 0) × (7 ≤ n) × (n < 2 ^ 16)
unfolding parse_hdr
four_bytes a b c d n h e = ground arith

pub parse_hdr-ge : (h : List ℕ) (n : ℕ) → parse_hdr h ≡ some n → 7 ≤ n
unfolding parse_hdr
parse_hdr-ge h n e = ground arith

-- Four bytes parse as the header of a frame of `n` bytes, `n` a 16-bit value, exactly when they
-- are what the encoder makes of `n`; so no header is accepted that the encoder would not write.
parse_hdr-encode_hdr :
    (a b c d n : ℕ)
    → All IsByte (a ∷ b ∷ c ∷ d ∷ [])
    → n < 2 ^ 16
    → (parse_hdr (a ∷ b ∷ c ∷ d ∷ []) ≡ some n) ↔ (encode_hdr n ≡ some (a ∷ b ∷ c ∷ d ∷ []))
unfolding parse_hdr encode_hdr
parse_hdr-encode_hdr a b c d n h k =
    (λ e. ground (arith, four_bytes a b c d n h e), λ e. ground arith)
