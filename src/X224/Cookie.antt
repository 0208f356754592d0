-- ===== src/X224/Cookie.antt =====
-- `rdp_x224_parse_cr` of src/wire/x224.c on well-formed requests.
use rdpserver.Base.{ℕ, zero, suc, ◌+◌, ◌-◌, ◌^◌, ◌<◌, ◌≡◌, ◌≢◌, refl, ap, ◌∙◌, arith, true, false}
use rdpserver.Base.{some, List, [], ◌∷◌, ◌++◌, length, take, All}
use rdpserver.Base.{append_assoc, length-append, take-append, sub_size, ok, at}
use rdpserver.Base.{le→leb}
use rdpserver.Buf.{u32}
use rdpserver.X224.{cookie_word, starts_with, find_crlf, read_cookie, has_correlation}
use rdpserver.X224.{read_neg, read_tail, read_body, parse_cr}

find_crlf_lem :
    (txt rest : List ℕ) (i j : ℕ)
    → All (λ x. x ≢ b'\r') txt
    → j ≡ i + length txt
    → find_crlf (txt ++ (b'\r' ∷ b'\n' ∷ rest)) i ≡ some j
unfolding find_crlf
find_crlf_lem [] rest i j h e = ap some (omega arith)
find_crlf_lem (x ∷ []) rest i j h e = ground (arith, find_crlf_lem [] rest (i + 1) j)
find_crlf_lem (x ∷ y ∷ txt) rest i j h e =
    ground (arith, find_crlf_lem (y ∷ txt) rest (i + 1) j h.1)

at-append : (xs ys : List ℕ) (j k : ℕ) → j ≡ length xs + k → at (xs ++ ys) j ≡ at ys k
at-append [] ys j k e = ap (at ys) (omega arith)
at-append (x ∷ xs) ys zero k e = absurd (omega arith)
at-append (x ∷ xs) ys (suc j) k e = at-append xs ys j k (omega arith)

-- "Cookie:", a text, and "\r\n".
abbrev pub cookie_line : List ℕ → List ℕ
cookie_line txt = cookie_word ++ (txt ++ (b'\r' ∷ b'\n' ∷ []))

-- An RDP_NEG_REQ: type 1, the flags, length 8, the protocols as four bytes.
abbrev pub neg_req : ℕ → ℕ → ℕ → ℕ → ℕ → List ℕ → List ℕ
neg_req flags a b c d tail = 1 ∷ flags ∷ 8 ∷ 0 ∷ a ∷ b ∷ c ∷ d ∷ tail

read_cookie_lem :
    (txt rest : List ℕ)
    → All (λ x. x ≢ b'\r') txt
    → read_cookie (cookie_line txt ++ rest) ≡ ok (length (cookie_line txt))
unfolding read_cookie starts_with
read_cookie_lem txt rest h =
    rw
      (
        append_assoc txt (b'\r' ∷ b'\n' ∷ []) rest,
        find_crlf_lem (b':' ∷ txt) rest 6 (7 + length txt) (omega arith, h) (omega arith),
      )
      (ap ok (omega (arith, length-append txt (b'\r' ∷ b'\n' ∷ []))))

module _ (line : List ℕ) (flags a b c d : ℕ) (tail : List ℕ)
    (h : has_correlation flags ≡ false) where
  read_neg_lem :
      read_neg (line ++ neg_req flags a b c d tail) (length line)
      ≡ ok (record {
        have_neg_req = true;
        neg_flags = flags;
        requested_protocols = u32 a b c d;
        cookie = line;
      })
  unfolding read_neg
  read_neg_lem = rw (
    at-append line (neg_req flags a b c d tail) (length line + 1) 1 refl,
    at-append line (neg_req flags a b c d tail) (length line + 2) 2 refl,
    at-append line (neg_req flags a b c d tail) (length line + 3) 3 refl,
    at-append line (neg_req flags a b c d tail) (length line + 4) 4 refl,
    at-append line (neg_req flags a b c d tail) (length line + 5) 5 refl,
    at-append line (neg_req flags a b c d tail) (length line + 6) 6 refl,
    at-append line (neg_req flags a b c d tail) (length line + 7) 7 refl,
    h,
    take-append line (neg_req flags a b c d tail),
  )

  read_tail_lem :
      length (line ++ neg_req flags a b c d tail) < 2 ^ 63
      → read_tail (line ++ neg_req flags a b c d tail) (length line)
        ≡ ok (record {
          have_neg_req = true;
          neg_flags = flags;
          requested_protocols = u32 a b c d;
          cookie = line;
        })
  unfolding read_tail
  read_tail_lem k =
      rw
        (
          le→leb 8 (sub_size (length (line ++ neg_req flags a b c d tail)) (length line))
              (omega (arith, length-append line (neg_req flags a b c d tail))),
          at-append line (neg_req flags a b c d tail) (length line) 0 (omega arith),
        )
        read_neg_lem

-- The body of a request: a cookie line, a negotiation request, and what follows it.
abbrev pub cr_body : List ℕ → ℕ → ℕ → ℕ → ℕ → ℕ → List ℕ → List ℕ
cr_body txt flags a b c d tail = cookie_line txt ++ neg_req flags a b c d tail

read_body_lem :
    (txt : List ℕ) (flags a b c d : ℕ) (tail : List ℕ)
    → All (λ x. x ≢ b'\r') txt
    → has_correlation flags ≡ false
    → length (cr_body txt flags a b c d tail) < 2 ^ 63
    → read_body (cr_body txt flags a b c d tail)
      ≡ ok (record {
        have_neg_req = true;
        neg_flags = flags;
        requested_protocols = u32 a b c d;
        cookie = cookie_line txt;
      })
unfolding read_body
read_body_lem txt flags a b c d tail h k l =
    rw (read_cookie_lem txt (neg_req flags a b c d tail) h)
      (read_tail_lem (cookie_line txt) flags a b c d tail k l)

-- A connection request with a cookie line (no "\r" inside its text) and a negotiation request
-- without correlation info, whose length indicator counts them and fits a byte, is accepted,
-- whatever bytes follow the request in the packet and in the buffer: the cookie line, the flags
-- and the protocols are reported as sent.
pub parse_cr_lem :
    (txt : List ℕ) (li flags a b c d : ℕ) (tail behind : List ℕ)
    → All (λ x. x ≢ b'\r') txt
    → has_correlation flags ≡ false
    → li ≡ 6 + length (cr_body txt flags a b c d tail)
    → li < 256
    → parse_cr (li ∷ 0xe0 ∷ 0 ∷ 0 ∷ 0 ∷ 0 ∷ 0 ∷ (cr_body txt flags a b c d tail ++ behind))
      ≡ ok (record {
        have_neg_req = true;
        neg_flags = flags;
        requested_protocols = u32 a b c d;
        cookie = cookie_line txt;
      })
unfolding parse_cr
parse_cr_lem txt li flags a b c d tail behind h k e l =
    rw
      (
        le→leb 7 (suc (suc (suc (suc (suc (suc (suc (length (body ++ behind))))))))) (omega arith),
        le→leb (li + 1) (suc (suc (suc (suc (suc (suc (suc (length (body ++ behind)))))))))
            (omega (arith, length-append body behind)),
        le→leb 6 li (omega arith),
        cut,
      )
      (read_body_lem txt flags a b c d tail h k (omega arith))
  where
    body : List ℕ
    body = cr_body txt flags a b c d tail

    cut : take (li + 1 - 7) (body ++ behind) ≡ body
    cut =
        ap (λ n. take n (body ++ behind)) {y = length body} (omega arith) ∙ take-append body behind
