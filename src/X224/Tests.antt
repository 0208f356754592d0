-- ===== src/X224/Tests.antt =====
-- Instances of the theorems on src/wire/x224.c.
use rdpserver.Base.{ℕ, ◌≡◌, refl, arith, true, List, [], ◌∷◌, ◌++◌, ok}
use rdpserver.X224.{parse_cr}
use rdpserver.X224.Cookie.{cookie_line, cr_body, parse_cr_lem}

-- A request whose length indicator is too large.
abbrev cut_request : List ℕ
cut_request = 0x20 ∷ 0xe0 ∷ 0 ∷ 0 ∷ 0 ∷ 0 ∷ 0 ∷ 0x43 ∷ []

-- The text "ab" of a cookie.
abbrev name : List ℕ
name = 0x61 ∷ 0x62 ∷ []

parse_cr_lem_example :
    parse_cr (25 ∷ 0xe0 ∷ 0 ∷ 0 ∷ 0 ∷ 0 ∷ 0 ∷ (cr_body name 0 3 0 0 0 [] ++ (9 ∷ [])))
    ≡ ok (record {
      have_neg_req = true;
      neg_flags = 0;
      requested_protocols = 3;
      cookie = cookie_line name;
    })
parse_cr_lem_example =
    parse_cr_lem name 25 0 3 0 0 0 [] (9 ∷ []) (λ e. cc e, (λ e. cc e, tt)) refl refl (omega arith)
