-- ===== src/Sess/Checked.antt =====
-- src/sessionmgr/sessionmgr.c: what holds of every request that is accepted.
use rdpserver.Base.{ℕ, ◌+◌, ◌≤◌, ◌<◌, ◌≢◌, ◌≡◌, arith, Bool, true, false, not, ◌&&◌, ◌||◌}
use rdpserver.Base.{
  List, [], ◌∷◌, ltb, leb, ◌==◌, if◌then◌else◌, length, drop, length-take, length-drop, All, inl,
  inr, Bool-cases,
}
use rdpserver.Base.{Ensures, returns, refused, bind_then, guard_then, at_then, if_then}
use rdpserver.Buf.{u16}
use rdpserver.Sess.Requests.{
  Credentials, Spawn, denied, launch, copy_text, parse_auth, c_string, is_tz_char, all_tz_chars,
  starts_badly, tz_is_safe, safe_or_none, read_tz, parse_spawn,
}

-- The texts fit in their arrays with the NUL.
abbrev pub IsShort : Credentials → Type 0
IsShort c = (length c.user ≤ 256) × (length c.pass ≤ 1024) × (length c.ip ≤ 64)

-- Bytes between '+' and 'z', none of them '='.
abbrev pub IsHarmless : List ℕ → Type 0
IsHarmless s = All (λ c. (b'+' ≤ c) × (c ≤ b'z') × (c ≢ b'=')) s

abbrev pub IsNoPath : List ℕ → Type 0
IsNoPath [] = Unit
IsNoPath (c ∷ s) = (c ≢ b':') × (c ≢ b'/')

abbrev pub IsSpawn : Spawn → Type 0
IsSpawn denied = Unit
IsSpawn (launch w h lcid tz) = (0 < w) × (0 < h) × (length tz ≤ 63) × IsHarmless tz × IsNoPath tz

copy_text-Ensures :
    (room n off : ℕ) (req : List ℕ)
    → off + n ≤ length req
    → n < room
    → Ensures (λ s. length s ≡ n) (copy_text room n off req)
unfolding copy_text
copy_text-Ensures room n off req h k =
    if_then (leb (off + n) (length req) && ltb n room)
      (λ e. returns (omega (arith, length-take n (drop off req), length-drop off req)))
      λ e. absurd (ground (arith, e))

parse_auth-Ensures : (req : List ℕ) → Ensures IsShort (parse_auth req)
unfolding parse_auth
parse_auth-Ensures req = guard_then (leb 8 (length req)) λ g. at_then req 2 (ground arith) λ a e2.
    at_then req 3 (ground arith) λ b e3. at_then req 4 (ground arith) λ c e4.
      at_then req 5 (ground arith) λ d e5. at_then req 6 (ground arith) λ e e6.
        at_then req 7 (ground arith) λ f e7.
          if_then
            (ltb 256 (u16 a b)
              || ltb 1024 (u16 c d)
              || ltb 64 (u16 e f)
              || ltb (length req) (8 + u16 a b + u16 c d + u16 e f))
            (λ t. refused)
            λ t.
              bind_then (copy_text-Ensures 257 (u16 a b) 8 req (ground arith) (ground arith))
                λ user l1.
                  bind_then
                    (copy_text-Ensures 1025 (u16 c d) (8 + u16 a b) req (ground arith)
                      (ground arith))
                    λ pass l2.
                      bind_then
                        (copy_text-Ensures 65 (u16 e f) (8 + u16 a b + u16 c d) req (ground arith)
                          (ground arith))
                        λ ip l3.
                          returns {a = record { user = user; pass = pass; ip = ip }}
                            (ground arith, ground arith, ground arith)

length-c_string : (s : List ℕ) → length (c_string s) ≤ length s
unfolding c_string
length-c_string [] = omega arith
length-c_string (x ∷ s) = elim (Bool-cases (x == 0)) [
  | inl e ↦ rw e (omega arith)
  | inr e ↦ rw e (omega (arith, length-c_string s))
]

all_tz_chars-IsHarmless : (s : List ℕ) → all_tz_chars s ≡ true → IsHarmless s
unfolding all_tz_chars
all_tz_chars-IsHarmless [] e = tt
all_tz_chars-IsHarmless (c ∷ s) e = elim (Bool-cases (is_tz_char c)) [
  | inl t ↦ ((ground arith, ground arith, λ z. ground arith), all_tz_chars-IsHarmless s (rest t))
  | inr t ↦ absurd (ground (e, t, arith))
]
  where
    rest : is_tz_char c ≡ true → all_tz_chars s ≡ true
    rest t = ground (e, t, arith)

-- A time zone that goes on to a session.
abbrev IsZone : List ℕ → Type 0
IsZone tz = (length tz ≤ 63) × IsHarmless tz × IsNoPath tz

starts_badly-IsNoPath : (s : List ℕ) → starts_badly s ≡ false → IsNoPath s
starts_badly-IsNoPath [] e = tt
starts_badly-IsNoPath (c ∷ s) e = ((λ z. ground (arith, e)), (λ z. ground (arith, e)))

safe_or_none-IsZone : (s : List ℕ) → length s ≤ 63 → IsZone (safe_or_none s)
unfolding tz_is_safe
safe_or_none-IsZone s h = elim (Bool-cases (starts_badly s)) [
  | inl e ↦ rw e (omega arith, tt, tt)
  | inr e ↦ elim (Bool-cases (all_tz_chars s)) [
    | inl f ↦ rw (e, f) (h, all_tz_chars-IsHarmless s f, starts_badly-IsNoPath s e)
    | inr f ↦ rw (e, f) (omega arith, tt, tt)
  ]
]

read_tz-Ensures : (tz_len : ℕ) (req : List ℕ) → Ensures IsZone (read_tz tz_len req)
unfolding read_tz
read_tz-Ensures tz_len req =
    if_then (not (tz_len == 0) && leb tz_len 63 && leb (12 + tz_len) (length req))
      (λ e.
        bind_then (copy_text-Ensures 64 tz_len 12 req (ground arith) (ground arith)) λ tz l.
          returns (safe_or_none-IsZone (c_string tz) (ground (arith, l, length-c_string tz))))
      λ e. returns {a = []} (omega arith, tt, tt)

parse_spawn-Ensures : (authed : Bool) (req : List ℕ) → Ensures IsSpawn (parse_spawn authed req)
unfolding parse_spawn
parse_spawn-Ensures authed req = guard_then (leb 12 (length req)) λ g.
    if_then (not authed) (λ t. returns {a = denied} tt)
      λ t. at_then req 2 (ground arith) λ a e2. at_then req 3 (ground arith) λ b e3.
        at_then req 4 (ground arith) λ c e4. at_then req 5 (ground arith) λ d e5.
          at_then req 6 (ground arith) λ e e6. at_then req 7 (ground arith) λ f e7.
            at_then req 8 (ground arith) λ i e8. at_then req 9 (ground arith) λ j e9.
              at_then req 10 (ground arith) λ k e10. at_then req 11 (ground arith) λ l e11.
                bind_then (read_tz-Ensures (u16 e f) req) λ tz z.
                  returns (wide (u16 a b) (u16 c d), high (u16 a b) (u16 c d), z.0, z.1, z.2)
  where
    wide : (w h : ℕ) → 0 < (if w == 0 || h == 0 then 1024 else w)
    wide w h = ground arith

    high : (w h : ℕ) → 0 < (if w == 0 || h == 0 then 768 else h)
    high w h = ground arith

-- On every AUTH request and every SPAWN request the manager reads inside the request and copies
-- inside its arrays. The texts of an AUTH request that is accepted fit in the limits. A SPAWN
-- request that is not denied leads to a session with a size that is not empty, and with a time
-- zone of at most 63 bytes, all between '+' and 'z' and none '=', the first not ':' or '/'.
pub requests_safe :
    (authed : Bool) (req : List ℕ)
    → Ensures IsShort (parse_auth req) × Ensures IsSpawn (parse_spawn authed req)
requests_safe authed req = (parse_auth-Ensures req, parse_spawn-Ensures authed req)
