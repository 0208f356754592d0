-- ===== src/Sess/Requests.antt =====
-- src/sessionmgr/sessionmgr.c: the AUTH and SPAWN requests of a worker, as far as they are read.
-- A `fault` is a read outside the request, or a store outside the array that a field is copied to.
use rdpserver.Base.{ℕ, ◌+◌, Bool, true, false, not, ◌&&◌, ◌||◌}
use rdpserver.Base.{List, [], ◌∷◌, ltb, leb, ◌==◌, if◌then◌else◌, length, take, drop}
use rdpserver.Base.{Read, ok, err, fault, ◌>>=◌, ◌>>◌, guard, at}
use rdpserver.Buf.{u16, u32}

-- RDP_SESSMGR_USER_MAX, RDP_SESSMGR_PASS_MAX, RDP_SESSMGR_IP_MAX and RDP_SESSMGR_TZ_MAX
abbrev pub user_max : ℕ
user_max = 256

abbrev pub pass_max : ℕ
pass_max = 1024

abbrev pub ip_max : ℕ
ip_max = 64

abbrev pub tz_max : ℕ
tz_max = 63

-- `n` bytes from `off` on, and a NUL behind them, into an array of `room` bytes.
unfoldable pub copy_text : ℕ → ℕ → ℕ → List ℕ → Read (List ℕ)
copy_text room n off req =
    if leb (off + n) (length req) && ltb n room then ok (take n (drop off req)) else fault

-- What an AUTH request says.
pub record Credentials : Type 0 where
  pub user : List ℕ
  pub pass : List ℕ
  pub ip : List ℕ

unfoldable pub parse_auth : List ℕ → Read Credentials
unfolding copy_text
parse_auth req = do
  guard (leb 8 (length req))
  a ← at req 2
  b ← at req 3
  c ← at req 4
  d ← at req 5
  e ← at req 6
  f ← at req 7
  let user_len = u16 a b
  let pass_len = u16 c d
  let ip_len = u16 e f
  if ltb user_max user_len
        || ltb pass_max pass_len
        || ltb ip_max ip_len
        || ltb (length req) (8 + user_len + pass_len + ip_len)
      then err
      else (do
        user ← copy_text (user_max + 1) user_len 8 req
        pass ← copy_text (pass_max + 1) pass_len (8 + user_len) req
        ip ← copy_text (ip_max + 1) ip_len (8 + user_len + pass_len) req
        ok (record { user = user; pass = pass; ip = ip }))

-- A text up to its NUL.
unfoldable pub c_string : List ℕ → List ℕ
c_string [] = []
c_string (x ∷ s) = if x == 0 then [] else x ∷ c_string s

abbrev pub is_between : ℕ → ℕ → ℕ → Bool
is_between lo hi c = leb lo c && leb c hi

abbrev pub is_tz_char : ℕ → Bool
is_tz_char c =
    is_between b'A' b'Z' c
    || is_between b'a' b'z' c
    || is_between b'0' b'9' c
    || c == b'<'
    || c == b'>'
    || c == b'+'
    || c == b'-'
    || c == b':'
    || c == b'.'
    || c == b','
    || c == b'/'

unfoldable pub all_tz_chars : List ℕ → Bool
all_tz_chars [] = true
all_tz_chars (c ∷ s) = is_tz_char c && all_tz_chars s

abbrev pub starts_badly : List ℕ → Bool
starts_badly [] = false
starts_badly (c ∷ s) = c == b':' || c == b'/'

unfoldable pub tz_is_safe : List ℕ → Bool
unfolding all_tz_chars
tz_is_safe s = if starts_badly s then false else all_tz_chars s

-- What a SPAWN request leads to: EPERM, or a session of this size, layout and time zone.
pub data Spawn : Type 0 where
  denied : Spawn
  launch : ℕ → ℕ → ℕ → List ℕ → Spawn

abbrev pub safe_or_none : List ℕ → List ℕ
safe_or_none s = if tz_is_safe s then s else []

unfoldable pub read_tz : ℕ → List ℕ → Read (List ℕ)
unfolding copy_text c_string tz_is_safe
read_tz tz_len req =
    if not (tz_len == 0) && leb tz_len tz_max && leb (12 + tz_len) (length req)
    then (do tz ← copy_text (tz_max + 1) tz_len 12 req; ok (safe_or_none (c_string tz)))
    else ok []

-- `authed`: an AUTH request was accepted before.
unfoldable pub parse_spawn : Bool → List ℕ → Read Spawn
unfolding read_tz
parse_spawn authed req = do
  guard (leb 12 (length req))
  if not authed then ok denied else (do
    a ← at req 2
    b ← at req 3
    c ← at req 4
    d ← at req 5
    e ← at req 6
    f ← at req 7
    g ← at req 8
    h ← at req 9
    i ← at req 10
    j ← at req 11
    let bad = u16 a b == 0 || u16 c d == 0
    tz ← read_tz (u16 e f) req
    ok (launch (if bad then 1024 else u16 a b) (if bad then 768 else u16 c d) (u32 g h i j) tz))
