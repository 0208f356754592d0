-- ===== src/Sess/Runs.antt =====
-- src/sessionmgr/sessionmgr.c: code that comes to an end with a result, and what lets a session
-- start.
use rdpserver.Base.{ℕ, ◌≡◌, refl, ◌≢◌, arith, Bool, true, false, Option, none, some}
use rdpserver.Base.{
  List, [], ◌∷◌, leb, length, if◌then◌else◌, inl, inr, Bool-cases, ◌>>=◌, Read, ok,
}
use mathlib.Core.Path.{subst}
use rdpserver.Sess.Throttle.{is_empty}
use rdpserver.Sess.Slots.{}
use rdpserver.Sess.Requests.{launch, parse_spawn}
use rdpserver.Sess.Descriptors.{}
use rdpserver.Sess.Client.{Connection, Step}
use rdpserver.Sess.Client.{has_login, is_authed, on_request}

-- The code comes to an end with a result, and the result meets `P`.
pub data Runs (P : Step → Type 0) : Read Step → Type 0 where
  runs : {t : Step} → P t → Runs P (ok t)

pub Runs-if :
    {P : Step → Type 0} (b : Bool) {m k : Read Step}
    → Runs P m
    → Runs P k
    → Runs P (if b then m else k)
Runs-if true p q = p
Runs-if false p q = q

pub map-Runs :
    {P Q : Step → Type 0} (g : Step → Step) {m : Read Step}
    → ((t : Step) → P t → Q (g t))
    → Runs P m
    → Runs Q (m >>= λ t. ok (g t))
map-Runs g k (runs {t = t} p) = runs (k t p)

pub on_request-Runs :
    (P : List ℕ → Step → Type 0) (step : ℕ → Read Step) (c : Connection) (buf : List ℕ)
    → P [] (c, [])
    → ((op : ℕ) (rest : List ℕ) → Runs (P (op ∷ rest)) (step op))
    → Runs (P buf) (on_request step c buf)
on_request-Runs P step c [] p h = runs p
on_request-Runs P step c (op ∷ rest) p h = h op rest

-- A session is started for a login only.
parse_spawn_denied :
    (req : List ℕ) (w h lcid : ℕ) (tz : List ℕ) → parse_spawn false req ≢ ok (launch w h lcid tz)
unfolding parse_spawn
parse_spawn_denied req w h lcid tz e = elim (Bool-cases (leb 12 (length req))) [
  | inl g ↦ cc (e, g)
  | inr g ↦ cc (e, g)
]

has_login_lem : (o : Option ℕ) → has_login o ≡ true → (b : ℕ) × (o ≡ some b)
has_login_lem none e = cc e
has_login_lem (some b) e = (b, refl)

pub is_authed_lem :
    (c : Connection)
    → is_authed c ≡ true
    → (is_empty c.auth_user ≡ false) × ((b : ℕ) × (c.auth ≡ some b))
is_authed_lem c e = (ground (arith, e), has_login_lem c.auth (ground (arith, e)))

pub handle_spawn_login :
    (c : Connection) (req : List ℕ) (w h lcid : ℕ) (tz : List ℕ)
    → parse_spawn (is_authed c) req ≡ ok (launch w h lcid tz)
    → is_authed c ≡ true
handle_spawn_login c req w h lcid tz e = elim (Bool-cases (is_authed c)) [
  | inl t ↦ t
  | inr t ↦ absurd (
      parse_spawn_denied req w h lcid tz
        (subst (λ b. parse_spawn b req ≡ ok (launch w h lcid tz)) t e))
]
