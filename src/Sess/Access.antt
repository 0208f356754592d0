-- ===== src/Sess/Access.antt =====
-- src/sessionmgr/sessionmgr.c: for whom one client gets sessions started.
use rdpserver.Base.{ℕ, ◌≡◌, ◌≢◌, refl, sym, ◌∙◌, false, Option, none, some, ap}
use mathlib.Core.Path.{subst}
use rdpserver.Base.{List, [], ◌∷◌, ◌++◌, map, take}
use rdpserver.Sess.Throttle.{is_empty}
use rdpserver.Sess.Slots.{Effect}
use rdpserver.Sess.Requests.{launch, user_max}
use rdpserver.Sess.Checked.{IsSpawn}
use rdpserver.Sess.Client.{Login, Connection, ClientEffect, does, asks, spawns, Step}
use rdpserver.Sess.Client.{closing, ending, receipts}
use rdpserver.Sess.Runs.{}

-- The login that the client has behind a call: the last one that the backend gave, until a session
-- was started for it.
abbrev pub login_behind : ClientEffect → Option Login → Option Login
login_behind (asks user (some l)) s = some l
login_behind (spawns user uid a w h lcid tz fd) s = none
login_behind _ s = s

-- A session may be started for the user and with the handle of a login that the client has. The
-- user has a name and is not root. The size is not empty, and the time zone is safe.
pub record IsSessionOf (l : Login) (user : List ℕ) (uid a w h lcid : ℕ) (tz : List ℕ) : Type 0 where
  pub same_user : user ≡ take user_max l.name
  pub same_handle : a ≡ l.handle
  pub has_name : is_empty user ≡ false
  pub not_root : uid ≢ 0
  pub good_request : IsSpawn (launch w h lcid tz)

abbrev pub MaySpawn : Option Login → List ℕ → ℕ → ℕ → ℕ → ℕ → ℕ → List ℕ → Type 0
MaySpawn none user uid a w h lcid tz = ⊥
MaySpawn (some l) user uid a w h lcid tz = IsSessionOf l user uid a w h lcid tz

abbrev pub IsAllowed : Option Login → ClientEffect → Type 0
IsAllowed s (spawns user uid a w h lcid tz fd) = MaySpawn s user uid a w h lcid tz
IsAllowed s _ = Unit

-- Every call is allowed by those before it.
unfoldable pub Obeys : Option Login → List ClientEffect → Type 0
Obeys s [] = Unit
Obeys s (e ∷ effects) = IsAllowed s e × Obeys (login_behind e s) effects

unfoldable pub login_after : Option Login → List ClientEffect → Option Login
login_after s [] = s
login_after s (e ∷ effects) = login_after (login_behind e s) effects

login_after-append :
    (s : Option Login) (xs ys : List ClientEffect)
    → login_after s (xs ++ ys) ≡ login_after (login_after s xs) ys
unfolding login_after
login_after-append s [] ys = refl
login_after-append s (e ∷ xs) ys = login_after-append (login_behind e s) xs ys

pub Obeys-append :
    (s : Option Login) (xs ys : List ClientEffect)
    → Obeys s xs
    → Obeys (login_after s xs) ys
    → Obeys s (xs ++ ys)
unfolding Obeys login_after
Obeys-append s [] ys p q = q
Obeys-append s (e ∷ xs) ys p q = (p.0, Obeys-append (login_behind e s) xs ys p.1 q)

-- The variables `auth_user` and `auth` stand for the login.
pub data Agrees : Option Login → Connection → Type 0 where
  logged_out : {c : Connection} → c.auth ≡ none → Agrees none c
  logged_in :
      {l : Login} {c : Connection}
      → c.auth ≡ some l.handle
      → c.auth_user ≡ take user_max l.name
      → Agrees (some l) c

pub record IsSafe (s : Option Login) (t : Step) : Type 0 where
  pub obeys : Obeys s t.1
  pub agrees : Agrees (login_after s t.1) t.0

pub then-IsSafe :
    {s : Option Login} {t u : Step}
    → IsSafe s t
    → IsSafe (login_after s t.1) u
    → IsSafe s (u.0, t.1 ++ u.1)
then-IsSafe {s} {t} {u} p q = record {
  obeys = Obeys-append s t.1 u.1 p.obeys q.obeys;
  agrees = subst (λ l. Agrees l u.0) (sym (login_after-append s t.1 u.1)) q.agrees;
}

-- Calls that neither give a login nor start a session.
pub record AreQuiet (s : Option Login) (xs : List ClientEffect) : Type 0 where
  pub allowed : Obeys s xs
  pub same_login : login_after s xs ≡ s

pub map-does-AreQuiet : (s : Option Login) (xs : List Effect) → AreQuiet s (map does xs)
unfolding Obeys login_after
map-does-AreQuiet s [] = record { allowed = tt; same_login = refl }
map-does-AreQuiet s (e ∷ xs) =
    let ih = map-does-AreQuiet s xs in
    record { allowed = (tt, ih.allowed); same_login = ih.same_login }

pub closing-AreQuiet : (s : Option Login) (o : Option ℕ) → AreQuiet s (closing o)
unfolding Obeys login_after
closing-AreQuiet s none = record { allowed = tt; same_login = refl }
closing-AreQuiet s (some x) = record { allowed = (tt, tt); same_login = refl }

pub receipts-AreQuiet : (s : Option Login) (fds : List ℕ) → AreQuiet s (receipts fds)
unfolding Obeys login_after
receipts-AreQuiet s [] = record { allowed = tt; same_login = refl }
receipts-AreQuiet s (x ∷ fds) =
    let ih = receipts-AreQuiet s fds in
    record { allowed = (tt, ih.allowed); same_login = ih.same_login }

pub ending-AreQuiet : (s : Option Login) (o : Option ℕ) → AreQuiet s (ending o)
unfolding Obeys login_after
ending-AreQuiet s none = record { allowed = tt; same_login = refl }
ending-AreQuiet s (some x) = record { allowed = (tt, tt); same_login = refl }

pub then_quiet :
    {s : Option Login} {xs ys : List ClientEffect}
    → AreQuiet s xs
    → AreQuiet s ys
    → AreQuiet s (xs ++ ys)
then_quiet {s} {xs} {ys} p q = record {
  allowed = Obeys-append s xs ys p.allowed (subst (λ l. Obeys l ys) (sym p.same_login) q.allowed);
  same_login =
      login_after-append s xs ys ∙ (ap (λ l. login_after l ys) p.same_login ∙ q.same_login);
}

-- Quiet calls behind or before a step, and a step of quiet calls only.
pub quiet_step : {s : Option Login} {t : Step} → AreQuiet s t.1 → Agrees s t.0 → IsSafe s t
quiet_step {s} {t} q a = record {
  obeys = q.allowed;
  agrees = subst (λ l. Agrees l t.0) (sym q.same_login) a;
}

pub quiet_behind :
    {s : Option Login} {t : Step} {ys : List ClientEffect}
    → ((l : Option Login) → AreQuiet l ys)
    → IsSafe s t
    → IsSafe s (t.0, t.1 ++ ys)
quiet_behind {s} {t} {ys} r p = record {
  obeys = Obeys-append s t.1 ys p.obeys (r (login_after s t.1)).allowed;
  agrees =
      subst (λ l. Agrees l t.0)
        (sym (login_after-append s t.1 ys ∙ (r (login_after s t.1)).same_login)) p.agrees;
}

pub quiet_before :
    {s : Option Login} {t : Step} {xs : List ClientEffect}
    → AreQuiet s xs
    → IsSafe s t
    → IsSafe s (t.0, xs ++ t.1)
quiet_before {s} {t} {xs} q p = record {
  obeys = Obeys-append s xs t.1 q.allowed (subst (λ l. Obeys l t.1) (sym q.same_login) p.obeys);
  agrees =
      subst (λ l. Agrees l t.0)
        (sym (login_after-append s xs t.1 ∙ ap (λ l. login_after l t.1) q.same_login)) p.agrees;
}
