-- ===== src/Sess/Ledger.antt =====
-- src/sessionmgr/sessionmgr.c: the count of the descriptors and of the logins that a client holds,
-- and of those that the calls bring and give back.
use rdpserver.Base.{ℕ, ◌+◌, ◌≡◌, refl, ap, arith, Bool, true, false, Option, none, some}
use rdpserver.Base.{List, [], ◌∷◌, ◌++◌, map, ◌==◌, if◌then◌else◌}
use rdpserver.Sess.Slots.{Effect}
use rdpserver.Sess.Requests.{}
use rdpserver.Sess.Descriptors.{held, closed_in, is_close, one_if}
use rdpserver.Sess.Client.{
  Login, Connection, ClientEffect, does, receives, asks, ends_login, frees_login, spawns, dups,
  Step,
}
use rdpserver.Sess.Client.{closing, ending, receipts}

unfoldable pub total : (ClientEffect → ℕ) → List ClientEffect → ℕ
total w [] = 0
total w (e ∷ effects) = w e + total w effects

pub total-append :
    (w : ClientEffect → ℕ) (xs ys : List ClientEffect)
    → total w (xs ++ ys) ≡ total w xs + total w ys
unfolding total
total-append w [] ys = omega arith
total-append w (e ∷ xs) ys = omega (arith, total-append w xs ys)

-- Whether it is this one.
abbrev pub one_of : ℕ → Option ℕ → ℕ
one_of x none = 0
one_of x (some y) = one_if (y == x)

-- The calls that close a descriptor, and those that the process gets it from.
abbrev pub closing_of : ℕ → ClientEffect → ℕ
closing_of fd (does e) = is_close fd e
closing_of fd _ = 0

abbrev pub opening_of : ℕ → ClientEffect → ℕ
opening_of fd (receives x) = one_if (x == fd)
opening_of fd (spawns user uid a w h lcid tz x) = one_of fd x
opening_of fd (dups x) = one_of fd x
opening_of fd _ = 0

-- The calls that end a login or free its handle, and those that the handle comes from.
abbrev pub release_of : ℕ → ClientEffect → ℕ
release_of a (ends_login x) = one_if (x == a)
release_of a (frees_login x) = one_if (x == a)
release_of a _ = 0

abbrev pub handle_of : Option Login → Option ℕ
handle_of none = none
handle_of (some l) = some l.handle

abbrev pub login_of : ℕ → ClientEffect → ℕ
login_of a (asks user l) = one_of a (handle_of l)
login_of a _ = 0

-- How often the process holds the descriptor, and the login.
abbrev pub descriptors : ℕ → Connection → ℕ
descriptors fd c = held fd c.manager.suspended + one_of fd c.retained_fd

abbrev pub logins : ℕ → Connection → ℕ
logins a c = one_of a c.auth

-- What is held before a step or comes in it is held behind it or given back in it.
pub record IsBalanced (fd a : ℕ) (c : Connection) (t : Step) : Type 0 where
  pub fds :
      descriptors fd t.0 + total (closing_of fd) t.1 ≡ descriptors fd c + total (opening_of fd) t.1
  pub handles : logins a t.0 + total (release_of a) t.1 ≡ logins a c + total (login_of a) t.1

-- The same where the descriptor has come `got` times before the step, and is neither held nor given
-- back `lost` times.
pub record IsServed (fd a got lost : ℕ) (c : Connection) (t : Step) : Type 0 where
  pub fds :
      descriptors fd t.0 + total (closing_of fd) t.1 + lost
      ≡ descriptors fd c + total (opening_of fd) t.1 + got
  pub handles : logins a t.0 + total (release_of a) t.1 ≡ logins a c + total (login_of a) t.1

pub then_step :
    {fd a : ℕ} {c : Connection} {t u : Step}
    → IsBalanced fd a c t
    → IsBalanced fd a t.0 u
    → IsBalanced fd a c (u.0, t.1 ++ u.1)
then_step {fd} {a} {c} {t} {u} p q = record {
  fds = omega (
    arith,
    p.fds,
    q.fds,
    total-append (closing_of fd) t.1 u.1,
    total-append (opening_of fd) t.1 u.1,
  );
  handles = omega (
    arith,
    p.handles,
    q.handles,
    total-append (release_of a) t.1 u.1,
    total-append (login_of a) t.1 u.1,
  );
}

pub either :
    {fd a : ℕ} {c : Connection} (b : Bool) {t u : Step}
    → IsBalanced fd a c t
    → IsBalanced fd a c u
    → IsBalanced fd a c (if b then t else u)
either true p q = p
either false p q = q

-- Calls that touch descriptors only: so many closings and openings.
pub record Handles (fd a closes_n opens_n : ℕ) (xs : List ClientEffect) : Type 0 where
  pub closings : total (closing_of fd) xs ≡ closes_n
  pub openings : total (opening_of fd) xs ≡ opens_n
  pub no_release : total (release_of a) xs ≡ 0
  pub no_login : total (login_of a) xs ≡ 0

pub map-does-Handles :
    (fd a : ℕ) (xs : List Effect) → Handles fd a (closed_in fd xs) 0 (map does xs)
unfolding total closed_in
map-does-Handles fd a [] = record {
  closings = refl;
  openings = refl;
  no_release = refl;
  no_login = refl;
}
map-does-Handles fd a (e ∷ xs) =
    let ih = map-does-Handles fd a xs in
    record {
      closings = omega (arith, ih.closings);
      openings = omega (arith, ih.openings);
      no_release = omega (arith, ih.no_release);
      no_login = omega (arith, ih.no_login);
    }

pub closing-Handles : (fd a : ℕ) (o : Option ℕ) → Handles fd a (one_of fd o) 0 (closing o)
unfolding total
closing-Handles fd a none = record {
  closings = refl;
  openings = refl;
  no_release = refl;
  no_login = refl;
}
closing-Handles fd a (some x) = record {
  closings = omega arith;
  openings = refl;
  no_release = refl;
  no_login = refl;
}

-- How often the descriptor is among these.
unfoldable pub count_in : ℕ → List ℕ → ℕ
count_in fd [] = 0
count_in fd (x ∷ fds) = one_if (x == fd) + count_in fd fds

pub receipts-Handles : (fd a : ℕ) (fds : List ℕ) → Handles fd a 0 (count_in fd fds) (receipts fds)
unfolding total count_in
receipts-Handles fd a [] = record {
  closings = refl;
  openings = refl;
  no_release = refl;
  no_login = refl;
}
receipts-Handles fd a (x ∷ fds) =
    let ih = receipts-Handles fd a fds in
    record {
      closings = omega (arith, ih.closings);
      openings = omega (arith, ih.openings);
      no_release = omega (arith, ih.no_release);
      no_login = omega (arith, ih.no_login);
    }

pub then_Handles :
    {fd a m n k l : ℕ} {xs ys : List ClientEffect}
    → Handles fd a m n xs
    → Handles fd a k l ys
    → Handles fd a (m + k) (n + l) (xs ++ ys)
then_Handles {fd} {a} {xs = xs} {ys = ys} p q = record {
  closings = omega (arith, p.closings, q.closings, total-append (closing_of fd) xs ys);
  openings = omega (arith, p.openings, q.openings, total-append (opening_of fd) xs ys);
  no_release = omega (arith, p.no_release, q.no_release, total-append (release_of a) xs ys);
  no_login = omega (arith, p.no_login, q.no_login, total-append (login_of a) xs ys);
}

-- A step that keeps the login.
pub from_Handles :
    {fd a m n : ℕ} {c : Connection} {t : Step}
    → Handles fd a m n t.1
    → t.0.auth ≡ c.auth
    → descriptors fd t.0 + m ≡ descriptors fd c + n
    → IsBalanced fd a c t
from_Handles {fd} {a} {c = c} {t = t} h e k = record {
  fds = omega (arith, h.closings, h.openings, k);
  handles = omega (arith, h.no_release, h.no_login, ap (one_of a) e);
}

pub ending_lem :
    (fd a : ℕ) (o : Option ℕ)
    → (total (closing_of fd) (ending o) ≡ 0)
      × (total (opening_of fd) (ending o) ≡ 0)
      × (total (release_of a) (ending o) ≡ one_of a o)
      × (total (login_of a) (ending o) ≡ 0)
unfolding total
ending_lem fd a none = (refl, refl, refl, refl)
ending_lem fd a (some x) = (refl, refl, omega arith, refl)

pub nothing-IsBalanced : (fd a : ℕ) (c : Connection) → IsBalanced fd a c (c, [])
unfolding total
nothing-IsBalanced fd a c = record { fds = omega arith; handles = omega arith }
