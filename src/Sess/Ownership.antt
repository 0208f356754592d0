-- ===== src/Sess/Ownership.antt =====
-- src/sessionmgr/sessionmgr.c: what one request brings and gets is held or given back.
use rdpserver.Base.{ℕ, ◌≡◌, refl, ap, sym, arith, Bool, true, Option, none, some}
use rdpserver.Base.{List, [], ◌∷◌, ◌++◌, map, ◌==◌, Ensures, Ensures-ne-fault, Read, ok, err, fault}
use mathlib.Core.Path.{subst}
use rdpserver.Sess.Throttle.{AuthThrottle, authenticate}
use rdpserver.Sess.Slots.{status_ok, status_fail, closes, handle_suspend, handle_resume}
use rdpserver.Sess.Requests.{Credentials, Spawn, denied, launch, parse_auth, parse_spawn, c_string}
use rdpserver.Sess.Checked.{IsShort, IsSpawn, requests_safe}
use rdpserver.Sess.Descriptors.{suspend, resume, serve, balance-serve, brings}
use rdpserver.Sess.Client.{
  reply, status_eperm, is_accepted, Login, Frame, Connection, ClientEffect, does, frees_login,
  spawns, dups, Step,
}
use rdpserver.Sess.Client.{
  status_enosys, op_auth, op_spawn, op_suspend, op_resume, closing, ending, answer_auth, check_auth,
  handle_auth, finish_spawn, spawn_as, launch_session, check_spawn, is_authed, handle_spawn,
  mark_spawn, with_descriptor, handle_frame,
}
use rdpserver.Sess.Client.{taken_fd}
use rdpserver.Sess.Runs.{Runs, Runs-if, map-Runs, is_authed_lem, handle_spawn_login, runs}
use rdpserver.Sess.Ledger.{
  total, total-append, one_of, closing_of, opening_of, release_of, login_of, IsBalanced, IsServed,
  either, map-does-Handles, closing-Handles, then_Handles, from_Handles, ending_lem,
}

answer_auth-IsBalanced :
    (fd a : ℕ) (user : List ℕ) (table : List AuthThrottle) (c : Connection) (l : Option Login)
    → IsBalanced fd a c (answer_auth user table c l)
unfolding answer_auth total
answer_auth-IsBalanced fd a user table c none = record { fds = omega arith; handles = omega arith }
answer_auth-IsBalanced fd a user table c (some l) =
    let e = ending_lem fd a c.auth in
    record {
      fds = omega (
        arith,
        e.0,
        e.1,
        total-append (closing_of fd) (ending c.auth) (reply status_ok none ∷ []),
        total-append (opening_of fd) (ending c.auth) (reply status_ok none ∷ []),
      );
      handles = omega (
        arith,
        e.2,
        e.3,
        total-append (release_of a) (ending c.auth) (reply status_ok none ∷ []),
        total-append (login_of a) (ending c.auth) (reply status_ok none ∷ []),
      );
    }

refusal-IsBalanced : (fd a s : ℕ) (c : Connection) → IsBalanced fd a c (c, reply s none ∷ [])
unfolding total
refusal-IsBalanced fd a s c = record { fds = omega arith; handles = omega arith }

check_auth-Runs :
    (fd a : ℕ) (f : Frame) (c : Connection) (m : Read Credentials)
    → Ensures IsShort m
    → Runs (IsBalanced fd a c) (check_auth f c m)
unfolding check_auth
check_auth-Runs fd a f c err h = runs (refusal-IsBalanced fd a status_fail c)
check_auth-Runs fd a f c fault h = absurd (Ensures-ne-fault h refl)
check_auth-Runs fd a f c (ok r) h =
    let t = authenticate c.table (c_string r.ip) f.now (is_accepted f.backend) in
    runs (
      either t.0 (answer_auth-IsBalanced fd a (c_string r.user) t.1 c f.backend)
        (refusal-IsBalanced fd a status_fail c))

-- Behind spawn_session, its own calls included.
spawned-IsBalanced :
    (fd a : ℕ) (f : Frame) (c : Connection) (user : List ℕ) (uid b w h lcid : ℕ) (tz : List ℕ)
    (o : Option ℕ)
    → c.auth ≡ some b
    → IsBalanced fd a c (
      (finish_spawn f c o).0,
      spawns user uid b w h lcid tz o ∷ frees_login b ∷ (finish_spawn f c o).1,
    )
unfolding finish_spawn total
spawned-IsBalanced fd a f c user uid b w h lcid tz none e = record {
  fds = omega arith;
  handles = omega (arith, ap (one_of a) e);
}
spawned-IsBalanced fd a f c user uid b w h lcid tz (some x) e =
    let rest : List ClientEffect = dups f.dup ∷ reply status_ok (some x) ∷ does (closes x) ∷ [] in
    let k = closing-Handles fd a c.retained_fd in
    record {
      fds = omega (
        arith,
        k.closings,
        k.openings,
        total-append (closing_of fd) (closing c.retained_fd) rest,
        total-append (opening_of fd) (closing c.retained_fd) rest,
      );
      handles = omega (
        arith,
        k.no_release,
        k.no_login,
        ap (one_of a) e,
        total-append (release_of a) (closing c.retained_fd) rest,
        total-append (login_of a) (closing c.retained_fd) rest,
      );
    }

launch_session-Runs :
    (fd a : ℕ) (f : Frame) (c : Connection) (b : ℕ) (uid : Option ℕ) (w h lcid : ℕ) (tz : List ℕ)
    → c.auth ≡ some b
    → Runs (IsBalanced fd a c) (launch_session f c (some b) uid w h lcid tz)
unfolding launch_session spawn_as
launch_session-Runs fd a f c b none w h lcid tz e = runs (refusal-IsBalanced fd a status_fail c)
launch_session-Runs fd a f c b (some uid) w h lcid tz e = runs (
    either (uid == 0) (refusal-IsBalanced fd a status_eperm c)
      (spawned-IsBalanced fd a f c c.auth_user uid b w h lcid tz f.spawned e))

check_spawn-Runs :
    (fd a : ℕ) (f : Frame) (c : Connection) (m : Read Spawn)
    → Ensures IsSpawn m
    → ((w h lcid : ℕ) (tz : List ℕ) → m ≡ ok (launch w h lcid tz) → (b : ℕ) × (c.auth ≡ some b))
    → Runs (IsBalanced fd a c) (check_spawn f c m)
unfolding check_spawn
check_spawn-Runs fd a f c err h k = runs (refusal-IsBalanced fd a status_fail c)
check_spawn-Runs fd a f c fault h k = absurd (Ensures-ne-fault h refl)
check_spawn-Runs fd a f c (ok denied) h k = runs (refusal-IsBalanced fd a status_eperm c)
check_spawn-Runs fd a f c (ok (launch w h lcid tz)) r k =
    let (b, e) = k w h lcid tz refl in
    subst (λ o. Runs (IsBalanced fd a c) (launch_session f c o f.uid w h lcid tz)) (sym e)
      (launch_session-Runs fd a f c b f.uid w h lcid tz e)

handle_auth-Runs :
    (fd a : ℕ) (f : Frame) (c : Connection) → Runs (IsBalanced fd a c) (handle_auth f c)
unfolding handle_auth
handle_auth-Runs fd a f c = check_auth-Runs fd a f c (parse_auth f.buf) (requests_safe true f.buf).0

handle_spawn-Runs :
    (fd a : ℕ) (f : Frame) (c : Connection) → Runs (IsBalanced fd a c) (handle_spawn f c)
unfolding handle_spawn
handle_spawn-Runs fd a f c =
    check_spawn-Runs fd a f c (parse_spawn (is_authed c) f.buf)
      (requests_safe (is_authed c) f.buf).1
      λ w h lcid tz e. (is_authed_lem c (handle_spawn_login c f.buf w h lcid tz e)).1

-- The descriptor that came with a request that does not take it.
with_descriptor-IsServed :
    (fd a : ℕ) (o : Option ℕ) (c : Connection) (t : Step)
    → IsBalanced fd a c t
    → IsServed fd a (one_of fd o) 0 c (with_descriptor o t)
with_descriptor-IsServed fd a o c t p =
    let k = closing-Handles fd a o in
    record {
      fds = omega (
        arith,
        p.fds,
        k.closings,
        k.openings,
        total-append (closing_of fd) t.1 (closing o),
        total-append (opening_of fd) t.1 (closing o),
      );
      handles = omega (
        arith,
        p.handles,
        k.no_release,
        k.no_login,
        total-append (release_of a) t.1 (closing o),
        total-append (login_of a) t.1 (closing o),
      );
    }

mark_spawn-IsBalanced :
    (fd a : ℕ) (sent : Bool) (c : Connection) (t : Step)
    → IsBalanced fd a c t
    → IsBalanced fd a c (mark_spawn sent t)
mark_spawn-IsBalanced fd a sent c t p = record { fds = p.fds; handles = p.handles }

brings_lem : (fd : ℕ) (req : List ℕ) (o : Option ℕ) → brings fd (suspend req o) ≡ one_of fd o
brings_lem fd req none = refl
brings_lem fd req (some x) = refl

suspension-IsServed :
    (fd a : ℕ) (f : Frame) (c : Connection) (o : Option ℕ)
    → IsServed fd a (one_of fd o) 0 c (
      record c { manager = (handle_suspend f.sys c.manager f.buf o).0; retained_fd = none },
      closing c.retained_fd ++ map does (handle_suspend f.sys c.manager f.buf o).1,
    )
unfolding serve
suspension-IsServed fd a f c o =
    let s = handle_suspend f.sys c.manager f.buf o in
    let h = then_Handles (closing-Handles fd a c.retained_fd) (map-does-Handles fd a s.1) in
    record {
      fds = omega (
        arith,
        h.closings,
        h.openings,
        brings_lem fd f.buf o,
        balance-serve fd f.sys c.manager (suspend f.buf o),
      );
      handles = omega (arith, h.no_release, h.no_login);
    }

resumption-IsBalanced :
    (fd a : ℕ) (f : Frame) (c : Connection)
    → IsBalanced fd a c (
      record c { manager = (handle_resume f.sys c.manager f.buf).0 },
      map does (handle_resume f.sys c.manager f.buf).1,
    )
unfolding serve
resumption-IsBalanced fd a f c =
    let s = handle_resume f.sys c.manager f.buf in
    from_Handles (map-does-Handles fd a s.1) refl
      (omega (arith, balance-serve fd f.sys c.manager (resume f.buf)))

pub handle_frame-Runs :
    (fd a op : ℕ) (f : Frame) (c : Connection)
    → Runs (IsServed fd a (one_of fd (taken_fd f.recv_fds)) 0 c) (handle_frame op f c)
unfolding handle_frame
handle_frame-Runs fd a op f c =
    Runs-if (op == op_auth)
      (map-Runs (λ t. with_descriptor (taken_fd f.recv_fds) t)
        (λ t p. with_descriptor-IsServed fd a (taken_fd f.recv_fds) c t p)
        (handle_auth-Runs fd a f c))
      (Runs-if (op == op_spawn)
        (map-Runs (λ t. with_descriptor (taken_fd f.recv_fds) (mark_spawn f.sent t))
          (λ t p.
            with_descriptor-IsServed fd a (taken_fd f.recv_fds) c (mark_spawn f.sent t)
              (mark_spawn-IsBalanced fd a f.sent c t p))
          (handle_spawn-Runs fd a f c))
        (Runs-if (op == op_suspend) (runs (suspension-IsServed fd a f c (taken_fd f.recv_fds))) (
          Runs-if (op == op_resume)
            (runs (
              with_descriptor-IsServed fd a (taken_fd f.recv_fds) c _
                (resumption-IsBalanced fd a f c)))
            (runs (
              with_descriptor-IsServed fd a (taken_fd f.recv_fds) c _
                (refusal-IsBalanced fd a status_enosys c))))))
