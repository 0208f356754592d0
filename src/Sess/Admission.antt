-- ===== src/Sess/Admission.antt =====
-- src/sessionmgr/sessionmgr.c: every session that one client gets started is one that its last AUTH
-- request allows.
use rdpserver.Base.{
  ℕ, ◌≡◌, ◌≢◌, refl, sym, ◌∙◌, arith, Bool, true, false, not, ◌&&◌, Option, none, some,
}
use mathlib.Core.Path.{subst}
use rdpserver.Base.{
  List, [], ◌∷◌, ◌++◌, ◌==◌, if◌then◌else◌, inl, inr, Bool-cases, Ensures, Ensures-ok,
  Ensures-ne-fault, ◌>>=◌, Read, ok, err, fault,
}
use rdpserver.Sess.Throttle.{AuthThrottle, is_empty, authenticate}
use rdpserver.Sess.Slots.{status_ok, status_fail, Manager, System, auto_suspend}
use rdpserver.Sess.Requests.{Credentials, Spawn, denied, launch, parse_auth, parse_spawn, c_string}
use rdpserver.Sess.Checked.{IsShort, IsSpawn, requests_safe}
use rdpserver.Sess.Client.{
  reply, status_eperm, status_enosys, op_auth, op_spawn, op_suspend, op_resume, is_accepted, Login,
  Frame, Connection, Step,
}
use rdpserver.Sess.Client.{
  answer_auth, check_auth, handle_auth, finish_spawn, spawn_as, launch_session, check_spawn,
  is_authed, handle_spawn, mark_spawn, with_descriptor, handle_frame, handle_frames, settle,
  connected, handle_client,
}
use rdpserver.Sess.Client.{taken_fd, received}
use rdpserver.Sess.Runs.{
  Runs, runs, Runs-if, map-Runs, on_request-Runs, is_authed_lem, handle_spawn_login,
}
use rdpserver.Sess.Access.{
  MaySpawn, Obeys, login_after, Obeys-append, Agrees, logged_out, logged_in, IsSafe, then-IsSafe,
  AreQuiet, map-does-AreQuiet, closing-AreQuiet, receipts-AreQuiet, ending-AreQuiet, then_quiet,
  quiet_step, quiet_behind, quiet_before,
}

keep_login :
    {s : Option Login} {c d : Connection}
    → Agrees s c
    → d.auth ≡ c.auth
    → d.auth_user ≡ c.auth_user
    → Agrees s d
keep_login (logged_out e) f g = logged_out (f ∙ e)
keep_login (logged_in e k) f g = logged_in (f ∙ e) (g ∙ k)

at_login : {s l : Option Login} (c : Connection) → s ≡ l → Agrees l c → Agrees s c
at_login c e a = subst (λ o. Agrees o c) (sym e) a

refusal-IsSafe :
    (s : Option Login) (n : ℕ) (c : Connection) → Agrees s c → IsSafe s (c, reply n none ∷ [])
unfolding Obeys login_after
refusal-IsSafe s n c a = record { obeys = (tt, tt); agrees = a }

IsSafe-if :
    {s : Option Login} (b : Bool) {t u : Step}
    → IsSafe s t
    → (b ≡ false → IsSafe s u)
    → IsSafe s (if b then t else u)
IsSafe-if true p q = p
IsSafe-if false p q = q refl

answer_auth-IsSafe :
    (s : Option Login) (user : List ℕ) (table : List AuthThrottle) (c : Connection)
    (l : Option Login)
    → Agrees s c
    → IsSafe s (answer_auth user table c l)
unfolding answer_auth Obeys login_after
answer_auth-IsSafe s user table c none a = record {
  obeys = (tt, (tt, tt));
  agrees = keep_login a refl refl;
}
answer_auth-IsSafe s user table c (some l) a =
    let q = then_quiet (ending-AreQuiet (some l) c.auth) (reply_quiet (some l)) in
    record {
      obeys = (tt, q.allowed);
      agrees =
          at_login (answer_auth user table c (some l)).0 q.same_login
            (logged_in {c = (answer_auth user table c (some l)).0} refl refl);
    }
  where
    reply_quiet : (o : Option Login) → AreQuiet o (reply status_ok none ∷ [])
    reply_quiet o = record { allowed = (tt, tt); same_login = refl }

check_auth-Runs-IsSafe :
    (s : Option Login) (f : Frame) (c : Connection) (m : Read Credentials)
    → Agrees s c
    → Ensures IsShort m
    → Runs (IsSafe s) (check_auth f c m)
unfolding check_auth
check_auth-Runs-IsSafe s f c err a h = runs (refusal-IsSafe s status_fail c a)
check_auth-Runs-IsSafe s f c fault a h = absurd (Ensures-ne-fault h refl)
check_auth-Runs-IsSafe s f c (ok r) a h =
    let t = authenticate c.table (c_string r.ip) f.now (is_accepted f.backend) in
    let refused : IsSafe s (c, reply status_fail none ∷ []) = refusal-IsSafe s status_fail c a in
    let answered = answer_auth-IsSafe s (c_string r.user) t.1 c f.backend a in
    runs (IsSafe-if t.0 answered (λ e. refused))

finish_spawn-AreQuiet :
    (f : Frame) (c : Connection) (o : Option ℕ) → AreQuiet none (finish_spawn f c o).1
unfolding finish_spawn Obeys login_after
finish_spawn-AreQuiet f c none = record { allowed = (tt, tt); same_login = refl }
finish_spawn-AreQuiet f c (some x) =
    then_quiet (closing-AreQuiet none c.retained_fd)
      (record { allowed = (tt, (tt, (tt, tt))); same_login = refl })

finish_spawn-auth : (f : Frame) (c : Connection) (o : Option ℕ) → (finish_spawn f c o).0.auth ≡ none
unfolding finish_spawn
finish_spawn-auth f c none = refl
finish_spawn-auth f c (some x) = refl

spawn_as-IsSafe :
    (s : Option Login) (f : Frame) (c : Connection) (uid a w h lcid : ℕ) (tz : List ℕ)
    → MaySpawn s c.auth_user uid a w h lcid tz
    → IsSafe s (spawn_as f c uid a w h lcid tz)
unfolding spawn_as Obeys login_after
spawn_as-IsSafe s f c uid a w h lcid tz p =
    let q = finish_spawn-AreQuiet f c f.spawned in
    record {
      obeys = (p, (tt, q.allowed));
      agrees =
          at_login (finish_spawn f c f.spawned).0 q.same_login
            (logged_out {c = (finish_spawn f c f.spawned).0} (finish_spawn-auth f c f.spawned));
    }

may_spawn :
    {s : Option Login} {c : Connection} (uid b w h lcid : ℕ) (tz : List ℕ)
    → Agrees s c
    → c.auth ≡ some b
    → is_empty c.auth_user ≡ false
    → uid ≢ 0
    → IsSpawn (launch w h lcid tz)
    → MaySpawn s c.auth_user uid b w h lcid tz
may_spawn uid b w h lcid tz (logged_out e) k n r q = cc (e, k)
may_spawn uid b w h lcid tz (logged_in e u) k n r q = record {
  same_user = u;
  same_handle = cc (e, k);
  has_name = n;
  not_root = r;
  good_request = q;
}

launch_session-Runs-IsSafe :
    (s : Option Login) (f : Frame) (c : Connection) (b : ℕ) (uid : Option ℕ) (w h lcid : ℕ)
    (tz : List ℕ)
    → Agrees s c
    → c.auth ≡ some b
    → is_empty c.auth_user ≡ false
    → IsSpawn (launch w h lcid tz)
    → Runs (IsSafe s) (launch_session f c (some b) uid w h lcid tz)
unfolding launch_session
launch_session-Runs-IsSafe s f c b none w h lcid tz a k n q =
    runs (refusal-IsSafe s status_fail c a)
launch_session-Runs-IsSafe s f c b (some uid) w h lcid tz a k n q = runs (
    IsSafe-if (uid == 0) (refusal-IsSafe s status_eperm c a) λ e.
      spawn_as-IsSafe s f c uid b w h lcid tz
        (may_spawn uid b w h lcid tz a k n (λ z. ground (arith, e)) q))

check_spawn-Runs-IsSafe :
    (s : Option Login) (f : Frame) (c : Connection) (m : Read Spawn)
    → Agrees s c
    → Ensures IsSpawn m
    → ((w h lcid : ℕ) (tz : List ℕ) → m ≡ ok (launch w h lcid tz) → is_authed c ≡ true)
    → Runs (IsSafe s) (check_spawn f c m)
unfolding check_spawn
check_spawn-Runs-IsSafe s f c err a h k = runs (refusal-IsSafe s status_fail c a)
check_spawn-Runs-IsSafe s f c fault a h k = absurd (Ensures-ne-fault h refl)
check_spawn-Runs-IsSafe s f c (ok denied) a h k = runs (refusal-IsSafe s status_eperm c a)
check_spawn-Runs-IsSafe s f c (ok (launch w h lcid tz)) a r k =
    let (n, (b, e)) = is_authed_lem c (k w h lcid tz refl) in
    subst (λ o. Runs (IsSafe s) (launch_session f c o f.uid w h lcid tz)) (sym e)
      (launch_session-Runs-IsSafe s f c b f.uid w h lcid tz a e n (Ensures-ok r refl))

handle_frame-Runs-IsSafe :
    (s : Option Login) (op : ℕ) (f : Frame) (c : Connection)
    → Agrees s c
    → Runs (IsSafe s) (handle_frame op f c)
unfolding handle_frame handle_auth handle_spawn
handle_frame-Runs-IsSafe s op f c a =
    Runs-if (op == op_auth)
      (map-Runs (λ t. with_descriptor (taken_fd f.recv_fds) t) (λ t p. around p)
        (check_auth-Runs-IsSafe s f c (parse_auth f.buf) a (requests_safe true f.buf).0))
      (Runs-if (op == op_spawn)
        (map-Runs (λ t. with_descriptor (taken_fd f.recv_fds) (mark_spawn f.sent t))
          (λ t p. around (record { obeys = p.obeys; agrees = keep_login p.agrees refl refl }))
          (check_spawn-Runs-IsSafe s f c (parse_spawn (is_authed c) f.buf) a
            (requests_safe (is_authed c) f.buf).1
            λ w h lcid tz e. handle_spawn_login c f.buf w h lcid tz e))
        (Runs-if (op == op_suspend)
          (runs (
            quiet_step (then_quiet (closing-AreQuiet s c.retained_fd) (map-does-AreQuiet s _))
              (keep_login a refl refl)))
          (Runs-if (op == op_resume)
            (runs (around (quiet_step (map-does-AreQuiet s _) (keep_login a refl refl))))
            (runs (around (refusal-IsSafe s status_enosys c a))))))
  where
    around : {t : Step} → IsSafe s t → IsSafe s (with_descriptor (taken_fd f.recv_fds) t)
    around p = quiet_behind (λ l. closing-AreQuiet l (taken_fd f.recv_fds)) p

then-Runs-IsSafe :
    {s : Option Login} {m : Read Step} (k : Connection → Read Step)
    → Runs (IsSafe s) m
    → ((l : Option Login) (d : Connection) → Agrees l d → Runs (IsSafe l) (k d))
    → Runs (IsSafe s) (m >>= λ t. k t.0 >>= λ u. ok (u.0, t.1 ++ u.1))
then-Runs-IsSafe {s} k (runs {t = t} p) h = both (k t.0) (h (login_after s t.1) t.0 p.agrees)
  where
    both :
        (r : Read Step)
        → Runs (IsSafe (login_after s t.1)) r
        → Runs (IsSafe s) (r >>= λ u. ok (u.0, t.1 ++ u.1))
    both r (runs q) = runs (then-IsSafe p q)

handle_frames-Runs-IsSafe :
    (s : Option Login) (frames : List Frame) (c : Connection)
    → Agrees s c
    → Runs (IsSafe s) (handle_frames frames c)
unfolding handle_frames Obeys login_after
handle_frames-Runs-IsSafe s [] c a = runs (record { obeys = tt; agrees = a })
handle_frames-Runs-IsSafe s (f ∷ frames) c a =
    map-Runs (received f.recv_fds) (λ t p. quiet_before (receipts-AreQuiet s f.recv_fds) p)
      (on_request-Runs (λ _. IsSafe s) _ c f.buf (record { obeys = tt; agrees = a })
        λ op rest.
          then-Runs-IsSafe (λ d. handle_frames frames d) (handle_frame-Runs-IsSafe s op f c a)
            (λ l d b. handle_frames-Runs-IsSafe l frames d b))

settle-AreQuiet :
    (s : Option Login) (sys : System) (alive : Bool) (c : Connection) (o : Option ℕ)
    → AreQuiet s (settle sys alive c o).1
unfolding settle Obeys login_after
settle-AreQuiet s sys alive c none = record { allowed = tt; same_login = refl }
settle-AreQuiet s sys alive c (some x) = elim (Bool-cases (not c.spawn_done && alive)) [
  | inl b ↦ rw b (map-does-AreQuiet s (auto_suspend sys c.manager x).1)
  | inr b ↦ rw b (closing-AreQuiet s (some x))
]

-- Whatever a client sends and whatever the system answers, the manager comes to the end of the
-- client, and each session that it starts for the client is started for the user, its name cut to
-- 256 bytes, and with the handle of the last login that the backend gave the client. The user has
-- a name and a user id that is not 0, the size is not empty, the time zone is safe, and no other
-- session was started since that login.
pub handle_client_access :
    (sys : System) (alive : Bool) (frames : List Frame) (m : Manager) (table : List AuthThrottle)
    → Runs (λ t. Obeys none t.1) (handle_client sys alive frames m table)
unfolding handle_client
handle_client_access sys alive frames m table =
    map-Runs _
      (λ t p.
        Obeys-append none t.1 _ p.obeys
          (then_quiet (settle-AreQuiet _ sys alive t.0 t.0.retained_fd)
            (ending-AreQuiet _ t.0.auth)).allowed)
      (handle_frames-Runs-IsSafe none frames (connected m table) (logged_out refl))
