-- ===== src/Sess/Client.antt =====
-- src/sessionmgr/sessionmgr.c: the requests of one client, a worker, from its connection to its
-- end. What the system answers is part of a frame, and the calls that others see are effects. The
-- cached password hash and log lines are left out.
use rdpserver.Base.{
  ℕ, Bool, true, false, not, ◌&&◌, Option, none, some, List, [], ◌∷◌, ◌++◌, map, ◌==◌,
  if◌then◌else◌, take,
}
use rdpserver.Base.{Read, ok, err, fault, ◌>>=◌}
use rdpserver.Sess.Throttle.{AuthThrottle, is_empty, authenticate}
use rdpserver.Sess.Slots.{
  Manager, System, Effect, closes, replies, status_ok, status_fail, handle_suspend, handle_resume,
  auto_suspend,
}
use rdpserver.Sess.Requests.{
  Credentials, Spawn, denied, launch, user_max, parse_auth, c_string, parse_spawn,
}

-- RDP_SESSMGR_ENOSYS, RDP_SESSMGR_EPERM and the operations
abbrev pub status_enosys : ℕ
status_enosys = 2

abbrev pub status_eperm : ℕ
status_eperm = 3

abbrev pub op_auth : ℕ
op_auth = 1

abbrev pub op_spawn : ℕ
op_spawn = 2

abbrev pub op_suspend : ℕ
op_suspend = 3

abbrev pub op_resume : ℕ
op_resume = 4

-- A login that the backend has accepted: the handle and its user name.
pub record Login : Type 0 where
  pub handle : ℕ
  pub name : List ℕ

-- What one round of the loop receives: the bytes, none where recvmsg(2) returns 0 or less, and the
-- descriptors that the kernel stores in the control buffer, of which there may be two where its
-- alignment leaves room for a second one. And what the system answers in the round:
-- `time`, rdp_auth_user, the user id that getpwnam(3) finds, the descriptor of spawn_session, that
-- of dup(2), and whether the reply of a SPAWN request is sent.
pub record Frame : Type 0 where
  pub buf : List ℕ
  pub recv_fds : List ℕ
  pub sys : System
  pub now : ℕ
  pub backend : Option Login
  pub uid : Option ℕ
  pub spawned : Option ℕ
  pub dup : Option ℕ
  pub sent : Bool

-- The variables of `handle_client`, and the static ones.
pub record Connection : Type 0 where
  pub manager : Manager
  pub table : List AuthThrottle
  pub auth_user : List ℕ
  pub auth : Option ℕ
  pub retained_fd : Option ℕ
  pub spawn_done : Bool

-- The calls: those of `Effect`, a descriptor that comes with a request, rdp_auth_user with its user
-- and result, rdp_auth_session_close, rdp_auth_free, spawn_session with the user, the user id, the
-- handle, the size, the layout, the time zone and the result, and dup(2) with its result.
pub data ClientEffect : Type 0 where
  does : Effect → ClientEffect
  receives : ℕ → ClientEffect
  asks : List ℕ → Option Login → ClientEffect
  ends_login : ℕ → ClientEffect
  frees_login : ℕ → ClientEffect
  spawns : List ℕ → ℕ → ℕ → ℕ → ℕ → ℕ → List ℕ → Option ℕ → ClientEffect
  dups : Option ℕ → ClientEffect

abbrev pub Step : Type 0
Step = Connection × List ClientEffect

-- `reply(cfd, status, fd)`
abbrev pub reply : ℕ → Option ℕ → ClientEffect
reply status fd = does (replies status fd)

-- `if (fd >= 0) close(fd)`, and the same for a handle that is not NULL.
abbrev pub closing : Option ℕ → List ClientEffect
closing none = []
closing (some fd) = does (closes fd) ∷ []

abbrev pub ending : Option ℕ → List ClientEffect
ending none = []
ending (some a) = ends_login a ∷ []

-- The descriptors that have come with a message, and the one that the loop over its control data
-- stores in `recv_fd`.
abbrev pub receipts : List ℕ → List ClientEffect
receipts fds = map receives fds

abbrev pub taken_fd : List ℕ → Option ℕ
taken_fd [] = none
taken_fd (fd ∷ fds) = some fd

abbrev pub is_accepted : Option Login → Bool
is_accepted none = false
is_accepted (some l) = true

-- `handle_auth` behind the backend, with the table behind it.
unfoldable pub answer_auth : List ℕ → List AuthThrottle → Connection → Option Login → Step
answer_auth user table c none =
    (record c { table = table }, asks user none ∷ reply status_fail none ∷ [])
answer_auth user table c (some l) = (
  record c { table = table; auth_user = take user_max l.name; auth = some l.handle },
  asks user (some l) ∷ (ending c.auth ++ (reply status_ok none ∷ [])),
)

-- `handle_auth` behind the reading of its request.
unfoldable pub check_auth : Frame → Connection → Read Credentials → Read Step
unfolding answer_auth
check_auth f c err = ok (c, reply status_fail none ∷ [])
check_auth f c fault = fault
check_auth f c (ok r) =
    let t = authenticate c.table (c_string r.ip) f.now (is_accepted f.backend) in
    ok (
      if t.0
      then answer_auth (c_string r.user) t.1 c f.backend
      else (c, reply status_fail none ∷ []))

unfoldable pub handle_auth : Frame → Connection → Read Step
unfolding check_auth
handle_auth f c = check_auth f c (parse_auth f.buf)

-- `handle_spawn` behind spawn_session, whose copy of the handle is freed. Every branch that replies
-- returns what `reply` returns.
unfoldable pub finish_spawn : Frame → Connection → Option ℕ → Step
finish_spawn f c none = (record c { auth = none }, reply status_fail none ∷ [])
finish_spawn f c (some fd) = (
  record c { auth = none; retained_fd = f.dup },
  closing c.retained_fd ++ (dups f.dup ∷ reply status_ok (some fd) ∷ does (closes fd) ∷ []),
)

unfoldable pub spawn_as : Frame → Connection → ℕ → ℕ → ℕ → ℕ → ℕ → List ℕ → Step
unfolding finish_spawn
spawn_as f c uid a w h lcid tz =
    let t = finish_spawn f c f.spawned in
    (t.0, spawns c.auth_user uid a w h lcid tz f.spawned ∷ frees_login a ∷ t.1)

-- `handle_spawn` behind the reading of its request: getpwnam and the test of the user id.
unfoldable pub launch_session :
    Frame → Connection → Option ℕ → Option ℕ → ℕ → ℕ → ℕ → List ℕ → Read Step
unfolding spawn_as
launch_session f c none uid w h lcid tz = fault
launch_session f c (some a) none w h lcid tz = ok (c, reply status_fail none ∷ [])
launch_session f c (some a) (some uid) w h lcid tz =
    ok (if uid == 0 then (c, reply status_eperm none ∷ []) else spawn_as f c uid a w h lcid tz)

unfoldable pub check_spawn : Frame → Connection → Read Spawn → Read Step
unfolding launch_session
check_spawn f c err = ok (c, reply status_fail none ∷ [])
check_spawn f c fault = fault
check_spawn f c (ok denied) = ok (c, reply status_eperm none ∷ [])
check_spawn f c (ok (launch w h lcid tz)) = launch_session f c c.auth f.uid w h lcid tz

-- `auth_user[0] != '\0' && *auth != NULL`
abbrev pub has_login : Option ℕ → Bool
has_login none = false
has_login (some a) = true

abbrev pub is_authed : Connection → Bool
is_authed c = not (is_empty c.auth_user) && has_login c.auth

unfoldable pub handle_spawn : Frame → Connection → Read Step
unfolding check_spawn
handle_spawn f c = check_spawn f c (parse_spawn (is_authed c) f.buf)

-- `if (handle_spawn(...) == 0) spawn_done = 1;`
abbrev pub mark_spawn : Bool → Step → Step
mark_spawn sent t = (record t.0 { spawn_done = if sent then true else t.0.spawn_done }, t.1)

-- The rest of a round: a descriptor that was not taken is closed.
abbrev pub with_descriptor : Option ℕ → Step → Step
with_descriptor fd t = (t.0, t.1 ++ closing fd)

-- `switch (buf[0])`
unfoldable pub handle_frame : ℕ → Frame → Connection → Read Step
unfolding handle_auth handle_spawn
handle_frame op f c =
    if op == op_auth
    then (handle_auth f c >>= λ t. ok (with_descriptor (taken_fd f.recv_fds) t))
    else if op == op_spawn
    then (handle_spawn f c >>= λ t.
        ok (with_descriptor (taken_fd f.recv_fds) (mark_spawn f.sent t)))
    else if op == op_suspend
    then (let t = handle_suspend f.sys c.manager f.buf (taken_fd f.recv_fds) in
        ok (record c { manager = t.0; retained_fd = none }, closing c.retained_fd ++ map does t.1))
    else if op == op_resume
    then (let t = handle_resume f.sys c.manager f.buf in
        ok (with_descriptor (taken_fd f.recv_fds) (record c { manager = t.0 }, map does t.1)))
    else ok (with_descriptor (taken_fd f.recv_fds) (c, reply status_enosys none ∷ []))

-- `if (n <= 0) break;`
abbrev pub on_request : (ℕ → Read Step) → Connection → List ℕ → Read Step
on_request step c [] = ok (c, [])
on_request step c (op ∷ _) = step op

abbrev pub received : List ℕ → Step → Step
received fds t = (t.0, receipts fds ++ t.1)

-- The loop: it ends when poll(2) or recvmsg(2) has nothing more, and then leaves the descriptors of
-- the last message as they are.
unfoldable pub handle_frames : List Frame → Connection → Read Step
unfolding handle_frame
handle_frames [] c = ok (c, [])
handle_frames (f ∷ frames) c =
    on_request
      (λ op. handle_frame op f c >>= λ t. handle_frames frames t.0 >>= λ u. ok (u.0, t.1 ++ u.1)) c
      f.buf
    >>= λ t. ok (received f.recv_fds t)

-- What stands behind the loop: `alive` is what poll(2) says of the descriptor.
unfoldable pub settle : System → Bool → Connection → Option ℕ → Step
settle sys alive c none = (c, [])
settle sys alive c (some fd) =
    if not c.spawn_done && alive
    then (let t = auto_suspend sys c.manager fd in
        (record c { manager = t.0; retained_fd = none }, map does t.1))
    else (record c { retained_fd = none }, does (closes fd) ∷ [])

abbrev pub connected : Manager → List AuthThrottle → Connection
connected m table = record {
  manager = m;
  table = table;
  auth_user = [];
  auth = none;
  retained_fd = none;
  spawn_done = false;
}

unfoldable pub handle_client : System → Bool → List Frame → Manager → List AuthThrottle → Read Step
unfolding handle_frames settle
handle_client sys alive frames m table = do
  t ← handle_frames frames (connected m table)
  let u = settle sys alive t.0 t.0.retained_fd
  ok (record u.0 { auth = none }, t.1 ++ (u.1 ++ ending t.0.auth))
