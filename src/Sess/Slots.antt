-- ===== src/Sess/Slots.antt =====
-- src/sessionmgr/sessionmgr.c: the suspended sessions. What the system answers is a parameter, and
-- the calls that others see are a list of effects. Times are seconds and do not go below 0. The
-- part of `sweep_expired` that unmounts drives is left out, and so are log lines.
use rdpserver.Base.{ℕ, ◌+◌, ◌-◌, Bool, true, false, not, ◌&&◌, ◌||◌, Option, none, some}
use rdpserver.Base.{
  List, [], ◌∷◌, ◌++◌, ltb, ◌==◌, if◌then◌else◌, get_or, set, length, take, drop, replicate,
}
use rdpserver.Buf.{u32}
use rdpserver.Sess.Throttle.{same, next_index}

-- `struct suspended_session`
pub record SuspendedSession : Type 0 where
  pub in_use : Bool
  pub logon_id : ℕ
  pub be_fd : ℕ
  pub suspended_at : ℕ
  pub arc_random : List ℕ

-- The static variables `suspended` and `resume_fail_count`.
pub record Manager : Type 0 where
  pub suspended : List SuspendedSession
  pub resume_fail_count : ℕ

-- What the system answers in one call: time(3) in the sweep and behind it, whether a descriptor is
-- alive in the sweep and behind it, the verifier for a key (rdp_hmac_md5 over 32 zero bytes, a
-- function of the cryptographic library), and the random id.
pub record System : Type 0 where
  pub sweep_time : ℕ
  pub time : ℕ
  pub sweep_alive : ℕ → Bool
  pub fd_alive : ℕ → Bool
  pub hmac : List ℕ → Option (List ℕ)
  pub random_id : ℕ

-- `close`, `reply` with its status and descriptor, and `usleep`.
pub data Effect : Type 0 where
  closes : ℕ → Effect
  replies : ℕ → Option ℕ → Effect
  sleeps : Effect

-- RDP_SESSMGR_OK, RDP_SESSMGR_FAIL and RDP_SESSMGR_SUSPEND_TIMEOUT
abbrev pub status_ok : ℕ
status_ok = 0

abbrev pub status_fail : ℕ
status_fail = 1

abbrev pub suspend_timeout : ℕ
suspend_timeout = 120

abbrev pub is_stale : System → SuspendedSession → Bool
is_stale sys s =
    ltb suspend_timeout (sys.sweep_time - s.suspended_at) || not (sys.sweep_alive s.be_fd)

unfoldable pub sweep_expired : System → List SuspendedSession → List SuspendedSession × List Effect
sweep_expired sys [] = ([], [])
sweep_expired sys (s ∷ slots) =
    let rest = sweep_expired sys slots in
    if not s.in_use
    then (s ∷ rest.0, rest.1)
    else if is_stale sys s
    then (record s { in_use = false } ∷ rest.0, closes s.be_fd ∷ rest.1)
    else (s ∷ rest.0, rest.1)

unfoldable pub free_slot : List SuspendedSession → Option ℕ
free_slot [] = none
free_slot (s ∷ slots) = if not s.in_use then some 0 else next_index (free_slot slots)

unfoldable pub find_logon : List SuspendedSession → ℕ → Option ℕ
find_logon [] id = none
find_logon (s ∷ slots) id =
    if s.in_use && (s.logon_id == id) then some 0 else next_index (find_logon slots id)

abbrev pub no_session : SuspendedSession
no_session = record { in_use = false; logon_id = 0; be_fd = 0; suspended_at = 0; arc_random = [] }

-- The id and the sixteen bytes of a request, which has at least 24 bytes.
abbrev pub byte : List ℕ → ℕ → ℕ
byte req i = get_or req i 0

abbrev pub request_id : List ℕ → ℕ
request_id req = u32 (byte req 4) (byte req 5) (byte req 6) (byte req 7)

abbrev pub request_key : List ℕ → List ℕ
request_key req = take 16 (drop 8 req)

-- `handle_suspend` behind the search for a free slot.
unfoldable pub suspend_in : Manager → SuspendedSession → Option ℕ → Manager × List Effect
suspend_in m s none = (m, closes s.be_fd ∷ replies status_fail none ∷ [])
suspend_in m s (some i) =
    (record m { suspended = set m.suspended i s }, replies status_ok none ∷ [])

-- What stands after the sweep, with its effects.
abbrev pub after_sweep : List Effect → Manager × List Effect → Manager × List Effect
after_sweep effects t = (t.0, effects ++ t.1)

unfoldable pub handle_suspend : System → Manager → List ℕ → Option ℕ → Manager × List Effect
unfolding sweep_expired free_slot suspend_in
handle_suspend sys m req none = (m, replies status_fail none ∷ [])
handle_suspend sys m req (some fd) =
    if ltb (length req) 24
    then (m, closes fd ∷ replies status_fail none ∷ [])
    else (let swept = sweep_expired sys m.suspended in
        let s : SuspendedSession = record {
          in_use = true;
          logon_id = request_id req;
          be_fd = fd;
          suspended_at = sys.time;
          arc_random = request_key req;
        } in
        after_sweep swept.1 (suspend_in (record m { suspended = swept.0 }) s (free_slot swept.0)))

-- `rdp_hmac_md5(...) != 0 || rdp_consttime_eq(...) != 0`, negated.
abbrev pub verifies : Option (List ℕ) → List ℕ → Bool
verifies none key = false
verifies (some expected) key = same expected key

abbrev pub one_more_failure : Manager → Manager
one_more_failure m = record m { resume_fail_count = m.resume_fail_count + 1 }

-- `handle_resume` behind the test of the verifier, with the slot `i`.
unfoldable pub hand_over : System → Manager → ℕ → Manager × List Effect
hand_over sys m i =
    let s = get_or m.suspended i no_session in
    let m' = record m {
      suspended = set m.suspended i (record s { in_use = false; arc_random = replicate 16 0 });
    } in
    if not (sys.fd_alive s.be_fd)
    then (m', closes s.be_fd ∷ replies status_fail none ∷ [])
    else (m', replies status_ok (some s.be_fd) ∷ closes s.be_fd ∷ [])

-- `handle_resume` behind the search for the id.
unfoldable pub resume_slot : System → Manager → List ℕ → Option ℕ → Manager × List Effect
unfolding hand_over
resume_slot sys m key none = (one_more_failure m, replies status_fail none ∷ [])
resume_slot sys m key (some i) =
    if verifies (sys.hmac (get_or m.suspended i no_session).arc_random) key
    then hand_over sys m i
    else (one_more_failure m, replies status_fail none ∷ [])

-- `if (resume_fail_count > 5)`
abbrev pub calm : Manager → Manager × List Effect
calm m =
    if ltb 5 m.resume_fail_count then (record m { resume_fail_count = 0 }, sleeps ∷ []) else (m, [])

unfoldable pub handle_resume : System → Manager → List ℕ → Manager × List Effect
unfolding sweep_expired find_logon resume_slot
handle_resume sys m req =
    if ltb (length req) 24
    then (m, replies status_fail none ∷ [])
    else (let calmed = calm m in
        let swept = sweep_expired sys m.suspended in
        after_sweep (calmed.1 ++ swept.1) (
          resume_slot sys (record calmed.0 { suspended = swept.0 }) (request_key req)
            (find_logon swept.0 (request_id req))))

-- `auto_suspend` behind the search for a free slot.
unfoldable pub auto_suspend_in : Manager → SuspendedSession → Option ℕ → Manager × List Effect
auto_suspend_in m s none = (m, closes s.be_fd ∷ [])
auto_suspend_in m s (some i) = (record m { suspended = set m.suspended i s }, [])

unfoldable pub auto_suspend : System → Manager → ℕ → Manager × List Effect
unfolding sweep_expired free_slot auto_suspend_in
auto_suspend sys m fd =
    let swept = sweep_expired sys m.suspended in
    let s : SuspendedSession = record {
      in_use = true;
      logon_id = sys.random_id;
      be_fd = fd;
      suspended_at = sys.time;
      arc_random = replicate 16 0;
    } in
    after_sweep swept.1 (auto_suspend_in (record m { suspended = swept.0 }) s (free_slot swept.0))
