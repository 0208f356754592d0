-- ===== src/Sess/Tests.antt =====
-- Instances of the theorems on src/sessionmgr/sessionmgr.c.
use rdpserver.Base.{Ensures}
use rdpserver.Sess.Requests.{parse_auth, parse_spawn}
use rdpserver.Sess.Checked.{IsShort, IsSpawn, requests_safe}
use rdpserver.Base.{ℕ, ◌+◌, ◌≡◌, refl, arith, true, none, some, List, [], ◌∷◌, replicate, leb}
use rdpserver.Sess.Throttle.{AuthThrottle, no_entry, auth_throttle_find, authenticate}
use rdpserver.Sess.Limit.{attempts, throttle_lem}
use rdpserver.Sess.Slots.{
  Manager, System, no_session, find_logon, handle_suspend, handle_resume, request_id,
}
use rdpserver.Sess.Descriptors.{
  held, closed_in, brought, suspend, resume, serve_all, serve_all_balance,
}
use rdpserver.Sess.Return.{answer_of, handle_resume-handle_suspend}
use rdpserver.Base.{map, Bool, false, Read, ok}
use rdpserver.Sess.Slots.{closes}
use rdpserver.Sess.Client.{
  Frame, ClientEffect, does, receives, asks, frees_login, spawns, dups, Step, reply, connected,
  handle_frames, handle_client,
}
use rdpserver.Sess.Runs.{Runs}
use rdpserver.Sess.Settled.{IsSettled, lost, handle_client_balance}
use rdpserver.Sess.Access.{Obeys}
use rdpserver.Sess.Admission.{handle_client_access}

-- An empty table, and an address.
abbrev table : List AuthThrottle
table = replicate 3 no_entry

abbrev address : List ℕ
address = b'1' ∷ b'0' ∷ b'.' ∷ b'1' ∷ []

not_in_table : auth_throttle_find table address ≡ none
unfolding auth_throttle_find
not_in_table = refl

throttle_lem_example :
    (authenticate (attempts table address (100 ∷ 101 ∷ 102 ∷ 103 ∷ 104 ∷ [])) address 120 true).0
    ≡ leb (100 + 60) 120
throttle_lem_example =
    throttle_lem table address 100 (101 ∷ 102 ∷ 103 ∷ 104 ∷ []) 120 true (omega arith) refl
      not_in_table (omega arith, (omega arith, (omega arith, (omega arith, tt)))) (omega arith)

-- The sixty seconds are those of a fixed window: five failures in fourteen seconds of two windows.
over_two_windows :
    (authenticate (attempts table address (0 ∷ 50 ∷ 55 ∷ 61 ∷ 62 ∷ 63 ∷ [])) address 64 true).0
    ≡ true
unfolding attempts authenticate
over_two_windows = refl

abbrev manager : Manager
manager = record { suspended = replicate 2 no_session; resume_fail_count = 0 }

-- A system at this time, where every descriptor is alive and a key is its own verifier.
abbrev system_at : ℕ → System
system_at now = record {
  sweep_time = now;
  time = now;
  sweep_alive = λ fd. true;
  fd_alive = λ fd. true;
  hmac = λ key. some key;
  random_id = 9;
}

-- A request with the id 7.
abbrev request : List ℕ
request = 3 ∷ 0 ∷ 0 ∷ 0 ∷ 7 ∷ 0 ∷ 0 ∷ 0 ∷ replicate 16 5

serve_all_balance_example :
    held 4
        (serve_all manager (
          (system_at 10, suspend request (some 4))
          ∷ (system_at 20, resume request)
          ∷ [])).0.suspended
      + closed_in 4
          (serve_all manager
            ((system_at 10, suspend request (some 4)) ∷ (system_at 20, resume request) ∷ [])).1
    ≡ held 4 manager.suspended
      + brought 4 ((system_at 10, suspend request (some 4)) ∷ (system_at 20, resume request) ∷ [])
serve_all_balance_example =
    serve_all_balance 4 manager
      ((system_at 10, suspend request (some 4)) ∷ (system_at 20, resume request) ∷ [])

suspended_ok : answer_of (handle_suspend (system_at 10) manager request (some 4)).1 ≡ some (0, none)
unfolding handle_suspend answer_of
suspended_ok = refl

unknown_id : find_logon manager.suspended (request_id request) ≡ none
unfolding find_logon
unknown_id = refl

handle_resume-handle_suspend_example :
    answer_of
      (handle_resume
        (system_at 20)
        (handle_suspend (system_at 10) manager request (some 4)).0
        request).1
    ≡ some (0, some 4)
handle_resume-handle_suspend_example =
    handle_resume-handle_suspend (system_at 10) (system_at 20) manager request request 4
      (omega arith) unknown_id suspended_ok (omega arith) refl (omega arith) refl refl refl

-- A SPAWN request with the time zone "<+01>".
abbrev spawn_request : List ℕ
spawn_request =
    2 ∷ 0 ∷ 0 ∷ 4 ∷ 0 ∷ 3 ∷ 5 ∷ 0 ∷ 9 ∷ 4 ∷ 0 ∷ 0 ∷ b'<' ∷ b'+' ∷ b'0' ∷ b'1' ∷ b'>' ∷ []

requests_safe_example :
    Ensures IsShort (parse_auth spawn_request) × Ensures IsSpawn (parse_spawn true spawn_request)
requests_safe_example = requests_safe true spawn_request

-- An AUTH request of the user "u", and what a client may send and get.
abbrev auth_request : List ℕ
auth_request = 1 ∷ 0 ∷ 1 ∷ 0 ∷ 0 ∷ 0 ∷ 0 ∷ 0 ∷ b'u' ∷ []

abbrev frame_of : List ℕ → List ℕ → Frame
frame_of buf fds = record {
  buf = buf;
  recv_fds = fds;
  sys = system_at 10;
  now = 10;
  backend = some (record { handle = 5; name = b'u' ∷ [] });
  uid = some 1000;
  spawned = some 4;
  dup = some 6;
  sent = true;
}

abbrev client_frames : List Frame
client_frames =
    frame_of auth_request []
    ∷ frame_of spawn_request []
    ∷ frame_of spawn_request []
    ∷ frame_of request (8 ∷ [])
    ∷ []

handle_client_balance_example :
    Runs
      (IsSettled 4 5 (lost 4 client_frames) manager)
      (handle_client (system_at 20) true client_frames manager table)
handle_client_balance_example =
    handle_client_balance 4 5 (system_at 20) true client_frames manager table

handle_client_access_example :
    Runs (λ t. Obeys none t.1) (handle_client (system_at 20) true client_frames manager table)
handle_client_access_example = handle_client_access (system_at 20) true client_frames manager table

-- The run of these frames: the second SPAWN is denied, and the copy of the session's descriptor is
-- closed when the descriptor 8 is suspended.
client_effects : List ClientEffect
client_effects =
    asks (b'u' ∷ []) (some (record { handle = 5; name = b'u' ∷ [] }))
    ∷ reply 0 none
    ∷ spawns (b'u' ∷ []) 1000 5 1024 768 1033 (b'<' ∷ b'+' ∷ b'0' ∷ b'1' ∷ b'>' ∷ []) (some 4)
    ∷ frees_login 5
    ∷ dups (some 6)
    ∷ reply 0 (some 4)
    ∷ does (closes 4)
    ∷ reply 3 none
    ∷ receives 8
    ∷ does (closes 6)
    ∷ reply 0 none
    ∷ []

effects_of : Read Step → List ClientEffect
effects_of (ok t) = t.1
effects_of _ = []

client_run :
    effects_of (handle_client (system_at 20) true client_frames manager table) ≡ client_effects
unfolding handle_client client_effects effects_of parse_auth parse_spawn authenticate handle_suspend
client_run = refl

-- A SPAWN request that is denied marks the spawn as done when the reply is sent.
spawn_done_of : Read Step → Bool
spawn_done_of (ok t) = t.0.spawn_done
spawn_done_of _ = false

denied_spawn_marks :
    spawn_done_of (handle_frames (frame_of spawn_request [] ∷ []) (connected manager table)) ≡ true
unfolding handle_frames spawn_done_of parse_spawn
denied_spawn_marks = refl

-- The second descriptor of a message and that of an empty message are never closed.
two_messages : List Frame
two_messages = frame_of request (8 ∷ 9 ∷ []) ∷ frame_of [] (10 ∷ []) ∷ []

lost_descriptors : map (λ fd. lost fd two_messages) (8 ∷ 9 ∷ 10 ∷ []) ≡ 0 ∷ 1 ∷ 1 ∷ []
unfolding lost two_messages rdpserver.Sess.Ledger.count_in
lost_descriptors = refl
