-- ===== src/Sess/Throttle.antt =====
-- src/sessionmgr/sessionmgr.c: the throttle of authentications by source address. An address is
-- its text without the NUL; times are seconds, and do not go below 0.
use rdpserver.Base.{ℕ, suc, ◌+◌, ◌-◌, Bool, true, false, ◌&&◌, Option, none, some}
use rdpserver.Base.{List, [], ◌∷◌, ltb, leb, ◌==◌, if◌then◌else◌, get_or, set}

-- `struct auth_throttle`
pub record AuthThrottle : Type 0 where
  pub ip : List ℕ
  pub fails : ℕ
  pub window_start : ℕ

-- AUTH_FAIL_MAX and AUTH_FAIL_WINDOW
abbrev pub fail_max : ℕ
fail_max = 5

abbrev pub fail_window : ℕ
fail_window = 60

-- `strcmp(a, b) == 0`
unfoldable pub same : List ℕ → List ℕ → Bool
same [] [] = true
same [] (y ∷ b) = false
same (x ∷ a) [] = false
same (x ∷ a) (y ∷ b) = (x == y) && same a b

abbrev pub is_empty : List ℕ → Bool
is_empty [] = true
is_empty (x ∷ xs) = false

abbrev pub next_index : Option ℕ → Option ℕ
next_index none = none
next_index (some i) = some (suc i)

-- The loop of `auth_throttle_find`: the index of the entry.
unfoldable pub find_entry : List AuthThrottle → List ℕ → Option ℕ
unfolding same
find_entry [] ip = none
find_entry (s ∷ table) ip = if same s.ip ip then some 0 else next_index (find_entry table ip)

unfoldable pub auth_throttle_find : List AuthThrottle → List ℕ → Option ℕ
unfolding find_entry
auth_throttle_find table ip = if is_empty ip then none else find_entry table ip

abbrev pub no_entry : AuthThrottle
no_entry = record { ip = []; fails = 0; window_start = 0 }

-- The entry to use again: the first free one, or else the one with the oldest window. `i` is the
-- index of the first entry given, and `evict` the best so far, whose window begins at `oldest`.
unfoldable pub pick : List AuthThrottle → ℕ → ℕ → ℕ → ℕ
pick [] i evict oldest = evict
pick (s ∷ table) i evict oldest =
    let older = ltb s.window_start oldest in
    let rest =
      pick table (i + 1) (if older then i else evict) (if older then s.window_start else oldest) in
    if is_empty s.ip then i else rest

abbrev pub entry : List AuthThrottle → ℕ → AuthThrottle
entry table k = get_or table k no_entry

-- The entry of a known address, before `fails++`.
abbrev pub in_window : AuthThrottle → ℕ → AuthThrottle
in_window s now =
    if leb fail_window (now - s.window_start) then record s { fails = 0; window_start = now } else s

abbrev pub one_more : AuthThrottle → AuthThrottle
one_more s = record s { fails = s.fails + 1 }

-- Behind `auth_throttle_find`.
unfoldable pub count_fail : List AuthThrottle → List ℕ → ℕ → Option ℕ → List AuthThrottle
unfolding pick
count_fail table ip now none =
    set table (pick table 0 0 (entry table 0).window_start)
      (one_more (record { ip = ip; fails = 0; window_start = now }))
count_fail table ip now (some k) = set table k (one_more (in_window (entry table k) now))

unfoldable pub auth_throttle_fail : List AuthThrottle → List ℕ → ℕ → List AuthThrottle
unfolding auth_throttle_find count_fail
auth_throttle_fail table ip now =
    if is_empty ip then table else count_fail table ip now (auth_throttle_find table ip)

abbrev pub clear_at : List AuthThrottle → Option ℕ → List AuthThrottle
clear_at table none = table
clear_at table (some k) = set table k (record (entry table k) { ip = [] })

unfoldable pub auth_throttle_clear : List AuthThrottle → List ℕ → List AuthThrottle
unfolding auth_throttle_find
auth_throttle_clear table ip = clear_at table (auth_throttle_find table ip)

abbrev pub over_limit : List AuthThrottle → ℕ → Option ℕ → Bool
over_limit table now none = false
over_limit table now (some k) =
    ltb (now - (entry table k).window_start) fail_window && leb fail_max (entry table k).fails

-- The test of `handle_auth` that rejects a request without asking the backend.
unfoldable pub is_limited : List AuthThrottle → List ℕ → ℕ → Bool
unfolding auth_throttle_find
is_limited table ip now = over_limit table now (auth_throttle_find table ip)

-- `handle_auth` behind the reading of its request: whether the backend is asked, and the table
-- afterwards. `accepted`: what the backend answers, if it is asked.
unfoldable pub authenticate : List AuthThrottle → List ℕ → ℕ → Bool → Bool × List AuthThrottle
unfolding is_limited auth_throttle_fail auth_throttle_clear
authenticate table ip now accepted =
    if is_limited table ip now
    then (false, table)
    else (true, if accepted then auth_throttle_clear table ip else auth_throttle_fail table ip now)
