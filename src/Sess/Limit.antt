-- ===== src/Sess/Limit.antt =====
-- src/sessionmgr/sessionmgr.c: what the throttle keeps of one address.
use rdpserver.Base.{
  ℕ, zero, suc, ◌+◌, ◌-◌, ◌≤◌, ◌<◌, ◌≡◌, refl, sym, ap, ◌∙◌, arith, Bool, true, false, not, ◌&&◌,
  Option, none, some,
}
use mathlib.Core.Path.{subst}
use rdpserver.Base.{◌⊎◌, get_or-set_self, length-set, All, min}
use rdpserver.Base.{List, [], ◌∷◌, ltb, leb, if◌then◌else◌, set, length, inl, inr, Bool-cases}
use rdpserver.Sess.Throttle.{
  AuthThrottle, fail_max, fail_window, same, is_empty, next_index, find_entry, auth_throttle_find,
  no_entry, pick, entry, in_window, one_more,
}
use rdpserver.Sess.Throttle.{count_fail, auth_throttle_fail, over_limit, is_limited, authenticate}

pub same_refl : (a : List ℕ) → same a a ≡ true
unfolding same
same_refl [] = refl
same_refl (x ∷ a) = ground (arith, same_refl a)

-- The record of an address: its failures and where their window begins.
abbrev record_at : List AuthThrottle → Option ℕ → Option (ℕ × ℕ)
record_at table none = none
record_at table (some k) = some ((entry table k).fails, (entry table k).window_start)

unfoldable pub record_of : List AuthThrottle → List ℕ → Option (ℕ × ℕ)
record_of table ip = record_at table (auth_throttle_find table ip)

-- A failure, on the record of one address alone.
abbrev pub after_fail : Option (ℕ × ℕ) → ℕ → ℕ × ℕ
after_fail none now = (1, now)
after_fail (some (fails, start)) now =
    if leb fail_window (now - start) then (1, now) else (fails + 1, start)

pick_lt :
    (table : List AuthThrottle) (i evict oldest n : ℕ)
    → evict < n
    → i + length table ≤ n
    → pick table i evict oldest < n
unfolding pick
pick_lt [] i evict oldest n h k = h
pick_lt (s ∷ table) i evict oldest n h k = elim (Bool-cases (is_empty s.ip)) [
  | inl e ↦ rw e (omega arith)
  | inr e ↦ rw e (elim (Bool-cases (ltb s.window_start oldest)) [
    | inl f ↦ rw f (pick_lt table (i + 1) i s.window_start n (omega arith) (omega arith))
    | inr f ↦ rw f (pick_lt table (i + 1) evict oldest n h (omega arith))
  ])
]

next_index-none : (o : Option ℕ) → next_index o ≡ none → o ≡ none
next_index-none none e = refl
next_index-none (some i) e = cc e

next_index-some : (o : Option ℕ) (k : ℕ) → next_index o ≡ some (suc k) → o ≡ some k
next_index-some none k e = cc e
next_index-some (some i) k e = ground (arith, e)

next_index-zero : (o : Option ℕ) → next_index o ≡ some 0 → ⊥
next_index-zero none e = cc e
next_index-zero (some i) e = ground (arith, e)

-- An address that is not the first entry's is looked up behind it.
find_entry-cons :
    (t : AuthThrottle) (table : List AuthThrottle) (ip : List ℕ) (o : Option ℕ)
    → find_entry (t ∷ table) ip ≡ o
    → ((same t.ip ip ≡ true) × (o ≡ some 0))
      ⊎ ((same t.ip ip ≡ false) × (next_index (find_entry table ip) ≡ o))
unfolding find_entry
find_entry-cons t table ip o e = elim (Bool-cases (same t.ip ip)) [
  | inl g ↦
      inl (g, sym (subst (λ b. (if b then some 0 else next_index (find_entry table ip)) ≡ o) g e))
  | inr g ↦ inr (g, subst (λ b. (if b then some 0 else next_index (find_entry table ip)) ≡ o) g e)
]

-- An address that was not in the table is found where it is put.
find_entry-set_new :
    (table : List AuthThrottle) (ip : List ℕ) (j : ℕ) (s : AuthThrottle)
    → find_entry table ip ≡ none
    → j < length table
    → s.ip ≡ ip
    → find_entry (set table j s) ip ≡ some j
unfolding find_entry
find_entry-set_new [] ip j s e h f = absurd (omega arith)
find_entry-set_new (t ∷ table) ip zero s e h f = rw (f, same_refl ip) refl
find_entry-set_new (t ∷ table) ip (suc j) s e h f = elim (find_entry-cons t table ip none e) [
  | inl (g, z) ↦ cc z
  | inr (g, r) ↦
      rw
        (
          g,
          find_entry-set_new table ip j s (next_index-none (find_entry table ip) r) (omega arith) f,
        )
        refl
]

-- An entry that keeps its address is found where it was, and is there.
find_entry-set_old :
    (table : List AuthThrottle) (ip : List ℕ) (k : ℕ) (s : AuthThrottle)
    → find_entry table ip ≡ some k
    → s.ip ≡ (entry table k).ip
    → (find_entry (set table k s) ip ≡ some k) × (k < length table)
unfolding find_entry
find_entry-set_old [] ip k s e f = cc e
find_entry-set_old (t ∷ table) ip zero s e f = elim (find_entry-cons t table ip (some 0) e) [
  | inl (g, z) ↦ (rw (f, g) refl, omega arith)
  | inr (g, r) ↦ absurd (next_index-zero (find_entry table ip) r)
]
find_entry-set_old (t ∷ table) ip (suc k) s e f =
    elim (find_entry-cons t table ip (some (suc k)) e) [
      | inl (g, z) ↦ absurd (suc_ne z)
      | inr (g, r) ↦
          let ih = find_entry-set_old table ip k s (next_index-some (find_entry table ip) k r) f in
          (rw (g, ih.0) refl, omega (arith, ih.1))
    ]
  where
    suc_ne : some (suc k) ≡ some 0 → ⊥
    suc_ne z = ground (arith, z)

in_window_ip : (s : AuthThrottle) (now : ℕ) → (in_window s now).ip ≡ s.ip
in_window_ip s now = elim (Bool-cases (leb fail_window (now - s.window_start))) [
  | inl e ↦ rw e refl
  | inr e ↦ rw e refl
]

-- A failure changes the record of its own address as if there were no other.
record_of-auth_throttle_fail :
    (table : List AuthThrottle) (ip : List ℕ) (now : ℕ)
    → 0 < length table
    → is_empty ip ≡ false
    → record_of (auth_throttle_fail table ip now) ip ≡ some (after_fail (record_of table ip) now)
unfolding record_of auth_throttle_find auth_throttle_fail count_fail
record_of-auth_throttle_fail table ip now h e = elim (option_cases (find_entry table ip)) [
  | inl n ↦
      rw
        (
          e,
          n,
          find_entry-set_new table ip free new n free_lt refl,
          get_or-set_self table free new no_entry free_lt,
        )
        refl
  | inr (k, n) ↦
      let t =
        find_entry-set_old table ip k (one_more (in_window (entry table k) now)) n
          (in_window_ip (entry table k) now) in
      rw
        (e, n, t.0, get_or-set_self table k (one_more (in_window (entry table k) now)) no_entry t.1)
        (counted (entry table k))
]
  where
    free : ℕ
    free = pick table 0 0 (entry table 0).window_start

    new : AuthThrottle
    new = one_more (record { ip = ip; fails = 0; window_start = now })

    free_lt : free < length table
    free_lt = pick_lt table 0 0 (entry table 0).window_start (length table) h (omega arith)

    option_cases : (o : Option ℕ) → (o ≡ none) ⊎ ((k : ℕ) × (o ≡ some k))
    option_cases none = inl refl
    option_cases (some k) = inr (k, refl)

    counted :
        (s : AuthThrottle)
        → some ((one_more (in_window s now)).fails, (one_more (in_window s now)).window_start)
          ≡ some (after_fail (some (s.fails, s.window_start)) now)
    counted s = elim (Bool-cases (leb fail_window (now - s.window_start))) [
      | inl e ↦ rw e refl
      | inr e ↦ rw e refl
    ]

-- The test of a record.
abbrev limited : Option (ℕ × ℕ) → ℕ → Bool
limited none now = false
limited (some (fails, start)) now = ltb (now - start) fail_window && leb fail_max fails

is_limited-record_of :
    (table : List AuthThrottle) (ip : List ℕ) (now : ℕ)
    → is_limited table ip now ≡ limited (record_of table ip) now
unfolding record_of is_limited
is_limited-record_of table ip now = by_index (auth_throttle_find table ip)
  where
    by_index : (o : Option ℕ) → over_limit table now o ≡ limited (record_at table o) now
    by_index none = refl
    by_index (some k) = refl

length-count_fail :
    (table : List AuthThrottle) (ip : List ℕ) (now : ℕ) (o : Option ℕ)
    → length (count_fail table ip now o) ≡ length table
unfolding count_fail
length-count_fail table ip now none = length-set table _ _
length-count_fail table ip now (some k) = length-set table k _

length-auth_throttle_fail :
    (table : List AuthThrottle) (ip : List ℕ) (now : ℕ)
    → length (auth_throttle_fail table ip now) ≡ length table
unfolding auth_throttle_fail
length-auth_throttle_fail table ip now = elim (Bool-cases (is_empty ip)) [
  | inl e ↦ rw e refl
  | inr e ↦ rw e (length-count_fail table ip now (find_entry table ip))
]

-- Attempts of one address that the backend refuses, or would refuse.
unfoldable pub attempts : List AuthThrottle → List ℕ → List ℕ → List AuthThrottle
attempts table ip [] = table
attempts table ip (t ∷ times) = attempts (authenticate table ip t false).1 ip times

-- All in the window that begins at `start`.
abbrev pub IsWithin : ℕ → List ℕ → Type 0
IsWithin start times = All (λ t. t < start + 60) times

attempt_counted :
    (table : List AuthThrottle) (ip : List ℕ) (fails start now : ℕ)
    → 0 < length table
    → is_empty ip ≡ false
    → now < start + 60
    → fails ≤ 5
    → record_of table ip ≡ some (fails, start)
    → (record_of (authenticate table ip now false).1 ip ≡ some (min 5 (fails + 1), start))
      × (length (authenticate table ip now false).1 ≡ length table)
unfolding authenticate
attempt_counted table ip fails start now h e w f r = elim (Bool-cases (leb fail_max fails)) [
  | inl t ↦
      rw (is_limited-record_of table ip now ∙ ap (λ o. limited o now) r ∙ both_true t)
        (r ∙ ap (λ n. some (n, start)) {x = fails} {y = min 5 (fails + 1)} (ground arith), refl)
  | inr t ↦ rw (is_limited-record_of table ip now ∙ ap (λ o. limited o now) r ∙ second_false t) (
    record_of-auth_throttle_fail table ip now h e
        ∙ ap (λ o. some (after_fail o now)) r
        ∙ ap (λ b. some (if b then (1, now) else (fails + 1, start))) fresh
        ∙ ap (λ n. some (n, start)) {x = fails + 1} {y = min 5 (fails + 1)} (ground arith),
    length-auth_throttle_fail table ip now,
  )
]
  where
    both_true :
        leb fail_max fails ≡ true → (ltb (now - start) fail_window && leb fail_max fails) ≡ true
    both_true t = ground arith

    second_false :
        leb fail_max fails ≡ false → (ltb (now - start) fail_window && leb fail_max fails) ≡ false
    second_false t = ground arith

    fresh : leb fail_window (now - start) ≡ false
    fresh = ground arith

attempts_counted :
    (times : List ℕ) (table : List AuthThrottle) (ip : List ℕ) (fails start : ℕ)
    → 0 < length table
    → is_empty ip ≡ false
    → IsWithin start times
    → fails ≤ 5
    → record_of table ip ≡ some (fails, start)
    → record_of (attempts table ip times) ip ≡ some (min 5 (fails + length times), start)
unfolding attempts
attempts_counted [] table ip fails start h e w f r =
    r ∙ ap (λ n. some (n, start)) {x = fails} {y = min 5 (fails + 0)} (omega arith)
attempts_counted (t ∷ times) table ip fails start h e w f r =
    let a = attempt_counted table ip fails start t h e w.0 f r in
    attempts_counted times (authenticate table ip t false).1 ip (min 5 (fails + 1)) start
      (omega (arith, a.1)) e w.1 (omega arith) a.0
    ∙ ap (λ n. some (n, start)) {x = min 5 (min 5 (fails + 1) + length times)}
        {y = min 5 (fails + suc (length times))} (omega arith)

asked :
    (b : Bool) (x y : List AuthThrottle)
    → (if◌then◌else◌ {A = Bool × List AuthThrottle} b (false, x) (true, y)).0 ≡ not b
asked true x y = refl
asked false x y = refl

asks_backend :
    (table : List AuthThrottle) (ip : List ℕ) (now : ℕ) (accepted : Bool)
    → (authenticate table ip now accepted).0 ≡ not (is_limited table ip now)
unfolding authenticate
asks_backend table ip now accepted = asked (is_limited table ip now) _ _

-- The first failure of an address.
first_attempt :
    (table : List AuthThrottle) (ip : List ℕ) (start : ℕ)
    → 0 < length table
    → is_empty ip ≡ false
    → record_of table ip ≡ none
    → (record_of (authenticate table ip start false).1 ip ≡ some (1, start))
      × (length (authenticate table ip start false).1 ≡ length table)
unfolding authenticate
first_attempt table ip start h e r =
    rw (is_limited-record_of table ip start ∙ ap (λ o. limited o start) r) (
      record_of-auth_throttle_fail table ip start h e ∙ ap (λ o. some (after_fail o start)) r,
      length-auth_throttle_fail table ip start,
    )

record_of-none :
    (table : List AuthThrottle) (ip : List ℕ)
    → auth_throttle_find table ip ≡ none
    → record_of table ip ≡ none
unfolding record_of
record_of-none table ip e = ap (λ o. record_at table o) e

-- When an address that is not in the table fails at the time `start` and at four or more times of
-- the sixty seconds that begin with it, with no other address in between, a further attempt reaches the
-- backend exactly if the sixty seconds are over.
pub throttle_lem :
    (table : List AuthThrottle) (ip : List ℕ) (start : ℕ) (times : List ℕ) (now : ℕ)
    (accepted : Bool)
    → 0 < length table
    → is_empty ip ≡ false
    → auth_throttle_find table ip ≡ none
    → IsWithin start times
    → 4 ≤ length times
    → (authenticate (attempts table ip (start ∷ times)) ip now accepted).0 ≡ leb (start + 60) now
unfolding attempts
throttle_lem table ip start times now accepted h e n w l =
    asks (attempts after ip times)
    ∙ ap not (
        is_limited-record_of (attempts after ip times) ip now
        ∙ ap (λ o. limited o now)
            (attempts_counted times after ip 1 start (omega (arith, kept)) e w (omega arith) first))
    ∙ full
  where
    after : List AuthThrottle
    after = (authenticate table ip start false).1

    both : (record_of after ip ≡ some (1, start)) × (length after ≡ length table)
    both = first_attempt table ip start h e (record_of-none table ip n)

    first : record_of after ip ≡ some (1, start)
    first = both.0

    kept : length after ≡ length table
    kept = both.1

    asks : (t : List AuthThrottle) → (authenticate t ip now accepted).0 ≡ not (is_limited t ip now)
    asks t = asks_backend t ip now accepted

    full : not (ltb (now - start) 60 && leb 5 (min 5 (1 + length times))) ≡ leb (start + 60) now
    full = ground arith
