-- ===== src/Sess/Descriptors.antt =====
-- src/sessionmgr/sessionmgr.c: the descriptors of the suspended sessions, and who may get them.
use rdpserver.Base.{
  ℕ, zero, suc, ◌+◌, ◌<◌, ◌≡◌, refl, arith, Bool, true, false, not, ◌&&◌, Option, none, some,
}
use mathlib.Core.Path.{subst}
use rdpserver.Base.{replicate}
use rdpserver.Base.{
  List, [], ◌∷◌, ◌++◌, ltb, ◌==◌, if◌then◌else◌, get_or, set, length, inl, inr, ◌⊎◌, Bool-cases,
}
use rdpserver.Sess.Throttle.{next_index}
use rdpserver.Sess.Slots.{
  SuspendedSession, Manager, System, Effect, closes, replies, sleeps, is_stale, sweep_expired,
  free_slot, find_logon, no_session, request_id, request_key,
}
use rdpserver.Sess.Slots.{
  suspend_in, after_sweep, handle_suspend, verifies, hand_over, resume_slot, calm, handle_resume,
  auto_suspend_in, auto_suspend,
}

abbrev pub one_if : Bool → ℕ
one_if true = 1
one_if false = 0

-- Whether a slot holds the descriptor, and how many slots do.
abbrev pub holds : ℕ → SuspendedSession → ℕ
holds fd s = one_if (s.in_use && (s.be_fd == fd))

unfoldable pub held : ℕ → List SuspendedSession → ℕ
held fd [] = 0
held fd (s ∷ slots) = holds fd s + held fd slots

-- How often the descriptor is closed.
abbrev pub is_close : ℕ → Effect → ℕ
is_close fd (closes x) = one_if (x == fd)
is_close fd (replies status attached) = 0
is_close fd sleeps = 0

unfoldable pub closed_in : ℕ → List Effect → ℕ
closed_in fd [] = 0
closed_in fd (e ∷ effects) = is_close fd e + closed_in fd effects

closed_in-append :
    (fd : ℕ) (xs ys : List Effect) → closed_in fd (xs ++ ys) ≡ closed_in fd xs + closed_in fd ys
unfolding closed_in
closed_in-append fd [] ys = omega arith
closed_in-append fd (e ∷ xs) ys = omega (arith, closed_in-append fd xs ys)

sweep_keeps :
    (fd : ℕ) (sys : System) (slots : List SuspendedSession)
    → held fd (sweep_expired sys slots).0 + closed_in fd (sweep_expired sys slots).1 ≡ held fd slots
unfolding sweep_expired held closed_in
sweep_keeps fd sys [] = refl
sweep_keeps fd sys (s ∷ slots) = elim (Bool-cases s.in_use) [
  | inl e ↦ elim (Bool-cases (is_stale sys s)) [
    | inl f ↦ rw (e, f) (omega (arith, sweep_keeps fd sys slots))
    | inr f ↦ rw (e, f) (omega (arith, sweep_keeps fd sys slots))
  ]
  | inr e ↦ rw e (omega (arith, sweep_keeps fd sys slots))
]

pub next_index-cases :
    (o : Option ℕ) (k : ℕ) → next_index o ≡ some k → (j : ℕ) × (o ≡ some j) × (k ≡ suc j)
next_index-cases none k e = cc e
next_index-cases (some i) k e = (i, refl, ground (arith, e))

-- A slot that is written.
held-set :
    (fd : ℕ) (slots : List SuspendedSession) (i : ℕ) (s : SuspendedSession)
    → i < length slots
    → held fd (set slots i s) + holds fd (get_or slots i no_session) ≡ held fd slots + holds fd s
unfolding held
held-set fd [] i s h = absurd (omega arith)
held-set fd (t ∷ slots) zero s h = omega arith
held-set fd (t ∷ slots) (suc i) s h = omega (arith, held-set fd slots i s (omega arith))

pub free_slot_lem :
    (slots : List SuspendedSession) (i : ℕ)
    → free_slot slots ≡ some i
    → (i < length slots) × ((get_or slots i no_session).in_use ≡ false)
unfolding free_slot
free_slot_lem [] i e = cc e
free_slot_lem (t ∷ slots) i e = elim (Bool-cases t.in_use) [
  | inl u ↦
      let (j, f, k) =
        next_index-cases (free_slot slots) i
          (subst (λ b. (if not b then some 0 else next_index (free_slot slots)) ≡ some i) u e) in
      let ih = free_slot_lem slots j f in rw k (omega (arith, ih.0), ih.1)
  | inr u ↦
      let z : i ≡ 0 =
        index_eq
          (subst (λ b. (if not b then some 0 else next_index (free_slot slots)) ≡ some i) u e) in
      rw z (omega arith, u)
]
  where
    index_eq : some 0 ≡ some i → i ≡ 0
    index_eq z = ground (arith, z)

pub find_logon_lem :
    (slots : List SuspendedSession) (id i : ℕ)
    → find_logon slots id ≡ some i
    → (i < length slots)
      × (((get_or slots i no_session).in_use && ((get_or slots i no_session).logon_id == id))
          ≡ true)
unfolding find_logon
find_logon_lem [] id i e = cc e
find_logon_lem (t ∷ slots) id i e = elim (Bool-cases (t.in_use && (t.logon_id == id))) [
  | inr u ↦
      let (j, f, k) =
        next_index-cases (find_logon slots id) i
          (subst (λ b. (if b then some 0 else next_index (find_logon slots id)) ≡ some i) u e) in
      let ih = find_logon_lem slots id j f in rw k (omega (arith, ih.0), ih.1)
  | inl u ↦
      let z : i ≡ 0 =
        index_eq
          (subst (λ b. (if b then some 0 else next_index (find_logon slots id)) ≡ some i) u e) in
      rw z (omega arith, u)
]
  where
    index_eq : some 0 ≡ some i → i ≡ 0
    index_eq z = ground (arith, z)

holds-unused : (fd : ℕ) (s : SuspendedSession) → s.in_use ≡ false → holds fd s ≡ 0
holds-unused fd s e = rw e refl

holds-used : (fd : ℕ) (s : SuspendedSession) → s.in_use ≡ true → holds fd s ≡ one_if (s.be_fd == fd)
holds-used fd s e = rw e refl

pub option_cases : (o : Option ℕ) → (o ≡ none) ⊎ ((i : ℕ) × (o ≡ some i))
option_cases none = inl refl
option_cases (some i) = inr (i, refl)

-- The descriptor in the slots and the closings of it, after a call.
abbrev pub balance : ℕ → Manager × List Effect → ℕ
balance fd t = held fd t.0.suspended + closed_in fd t.1

balance-suspend_in :
    (fd : ℕ) (m : Manager) (s : SuspendedSession)
    → s.in_use ≡ true
    → balance fd (suspend_in m s (free_slot m.suspended))
      ≡ held fd m.suspended + one_if (s.be_fd == fd)
unfolding suspend_in closed_in
balance-suspend_in fd m s u = elim (option_cases (free_slot m.suspended)) [
  | inl e ↦ rw e (omega arith)
  | inr (i, e) ↦
      let f = free_slot_lem m.suspended i e in
      rw e (
        omega (
          arith,
          held-set fd m.suspended i s f.0,
          holds-unused fd (get_or m.suspended i no_session) f.1,
          holds-used fd s u,
        ))
]

balance-auto_suspend_in :
    (fd : ℕ) (m : Manager) (s : SuspendedSession)
    → s.in_use ≡ true
    → balance fd (auto_suspend_in m s (free_slot m.suspended))
      ≡ held fd m.suspended + one_if (s.be_fd == fd)
unfolding auto_suspend_in closed_in
balance-auto_suspend_in fd m s u = elim (option_cases (free_slot m.suspended)) [
  | inl e ↦ rw e (omega arith)
  | inr (i, e) ↦
      let f = free_slot_lem m.suspended i e in
      rw e (
        omega (
          arith,
          held-set fd m.suspended i s f.0,
          holds-unused fd (get_or m.suspended i no_session) f.1,
          holds-used fd s u,
        ))
]

pub and_left : (a b : Bool) → (a && b) ≡ true → a ≡ true
and_left true b e = refl
and_left false b e = cc e

balance-hand_over :
    (fd : ℕ) (sys : System) (m : Manager) (i : ℕ)
    → i < length m.suspended
    → (get_or m.suspended i no_session).in_use ≡ true
    → balance fd (hand_over sys m i) ≡ held fd m.suspended
unfolding hand_over closed_in
balance-hand_over fd sys m i h u = elim (Bool-cases (sys.fd_alive s.be_fd)) [
  | inl e ↦ rw e (omega (arith, written, holds-used fd s u))
  | inr e ↦ rw e (omega (arith, written, holds-used fd s u))
]
  where
    s : SuspendedSession
    s = get_or m.suspended i no_session

    s' : SuspendedSession
    s' = record s { in_use = false; arc_random = replicate 16 0 }

    written : held fd (set m.suspended i s') + holds fd s ≡ held fd m.suspended
    written = omega (arith, held-set fd m.suspended i s' h, holds-unused fd s' refl)

balance-resume_slot :
    (fd : ℕ) (sys : System) (m : Manager) (key : List ℕ) (id : ℕ)
    → balance fd (resume_slot sys m key (find_logon m.suspended id)) ≡ held fd m.suspended
unfolding resume_slot closed_in
balance-resume_slot fd sys m key id = elim (option_cases (find_logon m.suspended id)) [
  | inl e ↦ rw e (omega arith)
  | inr (i, e) ↦
      let f = find_logon_lem m.suspended id i e in
      elim (Bool-cases (verifies (sys.hmac (get_or m.suspended i no_session).arc_random) key)) [
        | inl v ↦ rw (e, v) (balance-hand_over fd sys m i f.0 (and_left _ _ f.1))
        | inr v ↦ rw (e, v) (omega arith)
      ]
]

balance-after_sweep :
    (fd : ℕ) (effects : List Effect) (t : Manager × List Effect)
    → balance fd (after_sweep effects t) ≡ balance fd t + closed_in fd effects
balance-after_sweep fd effects t = omega (arith, closed_in-append fd effects t.1)

-- What reaches the manager: a SUSPEND request with or without a descriptor, a RESUME request, and
-- the end of a worker that left a session behind.
pub data Call : Type 0 where
  suspend : List ℕ → Option ℕ → Call
  resume : List ℕ → Call
  abandon : ℕ → Call

unfoldable pub serve : System → Manager → Call → Manager × List Effect
unfolding handle_suspend handle_resume auto_suspend
serve sys m (suspend req fd) = handle_suspend sys m req fd
serve sys m (resume req) = handle_resume sys m req
serve sys m (abandon fd) = auto_suspend sys m fd

-- How often the call brings the descriptor.
abbrev pub brings : ℕ → Call → ℕ
brings fd (suspend req none) = 0
brings fd (suspend req (some x)) = one_if (x == fd)
brings fd (resume req) = 0
brings fd (abandon x) = one_if (x == fd)

calm_balance : (fd : ℕ) (m : Manager) → closed_in fd (calm m).1 ≡ 0
unfolding closed_in
calm_balance fd m = elim (Bool-cases (ltb 5 m.resume_fail_count)) [
  | inl e ↦ rw e refl
  | inr e ↦ rw e refl
]

pub balance-serve :
    (fd : ℕ) (sys : System) (m : Manager) (c : Call)
    → balance fd (serve sys m c) ≡ held fd m.suspended + brings fd c
unfolding serve handle_suspend handle_resume auto_suspend closed_in
balance-serve fd sys m (suspend req none) = omega arith
balance-serve fd sys m (suspend req (some x)) = elim (Bool-cases (ltb (length req) 24)) [
  | inl e ↦ rw e (omega arith)
  | inr e ↦
      let swept = sweep_expired sys m.suspended in
      let s : SuspendedSession = record {
        in_use = true;
        logon_id = request_id req;
        be_fd = x;
        suspended_at = sys.time;
        arc_random = request_key req;
      } in
      let m' : Manager = record m { suspended = swept.0 } in
      rw e (
        omega (
          arith,
          balance-after_sweep fd swept.1 (suspend_in m' s (free_slot swept.0)),
          balance-suspend_in fd m' s refl,
          sweep_keeps fd sys m.suspended,
        ))
]
balance-serve fd sys m (resume req) = elim (Bool-cases (ltb (length req) 24)) [
  | inl e ↦ rw e (omega arith)
  | inr e ↦
      let swept = sweep_expired sys m.suspended in
      let m' : Manager = record (calm m).0 { suspended = swept.0 } in
      rw e (
        omega (
          arith,
          balance-after_sweep fd ((calm m).1 ++ swept.1)
              (resume_slot sys m' (request_key req) (find_logon swept.0 (request_id req))),
          balance-resume_slot fd sys m' (request_key req) (request_id req),
          sweep_keeps fd sys m.suspended,
          closed_in-append fd (calm m).1 swept.1,
          calm_balance fd m,
        ))
]
balance-serve fd sys m (abandon x) =
    let swept = sweep_expired sys m.suspended in
    let s : SuspendedSession = record {
      in_use = true;
      logon_id = sys.random_id;
      be_fd = x;
      suspended_at = sys.time;
      arc_random = replicate 16 0;
    } in
    let m' : Manager = record m { suspended = swept.0 } in
    omega (
      arith,
      balance-after_sweep fd swept.1 (auto_suspend_in m' s (free_slot swept.0)),
      balance-auto_suspend_in fd m' s refl,
      sweep_keeps fd sys m.suspended,
    )

-- A sequence of calls, each with what the system answers in it.
unfoldable pub serve_all : Manager → List (System × Call) → Manager × List Effect
serve_all m [] = (m, [])
serve_all m ((sys, c) ∷ calls) =
    let first = serve sys m c in let rest = serve_all first.0 calls in (rest.0, first.1 ++ rest.1)

unfoldable pub brought : ℕ → List (System × Call) → ℕ
brought fd [] = 0
brought fd ((sys, c) ∷ calls) = brings fd c + brought fd calls

-- In every sequence of suspensions, resumptions and deaths of workers, whatever the system answers
-- in it, no descriptor is lost and none is closed twice: each one was in the slots or was brought
-- as often as it is in the slots at the end or has been closed.
pub serve_all_balance :
    (fd : ℕ) (m : Manager) (calls : List (System × Call))
    → held fd (serve_all m calls).0.suspended + closed_in fd (serve_all m calls).1
      ≡ held fd m.suspended + brought fd calls
unfolding serve_all brought closed_in
serve_all_balance fd m [] = omega arith
serve_all_balance fd m ((sys, c) ∷ calls) =
    let first = serve sys m c in
    omega (
      arith,
      balance-serve fd sys m c,
      serve_all_balance fd first.0 calls,
      closed_in-append fd first.1 (serve_all first.0 calls).1,
    )
