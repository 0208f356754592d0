-- ===== src/Sess/Return.antt =====
-- src/sessionmgr/sessionmgr.c: a session that was suspended is handed back to its owner.
use mathlib.Core.Path.{subst}
use rdpserver.Base.{
  ℕ, zero, suc, ◌+◌, ◌-◌, ◌≤◌, ◌<◌, ◌≡◌, refl, sym, ap, ◌∙◌, arith, Bool, true, false, not, ◌&&◌,
  ◌||◌, Option, none, some,
}
use rdpserver.Base.{append_assoc}
use rdpserver.Base.{
  List, [], ◌∷◌, ◌++◌, ltb, ◌==◌, if◌then◌else◌, get_or, set, length, get_or-set_self, inl, inr,
  ◌⊎◌, Bool-cases,
}
use rdpserver.Sess.Throttle.{next_index}
use rdpserver.Sess.Limit.{same_refl}
use rdpserver.Sess.Slots.{
  SuspendedSession, Manager, System, Effect, closes, replies, sleeps, is_stale, sweep_expired,
  free_slot, find_logon, no_session, request_id, request_key,
}
use rdpserver.Sess.Slots.{suspend_in, handle_suspend, hand_over, resume_slot, calm, handle_resume}
use rdpserver.Sess.Descriptors.{option_cases, free_slot_lem, next_index-cases}
use rdpserver.Sess.Granted.{swept_slot, sweep_cons}

-- The first answer among the effects: its status and its descriptor.
unfoldable pub answer_of : List Effect → Option (ℕ × Option ℕ)
answer_of [] = none
answer_of (closes fd ∷ effects) = answer_of effects
answer_of (replies status fd ∷ effects) = some (status, fd)
answer_of (sleeps ∷ effects) = answer_of effects

abbrev pub is_session : ℕ → SuspendedSession → Bool
is_session id s = s.in_use && (s.logon_id == id)

swept_slot-other :
    (sys : System) (id : ℕ) (s : SuspendedSession)
    → is_session id s ≡ false
    → is_session id (swept_slot sys s) ≡ false
swept_slot-other sys id s e = elim (Bool-cases s.in_use) [
  | inl u ↦ elim (Bool-cases (is_stale sys s)) [
    | inl f ↦ rw (u, f) refl
    | inr f ↦ rw (u, f) (sym (ap (λ b. b && (s.logon_id == id)) u) ∙ e)
  ]
  | inr u ↦ rw u refl
]

swept_slot-fresh :
    (sys : System) (s : SuspendedSession) → is_stale sys s ≡ false → swept_slot sys s ≡ s
swept_slot-fresh sys s f = elim (Bool-cases s.in_use) [ inl u ↦ rw (u, f) refl | inr u ↦ rw u refl ]

find_logon-cons :
    (s : SuspendedSession) (slots : List SuspendedSession) (id : ℕ) (o : Option ℕ)
    → find_logon (s ∷ slots) id ≡ o
    → ((is_session id s ≡ true) × (o ≡ some 0))
      ⊎ ((is_session id s ≡ false) × (next_index (find_logon slots id) ≡ o))
unfolding find_logon
find_logon-cons s slots id o e = elim (Bool-cases (is_session id s)) [
  | inl g ↦
      inl (g, sym (subst (λ b. (if b then some 0 else next_index (find_logon slots id)) ≡ o) g e))
  | inr g ↦ inr (g, subst (λ b. (if b then some 0 else next_index (find_logon slots id)) ≡ o) g e)
]

next_index-none : (o : Option ℕ) → next_index o ≡ none → o ≡ none
next_index-none none e = refl
next_index-none (some i) e = cc e

find_other :
    (s : SuspendedSession) (slots : List SuspendedSession) (id : ℕ)
    → is_session id s ≡ false
    → find_logon (s ∷ slots) id ≡ next_index (find_logon slots id)
unfolding find_logon
find_other s slots id e = rw e refl

find_here :
    (s : SuspendedSession) (slots : List SuspendedSession) (id : ℕ)
    → is_session id s ≡ true
    → find_logon (s ∷ slots) id ≡ some 0
unfolding find_logon
find_here s slots id e = rw e refl

swept_nothing : (sys : System) (id : ℕ) → find_logon (sweep_expired sys []).0 id ≡ none
unfolding sweep_expired find_logon
swept_nothing sys id = refl

not_found : (id i : ℕ) → find_logon [] id ≡ some i → ⊥
unfolding find_logon
not_found id i e = cc e

-- An id that is not in the slots is not in the swept ones.
find_logon-sweep_none :
    (sys : System) (slots : List SuspendedSession) (id : ℕ)
    → find_logon slots id ≡ none
    → find_logon (sweep_expired sys slots).0 id ≡ none
find_logon-sweep_none sys [] id e = swept_nothing sys id
find_logon-sweep_none sys (s ∷ slots) id e = elim (find_logon-cons s slots id none e) [
  | inl (g, z) ↦ cc z
  | inr (g, r) ↦
      ap (λ x. find_logon x id) (sweep_cons sys s slots)
      ∙ find_other (swept_slot sys s) (sweep_expired sys slots).0 id (swept_slot-other sys id s g)
      ∙ ap next_index (find_logon-sweep_none sys slots id (next_index-none (find_logon slots id) r))
]

-- A session that is put into a slot is the one of its id.
find_logon-set :
    (slots : List SuspendedSession) (i id : ℕ) (s : SuspendedSession)
    → find_logon slots id ≡ none
    → i < length slots
    → is_session id s ≡ true
    → find_logon (set slots i s) id ≡ some i
find_logon-set [] i id s e h g = absurd (omega arith)
find_logon-set (t ∷ slots) zero id s e h g = find_here s slots id g
find_logon-set (t ∷ slots) (suc i) id s e h g = elim (find_logon-cons t slots id none e) [
  | inl (k, z) ↦ cc z
  | inr (k, r) ↦
      find_other t (set slots i s) id k
      ∙ ap next_index
          (find_logon-set slots i id s (next_index-none (find_logon slots id) r) (omega arith) g)
]

-- A session that is found and is not stale stays where it is.
find_logon-sweep :
    (sys : System) (slots : List SuspendedSession) (id i : ℕ)
    → find_logon slots id ≡ some i
    → is_stale sys (get_or slots i no_session) ≡ false
    → (find_logon (sweep_expired sys slots).0 id ≡ some i)
      × (get_or (sweep_expired sys slots).0 i no_session ≡ get_or slots i no_session)
find_logon-sweep sys [] id i e f = absurd (not_found id i e)
find_logon-sweep sys (s ∷ slots) id zero e f = elim (find_logon-cons s slots id (some 0) e) [
  | inl (g, z) ↦
      let c =
        sweep_cons sys s slots
        ∙ ap (λ x. x ∷ (sweep_expired sys slots).0) (swept_slot-fresh sys s f) in
      (
        ap (λ x. find_logon x id) c ∙ find_here s (sweep_expired sys slots).0 id g,
        ap (λ x. get_or x 0 no_session) c,
      )
  | inr (g, r) ↦ let (j, o, k) = next_index-cases (find_logon slots id) 0 r in absurd (omega arith)
]
find_logon-sweep sys (s ∷ slots) id (suc i) e f =
    elim (find_logon-cons s slots id (some (suc i)) e) [
      | inl (g, z) ↦ absurd (suc_ne z)
      | inr (g, r) ↦
          let (j, o, k) = next_index-cases (find_logon slots id) (suc i) r in
          let ih =
            find_logon-sweep sys slots id i (o ∙ ap (λ n. some n) {x = j} {y = i} (omega arith))
              f in
          let c = sweep_cons sys s slots in
          (
            ap (λ x. find_logon x id) c
                ∙ find_other (swept_slot sys s) (sweep_expired sys slots).0 id
                    (swept_slot-other sys id s g)
                ∙ ap next_index ih.0,
            ap (λ x. get_or x (suc i) no_session) c ∙ ih.1,
          )
    ]
  where
    suc_ne : some (suc i) ≡ some 0 → ⊥
    suc_ne z = ground (arith, z)

answer_of-sweep :
    (sys : System) (slots : List SuspendedSession) (effects : List Effect)
    → answer_of ((sweep_expired sys slots).1 ++ effects) ≡ answer_of effects
unfolding sweep_expired answer_of
answer_of-sweep sys [] effects = refl
answer_of-sweep sys (s ∷ slots) effects = elim (Bool-cases s.in_use) [
  | inl u ↦ elim (Bool-cases (is_stale sys s)) [
    | inl f ↦ rw (u, f) (answer_of-sweep sys slots effects)
    | inr f ↦ rw (u, f) (answer_of-sweep sys slots effects)
  ]
  | inr u ↦ rw u (answer_of-sweep sys slots effects)
]

answer_of-calm :
    (m : Manager) (effects : List Effect) → answer_of ((calm m).1 ++ effects) ≡ answer_of effects
unfolding answer_of
answer_of-calm m effects = elim (Bool-cases (ltb 5 m.resume_fail_count)) [
  | inl e ↦ rw e refl
  | inr e ↦ rw e refl
]

-- The request's answer where its session is in a slot, fresh and alive.
handed_back :
    (sys : System) (m : Manager) (req : List ℕ) (i : ℕ)
    → 24 ≤ length req
    → find_logon m.suspended (request_id req) ≡ some i
    → is_stale sys (get_or m.suspended i no_session) ≡ false
    → sys.hmac (get_or m.suspended i no_session).arc_random ≡ some (request_key req)
    → sys.fd_alive (get_or m.suspended i no_session).be_fd ≡ true
    → answer_of (handle_resume sys m req).1 ≡ some (0, some (get_or m.suspended i no_session).be_fd)
unfolding handle_resume resume_slot hand_over answer_of
handed_back sys m req i len e f v a =
    let t = find_logon-sweep sys m.suspended (request_id req) i e f in
    rw (enough, append_assoc (calm m).1 (sweep_expired sys m.suspended).1)
      (answer_of-calm m _
        ∙ answer_of-sweep sys m.suspended _
        ∙ rw (t.0, t.1, v, same_refl (request_key req), a) refl)
  where
    enough : ltb (length req) 24 ≡ false
    enough = ground arith

-- The session that a SUSPEND request puts into a slot.
abbrev pub session_of : System → List ℕ → ℕ → SuspendedSession
session_of sys req fd = record {
  in_use = true;
  logon_id = request_id req;
  be_fd = fd;
  suspended_at = sys.time;
  arc_random = request_key req;
}

failing : (fd : ℕ) → answer_of (closes fd ∷ replies 1 none ∷ []) ≡ some (0, none) → ⊥
unfolding answer_of
failing fd z = ground (arith, z)

-- A SUSPEND request that is answered by OK has put its session into a slot.
suspended_at_slot :
    (sys : System) (m : Manager) (req : List ℕ) (fd : ℕ)
    → 24 ≤ length req
    → answer_of (handle_suspend sys m req (some fd)).1 ≡ some (0, none)
    → (i : ℕ) × (free_slot (sweep_expired sys m.suspended).0 ≡ some i)
      × ((handle_suspend sys m req (some fd)).0.suspended
          ≡ set (sweep_expired sys m.suspended).0 i (session_of sys req fd))
unfolding handle_suspend suspend_in
suspended_at_slot sys m req fd len ans =
    elim (option_cases (free_slot (sweep_expired sys m.suspended).0)) [
      | inl e ↦ absurd (refused (sym (answer_of-sweep sys m.suspended _) ∙ refusal e))
      | inr (i, e) ↦ (i, e, rw (enough, e) refl)
    ]
  where
    enough : ltb (length req) 24 ≡ false
    enough = ground arith

    refusal :
        free_slot (sweep_expired sys m.suspended).0 ≡ none
        → answer_of ((sweep_expired sys m.suspended).1 ++ (closes fd ∷ replies 1 none ∷ []))
          ≡ some (0, none)
    refusal e = subst (λ t. answer_of t ≡ some (0, none)) (rw (enough, e) refl) ans

    refused : answer_of (closes fd ∷ replies 1 none ∷ []) ≡ some (0, none) → ⊥
    refused z = failing fd z

-- After a SUSPEND request that was answered by OK, with an id that was not suspended before, a
-- RESUME request for this id that is the next call of the manager, no more than 120 seconds later,
-- with the verifier for the random bits of the suspension and while the descriptor is alive, is
-- answered by OK and with this descriptor.
pub handle_resume-handle_suspend :
    (sys later : System) (m : Manager) (req back : List ℕ) (fd : ℕ)
    → 24 ≤ length req
    → find_logon m.suspended (request_id req) ≡ none
    → answer_of (handle_suspend sys m req (some fd)).1 ≡ some (0, none)
    → 24 ≤ length back
    → request_id back ≡ request_id req
    → later.sweep_time ≤ sys.time + 120
    → later.sweep_alive fd ≡ true
    → later.fd_alive fd ≡ true
    → later.hmac (request_key req) ≡ some (request_key back)
    → answer_of (handle_resume later (handle_suspend sys m req (some fd)).0 back).1
      ≡ some (0, some fd)
handle_resume-handle_suspend sys later m req back fd len unknown ans len2 same_id soon swept_alive
      alive key =
    let (i, free, placed) = suspended_at_slot sys m req fd len ans in
    let s = session_of sys req fd in
    let slots = (sweep_expired sys m.suspended).0 in
    let inside = (free_slot_lem slots i free).0 in
    let there =
      ap (λ x. get_or x i no_session) placed ∙ get_or-set_self slots i s no_session inside in
    let found =
      ap (λ x. find_logon x (request_id back)) placed
      ∙ ap (λ n. find_logon (set slots i s) n) same_id
      ∙ find_logon-set slots i (request_id req) s
          (find_logon-sweep_none sys m.suspended (request_id req) unknown) inside
          (own_id (request_id req)) in
    handed_back later (handle_suspend sys m req (some fd)).0 back i len2 found
      (subst (λ x. is_stale later x ≡ false) (sym there) (fresh soon swept_alive))
      (subst (λ x. later.hmac x.arc_random ≡ some (request_key back)) (sym there) key)
      (subst (λ x. later.fd_alive x.be_fd ≡ true) (sym there) alive)
    ∙ ap (λ x. some (0, some x.be_fd)) there
  where
    own_id : (n : ℕ) → (n == n) ≡ true
    own_id n = ground arith

    fresh :
        later.sweep_time ≤ sys.time + 120
        → later.sweep_alive fd ≡ true
        → (ltb 120 (later.sweep_time - sys.time) || not (later.sweep_alive fd)) ≡ false
    fresh h k = ground (arith, k)
