-- ===== src/Sess/Granted.antt =====
-- src/sessionmgr/sessionmgr.c: who is handed a suspended session.
use rdpserver.Base.{ℕ, ◌≡◌, refl, Bool, true, false, not, ◌&&◌, none, some}
use rdpserver.Base.{List, ◌∷◌, ◌==◌, if◌then◌else◌, get_or, inl, inr, Bool-cases}
use rdpserver.Sess.Slots.{
  SuspendedSession, System, Effect, closes, replies, sleeps, is_stale, sweep_expired, no_session,
}
use rdpserver.Sess.Slots.{verifies}

-- The slot holds a session of this id that is neither too old nor dead, the key is the verifier
-- of its random bits, and its descriptor is alive.
abbrev pub may_get : System → ℕ → List ℕ → SuspendedSession → Bool
may_get sys id key s =
    s.in_use
    && (s.logon_id == id)
    && not (is_stale sys s)
    && verifies (sys.hmac s.arc_random) key
    && sys.fd_alive s.be_fd

-- A descriptor is sent only if it belongs to a slot that the request may get.
abbrev pub IsGranted : System → List SuspendedSession → ℕ → List ℕ → Effect → Type 0
IsGranted sys slots id key (closes fd) = Unit
IsGranted sys slots id key (replies status none) = Unit
IsGranted sys slots id key (replies status (some fd)) =
    (i : ℕ) × (may_get sys id key (get_or slots i no_session) ≡ true)
    × ((get_or slots i no_session).be_fd ≡ fd)
IsGranted sys slots id key sleeps = Unit

abbrev pub swept_slot : System → SuspendedSession → SuspendedSession
swept_slot sys s =
    if not s.in_use then s else if is_stale sys s then record s { in_use = false } else s

pub sweep_cons :
    (sys : System) (s : SuspendedSession) (slots : List SuspendedSession)
    → (sweep_expired sys (s ∷ slots)).0 ≡ swept_slot sys s ∷ (sweep_expired sys slots).0
unfolding sweep_expired
sweep_cons sys s slots = elim (Bool-cases s.in_use) [
  | inl e ↦ elim (Bool-cases (is_stale sys s)) [ inl f ↦ rw (e, f) refl | inr f ↦ rw (e, f) refl ]
  | inr e ↦ rw e refl
]

pub swept_slot_lem :
    (sys : System) (s : SuspendedSession)
    → (swept_slot sys s).in_use ≡ true
    → (swept_slot sys s ≡ s) × (is_stale sys s ≡ false)
swept_slot_lem sys s = by_cases s.in_use (is_stale sys s) refl
  where
    by_cases :
        (used stale : Bool)
        → s.in_use ≡ used
        → (if not used then s else if stale then record s { in_use = false } else s).in_use ≡ true
        → ((if not used then s else if stale then record s { in_use = false } else s) ≡ s)
          × (stale ≡ false)
    by_cases true true e u = cc u
    by_cases true false e u = (refl, refl)
    by_cases false stale e u = cc (e, u)
