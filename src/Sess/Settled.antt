-- ===== src/Sess/Settled.antt =====
-- src/sessionmgr/sessionmgr.c: what one client brings and gets is given back at its end.
use rdpserver.Base.{ℕ, ◌+◌, ◌≡◌, refl, ap, arith, Bool, not, ◌&&◌, Option, none, some}
use rdpserver.Base.{List, [], ◌∷◌, ◌++◌, inl, inr, Bool-cases, ◌>>=◌, Read, ok}
use rdpserver.Sess.Throttle.{AuthThrottle}
use rdpserver.Sess.Slots.{Manager, System, auto_suspend}
use rdpserver.Sess.Requests.{}
use rdpserver.Sess.Descriptors.{held, abandon, serve, balance-serve}
use rdpserver.Sess.Client.{Frame, Connection, Step}
use rdpserver.Sess.Client.{ending, handle_frames, settle, connected, handle_client}
use rdpserver.Sess.Runs.{Runs, on_request-Runs, runs}
use rdpserver.Sess.Ledger.{
  total, one_of, closing_of, opening_of, release_of, login_of, IsBalanced, then_step, either,
  map-does-Handles, from_Handles, ending_lem, nothing-IsBalanced,
}
use rdpserver.Sess.Client.{ClientEffect, taken_fd, received, receipts}
use rdpserver.Sess.Ledger.{IsServed, count_in, receipts-Handles, total-append}
use rdpserver.Sess.Runs.{map-Runs}
use rdpserver.Base.{drop}
use rdpserver.Sess.Ownership.{handle_frame-Runs}

-- The descriptors that a round with these bytes leaves behind: those behind the first one, and where
-- it is the last round, all of them.
abbrev pub lost_in : ℕ → List ℕ → List ℕ → ℕ → ℕ
lost_in fd [] fds rest = count_in fd fds
lost_in fd (op ∷ buf) fds rest = count_in fd (drop 1 fds) + rest

-- The same of all rounds.
unfoldable pub lost : ℕ → List Frame → ℕ
lost fd [] = 0
lost fd (f ∷ frames) = lost_in fd f.buf f.recv_fds (lost fd frames)

count_in-taken :
    (fd : ℕ) (fds : List ℕ) → count_in fd fds ≡ one_of fd (taken_fd fds) + count_in fd (drop 1 fds)
unfolding count_in
count_in-taken fd [] = refl
count_in-taken fd (x ∷ fds) = refl

then-Runs :
    {fd a got n l : ℕ} {c : Connection} {m : Read Step} (more : ℕ) (k : Connection → Read Step)
    → n ≡ got + more
    → Runs (IsServed fd a got 0 c) m
    → ((d : Connection) → Runs (IsServed fd a 0 l d) (k d))
    → Runs (IsServed fd a n (more + l) c) (m >>= λ t. k t.0 >>= λ u. ok (u.0, t.1 ++ u.1))
then-Runs {fd} {a} {got} {n} {l} {c} more k e (runs {t = t} p) h = both (k t.0) (h t.0)
  where
    both :
        (r : Read Step)
        → Runs (IsServed fd a 0 l t.0) r
        → Runs (IsServed fd a n (more + l) c) (r >>= λ u. ok (u.0, t.1 ++ u.1))
    both r (runs {t = u} q) = runs (record {
      fds = omega (
        arith,
        e,
        p.fds,
        q.fds,
        total-append (closing_of fd) t.1 u.1,
        total-append (opening_of fd) t.1 u.1,
      );
      handles = omega (
        arith,
        p.handles,
        q.handles,
        total-append (release_of a) t.1 u.1,
        total-append (login_of a) t.1 u.1,
      );
    })

received-IsServed :
    (fd a l : ℕ) (fds : List ℕ) (c : Connection) (t : Step)
    → IsServed fd a (count_in fd fds) l c t
    → IsServed fd a 0 l c (received fds t)
received-IsServed fd a l fds c t p =
    let k = receipts-Handles fd a fds in
    record {
      fds = omega (
        arith,
        p.fds,
        k.closings,
        k.openings,
        total-append (closing_of fd) (receipts fds) t.1,
        total-append (opening_of fd) (receipts fds) t.1,
      );
      handles = omega (
        arith,
        p.handles,
        k.no_release,
        k.no_login,
        total-append (release_of a) (receipts fds) t.1,
        total-append (login_of a) (receipts fds) t.1,
      );
    }

handle_frames-Runs :
    (fd a : ℕ) (frames : List Frame) (c : Connection)
    → Runs (IsServed fd a 0 (lost fd frames) c) (handle_frames frames c)
unfolding handle_frames lost total
handle_frames-Runs fd a [] c = runs (record { fds = omega arith; handles = omega arith })
handle_frames-Runs fd a (f ∷ frames) c =
    let rest = lost fd frames in
    map-Runs (received f.recv_fds)
      (λ t p. received-IsServed fd a (lost_in fd f.buf f.recv_fds rest) f.recv_fds c t p)
      (on_request-Runs
        (λ buf. IsServed fd a (count_in fd f.recv_fds) (lost_in fd buf f.recv_fds rest) c) _ c f.buf
        (record { fds = omega arith; handles = omega arith })
        λ op _.
          then-Runs (count_in fd (drop 1 f.recv_fds)) (λ d. handle_frames frames d)
            (count_in-taken fd f.recv_fds) (handle_frame-Runs fd a op f c)
            (λ d. handle_frames-Runs fd a frames d))

settle-IsBalanced :
    (fd a : ℕ) (sys : System) (alive : Bool) (c : Connection) (o : Option ℕ)
    → c.retained_fd ≡ o
    → IsBalanced fd a c (settle sys alive c o)
unfolding settle serve total
settle-IsBalanced fd a sys alive c none e = nothing-IsBalanced fd a c
settle-IsBalanced fd a sys alive c (some x) e =
    either (not c.spawn_done && alive)
      (from_Handles (map-does-Handles fd a (auto_suspend sys c.manager x).1) refl
        (omega (arith, ap (one_of fd) e, balance-serve fd sys c.manager (abandon x))))
      (record { fds = omega (arith, ap (one_of fd) e); handles = omega arith })

settle-retained :
    (sys : System) (alive : Bool) (c : Connection) (o : Option ℕ)
    → c.retained_fd ≡ o
    → (settle sys alive c o).0.retained_fd ≡ none
unfolding settle
settle-retained sys alive c none e = e
settle-retained sys alive c (some x) e = elim (Bool-cases (not c.spawn_done && alive)) [
  | inl b ↦ rw b refl
  | inr b ↦ rw b refl
]

settle-auth :
    (sys : System) (alive : Bool) (c : Connection) (o : Option ℕ)
    → (settle sys alive c o).0.auth ≡ c.auth
unfolding settle
settle-auth sys alive c none = refl
settle-auth sys alive c (some x) = elim (Bool-cases (not c.spawn_done && alive)) [
  | inl b ↦ rw b refl
  | inr b ↦ rw b refl
]

ending-IsBalanced :
    (fd a : ℕ) (c : Connection) (o : Option ℕ)
    → c.auth ≡ o
    → IsBalanced fd a c (record c { auth = none }, ending o)
ending-IsBalanced fd a c o e =
    let k = ending_lem fd a o in
    record { fds = omega (arith, k.0, k.1); handles = omega (arith, k.2, k.3, ap (one_of a) e) }

-- The end of the client: every descriptor is in a slot, closed, or lost, which happens `n` times,
-- and every login has ended.
pub record IsSettled (fd a n : ℕ) (m : Manager) (t : Step) : Type 0 where
  pub fds :
      held fd t.0.manager.suspended + total (closing_of fd) t.1 + n
      ≡ held fd m.suspended + total (opening_of fd) t.1
  pub handles : total (release_of a) t.1 ≡ total (login_of a) t.1

-- Whatever a client sends, whatever the system answers and however the client ends, the manager
-- comes to the end of it. Each descriptor was in the slots, came with a message, came from a session
-- that was started or from dup(2) as often as it is in the slots at the end, has been closed, or is
-- lost; and lost are exactly those that came behind another one in a message, or with the message
-- without bytes that ends the loop. Each login that the backend gave has been ended or freed as
-- often as it was given.
pub handle_client_balance :
    (fd a : ℕ) (sys : System) (alive : Bool) (frames : List Frame) (m : Manager)
    (table : List AuthThrottle)
    → Runs (IsSettled fd a (lost fd frames) m) (handle_client sys alive frames m table)
unfolding handle_client
handle_client_balance fd a sys alive frames m table =
    finished (handle_frames frames (connected m table))
      (handle_frames-Runs fd a frames (connected m table))
  where
    finished :
        (r : Read Step)
        → Runs (IsServed fd a 0 (lost fd frames) (connected m table)) r
        → Runs (IsSettled fd a (lost fd frames) m) (
            r >>= λ t.
            let u = settle sys alive t.0 t.0.retained_fd in
            ok (record u.0 { auth = none }, t.1 ++ (u.1 ++ ending t.0.auth)))
    finished r (runs {t = t} p) =
        let s = settle-IsBalanced fd a sys alive t.0 t.0.retained_fd refl in
        let e =
          ending-IsBalanced fd a (settle sys alive t.0 t.0.retained_fd).0 t.0.auth
            (settle-auth sys alive t.0 t.0.retained_fd) in
        let q = then_step s e in
        let last : List ClientEffect =
          (settle sys alive t.0 t.0.retained_fd).1 ++ ending t.0.auth in
        runs (record {
          fds = omega (
            arith,
            p.fds,
            q.fds,
            total-append (closing_of fd) t.1 last,
            total-append (opening_of fd) t.1 last,
            ap (one_of fd) (settle-retained sys alive t.0 t.0.retained_fd refl),
          );
          handles = omega (
            arith,
            p.handles,
            q.handles,
            total-append (release_of a) t.1 last,
            total-append (login_of a) t.1 last,
          );
        })
