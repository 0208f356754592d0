-- ===== src/Base/Slice.antt =====
-- Parsing code: functions that read a byte slice and may return -1. The third outcome, `fault`,
-- is no value of the C code: it stands for a read outside the slice that the function was given,
-- a store outside an array, and a loop that outlasts its fuel.
use Prim.Native.Nat.{ℕ, zero, suc, ◌+◌, ◌-◌, ◌%◌, ◌<◌, ◌^◌}
use mathlib.Core.Path.{◌≡◌, refl, subst}
use mathlib.Core.Logic.{◌≢◌}
use mathlib.Core.Bool.{Bool, true, false}
use mathlib.Core.List.{List, [], ◌∷◌}
use native.Mathlib.Omega.{arith}
use rdpserver.Base.Tests.{if◌then◌else◌}
use rdpserver.Base.Lists.{length, get_or, All}

pub data Read {ℓ} (A : Type ℓ) : Type ℓ where
  ok : A → Read A
  err fault : Read A

infixl 5 ◌>>=◌ ◌>>◌
abbrev pub ◌>>=◌ {ℓ κ} : {A : Type ℓ} {B : Type κ} → Read A → (A → Read B) → Read B
ok a >>= f = f a
err >>= f = err
fault >>= f = fault

abbrev pub ◌>>◌ {ℓ} : {B : Type ℓ} → Read (Unit {0}) → Read B → Read B
m >> k = m >>= λ _. k

-- `if (!b) return -1;`
abbrev pub guard : Bool → Read (Unit {0})
guard true = ok tt
guard false = err

-- `p[i]`
abbrev pub at : List ℕ → ℕ → Read ℕ
at [] i = fault
at (x ∷ xs) zero = ok x
at (x ∷ xs) (suc i) = at xs i

abbrev pub IsByte : ℕ → Type 0
IsByte b = b < 256

-- `size_t` and 32-bit arithmetic.
abbrev pub sub_size : ℕ → ℕ → ℕ
sub_size a b = (a + 2 ^ 64 - b) % 2 ^ 64

-- No read outside the slice, and a successful result meets `Q`: there is no case for `fault`.
pub data Ensures {ℓ} {A : Type ℓ} (Q : A → Type 0) : Read A → Type ℓ where
  returns : {a : A} → Q a → Ensures Q (ok a)
  refused : Ensures Q err

pub at_lt : (p : List ℕ) (i : ℕ) → i < length p → at p i ≡ ok (get_or p i 0)
at_lt [] i h = absurd (omega arith)
at_lt (x ∷ p) zero h = refl
at_lt (x ∷ p) (suc i) h = at_lt p i (omega arith)

pub get_or-IsByte : (p : List ℕ) (i : ℕ) → All IsByte p → get_or p i 0 < 256
get_or-IsByte [] i h = omega arith
get_or-IsByte (x ∷ p) zero h = h.0
get_or-IsByte (x ∷ p) (suc i) h = get_or-IsByte p i h.1

abbrev Held {ℓ} : {A : Type ℓ} → (A → Type 0) → Read A → Type 0
Held Q (ok a) = Q a
Held Q _ = Unit {0}

pub Ensures-ok {ℓ} :
    {A : Type ℓ} {Q : A → Type 0} {m : Read A} {a : A} → Ensures Q m → m ≡ ok a → Q a
Ensures-ok {Q = Q} (returns h) e = subst (λ r. Held Q r) e h
Ensures-ok refused e = cc

pub Ensures-ne-fault {ℓ} : {A : Type ℓ} {Q : A → Type 0} {m : Read A} → Ensures Q m → m ≢ fault
Ensures-ne-fault (returns h) e = cc
Ensures-ne-fault refused e = cc

pub Ensures-weaken {ℓ} :
    {A : Type ℓ} {P Q : A → Type 0} {m : Read A} → ((a : A) → P a → Q a) → Ensures P m → Ensures Q m
Ensures-weaken k (returns {a = a} h) = returns (k a h)
Ensures-weaken k refused = refused

-- The rules for the steps of a `do` block.
pub bind_then {ℓ κ} :
    {A : Type ℓ} {B : Type κ} {P : A → Type 0} {Q : B → Type 0} {m : Read A} {k : A → Read B}
    → Ensures P m
    → ((a : A) → P a → Ensures Q (k a))
    → Ensures Q (m >>= k)
bind_then (returns {a = a} h) f = f a h
bind_then refused f = refused

pub guard_then {ℓ} :
    {A : Type ℓ} {Q : A → Type 0} (b : Bool) {k : Read A}
    → (b ≡ true → Ensures Q k)
    → Ensures Q (guard b >> k)
guard_then true h = h refl
guard_then false h = refused

pub at_then {ℓ} :
    {A : Type ℓ} {Q : A → Type 0} (p : List ℕ) (i : ℕ) {k : ℕ → Read A}
    → i < length p
    → ((x : ℕ) → x ≡ get_or p i 0 → Ensures Q (k x))
    → Ensures Q (at p i >>= k)
at_then [] i h q = absurd (omega arith)
at_then (x ∷ p) zero h q = q x refl
at_then (x ∷ p) (suc i) h q = at_then p i (omega arith) q

pub if_then {ℓ} :
    {A : Type ℓ} {Q : A → Type 0} (t : Bool) {m k : Read A}
    → (t ≡ true → Ensures Q m)
    → (t ≡ false → Ensures Q k)
    → Ensures Q (if t then m else k)
if_then true f g = f refl
if_then false f g = g refl
