-- ===== src/Base/Lists.antt =====
-- Byte arrays and slices as lists indexed by native numbers.
use Prim.Native.Nat.{ℕ, zero, suc, ◌+◌, ◌-◌, ◌≤◌, ◌<◌, min}
use mathlib.Core.Path.{◌≡◌, refl, ap, ◌∙◌}
use mathlib.Core.Logic.{◌≢◌}
use mathlib.Core.List.{List, [], ◌∷◌, ◌++◌, append-nil, append_assoc}
use native.Mathlib.Omega.{arith}

module _ {ℓ} {A : Type ℓ} where
  abbrev pub length : List A → ℕ
  length [] = 0
  length (x ∷ xs) = suc (length xs)

  abbrev pub get_or : List A → ℕ → A → A
  get_or [] i d = d
  get_or (x ∷ xs) zero d = x
  get_or (x ∷ xs) (suc i) d = get_or xs i d

  -- A write out of bounds changes nothing.
  abbrev pub set : List A → ℕ → A → List A
  set [] i v = []
  set (x ∷ xs) zero v = v ∷ xs
  set (x ∷ xs) (suc i) v = x ∷ set xs i v

  abbrev pub take : ℕ → List A → List A
  take zero xs = []
  take (suc n) [] = []
  take (suc n) (x ∷ xs) = x ∷ take n xs

  abbrev pub drop : ℕ → List A → List A
  drop zero xs = xs
  drop (suc n) [] = []
  drop (suc n) (x ∷ xs) = drop n xs

  abbrev pub replicate : ℕ → A → List A
  replicate zero a = []
  replicate (suc n) a = a ∷ replicate n a

  abbrev pub All {κ} : (A → Type κ) → List A → Type κ
  All P [] = Unit {κ}
  All P (x ∷ xs) = P x × All P xs

  pub length-append : (xs ys : List A) → length (xs ++ ys) ≡ length xs + length ys
  length-append [] ys = omega arith
  length-append (x ∷ xs) ys = omega (arith, length-append xs ys)

  pub length-set : (xs : List A) (i : ℕ) (v : A) → length (set xs i v) ≡ length xs
  length-set [] i v = refl
  length-set (x ∷ xs) zero v = refl
  length-set (x ∷ xs) (suc i) v = ap suc (length-set xs i v)

  pub length-take : (n : ℕ) (xs : List A) → length (take n xs) ≡ min n (length xs)
  length-take zero xs = omega arith
  length-take (suc n) [] = omega arith
  length-take (suc n) (x ∷ xs) = omega (arith, length-take n xs)

  pub length-drop : (n : ℕ) (xs : List A) → length (drop n xs) ≡ length xs - n
  length-drop zero xs = omega arith
  length-drop (suc n) [] = omega arith
  length-drop (suc n) (x ∷ xs) = omega (arith, length-drop n xs)

  pub length-replicate : (n : ℕ) (a : A) → length (replicate n a) ≡ n
  length-replicate zero a = refl
  length-replicate (suc n) a = ap suc (length-replicate n a)

  pub take-append : (xs ys : List A) → take (length xs) (xs ++ ys) ≡ xs
  take-append [] ys = refl
  take-append (x ∷ xs) ys = ap (λ t. x ∷ t) (take-append xs ys)

  pub drop-append : (xs ys : List A) → drop (length xs) (xs ++ ys) ≡ ys
  drop-append [] ys = refl
  drop-append (x ∷ xs) ys = drop-append xs ys

  pub take-length : (xs : List A) → take (length xs) xs ≡ xs
  take-length [] = refl
  take-length (x ∷ xs) = ap (λ t. x ∷ t) (take-length xs)

  pub All-drop {κ} : (P : A → Type κ) (n : ℕ) (xs : List A) → All P xs → All P (drop n xs)
  All-drop P zero xs h = h
  All-drop P (suc n) [] h = h
  All-drop P (suc n) (x ∷ xs) h = All-drop P n xs h.1

  pub All-take {κ} : (P : A → Type κ) (n : ℕ) (xs : List A) → All P xs → All P (take n xs)
  All-take P zero xs h = tt
  All-take P (suc n) [] h = h
  All-take P (suc n) (x ∷ xs) h = (h.0, All-take P n xs h.1)

  -- memcpy of `src` to index `i` of `data`.
  unfoldable pub write_at : List A → ℕ → List A → List A
  write_at d i [] = d
  write_at d i (x ∷ xs) = write_at (set d i x) (i + 1) xs

  pub length-write_at : (d : List A) (i : ℕ) (s : List A) → length (write_at d i s) ≡ length d
  unfolding write_at
  length-write_at d i [] = refl
  length-write_at d i (x ∷ xs) =
      omega (arith, length-write_at (set d i x) (i + 1) xs, length-set d i x)

  pub take-set_later : (d : List A) (i n : ℕ) (v : A) → n ≤ i → take n (set d i v) ≡ take n d
  take-set_later d i zero v h = refl
  take-set_later [] i (suc n) v h = refl
  take-set_later (x ∷ d) zero (suc n) v h = absurd (omega arith)
  take-set_later (x ∷ d) (suc i) (suc n) v h =
      ap (λ t. x ∷ t) (take-set_later d i n v (omega arith))

  drop-set_earlier : (d : List A) (i n : ℕ) (v : A) → i < n → drop n (set d i v) ≡ drop n d
  drop-set_earlier d i zero v h = elim h [ ]
  drop-set_earlier [] i (suc n) v h = refl
  drop-set_earlier (x ∷ d) zero (suc n) v h = refl
  drop-set_earlier (x ∷ d) (suc i) (suc n) v h = drop-set_earlier d i n v (omega arith)

  take-suc-set :
      (d : List A) (i : ℕ) (v : A) → i < length d → take (suc i) (set d i v) ≡ take i d ++ v ∷ []
  take-suc-set [] i v h = absurd (omega arith)
  take-suc-set (x ∷ d) zero v h = refl
  take-suc-set (x ∷ d) (suc i) v h = ap (λ t. x ∷ t) (take-suc-set d i v (omega arith))

  -- What stands before the end of a copy: the bytes before it, then the copied ones.
  pub take-write_at :
      (d : List A) (i j : ℕ) (s : List A)
      → j ≡ i + length s
      → j ≤ length d
      → take j (write_at d i s) ≡ take i d ++ s
  unfolding write_at
  take-write_at d i j [] e h = rw append-nil (ap (λ t. take t d) (omega arith))
  take-write_at d i j (x ∷ xs) e h =
      take-write_at (set d i x) (i + 1) j xs (omega arith) (omega (arith, length-set d i x))
      ∙ ap (λ t. t ++ xs)
          (ap (λ t. take t (set d i x)) {y = suc i} (omega arith)
            ∙ take-suc-set d i x (omega arith))
      ∙ append_assoc (take i d) (x ∷ []) xs

  -- A copy leaves what stands before and after it alone.
  pub take-write_at_earlier :
      (d : List A) (i n : ℕ) (s : List A) → n ≤ i → take n (write_at d i s) ≡ take n d
  unfolding write_at
  take-write_at_earlier d i n [] h = refl
  take-write_at_earlier d i n (x ∷ xs) h =
      take-write_at_earlier (set d i x) (i + 1) n xs (omega arith) ∙ take-set_later d i n x h

  pub drop-write_at :
      (d : List A) (i n : ℕ) (s : List A) → i + length s ≤ n → drop n (write_at d i s) ≡ drop n d
  unfolding write_at
  drop-write_at d i n [] h = refl
  drop-write_at d i n (x ∷ xs) h =
      drop-write_at (set d i x) (i + 1) n xs (omega arith) ∙ drop-set_earlier d i n x (omega arith)

  set-set : (d : List A) (i j : ℕ) (x y : A) → i < j → set (set d j y) i x ≡ set (set d i x) j y
  set-set [] i j x y h = refl
  set-set (z ∷ d) i zero x y h = absurd (omega arith)
  set-set (z ∷ d) zero (suc j) x y h = refl
  set-set (z ∷ d) (suc i) (suc j) x y h = ap (λ t. z ∷ t) (set-set d i j x y (omega arith))

  set-write_at :
      (d : List A) (i j : ℕ) (x : A) (s : List A)
      → i < j
      → set (write_at d j s) i x ≡ write_at (set d i x) j s
  unfolding write_at
  set-write_at d i j x [] h = refl
  set-write_at d i j x (y ∷ s) h =
      set-write_at (set d j y) i (j + 1) x s (omega arith)
      ∙ ap (λ t. write_at t (j + 1) s) (set-set d i j x y h)

  -- Two copies of which one ends before the other begins, in either order.
  pub write_at-write_at :
      (d : List A) (i j : ℕ) (s t : List A)
      → i + length s ≤ j
      → write_at (write_at d j t) i s ≡ write_at (write_at d i s) j t
  unfolding write_at
  write_at-write_at d i j [] t h = refl
  write_at-write_at d i j (x ∷ s) t h =
      ap (λ r. write_at r (i + 1) s) (set-write_at d i j x t (omega arith))
      ∙ write_at-write_at (set d i x) (i + 1) j s t (omega arith)

  pub write_at-append :
      (d : List A) (i j : ℕ) (s t : List A)
      → j ≡ i + length s
      → write_at (write_at d i s) j t ≡ write_at d i (s ++ t)
  unfolding write_at
  write_at-append d i j [] t e = ap (λ k. write_at d k t) (omega arith)
  write_at-append d i j (x ∷ xs) t e = write_at-append (set d i x) (i + 1) j xs t (omega arith)

  pub get_or-set_self :
      (xs : List A) (i : ℕ) (v d : A) → i < length xs → get_or (set xs i v) i d ≡ v
  get_or-set_self [] i v d h = absurd (omega arith)
  get_or-set_self (x ∷ xs) zero v d h = refl
  get_or-set_self (x ∷ xs) (suc i) v d h = get_or-set_self xs i v d (omega arith)

  pub get_or-set_ne :
      (xs : List A) (i j : ℕ) (v d : A) → i ≢ j → get_or (set xs i v) j d ≡ get_or xs j d
  get_or-set_ne [] i j v d h = refl
  get_or-set_ne (x ∷ xs) zero zero v d h = absurd (h refl)
  get_or-set_ne (x ∷ xs) zero (suc j) v d h = refl
  get_or-set_ne (x ∷ xs) (suc i) zero v d h = refl
  get_or-set_ne (x ∷ xs) (suc i) (suc j) v d h = get_or-set_ne xs i j v d (λ e. h (ap suc e))

  get_or-write_at_earlier :
      (d : List A) (i j : ℕ) (s : List A) (o : A)
      → j < i
      → get_or (write_at d i s) j o ≡ get_or d j o
  unfolding write_at
  get_or-write_at_earlier d i j [] o h = refl
  get_or-write_at_earlier d i j (x ∷ xs) o h =
      get_or-write_at_earlier (set d i x) (i + 1) j xs o (omega arith)
      ∙ get_or-set_ne d i j x o (omega arith)

  -- Element `k` of what was copied to index `i`.
  pub get_or-write_at :
      (d : List A) (i j k : ℕ) (s : List A) (o : A)
      → j ≡ i + k
      → k < length s
      → i + length s ≤ length d
      → get_or (write_at d i s) j o ≡ get_or s k o
  unfolding write_at
  get_or-write_at d i j k [] o e h f = absurd (omega arith)
  get_or-write_at d i j zero (x ∷ xs) o e h f =
      ap (λ t. get_or (write_at (set d i x) (i + 1) xs) t o) {y = i} (omega arith)
      ∙ get_or-write_at_earlier (set d i x) (i + 1) i xs o (omega arith)
      ∙ get_or-set_self d i x o (omega arith)
  get_or-write_at d i j (suc k) (x ∷ xs) o e h f =
      get_or-write_at (set d i x) (i + 1) j k xs o (omega arith) (omega arith)
        (omega (arith, length-set d i x))
