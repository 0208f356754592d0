-- ===== src/BmpCache/Tests.antt =====
-- Instances of the theorems on src/wire/bmpcache.c.
use rdpserver.Base.{ℕ, List, ◌≡◌, inr, refl, arith, true, false, [], ◌∷◌, Ensures}
use rdpserver.BmpCache.{Cache, slot_at, found, lookup, fit}
use rdpserver.BmpCache.Slots.{count}
use rdpserver.BmpCache.Persist.{ingest_persistent}
use rdpserver.BmpCache.Ingest.{IsLaid, ingest_persistent-Ensures}
use rdpserver.BmpCache.Runs.{fitted, Placed, lookup-Reachable}
use rdpserver.BmpCache.Lookup.{IsValid, IsFine, lookup-IsFine, lookup-lookup, lookup_keeps}

-- Three slots, the first one in use.
abbrev three : Cache
three = record {
  slot =
      record { key = 7; occupied = true }
      ∷ record { key = 0; occupied = false }
      ∷ record { key = 0; occupied = false }
      ∷ [];
  total = 3;
  cells = 1 ∷ 1 ∷ 1 ∷ [];
  offset = 0 ∷ 1 ∷ 2 ∷ [];
  next = 0;
  used = 1;
  ingest = 0 ∷ 0 ∷ 0 ∷ [];
}

-- The same after a miss of the key 9.
abbrev after : Cache
after = record three {
  slot =
      record { key = 7; occupied = true }
      ∷ record { key = 9; occupied = true }
      ∷ record { key = 0; occupied = false }
      ∷ [];
  next = 2;
  used = 2;
}

three-IsValid : IsValid three
unfolding count
three-IsValid = record { fits = omega arith; counted = refl; within = inr (omega arith) }

nine_missed : lookup three 9 ≡ found false (1, 0) after
unfolding lookup
nine_missed = refl

lookup-IsFine_example : IsFine (lookup three 9)
lookup-IsFine_example = lookup-IsFine three 9 three-IsValid

lookup-lookup_example : lookup after 9 ≡ found true (1, 0) after
lookup-lookup_example = lookup-lookup three 9 three-IsValid nine_missed

lookup_keeps_example : slot_at after.slot 0 ≡ slot_at three.slot 0
lookup_keeps_example = lookup_keeps three 9 0 three-IsValid (omega arith) refl nine_missed

three-IsLaid : IsLaid three
three-IsLaid = record {
  start0 = refl;
  start1 = refl;
  start2 = refl;
  whole = refl;
  small = omega arith;
}

-- A list with one key for the first cache, as the first and last PDU.
abbrev key_list : List ℕ
key_list =
    1 ∷ 0 ∷ 0 ∷ 0 ∷ 0 ∷ 0 ∷ 0 ∷ 0 ∷ 0 ∷ 0 ∷ 0 ∷ 0 ∷ 0 ∷ 0 ∷ 0 ∷ 0 ∷ 0 ∷ 0 ∷ 0 ∷ 0 ∷ 3 ∷ 0 ∷ 0 ∷ 0
    ∷ 9 ∷ 0 ∷ 0 ∷ 0 ∷ 0 ∷ 0 ∷ 0 ∷ 0 ∷ []

ingest_persistent-Ensures_example :
    Ensures (λ c. IsValid c × IsLaid c) (ingest_persistent three key_list)
ingest_persistent-Ensures_example =
    ingest_persistent-Ensures three key_list three-IsValid three-IsLaid

-- A client with cells of 40, 120 and no slots.
abbrev fresh : Cache
fresh = (fit (40 ∷ 500 ∷ 0 ∷ [])).0

lookup-Reachable_example : Placed fresh (lookup fresh 9)
lookup-Reachable_example = lookup-Reachable fresh 9 (fitted (40 ∷ 500 ∷ 0 ∷ []))
