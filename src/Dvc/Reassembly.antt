-- ===== src/Dvc/Reassembly.antt =====
-- The reassembly of src/channels/drdynvc.c against an accumulator that is just a list of bytes.
use rdpserver.Base.{ℕ, ◌+◌, ◌-◌, ◌≤◌, ◌<◌, ◌≡◌, refl, ap, ◌∙◌, arith, Bool, true, false, ◌||◌}
use rdpserver.Base.{
  Option, none, some, List, [], ◌++◌, ltb, leb, ◌==◌, if◌then◌else◌, inl, inr, ◌⊎◌, Bool-cases,
}
use rdpserver.Base.{
  length, take, write_at, take-write_at, length-take, length-write_at, sub_size, length-append,
}
use rdpserver.Vchan.{Result, bad, more, complete}
use rdpserver.Vchan.Spec.{Progress, idle, gathering}
use rdpserver.Vchan.Refine.{IsMalloc, is_some}
use rdpserver.Dvc.State.{DvcReasm, reasm_max, wanted, store_part, start_part, grow, dvc_reasm_feed}

-- What of `src` still belongs to a PDU of `total` bytes, `acc` of which are there.
abbrev pub clipped : ℕ → List ℕ → List ℕ → List ℕ
clipped total acc src =
    if ltb (total - length acc) (length src) then take (total - length acc) src else src

unfoldable pub gather : ℕ → List ℕ → Result × Progress
gather total acc =
    if ltb (length acc) total then (more, gathering total acc) else (complete acc, idle)

-- `room`: there is, or can be had, a block of `total` bytes.
unfoldable pub spec_feed : Bool → Progress → Bool → ℕ → List ℕ → Result × Progress
spec_feed room p true total src =
    if total == 0 || ltb reasm_max total
    then (bad, idle)
    else if room
    then gather total (clipped total [] src)
    else (bad, idle)
spec_feed room idle false total src = (complete src, idle)
spec_feed room (gathering t acc) false total src = gather t (acc ++ clipped t acc src)

abbrev pub view : DvcReasm → Progress
view r = if r.total == 0 then idle else gathering r.total (take r.len r.buf)

abbrev pub view_all : Result × DvcReasm → Result × Progress
view_all t = (t.0, view t.1)

-- The block has its capacity, and a PDU in progress fits in it and is not complete yet.
pub record IsSound (r : DvcReasm) : Type 0 where
  pub backed : r.cap ≤ length r.buf
  pub fits : r.total ≤ r.cap
  pub within : r.len ≤ r.total
  pub bounded : r.cap ≤ reasm_max

-- The bytes so far and the next ones, in the block.
gathered :
    (r : DvcReasm) (src : List ℕ)
    → r.cap ≤ length r.buf
    → r.len + length src ≤ r.cap
    → take (r.len + length src) (write_at r.buf r.len src) ≡ take r.len r.buf ++ src
gathered r src h k = take-write_at r.buf r.len (r.len + length src) src refl (omega arith)

length-wanted : (r : DvcReasm) (src : List ℕ) → IsSound r → r.len + length (wanted r src) ≤ r.total
length-wanted r src v =
    ground (arith, length-take (sub_size r.total r.len) src, v.within, v.fits, v.bounded)

length-clipped : (total : ℕ) (src : List ℕ) → length (clipped total [] src) ≤ total
length-clipped total src = ground (arith, length-take total src)

store_part-IsSound :
    (r : DvcReasm) (src : List ℕ)
    → IsSound r
    → r.len + length src ≤ r.total
    → IsSound (store_part r src).1
unfolding store_part
store_part-IsSound r src v h =
    ground (arith, length-write_at r.buf r.len src, v.backed, v.fits, v.bounded)

store_part_refines :
    (r : DvcReasm) (src : List ℕ)
    → IsSound r
    → 0 < r.total
    → r.len + length src ≤ r.total
    → view_all (store_part r src) ≡ gather r.total (take r.len r.buf ++ src)
unfolding store_part gather
store_part_refines r src v pos h = ground (
  arith,
  gathered r src v.backed (omega (arith, v.fits)),
  length-append (take r.len r.buf) src,
  length-take r.len r.buf,
  v.backed,
  v.fits,
)

-- The part of a fragment that the code copies is the part that the PDU still wants.
wanted-clipped :
    (r : DvcReasm) (src : List ℕ)
    → IsSound r
    → wanted r src ≡ clipped r.total (take r.len r.buf) src
wanted-clipped r src v = rw (left, right) refl
  where
    left : sub_size r.total r.len ≡ r.total - r.len
    left = omega (arith, v.within, v.fits, v.bounded)

    right : length (take r.len r.buf) ≡ r.len
    right = omega (arith, length-take r.len r.buf, v.within, v.fits, v.backed)

-- A PDU that is begun in a block that is large enough.
begun :
    (r : DvcReasm) (total : ℕ)
    → r.cap ≤ length r.buf
    → r.cap ≤ reasm_max
    → total ≤ r.cap
    → IsSound (record r { len = 0; total = total })
begun r total h k l = record { backed = h; fits = l; within = omega arith; bounded = k }

start_refines :
    (r : DvcReasm) (total : ℕ) (src : List ℕ)
    → IsSound (record r { len = 0; total = total })
    → 0 < total
    → (view_all (start_part r total src) ≡ gather total (clipped total [] src))
      × IsSound (start_part r total src).1
start_refines r total src v pos =
    let r' : DvcReasm = record r { len = 0; total = total } in
    let e = wanted-clipped r' src v in
    let h = length-wanted r' src v in
    (
      store_part_refines r' (wanted r' src) v pos h ∙ ap (λ s. gather total s) e,
      store_part-IsSound r' (wanted r' src) v h,
    )

grow_refines :
    (r : DvcReasm) (alloc : ℕ → Option (List ℕ)) (total : ℕ) (src : List ℕ)
    → IsMalloc alloc
    → 0 < total
    → total ≤ reasm_max
    → (view_all (grow (alloc total) r total src)
        ≡ (if is_some (alloc total) then gather total (clipped total [] src) else (bad, idle)))
      × IsSound (grow (alloc total) r total src).1
unfolding grow
grow_refines r alloc total src m pos small = elim (option_cases (alloc total)) [
  | inl e ↦ rw e (
    refl,
    record {
      backed = omega arith;
      fits = omega arith;
      within = omega arith;
      bounded = omega arith;
    },
  )
  | inr (block, e) ↦
      let size = m.size total block e in
      rw e (
        start_refines (record r { buf = block; cap = total }) total src
          (begun (record r { buf = block; cap = total }) total (omega (arith, size)) small
            (omega arith))
          pos)
]
  where
    option_cases : (o : Option (List ℕ)) → (o ≡ none) ⊎ ((block : List ℕ) × (o ≡ some block))
    option_cases none = inl refl
    option_cases (some block) = inr (block, refl)

cleared-IsSound : (r : DvcReasm) → IsSound r → IsSound (record r { len = 0; total = 0 })
cleared-IsSound r v = record {
  backed = v.backed;
  fits = omega arith;
  within = omega arith;
  bounded = v.bounded;
}

-- A first fragment.
first_refines :
    (alloc : ℕ → Option (List ℕ)) (r : DvcReasm) (total : ℕ) (src : List ℕ)
    → IsMalloc alloc
    → IsSound r
    → (view_all (dvc_reasm_feed alloc r true total src)
        ≡ spec_feed (leb total r.cap || is_some (alloc total)) (view r) true total src)
      × IsSound (dvc_reasm_feed alloc r true total src).1
unfolding dvc_reasm_feed spec_feed
first_refines alloc r total src m v = elim (Bool-cases (total == 0 || ltb reasm_max total)) [
  | inl e ↦ rw e (refl, cleared-IsSound r v)
  | inr e ↦ elim (Bool-cases (ltb r.cap total)) [
    | inl c ↦ rw (e, c, larger c) (grow_refines r alloc total src m (ground arith) (ground arith))
    | inr c ↦
        rw (e, c, smaller c)
          (start_refines r total src (begun r total v.backed v.bounded (ground arith))
            (ground arith))
  ]
]
  where
    larger : ltb r.cap total ≡ true → leb total r.cap ≡ false
    larger c = ground arith

    smaller : ltb r.cap total ≡ false → leb total r.cap ≡ true
    smaller c = ground arith

-- A later fragment, or a PDU that is not fragmented.
next_refines :
    (alloc : ℕ → Option (List ℕ)) (r : DvcReasm) (room : Bool) (total : ℕ) (src : List ℕ)
    → IsSound r
    → (view_all (dvc_reasm_feed alloc r false total src) ≡ spec_feed room (view r) false total src)
      × IsSound (dvc_reasm_feed alloc r false total src).1
unfolding dvc_reasm_feed spec_feed
next_refines alloc r room total src v = elim (Bool-cases (r.total == 0)) [
  | inl e ↦ rw e (rw e refl, v)
  | inr e ↦
      let h = length-wanted r src v in
      rw e (
        store_part_refines r (wanted r src) v (ground arith) h
            ∙ ap (λ s. gather r.total (take r.len r.buf ++ s)) (wanted-clipped r src v),
        store_part-IsSound r (wanted r src) v h,
      )
]

-- On a sound accumulator, and with a malloc that gives what it is asked for or NULL, each fragment
-- of a dynamic channel is answered as by a list of bytes that takes no more than the declared
-- total, and the accumulator stays sound: what it holds lies inside its block.
pub dvc_reasm_feed_refines :
    (alloc : ℕ → Option (List ℕ)) (r : DvcReasm) (first : Bool) (total : ℕ) (src : List ℕ)
    → IsMalloc alloc
    → IsSound r
    → (view_all (dvc_reasm_feed alloc r first total src)
        ≡ spec_feed (leb total r.cap || is_some (alloc total)) (view r) first total src)
      × IsSound (dvc_reasm_feed alloc r first total src).1
dvc_reasm_feed_refines alloc r true total src m v = first_refines alloc r total src m v
dvc_reasm_feed_refines alloc r false total src m v = next_refines alloc r _ total src v
