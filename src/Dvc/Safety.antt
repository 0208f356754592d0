-- ===== src/Dvc/Safety.antt =====
-- `rdp_drdynvc_handle` of src/channels/drdynvc.c on arbitrary packets.
use rdpserver.Base.{
  ℕ, zero, suc, ◌+◌, ◌-◌, ◌*◌, ◌/◌, ◌%◌, ◌≤◌, ◌≡◌, refl, arith, Bool, true, false, not, ◌&&◌, ◌||◌,
}
use rdpserver.Base.{
  Option, none, some, List, [], ◌∷◌, ltb, leb, ◌==◌, if◌then◌else◌, length, take, drop, bit_and,
}
use rdpserver.Base.{length-append, inl, inr, Bool-cases}
use rdpserver.Base.{
  Read, ok, Ensures, returns, refused as failed, bind_then, guard_then, at_then, if_then,
}
use rdpserver.Vchan.{Result, bad, more, complete}
use rdpserver.Vchan.Refine.{IsMalloc}
use rdpserver.Dvc.State.{DvcReasm, State, non_negative, positive}
use rdpserver.Dvc.Create.{
  Outcome, refused, code, respond, resize, pdu, ld32, read_channel_id, read_status, awaits,
}
use rdpserver.Dvc.Create.{status_code, text, accept_request, handle_create}
use rdpserver.Dvc.Display.{Extent, read_box, read_boxes, sized, display_update}
use rdpserver.Dvc.Handle.{read_total, fed, deliver, route, handle_data, close_channel, handle}
use rdpserver.Dvc.Reassembly.{IsSound, dvc_reasm_feed_refines}

-- Every reassembly of the state is sound.
abbrev pub IsSoundState : State → Type 0
IsSoundState st =
    IsSound st.gfx_reasm
    × IsSound st.ai_reasm
    × IsSound st.rei_reasm
    × IsSound st.ce_reasm
    × IsSound st.cd_reasm

-- What the caller may rely on: the response fits its buffer, and a size is within the limits.
abbrev pub IsFit : ℕ → Outcome → Type 0
IsFit resp_cap refused = Unit
IsFit resp_cap (code n) = Unit
IsFit resp_cap (respond bytes) = length bytes ≤ resp_cap
IsFit resp_cap (resize w h) = (200 ≤ w) × (w ≤ 8192) × (200 ≤ h) × (h ≤ 8192)
IsFit resp_cap (pdu n bytes) = Unit

-- Any value.
abbrev Any {ℓ} : {A : Type ℓ} → A → Type 0
Any a = Unit {0}

ld32-Ensures : (p : List ℕ) (i : ℕ) → i + 4 ≤ length p → Ensures Any (ld32 p i)
unfolding ld32
ld32-Ensures p i h = at_then p i (omega arith) λ a e.
    at_then p (i + 1) (omega arith) λ b f.
      at_then p (i + 2) (omega arith) λ c g. at_then p (i + 3) (omega arith) λ d k. returns tt

read_channel_id-Ensures :
    (p : List ℕ) (cb_id : ℕ) → Ensures (λ t. t.1 ≤ length p) (read_channel_id p cb_id)
unfolding read_channel_id
read_channel_id-Ensures p cb_id =
    if_then (cb_id == 0)
      (λ e.
        guard_then (leb 1 (length p)) λ g. at_then p 0 (ground arith) λ a f. returns (ground arith))
      λ e0.
        if_then (cb_id == 1)
          (λ e. guard_then (leb 2 (length p)) λ g.
            at_then p 0 (ground arith)
              λ a f. at_then p 1 (ground arith) λ b k. returns (ground arith))
          λ e1.
            if_then (cb_id == 2)
              (λ e.
                guard_then (leb 4 (length p))
                  λ g. bind_then (ld32-Ensures p 0 (ground arith)) λ id u. returns (ground arith))
              λ e2. failed

read_status-Ensures : (body : List ℕ) → Ensures Any (read_status body)
unfolding read_status
read_status-Ensures body =
    if_then (leb 4 (length body)) (λ e. ld32-Ensures body 0 (ground arith)) λ e. returns tt

-- The outcome is fit and the state sound.
abbrev pub Good : ℕ → Outcome × State → Type 0
Good resp_cap t = IsFit resp_cap t.0 × IsSoundState t.1

status_code-IsFit : (resp_cap opened status : ℕ) → IsFit resp_cap (status_code opened status)
status_code-IsFit resp_cap opened status = elim (Bool-cases (status == 0)) [
  | inl e ↦ rw e tt
  | inr e ↦ rw e tt
]

accept_request-Ensures :
    (st : State) (hdr : ℕ) (id_bytes : List ℕ) (resp_cap id : ℕ) (name : Option (List ℕ))
    → IsSoundState st
    → Ensures (Good resp_cap) (accept_request st hdr id_bytes resp_cap id name)
unfolding accept_request
accept_request-Ensures st hdr id_bytes resp_cap id none v = failed
accept_request-Ensures st hdr id_bytes resp_cap id (some name) v =
    if_then (leb (1 + length id_bytes + 4) resp_cap)
      (λ e. returns (ground (arith, length-append id_bytes (0 ∷ 0 ∷ 0 ∷ 0 ∷ [])), v))
      λ e. returns (tt, v)

handle_create-Ensures :
    (st : State) (hdr : ℕ) (p : List ℕ) (resp_cap : ℕ)
    → IsSoundState st
    → Ensures (Good resp_cap) (handle_create st hdr p resp_cap)
unfolding handle_create
handle_create-Ensures st hdr p resp_cap v =
    bind_then (read_channel_id-Ensures p (bit_and hdr 3)) λ (t : ℕ × ℕ) l.
      bind_then (read_status-Ensures (drop t.1 p)) λ (status : ℕ) u.
        if_then (awaits st.disp t.0) (λ e. returns (status_code-IsFit resp_cap 8 status, v))
          λ e1.
            if_then (awaits st.gfx t.0) (λ e. returns (tt, v))
              λ e2.
                if_then (awaits st.audioin t.0)
                  (λ e. returns (status_code-IsFit resp_cap 10 status, v))
                  λ e3.
                    if_then (awaits st.rdpei t.0)
                      (λ e. returns (status_code-IsFit resp_cap 11 status, v))
                      λ e4.
                        if_then (awaits st.camenum t.0)
                          (λ e. returns (status_code-IsFit resp_cap 13 status, v))
                          λ e5.
                            if_then (awaits st.camdev t.0)
                              (λ e. returns (status_code-IsFit resp_cap 14 status, v))
                              λ e6.
                                accept_request-Ensures st hdr (take t.1 p) resp_cap t.0
                                  (text (drop t.1 p)) v

read_total-Ensures :
    (len_sz : ℕ) (src : List ℕ) → Ensures (λ t. t.1 ≤ length src) (read_total len_sz src)
unfolding read_total
read_total-Ensures len_sz src =
    if_then (len_sz == 0)
      (λ e.
        guard_then (leb 1 (length src))
          λ g. at_then src 0 (ground arith) λ a f. returns (ground arith))
      λ e0.
        if_then (len_sz == 1)
          (λ e. guard_then (leb 2 (length src)) λ g.
            at_then src 0 (ground arith)
              λ a f. at_then src 1 (ground arith) λ b k. returns (ground arith))
          λ e1.
            if_then (len_sz == 2)
              (λ e. guard_then (leb 4 (length src)) λ g.
                bind_then (ld32-Ensures src 0 (ground arith)) λ total u. returns (ground arith))
              λ e2. returns (omega arith)

read_box-Ensures : (src : List ℕ) (m : ℕ) → m + 20 ≤ length src → Ensures Any (read_box src m)
unfolding read_box
read_box-Ensures src m h = bind_then (ld32-Ensures src (m + 4) (omega arith)) λ left q1.
    bind_then (ld32-Ensures src (m + 8) (omega arith)) λ top q2.
      bind_then (ld32-Ensures src (m + 12) (omega arith))
        λ width q3. bind_then (ld32-Ensures src (m + 16) (omega arith)) λ height q4. returns tt

read_boxes-Ensures :
    (n : ℕ) (src : List ℕ) (mi : ℕ) (e : Extent)
    → 16 + (n + mi) * 40 ≤ length src
    → Ensures Any (read_boxes n src mi e)
unfolding read_boxes
read_boxes-Ensures zero src mi e h = returns tt
read_boxes-Ensures (suc n) src mi e h =
    bind_then (read_box-Ensures src (16 + mi * 40) (omega arith))
      λ b q. read_boxes-Ensures n src (mi + 1) _ (omega arith)

if-IsFit :
    (resp_cap : ℕ) (t : Bool) (o : Outcome)
    → (t ≡ true → IsFit resp_cap o)
    → IsFit resp_cap (if t then o else code 0)
if-IsFit resp_cap true o h = h refl
if-IsFit resp_cap false o h = tt

sized-IsFit : (resp_cap : ℕ) (e : Extent) → IsFit resp_cap (sized e)
unfolding sized
sized-IsFit resp_cap e =
    if-IsFit resp_cap (leb 200 tw && leb tw 8192 && leb 200 th && leb th 8192) (resize tw th)
      λ t. (ground arith, ground arith, ground arith, ground arith)
  where
    tw : ℕ
    tw = e.max_x - e.min_x

    th : ℕ
    th = e.max_y - e.min_y

display_update-Ensures :
    (resp_cap : ℕ) (src : List ℕ) → Ensures (IsFit resp_cap) (display_update src)
unfolding display_update
display_update-Ensures resp_cap src =
    if_then (ltb (length src) 56) (λ t. returns tt)
      λ t1. bind_then (ld32-Ensures src 12 (ground arith)) λ (nm : ℕ) q1.
        if_then (ltb nm 1 || ltb 16 nm) (λ t. returns tt)
          λ t2.
            if_then (ltb (length src) (16 + nm * 40)) (λ t. returns tt)
              λ t3. bind_then (read_box-Ensures src 16 (ground arith)) λ first q2.
                bind_then (read_boxes-Ensures (nm - 1) src 1 first (ground arith))
                  λ e q3. returns (sized-IsFit resp_cap e)

fed-IsFit : (resp_cap done : ℕ) (r : Result) → IsFit resp_cap (fed done r)
unfolding fed
fed-IsFit resp_cap done bad = tt
fed-IsFit resp_cap done more = tt
fed-IsFit resp_cap done (complete bytes) = tt

deliver-Good :
    (resp_cap : ℕ) (alloc : ℕ → Option (List ℕ)) (done : ℕ) (first : Bool) (total : ℕ)
    (src : List ℕ) (r : DvcReasm)
    → IsMalloc alloc
    → IsSound r
    → IsFit resp_cap (deliver alloc done first total src r).0
      × IsSound (deliver alloc done first total src r).1
deliver-Good resp_cap alloc done first total src r m v =
    (fed-IsFit resp_cap done _, (dvc_reasm_feed_refines alloc r first total src m v).1)

route-Ensures :
    (resp_cap : ℕ) (alloc : ℕ → Option (List ℕ)) (st : State) (want : Bool) (id : ℕ) (first : Bool)
    (total : ℕ) (src : List ℕ)
    → IsMalloc alloc
    → IsSoundState st
    → Ensures (Good resp_cap) (route alloc st want id first total src)
unfolding route
route-Ensures resp_cap alloc st want id first total src m v =
    if_then ((id == st.gfx.id) && want)
      (λ e.
        let g = deliver-Good resp_cap alloc 3 first total src st.gfx_reasm m v.0 in
        returns (g.0, (g.1, v.1, v.2, v.3, v.4)))
      λ e0.
        if_then ((id == st.audioin.id) && non_negative st.audioin.id && want)
          (λ e.
            let g = deliver-Good resp_cap alloc 9 first total src st.ai_reasm m v.1 in
            returns (g.0, (v.0, g.1, v.2, v.3, v.4)))
          λ e1.
            if_then ((id == st.rdpei.id) && non_negative st.rdpei.id && want)
              (λ e.
                let g = deliver-Good resp_cap alloc 12 first total src st.rei_reasm m v.2 in
                returns (g.0, (v.0, v.1, g.1, v.3, v.4)))
              λ e2.
                if_then ((id == st.camenum.id) && positive st.camenum.id && want)
                  (λ e.
                    let g = deliver-Good resp_cap alloc 15 first total src st.ce_reasm m v.3 in
                    returns (g.0, (v.0, v.1, v.2, g.1, v.4)))
                  λ e3.
                    if_then ((id == st.camdev.id) && positive st.camdev.id && want)
                      (λ e.
                        let g = deliver-Good resp_cap alloc 16 first total src st.cd_reasm m v.4 in
                        returns (g.0, (v.0, v.1, v.2, v.3, g.1)))
                      λ e4.
                        if_then (not (id == st.disp.id)) (λ e. returns (tt, v))
                          λ e5.
                            bind_then (display_update-Ensures resp_cap src) λ o f. returns (f, v)

handle_data-Ensures :
    (resp_cap : ℕ) (alloc : ℕ → Option (List ℕ)) (st : State) (want first : Bool) (hdr : ℕ)
    (p : List ℕ)
    → IsMalloc alloc
    → IsSoundState st
    → Ensures (Good resp_cap) (handle_data alloc st want first hdr p)
unfolding handle_data
handle_data-Ensures resp_cap alloc st want first hdr p m v =
    bind_then (read_channel_id-Ensures p (bit_and hdr 3)) λ (t : ℕ × ℕ) l.
      bind_then (total_of first (drop t.1 p)) λ (k : ℕ × ℕ) u.
        route-Ensures resp_cap alloc st want t.0 first k.0 (drop k.1 (drop t.1 p)) m v
  where
    total_of :
        (first : Bool) (body : List ℕ)
        → Ensures
            (λ k. k.1 ≤ length body)
            (if first then read_total (hdr / 4 % 4) body else ok (0, 0))
    total_of first body =
        if_then first (λ e. read_total-Ensures (hdr / 4 % 4) body) λ e. returns (omega arith)

close_channel-Ensures :
    (resp_cap : ℕ) (st : State) {r : Read (ℕ × ℕ)} {Q : ℕ × ℕ → Type 0}
    → IsSoundState st
    → Ensures Q r
    → Ensures (Good resp_cap) (close_channel st r)
unfolding close_channel
close_channel-Ensures resp_cap st v failed = returns (tt, v)
close_channel-Ensures resp_cap st v (returns {a = (id, id_len)} q) =
    if_then (id == st.gfx.id) (λ e. returns (tt, v))
      λ e0.
        if_then (positive st.camdev.id && (id == st.camdev.id)) (λ e. returns (tt, v))
          λ e1.
            if_then (positive st.camenum.id && (id == st.camenum.id)) (λ e. returns (tt, v))
              λ e2. returns (tt, v)

-- On every packet, and with a malloc that gives what it is asked for or NULL, the handler of the
-- dynamic channels reads inside the packet only; the accumulators of all five channels stay sound,
-- a response fits the buffer for it, and a new size is between 200 and 8192 in both directions.
pub handle-Ensures :
    (alloc : ℕ → Option (List ℕ)) (st : State) (packet : List ℕ) (resp_cap : ℕ) (want : Bool)
    → IsMalloc alloc
    → IsSoundState st
    → Ensures (Good resp_cap) (handle alloc st packet resp_cap want)
unfolding handle
handle-Ensures alloc st packet resp_cap want m v = guard_then (leb 1 (length packet)) λ g.
    at_then packet 0 (ground arith) λ hdr e.
      if_then (hdr / 16 % 16 == 5) (λ t. returns (tt, v))
        λ t0.
          if_then (hdr / 16 % 16 == 1)
            (λ t. handle_create-Ensures st hdr (drop 1 packet) resp_cap v)
            λ t1.
              if_then (hdr / 16 % 16 == 3)
                (λ t. handle_data-Ensures resp_cap alloc st want false hdr (drop 1 packet) m v)
                λ t2.
                  if_then (hdr / 16 % 16 == 2)
                    (λ t. handle_data-Ensures resp_cap alloc st want true hdr (drop 1 packet) m v)
                    λ t3.
                      if_then (hdr / 16 % 16 == 4)
                        (λ t.
                          close_channel-Ensures resp_cap st v
                            (read_channel_id-Ensures (drop 1 packet) (bit_and hdr 3)))
                        λ t4. returns (tt, v)
