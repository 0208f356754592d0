-- ===== src/Dvc/Handle.antt =====
-- src/channels/drdynvc.c: `rdp_drdynvc_handle`, with the data and close PDUs.
use rdpserver.Base.{ℕ, ◌/◌, ◌%◌, Bool, true, false, not, ◌&&◌}
use rdpserver.Base.{Option, List, leb, ◌==◌, if◌then◌else◌, length, drop, bit_and}
use rdpserver.Base.{Read, ok, err, fault, ◌>>=◌, ◌>>◌, guard, at}
use rdpserver.Buf.{u16}
use rdpserver.Vchan.{Result, bad, more, complete}
use rdpserver.Dvc.State.{
  DvcReasm, Channel, State, minus_one, non_negative, positive, dvc_reasm_feed,
}
use rdpserver.Dvc.Create.{Outcome, refused, code, pdu, ld32, read_channel_id, handle_create}
use rdpserver.Dvc.Display.{display_update}

-- The length field of a first fragment: `total_len` and `skip`. The fourth size is not used, and
-- has neither.
unfoldable pub read_total : ℕ → List ℕ → Read (ℕ × ℕ)
read_total len_sz src =
    if len_sz == 0
    then (do guard (leb 1 (length src)); a ← at src 0; ok (a, 1))
    else if len_sz == 1
    then (do guard (leb 2 (length src)); a ← at src 0; b ← at src 1; ok (u16 a b, 2))
    else if len_sz == 2
    then (do guard (leb 4 (length src)); total ← ld32 src 0; ok (total, 4))
    else ok (0, 0)

-- `return rc < 0 ? -1 : rc == 0 ? 0 : done;`
unfoldable pub fed : ℕ → Result → Outcome
fed done bad = refused
fed done more = code 0
fed done (complete bytes) = pdu done bytes

-- The channel's reassembly gets the fragment: the outcome, and the reassembly afterwards.
abbrev pub deliver : (ℕ → Option (List ℕ)) → ℕ → Bool → ℕ → List ℕ → DvcReasm → Outcome × DvcReasm
deliver alloc done first total src r =
    let t = dvc_reasm_feed alloc r first total src in (fed done t.0, t.1)

-- A fragment for the channel `id`. `want`: the caller asks for complete PDUs (both pointers are
-- not NULL).
unfoldable pub route :
    (ℕ → Option (List ℕ)) → State → Bool → ℕ → Bool → ℕ → List ℕ → Read (Outcome × State)
route alloc st want id first total src =
    if (id == st.gfx.id) && want
    then (let t = deliver alloc 3 first total src st.gfx_reasm in
        ok (t.0, record st { gfx_reasm = t.1 }))
    else if (id == st.audioin.id) && non_negative st.audioin.id && want
    then (let t = deliver alloc 9 first total src st.ai_reasm in
        ok (t.0, record st { ai_reasm = t.1 }))
    else if (id == st.rdpei.id) && non_negative st.rdpei.id && want
    then (let t = deliver alloc 12 first total src st.rei_reasm in
        ok (t.0, record st { rei_reasm = t.1 }))
    else if (id == st.camenum.id) && positive st.camenum.id && want
    then (let t = deliver alloc 15 first total src st.ce_reasm in
        ok (t.0, record st { ce_reasm = t.1 }))
    else if (id == st.camdev.id) && positive st.camdev.id && want
    then (let t = deliver alloc 16 first total src st.cd_reasm in
        ok (t.0, record st { cd_reasm = t.1 }))
    else if not (id == st.disp.id)
    then ok (code 0, st)
    else (do o ← display_update src; ok (o, st))

-- A DATA PDU, or with `first` a DATA_FIRST PDU.
unfoldable pub handle_data :
    (ℕ → Option (List ℕ)) → State → Bool → Bool → ℕ → List ℕ → Read (Outcome × State)
unfolding read_total
handle_data alloc st want first hdr p = do
  (id, id_len) ← read_channel_id p (bit_and hdr 3)
  let body = drop id_len p
  (total, skip) ← (if first then read_total (hdr / 4 % 4) body else ok (0, 0))
  route alloc st want id first total (drop skip body)

abbrev closed : Channel → Channel
closed c = record { id = minus_one; create_pending = false }

-- A CLOSE PDU, behind `read_channel_id`, whose failure is a 0 here.
unfoldable pub close_channel : State → Read (ℕ × ℕ) → Read (Outcome × State)
close_channel st fault = fault
close_channel st err = ok (code 0, st)
close_channel st (ok (id, id_len)) =
    if id == st.gfx.id
    then ok (code 7, record st { gfx = record st.gfx { id = minus_one } })
    else if positive st.camdev.id && (id == st.camdev.id)
    then ok (code 0, record st { camdev = closed st.camdev })
    else if positive st.camenum.id && (id == st.camenum.id)
    then ok (code 0, record st { camenum = closed st.camenum })
    else ok (code 0, st)

-- `want`, `resp_cap`: what the caller has room for.
unfoldable pub handle : (ℕ → Option (List ℕ)) → State → List ℕ → ℕ → Bool → Read (Outcome × State)
unfolding close_channel
handle alloc st packet resp_cap want = do
  guard (leb 1 (length packet))
  hdr ← at packet 0
  let p = drop 1 packet
  if hdr / 16 % 16 == 5
      then ok (code 5, record st { caps_exchanged = true })
      else if hdr / 16 % 16 == 1
      then handle_create st hdr p resp_cap
      else if hdr / 16 % 16 == 3
      then handle_data alloc st want false hdr p
      else if hdr / 16 % 16 == 2
      then handle_data alloc st want true hdr p
      else if hdr / 16 % 16 == 4
      then close_channel st (read_channel_id p (bit_and hdr 3))
      else ok (code 0, st)
