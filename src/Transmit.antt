-- ===== src/Transmit.antt =====
-- How data goes out, in vaigAI/src/net/tcp_fsm.c: the retransmission timeout from the round-trip time,
-- and the draining of the send buffer into segments. `send_ok` says whether `tcp_send_segment` returns
-- 0 for the segment at an offset into the buffer.
pub mod Rtt
pub mod Drain
pub mod Frame
use ai_pattarai.Common.{
  ℕ, zero, suc, ◌+◌, ◌-◌, ◌*◌, ◌/◌, Bool, false, not, ltb, leb, ◌==◌, if◌then◌else◌, Option, none,
  some, List, [], ◌∷◌, take, drop, u32, sub32,
}
use ai_pattarai.SendBuffer.{SndBuf}
use ai_pattarai.Tcb.{Tcb}

abbrev pub max_rto_us : ℕ
max_rto_us = 60000000

abbrev pub min_rto_us : ℕ
min_rto_us = 200000

-- TGEN_MIN, TGEN_MAX and TGEN_CLAMP
abbrev pub tgen_min : ℕ → ℕ → ℕ
tgen_min a b = if ltb a b then a else b

abbrev pub tgen_max : ℕ → ℕ → ℕ
tgen_max a b = if ltb b a then a else b

abbrev pub clamp : ℕ → ℕ → ℕ → ℕ
clamp v lo hi = tgen_max lo (tgen_min v hi)

unfoldable pub update_rtt : Tcb → ℕ → Tcb
update_rtt t rtt_us =
    let delta = if ltb t.srtt_us rtt_us then sub32 rtt_us t.srtt_us else sub32 t.srtt_us rtt_us in
    let rttvar = if t.srtt_us == 0 then rtt_us / 2 else u32 (u32 (3 * t.rttvar_us) + delta) / 4 in
    let srtt = if t.srtt_us == 0 then rtt_us else u32 (u32 (7 * t.srtt_us) + rtt_us) / 8 in
    let rto_us = u32 (srtt + 4 * rttvar) in
    record t { srtt_us = srtt; rttvar_us = rttvar; rto_us = clamp rto_us min_rto_us max_rto_us }

abbrev pub effective_mss : Tcb → ℕ
effective_mss t =
    let opts = if t.ts_enabled then 12 else 0 in
    if ltb opts t.mss_remote then t.mss_remote - opts else 1

-- The arguments of `tcp_send_segment` that differ from call to call.
pub record Segment : Type 0 where
  pub payload : List ℕ
  pub seq : ℕ
  pub ack : ℕ

abbrev pub window : Tcb → ℕ
window t = tgen_min t.cwnd t.snd_wnd

-- What a round of the loop may send, before it is cut to a segment: the lesser of `unsent` and `avail`.
abbrev pub sendable : Tcb → SndBuf → ℕ → ℕ
sendable t sb offset =
    let in_flight = sub32 t.snd_nxt t.snd_una in
    let wnd = window t in
    let avail = if ltb in_flight wnd then wnd - in_flight else 0 in
    tgen_min (sub32 sb.len offset) avail

-- After a segment with an acknowledgement: `tcp_send_segment` clears the pending one.
abbrev pub sent_segment : Tcb → ℕ → Tcb
sent_segment t send_len = record t { pending_ack = false; snd_nxt = u32 (t.snd_nxt + send_len) }

-- The loop of `snd_buf_drain` on fuel: the segments sent, and the TCB.
unfoldable pub drain_loop : (ℕ → Bool) → ℕ → Tcb → SndBuf → ℕ → List Segment × Tcb
drain_loop send_ok zero t sb offset = ([], t)
drain_loop send_ok (suc fuel) t sb offset =
    let send_len = tgen_min (sendable t sb offset) (effective_mss t) in
    let segment : Segment = record {
      payload = take send_len (drop offset sb.bytes);
      seq = t.snd_nxt;
      ack = t.rcv_nxt;
    } in
    let rest = drain_loop send_ok fuel (sent_segment t send_len) sb (u32 (offset + send_len)) in
    if leb sb.len offset
    then ([], t)
    else if sendable t sb offset == 0
    then ([], t)
    else if not (send_ok offset)
    then ([], t)
    else (segment ∷ rest.0, rest.1)

-- `snd_buf_drain`; each round sends a byte at least, so `len` rounds are enough.
abbrev pub drain_buf : (ℕ → Bool) → Tcb → Option SndBuf → List Segment × Tcb
drain_buf send_ok t none = ([], t)
drain_buf send_ok t (some sb) =
    if sb.len == 0 then ([], t) else drain_loop send_ok sb.len t sb (sub32 t.snd_nxt t.snd_una)

unfoldable pub snd_buf_drain : (ℕ → Bool) → Tcb → List Segment × Tcb
snd_buf_drain send_ok t = drain_buf send_ok t t.snd_buf
