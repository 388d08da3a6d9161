-- ===== src/Fsm/Dispatch.antt =====
-- `tcp_fsm_input` in the states that close a connection, and its switch over the states.
use ai_pattarai.Common.{
  ℕ, ◌+◌, ◌*◌, Bool, true, false, ◌&&◌, not, ◌==◌, if◌then◌else◌, Option, none, some, length, u32,
  u64,
}
use ai_pattarai.Tcb.{
  Tcb, TcpState, closed, listen, syn_sent, syn_received, established, fin_wait_1, fin_wait_2,
  close_wait, closing, last_ack, time_wait, is_state,
}
use ai_pattarai.TcbStore
use ai_pattarai.Fsm.{Env, World, conn, edit, timer, arm_rto, teardown, teardown_hold, count_close}
use ai_pattarai.Fsm.Http.{is_nil}
use ai_pattarai.Fsm.Input.{
  Rx, Upper, seq_gt, seq_ge, seq_lt, ack_of, passive_open, on_syn_sent, on_syn_received,
}
use ai_pattarai.Fsm.Established.{on_established, on_close_wait}

-- A payload that is next in order, while the peer may still send.
abbrev pub take_more : Rx → Tcb → Tcb
take_more rx t =
    if not (is_nil rx.payload) && rx.seq == t.rcv_nxt
    then record t { rcv_nxt = u32 (t.rcv_nxt + length rx.payload) }
    else t

abbrev pub fin_seen : Tcb → Tcb
fin_seen t = record t { rcv_nxt = u32 (t.rcv_nxt + 1) }

abbrev pub in_state : TcpState → Tcb → Tcb
in_state s t = record t { state = s }

abbrev pub gone : World → ℕ → World
gone w ci = count_close (teardown w ci)

abbrev pub ack_if : Bool → Env → World → ℕ → World
ack_if b env w ci = if b then ack_of env w ci else w

abbrev pub is_new_ack : Rx → Tcb → Bool
is_new_ack rx t = rx.flags.ack && seq_gt rx.ack t.snd_una

abbrev pub una_set : Rx → Tcb → Tcb
una_set rx t = if is_new_ack rx t then record t { snd_una = rx.ack } else t

-- `fin_acked`
abbrev pub our_fin_acked : Rx → Tcb → Bool
our_fin_acked rx t = is_new_ack rx t && rx.ack == t.snd_nxt

abbrev pub waiting : Env → Tcb → Tcb
waiting env t = record t {
  state = fin_wait_2;
  timewait_deadline_tsc = u64 (env.now + u64 (60 * env.hz));
}

unfoldable pub on_fin_wait_1 : Env → World → ℕ → Rx → World
on_fin_wait_1 env w ci rx =
    let fin_acked = our_fin_acked rx (conn w ci) in
    let w1 = edit (edit w ci (una_set rx)) ci (take_more rx) in
    let w2 = ack_of env (edit w1 ci fin_seen) ci in
    let has_data = not (is_nil rx.payload) in
    if rx.flags.fin
    then (if fin_acked then gone w2 ci else arm_rto env (edit w2 ci (in_state closing)) ci)
    else if fin_acked
    then ack_if has_data env (timer env (edit w1 ci (waiting env)) ci) ci
    else ack_if has_data env w1 ci

unfoldable pub on_fin_wait_2 : Env → World → ℕ → Rx → World
on_fin_wait_2 env w ci rx =
    let w1 = edit w ci (take_more rx) in
    if rx.flags.fin
    then gone (ack_of env (edit w1 ci fin_seen) ci) ci
    else ack_if (not (is_nil rx.payload)) env w1 ci

unfoldable pub on_closing : World → ℕ → Rx → World
on_closing w ci rx = if rx.flags.ack && seq_ge rx.ack (conn w ci).snd_nxt then gone w ci else w

unfoldable pub on_last_ack : Env → World → ℕ → Rx → World
on_last_ack env w ci rx = if rx.flags.ack then count_close (teardown_hold env w ci) else w

-- The switch over the states.
abbrev pub on_state : Env → Upper → TcpState → World → ℕ → Rx → Option (World × Bool)
on_state env up syn_sent w ci rx = some (on_syn_sent env up w ci rx)
on_state env up syn_received w ci rx = some (on_syn_received env up w ci rx)
on_state env up established w ci rx = on_established env up w ci rx
on_state env up fin_wait_1 w ci rx = some (on_fin_wait_1 env w ci rx, false)
on_state env up fin_wait_2 w ci rx = some (on_fin_wait_2 env w ci rx, false)
on_state env up closing w ci rx = some (on_closing w ci rx, false)
on_state env up close_wait w ci rx = on_close_wait env w ci rx
on_state env up last_ack w ci rx = some (on_last_ack env w ci rx, false)
on_state env up closed w ci rx = some (w, false)
on_state env up listen w ci rx = some (w, false)
on_state env up time_wait w ci rx = some (w, false)

-- Whether a RST is for the connection as it is.
abbrev pub rst_valid : Rx → Tcb → Bool
rst_valid rx t =
    if is_state t.state syn_sent
    then rx.flags.ack && rx.ack == t.snd_nxt
    else seq_ge rx.seq t.rcv_nxt && seq_lt rx.seq (u32 (t.rcv_nxt + t.rcv_wnd))

-- "RST processing"
unfoldable pub take_rst : World → ℕ → Rx → World
take_rst w ci rx =
    let t = conn w ci in
    if rx.flags.rst && t.in_use && not (is_state t.state time_wait) && rst_valid rx t
    then teardown w ci
    else w

abbrev pub then_rst : Option (World × Bool) → ℕ → Rx → Option World
then_rst none ci rx = none
then_rst (some (w, true)) ci rx = some w
then_rst (some (w, false)) ci rx = some (take_rst w ci rx)

abbrev pub input_for : Env → Upper → World → Rx → Option ℕ → Option World
input_for env up w rx none = some (passive_open env w rx)
input_for env up w rx (some ci) = then_rst (on_state env up (conn w ci).state w ci rx) ci rx

-- `tcp_fsm_input`
unfoldable pub input : Env → Upper → World → Rx → Option World
input env up w rx =
    if rx.too_short
    then some w
    else if rx.bad_cksum
    then some w
    else input_for env up w rx (TcbStore.lookup w.worker.store rx.to)
