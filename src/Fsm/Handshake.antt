-- ===== src/Fsm/Handshake.antt =====
-- The answer to a SYN that `tcp_fsm_connect` has sent.
use ai_pattarai.Common.{
  ℕ, ◌+◌, ◌≡◌, Bool, true, false, not, ◌&&◌, ◌||◌, if◌then◌else◌, u32, uint32_max,
}
use ai_pattarai.Tcb.{
  Tcb, TcpState, established, fin_wait_1, last_ack, is_state, is_null, is_throughput,
}
use ai_pattarai.TcbStore.Inv.{live}
use ai_pattarai.Fsm.{Env, World, conn}
use ai_pattarai.Fsm.Calls.{reset}
use ai_pattarai.Fsm.Input.{Rx, Upper, start_app}
use ai_pattarai.Fsm.Good.{Good}
use ai_pattarai.Fsm.Became.{Became, Over}
use ai_pattarai.Fsm.Arrives.{Arrives}
use ai_pattarai.Fsm.Opening.{w3}

-- What a TCB knows of the connection: its state, both sides' sequence numbers and windows, and what
-- the peer has offered.
pub record Known : Type 0 where
  pub state : TcpState
  pub snd_una : ℕ
  pub snd_nxt : ℕ
  pub rcv_nxt : ℕ
  pub snd_wnd : ℕ
  pub cwnd : ℕ
  pub mss : ℕ
  pub wscale : ℕ
  pub sack : Bool
  pub timestamps : Bool
  pub ts_ecr : ℕ
  pub retransmit_count : ℕ

abbrev pub known : Tcb → Known
known t = record {
  state = t.state;
  snd_una = t.snd_una;
  snd_nxt = t.snd_nxt;
  rcv_nxt = t.rcv_nxt;
  snd_wnd = t.snd_wnd;
  cwnd = t.cwnd;
  mss = t.mss_remote;
  wscale = t.wscale_remote;
  sack = t.sack_enabled;
  timestamps = t.ts_enabled;
  ts_ecr = t.ts_ecr;
  retransmit_count = t.retransmit_count;
}

-- What a SYN with ACK says, for a state, the next number to send, and a window.
abbrev pub said : Rx → TcpState → ℕ → ℕ → Known
said rx s nxt window = record {
  state = s;
  snd_una = rx.ack;
  snd_nxt = nxt;
  rcv_nxt = u32 (rx.seq + 1);
  snd_wnd = rx.win;
  cwnd = window;
  mss = (if rx.opts.has_mss then rx.opts.mss else 536);
  wscale = (if rx.opts.has_wscale then rx.opts.wscale else 0);
  sack = rx.opts.has_sack_perm;
  timestamps = rx.opts.has_timestamps;
  ts_ecr = rx.opts.ts_val;
  retransmit_count = 0;
}

-- The connections and the pool are those of `w`, both valid, and the TCB `ci` knows this.
abbrev pub Knows : World → World → ℕ → Known → Type 0
Knows w w' ci k = Became w w' ci (conn w' ci) × (known (conn w' ci) ≡ k)

-- The FIN in what the TCB knows.
abbrev closing : Known → Known
closing k = record k {
  snd_nxt = u32 (k.snd_nxt + 1);
  state = (if is_state k.state established then fin_wait_1 else last_ack);
}

abbrev widened : Known × Bool → Known
widened (k, throughput) = record k { cwnd = (if throughput then uint32_max else k.cwnd) }

module _ (env : Env) (up : Upper) (w : World) (ci : ℕ) (rx : Rx) (g : Good w)
    (l : live w.worker.store ci ≡ true) where
  -- The right answer to the SYN.
  abbrev pub Right : World → Type 0
  Right w' =
      let t = conn w ci in
      if is_null t.app_ctx
      then if t.graceful_close
        then Knows w w' ci (said rx fin_wait_1 (u32 (t.snd_nxt + 1)) rx.win)
        else Over w ci w'
      else Knows w w' ci
          (said rx established t.snd_nxt (if is_throughput t.app_ctx then uint32_max else rx.win))

  -- `on_syn_sent` with what it reads: SYN, ACK, RST, and whether the right number is acknowledged.
  answer : Bool → Bool → Bool → Bool → World × Bool
  answer syn ack rst same =
      if syn && ack
      then if same then start_app env up (w3 env up w ci rx g l) ci else (reset env w ci, true)
      else if ack && not rst && same
      then (reset env w ci, true)
      else (w, false)

  abbrev Outcome : Bool → Bool → Bool → World → Type 0
  Outcome syn ack same w' =
      if syn && ack && same
      then Right w'
      else if ack && (syn || same)
      then Over w ci w'
      else (w' ≡ w)
