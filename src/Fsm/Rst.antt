-- ===== src/Fsm/Rst.antt =====
-- What a RST without ACK, FIN or data does to a connection, in every state: `tcp_fsm_input` tears it
-- down if the sequence number lies in the receive window.
use ai_pattarai.Common.{
  ℕ, ◌<◌, ◌≤◌, ◌^◌, ◌+◌, u32, sub32, ltb, arith, ◌≡◌, refl, ap, ◌∙◌, Bool, true, false, not, ◌&&◌,
  if◌then◌else◌, Bool-cases, inl, inr, some, [],
}
use ai_pattarai.Tcb.{
  Tcb, Tuple, TcpState, closed, listen, syn_sent, syn_received, established, fin_wait_1, fin_wait_2,
  close_wait, closing, last_ack, time_wait, is_state,
}
use ai_pattarai.TcbStore.Inv.{live}
use ai_pattarai.TcbStore.Lookup.{lookup_at}
use ai_pattarai.Options.{ParsedOpts}
use ai_pattarai.Fsm.{Env, World, conn, edit, teardown}
use ai_pattarai.Fsm.Input.{Rx, Upper, seq_ge, seq_lt, on_syn_sent, on_syn_received}
use ai_pattarai.Fsm.Established.{
  echoed, take_ack, take_data, take_fin, on_established, on_close_wait,
}
use ai_pattarai.Fsm.Dispatch.{
  take_more, una_set, on_fin_wait_1, on_fin_wait_2, on_closing, on_last_ack, on_state, rst_valid,
  take_rst, then_rst, input_for, input,
}
use ai_pattarai.Fsm.Good.{Good, Keeps}
use ai_pattarai.Fsm.Became.{
  Became, Clear, Over, Became-refl, Became-live, edit-Became, teardown-Over,
}

-- The segment: sound, with the RST flag alone and no data.
abbrev pub bare_rst : Tuple → ℕ → ℕ → ℕ → ParsedOpts → Rx
bare_rst q seq ack win opts = record {
  to = q;
  too_short = false;
  bad_cksum = false;
  flags = record { syn = false; ack = false; fin = false; rst = true };
  seq = seq;
  ack = ack;
  win = win;
  opts = opts;
  payload = [];
}

-- ESTABLISHED takes the timestamp of every segment.
abbrev pub stamped : TcpState → Rx → Tcb → Tcb
stamped established rx t = echoed rx t
stamped _ rx t = t

echoed-Keeps : (rx : Rx) → Keeps (echoed rx)
echoed-Keeps rx t = elim (Bool-cases (rx.opts.has_timestamps && t.ts_enabled)) [
  | inl on ↦ rw on (refl, refl)
  | inr off ↦ rw off (refl, refl)
]

echoed-Clear : (rx : Rx) → Clear (echoed rx)
echoed-Clear rx t = elim (Bool-cases (rx.opts.has_timestamps && t.ts_enabled)) [
  | inl on ↦ rw on refl
  | inr off ↦ rw off refl
]

-- The receive window, when it is at most half of the sequence numbers.
abbrev pub in_window : ℕ → Tcb → Bool
in_window seq t = ltb (sub32 seq t.rcv_nxt) t.rcv_wnd

window_eq :
    (seq next wnd : ℕ)
    → seq < 2 ^ 32
    → next < 2 ^ 32
    → wnd ≤ 2 ^ 31
    → (seq_ge seq next && seq_lt seq (u32 (next + wnd))) ≡ ltb (sub32 seq next) wnd
window_eq seq next wnd a b c = ground arith

if-not : (b c : Bool) → (if b then false else c) ≡ (not b && c)
if-not true c = refl
if-not false c = refl

module _ (env : Env) (up : Upper) (w : World) (ci seq ack win : ℕ) (opts : ParsedOpts) (g : Good w)
    (l : live w.worker.store ci ≡ true) where
  abbrev pub rst : Rx
  rst = bare_rst (conn w ci).tuple seq ack win opts

  abbrev Handled : TcpState → Type 0
  Handled s =
      (w' : World) × (on_state env up s w ci rst ≡ some (w', false))
      × Became w w' ci (stamped s rst (conn w ci))

  same : Became w w ci (conn w ci)
  same = Became-refl w ci g

  unseen : Became w (edit w ci (take_more rst)) ci (conn w ci)
  unseen = edit-Became (take_more rst) (λ t. (refl, refl)) (λ t. refl) l same

  handled : (s : TcpState) → Handled s
  unfolding on_syn_sent on_syn_received on_established take_ack take_data take_fin on_fin_wait_1
      on_fin_wait_2 on_closing on_close_wait on_last_ack
  handled closed = (w, refl, same)
  handled listen = (w, refl, same)
  handled syn_sent = (w, refl, same)
  handled syn_received = (w, refl, same)
  handled established = (
    edit w ci (echoed rst),
    refl,
    edit-Became (echoed rst) (echoed-Keeps rst) (echoed-Clear rst) l same,
  )
  handled fin_wait_1 = (
    edit (edit w ci (una_set rst)) ci (take_more rst),
    refl,
    edit-Became (take_more rst) (λ t. (refl, refl)) (λ t. refl) l
        (edit-Became (una_set rst) (λ t. (refl, refl)) (λ t. refl) l same),
  )
  handled fin_wait_2 = (edit w ci (take_more rst), refl, unseen)
  handled close_wait = (w, refl, same)
  handled closing = (w, refl, same)
  handled last_ack = (w, refl, same)
  handled time_wait = (w, refl, same)

  -- What the timestamp does not show in.
  stamped-eq :
      {A : Type 0} (f : Tcb → A)
      → ((t : Tcb) (n : ℕ) → f (record t { ts_ecr = n }) ≡ f t)
      → (s : TcpState) (t : Tcb) → f (stamped s rst t) ≡ f t
  stamped-eq f h established t = elim (Bool-cases (opts.has_timestamps && t.ts_enabled)) [
    | inl on ↦ rw on (h t opts.ts_val)
    | inr off ↦ rw off refl
  ]
  stamped-eq f h closed t = refl
  stamped-eq f h listen t = refl
  stamped-eq f h syn_sent t = refl
  stamped-eq f h syn_received t = refl
  stamped-eq f h fin_wait_1 t = refl
  stamped-eq f h fin_wait_2 t = refl
  stamped-eq f h close_wait t = refl
  stamped-eq f h closing t = refl
  stamped-eq f h last_ack t = refl
  stamped-eq f h time_wait t = refl

  abbrev valid : Bool
  valid = rst_valid rst (conn w ci)

  taken-eq :
      (w' : World)
      → is_state (conn w ci).state time_wait ≡ false
      → Became w w' ci (stamped (conn w ci).state rst (conn w ci))
      → take_rst w' ci rst ≡ (if valid then teardown w' ci else w')
  unfolding take_rst
  taken-eq w' awake b =
      let s = (conn w ci).state in
      let lives = Became-live b l in
      let state =
        ap (λ (x : Tcb). x.state) b.tcb ∙ stamped-eq (λ x. x.state) (λ t n. refl) s (conn w ci) in
      let judged =
        ap (rst_valid rst) b.tcb ∙ stamped-eq (rst_valid rst) (λ t n. refl) s (conn w ci) in
      let torn = teardown w' ci in
      ap
        (λ (u : Bool).
          if u && not (is_state (conn w' ci).state time_wait) && rst_valid rst (conn w' ci)
          then torn
          else w')
        lives
      ∙ ap (λ x. if not (is_state x time_wait) && rst_valid rst (conn w' ci) then torn else w')
          state
      ∙ ap (λ (u : Bool). if not u && rst_valid rst (conn w' ci) then torn else w') awake
      ∙ ap (λ (u : Bool). if u then torn else w') judged

  valid_eq :
      seq < 2 ^ 32
      → (conn w ci).rcv_nxt < 2 ^ 32
      → (conn w ci).rcv_wnd ≤ 2 ^ 31
      → valid ≡ (not (is_state (conn w ci).state syn_sent) && in_window seq (conn w ci))
  valid_eq a b c =
      let t = conn w ci in
      let inside = seq_ge seq t.rcv_nxt && seq_lt seq (u32 (t.rcv_nxt + t.rcv_wnd)) in
      ap (λ (u : Bool). if is_state t.state syn_sent then false else u)
        (window_eq seq t.rcv_nxt t.rcv_wnd a b c)
      ∙ if-not (is_state t.state syn_sent) (in_window seq t)

  abbrev judged : Bool
  judged = not (is_state (conn w ci).state syn_sent) && in_window seq (conn w ci)

  -- A sound RST without SYN, ACK, FIN or data for a live connection of a valid state, in any state but
  -- TIME_WAIT, with sequence numbers of 32 bits and a receive window of at most 2^31: `tcp_fsm_input`
  -- returns, and ends the connection exactly if the sequence number lies in the window, across the
  -- wrap-around too, and never in SYN_SENT. Otherwise the connections and the pool stay as they are,
  -- and of this TCB nothing changes but the echoed timestamp, links, the timeout and whether an
  -- acknowledgement is pending.
  pub bare_rst_lem :
      is_state (conn w ci).state time_wait ≡ false
      → seq < 2 ^ 32
      → (conn w ci).rcv_nxt < 2 ^ 32
      → (conn w ci).rcv_wnd ≤ 2 ^ 31
      → (w' : World) × (input env up w rst ≡ some w')
        × (if not (is_state (conn w ci).state syn_sent) && in_window seq (conn w ci)
            then Over w ci w'
            else Became w w' ci (stamped (conn w ci).state rst (conn w ci)))
  unfolding input
  bare_rst_lem awake a b c =
      let (w1, e, same_one) = handled (conn w ci).state in
      let found = lookup_at w.worker.store (conn w ci).tuple ci g.store g.unique l refl in
      let torn = teardown w1 ci in
      let whole =
        ap (input_for env up w rst) found
        ∙ ap (λ o. then_rst o ci rst) e
        ∙ ap some (taken-eq w1 awake same_one)
        ∙ ap (λ (u : Bool). some (if u then torn else w1)) (valid_eq a b c) in
      elim (Bool-cases judged) [
        | inl ends ↦ rw ends (
          torn,
          whole ∙ ap (λ (u : Bool). some (if u then torn else w1)) ends,
          teardown-Over g l same_one,
        )
        | inr stays ↦
            rw stays (w1, whole ∙ ap (λ (u : Bool). some (if u then torn else w1)) stays, same_one)
      ]
