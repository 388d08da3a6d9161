-- ===== src/Fsm/Resend.antt =====
-- What a retransmission leaves alone.
use ai_pattarai.Common.{
  ℕ, ◌+◌, ◌<◌, ◌≡◌, refl, ap, ◌∙◌, if◌then◌else◌, Bool-cases, inl, inr, [], arith, u8, min, length,
  length-set,
}
use ai_pattarai.Tcb.{
  Tcb, TcpState, closed, listen, syn_sent, syn_received, established, fin_wait_1, fin_wait_2,
  close_wait, closing, last_ack, time_wait,
}
use ai_pattarai.Transmit.{tgen_min, snd_buf_drain}
use ai_pattarai.Transmit.Frame.{snd_buf_drain-Sent}
use ai_pattarai.Fsm.{
  Env, World, Flags, conn, edit, transmit, flags_syn, flags_syn_ack, flags_fin_ack,
}
use ai_pattarai.Fsm.Calls.{drain, go_back, has_queued, resend}
use ai_pattarai.Fsm.View.{view, transmit-Quiet, conn-edit}

pub tgen_min-eq : (a b : ℕ) → tgen_min a b ≡ min a b
tgen_min-eq a b = ground arith

-- A TCB without what a retransmission writes.
abbrev pub steady : Tcb → Tcb
steady t = record (view t) { snd_nxt = 0 }

pub edit-length :
    (w : World) (ci : ℕ) (f : Tcb → Tcb)
    → length (edit w ci f).worker.store.tcbs ≡ length w.worker.store.tcbs
edit-length w ci f = length-set w.worker.store.tcbs ci (f (conn w ci))

drain-steady :
    (env : Env) (w : World) (ci : ℕ)
    → ci < length w.worker.store.tcbs
    → steady (conn (drain env w ci) ci) ≡ steady (conn w ci)
unfolding drain
drain-steady env w ci h =
    let r = snd_buf_drain (env.accepts w.out) (conn w ci) in
    ap steady (conn-edit w ci (λ u. r.1) h)
    ∙ ap steady (snd_buf_drain-Sent (env.accepts w.out) (conn w ci)).same

transmit-steady :
    (env : Env) (w : World) (ci : ℕ) (flags : Flags) (seq ack : ℕ)
    → steady (conn (transmit env w ci flags [] seq ack) ci) ≡ steady (conn w ci)
transmit-steady env w ci flags seq ack =
    ap (λ (t : Tcb). record t { snd_nxt = 0 }) ((transmit-Quiet env w ci flags [] seq ack).views ci)

redrain-steady :
    (env : Env) (w : World) (ci : ℕ)
    → ci < length w.worker.store.tcbs
    → steady
        (conn (if has_queued (conn w ci).snd_buf then drain env (edit w ci go_back) ci else w) ci)
      ≡ steady (conn w ci)
redrain-steady env w ci h = elim (Bool-cases (has_queued (conn w ci).snd_buf)) [
  | inr empty ↦ rw empty refl
  | inl queued ↦ rw queued (
      drain-steady env (edit w ci go_back) ci (rw (edit-length w ci go_back) h)
      ∙ ap steady (conn-edit w ci go_back h))
]

pub resend-steady :
    (env : Env) (w : World) (ci : ℕ) (s : TcpState)
    → ci < length w.worker.store.tcbs
    → steady (conn (resend env w ci s) ci) ≡ steady (conn w ci)
resend-steady env w ci syn_sent h = transmit-steady env w ci flags_syn (conn w ci).snd_una 0
resend-steady env w ci syn_received h =
    transmit-steady env w ci flags_syn_ack (conn w ci).snd_una (conn w ci).rcv_nxt
resend-steady env w ci fin_wait_1 h =
    transmit-steady env w ci flags_fin_ack (conn w ci).snd_una (conn w ci).rcv_nxt
resend-steady env w ci last_ack h =
    transmit-steady env w ci flags_fin_ack (conn w ci).snd_una (conn w ci).rcv_nxt
resend-steady env w ci established h = redrain-steady env w ci h
resend-steady env w ci close_wait h = redrain-steady env w ci h
resend-steady env w ci closed h = refl
resend-steady env w ci listen h = refl
resend-steady env w ci fin_wait_2 h = refl
resend-steady env w ci closing h = refl
resend-steady env w ci time_wait h = refl

abbrev pub counted_up : Tcb → Tcb
counted_up t = record t { retransmit_count = u8 (t.retransmit_count + 1) }
