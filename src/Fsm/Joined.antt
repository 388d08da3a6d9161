-- ===== src/Fsm/Joined.antt =====
-- The round-trip time and the window of a new connection, as updates of its TCB.
use ai_pattarai.Common.{ℕ, ◌≡◌, refl, Bool, true, ◌&&◌, ltb, Bool-cases, inl, inr}
use ai_pattarai.Tcb.{Tcb, is_throughput}
use ai_pattarai.TcbStore.Inv.{live}
use ai_pattarai.Transmit.{update_rtt}
use ai_pattarai.Fsm.{Env, World, count_open}
use ai_pattarai.Fsm.Calls.{reset}
use ai_pattarai.Fsm.Input.{Rx, echo_us, first_rtt, opened_wide}
use ai_pattarai.Fsm.Good.{Good, Keeps}
use ai_pattarai.Fsm.InputGood.{counted-Good, update_rtt_keeps}
use ai_pattarai.Fsm.Became.{Became, Clear, Over, Over-after, Became-live}
use ai_pattarai.Fsm.Reset.{reset-Forgotten}

abbrev measures : Env → Rx → Bool
measures env rx = rx.opts.has_timestamps && ltb 0 (echo_us env rx) && ltb (echo_us env rx) 60000000

pub first_rtt-Keeps : (env : Env) (rx : Rx) → Keeps (first_rtt env rx)
first_rtt-Keeps env rx t = elim (Bool-cases (measures env rx)) [
  | inl on ↦ rw on (update_rtt_keeps t (echo_us env rx))
  | inr off ↦ rw off (refl, refl)
]

pub first_rtt-Clear : (env : Env) (rx : Rx) → Clear (first_rtt env rx)
unfolding update_rtt
first_rtt-Clear env rx t = elim (Bool-cases (measures env rx)) [
  | inl on ↦ rw on refl
  | inr off ↦ rw off refl
]

pub opened_wide-Keeps : Keeps opened_wide
opened_wide-Keeps t = elim (Bool-cases (is_throughput t.app_ctx)) [
  | inl on ↦ rw on (refl, refl)
  | inr off ↦ rw off (refl, refl)
]

pub opened_wide-Clear : Clear opened_wide
opened_wide-Clear t = elim (Bool-cases (is_throughput t.app_ctx)) [
  | inl on ↦ rw on refl
  | inr off ↦ rw off refl
]

pub opened_wide-app_state : (t : Tcb) → (opened_wide t).app_state ≡ t.app_state
opened_wide-app_state t = elim (Bool-cases (is_throughput t.app_ctx)) [
  | inl on ↦ rw on refl
  | inr off ↦ rw off refl
]

-- A field that neither the handshake nor the round trip writes.
pub first_rtt-eq :
    {A : Type 0} (env : Env) (rx : Rx) (f : Tcb → A)
    → ((t : Tcb) (a b c : ℕ) → f (record t { srtt_us = a; rttvar_us = b; rto_us = c }) ≡ f t)
    → (t : Tcb) → f (first_rtt env rx t) ≡ f t
unfolding update_rtt
first_rtt-eq env rx f h t = elim (Bool-cases (measures env rx)) [
  | inl on ↦ rw on (h t _ _ _)
  | inr off ↦ rw off (h t _ _ _)
]

pub counted-Became :
    {w w' : World} {ci : ℕ} {t : Tcb} → Became w w' ci t → Became w (count_open w') ci t
counted-Became {w' = w'} b = record {
  good = counted-Good w' b.good;
  conns = b.conns;
  pool = b.pool;
  tcb = b.tcb;
}

pub reset-Over :
    {w w' : World} {ci : ℕ} {t : Tcb} (env : Env)
    → Good w
    → live w.worker.store ci ≡ true
    → Became w w' ci t
    → Over w ci (reset env w' ci)
reset-Over {w} {w'} {ci} env g l b =
    let (good, zeroed, lookups, ports, sent, counted) =
      reset-Forgotten env w' ci b.good (Became-live b l) in
    Over-after {w'' = reset env w' ci} g b (good, zeroed, lookups, ports)
