-- ===== src/Fsm/Arrives.antt =====
-- A sound segment of a connection on its way to the handler, and what the closing states take of it.
use ai_pattarai.Common.{
  ℕ, ◌≡◌, refl, sym, ap, ◌∙◌, Bool, true, false, not, ◌&&◌, ◌==◌, if◌then◌else◌, Bool-cases, inl,
  inr, some,
}
use ai_pattarai.Tcb.{Tcb, Tuple, TcpState}
use ai_pattarai.TcbStore.{lookup}
use ai_pattarai.TcbStore.Inv.{live}
use ai_pattarai.TcbStore.Lookup.{lookup_at}
use ai_pattarai.Fsm.{Env, World, conn}
use ai_pattarai.Fsm.Http.{is_nil}
use ai_pattarai.Fsm.Input.{Rx, Upper, ack_of}
use ai_pattarai.Fsm.Dispatch.{
  take_more, ack_if, is_new_ack, una_set, on_state, take_rst, then_rst, input_for, input,
}
use ai_pattarai.Fsm.Good.{Good, Keeps}
use ai_pattarai.Fsm.View.{if-Quiet, Quiet, Quiet-refl, transmit-Quiet}
use ai_pattarai.Fsm.InputGood.{ack_of-Good}
use ai_pattarai.Fsm.CallsGood.{if-Good}
use ai_pattarai.Fsm.Became.{Clear}

-- A sound segment of the connection `q`, without RST.
abbrev pub Arrives : Tuple → Rx → Type 0
Arrives q rx =
    (rx.to ≡ q) × (rx.too_short ≡ false) × (rx.bad_cksum ≡ false) × (rx.flags.rst ≡ false)

take_rst-eq : (w : World) (ci : ℕ) (rx : Rx) → rx.flags.rst ≡ false → take_rst w ci rx ≡ w
unfolding take_rst
take_rst-eq w ci rx e = rw e refl

then_rst-eq :
    (w : World) (b : Bool) (ci : ℕ) (rx : Rx)
    → rx.flags.rst ≡ false
    → then_rst (some (w, b)) ci rx ≡ some w
then_rst-eq w true ci rx e = refl
then_rst-eq w false ci rx e = ap some (take_rst-eq w ci rx e)

-- A segment without RST that finds its connection goes to the handler of the state.
pub input-eq :
    (env : Env) (up : Upper) (w w' : World) (b : Bool) (ci : ℕ) (rx : Rx) (s : TcpState)
    → Good w
    → live w.worker.store ci ≡ true
    → Arrives (conn w ci).tuple rx
    → (conn w ci).state ≡ s
    → on_state env up s w ci rx ≡ some (w', b)
    → input env up w rx ≡ some w'
unfolding input
input-eq env up w w' b ci rx s g l (to, long, sum, rst) state handled =
    let found : lookup w.worker.store rx.to ≡ some ci =
      lookup_at w.worker.store rx.to ci g.store g.unique l (sym to) in
    let wanted = input_for env up w rx (lookup w.worker.store rx.to) in
    ap (λ (u : Bool). if u then some w else if rx.bad_cksum then some w else wanted) long
    ∙ ap (λ (u : Bool). if u then some w else wanted) sum
    ∙ ap (input_for env up w rx) found
    ∙ ap (λ x. then_rst (on_state env up x w ci rx) ci rx) state
    ∙ ap (λ o. then_rst o ci rx) handled
    ∙ then_rst-eq w' b ci rx rst

pub una_set-Keeps : (rx : Rx) → Keeps (una_set rx)
una_set-Keeps rx t = elim (Bool-cases (is_new_ack rx t)) [
  | inl fresh ↦ rw fresh (refl, refl)
  | inr stale ↦ rw stale (refl, refl)
]

pub una_set-Clear : (rx : Rx) → Clear (una_set rx)
una_set-Clear rx t = elim (Bool-cases (is_new_ack rx t)) [
  | inl fresh ↦ rw fresh refl
  | inr stale ↦ rw stale refl
]

abbrev in_order : Rx → Tcb → Bool
in_order rx t = not (is_nil rx.payload) && rx.seq == t.rcv_nxt

pub take_more-Keeps : (rx : Rx) → Keeps (take_more rx)
take_more-Keeps rx t = elim (Bool-cases (in_order rx t)) [
  | inl next ↦ rw next (refl, refl)
  | inr other ↦ rw other (refl, refl)
]

pub take_more-Clear : (rx : Rx) → Clear (take_more rx)
take_more-Clear rx t = elim (Bool-cases (in_order rx t)) [
  | inl next ↦ rw next refl
  | inr other ↦ rw other refl
]

pub ack_if-Quiet : (b : Bool) (env : Env) (w : World) (ci : ℕ) → Quiet w (ack_if b env w ci)
ack_if-Quiet b env w ci =
    if-Quiet w b (ack_of env w ci) w (transmit-Quiet env w ci _ _ _ _) (Quiet-refl w)

pub ack_if-Good : (b : Bool) (env : Env) (w : World) (ci : ℕ) → Good w → Good (ack_if b env w ci)
ack_if-Good b env w ci g = if-Good b (ack_of env w ci) w (ack_of-Good env w ci g) g
