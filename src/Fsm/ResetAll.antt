-- ===== src/Fsm/ResetAll.antt =====
-- `tcp_fsm_reset_all`: a RST for every connection, and an empty store. Buffers are freed with it.
use ai_pattarai.Common.{
  ℕ, zero, suc, ◌+◌, ◌≡◌, refl, sym, ap, ◌∙◌, Bool, true, false, if◌then◌else◌, Bool-cases, inl,
  inr, none, List, [], ◌∷◌, ◌++◌, map_at-set, leb,
}
use mathlib.Core.List.{append-nil, append_assoc}
use ai_pattarai.Tcb.{Tcb, Tuple, zero_tcb}
use ai_pattarai.Worker.{Store}
use ai_pattarai.TcbStore
use ai_pattarai.TcbStore.{lookup}
use ai_pattarai.TcbStore.Inv.{live}
use ai_pattarai.TcbStore.Empty.{reset-empties}
use ai_pattarai.TimerWheel.Frame.{SameConns, SameConns-refl}
use ai_pattarai.Fsm.{
  Env, World, Packet, conn, edit, transmit, detach_tls, no_session, flags_rst_ack,
}
use ai_pattarai.Fsm.Good.{Good, edit-Good, put-SameConns, transmit-Good}
use ai_pattarai.Fsm.View.{view, SameConns-trans, transmit-Quiet}
use ai_pattarai.Fsm.Reset.{rst_packet}

abbrev pub unbuffered : Tcb → Tcb
unbuffered t = record t { snd_buf = none }

-- One round of the loop.
unfoldable pub cut : Env → World → ℕ → World
cut env w i =
    let w1 = transmit env w i flags_rst_ack [] (conn w i).snd_nxt (conn w i).rcv_nxt in
    if (conn w i).in_use then edit (detach_tls w1 i) i unbuffered else w

-- The loop, with `n` rounds left.
unfoldable pub cut_loop : Env → ℕ → ℕ → World → World
cut_loop env zero i w = w
cut_loop env (suc n) i w = cut_loop env n (i + 1) (cut env w i)

unfoldable pub reset_all : Env → World → World
reset_all env w =
    let w1 = cut_loop env w.worker.store.capacity 0 w in
    record w1 { worker = TcbStore.reset w1.worker }

-- A TCB without what the loop writes.
abbrev still : Tcb → Tcb
still t = record (view t) { app_state = 0; snd_buf = none }

record Cuts (w w' : World) : Type 0 where
  good : Good w'
  conns : SameConns w.worker.store w'.worker.store
  stills : (j : ℕ) → still (conn w' j) ≡ still (conn w j)
  pool : w'.pool ≡ w.pool

Cuts-refl : (w : World) → Good w → Cuts w w
Cuts-refl w g = record {
  good = g;
  conns = SameConns-refl w.worker.store;
  stills = λ j. refl;
  pool = refl;
}

Cuts-trans : {a b c : World} → Cuts a b → Cuts b c → Cuts a c
Cuts-trans x y = record {
  good = y.good;
  conns = SameConns-trans x.conns y.conns;
  stills = λ j. y.stills j ∙ x.stills j;
  pool = y.pool ∙ x.pool;
}

-- An update that shows in nothing else.
edit-Cuts :
    (w : World) (i : ℕ) (f : Tcb → Tcb)
    → Good w
    → ((t : Tcb) → still (f t) ≡ still t)
    → Cuts w (edit w i f)
edit-Cuts w i f g e =
    let same = e (conn w i) in
    record {
      good =
          edit-Good w i f (λ t. (ap (λ (x : Tcb). x.tuple) (e t), ap (λ (x : Tcb). x.in_use) (e t)))
            g;
      conns =
          put-SameConns w.worker i (f (conn w i)) (ap (λ (t : Tcb). t.tuple) same)
            (ap (λ (t : Tcb). t.in_use) same);
      stills = λ j. map_at-set still w.worker.store.tcbs i (f (conn w i)) zero_tcb same j;
      pool = refl;
    }

no_session-still : (t : Tcb) → still (no_session t) ≡ still t
no_session-still t = elim (Bool-cases (leb 2 t.app_state)) [
  | inl on ↦ rw on refl
  | inr off ↦ rw off refl
]

cut-Cuts : (env : Env) (w : World) (i : ℕ) → Good w → Cuts w (cut env w i)
unfolding cut detach_tls
cut-Cuts env w i g =
    let seq = (conn w i).snd_nxt in
    let ack = (conn w i).rcv_nxt in
    let w1 = transmit env w i flags_rst_ack [] seq ack in
    let q = transmit-Quiet env w i flags_rst_ack [] seq ack in
    let c1 : Cuts w w1 = record {
      good = transmit-Good env w i flags_rst_ack [] seq ack g;
      conns = q.conns;
      stills = λ j. ap still (q.views j);
      pool = q.pool;
    } in
    let c2 = edit-Cuts w1 i no_session c1.good no_session-still in
    let c3 = edit-Cuts (edit w1 i no_session) i unbuffered c2.good (λ t. refl) in
    elim (Bool-cases (conn w i).in_use) [
      | inl on ↦ rw on (Cuts-trans c1 (Cuts-trans c2 c3))
      | inr off ↦ rw off (Cuts-refl w g)
    ]

cut_loop-Cuts : (env : Env) (n i : ℕ) (w : World) → Good w → Cuts w (cut_loop env n i w)
unfolding cut_loop
cut_loop-Cuts env zero i w g = Cuts-refl w g
cut_loop-Cuts env (suc n) i w g =
    let c = cut-Cuts env w i g in Cuts-trans c (cut_loop-Cuts env n (i + 1) (cut env w i) c.good)

-- The resets of the connections from `i` on, in the order of their TCBs.
pub rsts : World → ℕ → ℕ → List Packet
rsts w zero i = []
rsts w (suc n) i =
    let rest = rsts w n (i + 1) in if (conn w i).in_use then rst_packet w i ∷ rest else rest

abbrev rst_of : Tcb → Packet
rst_of t = record {
  conn = t.tuple;
  flags = flags_rst_ack;
  segment = record { payload = []; seq = t.snd_nxt; ack = t.rcv_nxt };
}

rsts-Cuts : (w w' : World) → Cuts w w' → (n i : ℕ) → rsts w' n i ≡ rsts w n i
unfolding rsts
rsts-Cuts w w' c zero i = refl
rsts-Cuts w w' c (suc n) i =
    let one = λ (t : Tcb). if t.in_use then rst_of t ∷ rsts w' n (i + 1) else rsts w' n (i + 1) in
    let here : one (conn w' i) ≡ one (conn w i) = ap one (c.stills i) in
    here
    ∙ ap (λ r. if (conn w i).in_use then rst_packet w i ∷ r else r) (rsts-Cuts w w' c n (i + 1))

rst_out : Env → World → ℕ → World
rst_out env w i = transmit env w i flags_rst_ack [] (conn w i).snd_nxt (conn w i).rcv_nxt

transmit-out :
    (env : Env) (w : World) (i : ℕ)
    → ((sent : List Packet) (at : ℕ) → env.accepts sent at ≡ true)
    → (rst_out env w i).out ≡ w.out ++ (rst_packet w i ∷ [])
unfolding transmit rst_out
transmit-out env w i ok = rw (ok w.out (conn w i).snd_nxt) refl

cut-out :
    (env : Env) (w : World) (i : ℕ) (rest : List Packet)
    → ((sent : List Packet) (at : ℕ) → env.accepts sent at ≡ true)
    → (cut env w i).out ++ rest
      ≡ w.out ++ (if (conn w i).in_use then rst_packet w i ∷ rest else rest)
unfolding cut detach_tls rst_out
cut-out env w i rest ok =
    let w1 = rst_out env w i in
    let done = edit (detach_tls w1 i) i unbuffered in
    elim (Bool-cases (conn w i).in_use) [
      | inl on ↦
          ap (λ (b : Bool). (if b then done else w).out ++ rest) on
          ∙ ap (λ o. o ++ rest) (transmit-out env w i ok)
          ∙ append_assoc w.out (rst_packet w i ∷ []) rest
          ∙ ap (λ (b : Bool). w.out ++ (if b then rst_packet w i ∷ rest else rest)) (sym on)
      | inr off ↦
          ap (λ (b : Bool). (if b then done else w).out ++ rest) off
          ∙ ap (λ (b : Bool). w.out ++ (if b then rst_packet w i ∷ rest else rest)) (sym off)
    ]

cut_loop-out :
    (env : Env) (n i : ℕ) (w : World)
    → Good w
    → ((sent : List Packet) (at : ℕ) → env.accepts sent at ≡ true)
    → (cut_loop env n i w).out ≡ w.out ++ rsts w n i
unfolding cut_loop rsts
cut_loop-out env zero i w g ok = sym (append-nil w.out)
cut_loop-out env (suc n) i w g ok =
    let c = cut-Cuts env w i g in
    cut_loop-out env n (i + 1) (cut env w i) c.good ok
    ∙ ap (λ r. (cut env w i).out ++ r) (rsts-Cuts w (cut env w i) c n (i + 1))
    ∙ cut-out env w i (rsts w n (i + 1)) ok

-- Where every segment is accepted, after a reset of all connections of a valid state no 4-tuple finds
-- anything, no TCB is in use, the store can allocate all its TCBs again, and store and pool are valid.
-- Each live connection has been sent one RST with ACK at its own sequence numbers, in the order of
-- the TCBs, and nothing else was sent. The pool is what it was: the source ports of these connections
-- are not returned to it.
pub reset_all_lem :
    (env : Env) (w : World)
    → Good w
    → ((sent : List Packet) (at : ℕ) → env.accepts sent at ≡ true)
    → let w' = reset_all env w in
      Good w'
      × ((q : Tuple) → lookup w'.worker.store q ≡ none)
      × ((i : ℕ) → live w'.worker.store i ≡ false)
      × (w'.worker.store.free_top ≡ w.worker.store.capacity)
      × (w'.out ≡ w.out ++ rsts w w.worker.store.capacity 0)
      × (w'.pool ≡ w.pool)
unfolding reset_all
reset_all_lem env w g ok =
    let n = w.worker.store.capacity in
    let w1 = cut_loop env n 0 w in
    let c = cut_loop-Cuts env n 0 w g in
    let (valid, nothing, idle, room) = reset-empties w1.worker c.good.store in
    (
      record { store = valid; unique = λ i j l. cc (l, idle i); pool = c.good.pool },
      nothing,
      idle,
      room ∙ ap (λ (s : Store). s.capacity) c.conns.rest,
      cut_loop-out env n 0 w g ok,
      c.pool,
    )
