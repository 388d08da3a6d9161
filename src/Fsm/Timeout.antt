-- ===== src/Fsm/Timeout.antt =====
-- Retransmission timeouts: the interval doubles up to its limit, and a silent peer is given up.
use ai_pattarai.Common.{
  ℕ, suc, ◌+◌, ◌*◌, ◌<◌, ◌≤◌, ◌≡◌, refl, sym, ap, ◌∙◌, subst, Bool, true, false, ltb, if◌then◌else◌,
  Bool-cases, inl, inr, List, [], ◌∷◌, ltb→lt, ltb-ge, arith, u8, u32, min, length,
}
use ai_pattarai.Tcb.{Tcb, TcpState, zero_tcb}
use ai_pattarai.TcbStore.Inv.{live, live_in}
use ai_pattarai.Congestion.Frame.{unpaced, on_rto-Paced}
use ai_pattarai.Transmit.{tgen_min, max_rto_us}
use ai_pattarai.Fsm.{Env, World, conn, edit, arm_rto}
use ai_pattarai.Fsm.Calls.{reset, backed_off, resend, max_retries, rto_expired}
use ai_pattarai.Fsm.Good.{Good, edit-Good}
use ai_pattarai.Fsm.View.{arm_rto-Quiet, conn-edit}
use ai_pattarai.Fsm.CallsGood.{rto_expired-Good}
use ai_pattarai.Fsm.Reset.{reset-Forgotten}
use ai_pattarai.Fsm.Resend.{tgen_min-eq, steady, edit-length, resend-steady, counted_up}

module _ (env : Env) (w : World) (ci : ℕ) (g : Good w) (l : live w.worker.store ci ≡ true) where
  inside : ci < length w.worker.store.tcbs
  inside = live_in w.worker.store ci l

  conn-w1 : conn (edit w ci counted_up) ci ≡ counted_up (conn w ci)
  conn-w1 = conn-edit w ci counted_up inside

  abbrev w2 : World
  w2 = edit (edit w ci counted_up) ci (backed_off env)

  conn-w2 : conn w2 ci ≡ backed_off env (counted_up (conn w ci))
  conn-w2 =
      conn-edit (edit w ci counted_up) ci (backed_off env) (rw (edit-length w ci counted_up) inside)
      ∙ ap (backed_off env) conn-w1

  abbrev pub over_limit : Bool
  over_limit = ltb (max_retries (conn w ci).state) (u8 ((conn w ci).retransmit_count + 1))

  choice : rto_expired env w ci ≡ (
      if over_limit
      then reset env (edit w ci counted_up) ci
      else arm_rto env (resend env w2 ci (conn w2 ci).state) ci)
  unfolding rto_expired
  choice =
      ap
        (λ (t : Tcb).
          if ltb (max_retries t.state) t.retransmit_count
          then reset env (edit w ci counted_up) ci
          else arm_rto env (resend env w2 ci (conn w2 ci).state) ci)
        conn-w1

  -- A field that retransmitting does not write.
  field :
      {A : Type 0} (f : Tcb → A)
      → ((t : Tcb) → f (steady t) ≡ f t)
      → over_limit ≡ false
      → f (conn (rto_expired env w ci) ci) ≡ f (backed_off env (counted_up (conn w ci)))
  field f h few =
      let w3 = resend env w2 ci (conn w2 ci).state in
      let whole =
        choice
        ∙ ap (λ (b : Bool). if b then reset env (edit w ci counted_up) ci else arm_rto env w3 ci)
            few in
      let wide =
        edit-length (edit w ci counted_up) ci (backed_off env) ∙ edit-length w ci counted_up in
      ap (λ (x : World). f (conn x ci)) whole
      ∙ sym (h (conn (arm_rto env w3 ci) ci))
      ∙ ap (λ (t : Tcb). f (record t { snd_nxt = 0 })) ((arm_rto-Quiet env w3 ci).views ci)
      ∙ ap f (resend-steady env w2 ci (conn w2 ci).state (rw wide inside))
      ∙ ap (λ (t : Tcb). f (steady t)) conn-w2
      ∙ h (backed_off env (counted_up (conn w ci)))

  paced :
      {A : Type 0} (f : Tcb → A)
      → ((t : Tcb) → f (unpaced t) ≡ f t)
      → f (backed_off env (counted_up (conn w ci)))
        ≡ f (record (counted_up (conn w ci)) {
          rto_us = tgen_min (u32 ((conn w ci).rto_us * 2)) max_rto_us;
        })
  paced f h =
      let t = record (counted_up (conn w ci)) {
        rto_us = tgen_min (u32 ((conn w ci).rto_us * 2)) max_rto_us;
      } in
      sym (h (backed_off env (counted_up (conn w ci)))) ∙ ap f (on_rto-Paced env.math t) ∙ h t

  -- A timeout of a live connection that has not yet used up its retries keeps it live and in its
  -- state, counts the retry, and doubles the interval up to 60 s. One that has used them up resets
  -- the connection: its TCB is free.
  pub rto_expired_lem :
      let t = conn w ci in
      let t' = conn (rto_expired env w ci) ci in
      if over_limit
      then (t' ≡ zero_tcb)
      else ((t'.in_use ≡ true)
          × (t'.state ≡ t.state)
          × (t'.retransmit_count ≡ u8 (t.retransmit_count + 1))
          × (t'.rto_us ≡ min (u32 (t.rto_us * 2)) max_rto_us))
  rto_expired_lem = elim (Bool-cases over_limit) [
    | inr few ↦ rw few (
      field (λ t. t.in_use) (λ t. refl) few ∙ paced (λ t. t.in_use) (λ t. refl) ∙ l,
      field (λ t. t.state) (λ t. refl) few ∙ paced (λ t. t.state) (λ t. refl),
      field (λ t. t.retransmit_count) (λ t. refl) few ∙ paced (λ t. t.retransmit_count) (λ t. refl),
      field (λ t. t.rto_us) (λ t. refl) few
          ∙ paced (λ t. t.rto_us) (λ t. refl)
          ∙ tgen_min-eq (u32 ((conn w ci).rto_us * 2)) max_rto_us,
    )
    | inl many ↦
        let w1 = edit w ci counted_up in
        let g1 : Good w1 = edit-Good w ci counted_up (λ t. (refl, refl)) g in
        let l1 : live w1.worker.store ci ≡ true = ap (λ (t : Tcb). t.in_use) conn-w1 ∙ l in
        let whole =
          choice
          ∙ ap
              (λ (b : Bool).
                if b then reset env w1 ci else arm_rto env (resend env w2 ci (conn w2 ci).state) ci)
              many in
        rw many (ap (λ (x : World). conn x ci) whole ∙ (reset-Forgotten env w1 ci g1 l1).1)
  ]

-- One timeout after the other, each at its time.
unfoldable pub timeouts : List Env → World → ℕ → World
timeouts [] w ci = w
timeouts (env ∷ envs) w ci = timeouts envs (rto_expired env w ci) ci

few_retries : (s : TcpState) → max_retries s ≤ 15
few_retries s = ground arith

counts : (s : TcpState) (n : ℕ) → n ≤ max_retries s → u8 (n + 1) ≡ suc n
counts s n few = let h = few_retries s in omega arith

module _ (env : Env) (w : World) (ci : ℕ) (g : Good w) (l : live w.worker.store ci ≡ true) where
  abbrev Outcome : Bool → Type 0
  Outcome over =
      let t = conn w ci in
      let t' = conn (rto_expired env w ci) ci in
      if over
      then (t' ≡ zero_tcb)
      else ((t'.in_use ≡ true)
          × (t'.state ≡ t.state)
          × (t'.retransmit_count ≡ u8 (t.retransmit_count + 1))
          × (t'.rto_us ≡ min (u32 (t.rto_us * 2)) max_rto_us))

  when_kept : over_limit env w ci g l ≡ false → Outcome false
  when_kept kept = subst Outcome kept (rto_expired_lem env w ci g l)

  when_lost : over_limit env w ci g l ≡ true → Outcome true
  when_lost many = subst Outcome many (rto_expired_lem env w ci g l)

  -- What a timeout leaves of the fields that retransmitting does not write.
  pub rto_expired-eq :
      {A : Type 0} (f : Tcb → A)
      → ((t : Tcb) → f (steady t) ≡ f t)
      → ((t : Tcb) → f (unpaced t) ≡ f t)
      → ((t : Tcb) (n r : ℕ) → f (record t { retransmit_count = n; rto_us = r }) ≡ f t)
      → f (conn (rto_expired env w ci) ci)
        ≡ (if over_limit env w ci g l then f zero_tcb else f (conn w ci))
  rto_expired-eq f h u k = elim (Bool-cases (over_limit env w ci g l)) [
    | inl many ↦ rw many (ap f (when_lost many))
    | inr few ↦ rw few (field env w ci g l f h few ∙ paced env w ci g l f u ∙ k (conn w ci) _ _)
  ]

last_timeout :
    (env : Env) (envs : List Env) (w : World) (ci : ℕ) (g : Good w)
    (l : live w.worker.store ci ≡ true)
    → (conn w ci).retransmit_count + length (env ∷ envs) ≡ suc (max_retries (conn w ci).state)
    → (conn w ci).retransmit_count ≤ max_retries (conn w ci).state
    → over_limit env w ci g l ≡ true
    → live (timeouts (env ∷ envs) w ci).worker.store ci ≡ false
unfolding timeouts
last_timeout env [] w ci g l left few many =
    ap (λ (t : Tcb). t.in_use) (when_lost env w ci g l many)
last_timeout env (e ∷ envs) w ci g l left few many =
    let c = counts (conn w ci).state (conn w ci).retransmit_count few in
    let b = ltb→lt (max_retries (conn w ci).state) (u8 ((conn w ci).retransmit_count + 1)) many in
    absurd (omega arith)

-- When one timeout of a live connection follows the other, with nothing in between, the connection is
-- given up: after as many timeouts as it has retries left in its state, and one more, its TCB is free.
pub timeouts_give_up :
    (envs : List Env) (w : World) (ci : ℕ)
    → Good w
    → live w.worker.store ci ≡ true
    → (conn w ci).retransmit_count + length envs ≡ suc (max_retries (conn w ci).state)
    → (conn w ci).retransmit_count ≤ max_retries (conn w ci).state
    → live (timeouts envs w ci).worker.store ci ≡ false
unfolding timeouts
timeouts_give_up [] w ci g l left few = absurd (omega arith)
timeouts_give_up (env ∷ envs) w ci g l left few = elim (Bool-cases (over_limit env w ci g l)) [
  | inl many ↦ last_timeout env envs w ci g l left few many
  | inr kept ↦
      let t = conn w ci in
      let (lives, state, count, rto) = when_kept env w ci g l kept in
      let c = counts t.state t.retransmit_count few in
      let m : max_retries (conn (rto_expired env w ci) ci).state ≡ max_retries t.state =
        ap max_retries state in
      let b = ltb-ge (max_retries t.state) (u8 (t.retransmit_count + 1)) kept in
      timeouts_give_up envs (rto_expired env w ci) ci (rto_expired-Good env w ci g) lives
        (omega arith) (omega arith)
]
