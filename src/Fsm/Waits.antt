-- ===== src/Fsm/Waits.antt =====
-- What `timer_fire` of vaigAI/src/net/tcp_timer.c does after the retransmission timeout: the end of a
-- TLS handshake, and of a wait for a response, that is late.
use ai_pattarai.Common.{
  ℕ, ◌*◌, ◌/◌, ◌≡◌, refl, sym, ap, ◌∙◌, subst, Bool, true, false, ◌&&◌, ◌||◌, not, leb, ◌==◌,
  if◌then◌else◌, sub64,
}
use ai_pattarai.Tcb.{Tcb, established, is_state}
use ai_pattarai.TcbStore.Inv.{live}
use ai_pattarai.Fsm.{Env, World, conn}
use ai_pattarai.Fsm.Input.{Upper}
use ai_pattarai.Fsm.Good.{Good}
use ai_pattarai.Fsm.Became.{Over, Became-refl, edit-Became}
use ai_pattarai.Fsm.Joined.{reset-Over}
use ai_pattarai.Fsm.Timer.{no_app, dropped, hs_late, fire_pump, fire_response, fire_app}

-- A TLS handshake that has gone on for five whole seconds, or a request that has had no response for
-- five.
abbrev pub is_late : Env → Tcb → Bool
is_late env t =
    (t.app_state == 1 || t.app_state == 2) && leb 5 (sub64 env.now t.timewait_deadline_tsc / env.hz)
    || t.app_state == 5
      && not (t.http_req_sent_tsc == 0)
      && leb (5000000 * (env.hz / 1000000)) (sub64 env.now t.http_req_sent_tsc)

-- An established connection that has waited too long.
abbrev pub waits_too_long : Env → Tcb → Bool
waits_too_long env t = t.in_use && is_state t.state established && is_late env t

-- The application is neither between two requests nor streaming a response.
abbrev pub settled : ℕ → Bool
settled app_state = not (app_state == 7) && not (app_state == 12)

middle_off :
    {A : Type 0} (a b c : Bool) (x y : A) → not b ≡ true → (if a && b && c then x else y) ≡ y
middle_off true true c x y h = cc
middle_off true false c x y h = refl
middle_off false b c x y h = refl

last_off : {A : Type 0} (a b : Bool) (x y : A) → not b ≡ true → (if a && b then x else y) ≡ y
last_off true true x y h = cc
last_off true false x y h = refl
last_off false b x y h = refl

both_off : (a b : Bool) → (not a && not b) ≡ true → (not a ≡ true) × (not b ≡ true)
both_off true b h = cc
both_off false true h = cc
both_off false false h = (refl, refl)

module _ (env : Env) (up : Upper) (w : World) (ci : ℕ) (g : Good w) where
  -- The end for a handshake, or for a response, that is late.
  abbrev late : Bool → Bool → World
  late hs rsp = if hs then dropped env w ci else if rsp then dropped env w ci else w

  late-Over :
      (hs rsp : Bool)
      → Over w ci (dropped env w ci)
      → if hs || rsp then Over w ci (late hs rsp) else (late hs rsp ≡ w)
  late-Over true rsp over = over
  late-Over false true over = over
  late-Over false false over = refl

  -- What follows the retransmission timeout, with what it reads: whether the TCB is in use, whether it
  -- is established, and the conditions of a handshake and of a response that is late.
  abbrev later : Bool → Bool → Bool → Bool → Bool → Bool → Bool → World
  later used joined h1 h2 r1 r2 r3 =
      if not used
      then w
      else if joined && h1 && h2
      then dropped env w ci
      else if not used
      then w
      else if not used
      then w
      else if joined && r1 && r2 && r3
      then dropped env w ci
      else w

  later_lem :
      (used joined h1 h2 r1 r2 r3 : Bool)
      → (used ≡ true → Over w ci (dropped env w ci))
      → if used && joined && (h1 && h2 || r1 && r2 && r3)
        then Over w ci (later used joined h1 h2 r1 r2 r3)
        else (later used joined h1 h2 r1 r2 r3 ≡ w)
  later_lem false joined h1 h2 r1 r2 r3 over = refl
  later_lem true false h1 h2 r1 r2 r3 over = refl
  later_lem true true h1 h2 r1 r2 r3 over = late-Over (h1 && h2) (r1 && r2 && r3) (over refl)

  dropped-Over : live w.worker.store ci ≡ true → Over w ci (dropped env w ci)
  dropped-Over l =
      reset-Over env g l (edit-Became no_app (λ t. (refl, refl)) (λ t. refl) l (Became-refl w ci g))

  abbrev Ends : World → Type 0
  Ends w' = if waits_too_long env (conn w ci) then Over w ci w' else (w' ≡ w)

  -- The code after the retransmission timeout.
  abbrev rest : World → World
  rest w1 =
      if not (conn w1 ci).in_use
      then w1
      else if hs_late env (conn w1 ci)
      then dropped env w1 ci
      else fire_app env up w1 ci

  rest-eq :
      not ((conn w ci).app_state == 7) ≡ true
      → not ((conn w ci).app_state == 12) ≡ true
      → let t = conn w ci in
        rest w
        ≡ later t.in_use
            (is_state t.state established)
            (t.app_state == 1 || t.app_state == 2)
            (leb 5 (sub64 env.now t.timewait_deadline_tsc / env.hz))
            (t.app_state == 5)
            (not (t.http_req_sent_tsc == 0))
            (leb (5000000 * (env.hz / 1000000)) (sub64 env.now t.http_req_sent_tsc))
  rest-eq thinks streams =
      let t = conn w ci in
      let after = λ (x : World).
        if not t.in_use then w else if not (conn x ci).in_use then x else fire_response env x ci in
      let tail = λ (x : World).
        if not (conn x ci).in_use
        then x
        else if not (conn (fire_pump up x ci) ci).in_use
        then fire_pump up x ci
        else fire_response env (fire_pump up x ci) ci in
      ap (λ (x : World). if not t.in_use then w else if hs_late env t then dropped env w ci else x)
        (ap tail (middle_off (is_state t.state established) (t.app_state == 7) _ _ w thinks)
          ∙ ap after (last_off (is_state t.state established) (t.app_state == 12) _ w streams))

  pub rest-Ends : settled (conn w ci).app_state ≡ true → Ends (rest w)
  rest-Ends h =
      let t = conn w ci in
      let off = both_off (t.app_state == 7) (t.app_state == 12) h in
      subst Ends (sym (rest-eq off.0 off.1)) (
        later_lem t.in_use (is_state t.state established) (t.app_state == 1 || t.app_state == 2)
          (leb 5 (sub64 env.now t.timewait_deadline_tsc / env.hz)) (t.app_state == 5)
          (not (t.http_req_sent_tsc == 0))
          (leb (5000000 * (env.hz / 1000000)) (sub64 env.now t.http_req_sent_tsc)) dropped-Over)
