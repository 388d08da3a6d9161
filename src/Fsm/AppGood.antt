-- ===== src/Fsm/AppGood.antt =====
-- The HTTP client and the layers above keep the store and the pool valid.
use ai_pattarai.Common.{
  ℕ, ◌+◌, ◌*◌, ◌/◌, refl, Bool, true, false, not, ◌&&◌, ltb, leb, ◌==◌, if◌then◌else◌, List, length,
  u32, u64, sub32,
}
use ai_pattarai.Tcb.{AppCtx, null, throughput, request}
use ai_pattarai.Fsm.{Env, World, HttpReq, conn, edit, timer}
use ai_pattarai.Fsm.Calls.{reset, close, send}
use ai_pattarai.Fsm.Http.{
  finish, rsp_body_start, rsp_body_recv, next_txn_for, next_txn_ctx, next_txn, request_bytes,
  is_nil, send_text, awaiting, send_next_request, parse_content_length, body_offset,
}
use ai_pattarai.Fsm.Input.{Upper}
use ai_pattarai.Fsm.Good.{Good, edit-Good, timer-Good}
use ai_pattarai.Fsm.CallsGood.{if-Good, if_pair-Good, reset-Good, close-Good, send-Good}

-- What is asked of the layers above.
pub record Lawful (up : Upper) : Type 0 where
  pub established : (w : World) (ci : ℕ) → Good w → Good (up.srv_on_established w ci)
  pub data_in : (w : World) (ci : ℕ) (bytes : List ℕ) → Good w → Good (up.srv_on_data w ci bytes)
  pub pump : (w : World) (ci : ℕ) → Good w → Good (up.srv_stream_pump w ci)
  pub tls_start : (w : World) (ci : ℕ) → Good w → Good (up.tls_start w ci)
  pub tls_data : (w : World) (ci : ℕ) (bytes : List ℕ) → Good w → Good (up.tls_data w ci bytes).0

finish-Good : (env : Env) (w : World) (ci : ℕ) → Good w → Good (finish env w ci)
finish-Good env w ci g =
    let w1 = edit w ci (λ t. record t { app_state = 0 }) in
    let g1 : Good w1 = edit-Good w ci (λ t. record t { app_state = 0 }) (λ t. (refl, refl)) g in
    if-Good (conn w1 ci).graceful_close (close env w1 ci).0 (reset env w1 ci)
      (close-Good env w1 ci g1) (reset-Good env w1 ci g1)

pub rsp_body_start-Good :
    (env : Env) (w : World) (ci : ℕ) (buf : List ℕ) → Good w → Good (rsp_body_start env w ci buf).0
unfolding rsp_body_start
rsp_body_start-Good env w ci buf g =
    let total = parse_content_length buf in
    let off = body_offset buf in
    let rx = if ltb off (length buf) then sub32 (length buf) off else 0 in
    let w1 = edit w ci (λ t. record t { http_content_length = total }) in
    let w2 = edit w1 ci (λ t. record t { http_body_rx = rx }) in
    let g1 : Good w1 =
      edit-Good w ci (λ t. record t { http_content_length = total }) (λ t. (refl, refl)) g in
    let g2 : Good w2 =
      edit-Good w1 ci (λ t. record t { http_body_rx = rx }) (λ t. (refl, refl)) g1 in
    let whole : World × Bool = (finish env w2 ci, true) in
    let more : World × Bool = (edit w2 ci (λ t. record t { app_state = 6 }), false) in
    if_pair-Good (total == 0) (edit w1 ci (λ t. record t { app_state = 0 }), false)
      (if leb total rx then whole else more)
      (edit-Good w1 ci (λ t. record t { app_state = 0 }) (λ t. (refl, refl)) g1)
      (if_pair-Good (leb total rx) whole more (finish-Good env w2 ci g2)
        (edit-Good w2 ci (λ t. record t { app_state = 6 }) (λ t. (refl, refl)) g2))

pub rsp_body_recv-Good :
    (env : Env) (w : World) (ci n : ℕ) → Good w → Good (rsp_body_recv env w ci n).0
unfolding rsp_body_recv
rsp_body_recv-Good env w ci n g =
    let w1 = edit w ci (λ t. record t { http_body_rx = u32 (t.http_body_rx + n) }) in
    let g1 : Good w1 =
      edit-Good w ci (λ t. record t { http_body_rx = u32 (t.http_body_rx + n) }) (λ t. (refl, refl))
        g in
    if_pair-Good (leb (conn w1 ci).http_content_length (conn w1 ci).http_body_rx)
      (finish env w1 ci, true) (w1, false) (finish-Good env w1 ci g1) g1

next_txn_for-Good :
    (env : Env) (w : World) (ci : ℕ) (hp : HttpReq) → Good w → Good (next_txn_for env w ci hp).0
next_txn_for-Good env w ci hp g =
    let w1 = edit w ci (λ t. record t { http_txn_count = u32 (t.http_txn_count + 1) }) in
    let deadline = u64 (env.now + u64 (hp.think_time_us * env.hz) / 1000000) in
    let w2 = edit w1 ci (λ t. record t { think_deadline_tsc = deadline }) in
    let g1 : Good w1 =
      edit-Good w ci (λ t. record t { http_txn_count = u32 (t.http_txn_count + 1) })
        (λ t. (refl, refl)) g in
    let g2 : Good w2 =
      edit-Good w1 ci (λ t. record t { think_deadline_tsc = deadline }) (λ t. (refl, refl)) g1 in
    let wait : World × ℕ = (timer env w2 ci, 7) in
    let now : World × ℕ = (w1, 4) in
    let paced : World × ℕ = if ltb 0 hp.think_time_us then wait else now in
    let limited = ltb 0 hp.txn_per_conn && leb hp.txn_per_conn (conn w1 ci).http_txn_count in
    if_pair-Good (not hp.keep_alive) (w, 0) (if limited then (w1, 0) else paced) g
      (if_pair-Good limited (w1, 0) paced g1
        (if_pair-Good (ltb 0 hp.think_time_us) wait now (timer-Good env w2 ci g2) g1))

next_txn_ctx-Good :
    (env : Env) (w : World) (ci : ℕ) (c : AppCtx) → Good w → Good (next_txn_ctx env w ci c).0
next_txn_ctx-Good env w ci null g = g
next_txn_ctx-Good env w ci throughput g = g
next_txn_ctx-Good env w ci request g = next_txn_for-Good env w ci env.request g

pub next_txn-Good : (env : Env) (w : World) (ci : ℕ) → Good w → Good (next_txn env w ci).0
unfolding next_txn
next_txn-Good env w ci g = next_txn_ctx-Good env w ci (conn w ci).app_ctx g

pub send_next_request-Good :
    (env : Env) (encrypt : ℕ → List ℕ → List ℕ) (w : World) (ci : ℕ)
    → Good w
    → Good (send_next_request env encrypt w ci)
unfolding send_next_request
send_next_request-Good env encrypt w ci g =
    let bytes = request_bytes env (conn w ci).app_ctx in
    let w1 = send_text env encrypt w ci bytes in
    let secret = if is_nil (encrypt ci bytes) then w else (send env w ci (encrypt ci bytes)).0 in
    let g1 : Good w1 =
      if-Good (env.has_session ci) secret (send env w ci bytes).0
        (if-Good (is_nil (encrypt ci bytes)) w (send env w ci (encrypt ci bytes)).0 g
          (send-Good env w ci (encrypt ci bytes) g))
        (send-Good env w ci bytes g) in
    if-Good (is_nil bytes) w (timer env (edit w1 ci (awaiting env)) ci) g (
      timer-Good env (edit w1 ci (awaiting env)) ci
        (edit-Good w1 ci (awaiting env) (λ t. (refl, refl)) g1))
