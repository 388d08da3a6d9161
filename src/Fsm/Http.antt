-- ===== src/Fsm/Http.antt =====
-- The HTTP client inside vaigAI/src/net/tcp_fsm.c: how much of a response has arrived, and what comes
-- after it. `memmem` is the search of the first occurrence. `encrypt` is `tls_encrypt`.
use ai_pattarai.Common.{
  ℕ, suc, ◌+◌, ◌-◌, ◌*◌, ◌/◌, Bool, true, false, ◌&&◌, not, ltb, leb, ◌==◌, if◌then◌else◌, Option,
  none, some, List, [], ◌∷◌, length, drop, u32, u64, sub32,
}
use ai_pattarai.Tcb.{Tcb, AppCtx, null, throughput, request}
use ai_pattarai.Fsm.{Env, World, HttpReq, conn, edit, timer}
use ai_pattarai.Fsm.Calls.{reset, close, send}

abbrev pub starts : List ℕ → List ℕ → Bool
starts [] hay = true
starts (n ∷ needle) [] = false
starts (n ∷ needle) (h ∷ hay) = n == h && starts needle hay

abbrev pub later : Option ℕ → Option ℕ
later none = none
later (some i) = some (suc i)

-- The offset of the first occurrence.
unfoldable pub memmem : List ℕ → List ℕ → Option ℕ
memmem [] needle = if starts needle [] then some 0 else none
memmem (h ∷ hay) needle =
    let rest = later (memmem hay needle) in if starts needle (h ∷ hay) then some 0 else rest

abbrev pub is_digit : ℕ → Bool
is_digit c = leb 48 c && leb c 57

-- The loop over the digits, from the value read so far.
unfoldable pub read_digits : ℕ → List ℕ → ℕ
read_digits val [] = val
read_digits val (c ∷ cs) =
    let rest = read_digits (u32 (val * 10 + (c - 48))) cs in if is_digit c then rest else val

-- "Content-Length: ", "content-length: " and the end of the header
abbrev pub length_upper : List ℕ
length_upper =
    67 ∷ 111 ∷ 110 ∷ 116 ∷ 101 ∷ 110 ∷ 116 ∷ 45 ∷ 76 ∷ 101 ∷ 110 ∷ 103 ∷ 116 ∷ 104 ∷ 58 ∷ 32 ∷ []

abbrev pub length_lower : List ℕ
length_lower =
    99 ∷ 111 ∷ 110 ∷ 116 ∷ 101 ∷ 110 ∷ 116 ∷ 45 ∷ 108 ∷ 101 ∷ 110 ∷ 103 ∷ 116 ∷ 104 ∷ 58 ∷ 32 ∷ []

abbrev pub header_end : List ℕ
header_end = 13 ∷ 10 ∷ 13 ∷ 10 ∷ []

abbrev pub or_else : Option ℕ → Option ℕ → Option ℕ
or_else none o = o
or_else (some i) o = some i

abbrev pub value_at : List ℕ → Option ℕ → ℕ
value_at buf none = 0
value_at buf (some i) = read_digits 0 (drop (i + 16) buf)

-- `http_parse_content_length`
unfoldable pub parse_content_length : List ℕ → ℕ
parse_content_length buf =
    value_at buf (or_else (memmem buf length_upper) (memmem buf length_lower))

abbrev pub after_end : List ℕ → Option ℕ → ℕ
after_end buf none = length buf
after_end buf (some i) = i + 4

-- `http_body_offset`
unfoldable pub body_offset : List ℕ → ℕ
body_offset buf = after_end buf (memmem buf header_end)

-- The connection has its response: it is closed, or reset.
abbrev pub finish : Env → World → ℕ → World
finish env w ci =
    let w1 = edit w ci (λ t. record t { app_state = 0 }) in
    if (conn w1 ci).graceful_close then (close env w1 ci).0 else reset env w1 ci

-- `http_rsp_body_start`
unfoldable pub rsp_body_start : Env → World → ℕ → List ℕ → World × Bool
rsp_body_start env w ci buf =
    let total = parse_content_length buf in
    let off = body_offset buf in
    let rx = if ltb off (length buf) then sub32 (length buf) off else 0 in
    let w1 = edit w ci (λ t. record t { http_content_length = total }) in
    let w2 = edit w1 ci (λ t. record t { http_body_rx = rx }) in
    if total == 0
    then (edit w1 ci (λ t. record t { app_state = 0 }), false)
    else if leb total rx
    then (finish env w2 ci, true)
    else (edit w2 ci (λ t. record t { app_state = 6 }), false)

-- `http_rsp_body_recv`
unfoldable pub rsp_body_recv : Env → World → ℕ → ℕ → World × Bool
rsp_body_recv env w ci data_len =
    let w1 = edit w ci (λ t. record t { http_body_rx = u32 (t.http_body_rx + data_len) }) in
    if leb (conn w1 ci).http_content_length (conn w1 ci).http_body_rx
    then (finish env w1 ci, true)
    else (w1, false)

-- `http_next_txn` for the worker's request.
abbrev pub next_txn_for : Env → World → ℕ → HttpReq → World × ℕ
next_txn_for env w ci hp =
    let w1 = edit w ci (λ t. record t { http_txn_count = u32 (t.http_txn_count + 1) }) in
    let deadline = u64 (env.now + u64 (hp.think_time_us * env.hz) / 1000000) in
    if not hp.keep_alive
    then (w, 0)
    else if ltb 0 hp.txn_per_conn && leb hp.txn_per_conn (conn w1 ci).http_txn_count
    then (w1, 0)
    else if ltb 0 hp.think_time_us
    then (timer env (edit w1 ci (λ t. record t { think_deadline_tsc = deadline })) ci, 7)
    else (w1, 4)

-- The marker of throughput mode is no request; such a connection waits for no response.
abbrev pub next_txn_ctx : Env → World → ℕ → AppCtx → World × ℕ
next_txn_ctx env w ci null = (w, 0)
next_txn_ctx env w ci throughput = (w, 0)
next_txn_ctx env w ci request = next_txn_for env w ci env.request

unfoldable pub next_txn : Env → World → ℕ → World × ℕ
next_txn env w ci = next_txn_ctx env w ci (conn w ci).app_ctx

abbrev pub request_bytes : Env → AppCtx → List ℕ
request_bytes env request = env.request.hdr
request_bytes env _ = []

abbrev pub is_nil : List ℕ → Bool
is_nil [] = true
is_nil (b ∷ bs) = false

-- Sent in clear, or encrypted where there is a session; an encryption that fails sends nothing.
abbrev pub send_text : Env → (ℕ → List ℕ → List ℕ) → World → ℕ → List ℕ → World
send_text env encrypt w ci bytes =
    if env.has_session ci
    then (if is_nil (encrypt ci bytes) then w else (send env w ci (encrypt ci bytes)).0)
    else (send env w ci bytes).0

abbrev pub awaiting : Env → Tcb → Tcb
awaiting env t = record t { http_req_sent_tsc = env.now; app_state = 5 }

-- `http_send_next_request`
unfoldable pub send_next_request : Env → (ℕ → List ℕ → List ℕ) → World → ℕ → World
send_next_request env encrypt w ci =
    let bytes = request_bytes env (conn w ci).app_ctx in
    if is_nil bytes
    then w
    else timer env (edit (send_text env encrypt w ci bytes) ci (awaiting env)) ci
