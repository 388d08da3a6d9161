-- ===== src/Transmit/Frame.antt =====
-- Draining the send buffer writes `snd_nxt` and the pending acknowledgement only.
use ai_pattarai.Common.{
  ℕ, zero, suc, ◌+◌, ◌≡◌, refl, Bool, leb, ◌==◌, Bool-cases, inl, inr, Option, none, some, u32,
  sub32,
}
use ai_pattarai.SendBuffer.{SndBuf}
use ai_pattarai.Tcb.{Tcb}
use ai_pattarai.Transmit.{
  tgen_min, effective_mss, sendable, sent_segment, drain_loop, drain_buf, snd_buf_drain,
}

-- A TCB that has sent, from `t`.
pub record Sent (t t' : Tcb) : Type 0 where
  pub pending : Bool
  pub nxt : ℕ
  pub same : t' ≡ record t { pending_ack = pending; snd_nxt = nxt }

idle-Sent : (t : Tcb) → Sent t t
idle-Sent t = record { pending = t.pending_ack; nxt = t.snd_nxt; same = refl }

pub drain_loop-Sent :
    (ok : ℕ → Bool) (fuel : ℕ) (t : Tcb) (sb : SndBuf) (offset : ℕ)
    → Sent t (drain_loop ok fuel t sb offset).1
unfolding drain_loop
drain_loop-Sent ok zero t sb offset = idle-Sent t
drain_loop-Sent ok (suc fuel) t sb offset =
    let len = tgen_min (sendable t sb offset) (effective_mss t) in
    let later = drain_loop-Sent ok fuel (sent_segment t len) sb (u32 (offset + len)) in
    elim (Bool-cases (leb sb.len offset)) [
      | inl done ↦ rw done (idle-Sent t)
      | inr more ↦ elim (Bool-cases (sendable t sb offset == 0)) [
        | inl shut ↦ rw (more, shut) (idle-Sent t)
        | inr open' ↦ elim (Bool-cases (ok offset)) [
          | inr refused ↦ rw (more, open', refused) (idle-Sent t)
          | inl sent ↦
              rw (more, open', sent)
                (record { pending = later.pending; nxt = later.nxt; same = later.same })
        ]
      ]
    ]

drain_buf-Sent : (ok : ℕ → Bool) (t : Tcb) (o : Option SndBuf) → Sent t (drain_buf ok t o).1
drain_buf-Sent ok t none = idle-Sent t
drain_buf-Sent ok t (some sb) = elim (Bool-cases (sb.len == 0)) [
  | inl nothing ↦ rw nothing (idle-Sent t)
  | inr held ↦ rw held (drain_loop-Sent ok sb.len t sb (sub32 t.snd_nxt t.snd_una))
]

pub snd_buf_drain-Sent : (ok : ℕ → Bool) (t : Tcb) → Sent t (snd_buf_drain ok t).1
unfolding snd_buf_drain
snd_buf_drain-Sent ok t = drain_buf-Sent ok t t.snd_buf
