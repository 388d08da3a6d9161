-- ===== src/Tests/Sending.antt =====
-- A concrete connection that sends.
use ai_pattarai.Common.{
  ◌+◌, ◌*◌, ◌/◌, ◌==◌, if◌then◌else◌, ℕ, ◌≡◌, refl, Bool, true, some, [], ◌∷◌, arith, min, max,
  sub32,
}
use ai_pattarai.SendBuffer.{SndBuf}
use ai_pattarai.SendBuffer.Queue
use ai_pattarai.Tcb.{Tcb, zero_tcb}
use ai_pattarai.Transmit.{update_rtt, snd_buf_drain, drain_loop}
use ai_pattarai.Transmit.Rtt.{distance, Modest, update_rtt-Modest}
use ai_pattarai.Transmit.Drain.{Drained, payloads, snd_buf_drain-Drained}

-- Five bytes are queued, one of them is in flight, and the sequence numbers are about to wrap.
abbrev queued : SndBuf
queued = record { bytes = 1 ∷ 2 ∷ 3 ∷ 4 ∷ 5 ∷ 6 ∷ []; cap = 6; len = 5; base_seq = 4294967294 }

abbrev sender : Tcb
sender = record zero_tcb {
  snd_buf = some queued;
  snd_una = 4294967294;
  snd_nxt = 4294967295;
  cwnd = 10;
  snd_wnd = 4;
  mss_remote = 2;
  srtt_us = 1000;
  rttvar_us = 500;
}

-- Every segment is accepted.
abbrev accepting : ℕ → Bool
accepting offset = true

queued-IsValid : Queue.IsValid queued
queued-IsValid = record { room = refl; within = omega arith; small = omega arith }

snd_buf_drain-Drained_example :
    Drained accepting sender queued
      (sub32 sender.snd_nxt sender.snd_una)
      (snd_buf_drain accepting sender)
snd_buf_drain-Drained_example =
    snd_buf_drain-Drained accepting sender queued refl queued-IsValid (omega arith) (omega arith)
      (omega arith) (omega arith)

three_sent : payloads (snd_buf_drain accepting sender).0 ≡ 2 ∷ 3 ∷ 4 ∷ []
unfolding snd_buf_drain drain_loop
three_sent = refl

update_rtt-Modest_example :
    let t' = update_rtt sender 9000 in
    Modest t'
    × (t'.srtt_us ≡ (if sender.srtt_us == 0 then 9000 else (7 * sender.srtt_us + 9000) / 8))
    × (t'.rttvar_us ≡ (
        if sender.srtt_us == 0
        then 9000 / 2
        else (3 * sender.rttvar_us + distance sender.srtt_us 9000) / 4))
    × (t'.rto_us ≡ min (max (t'.srtt_us + 4 * t'.rttvar_us) 200000) 60000000)
update_rtt-Modest_example = update_rtt-Modest sender 9000 (omega arith, omega arith) (omega arith)
