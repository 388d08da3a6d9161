-- ===== src/Transmit/Rtt.antt =====
-- The retransmission timeout and its averages, as RFC 6298 has them.
use ai_pattarai.Common.{
  ℕ, ◌+◌, ◌*◌, ◌/◌, ◌^◌, ◌<◌, ◌≡◌, arith, u32, min, max, if◌then◌else◌, ◌==◌, ltb, sub32, refl, ◌-◌,
  Bool-cases, inl, inr,
}
use ai_pattarai.Tcb.{Tcb}
use ai_pattarai.Transmit.{update_rtt, min_rto_us, max_rto_us, clamp}

clamp-eq : (v : ℕ) → v < 2 ^ 32 → clamp (u32 v) min_rto_us max_rto_us ≡ min (max v 200000) 60000000
clamp-eq v h = ground arith

-- A bound on what the averages hold: 2^29 microseconds, almost nine minutes.
abbrev pub Modest : Tcb → Type 0
Modest t = (t.srtt_us < 2 ^ 29) × (t.rttvar_us < 2 ^ 29)

-- The distance of two numbers.
abbrev pub distance : ℕ → ℕ → ℕ
distance a b = (a - b) + (b - a)

-- For averages and a sample below 2^29 microseconds, `update_rtt` computes the values of RFC 6298 as
-- natural numbers, without overflow. From the second sample on, the smoothed time is 7/8 of the old
-- one and 1/8 of the sample, and the variation is 3/4 of the old one and 1/4 of the distance of the
-- sample from the old time; the first sample is the time, and its half the variation. The timeout is
-- the new time and four times the new variation, and at least 200 ms and at most 60 s. The averages
-- stay below the bound.
pub update_rtt-Modest :
    (t : Tcb) (rtt_us : ℕ)
    → Modest t
    → rtt_us < 2 ^ 29
    → let t' = update_rtt t rtt_us in
      Modest t'
      × (t'.srtt_us ≡ (if t.srtt_us == 0 then rtt_us else (7 * t.srtt_us + rtt_us) / 8))
      × (t'.rttvar_us ≡ (
          if t.srtt_us == 0 then rtt_us / 2 else (3 * t.rttvar_us + distance t.srtt_us rtt_us) / 4))
      × (t'.rto_us ≡ min (max (t'.srtt_us + 4 * t'.rttvar_us) 200000) 60000000)
unfolding update_rtt
update_rtt-Modest t rtt_us (a, b) h = elim (Bool-cases (t.srtt_us == 0)) [
  | inl first ↦
      rw first ((h, omega arith), refl, refl, clamp-eq (rtt_us + 4 * (rtt_us / 2)) (omega arith))
  | inr later ↦
      let delta : ℕ =
        if ltb t.srtt_us rtt_us then sub32 rtt_us t.srtt_us else sub32 t.srtt_us rtt_us in
      let small : delta < 2 ^ 29 = ground arith in
      let exact : delta ≡ distance t.srtt_us rtt_us = ground arith in
      let srtt : ℕ = u32 (u32 (7 * t.srtt_us) + rtt_us) / 8 in
      let rttvar : ℕ = u32 (u32 (3 * t.rttvar_us) + delta) / 4 in
      rw later (
        (omega arith, omega (arith, small)),
        omega arith,
        omega (arith, small, exact),
        clamp-eq (srtt + 4 * rttvar) (omega (arith, small)),
      )
]
