-- ===== src/Arp/Ticks.antt =====
-- Calls of `arp_mgmt_tick` of vaigAI/src/net/arp.c, one after the other: none asks for an address.
use ai_pattarai.Common.{
  ℕ, suc, ◌+◌, ◌≡◌, refl, ◌∙◌, Bool, ◌==◌, Bool-cases, Option-cases, inl, inr, List, [], ◌∷◌, ◌++◌,
  arith,
}
use ai_pattarai.Arp.{
  KeyTable, ArpPort, ArpFrame, Op, request, reply, other, Queued, Sent, reply_to, request_for, held,
  release_held, mgmt_process, drain, mgmt_tick, entry_at,
}

-- A call of `arp_mgmt_tick`: its time, and the frames in the ring.
pub record Tick : Type 0 where
  pub now : ℕ
  pub queue : List Queued

-- The cache after these ticks, and all that they send.
unfoldable pub ticks : (k : KeyTable) → ℕ → List Tick → ArpPort k → ArpPort k × List Sent
ticks k hz [] a = (a, [])
ticks k hz (t ∷ ts) a =
    let first = mgmt_tick k a t.now hz t.queue in
    let rest = ticks k hz ts first.0 in (rest.0, first.1 ++ rest.1)

-- The number of requests among what is sent.
abbrev pub probes : List Sent → ℕ
probes [] = 0
probes (request_for ip ∷ sent) = suc (probes sent)
probes (reply_to mac ip ∷ sent) = probes sent
probes (held p ∷ sent) = probes sent

probes-append : (s r : List Sent) → probes (s ++ r) ≡ probes s + probes r
probes-append [] r = omega arith
probes-append (request_for ip ∷ s) r = omega (arith, probes-append s r)
probes-append (reply_to mac ip ∷ s) r = probes-append s r
probes-append (held p ∷ s) r = probes-append s r

probes-release_held : (ps : List ℕ) → probes (release_held ps) ≡ 0
probes-release_held [] = refl
probes-release_held (p ∷ ps) = probes-release_held ps

module _ (k : KeyTable) where
  probes-op :
      (a : ArpPort k) (now hz : ℕ) (mbuf : Bool) (f : ArpFrame) (o : Op)
      → f.op ≡ o
      → probes (mgmt_process k a now hz mbuf f).1 ≡ 0
  unfolding mgmt_process
  probes-op a now hz mbuf f request op = rw op (elim (Bool-cases (f.target_ip == a.local_ip)) [
    | inl ours ↦ elim (Bool-cases mbuf) [ inl m ↦ rw (ours, m) refl | inr m ↦ rw (ours, m) refl ]
    | inr theirs ↦ rw theirs refl
  ])
  probes-op a now hz mbuf f reply op = rw op (elim (Option-cases (k.find a.table f.sender_ip)) [
    | inl unknown ↦ rw unknown refl
    | inr (i, known) ↦ rw known (probes-release_held (entry_at k a i).hold)
  ])
  probes-op a now hz mbuf f other op = rw op refl

  probes-drain : (hz : ℕ) (qs : List Queued) (a : ArpPort k) → probes (drain k a hz qs).1 ≡ 0
  unfolding drain
  probes-drain hz [] a = refl
  probes-drain hz (q ∷ qs) a =
      let first = mgmt_process k a q.at hz q.mbuf q.frame in
      probes-append first.1 (drain k first.0 hz qs).1
      ∙ omega
          (arith, probes-op a q.at hz q.mbuf q.frame q.frame.op refl, probes-drain hz qs first.0)

  pub probes-ticks : (hz : ℕ) (ts : List Tick) (a : ArpPort k) → probes (ticks k hz ts a).1 ≡ 0
  unfolding ticks mgmt_tick
  probes-ticks hz [] a = refl
  probes-ticks hz (t ∷ ts) a =
      let first = mgmt_tick k a t.now hz t.queue in
      probes-append first.1 (ticks k hz ts first.0).1
      ∙ omega (arith, probes-drain hz t.queue a, probes-ticks hz ts first.0)
