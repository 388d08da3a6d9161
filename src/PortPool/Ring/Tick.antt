-- ===== src/PortPool/Ring/Tick.antt =====
-- `tcp_port_pool_tick` takes the expired entries off the front of the queue, and makes their ports
-- available.
use ai_pattarai.Common.{
  ℕ, zero, suc, ◌+◌, ◌-◌, ◌≤◌, ◌≡◌, refl, sym, ap, ◌∙◌, subst, arith, true, false, not, ltb, ◌==◌,
  ==_iff, ==_false, Bool-cases, inl, inr, List, [], ◌∷◌, length, get_or, bit_and,
}
use ai_pattarai.PortPool.{
  tw_ring_size, tw_ring_mask, TwEntry, WorkerPool, no_entry, release, tick, tick_loop,
}
use ai_pattarai.PortPool.Pools.{IsValid}
use ai_pattarai.PortPool.Alloc.{release_lem}
use ai_pattarai.PortPool.Rest.{with_pools}
use ai_pattarai.PortPool.Ring.{
  entries, count, pending, Ports, IsRing, release_keeps, release_ring, next_pos, expired,
  take_while, drop_while, release_all, release_all_rest,
}

-- The specification of a tick from wp to wp'.
abbrev pub Ticked : ℕ → WorkerPool → WorkerPool → Type 0
Ticked now wp wp' =
    IsValid wp'
    × IsRing wp'
    × (pending wp' ≡ drop_while (expired now) (pending wp))
    × (wp'
        ≡ with_pools (record wp { tw_head = wp'.tw_head })
            (release_all (take_while (expired now) (pending wp)) wp))

stay :
    (now : ℕ) (wp : WorkerPool) (es : List TwEntry)
    → IsValid wp
    → IsRing wp
    → pending wp ≡ es
    → take_while (expired now) es ≡ []
    → drop_while (expired now) es ≡ es
    → Ticked now wp wp
unfolding release_all
stay now wp es v r e t d = (v, r, rw (e, d) refl, rw (e, t) refl)

nothing_expired :
    (now : ℕ) (e : TwEntry) (es : List TwEntry)
    → expired now e ≡ false
    → (take_while (expired now) (e ∷ es) ≡ []) × (drop_while (expired now) (e ∷ es) ≡ e ∷ es)
unfolding take_while drop_while
nothing_expired now e es h = rw h (refl, refl)

first_expired :
    (now : ℕ) (e : TwEntry) (es : List TwEntry)
    → expired now e ≡ true
    → (take_while (expired now) (e ∷ es) ≡ e ∷ take_while (expired now) es)
      × (drop_while (expired now) (e ∷ es) ≡ drop_while (expired now) es)
unfolding take_while drop_while
first_expired now e es h = rw h (refl, refl)

module _ (now : ℕ) (wp : WorkerPool) (v : IsValid wp) (r : IsRing wp) where
  abbrev front : TwEntry
  front = get_or wp.tw_ring wp.tw_head no_entry

  abbrev after : WorkerPool
  after =
      let wp1 = release wp front.src_ip front.port in
      record wp1 { tw_head = bit_and (wp1.tw_head + 1) tw_ring_mask }

  module _ (n : ℕ) (some_left : count wp ≡ suc n) where
    after_count : count after ≡ n
    after_count =
        let (a, b, c) = release_ring wp front.src_ip front.port v in
        rw (b, c, next_pos wp.tw_head) (omega (arith, r.head_in, r.tail_in))

    after-pending : pending wp ≡ front ∷ pending after
    after-pending =
        let (a, b, c) = release_ring wp front.src_ip front.port v in
        ap (entries wp.tw_ring wp.tw_head) some_left
        ∙ ap (λ (es : List TwEntry). front ∷ es)
            (sym (rw (a, after_count, b, next_pos wp.tw_head) refl))

    front_port : Ports (front ∷ pending after)
    front_port = subst Ports after-pending r.ports

    after-IsRing : IsRing after
    after-IsRing =
        let (a, b, c) = release_ring wp front.src_ip front.port v in
        record {
          ring_len = ap (λ (l : List TwEntry). length l) a ∙ r.ring_len;
          head_in = rw next_pos (omega arith);
          tail_in = omega (arith, c, r.tail_in);
          ports = front_port.2;
        }

    after-IsValid : IsValid after
    after-IsValid =
        let valid = (release_lem wp front.src_ip v front.port front_port.0 front_port.1).0 in
        record { table_len = valid.table_len; table = valid.table; shared_pool = valid.shared_pool }

    step : (wp' : WorkerPool) → expired now front ≡ true → Ticked now after wp' → Ticked now wp wp'
    unfolding release_all
    step wp' h (valid, ring, left, state) =
        let (taken, dropped) = first_expired now front (pending after) h in
        let es = take_while (expired now) (pending after) in
        let wp1 = release wp front.src_ip front.port in
        (
          valid,
          ring,
          left ∙ sym (rw after-pending dropped),
          rw (after-pending, taken)
              (state
                ∙ ap (λ (w : WorkerPool). with_pools (record after { tw_head = wp'.tw_head }) w)
                    (release_all_rest es after wp1)
                ∙ ap
                    (λ (w : WorkerPool).
                      with_pools (record w { tw_head = wp'.tw_head }) (release_all es wp1))
                    (release_keeps wp front.src_ip front.port v)),
        )

-- As many rounds as there are entries are enough, and take no more than the expired ones.
tick_loop-Ticked :
    (fuel now : ℕ) (wp : WorkerPool)
    → IsValid wp
    → IsRing wp
    → count wp ≤ fuel
    → Ticked now wp (tick_loop fuel now wp)
unfolding tick_loop take_while drop_while
tick_loop-Ticked zero now wp v r enough =
    let none_left : count wp ≡ 0 = omega arith in
    stay now wp [] v r (ap (entries wp.tw_ring wp.tw_head) none_left) refl refl
tick_loop-Ticked (suc fuel) now wp v r enough = elim (Bool-cases (wp.tw_head == wp.tw_tail)) [
  | inl same ↦
      let none_left : count wp ≡ 0 =
        omega (arith, r.head_in, (==_iff wp.tw_head wp.tw_tail).0 same) in
      rw same (stay now wp [] v r (ap (entries wp.tw_ring wp.tw_head) none_left) refl refl)
  | inr differ ↦
      let n : ℕ = count wp - 1 in
      let left : count wp ≡ suc n =
        omega (arith, r.head_in, r.tail_in, ==_false wp.tw_head wp.tw_tail differ) in
      let e = front now wp v r in
      elim (Bool-cases (ltb now e.release_tsc)) [
        | inl held ↦
            let (t, d) = nothing_expired now e (pending (after now wp v r)) (ap not held) in
            rw (differ, held)
              (stay now wp (e ∷ pending (after now wp v r)) v r (after-pending now wp v r n left) t
                d)
        | inr over ↦
            rw (differ, over)
              (step now wp v r n left (tick_loop fuel now (after now wp v r)) (ap not over) (
                tick_loop-Ticked fuel now (after now wp v r) (after-IsValid now wp v r n left)
                  (after-IsRing now wp v r n left) (omega (arith, after_count now wp v r n left))))
      ]
]

-- `tcp_port_pool_tick` takes exactly the leading entries whose hold-off is over off the queue, and
-- makes their ports available in that order, which is all it changes. The pool and the ring stay
-- valid, and its loop ends within one round of the ring.
pub tick-Ticked : (wp : WorkerPool) (now : ℕ) → IsValid wp → IsRing wp → Ticked now wp (tick wp now)
unfolding tick
tick-Ticked wp now v r = tick_loop-Ticked tw_ring_size now wp v r (omega arith)
