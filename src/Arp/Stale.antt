-- ===== src/Arp/Stale.antt =====
-- An entry that goes stale stays so: no tick asks for its address again.
use ai_pattarai.Common.{
  ℕ, zero, suc, ◌*◌, ◌≡◌, ◌≢◌, refl, sym, ap, ◌∙◌, Bool, true, false, not, ◌&&◌, ltb, leb, ◌==◌,
  ==_false, if◌then◌else◌, Bool-cases, Option-cases, inl, inr, none, some, List, [], ◌∷◌, get_or,
  get_or-set_ne, u64, sub64,
}
use ai_pattarai.Arp.{
  KeyTable, ArpPort, ArpEntry, ArpFrame, Op, request, reply, other, Queued, stale, zero_entry,
  probe_before_expiry, is_resolved, tick_entry, tick_entries, mgmt_process, drain, mgmt_tick,
  entry_at, put_entry, resolve, learn, found_mac, lookup,
}
use ai_pattarai.Arp.Keys.{Lawful}
use ai_pattarai.Arp.Ticks.{Tick, ticks, probes, probes-ticks}

-- No frame comes from the address.
abbrev pub silent : ℕ → List Queued → Bool
silent ip [] = true
silent ip (q ∷ qs) = not (q.frame.sender_ip == ip) && silent ip qs

abbrev pub silent_ticks : ℕ → List Tick → Bool
silent_ticks ip [] = true
silent_ticks ip (t ∷ ts) = silent ip t.queue && silent_ticks ip ts

both : (b c : Bool) → (b && c) ≡ true → (b ≡ true) × (c ≡ true)
both true c h = (refl, h)
both false c h = cc

not-false : (b : Bool) → not b ≡ true → b ≡ false
not-false true h = cc
not-false false h = refl

tick_entries-at :
    (now hz : ℕ) (es : List ArpEntry) (i : ℕ)
    → get_or (tick_entries now hz es) i zero_entry ≡ tick_entry now hz (get_or es i zero_entry)
unfolding tick_entry
tick_entries-at now hz [] i = refl
tick_entries-at now hz (e ∷ es) zero = refl
tick_entries-at now hz (e ∷ es) (suc i) = tick_entries-at now hz es i

settled : (now hz : ℕ) (e : ArpEntry) → is_resolved e.state ≡ false → tick_entry now hz e ≡ e
unfolding tick_entry
settled now hz e h = rw h refl

-- The 30 seconds before the entry expires, as the tick computes them.
abbrev pub in_probe_window : ℕ → ℕ → ArpEntry → Bool
in_probe_window now hz e =
    leb (sub64 e.expire_tsc (u64 (hz * probe_before_expiry))) now && ltb now e.expire_tsc

goes_stale :
    (now hz : ℕ) (e : ArpEntry)
    → is_resolved e.state ≡ true
    → in_probe_window now hz e ≡ true
    → tick_entry now hz e ≡ record e { state = stale }
unfolding tick_entry
goes_stale now hz e r w = rw (r, w) refl

module _ (k : KeyTable) (law : Lawful k) (ip i : ℕ) where
  -- The address has the entry `i`, which is `e`.
  abbrev Tracks : ArpPort k → ArpEntry → Type 0
  Tracks a e = (k.find a.table ip ≡ some i) × (entry_at k a i ≡ e)

  -- The entry of another address is another one.
  put-Tracks :
      (a : ArpPort k) (e new : ArpEntry) (from j : ℕ)
      → Tracks a e
      → (from == ip) ≡ false
      → k.find a.table from ≡ some j
      → Tracks (put_entry k a j new) e
  put-Tracks a e new from j (at, same) ne found =
      let apart : j ≢ i = λ ji.
        ==_false from ip ne
          (law.find_distinct a.table from ip j found (at ∙ ap (λ (x : ℕ). some x) (sym ji))) in
      (at, get_or-set_ne a.entries j i new zero_entry apart ∙ same)

  learn-Tracks :
      (a : ArpPort k) (e : ArpEntry) (now hz : ℕ) (f : ArpFrame)
      → Tracks a e
      → (f.sender_ip == ip) ≡ false
      → let (found, table') = k.add_key a.table f.sender_ip in
        Tracks (learn k (record a { table = table' }) now hz f found) e
  learn-Tracks a e now hz f (at, same) ne =
      let table' = (k.add_key a.table f.sender_ip).1 in
      let kept = law.find-add_key_ne a.table f.sender_ip ip (==_false f.sender_ip ip ne) ∙ at in
      elim (Option-cases (k.add_key a.table f.sender_ip).0) [
        | inl full ↦ rw full (kept, same)
        | inr (j, added) ↦ rw added (
            put-Tracks (record a { table = table' }) e
              (resolve now hz f.sender_mac (entry_at k (record a { table = table' }) j)) f.sender_ip
              j (kept, same) ne (law.find-add_key a.table f.sender_ip j added))
      ]

  process-Tracks :
      (a : ArpPort k) (e : ArpEntry) (now hz : ℕ) (mbuf : Bool) (f : ArpFrame) (o : Op)
      → f.op ≡ o
      → Tracks a e
      → (f.sender_ip == ip) ≡ false
      → Tracks (mgmt_process k a now hz mbuf f).0 e
  unfolding mgmt_process
  process-Tracks a e now hz mbuf f request op t ne =
      rw op (elim (Bool-cases (f.target_ip == a.local_ip)) [
        | inl ours ↦ rw ours (learn-Tracks a e now hz f t ne)
        | inr theirs ↦ rw theirs t
      ])
  process-Tracks a e now hz mbuf f reply op t ne =
      rw op (elim (Option-cases (k.find a.table f.sender_ip)) [
        | inl unknown ↦ rw unknown t
        | inr (j, known) ↦ rw known (
            put-Tracks a e (record (resolve now hz f.sender_mac (entry_at k a j)) { hold = [] })
              f.sender_ip j t ne known)
      ])
  process-Tracks a e now hz mbuf f other op t ne = rw op t

  drain-Tracks :
      (hz : ℕ) (qs : List Queued) (a : ArpPort k) (e : ArpEntry)
      → Tracks a e
      → silent ip qs ≡ true
      → Tracks (drain k a hz qs).0 e
  unfolding drain
  drain-Tracks hz [] a e t h = t
  drain-Tracks hz (q ∷ qs) a e t h =
      let (here, later) = both (not (q.frame.sender_ip == ip)) (silent ip qs) h in
      drain-Tracks hz qs (mgmt_process k a q.at hz q.mbuf q.frame).0 e
        (process-Tracks a e q.at hz q.mbuf q.frame q.frame.op refl t
          (not-false (q.frame.sender_ip == ip) here))
        later

  mgmt_tick-Tracks :
      (hz : ℕ) (t : Tick) (a : ArpPort k) (e : ArpEntry)
      → Tracks a e
      → silent ip t.queue ≡ true
      → Tracks (mgmt_tick k a t.now hz t.queue).0 (tick_entry t.now hz e)
  unfolding mgmt_tick
  mgmt_tick-Tracks hz t a e known h =
      let (at, same) = drain-Tracks hz t.queue a e known h in
      (
        at,
        tick_entries-at t.now hz (drain k a hz t.queue).0.entries i ∙ ap (tick_entry t.now hz) same,
      )

  ticks-Tracks :
      (hz : ℕ) (ts : List Tick) (a : ArpPort k) (e : ArpEntry)
      → Tracks a e
      → is_resolved e.state ≡ false
      → silent_ticks ip ts ≡ true
      → Tracks (ticks k hz ts a).0 e
  unfolding ticks
  ticks-Tracks hz [] a e known idle h = known
  ticks-Tracks hz (t ∷ ts) a e known idle h =
      let (here, later) = both (silent ip t.queue) (silent_ticks ip ts) h in
      ticks-Tracks hz ts (mgmt_tick k a t.now hz t.queue).0 e
        (let (at, same) = mgmt_tick-Tracks hz t a e known here in
          (at, same ∙ settled t.now hz e idle))
        idle later

  -- With a table that does what `rte_hash` documents, an address whose entry is resolved, and in the
  -- 30 seconds before it expires at the first of some ticks; none of them finds an ARP frame from
  -- this address in the ring. Whatever else the rings hold, after these ticks the entry is stale and
  -- otherwise as it was, the cache has no answer for the address, and the ticks have asked for no
  -- address at all.
  pub stale_for_good :
      (hz : ℕ) (t : Tick) (later : List Tick) (a : ArpPort k)
      → k.find a.table ip ≡ some i
      → is_resolved (entry_at k a i).state ≡ true
      → in_probe_window t.now hz (entry_at k a i) ≡ true
      → silent_ticks ip (t ∷ later) ≡ true
      → let (a', sent) = ticks k hz (t ∷ later) a in
        (lookup k a' ip ≡ none)
        × (entry_at k a' i ≡ record (entry_at k a i) { state = stale })
        × (probes sent ≡ 0)
  unfolding lookup ticks
  stale_for_good hz t later a at r window h =
      let e = entry_at k a i in
      let (here, rest) = both (silent ip t.queue) (silent_ticks ip later) h in
      let (at1, same1) = mgmt_tick-Tracks hz t a e (at, refl) here in
      let (at', same) =
        ticks-Tracks hz later (mgmt_tick k a t.now hz t.queue).0 (record e { state = stale })
          (at1, same1 ∙ goes_stale t.now hz e r window) refl rest in
      (
        ap (found_mac k (ticks k hz (t ∷ later) a).0) at'
            ∙ ap (λ (x : ArpEntry). if is_resolved x.state then some x.mac else none) same,
        same,
        probes-ticks k hz (t ∷ later) a,
      )
