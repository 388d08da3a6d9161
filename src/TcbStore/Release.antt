-- ===== src/TcbStore/Release.antt =====
-- Releasing a live TCB keeps the invariant of the store.
use ai_pattarai.Common.{
  ℕ, ◌+◌, ◌<◌, ◌≡◌, ◌≢◌, refl, sym, ap, ◌∙◌, subst, true, false, arith, length, get_or, set, some,
  get_or-set_self, get_or-set_ne, length-set,
}
use native.Mathlib.Decide.{ℕ_discrete}
use ai_pattarai.Tcb.{Tcb, zero_tcb}
use ai_pattarai.Worker.{tombstone, index, Store}
use ai_pattarai.TcbStore.{slot_at, remove_slot, release, clear_slot}
use ai_pattarai.TcbStore.Table.{is_index, occupied, occupied-set_tombstone, occupied_pos, index_in}
use ai_pattarai.TcbStore.Loops.{remove_slot_finds}
use ai_pattarai.TcbStore.Inv.{IsValid, Reaches, Reaches-set, live, live_in, tuple_of}

index-injective : {a b : ℕ} → index a ≡ index b → a ≡ b
index-injective e = cc

module _ (s : Store) (ci : ℕ) (v : IsValid s) (is_live : live s ci ≡ true) where
  -- The removal loop finds the slot of a live TCB.
  pub slot_of_live :
      (p : ℕ) × (remove_slot s (tuple_of s ci) ci s.ht_size 0 ≡ some p) × (slot_at s p ≡ index ci)
  slot_of_live =
      let (k, l, at, prefix) = v.located ci is_live in
      remove_slot_finds s (tuple_of s ci) ci s.ht_size 0 k (omega arith) (omega arith) at prefix

  p : ℕ
  p = slot_of_live.0

  at_p : slot_at s p ≡ index ci
  unfolding p
  at_p = slot_of_live.2

  table : (release s ci).ht ≡ set s.ht p tombstone
  unfolding p
  table = ap (λ o. clear_slot o s.ht) slot_of_live.1

  index_at_p : is_index (slot_at s p) ≡ true
  index_at_p = rw at_p

  p_in : p < length s.ht
  p_in = index_in s.ht p index_at_p

  counted : 0 < s.count
  counted = omega (arith, occupied_pos s.ht p index_at_p, v.filled)

  room : s.free_top < length s.free_stack
  room = omega (arith, counted, v.balance, v.stack_len)

  top : (release s ci).free_top ≡ s.free_top + 1
  top = omega (arith, room, v.stack_len, v.roomy, v.size_small)

  pub released : get_or (release s ci).tcbs ci zero_tcb ≡ zero_tcb
  released = get_or-set_self s.tcbs ci zero_tcb zero_tcb (live_in s ci is_live)

  pub others : (i : ℕ) → ci ≢ i → get_or (release s ci).tcbs i zero_tcb ≡ get_or s.tcbs i zero_tcb
  others i ne = get_or-set_ne s.tcbs ci i zero_tcb zero_tcb ne

  pushed : get_or (release s ci).free_stack s.free_top 0 ≡ ci
  pushed = get_or-set_self s.free_stack s.free_top ci 0 room

  kept_free :
      (a : ℕ) → a < s.free_top → get_or (release s ci).free_stack a 0 ≡ get_or s.free_stack a 0
  kept_free a l = get_or-set_ne s.free_stack s.free_top a ci 0 (λ e. omega arith)

  free_not_ci : (a : ℕ) → a < s.free_top → get_or s.free_stack a 0 ≢ ci
  free_not_ci a l e = cc (ap (live s) e, v.free_unused a l)

  located_after :
      (i : ℕ) → live (release s ci) i ≡ true → Reaches (release s ci) (tuple_of (release s ci) i) i
  located_after i h = elim (ℕ_discrete ci i) [
    | yes same ↦ absurd (cc (ap (λ (t : Tcb). t.in_use) released, rw (← same) at h))
    | no other ↦
        let old = ap (λ (t : Tcb). t.in_use) (others i other) in
        let kept : Reaches (record s { ht = set s.ht p tombstone }) (tuple_of s i) i =
          Reaches-set s (tuple_of s i) i p tombstone p_in refl
            (λ e. other (index-injective (sym at_p ∙ e))) (v.located i (sym old ∙ h)) in
        subst (λ t. Reaches (release s ci) t i) (sym (ap (λ (t : Tcb). t.tuple) (others i other)))
          (subst (λ ht. Reaches (record s { ht = ht }) (tuple_of s i) i) (sym table) kept)
  ]

  unused_after :
      (a : ℕ)
      → a < (release s ci).free_top
      → live (release s ci) (get_or (release s ci).free_stack a 0) ≡ false
  unused_after a l = elim (ℕ_discrete a s.free_top) [
    | yes same ↦ rw (same, pushed) (ap (λ (t : Tcb). t.in_use) released)
    | no other ↦
        let low : a < s.free_top = omega (arith, top) in
        rw (kept_free a low) (
          ap (λ (t : Tcb). t.in_use)
            (others (get_or s.free_stack a 0) (λ e. free_not_ci a low (sym e)))
          ∙ v.free_unused a low)
  ]

  distinct_after :
      (a b : ℕ)
      → a < b
      → b < (release s ci).free_top
      → get_or (release s ci).free_stack a 0 ≢ get_or (release s ci).free_stack b 0
  distinct_after a b l u =
      let low : a < s.free_top = omega (arith, top) in
      elim (ℕ_discrete b s.free_top) [
        | yes same ↦ rw (same, pushed, kept_free a low) (free_not_ci a low)
        | no other ↦
            let high : b < s.free_top = omega (arith, top) in
            rw (kept_free a low, kept_free b high) (v.free_distinct a b l high)
      ]

  in_after :
      (a : ℕ) → a < (release s ci).free_top → get_or (release s ci).free_stack a 0 < s.capacity
  in_after a l = elim (ℕ_discrete a s.free_top) [
    | yes same ↦ rw (same, pushed) (omega (arith, live_in s ci is_live, v.tcbs_len))
    | no other ↦
        let low : a < s.free_top = omega (arith, top) in rw (kept_free a low) (v.free_in a low)
  ]

  filled_after : occupied (release s ci).ht ≡ (release s ci).count
  filled_after = rw table (
      omega (
        arith,
        occupied-set_tombstone s.ht p index_at_p,
        v.filled,
        v.balance,
        v.roomy,
        v.size_small,
      ))

  pub count-release : (release s ci).count + 1 ≡ s.count
  count-release = omega (arith, counted, v.balance, v.roomy, v.size_small)

  pub release-IsValid : IsValid (release s ci)
  release-IsValid = record {
    bits = v.bits;
    size_pow = v.size_pow;
    size_small = v.size_small;
    mask = v.mask;
    ht_len = ap length table ∙ length-set s.ht p tombstone ∙ v.ht_len;
    tcbs_len = length-set s.tcbs ci zero_tcb ∙ v.tcbs_len;
    stack_len = length-set s.free_stack s.free_top ci ∙ v.stack_len;
    roomy = v.roomy;
    balance = omega (arith, v.balance, counted, top, v.roomy, v.size_small);
    filled = filled_after;
    free_in = in_after;
    free_unused = unused_after;
    free_distinct = distinct_after;
    located = located_after;
  }
