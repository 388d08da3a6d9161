-- ===== src/Congestion/Window.antt =====
-- The congestion window of New Reno stays a window: at least one segment, and without overflow.
use ai_pattarai.Common.{
  ℕ, ◌+◌, ◌*◌, ◌/◌, ◌^◌, ◌≤◌, ◌<◌, ◌≡◌, ◌≢◌, ◌↔◌, refl, ap, ◌∙◌, arith, true, false, ltb, ◌==◌,
  ==_iff, ==_false, ne→==_false, if◌then◌else◌, Bool-cases, inl, inr, none, some, u32, sub32, min,
  max,
}
use native.Mathlib.Nat.{mul-le-mul_right, div-le_of_le-mul}
use ai_pattarai.Tcb.{Tcb, is_throughput}
use ai_pattarai.Congestion.{
  CubicMath, cc_cubic, cwnd_cap, cc_max, cc_min, newreno_on_ack, congestion_on_ack,
  congestion_fast_retransmit, congestion_on_rto,
}

-- A connection that New Reno controls.
pub record IsReno (t : Tcb) : Type 0 where
  pub controlled : is_throughput t.app_ctx ≡ false
  pub newreno : (t.cc_algo == cc_cubic) ≡ false
  pub mss_some : 0 < t.mss_remote
  pub mss_small : t.mss_remote < 2 ^ 16

pub record IsWindow (t : Tcb) : Type 0 where
  pub one_segment : t.mss_remote ≤ t.cwnd
  pub two_segments : 2 * t.mss_remote ≤ t.ssthresh
  pub no_overflow : t.cwnd ≤ 2 ^ 31 + 2 ^ 18
  pub recovering : (if t.in_fast_recovery then t.ssthresh else 0) ≤ 2 ^ 31

cc_max-ge : (a b : ℕ) → (a ≤ cc_max a b) × (b ≤ cc_max a b)
cc_max-ge a b = ground arith

cc_max-le : (a b c : ℕ) → a ≤ c → b ≤ c → cc_max a b ≤ c
cc_max-le a b c h u = ground arith

cc_min-eq : (a b : ℕ) → cc_min a b ≡ min a b
cc_min-eq a b = ground arith

module _ (m : CubicMath) (t : Tcb) (r : IsReno t) where
  abbrev half_flight : ℕ
  half_flight = sub32 t.snd_nxt t.snd_una / 2

  abbrev thresh : ℕ
  thresh = cc_max half_flight (2 * t.mss_remote)

  thresh-ge : 2 * t.mss_remote ≤ thresh
  thresh-ge = (cc_max-ge half_flight (2 * t.mss_remote)).1

  thresh-le : thresh ≤ 2 ^ 31
  thresh-le =
      cc_max-le half_flight (2 * t.mss_remote) (2 ^ 31) (omega arith) (omega (arith, r.mss_small))

  exact : u32 (thresh + 3 * t.mss_remote) ≡ thresh + 3 * t.mss_remote
  exact = omega (arith, r.mss_small, thresh-le)

  -- Three duplicate ACKs, from whatever window a New Reno connection with an MSS has, leave a valid
  -- window: the threshold is half of what is in flight but two segments at least, and the window is
  -- three segments above it, without overflow.
  pub fast_retransmit-IsWindow :
      let t' = congestion_fast_retransmit m t in
      IsWindow t'
      × (t'.ssthresh ≡ max (sub32 t.snd_nxt t.snd_una / 2) (2 * t.mss_remote))
      × (t'.cwnd ≡ t'.ssthresh + 3 * t.mss_remote)
  unfolding congestion_fast_retransmit
  fast_retransmit-IsWindow =
      rw (r.controlled, r.newreno)
        (
          record {
            one_segment = omega (arith, exact, thresh-ge);
            two_segments = thresh-ge;
            no_overflow = omega (arith, exact, thresh-le, r.mss_small);
            recovering = thresh-le;
          },
          ground arith,
          exact,
        )

  -- A retransmission timeout, from whatever window a New Reno connection with an MSS has, leaves a
  -- valid window of one segment, and ends fast recovery.
  pub rto-IsWindow :
      let t' = congestion_on_rto m t in
      IsWindow t' × (t'.cwnd ≡ t.mss_remote) × (t'.in_fast_recovery ≡ false)
  unfolding congestion_on_rto
  rto-IsWindow =
      rw (r.controlled, r.newreno)
        (
          record {
            one_segment = omega arith;
            two_segments = thresh-ge;
            no_overflow = omega (arith, r.mss_small);
            recovering = omega arith;
          },
          refl,
          refl,
        )

-- One segment at most in congestion avoidance.
avoidance_inc-le : (mss cwnd : ℕ) → mss ≤ cwnd → mss < 2 ^ 16 → u32 (mss * mss) / cwnd ≤ mss
avoidance_inc-le mss cwnd h u =
    let square : mss * mss ≤ cwnd * mss = mul-le-mul_right mss h in
    let small : mss * mss ≤ 2 ^ 16 * mss = mul-le-mul_right mss (omega arith) in
    let exact : u32 (mss * mss) ≡ mss * mss = omega (arith, small) in
    rw exact (div-le_of_le-mul cwnd {m = mss * mss} {n = mss} square)

at_least_one : (q : ℕ) → (if q == 0 then 1 else q) ≡ max 1 q
at_least_one q = ground arith

avoidance_inc-eq :
    (mss cwnd : ℕ)
    → mss < 2 ^ 16
    → (if u32 (mss * mss) / cwnd == 0 then 1 else u32 (mss * mss) / cwnd) ≡ max 1 (mss * mss / cwnd)
avoidance_inc-eq mss cwnd u =
    let small : mss * mss ≤ 65535 * mss = mul-le-mul_right mss (omega arith) in
    let exact : u32 (mss * mss) ≡ mss * mss = omega (arith, small) in
    at_least_one (u32 (mss * mss) / cwnd) ∙ ap (λ n. max 1 (n / cwnd)) exact

-- How much one acknowledgement adds outside fast recovery, in slow start and after it.
abbrev pub increment : Tcb → ℕ → ℕ
increment t acked =
    if ltb t.cwnd t.ssthresh
    then min acked t.mss_remote
    else max 1 (t.mss_remote * t.mss_remote / t.cwnd)

-- One acknowledgement: the window, the threshold, and that it leaves no fast recovery.
abbrev pub Grows : Tcb → ℕ → Tcb → Type 0
Grows t acked t' =
    (t'.cwnd
      ≡ (if t.in_fast_recovery then t.ssthresh else min (t.cwnd + increment t acked) cwnd_cap))
    × (t'.ssthresh ≡ t.ssthresh)
    × (t'.in_fast_recovery ≡ false)

module _ (t : Tcb) (r : IsReno t) (w : IsWindow t) where
  -- The window with an increment of one segment at most.
  module _ (out : t.in_fast_recovery ≡ false) (inc : ℕ) (h : 0 < inc) (u : inc ≤ t.mss_remote) where
    abbrev next : Tcb
    next = record t {
      cwnd = (if ltb cwnd_cap (u32 (t.cwnd + inc)) then cwnd_cap else u32 (t.cwnd + inc));
    }

    next-cwnd : next.cwnd ≡ min (t.cwnd + inc) cwnd_cap
    next-cwnd = ground (arith, w.no_overflow, r.mss_small)

    next-IsWindow : IsWindow next
    next-IsWindow = record {
      one_segment = omega (arith, next-cwnd, w.one_segment, r.mss_small);
      two_segments = w.two_segments;
      no_overflow = omega (arith, next-cwnd);
      recovering = w.recovering;
    }

  newreno_on_ack-IsWindow :
      (acked : ℕ)
      → acked ≢ 0
      → (t' : Tcb) × (newreno_on_ack t acked ≡ some t')
        × (t'.mss_remote ≡ t.mss_remote)
        × IsReno t'
        × IsWindow t'
        × Grows t acked t'
  unfolding newreno_on_ack
  newreno_on_ack-IsWindow acked nz = elim (Bool-cases t.in_fast_recovery) [
    | inl in_recovery ↦
        let low : t.ssthresh ≤ 2 ^ 31 = rw in_recovery at w.recovering in
        let t' = record t { cwnd = t.ssthresh; in_fast_recovery = false } in
        (
          t',
          rw in_recovery refl,
          refl,
          record {
            controlled = r.controlled;
            newreno = r.newreno;
            mss_some = r.mss_some;
            mss_small = r.mss_small;
          },
          record {
            one_segment = omega (arith, w.two_segments);
            two_segments = w.two_segments;
            no_overflow = omega (arith, low);
            recovering = omega arith;
          },
          rw in_recovery (refl, refl, refl),
        )
    | inr out ↦ elim (Bool-cases (ltb t.cwnd t.ssthresh)) [
      | inl slow ↦
          let inc : ℕ = cc_min acked t.mss_remote in
          let pos : 0 < inc = ground (arith, nz, r.mss_some) in
          let most : inc ≤ t.mss_remote = ground arith in
          (
            next out inc pos most,
            rw (out, slow) refl,
            refl,
            record {
              controlled = r.controlled;
              newreno = r.newreno;
              mss_some = r.mss_some;
              mss_small = r.mss_small;
            },
            next-IsWindow out inc pos most,
            (
              rw (out, slow)
                  (next-cwnd out inc pos most
                    ∙ ap (λ n. min (t.cwnd + n) cwnd_cap) (cc_min-eq acked t.mss_remote)),
              refl,
              out,
            ),
          )
      | inr avoid ↦
          let q : ℕ = u32 (t.mss_remote * t.mss_remote) / t.cwnd in
          let inc : ℕ = if q == 0 then 1 else q in
          let pos : 0 < inc = ground arith in
          let most : inc ≤ t.mss_remote =
            ground
              (arith, avoidance_inc-le t.mss_remote t.cwnd w.one_segment r.mss_small, r.mss_some) in
          let divisor : (t.cwnd == 0) ≡ false = ground (arith, w.one_segment, r.mss_some) in
          (
            next out inc pos most,
            rw (out, avoid, divisor) refl,
            refl,
            record {
              controlled = r.controlled;
              newreno = r.newreno;
              mss_some = r.mss_some;
              mss_small = r.mss_small;
            },
            next-IsWindow out inc pos most,
            (
              rw (out, avoid)
                  (next-cwnd out inc pos most
                    ∙ ap (λ n. min (t.cwnd + n) cwnd_cap)
                        (avoidance_inc-eq t.mss_remote t.cwnd r.mss_small)),
              refl,
              out,
            ),
          )
    ]
  ]

module _ (m : CubicMath) (now hz : ℕ) (t : Tcb) (acked : ℕ)
    (controlled : is_throughput t.app_ctx ≡ false) (newreno : (t.cc_algo == cc_cubic) ≡ false) where
  -- An acknowledgement that the code does not ignore.
  dispatch :
      (acked == 0) ≡ false
      → congestion_on_ack m now hz t acked ≡ newreno_on_ack (record t { dup_ack_count = 0 }) acked
  unfolding congestion_on_ack
  dispatch some_acked = rw (some_acked, controlled, newreno) refl

  ignored : (acked == 0) ≡ true → congestion_on_ack m now hz t acked ≡ some t
  unfolding congestion_on_ack
  ignored e = rw e refl

  newreno_none :
      newreno_on_ack (record t { dup_ack_count = 0 }) acked ≡ none
      ↔ ((t.in_fast_recovery ≡ false) × (t.cwnd ≡ 0) × (t.ssthresh ≡ 0))
  unfolding newreno_on_ack
  newreno_none = (λ e. ground arith, λ h. ground arith)

  -- Under New Reno, `congestion_on_ack` divides by zero exactly when an acknowledgement of new data
  -- outside fast recovery finds both the window and its threshold at 0.
  pub division_by_zero :
      congestion_on_ack m now hz t acked ≡ none
      ↔ ((acked ≢ 0) × (t.in_fast_recovery ≡ false) × (t.cwnd ≡ 0) × (t.ssthresh ≡ 0))
  division_by_zero = elim (Bool-cases (acked == 0)) [
    | inl z ↦ (λ e. cc (e, ignored z), λ h. absurd (h.0 ((==_iff acked 0).0 z)))
    | inr nz ↦ rw (dispatch nz) (
      λ e. let (a, b, c) = newreno_none.0 e in (==_false acked 0 nz, a, b, c),
      λ (n, a, b, c). newreno_none.1 (a, b, c),
    )
  ]

-- An acknowledgement of new data, on a valid window of a New Reno connection with an MSS, does not
-- divide by zero and keeps the window valid, the MSS and the threshold as they were. In fast recovery
-- the window becomes the threshold, and fast recovery is over. Otherwise the window grows, up to the
-- cap of 64 MB, by the bytes acknowledged but one segment at most in slow start, and after it by the
-- square of the MSS over the window but one byte at least, and fast recovery does not begin.
pub on_ack-IsWindow :
    (m : CubicMath) (now hz : ℕ) (t : Tcb) (acked : ℕ)
    → IsReno t
    → IsWindow t
    → acked ≢ 0
    → (t' : Tcb) × (congestion_on_ack m now hz t acked ≡ some t')
      × (t'.mss_remote ≡ t.mss_remote)
      × IsReno t'
      × IsWindow t'
      × Grows t acked t'
on_ack-IsWindow m now hz t acked r w nz =
    let t0 = record t { dup_ack_count = 0 } in
    let r0 : IsReno t0 = record {
      controlled = r.controlled;
      newreno = r.newreno;
      mss_some = r.mss_some;
      mss_small = r.mss_small;
    } in
    let w0 : IsWindow t0 = record {
      one_segment = w.one_segment;
      two_segments = w.two_segments;
      no_overflow = w.no_overflow;
      recovering = w.recovering;
    } in
    let (t', e, m', r', w', g) = newreno_on_ack-IsWindow t0 r0 w0 acked nz in
    (
      t',
      dispatch m now hz t acked r.controlled r.newreno (ne→==_false acked 0 nz) ∙ e,
      m',
      r',
      w',
      g,
    )
