-- ===== src/Transmit/Drain.antt =====
-- What `snd_buf_drain` sends: the unsent bytes in order, within the window, in segments of the MSS.
use ai_pattarai.Common.{
  ℕ, zero, suc, ◌+◌, ◌-◌, ◌^◌, ◌≤◌, ◌<◌, ◌≡◌, refl, sym, subst, ap, ◌∙◌, arith, Bool, false, leb,
  leb→le, ◌==◌, ==_iff, Bool-cases, inl, inr, ◌⊎◌, Option, some, List, [], ◌∷◌, ◌++◌, length, take,
  drop, length-take, length-drop, u32, sub32, min, max,
}
use native.Mathlib.Nat.{zero-add, suc-add}
use ai_pattarai.SendBuffer.{SndBuf}
use ai_pattarai.SendBuffer.Queue
use ai_pattarai.Tcb.{Tcb}
use ai_pattarai.Transmit.{
  Segment, tgen_min, effective_mss, window, sendable, sent_segment, drain_loop, snd_buf_drain,
  drain_buf,
}

-- The bytes that the segments carry.
abbrev pub payloads : List Segment → List ℕ
payloads [] = []
payloads (s ∷ ss) = s.payload ++ payloads ss

-- Segments that follow each other from a sequence number on, none empty or longer than the limit.
abbrev pub Follows : ℕ → ℕ → List Segment → Type 0
Follows limit seq [] = 0 ≤ 0
Follows limit seq (s ∷ ss) =
    (s.seq ≡ seq)
    × (0 < length s.payload)
    × (length s.payload ≤ limit)
    × Follows limit (u32 (seq + length s.payload)) ss

module _ {A : Type 0} where
  take-empty : (n : ℕ) → take n [] ≡ (let l : List A = [] in l)
  take-empty zero = refl
  take-empty (suc n) = refl

  drop-empty : (n : ℕ) → drop n [] ≡ (let l : List A = [] in l)
  drop-empty zero = refl
  drop-empty (suc n) = refl

  take-plus : (m n : ℕ) (xs : List A) → take (m + n) xs ≡ take m xs ++ take n (drop m xs)
  take-plus zero n xs = rw zero-add refl
  take-plus (suc m) n [] = rw (take-empty (suc m + n), take-empty n) refl
  take-plus (suc m) n (x ∷ xs) = rw suc-add (ap (λ l. x ∷ l) (take-plus m n xs))

  drop-plus : (m n : ℕ) (xs : List A) → drop (m + n) xs ≡ drop n (drop m xs)
  drop-plus zero n xs = rw zero-add refl
  drop-plus (suc m) n [] = rw (drop-empty (suc m + n), drop-empty n) refl
  drop-plus (suc m) n (x ∷ xs) = rw suc-add (drop-plus m n xs)

-- The specification of a drain from `offset` on: n bytes go out, and it stops because a segment was
-- not accepted or because the buffer or the window is used up.
abbrev pub Drained : (ℕ → Bool) → Tcb → SndBuf → ℕ → List Segment × Tcb → Type 0
Drained send_ok t sb offset (segs, t') =
    (n : ℕ) × (offset + n ≤ sb.len)
    × (offset + n ≤ max offset (window t))
    × (payloads segs ≡ take n (drop offset sb.bytes))
    × (t'.snd_nxt ≡ u32 (t.snd_una + (offset + n)))
    × Follows (effective_mss t) t.snd_nxt segs
    × ((send_ok (offset + n) ≡ false) ⊎ (offset + n ≡ max offset (min sb.len (window t))))

module _ (send_ok : ℕ → Bool) (sb : SndBuf) (v : Queue.IsValid sb) where
  module _ (t : Tcb) (offset : ℕ) (una : t.snd_una < 2 ^ 32)
      (at : t.snd_nxt ≡ u32 (t.snd_una + offset)) (inside : offset ≤ sb.len) where
    in_flight-eq : sub32 t.snd_nxt t.snd_una ≡ offset
    in_flight-eq = omega (arith, v.within, v.small)

    unsent-eq : sub32 sb.len offset ≡ sb.len - offset
    unsent-eq = omega (arith, v.within, v.small)

    sendable-eq : sendable t sb offset ≡ min (sb.len - offset) (window t - offset)
    sendable-eq = rw (in_flight-eq, unsent-eq) (ground arith)

    -- Nothing more is sent.
    stopped :
        (send_ok offset ≡ false) ⊎ (offset ≡ max offset (min sb.len (window t)))
        → Drained send_ok t sb offset ([], t)
    stopped why =
        let none' : offset + 0 ≡ offset = omega arith in
        (0, omega arith, omega arith, refl, rw none' at, omega arith, rw none' why)

    -- What a round sends.
    abbrev m : ℕ
    m = tgen_min (sendable t sb offset) (effective_mss t)

    m-le : (m ≤ sb.len - offset) × (m ≤ window t - offset) × (m ≤ effective_mss t)
    m-le = ground (arith, sendable-eq)

    mss-pos : 0 < effective_mss t
    mss-pos = ground arith

    m-pos : (sendable t sb offset == 0) ≡ false → 0 < m
    m-pos h = ground (arith, mss-pos)

    abbrev segment : Segment
    segment = record { payload = take m (drop offset sb.bytes); seq = t.snd_nxt; ack = t.rcv_nxt }

    segment-len : length segment.payload ≡ m
    segment-len = omega (
      arith,
      length-take m (drop offset sb.bytes),
      length-drop offset sb.bytes,
      v.room,
      v.within,
      m-le,
    )

    next_at : (sent_segment t m).snd_nxt ≡ u32 (t.snd_una + (offset + m))
    next_at = omega (arith, at)

    next_offset : u32 (offset + m) ≡ offset + m
    next_offset = omega (arith, v.within, v.small, m-le)

    -- One segment and what follows it.
    sent :
        (rest : List Segment × Tcb)
        → 0 < m
        → Drained send_ok (sent_segment t m) sb (offset + m) rest
        → Drained send_ok t sb offset (segment ∷ rest.0, rest.1)
    sent rest pos (n, fits, in_window, bytes, nxt, follow, why) =
        let whole : offset + m + n ≡ offset + (m + n) = omega arith in
        (
          m + n,
          omega arith,
          omega (arith, m-le),
          ap (λ (l : List ℕ). segment.payload ++ l)
                (bytes ∙ ap (take n) (drop-plus offset m sb.bytes))
              ∙ sym (take-plus m n (drop offset sb.bytes)),
          nxt ∙ ap (λ (x : ℕ). u32 (t.snd_una + x)) whole,
          (
            refl,
            omega (arith, segment-len),
            omega (arith, segment-len, m-le),
            rw segment-len follow,
          ),
          rw whole at (reason why),
        )
      where
        reason :
            (send_ok (offset + m + n) ≡ false)
              ⊎ (offset + m + n ≡ max (offset + m) (min sb.len (window t)))
            → (send_ok (offset + m + n) ≡ false)
              ⊎ (offset + m + n ≡ max offset (min sb.len (window t)))
        reason (inl failed) = inl failed
        reason (inr all) = inr (omega (arith, m-le))

  drain_loop-Drained :
      (fuel : ℕ) (t : Tcb) (offset : ℕ)
      → t.snd_una < 2 ^ 32
      → t.snd_nxt ≡ u32 (t.snd_una + offset)
      → offset ≤ sb.len
      → sb.len - offset ≤ fuel
      → Drained send_ok t sb offset (drain_loop send_ok fuel t sb offset)
  unfolding drain_loop
  drain_loop-Drained zero t offset una at inside enough =
      stopped t offset una at inside (inr (omega arith))
  drain_loop-Drained (suc fuel) t offset una at inside enough =
      elim (Bool-cases (leb sb.len offset)) [
        | inl empty' ↦
            rw empty'
              (stopped t offset una at inside (inr (omega (arith, leb→le sb.len offset empty'))))
        | inr more ↦ elim (Bool-cases (sendable t sb offset == 0)) [
          | inl closed ↦
              rw (more, closed)
                (stopped t offset una at inside (
                  inr (
                    omega (
                      arith,
                      sendable-eq t offset una at inside,
                      (==_iff (sendable t sb offset) 0).0 closed,
                    ))))
          | inr open' ↦ elim (Bool-cases (send_ok offset)) [
            | inr refused ↦ rw (more, open', refused) (stopped t offset una at inside (inl refused))
            | inl accepted ↦
                let k = m t offset una at inside in
                let pos = m-pos t offset una at inside open' in
                rw (more, open', accepted, next_offset t offset una at inside)
                  (sent t offset una at inside
                    (drain_loop send_ok fuel (sent_segment t k) sb (offset + k)) pos
                    (drain_loop-Drained fuel (sent_segment t k) (offset + k) una
                      (next_at t offset una at inside) (omega (arith, m-le t offset una at inside))
                      (omega arith)))
          ]
        ]
      ]

drain_buf-Drained :
    (send_ok : ℕ → Bool) (t : Tcb) (sb : SndBuf)
    → Queue.IsValid sb
    → 0 < sb.len
    → t.snd_una < 2 ^ 32
    → t.snd_nxt < 2 ^ 32
    → sub32 t.snd_nxt t.snd_una ≤ sb.len
    → Drained send_ok t sb (sub32 t.snd_nxt t.snd_una) (drain_buf send_ok t (some sb))
drain_buf-Drained send_ok t sb v pos una nxt held =
    let some_left : (sb.len == 0) ≡ false = ground arith in
    rw some_left (
      drain_loop-Drained send_ok sb v sb.len t (sub32 t.snd_nxt t.snd_una) una (omega arith) held
        (omega arith))

-- For a connection with a valid, non-empty send buffer that has sent no more than it holds,
-- `snd_buf_drain` sends the unsent bytes in order from snd_nxt on, in consecutive segments that are
-- not empty and not longer than the effective MSS, advances snd_nxt by as many, and never beyond the
-- buffer or the lesser of the two windows. It stops only when a segment is not accepted, or when all
-- that the buffer and the windows allow is sent.
pub snd_buf_drain-Drained :
    (send_ok : ℕ → Bool) (t : Tcb) (sb : SndBuf)
    → t.snd_buf ≡ some sb
    → Queue.IsValid sb
    → 0 < sb.len
    → t.snd_una < 2 ^ 32
    → t.snd_nxt < 2 ^ 32
    → sub32 t.snd_nxt t.snd_una ≤ sb.len
    → Drained send_ok t sb (sub32 t.snd_nxt t.snd_una) (snd_buf_drain send_ok t)
unfolding snd_buf_drain
snd_buf_drain-Drained send_ok t sb has v pos una nxt held =
    subst
      (λ (b : Option SndBuf).
        Drained send_ok t sb (sub32 t.snd_nxt t.snd_una) (drain_buf send_ok t b))
      (sym has) (drain_buf-Drained send_ok t sb v pos una nxt held)
