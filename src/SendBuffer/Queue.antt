-- ===== src/SendBuffer/Queue.antt =====
-- The send buffer holds a queue of bytes: `append` adds at the end what fits, `ack` drops from the
-- front, and neither touches memory out of bounds.
use ai_pattarai.Common.{
  ℕ, zero, suc, ◌+◌, ◌-◌, ◌^◌, ◌≤◌, ◌<◌, ◌≡◌, ◌∙◌, refl, sym, ap, List, [], ◌∷◌, ◌++◌, arith,
  length, take, drop, length-append, length-take, length-drop, min, u32,
}
use native.Mathlib.Nat.{zero-add, suc-add}
use mathlib.Core.List.{append-nil}
use ai_pattarai.SendBuffer.{SndBuf, blit, append, ack}

-- The queued bytes, oldest first.
abbrev pub contents : SndBuf → List ℕ
contents sb = take sb.len sb.bytes

pub record IsValid (sb : SndBuf) : Type 0 where
  pub room : length sb.bytes ≡ sb.cap
  pub within : sb.len ≤ sb.cap
  pub small : sb.cap < 2 ^ 32

module _ {ℓ} {A : Type ℓ} where
  take-append_ge : (xs ys : List A) (n : ℕ) → take (length xs + n) (xs ++ ys) ≡ xs ++ take n ys
  take-append_ge [] ys n = rw zero-add
  take-append_ge (x ∷ xs) ys n = rw suc-add (ap (λ l. x ∷ l) (take-append_ge xs ys n))

  take_all : (xs ys : List A) → take (length xs) (xs ++ ys) ≡ xs
  take_all [] ys = refl
  take_all (x ∷ xs) ys = ap (λ l. x ∷ l) (take_all xs ys)

  take-nil : (n : ℕ) → take n [] ≡ (let l : List A = [] in l)
  take-nil zero = refl
  take-nil (suc n) = refl

  drop-take : (n k : ℕ) (xs : List A) → drop k (take (k + n) xs) ≡ take n (drop k xs)
  drop-take n zero xs = rw zero-add
  drop-take n (suc k) [] = rw (take-nil (suc k + n), take-nil n)
  drop-take n (suc k) (x ∷ xs) = rw suc-add (drop-take n k xs)

drop_past : (n : ℕ) (xs : List ℕ) → length xs ≤ n → drop n xs ≡ []
drop_past zero [] h = refl
drop_past (suc n) [] h = refl
drop_past zero (x ∷ xs) h = absurd (omega arith)
drop_past (suc n) (x ∷ xs) h = drop_past n xs (omega arith)

-- what `memcpy` leaves up to the end of the copy
take-blit :
    (dst src : List ℕ) (off : ℕ)
    → off ≤ length dst
    → take (off + length src) (blit dst off src) ≡ take off dst ++ src
take-blit dst src zero h = rw zero-add (take_all src (drop (length src) dst))
take-blit [] src (suc off) h = absurd (omega arith)
take-blit (x ∷ dst) src (suc off) h =
    rw suc-add (ap (λ l. x ∷ l) (take-blit dst src off (omega arith)))

take-blit_at :
    (dst src : List ℕ) (off k : ℕ)
    → off ≤ length dst
    → length src ≡ k
    → take (off + k) (blit dst off src) ≡ take off dst ++ src
take-blit_at dst src off k h e = rw (← e) (take-blit dst src off h)

length-blit :
    (dst src : List ℕ) (off : ℕ)
    → off + length src ≤ length dst
    → length (blit dst off src) ≡ length dst
length-blit dst src off h = omega (
  arith,
  length-append (take off dst) (src ++ drop (off + length src) dst),
  length-append src (drop (off + length src) dst),
  length-take off dst,
  length-drop (off + length src) dst,
)

stored :
    (sb : SndBuf) (src : List ℕ) (k : ℕ)
    → IsValid sb
    → k ≤ length src
    → k ≤ sb.cap - sb.len
    → (take (sb.len + k) (blit sb.bytes sb.len (take k src)) ≡ contents sb ++ take k src)
      × (length (blit sb.bytes sb.len (take k src)) ≡ length sb.bytes)
stored sb src k v p q =
    let all : length (take k src) ≡ k = omega (arith, length-take k src) in
    (
      take-blit_at sb.bytes (take k src) sb.len k (omega arith) all,
      length-blit sb.bytes (take k src) sb.len (omega arith),
    )

-- For a valid buffer, `append` takes as many of the `len` bytes at `src` as there is room for,
-- returns their number, puts exactly those bytes behind the queued ones in order, and keeps the
-- buffer valid and its sequence number.
pub append_lem :
    (sb : SndBuf) (src : List ℕ) (len : ℕ)
    → IsValid sb
    → len ≤ length src
    → let (n, sb') = append sb src len in
      (n ≡ min len (sb.cap - sb.len))
      × (contents sb' ≡ contents sb ++ take n src)
      × IsValid sb'
      × (sb'.base_seq ≡ sb.base_seq)
unfolding append
append_lem sb src len v h =
    ground
      (arith, append-nil (contents sb), stored sb src len v h, stored sb src (sb.cap - sb.len) v)

-- what `memmove` to the front leaves of the queue
moved :
    (sb : SndBuf) (a : ℕ)
    → IsValid sb
    → a ≤ sb.len
    → let m = blit sb.bytes 0 (take (sb.len - a) (drop a sb.bytes)) in
      (take (sb.len - a) m ≡ drop a (contents sb)) × (length m ≡ length sb.bytes)
moved sb a v h =
    let part = take (sb.len - a) (drop a sb.bytes) in
    let back : a + (sb.len - a) ≡ sb.len = omega arith in
    let all : length part ≡ sb.len - a =
      omega (arith, length-take (sb.len - a) (drop a sb.bytes), length-drop a sb.bytes) in
    (
      rw zero-add at (take-blit_at sb.bytes part 0 (sb.len - a) (omega arith) all)
          ∙ sym (rw back at (drop-take (sb.len - a) a sb.bytes)),
      length-blit sb.bytes part 0 (omega (arith, all)),
    )

-- For a valid buffer, `ack` drops the acknowledged bytes from the front of the queue (all of them
-- when more are acknowledged than are queued), advances the sequence number by as many bytes as it
-- dropped, and keeps the buffer valid.
pub ack_lem :
    (sb : SndBuf) (acked : ℕ)
    → IsValid sb
    → (contents (ack sb acked) ≡ drop acked (contents sb))
      × ((ack sb acked).len ≡ sb.len - acked)
      × ((ack sb acked).base_seq ≡ u32 (sb.base_seq + min acked sb.len))
      × IsValid (ack sb acked)
unfolding ack
ack_lem sb acked v =
    ground (arith, moved sb acked v, drop_past acked (contents sb), length-take sb.len sb.bytes)
