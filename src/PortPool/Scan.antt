-- ===== src/PortPool/Scan.antt =====
-- `bm_find_next` finds the first free port from the cursor on, around the bitmap.
use ai_pattarai.Common.{
  ℕ, zero, suc, ◌+◌, ◌-◌, ◌*◌, ◌/◌, ◌%◌, ◌^◌, ◌≤◌, ◌<◌, ◌≡◌, ◌≢◌, refl, sym, ◌∙◌, arith, ltb, ◌==◌,
  ==_iff, ==_false, bit_and-le_left, ne→==_false, Bool-cases, inl, inr, Option, none, some, List,
  bit_and, uint64_max, testbit, testbit-suc, zero-testbit, ltb→lt, ltb-ge, testbit-bit_and,
  testbit-high_mask, testbit-low_mask, testbit-lt,
}
use native.Mathlib.Nat.{pow-suc}
use native.Mathlib.Decide.{dec_lt, ℕ_discrete}
use ai_pattarai.PortPool.{
  ephem_cnt, bitmap_words, word_at, bm_test, ctz, first_in, or_else, scan_up, scan_wrap, mask_from,
  bm_find_next,
}
use ai_pattarai.PortPool.Segment.{First, or_else-First, First-agree, First-start, First-end}

pub half_nonzero : (x : ℕ) → x ≢ 0 → x % 2 ≢ 1 → x / 2 ≢ 0
half_nonzero x h o z = h (omega arith)

clear_below :
    (x m k : ℕ)
    → x % 2 ≢ 1
    → ((j : ℕ) → j < m → testbit (x / 2) j ≡ 0)
    → k < suc m
    → testbit x k ≡ 0
clear_below x m zero even h l = omega arith
clear_below x m (suc k) even h l = testbit-suc x k ∙ h k (omega arith)

ctz_lem :
    (n x : ℕ)
    → x < 2 ^ n
    → x ≢ 0
    → (ctz n x < n) × (testbit x (ctz n x) ≡ 1) × ((k : ℕ) → k < ctz n x → testbit x k ≡ 0)
unfolding ctz
ctz_lem zero x h nz = absurd (nz (omega arith))
ctz_lem (suc n) x h nz = elim (ℕ_discrete (x % 2) 1) [
  | yes odd ↦ rw odd (omega arith, omega arith, λ k l. absurd (omega arith))
  | no even ↦
      let (small, set_, clear) =
        ctz_lem n (x / 2) (omega (arith, pow-suc 2 n)) (half_nonzero x nz even) in
      rw (ne→==_false (x % 2) 1 even) (
        omega arith,
        testbit-suc x (ctz n (x / 2)) ∙ set_,
        λ k l. clear_below x (ctz n (x / 2)) k even clear l,
      )
]

-- The digits of `word` in the place of word i.
abbrev word_bits : ℕ → ℕ → ℕ → ℕ
word_bits word i q = testbit word (q - i * 64)

first_in_lem :
    (word i : ℕ) → word < 2 ^ 64 → First (word_bits word i) (i * 64) (i * 64 + 64) (first_in word i)
first_in_lem word i h = elim (ℕ_discrete word 0) [
  | yes z ↦ rw z (λ q l u c. zero-testbit (q - i * 64))
  | no nz ↦
      let (small, at, below) = ctz_lem 64 word h nz in
      let pos : ℕ = i * 64 + ctz 64 word in
      let inner : pos - i * 64 ≡ ctz 64 word = omega arith in
      rw (ne→==_false word 0 nz) (elim (Bool-cases (ltb pos ephem_cnt)) [
        | inl y ↦ rw y (
          omega arith,
          omega arith,
          ltb→lt pos ephem_cnt y,
          rw inner at,
          λ q l u. below (q - i * 64) (omega arith),
        )
        | inr n ↦ rw n (λ q l u c. below (q - i * 64) (omega (arith, ltb-ge pos ephem_cnt n)))
      ])
]

-- Every word of the bitmap is a uint64_t.
abbrev pub Words : List ℕ → Type 0
Words map = (j : ℕ) → word_at map j < 2 ^ 64

bm_test_word :
    (map : List ℕ) (i q : ℕ)
    → i * 64 ≤ q
    → q < i * 64 + 64
    → bm_test map q ≡ word_bits (word_at map i) i q
unfolding bm_test
bm_test_word map i q h u =
    let quotient : q / 64 ≡ i = omega arith in
    let rest : q % 64 ≡ q - i * 64 = omega arith in rw (quotient, rest)

module _ (map : List ℕ) (words : Words map) where
  whole_word : (i : ℕ) → First (bm_test map) (i * 64) (i * 64 + 64) (first_in (word_at map i) i)
  whole_word i =
      First-agree (bm_test map) (word_bits (word_at map i) i) (i * 64) (i * 64 + 64)
        (first_in (word_at map i) i) (bm_test_word map i) (first_in_lem (word_at map i) i (words i))

  scan_up_lem :
      (rounds i hi : ℕ)
      → i * 64 + rounds * 64 ≡ hi
      → First (bm_test map) (i * 64) hi (scan_up map rounds i)
  unfolding scan_up
  scan_up_lem zero i hi e = λ q l u c. absurd (omega arith)
  scan_up_lem (suc rounds) i hi e =
      let next : (i + 1) * 64 ≡ i * 64 + 64 = omega arith in
      or_else-First (bm_test map) (i * 64) (i * 64 + 64) hi (first_in (word_at map i) i)
        (scan_up map rounds (i + 1)) (omega arith) (omega arith) (whole_word i)
        (rw next at (scan_up_lem rounds (i + 1) hi (omega arith)))

  module _ (w b : ℕ) (inside : b < 64) where
    First-word :
        First
          (bm_test map)
          (w * 64 + b)
          (w * 64 + 64)
          (first_in (bit_and (word_at map w) (mask_from b)) w)
    First-word =
        let a = word_at map w in
        let m = bit_and a (mask_from b) in
        let scan = first_in_lem m w (omega (arith, words w, bit_and-le_left a (mask_from b))) in
        First-agree (bm_test map) (word_bits m w) (w * 64 + b) (w * 64 + 64) (first_in m w)
          (λ q l u.
            bm_test_word map w q (omega arith) u
            ∙ sym (
                ground (
                  arith,
                  testbit-bit_and a (mask_from b) (q - w * 64),
                  testbit-high_mask b (q - w * 64) inside (omega arith),
                  testbit-lt a (q - w * 64),
                )))
          (First-start (word_bits m w) (w * 64) (w * 64 + b) (w * 64 + 64) (first_in m w)
            (omega arith)
            (λ q l u. ground (
              arith,
              testbit-bit_and a (mask_from b) (q - w * 64),
              testbit-high_mask b (q - w * 64) inside (omega arith),
            ))
            scan)

    last_word :
        First
          (bm_test map)
          (w * 64)
          (w * 64 + b)
          (first_in (bit_and (word_at map w) (uint64_max - mask_from b)) w)
    last_word =
        let a = word_at map w in
        let low : ℕ = uint64_max - mask_from b in
        let m = bit_and a low in
        let scan = first_in_lem m w (omega (arith, words w, bit_and-le_left a low)) in
        First-agree (bm_test map) (word_bits m w) (w * 64) (w * 64 + b) (first_in m w)
          (λ q l u.
            bm_test_word map w q (omega arith) (omega arith)
            ∙ sym (
                ground (
                  arith,
                  testbit-bit_and a low (q - w * 64),
                  testbit-low_mask b (q - w * 64) inside (omega arith),
                  testbit-lt a (q - w * 64),
                )))
          (First-end (word_bits m w) (w * 64) (w * 64 + b) (w * 64 + 64) (first_in m w)
            (omega arith)
            (λ q l u. ground (
              arith,
              testbit-bit_and a low (q - w * 64),
              testbit-low_mask b (q - w * 64) inside (omega arith),
            ))
            scan)

    or_else-none : (r : Option ℕ) → or_else r none ≡ r
    or_else-none none = refl
    or_else-none (some p) = refl

    scan_wrap_lem :
        (rounds i : ℕ)
        → i + rounds ≡ w + 1
        → First (bm_test map) (i * 64) (w * 64 + b) (scan_wrap map w b rounds i)
    unfolding scan_wrap
    scan_wrap_lem zero i e = λ q l u c. absurd (omega arith)
    scan_wrap_lem (suc rounds) i e = elim (Bool-cases (i == w)) [
      | inl same ↦
          let at : i ≡ w = (==_iff i w).0 same in
          let none_left : rounds ≡ 0 = omega arith in
          rw same (rw (at, none_left, or_else-none) last_word)
      | inr differ ↦
          let next : (i + 1) * 64 ≡ i * 64 + 64 = omega arith in
          let before : i < w = omega (arith, ==_false i w differ) in
          rw differ (
            or_else-First (bm_test map) (i * 64) (i * 64 + 64) (w * 64 + b)
              (first_in (word_at map i) i) (scan_wrap map w b rounds (i + 1)) (omega arith)
              (omega arith) (whole_word i)
              (rw next at (scan_wrap_lem rounds (i + 1) (omega arith))))
    ]

or_else_assoc : (a b c : Option ℕ) → or_else (or_else a b) c ≡ or_else a (or_else b c)
or_else_assoc none b c = refl
or_else_assoc (some p) b c = refl

-- How far `q` is ahead of `start`, around the ports.
abbrev pub ahead : ℕ → ℕ → ℕ
ahead start q = (q + ephem_cnt - start) % ephem_cnt

-- The specification of a search: no port is available, or `p` is and none closer to `start` is.
abbrev pub Nearest : List ℕ → ℕ → Option ℕ → Type 0
Nearest map start none = (q : ℕ) → q < ephem_cnt → bm_test map q ≡ 0
Nearest map start (some p) =
    (p < ephem_cnt)
    × (bm_test map p ≡ 1)
    × ((q : ℕ) → q < ephem_cnt → ahead start q < ahead start p → bm_test map q ≡ 0)

around :
    (map : List ℕ) (start : ℕ) (r r' : Option ℕ)
    → start < ephem_cnt
    → First (bm_test map) start (bitmap_words * 64) r
    → First (bm_test map) 0 start r'
    → Nearest map start (or_else r r')
around map start none none h up wrap = λ q c. elim (dec_lt q start) [
  | yes l ↦ wrap q (omega arith) l c
  | no g ↦ up q (omega arith) (omega arith) c
]
around map start none (some p) h up (l, u, c, at, before) = (
  c,
  at,
  λ q b near. elim (dec_lt q start) [
    | yes y ↦ before q (omega arith) (omega arith)
    | no g ↦ up q (omega arith) (omega arith) b
  ],
)
around map start (some p) r' h (l, u, c, at, before) wrap =
    (c, at, λ q b near. before q (omega arith) (omega arith))

-- On a bitmap of 64-bit words, `bm_find_next` finds an available port exactly when there is one, and
-- of those the first at or after `start`, around the range: word masks and both passes lose none.
pub bm_find_next-Nearest :
    (map : List ℕ) (start : ℕ)
    → Words map
    → start < ephem_cnt
    → Nearest map start (bm_find_next map start)
unfolding bm_find_next
bm_find_next-Nearest map start words h =
    let w : ℕ = start / 64 in
    let b : ℕ = start % 64 in
    let whole : w * 64 + b ≡ start = omega arith in
    let first = first_in (bit_and (word_at map w) (mask_from b)) w in
    let up = scan_up map (bitmap_words - (w + 1)) (w + 1) in
    let wrap = scan_wrap map w b (w + 1) 0 in
    let next : (w + 1) * 64 ≡ w * 64 + 64 = omega arith in
    rw (← or_else_assoc first up wrap) (
      around map start (or_else first up) wrap h
        (or_else-First (bm_test map) start (w * 64 + 64) (bitmap_words * 64) first up (omega arith)
          (omega arith) (rw whole at (First-word map words w b (omega arith)))
          (rw next at (
            scan_up_lem map words (bitmap_words - (w + 1)) (w + 1) (bitmap_words * 64)
              (omega arith))))
        (rw whole at (scan_wrap_lem map words w b (omega arith) (w + 1) 0 (omega arith))))
